-- ===== src/Reciprocity/Tests.antt =====
-- Runs of the ledger at concrete values.
use meshwhisper.Common.{
  ℕ, ◌*◌, ◌≤◌, ◌≡◌, refl, [], ◌∷◌, none, some, Text, text, ◌||◌, leb, ltb, if◌then◌else◌, false,
}
use meshwhisper.Common.TextMap.{get, set, keep_entries}
use meshwhisper.Reciprocity.{
  pos, RelayLedgerEntry, RelayLedger, ok, new_ledger, entry_or_new, record_relayed_for_peer,
  record_peer_relayed_for_us, prune_inactive, should_relay, get_relay_priority, is_in_grace_period,
  get_tier, tier_from_score, get_score, compute_score,
}
use meshwhisper.Reciprocity.Saving.{SerializedLedger, Codec, serialize, deserialize}
use meshwhisper.Reciprocity.Scores.{
  for_them, for_us, should_relay_lem, record_relayed_for_peer-priority,
}
use meshwhisper.Reciprocity.Upkeep.{
  Reachable, start, next, they_relayed, deserialize-serialize_reachable, prune_inactive_lem,
}

abbrev ann : Text
ann = text "ann"

abbrev empty_ledger : RelayLedger
empty_ledger = record {
  grace_period_ms = 172800000;
  entries = [];
  device_id = none;
  device_registered_at = none;
}

abbrev anns_entry : ℕ → ℕ → ℕ → RelayLedgerEntry
anns_entry them us at = record {
  peer_id = ann;
  bytes_relayed_for_them = them;
  bytes_they_relayed_for_us = us;
  last_updated = at;
}

abbrev anns_ledger : ℕ → ℕ → ℕ → RelayLedger
anns_ledger them us at = record empty_ledger { entries = (ann, anns_entry them us at) ∷ [] }

anns_ledger_new : new_ledger (pos 48) ≡ ok empty_ledger
unfolding new_ledger
anns_ledger_new = refl

anns_ledger_recorded :
    record_peer_relayed_for_us 7 ann (pos 100) empty_ledger ≡ ok (anns_ledger 0 100 7)
unfolding record_peer_relayed_for_us entry_or_new get set
anns_ledger_recorded = refl

anns_ledger_Reachable : Reachable (anns_ledger 0 100 7)
anns_ledger_Reachable =
    next (start (pos 48) anns_ledger_new) (they_relayed 7 ann (pos 100) anns_ledger_recorded)

-- The peer has relayed 100 bytes and got none: it is refused.
anns_ledger_refused : (should_relay 9 ann (anns_ledger 0 100 7) ≡ false)
unfolding should_relay is_in_grace_period get_tier tier_from_score get_score compute_score get
anns_ledger_refused = refl

should_relay_lem_example : should_relay 9 ann (anns_ledger 0 100 7) ≡ (
    is_in_grace_period 9 (anns_ledger 0 100 7)
    || leb
        (for_us (get ann (anns_ledger 0 100 7).entries))
        (10 * for_them (get ann (anns_ledger 0 100 7).entries)))
should_relay_lem_example = should_relay_lem 9 ann (anns_ledger 0 100 7)

anns_ledger_relayed :
    record_relayed_for_peer 8 ann (pos 60) (anns_ledger 0 100 7) ≡ ok (anns_ledger 60 100 8)
unfolding record_relayed_for_peer entry_or_new get set
anns_ledger_relayed = refl

record_relayed_for_peer-priority_example :
    get_relay_priority 9 ann (anns_ledger 0 100 7) ≤ get_relay_priority 9 ann (anns_ledger 60 100 8)
record_relayed_for_peer-priority_example =
    record_relayed_for_peer-priority 8 9 ann 60 (anns_ledger 0 100 7) (anns_ledger 60 100 8)
      anns_ledger_relayed

abbrev toy_codec : Codec SerializedLedger
toy_codec = record { print = λ p. p; parse = λ p. some p; parse-print = λ p. refl }

deserialize-serialize_reachable_example :
    deserialize toy_codec (serialize toy_codec (anns_ledger 0 100 7)) ≡ ok (anns_ledger 0 100 7)
deserialize-serialize_reachable_example =
    deserialize-serialize_reachable toy_codec (anns_ledger 0 100 7) anns_ledger_Reachable

anns_ledger_pruned : prune_inactive 20 (pos 5) (anns_ledger 0 100 7) ≡ ok empty_ledger
unfolding prune_inactive keep_entries
anns_ledger_pruned = refl

get-anns_ledger : get ann (anns_ledger 0 100 7).entries ≡ some (anns_entry 0 100 7)
unfolding get
get-anns_ledger = refl

prune_inactive_lem_example :
    get ann empty_ledger.entries ≡ (if ltb 12 20 then none else some (anns_entry 0 100 7))
prune_inactive_lem_example =
    prune_inactive_lem 20 5 (anns_ledger 0 100 7) empty_ledger ann (anns_entry 0 100 7)
      anns_ledger_Reachable anns_ledger_pruned get-anns_ledger
