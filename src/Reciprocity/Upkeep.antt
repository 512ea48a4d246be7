-- ===== src/Reciprocity/Upkeep.antt =====
-- The calls that change a ledger, in any order, as a relation, and what they keep.
use meshwhisper.Common.{
  ℕ, ◌+◌, ◌*◌, ◌≡◌, refl, sym, ap, ◌∙◌, subst, Bool, not, [], ◌∷◌, none, some, Text, arith,
  Option-cases, Bool-cases, inl, inr, ltb, if◌then◌else◌, ok-injective,
}
use meshwhisper.Common.TextMap.{TextMap, get, set, Distinct, keep_entries}
use meshwhisper.Common.TextMap.Laws.{set-Distinct, keep_entries-Distinct, get-keep_entries}
use meshwhisper.Common.TextMap.Keyed.{IsKeyed, key_of-get, set-IsKeyed, keep_entries-IsKeyed}
use meshwhisper.Reciprocity.{
  ℤ, pos, negsuc, RelayLedgerEntry, RelayLedger, LedgerError, ok, new_ledger, entry_or_new,
  record_relayed_for_peer, record_peer_relayed_for_us, register_device, Factor, decay_entries,
  decay_ledger, prune_inactive, reset,
}
use meshwhisper.Reciprocity.Saving.{Codec, serialize, deserialize}
use meshwhisper.Reciprocity.Saving.RoundTrip.{peer_of, IsSound, deserialize-serialize_ledger}

-- One call that returns.
pub data Update (l : RelayLedger) : RelayLedger → Type 0 where
  relayed :
      {l' : RelayLedger} (now : ℕ) (peer_id : Text) (bytes : ℤ)
      → record_relayed_for_peer now peer_id bytes l ≡ ok l'
      → Update l l'
  they_relayed :
      {l' : RelayLedger} (now : ℕ) (peer_id : Text) (bytes : ℤ)
      → record_peer_relayed_for_us now peer_id bytes l ≡ ok l'
      → Update l l'
  registered :
      {l' : RelayLedger} (now : ℕ) (id : Text) → register_device now id l ≡ ok l' → Update l l'
  decayed : {l' : RelayLedger} (factor : Factor) → decay_ledger factor l ≡ ok l' → Update l l'
  pruned :
      {l' : RelayLedger} (now : ℕ) (max_age_ms : ℤ)
      → prune_inactive now max_age_ms l ≡ ok l'
      → Update l l'
  cleared : Update l (reset l)

pub data Reachable : RelayLedger → Type 0 where
  start : {l : RelayLedger} (hours : ℤ) → new_ledger hours ≡ ok l → Reachable l
  next : {l l' : RelayLedger} → Reachable l → Update l l' → Reachable l'

decay_entries-IsKeyed :
    (f : ℕ → ℕ) (m : TextMap RelayLedgerEntry)
    → IsKeyed peer_of m
    → IsKeyed peer_of (decay_entries f m)
unfolding decay_entries
decay_entries-IsKeyed f [] h = tt
decay_entries-IsKeyed f ((j, x) ∷ m) h = (h.0, decay_entries-IsKeyed f m h.1)

get-decay_entries-none :
    (f : ℕ → ℕ) (k : Text) (m : TextMap RelayLedgerEntry)
    → get k m ≡ none
    → get k (decay_entries f m) ≡ none
unfolding decay_entries get
get-decay_entries-none f k [] h = refl
get-decay_entries-none f k ((j, x) ∷ m) h = ground (arith, get-decay_entries-none f k m)

decay_entries-Distinct :
    (f : ℕ → ℕ) (m : TextMap RelayLedgerEntry) → Distinct m → Distinct (decay_entries f m)
unfolding decay_entries
decay_entries-Distinct f [] d = tt
decay_entries-Distinct f ((j, x) ∷ m) d =
    (get-decay_entries-none f j m d.0, decay_entries-Distinct f m d.1)

entry_or_new-peer :
    (now : ℕ) (k : Text) (l : RelayLedger)
    → IsKeyed peer_of l.entries
    → (entry_or_new now k l).peer_id ≡ k
unfolding entry_or_new
entry_or_new-peer now k l h = elim (Option-cases (get k l.entries)) [
  | inl e ↦ rw (e, entry_or_new) refl
  | inr (x, e) ↦ rw (e, entry_or_new) (key_of-get peer_of k l.entries x h e)
]

-- Other entries, the rest as before.
entered-IsSound :
    (l : RelayLedger) (m : TextMap RelayLedgerEntry)
    → IsSound l
    → Distinct m
    → IsKeyed peer_of m
    → IsSound (record l { entries = m })
entered-IsSound l m s d k = record {
  distinct = d;
  keyed = k;
  registered = s.registered;
  hours = s.hours;
  whole = s.whole;
}

Update-IsSound : {l l' : RelayLedger} → Update l l' → IsSound l → IsSound l'
unfolding record_relayed_for_peer record_peer_relayed_for_us register_device decay_ledger
    prune_inactive reset
Update-IsSound {l} {l'} (relayed now k (negsuc n) e) s = absurd (ground arith)
Update-IsSound {l} {l'} (relayed now k (pos n) e) s =
    let x = entry_or_new now k l in
    let y : RelayLedgerEntry = record x {
      bytes_relayed_for_them = x.bytes_relayed_for_them + n;
      last_updated = now;
    } in
    subst IsSound (ok-injective {E = LedgerError} (record l { entries = set k y l.entries }) l' e) (
      entered-IsSound l (set k y l.entries) s (set-Distinct k y l.entries s.distinct)
        (set-IsKeyed peer_of k y l.entries (entry_or_new-peer now k l s.keyed) s.keyed))
Update-IsSound {l} {l'} (they_relayed now k (negsuc n) e) s = absurd (ground arith)
Update-IsSound {l} {l'} (they_relayed now k (pos n) e) s =
    let x = entry_or_new now k l in
    let y : RelayLedgerEntry = record x {
      bytes_they_relayed_for_us = x.bytes_they_relayed_for_us + n;
      last_updated = now;
    } in
    subst IsSound (ok-injective {E = LedgerError} (record l { entries = set k y l.entries }) l' e) (
      entered-IsSound l (set k y l.entries) s (set-Distinct k y l.entries s.distinct)
        (set-IsKeyed peer_of k y l.entries (entry_or_new-peer now k l s.keyed) s.keyed))
Update-IsSound {l} {l'} (registered now [] e) s = absurd (ground arith)
Update-IsSound {l} {l'} (registered now (c ∷ cs) e) s =
    subst IsSound
      (ok-injective {E = LedgerError}
        (record l { device_id = some (c ∷ cs); device_registered_at = some now }) l' e)
      (record {
        distinct = s.distinct;
        keyed = s.keyed;
        registered = tt;
        hours = s.hours;
        whole = s.whole;
      })
Update-IsSound {l} {l'} (decayed factor e) s = elim (Bool-cases factor.in_range) [
  | inl r ↦
      let m = decay_entries factor.floor_times l.entries in
      subst IsSound (ok-injective {E = LedgerError} (record l { entries = m }) l' (ground arith)) (
        entered-IsSound l m s (decay_entries-Distinct factor.floor_times l.entries s.distinct)
          (decay_entries-IsKeyed factor.floor_times l.entries s.keyed))
  | inr r ↦ absurd (ground arith)
]
Update-IsSound {l} {l'} (pruned now (negsuc n) e) s = absurd (ground arith)
Update-IsSound {l} {l'} (pruned now (pos age) e) s =
    let test : Text → RelayLedgerEntry → Bool = λ k x. not (ltb (x.last_updated + age) now) in
    subst IsSound
      (ok-injective {E = LedgerError} (record l { entries = keep_entries test l.entries }) l' e)
      (entered-IsSound l (keep_entries test l.entries) s
        (keep_entries-Distinct test l.entries s.distinct)
        (keep_entries-IsKeyed peer_of test l.entries s.keyed))
Update-IsSound {l} cleared s = entered-IsSound l [] s tt tt

Reachable-IsSound : {l : RelayLedger} → Reachable l → IsSound l
unfolding new_ledger
Reachable-IsSound {l} (start (negsuc n) e) = absurd (ground arith)
Reachable-IsSound {l} (start (pos hours) e) =
    subst IsSound
      (ok-injective {E = LedgerError}
        (record {
          grace_period_ms = hours * 3600000;
          entries = [];
          device_id = none;
          device_registered_at = none;
        })
        l e)
      (record { distinct = tt; keyed = tt; registered = tt; hours = hours; whole = refl })
Reachable-IsSound (next r u) = Update-IsSound u (Reachable-IsSound r)

-- Every ledger that calls lead to from a new one, with a grace period of whole hours, is restored
-- from what it is saved as.
pub deserialize-serialize_reachable :
    {Bytes : Type 0} (codec : Codec Bytes) (l : RelayLedger)
    → Reachable l
    → deserialize codec (serialize codec l) ≡ ok l
deserialize-serialize_reachable codec l r =
    deserialize-serialize_ledger codec l (Reachable-IsSound r)

-- In every ledger that calls lead to, after `pruneInactive` with an age that is not negative, an entry
-- that was updated within that age is still there, unchanged, and an older one is not.
pub prune_inactive_lem :
    (now age : ℕ) (l l' : RelayLedger) (peer_id : Text) (x : RelayLedgerEntry)
    → Reachable l
    → prune_inactive now (pos age) l ≡ ok l'
    → get peer_id l.entries ≡ some x
    → get peer_id l'.entries ≡ (if ltb (x.last_updated + age) now then none else some x)
unfolding prune_inactive
prune_inactive_lem now age l l' peer_id x r e h =
    let test : Text → RelayLedgerEntry → Bool = λ k y. not (ltb (y.last_updated + age) now) in
    let same =
      ok-injective {E = LedgerError} (record l { entries = keep_entries test l.entries }) l' e in
    sym (ap (λ (k : RelayLedger). get peer_id k.entries) same)
    ∙ get-keep_entries test peer_id l.entries x (Reachable-IsSound r).distinct h
    ∙ ground arith
