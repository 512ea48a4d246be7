-- ===== src/Reciprocity/Scores.antt =====
-- Scores, tiers and priorities.
use meshwhisper.Common.{
  ok-injective, subst, ℕ, ◌+◌, ◌*◌, ◌≤◌, ◌≡◌, refl, ap, ◌∙◌, ◌||◌, Option, none, some, Text, ltb,
  leb, if◌then◌else◌, arith, Option-cases, inl, inr,
}
use meshwhisper.Common.TextMap.{get, set}
use meshwhisper.Common.TextMap.Laws.{get-set}
use meshwhisper.Reciprocity.{
  pos, entry_or_new, record_relayed_for_peer, record_peer_relayed_for_us, LedgerError, ok,
  RelayLedgerEntry, RelayLedger, compute_score, get_score, tier_from_score, is_in_grace_period,
  get_tier, is_freerider, should_relay, priority_of, get_relay_priority,
}

-- What was relayed for a peer and by it; nothing for an unknown one.
abbrev pub for_them : Option RelayLedgerEntry → ℕ
for_them none = 0
for_them (some e) = e.bytes_relayed_for_them

abbrev pub for_us : Option RelayLedgerEntry → ℕ
for_us none = 0
for_us (some e) = e.bytes_they_relayed_for_us

is_freerider-score : (a b : ℕ) → is_freerider (tier_from_score (compute_score a b)) ≡ ltb (10 * a) b
unfolding tier_from_score compute_score
is_freerider-score a b = ground arith

-- The priority by the two counts.
abbrev pub priority : ℕ → ℕ → ℕ
priority a b = if ltb (10 * a) b then 0 else if ltb (2 * a) b then 3 else if leb a b then 7 else 10

priority_of-score : (a b : ℕ) → priority_of (tier_from_score (compute_score a b)) ≡ priority a b
unfolding tier_from_score compute_score priority_of
priority_of-score a b = ground arith

get_score_lem :
    (peer_id : Text) (l : RelayLedger)
    → get_score peer_id l
      ≡ compute_score (for_them (get peer_id l.entries)) (for_us (get peer_id l.entries))
unfolding get_score compute_score
get_score_lem peer_id l = ground arith

module _ (now : ℕ) (peer_id : Text) (l : RelayLedger) where
  -- Traffic for a peer is relayed within the grace period, and otherwise exactly when the peer relayed
  -- for this device at most ten times what this device relayed for the peer; an unknown peer counts
  -- as one with no traffic.
  pub should_relay_lem : should_relay now peer_id l ≡ (
      is_in_grace_period now l
      || leb (for_us (get peer_id l.entries)) (10 * for_them (get peer_id l.entries)))
  unfolding should_relay get_tier
  should_relay_lem =
      let a = for_them (get peer_id l.entries) in
      let b = for_us (get peer_id l.entries) in
      ground (
        arith,
        ap (λ s. is_freerider (tier_from_score s)) (get_score_lem peer_id l),
        is_freerider-score a b,
      )

  get_relay_priority_lem : get_relay_priority now peer_id l ≡ (
      if is_in_grace_period now l
      then 7
      else priority (for_them (get peer_id l.entries)) (for_us (get peer_id l.entries)))
  unfolding get_relay_priority get_tier priority_of
  get_relay_priority_lem =
      let a = for_them (get peer_id l.entries) in
      let b = for_us (get peer_id l.entries) in
      ground (
        arith,
        ap (λ s. priority_of (tier_from_score s)) (get_score_lem peer_id l),
        priority_of-score a b,
      )

priority_mono : (a b n : ℕ) → priority a b ≤ priority (a + n) b
priority_mono a b n = ground arith

priority_anti : (a b n : ℕ) → priority a (b + n) ≤ priority a b
priority_anti a b n = ground arith

entry_or_new_lem :
    (now : ℕ) (peer_id : Text) (l : RelayLedger)
    → ((entry_or_new now peer_id l).bytes_relayed_for_them ≡ for_them (get peer_id l.entries))
      × ((entry_or_new now peer_id l).bytes_they_relayed_for_us ≡ for_us (get peer_id l.entries))
unfolding entry_or_new
entry_or_new_lem now peer_id l = elim (Option-cases (get peer_id l.entries)) [
  | inl e ↦ rw (e, entry_or_new) (refl, refl)
  | inr (x, e) ↦ rw (e, entry_or_new) (refl, refl)
]

-- The priority of a peer whose entry was replaced.
get_relay_priority-set :
    (at : ℕ) (peer_id : Text) (x : RelayLedgerEntry) (l : RelayLedger)
    → get_relay_priority at peer_id (record l { entries = set peer_id x l.entries }) ≡ (
        if is_in_grace_period at l
        then 7
        else priority x.bytes_relayed_for_them x.bytes_they_relayed_for_us)
unfolding is_in_grace_period
get_relay_priority-set at peer_id x l =
    let e : get peer_id (set peer_id x l.entries) ≡ some x =
      ground (arith, get-set peer_id peer_id x l.entries) in
    get_relay_priority_lem at peer_id (record l { entries = set peer_id x l.entries })
    ∙ ap (λ o. if is_in_grace_period at l then 7 else priority (for_them o) (for_us o)) e

module _ (now at : ℕ) (peer_id : Text) (bytes : ℕ) (l l' : RelayLedger) where
  -- At every time the priority of a peer is not lower after this device has relayed for the peer.
  pub record_relayed_for_peer-priority :
      record_relayed_for_peer now peer_id (pos bytes) l ≡ ok l'
      → get_relay_priority at peer_id l ≤ get_relay_priority at peer_id l'
  unfolding record_relayed_for_peer
  record_relayed_for_peer-priority h =
      let e = entry_or_new now peer_id l in
      let x : RelayLedgerEntry = record e {
        bytes_relayed_for_them = e.bytes_relayed_for_them + bytes;
        last_updated = now;
      } in
      let (same_them, same_us) = entry_or_new_lem now peer_id l in
      subst (λ k. get_relay_priority at peer_id l ≤ get_relay_priority at peer_id k)
        (ok-injective {E = LedgerError} (record l { entries = set peer_id x l.entries }) l' h)
        (ground (
          arith,
          get_relay_priority_lem at peer_id l,
          get_relay_priority-set at peer_id x l,
          priority_mono (for_them (get peer_id l.entries)) (for_us (get peer_id l.entries)) bytes,
          same_them,
          same_us,
        ))

  -- At every time the priority of a peer is not higher after the peer has relayed for this device.
  pub record_peer_relayed_for_us-priority :
      record_peer_relayed_for_us now peer_id (pos bytes) l ≡ ok l'
      → get_relay_priority at peer_id l' ≤ get_relay_priority at peer_id l
  unfolding record_peer_relayed_for_us
  record_peer_relayed_for_us-priority h =
      let e = entry_or_new now peer_id l in
      let y : RelayLedgerEntry = record e {
        bytes_they_relayed_for_us = e.bytes_they_relayed_for_us + bytes;
        last_updated = now;
      } in
      let (same_them, same_us) = entry_or_new_lem now peer_id l in
      subst (λ k. get_relay_priority at peer_id k ≤ get_relay_priority at peer_id l)
        (ok-injective {E = LedgerError} (record l { entries = set peer_id y l.entries }) l' h)
        (ground (
          arith,
          get_relay_priority_lem at peer_id l,
          get_relay_priority-set at peer_id y l,
          priority_anti (for_them (get peer_id l.entries)) (for_us (get peer_id l.entries)) bytes,
          same_them,
          same_us,
        ))
