-- ===== src/Reciprocity.antt =====
-- src/reciprocity/index.ts: `RelayLedger`, what this device relayed for each peer and each peer for
-- it. The clock is an argument. Byte counts are whole; a score is kept as a fraction, and its
-- comparison with 1.0, 0.5 and 0.1 by multiplication agrees with the source's doubles while the counts
-- stay below 2^53. The product of a count with the factor of a decay is the platform's. A `throw` is
-- an `err`.
pub mod Scores
pub mod Saving
pub mod Upkeep
mod Tests
pub use meshwhisper.Common.{Outcome, ok, err, ◌>>=◌, ◌>>◌, ℤ, pos, negsuc}
use meshwhisper.Common.{
  ℕ, ◌+◌, ◌*◌, Bool, true, false, not, ◌&&◌, List, [], ◌∷◌, Option, none, some, Text, ltb, leb,
  ◌==◌, if◌then◌else◌,
}
use meshwhisper.Common.TextMap.{TextMap, get, set, values, total, keep_entries}

pub data ReciprocityTier : Type 0 where
  contributor balanced consumer freerider : ReciprocityTier

pub record RelayLedgerEntry : Type 0 where
  pub peer_id : Text
  pub bytes_relayed_for_them : ℕ
  pub bytes_they_relayed_for_us : ℕ
  pub last_updated : ℕ

pub record RelayLedger : Type 0 where
  pub grace_period_ms : ℕ
  pub entries : TextMap RelayLedgerEntry
  pub device_id : Option Text
  pub device_registered_at : Option ℕ

pub data LedgerError : Type 0 where
  negative_hours negative_bytes empty_device_id bad_factor negative_age : LedgerError
  invalid_data unsupported_version : LedgerError

abbrev pub Result {ℓ} : Type ℓ → Type ℓ
Result A = Outcome LedgerError A

abbrev pub ms_per_hour : ℕ
ms_per_hour = 3600000

abbrev pub serialization_version : ℕ
serialization_version = 1

-- The constructor, with the option in whole hours.
unfoldable pub new_ledger : ℤ → Result RelayLedger
new_ledger (negsuc n) = err negative_hours
new_ledger (pos hours) = ok (record {
  grace_period_ms = hours * ms_per_hour;
  entries = [];
  device_id = none;
  device_registered_at = none;
})

-- `getOrCreateEntry`, without the write of a new entry, which every caller makes by its own.
unfoldable pub entry_or_new : ℕ → Text → RelayLedger → RelayLedgerEntry
entry_or_new now peer_id l = elim (get peer_id l.entries) [
  | some e ↦ e
  | none ↦ record {
    peer_id = peer_id;
    bytes_relayed_for_them = 0;
    bytes_they_relayed_for_us = 0;
    last_updated = now;
  }
]

unfoldable pub record_relayed_for_peer : ℕ → Text → ℤ → RelayLedger → Result RelayLedger
record_relayed_for_peer now peer_id (negsuc n) l = err negative_bytes
record_relayed_for_peer now peer_id (pos bytes) l =
    let e = entry_or_new now peer_id l in
    ok (record l {
      entries =
          set peer_id
            (record e {
              bytes_relayed_for_them = e.bytes_relayed_for_them + bytes;
              last_updated = now;
            })
            l.entries;
    })

unfoldable pub record_peer_relayed_for_us : ℕ → Text → ℤ → RelayLedger → Result RelayLedger
record_peer_relayed_for_us now peer_id (negsuc n) l = err negative_bytes
record_peer_relayed_for_us now peer_id (pos bytes) l =
    let e = entry_or_new now peer_id l in
    ok (record l {
      entries =
          set peer_id
            (record e {
              bytes_they_relayed_for_us = e.bytes_they_relayed_for_us + bytes;
              last_updated = now;
            })
            l.entries;
    })

unfoldable pub get_entry : Text → RelayLedger → Option RelayLedgerEntry
get_entry peer_id l = get peer_id l.entries

unfoldable pub get_all_entries : RelayLedger → List RelayLedgerEntry
get_all_entries l = values l.entries

-- A score: `Infinity`, or a quotient whose divisor is not zero.
pub data Score : Type 0 where
  infinity : Score
  quotient : ℕ → ℕ → Score

unfoldable pub compute_score : ℕ → ℕ → Score
compute_score relayed_for_them they_relayed_for_us =
    if relayed_for_them == 0 && they_relayed_for_us == 0
    then quotient 1 1
    else if they_relayed_for_us == 0
    then infinity
    else quotient relayed_for_them they_relayed_for_us

unfoldable pub get_score : Text → RelayLedger → Score
get_score peer_id l = elim (get peer_id l.entries) [
  | none ↦ quotient 1 1
  | some e ↦ compute_score e.bytes_relayed_for_them e.bytes_they_relayed_for_us
]

unfoldable pub get_global_score : RelayLedger → Score
get_global_score l =
    compute_score (total (λ e. e.bytes_relayed_for_them) l.entries)
      (total (λ e. e.bytes_they_relayed_for_us) l.entries)

-- `score > 1.0`, `score >= 0.5`, `score >= 0.1`
unfoldable pub tier_from_score : Score → ReciprocityTier
tier_from_score infinity = contributor
tier_from_score (quotient a b) =
    if ltb b a
    then contributor
    else if leb b (2 * a)
    then balanced
    else if leb b (10 * a)
    then consumer
    else freerider

unfoldable pub is_in_grace_period : ℕ → RelayLedger → Bool
is_in_grace_period now l = elim l.device_registered_at [
  | none ↦ false
  | some at ↦ ltb now (at + l.grace_period_ms)
]

unfoldable pub get_tier : ℕ → Text → RelayLedger → ReciprocityTier
get_tier now peer_id l =
    if is_in_grace_period now l then balanced else tier_from_score (get_score peer_id l)

abbrev pub is_freerider : ReciprocityTier → Bool
is_freerider contributor = false
is_freerider balanced = false
is_freerider consumer = false
is_freerider freerider = true

unfoldable pub should_relay : ℕ → Text → RelayLedger → Bool
should_relay now peer_id l =
    if is_in_grace_period now l then true else not (is_freerider (get_tier now peer_id l))

-- The priorities in tenths: 1.0, 0.7, 0.3 and 0.0.
unfoldable pub priority_of : ReciprocityTier → ℕ
priority_of contributor = 10
priority_of balanced = 7
priority_of consumer = 3
priority_of freerider = 0

unfoldable pub get_relay_priority : ℕ → Text → RelayLedger → ℕ
get_relay_priority now peer_id l = priority_of (get_tier now peer_id l)

unfoldable pub register_device : ℕ → Text → RelayLedger → Result RelayLedger
register_device now [] l = err empty_device_id
register_device now (c ∷ cs) l =
    ok (record l { device_id = some (c ∷ cs); device_registered_at = some now })

-- A factor: whether it lies between 0 and 1, and `Math.floor(count * factor)`.
pub record Factor : Type 0 where
  pub in_range : Bool
  pub floor_times : ℕ → ℕ

unfoldable pub decay_entries : (ℕ → ℕ) → TextMap RelayLedgerEntry → TextMap RelayLedgerEntry
decay_entries f [] = []
decay_entries f ((k, e) ∷ m) =
    (
      k,
      record e {
        bytes_relayed_for_them = f e.bytes_relayed_for_them;
        bytes_they_relayed_for_us = f e.bytes_they_relayed_for_us;
      },
    )
    ∷ decay_entries f m

unfoldable pub decay_ledger : Factor → RelayLedger → Result RelayLedger
decay_ledger factor l =
    if factor.in_range
    then ok (record l { entries = decay_entries factor.floor_times l.entries })
    else err bad_factor

unfoldable pub prune_inactive : ℕ → ℤ → RelayLedger → Result RelayLedger
prune_inactive now (negsuc n) l = err negative_age
prune_inactive now (pos max_age_ms) l = ok (record l {
  entries = keep_entries (λ peer_id e. not (ltb (e.last_updated + max_age_ms) now)) l.entries;
})

unfoldable pub reset : RelayLedger → RelayLedger
reset l = record l { entries = [] }
