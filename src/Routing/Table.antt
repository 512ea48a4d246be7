-- ===== src/Routing/Table.antt =====
-- `PeerProximityTable`: the known peers by id, with an index by destination hash.
pub mod Lookup
pub mod Closest
use meshwhisper.Bytes.{hash_to_hex, bytes_equal}
use meshwhisper.Common.{
  ℕ, zero, suc, ◌+◌, ◌-◌, ◌*◌, ◌/◌, ◌%◌, ◌^◌, Bool, true, false, not, List, [], ◌∷◌, length, take,
  Option, none, some, Text, bit_xor, ltb, ◌==◌, if◌then◌else◌, map,
}
use meshwhisper.Common.Sorting.{sort}
use meshwhisper.Common.TextMap.{TextMap, get, set, delete, values, size, keep_entries}
use meshwhisper.Routing.{PeerProximityEntry}

pub record Table : Type 0 where
  pub entries : TextMap PeerProximityEntry
  pub dest_hash_index : TextMap Text
  pub ttl_ms : ℕ

unfoldable pub new_table : ℕ → Table
new_table ttl_ms = record { entries = []; dest_hash_index = []; ttl_ms = ttl_ms }

unfoldable pub add_peer : PeerProximityEntry → Table → Table
add_peer e t = record t {
  entries = set e.peer_id e t.entries;
  dest_hash_index = set (hash_to_hex e.dest_hash) e.peer_id t.dest_hash_index;
}

unfoldable pub remove_peer : Text → Table → Table
remove_peer peer_id t = elim (get peer_id t.entries) [
  | none ↦ t
  | some existing ↦ record t {
    dest_hash_index = delete (hash_to_hex existing.dest_hash) t.dest_hash_index;
    entries = delete peer_id t.entries;
  }
]

-- `Partial<PeerProximityEntry>`
pub record Updates : Type 0 where
  pub new_peer_id : Option Text
  pub new_dest_hash : Option (List ℕ)
  pub new_last_seen : Option ℕ
  pub new_hop_count : Option ℕ
  pub new_latency : Option ℕ
  pub new_relay_path : Option (List Text)

abbrev pub or_else {ℓ} : {A : Type ℓ} → Option A → A → A
or_else none a = a
or_else (some b) a = b

-- `{ ...existing, ...updates }`
unfoldable pub merge : PeerProximityEntry → Updates → PeerProximityEntry
merge e u = record {
  peer_id = or_else u.new_peer_id e.peer_id;
  dest_hash = or_else u.new_dest_hash e.dest_hash;
  last_seen = or_else u.new_last_seen e.last_seen;
  hop_count = or_else u.new_hop_count e.hop_count;
  latency = or_else u.new_latency e.latency;
  relay_path = or_else u.new_relay_path e.relay_path;
}

-- The index after an update: it moves only if the destination hash changes.
unfoldable pub move_index : Text → List ℕ → Option (List ℕ) → TextMap Text → TextMap Text
move_index peer_id old none index = index
move_index peer_id old (some new) index =
    if bytes_equal new old
    then index
    else set (hash_to_hex new) peer_id (delete (hash_to_hex old) index)

unfoldable pub update_peer : Text → Updates → Table → Table
update_peer peer_id u t = elim (get peer_id t.entries) [
  | none ↦ t
  | some existing ↦ record t {
    dest_hash_index = move_index peer_id existing.dest_hash u.new_dest_hash t.dest_hash_index;
    entries = set peer_id (merge existing u) t.entries;
  }
]

-- A stale index entry is deleted on the way.
unfoldable pub find_peer : List ℕ → Table → Table × Option PeerProximityEntry
find_peer dest_hash t = elim (get (hash_to_hex dest_hash) t.dest_hash_index) [
  | none ↦ (t, none)
  | some peer_id ↦ elim (get peer_id t.entries) [
    | none ↦ (record t { dest_hash_index = delete (hash_to_hex dest_hash) t.dest_hash_index }, none)
    | some entry ↦ (t, some entry)
  ]
]

-- A whole number as a double: above 2^53 the lowest bits are rounded, ties to even.
-- `binary_exponent` counts them, with fuel.
unfoldable pub binary_exponent : ℕ → ℕ → ℕ → ℕ
binary_exponent zero n e = e
binary_exponent (suc fuel) n e =
    let rest = binary_exponent fuel n (e + 1) in if ltb (n / 2 ^ e) (2 ^ 53) then e else rest

unfoldable pub round_at : ℕ → ℕ → ℕ
round_at e n =
    let low = (n / 2 ^ e) * 2 ^ e in
    let high = (n / 2 ^ e + 1) * 2 ^ e in
    if ltb (2 * (n % 2 ^ e)) (2 ^ e)
    then low
    else if ltb (2 ^ e) (2 * (n % 2 ^ e))
    then high
    else if (n / 2 ^ e) % 2 == 0
    then low
    else high

-- Hashes of up to 8 bytes need at most 12 bits of rounding; 64 steps are enough for any hash below
-- 14 bytes.
unfoldable pub to_double : ℕ → ℕ
to_double n = if ltb n (2 ^ 53) then n else round_at (binary_exponent 64 n 0) n

-- `distance = distance * 256 + (a[i] ^ b[i])` over the common length
unfoldable pub distance_from : ℕ → List ℕ → List ℕ → ℕ
distance_from d [] b = d
distance_from d (x ∷ a) [] = d
distance_from d (x ∷ a) (y ∷ b) = distance_from (to_double (d * 256 + bit_xor x y)) a b

unfoldable pub xor_distance : List ℕ → List ℕ → ℕ
xor_distance a b = distance_from 0 a b

unfoldable pub closer : List ℕ → PeerProximityEntry → PeerProximityEntry → Bool
closer dest_hash a b = ltb (xor_distance a.dest_hash dest_hash) (xor_distance b.dest_hash dest_hash)

unfoldable pub get_closest_peers : List ℕ → ℕ → Table → List PeerProximityEntry
get_closest_peers dest_hash count t = take count (sort (closer dest_hash) (values t.entries))

-- `for (const [peerId, entry] of this.entries) if (entry.lastSeen < cutoff) this.removePeer(peerId)`
unfoldable pub prune_entries : ℕ → ℕ → TextMap PeerProximityEntry → Table → Table
prune_entries now max_age_ms [] t = t
prune_entries now max_age_ms ((peer_id, entry) ∷ es) t =
    prune_entries now max_age_ms es
      (if ltb (entry.last_seen + max_age_ms) now then remove_peer peer_id t else t)

unfoldable pub prune_stale : ℕ → ℕ → Table → Table
prune_stale now max_age_ms t = prune_entries now max_age_ms t.entries t
