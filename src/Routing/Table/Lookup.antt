-- ===== src/Routing/Table/Lookup.antt =====
-- Which peer `findPeer` returns, and how each method changes the entries.
use meshwhisper.Bytes.{Bytes, hash_to_hex}
use meshwhisper.Bytes.Laws.{hash_to_hex_injective, bytes_equal_iff}
use meshwhisper.Common.{
  ℕ, ◌+◌, ◌≡◌, ◌≢◌, refl, ap, Bool, false, List, [], ◌∷◌, Option, none, some, Text, text_eq, arith,
  Option-cases, inl, inr, ltb, if◌then◌else◌,
}
use meshwhisper.Common.TextMap.{TextMap, get, set, delete, Distinct}
use meshwhisper.Common.TextMap.Laws.{get-set, get-delete}
use meshwhisper.Routing.{PeerProximityEntry}
use meshwhisper.Routing.Table.{
  Table, Updates, add_peer, remove_peer, merge, move_index, update_peer, find_peer, prune_entries,
  prune_stale,
}

-- An entry, if there is one, has the hash of the given key.
abbrev pub HasKey : Text → Option PeerProximityEntry → Type 0
HasKey key none = Unit
HasKey key (some e) = hash_to_hex e.dest_hash ≡ key

abbrev pub Owns : Text → Option PeerProximityEntry → Type 0
Owns key none = ⊥
Owns key (some e) = hash_to_hex e.dest_hash ≡ key

-- Each index entry leads to a peer in the table, with that destination hash.
abbrev pub IsSound : Table → Type 0
IsSound t =
    (key peer_id : Text)
    → get key t.dest_hash_index ≡ some peer_id
    → Owns key (get peer_id t.entries)

abbrev pub AllBytes : Option PeerProximityEntry → Type 0
AllBytes none = Unit
AllBytes (some e) = Bytes e.dest_hash

-- With a sound index, a peer that `findPeer` returns owns the destination hash asked for, both
-- hashes being byte arrays.
pub find_peer_sound :
    (h : List ℕ) (t : Table) (e : PeerProximityEntry)
    → IsSound t
    → (find_peer h t).1 ≡ some e
    → Bytes h
    → Bytes e.dest_hash
    → e.dest_hash ≡ h
unfolding find_peer
find_peer_sound h t e s found bh be = elim (Option-cases (get (hash_to_hex h) t.dest_hash_index)) [
  | inl q ↦ absurd (ground arith)
  | inr (peer_id, q) ↦
      hash_to_hex_injective e.dest_hash h be bh (ground (arith, s (hash_to_hex h) peer_id q))
]

-- `addPeer` keeps the index sound for a peer that is new or known under the same hash.
pub add_peer-IsSound :
    (e : PeerProximityEntry) (t : Table)
    → IsSound t
    → HasKey (hash_to_hex e.dest_hash) (get e.peer_id t.entries)
    → IsSound (add_peer e t)
unfolding add_peer
add_peer-IsSound e t s same key peer_id h = ground (
  arith,
  get-set key (hash_to_hex e.dest_hash) e.peer_id t.dest_hash_index,
  get-set peer_id e.peer_id e t.entries,
  s key peer_id,
)

-- `removePeer` keeps the index sound.
pub remove_peer-IsSound : (id : Text) (t : Table) → IsSound t → IsSound (remove_peer id t)
unfolding remove_peer
remove_peer-IsSound id t s key peer_id h = elim (Option-cases (get id t.entries)) [
  | inl e ↦ ground (arith, s key peer_id)
  | inr (x, e) ↦ ground (
    arith,
    get-delete key (hash_to_hex x.dest_hash) t.dest_hash_index,
    get-delete peer_id id t.entries,
    s key peer_id,
  )
]

abbrev pub NewBytes : Option (List ℕ) → Type 0
NewBytes none = Unit
NewBytes (some h) = Bytes h

update_peer_found :
    (id : Text) (u : Updates) (t : Table) (x : PeerProximityEntry) (new : Option (List ℕ))
    → u.new_dest_hash ≡ new
    → IsSound t
    → get id t.entries ≡ some x
    → Bytes x.dest_hash
    → NewBytes new
    → (key peer_id : Text)
    → get key (move_index id x.dest_hash new t.dest_hash_index) ≡ some peer_id
    → Owns key (get peer_id (set id (merge x u) t.entries))
unfolding move_index merge
update_peer_found id u t x none e s f bx bn key peer_id h =
    ground (arith, get-set peer_id id (merge x u) t.entries, s key peer_id)
update_peer_found id u t x (some new) e s f bx bn key peer_id h = ground (
  arith,
  get-set peer_id id (merge x u) t.entries,
  get-set key (hash_to_hex new) id (delete (hash_to_hex x.dest_hash) t.dest_hash_index),
  get-delete key (hash_to_hex x.dest_hash) t.dest_hash_index,
  bytes_equal_iff new x.dest_hash bn bx,
  s key peer_id,
)

-- `updatePeer` keeps the index sound, also where the destination hash changes, the old and the new
-- hash being byte arrays.
pub update_peer-IsSound :
    (id : Text) (u : Updates) (t : Table)
    → IsSound t
    → AllBytes (get id t.entries)
    → NewBytes u.new_dest_hash
    → IsSound (update_peer id u t)
unfolding update_peer
update_peer-IsSound id u t s b n key peer_id h = elim (Option-cases (get id t.entries)) [
  | inl e ↦ ground (arith, s key peer_id)
  | inr (x, e) ↦
      rw (e, update_peer)
        (update_peer_found id u t x u.new_dest_hash refl s e (rw e at b) n key peer_id
          (rw (e, update_peer) at h))
]

-- The peer added last is found under its hash, whatever the table held.
pub find_peer-add_peer :
    (e : PeerProximityEntry) (t : Table) → (find_peer e.dest_hash (add_peer e t)).1 ≡ some e
unfolding find_peer add_peer
find_peer-add_peer e t = ground (
  arith,
  get-set (hash_to_hex e.dest_hash) (hash_to_hex e.dest_hash) e.peer_id t.dest_hash_index,
  get-set e.peer_id e.peer_id e t.entries,
)

-- A peer that is added again under a hash with another key is still returned for its old hash,
-- which it does not own any more.
pub find_peer_outdated :
    (e f : PeerProximityEntry) (t : Table)
    → f.peer_id ≡ e.peer_id
    → hash_to_hex f.dest_hash ≢ hash_to_hex e.dest_hash
    → (find_peer e.dest_hash (add_peer f (add_peer e t))).1 ≡ some f
unfolding find_peer add_peer
find_peer_outdated e f t same differ = ground (
  arith,
  get-set (hash_to_hex e.dest_hash) (hash_to_hex f.dest_hash) f.peer_id
      (add_peer e t).dest_hash_index,
  get-set (hash_to_hex e.dest_hash) (hash_to_hex e.dest_hash) e.peer_id t.dest_hash_index,
  get-set e.peer_id f.peer_id f (add_peer e t).entries,
)

-- Of two peers under one hash, `removePeer` of the first makes the second, which stays in the
-- table, impossible to find by its hash.
pub find_peer_lost :
    (e f : PeerProximityEntry) (t : Table)
    → f.peer_id ≢ e.peer_id
    → f.dest_hash ≡ e.dest_hash
    → let u = remove_peer e.peer_id (add_peer f (add_peer e t)) in
      (get f.peer_id u.entries ≡ some f) × ((find_peer f.dest_hash u).1 ≡ none)
unfolding find_peer remove_peer add_peer
find_peer_lost e f t differ same = (
  ground (
    arith,
    get-set e.peer_id f.peer_id f (set e.peer_id e t.entries),
    get-set e.peer_id e.peer_id e t.entries,
    get-set f.peer_id f.peer_id f (set e.peer_id e t.entries),
    get-delete f.peer_id e.peer_id (set f.peer_id f (set e.peer_id e t.entries)),
  ),
  ground (
    arith,
    ap hash_to_hex same,
    get-set e.peer_id f.peer_id f (set e.peer_id e t.entries),
    get-set e.peer_id e.peer_id e t.entries,
    get-delete (hash_to_hex f.dest_hash) (hash_to_hex e.dest_hash) (
        set (hash_to_hex f.dest_hash) f.peer_id
          (set (hash_to_hex e.dest_hash) e.peer_id t.dest_hash_index)),
  ),
)

get-remove_peer :
    (j id : Text) (t : Table)
    → get j (remove_peer id t).entries ≡ (if text_eq id j then none else get j t.entries)
unfolding remove_peer
get-remove_peer j id t = ground (arith, get-delete j id t.entries)

prune_entries_lem :
    (now age : ℕ) (es : TextMap PeerProximityEntry) (t : Table) (j : Text)
    → Distinct es
    → get j (prune_entries now age es t).entries ≡ (elim (get j es) [
      | none ↦ get j t.entries
      | some e ↦ if ltb (e.last_seen + age) now then none else get j t.entries
    ])
unfolding prune_entries get
prune_entries_lem now age [] t j d = refl
prune_entries_lem now age ((i, e) ∷ es) t j d = ground (
  arith,
  get-remove_peer j i t,
  prune_entries_lem now age es (if ltb (e.last_seen + age) now then remove_peer i t else t) j d.1,
)

abbrev pub is_stale : ℕ → ℕ → Option PeerProximityEntry → Bool
is_stale now age none = false
is_stale now age (some e) = ltb (e.last_seen + age) now

-- `pruneStale` removes exactly the entries last seen longer ago than the given age.
pub prune_stale_lem :
    (now age : ℕ) (t : Table) (j : Text)
    → Distinct t.entries
    → get j (prune_stale now age t).entries
      ≡ (if is_stale now age (get j t.entries) then none else get j t.entries)
unfolding prune_stale
prune_stale_lem now age t j d = ground (arith, prune_entries_lem now age t.entries t j d)
