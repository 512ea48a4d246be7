-- ===== src/Relay.antt =====
-- src/relay/index.ts: the store-and-forward relay. `RelayStore` holds encrypted blobs for
-- offline peers, with an index by destination and the order of insertion for eviction;
-- `StoreAndForwardManager` drives it. The clock and the random ids are arguments. The prune
-- timer (`startPruneInterval`, `stopPruneInterval`) only schedules `pruneExpired`, and is not
-- modelled. Sizes stay far below 2^53, where the source's numbers are exact.
pub mod Invariant
pub mod Eviction
pub mod Storing
pub mod Delivery
pub mod Pruning
pub mod Manager
pub mod Bounds
pub mod History
mod Tests
use meshwhisper.Bytes.{hash_to_hex, bytes_equal}
use meshwhisper.Common.{
  ℕ, zero, suc, ◌+◌, ◌-◌, ◌*◌, ◌<◌, Bool, true, false, not, ◌&&◌, List, [], ◌∷◌, ◌++◌, length,
  get_elem?, Option, none, some, Text, remove_first, ltb, leb, ◌==◌, if◌then◌else◌,
}
use meshwhisper.Common.TextMap.{TextMap, get, has, set, delete, keys, values, size}

pub record StoredBlob : Type 0 where
  pub id : Text
  pub dest_hash : List ℕ
  pub encrypted_payload : List ℕ
  pub received_at : ℕ
  pub ttl_hours : ℕ
  pub hops_remaining : ℕ

pub record RelayStore : Type 0 where
  pub max_storage_bytes : ℕ
  pub blobs : TextMap StoredBlob
  pub dest_index : TextMap (TextMap (Unit {0}))
  pub insertion_order : List Text
  pub current_storage_bytes : ℕ

unfoldable pub blob_byte_size : StoredBlob → ℕ
blob_byte_size blob =
    length blob.encrypted_payload + length blob.dest_hash + length blob.id * 2 + 32

unfoldable pub init : ℕ → RelayStore
init max_storage_bytes = record {
  max_storage_bytes = max_storage_bytes;
  blobs = [];
  dest_index = [];
  insertion_order = [];
  current_storage_bytes = 0;
}

-- `destKey`
abbrev pub dest_key : List ℕ → Text
dest_key = hash_to_hex

unfoldable pub is_expired : ℕ → StoredBlob → Bool
is_expired now blob = leb (blob.received_at + blob.ttl_hours * 3600000) now

-- The index of a destination without one id; an empty set is dropped.
unfoldable pub unindex : Text → Text → TextMap (TextMap (Unit {0})) → TextMap (TextMap (Unit {0}))
unindex dk id index = elim (get dk index) [
  | none ↦ index
  | some ids ↦
      let rest = delete id ids in if size rest == 0 then delete dk index else set dk rest index
]

unfoldable pub remove_blob : Text → RelayStore → RelayStore
remove_blob id s = elim (get id s.blobs) [
  | none ↦ s
  | some blob ↦ record s {
    current_storage_bytes = s.current_storage_bytes - blob_byte_size blob;
    blobs = delete id s.blobs;
    dest_index = unindex (dest_key blob.dest_hash) id s.dest_index;
    insertion_order = remove_first id s.insertion_order;
  }
]

-- `while (currentStorageBytes + size > maxStorageBytes && insertionOrder.length > 0)`, with fuel.
unfoldable pub evict : ℕ → ℕ → RelayStore → RelayStore
evict zero size s = s
evict (suc fuel) size s = elim s.insertion_order [
  | [] ↦ s
  | oldest_id ∷ _ ↦ elim (ltb s.max_storage_bytes (s.current_storage_bytes + size)) [
    | true ↦ evict fuel size (remove_blob oldest_id s)
    | false ↦ s
  ]
]

-- The index with one id added to the set of a destination.
unfoldable pub index_blob :
    Text → Text → TextMap (TextMap (Unit {0})) → TextMap (TextMap (Unit {0}))
index_blob dk id index = elim (get dk index) [
  | none ↦ set dk (set id tt []) index
  | some ids ↦ set dk (set id tt ids) index
]

-- The part of `storeBlob` behind the eviction and the check for a duplicate id.
unfoldable pub insert_blob : StoredBlob → RelayStore → RelayStore
insert_blob blob s = record s {
  blobs = set blob.id blob s.blobs;
  current_storage_bytes = s.current_storage_bytes + blob_byte_size blob;
  insertion_order = s.insertion_order ++ blob.id ∷ [];
  dest_index = index_blob (dest_key blob.dest_hash) blob.id s.dest_index;
}

unfoldable pub drop_duplicate : Text → RelayStore → RelayStore
drop_duplicate id s = if has id s.blobs then remove_blob id s else s

unfoldable pub store_blob : StoredBlob → RelayStore → RelayStore × Bool
store_blob blob s =
    let room = evict (length s.insertion_order) (blob_byte_size blob) s in
    if ltb room.max_storage_bytes (room.current_storage_bytes + blob_byte_size blob)
    then (room, false)
    else (insert_blob blob (drop_duplicate blob.id room), true)

-- The blobs of a list of ids, those that are gone left out.
unfoldable pub lookup_all : List Text → TextMap StoredBlob → List StoredBlob
lookup_all [] blobs = []
lookup_all (id ∷ ids) blobs =
    let rest = lookup_all ids blobs in elim (get id blobs) [ none ↦ rest | some b ↦ b ∷ rest ]

unfoldable pub ids_for : Text → RelayStore → List Text
ids_for dk s = elim (get dk s.dest_index) [ none ↦ [] | some ids ↦ keys ids ]

unfoldable pub get_blobs : List ℕ → RelayStore → List StoredBlob
get_blobs dest_hash s = lookup_all (ids_for (dest_key dest_hash) s) s.blobs

unfoldable pub remove_blobs : List Text → RelayStore → RelayStore
remove_blobs [] s = s
remove_blobs (id ∷ ids) s = remove_blobs ids (remove_blob id s)

unfoldable pub remove_blobs_for_dest : List ℕ → RelayStore → RelayStore
remove_blobs_for_dest dest_hash s = remove_blobs (ids_for (dest_key dest_hash) s) s

-- One round of the loop of `pruneExpired`, at position `i` of the order.
unfoldable pub prune_at : ℕ → ℕ → RelayStore → ℕ → RelayStore × ℕ
prune_at now i s removed = elim (get_elem? s.insertion_order i) [
  | none ↦ (s, removed)
  | some id ↦ elim (get id s.blobs) [
    | none ↦ (s, removed)
    | some blob ↦ if is_expired now blob then (remove_blob id s, removed + 1) else (s, removed)
  ]
]

-- The loop runs from the end of the order to its start; `i` positions are left.
unfoldable pub prune_from : ℕ → ℕ → RelayStore → ℕ → RelayStore × ℕ
prune_from now zero s removed = (s, removed)
prune_from now (suc i) s removed = let r = prune_at now i s removed in prune_from now i r.0 r.1

unfoldable pub prune_expired : ℕ → RelayStore → RelayStore × ℕ
prune_expired now s = prune_from now (length s.insertion_order) s 0

-- The delivery of one epoch's destination hash.
unfoldable pub deliver : List ℕ → RelayStore → RelayStore × List StoredBlob
deliver dest_hash s = (remove_blobs_for_dest dest_hash s, get_blobs dest_hash s)

unfoldable pub handle_presence_announcement :
    List ℕ → Option (List ℕ) → RelayStore → RelayStore × List StoredBlob
handle_presence_announcement dest_hash none s = deliver dest_hash s
handle_presence_announcement dest_hash (some previous) s =
    let current = deliver dest_hash s in
    if bytes_equal dest_hash previous
    then current
    else let earlier = deliver previous current.0 in (earlier.0, current.1 ++ earlier.1)

unfoldable pub should_forward : StoredBlob → Bool → Bool
should_forward blob closer_relay_available = closer_relay_available && ltb 0 blob.hops_remaining

-- `none` is the exception for a blob with no hops left.
unfoldable pub prepare_forward : ℕ → Text → StoredBlob → Option StoredBlob
prepare_forward now fresh_id blob =
    if leb blob.hops_remaining 0
    then none
    else some
        (record blob { id = fresh_id; hops_remaining = blob.hops_remaining - 1; received_at = now })
