-- ===== src/Relay/Storing.antt =====
-- `storeBlob`: what it stores, what it drops, and when it refuses.
use meshwhisper.Common.{
  ◌+◌, ◌≤◌, ◌<◌, ◌≡◌, ◌≢◌, refl, ◌∙◌, Bool, true, false, none, some, Text, text_discrete, mem,
  append-AllDistinct, mem-append, arith, [], ◌∷◌, ◌⊎◌, length, ltb, ltb→le, ltb→lt, Option-cases,
  Bool-cases, inl, inr, ite, if_pos,
}
use meshwhisper.Common.TextMap.{TextMap, get, has, set, total}
use meshwhisper.Common.TextMap.Laws.{has-get, get-set, set-Distinct, total-set_new}
use meshwhisper.Relay.{
  StoredBlob, RelayStore, blob_byte_size, dest_key, remove_blob, evict, index_blob, insert_blob,
  drop_duplicate, store_blob,
}
use meshwhisper.Relay.Invariant.{Inv, SetDistinct, in_set, remove_blob-Inv, get-remove_blob}
use meshwhisper.Relay.Eviction.{Evicted, evict-Evicted, empty_of_order, remove_blob-max}

in_set-index_blob :
    (dk id : Text) (index : TextMap (TextMap (Unit {0}))) (ek j : Text)
    → in_set j (get ek (index_blob dk id index))
      ≡ ite
          (text_discrete dk ek)
          (ite (text_discrete id j) true (in_set j (get ek index)))
          (in_set j (get ek index))
unfolding index_blob get
in_set-index_blob dk id index ek j = elim (Option-cases (get dk index)) [
  | inl e ↦
      rw (e, index_blob)
        (ground (
          arith,
          get-set ek dk (set id tt []) index,
          has-get {0} j (set id tt []),
          get-set {0} j id tt [],
        ))
  | inr (ids, e) ↦
      rw (e, index_blob)
        (ground (
          arith,
          get-set ek dk (set id tt ids) index,
          has-get j ids,
          has-get j (set id tt ids),
          get-set j id tt ids,
        ))
]

index_blob-SetDistinct :
    (dk id : Text) (index : TextMap (TextMap (Unit {0}))) (ek : Text)
    → SetDistinct (get dk index)
    → SetDistinct (get ek index)
    → SetDistinct (get ek (index_blob dk id index))
unfolding index_blob
index_blob-SetDistinct dk id index ek d h = elim (Option-cases (get dk index)) [
  | inl e ↦
      rw (e, index_blob)
        (ground (arith, get-set ek dk (set id tt []) index, set-Distinct {0} id tt [] tt))
  | inr (ids, e) ↦
      rw (e, index_blob)
        (ground (arith, get-set ek dk (set id tt ids) index, set-Distinct id tt ids (rw e at d)))
]

insert_blob-Inv :
    (b : StoredBlob) (s : RelayStore) → Inv s → get b.id s.blobs ≡ none → Inv (insert_blob b s)
unfolding insert_blob mem
insert_blob-Inv b s v new = record {
  distinct = set-Distinct b.id b s.blobs v.distinct;
  named = λ j. ground (arith, get-set j b.id b s.blobs, v.named j);
  used = omega (arith, v.used, total-set_new blob_byte_size b.id b s.blobs new);
  ordered = λ j.
      ground
        (arith, get-set j b.id b s.blobs, v.ordered j, mem-append j s.insertion_order (b.id ∷ []));
  order_distinct =
      append-AllDistinct b.id s.insertion_order v.order_distinct (ground (arith, v.ordered b.id));
  indexed = λ dk j. ground (
    arith,
    get-set j b.id b s.blobs,
    v.indexed dk j,
    in_set-index_blob (dest_key b.dest_hash) b.id s.dest_index dk j,
  );
  sets_distinct = λ dk.
      index_blob-SetDistinct (dest_key b.dest_hash) b.id s.dest_index dk (v.sets_distinct _)
        (v.sets_distinct dk);
}

remove_blob-le :
    (id : Text) (s : RelayStore)
    → (remove_blob id s).current_storage_bytes ≤ s.current_storage_bytes
unfolding remove_blob
remove_blob-le id s = ground arith

-- What the check for a duplicate id leaves.
record Cleared (id : Text) (s t : RelayStore) : Type 0 where
  valid : Inv t
  same_max : t.max_storage_bytes ≡ s.max_storage_bytes
  no_larger : t.current_storage_bytes ≤ s.current_storage_bytes
  absent : get id t.blobs ≡ none
  kept : (j : Text) → j ≢ id → get j t.blobs ≡ get j s.blobs

drop_duplicate-Cleared : (id : Text) (s : RelayStore) → Inv s → Cleared id s (drop_duplicate id s)
unfolding drop_duplicate
drop_duplicate-Cleared id s v = elim (Bool-cases (has id s.blobs)) [
  | inl old ↦
      rw (old, drop_duplicate)
        (record {
          valid = remove_blob-Inv id s v;
          same_max = remove_blob-max id s;
          no_larger = remove_blob-le id s;
          absent = ground (arith, get-remove_blob id id s);
          kept = λ j h. ground (arith, get-remove_blob j id s);
        })
  | inr new ↦
      rw (new, drop_duplicate)
        (record {
          valid = v;
          same_max = refl;
          no_larger = omega arith;
          absent = ground (arith, has-get id s.blobs);
          kept = λ j h. refl;
        })
]

-- The outcome `r` of `storeBlob`, told apart by the blob's size.
pub data Outcome (b : StoredBlob) (s : RelayStore) (r : RelayStore × Bool) : Type 0 where
  refused : s.max_storage_bytes < blob_byte_size b → r.1 ≡ false → r.0.blobs ≡ [] → Outcome b s r
  accepted :
      blob_byte_size b ≤ s.max_storage_bytes
      → r.1 ≡ true
      → get b.id r.0.blobs ≡ some b
      → ((j : Text) → j ≢ b.id → (get j r.0.blobs ≡ none) ⊎ (get j r.0.blobs ≡ get j s.blobs))
      → Outcome b s r

record Stored (b : StoredBlob) (s : RelayStore) (r : RelayStore × Bool) : Type 0 where
  valid : Inv r.0
  same_max : r.0.max_storage_bytes ≡ s.max_storage_bytes
  bounded : r.0.current_storage_bytes ≤ s.max_storage_bytes
  outcome : Outcome b s r

module _ (b : StoredBlob) (s t : RelayStore) (v : Inv s) (e : Evicted (blob_byte_size b) s t) where
  refuse :
      ltb t.max_storage_bytes (t.current_storage_bytes + blob_byte_size b) ≡ true
      → Stored b s (t, false)
  refuse full =
      let nothing : t.insertion_order ≡ [] = ground (arith, e.ended, e.same_max) in
      let (none_left, zero_used) = empty_of_order t e.valid nothing in
      record {
        valid = e.valid;
        same_max = e.same_max;
        bounded = omega (arith, zero_used);
        outcome = refused (omega (arith, zero_used, e.same_max, ltb→lt _ _ full)) refl none_left;
      }

  survivors : (j : Text) → (get j t.blobs ≡ none) ⊎ (get j t.blobs ≡ get j s.blobs)
  survivors j = elim (Bool-cases (mem j t.insertion_order)) [
    | inl held ↦ inr (e.kept j held)
    | inr gone ↦ inl (ground (arith, e.valid.ordered j))
  ]

  accept :
      ltb t.max_storage_bytes (t.current_storage_bytes + blob_byte_size b) ≡ false
      → Stored b s (insert_blob b (drop_duplicate b.id t), true)
  unfolding insert_blob
  accept room =
      let c = drop_duplicate-Cleared b.id t e.valid in
      let fits = ltb→le _ _ room in
      record {
        valid = insert_blob-Inv b _ c.valid c.absent;
        same_max = c.same_max ∙ e.same_max;
        bounded = omega (arith, c.no_larger, e.same_max);
        outcome =
            accepted (omega (arith, e.same_max)) refl
              (get-set b.id b.id b (drop_duplicate b.id t).blobs
                ∙ if_pos (text_discrete b.id b.id) refl (some b)
                    (get b.id (drop_duplicate b.id t).blobs))
              (λ j h.
                ground
                  (arith, get-set j b.id b (drop_duplicate b.id t).blobs, c.kept j h, survivors j));
      }

store_blob-Stored : (b : StoredBlob) (s : RelayStore) → Inv s → Stored b s (store_blob b s)
unfolding store_blob
store_blob-Stored b s v =
    let t = evict (length s.insertion_order) (blob_byte_size b) s in
    let e = evict-Evicted (blob_byte_size b) s v in
    elim (Bool-cases (ltb t.max_storage_bytes (t.current_storage_bytes + blob_byte_size b))) [
      | inl full ↦ rw full (refuse b s t v e full)
      | inr room ↦ rw room (accept b s t v e room)
    ]

-- `storeBlob` keeps the invariant, whether it stores the blob or not.
pub store_blob-Inv : (b : StoredBlob) (s : RelayStore) → Inv s → Inv (store_blob b s).0
store_blob-Inv b s v = (store_blob-Stored b s v).valid

-- After `storeBlob` the blobs held never exceed the configured capacity, and the capacity is as
-- it was.
pub store_blob-le-max :
    (b : StoredBlob) (s : RelayStore)
    → Inv s
    → (total blob_byte_size (store_blob b s).0.blobs ≤ s.max_storage_bytes)
      × ((store_blob b s).0.max_storage_bytes ≡ s.max_storage_bytes)
store_blob-le-max b s v =
    let r = store_blob-Stored b s v in (omega (arith, r.valid.used, r.bounded), r.same_max)

-- In a well-formed store a blob no larger than the whole capacity is always stored, under its id;
-- every other blob is then as it was or evicted.
pub store_blob-accepts :
    (b : StoredBlob) (s : RelayStore)
    → Inv s
    → blob_byte_size b ≤ s.max_storage_bytes
    → ((store_blob b s).1 ≡ true)
      × (get b.id (store_blob b s).0.blobs ≡ some b)
      × ((j : Text)
          → j ≢ b.id
          → (get j (store_blob b s).0.blobs ≡ none)
            ⊎ (get j (store_blob b s).0.blobs ≡ get j s.blobs))
store_blob-accepts b s v h = elim ((store_blob-Stored b s v).outcome) [
  | refused over _ _ ↦ absurd (omega arith)
  | accepted _ stored here others ↦ (stored, here, others)
]

-- A blob larger than the whole capacity is refused, but only after every other blob of the well-
-- formed store has been evicted: the store is then empty.
pub store_blob-wipes :
    (b : StoredBlob) (s : RelayStore)
    → Inv s
    → s.max_storage_bytes < blob_byte_size b
    → ((store_blob b s).1 ≡ false) × ((store_blob b s).0.blobs ≡ [])
store_blob-wipes b s v h = elim ((store_blob-Stored b s v).outcome) [
  | refused _ no_room none_left ↦ (no_room, none_left)
  | accepted fits _ _ _ ↦ absurd (omega arith)
]
