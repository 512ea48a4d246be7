-- ===== src/Relay/Invariant.antt =====
-- What every state of the relay store satisfies, and that `removeBlob` keeps it.
use meshwhisper.Common.{
  ◌≡◌, refl, Bool, false, Option, none, some, Text, text_discrete, text_eq, mem, AllDistinct,
  mem-remove_first, remove_first-AllDistinct, arith, ite, [], ◌∷◌, Option-cases, inl, inr,
}
use meshwhisper.Common.TextMap.{TextMap, get, has, delete, total, size, Distinct}
use meshwhisper.Common.TextMap.Laws.{
  has-get, get-set, get-delete, delete-Distinct, total-delete, is_some,
}
use meshwhisper.Relay.{StoredBlob, RelayStore, blob_byte_size, dest_key, unindex, remove_blob}

-- The id stands in the set of a destination key.
abbrev pub in_set : Text → Option (TextMap (Unit {0})) → Bool
in_set id none = false
in_set id (some ids) = has id ids

abbrev pub targets : Text → Option StoredBlob → Bool
targets dk none = false
targets dk (some b) = text_eq (dest_key b.dest_hash) dk

abbrev pub SetDistinct : Option (TextMap (Unit {0})) → Type 0
SetDistinct none = Unit
SetDistinct (some ids) = Distinct ids

abbrev pub Named : Text → Option StoredBlob → Type 0
Named id none = Unit
Named id (some b) = b.id ≡ id

-- The maps agree: each blob stands under its own id, in the set of its destination and no other,
-- and once in the order; and the byte count is the sum of the sizes.
pub record Inv (s : RelayStore) : Type 0 where
  pub distinct : Distinct s.blobs
  pub named : (id : Text) → Named id (get id s.blobs)
  pub used : s.current_storage_bytes ≡ total blob_byte_size s.blobs
  pub ordered : (id : Text) → mem id s.insertion_order ≡ is_some (get id s.blobs)
  pub order_distinct : AllDistinct s.insertion_order
  pub indexed : (dk id : Text) → in_set id (get dk s.dest_index) ≡ targets dk (get id s.blobs)
  pub sets_distinct : (dk : Text) → SetDistinct (get dk s.dest_index)

has_of_empty : (id : Text) (ids : TextMap (Unit {0})) → size ids ≡ 0 → has id ids ≡ false
unfolding has
has_of_empty id [] h = refl
has_of_empty id (x ∷ ids) h = absurd (omega arith)

in_set-unindex :
    (dk id : Text) (index : TextMap (TextMap (Unit {0}))) (ek j : Text)
    → in_set j (get ek (unindex dk id index))
      ≡ ite
          (text_discrete dk ek)
          (ite (text_discrete id j) false (in_set j (get ek index)))
          (in_set j (get ek index))
unfolding unindex
in_set-unindex dk id index ek j = elim (Option-cases (get dk index)) [
  | inl e ↦ rw (e, unindex) (ground arith)
  | inr (ids, e) ↦
      rw (e, unindex)
        (ground (
          arith,
          get-delete ek dk index,
          get-set ek dk (delete id ids) index,
          has-get j ids,
          has-get j (delete id ids),
          get-delete j id ids,
          has_of_empty j (delete id ids),
        ))
]

unindex-SetDistinct :
    (dk id : Text) (index : TextMap (TextMap (Unit {0}))) (ek : Text)
    → SetDistinct (get dk index)
    → SetDistinct (get ek index)
    → SetDistinct (get ek (unindex dk id index))
unfolding unindex
unindex-SetDistinct dk id index ek d h = elim (Option-cases (get dk index)) [
  | inl e ↦ rw (e, unindex) h
  | inr (ids, e) ↦
      rw (e, unindex)
        (ground (
          arith,
          get-delete ek dk index,
          get-set ek dk (delete id ids) index,
          delete-Distinct id ids (rw e at d),
        ))
]

-- `removeBlob` deletes exactly the blob of the given id.
pub get-remove_blob :
    (j id : Text) (s : RelayStore)
    → get j (remove_blob id s).blobs ≡ ite (text_discrete id j) none (get j s.blobs)
unfolding remove_blob
get-remove_blob j id s = elim (Option-cases (get id s.blobs)) [
  | inl e ↦ rw (e, remove_blob) (ground arith)
  | inr (b, e) ↦ rw (e, remove_blob) (get-delete j id s.blobs)
]

-- Removing a blob, present or not, keeps the invariant.
pub remove_blob-Inv : (id : Text) (s : RelayStore) → Inv s → Inv (remove_blob id s)
unfolding remove_blob
remove_blob-Inv id s v = elim (Option-cases (get id s.blobs)) [
  | inl e ↦ rw (e, remove_blob) v
  | inr (b, e) ↦
      rw (e, remove_blob)
        (record {
          distinct = delete-Distinct id s.blobs v.distinct;
          named = λ j. ground (arith, get-delete j id s.blobs, v.named j);
          used = omega (arith, v.used, total-delete blob_byte_size id b s.blobs v.distinct e);
          ordered = λ j. ground (
            arith,
            get-delete j id s.blobs,
            v.ordered j,
            mem-remove_first j id s.insertion_order v.order_distinct,
          );
          order_distinct = remove_first-AllDistinct id s.insertion_order v.order_distinct;
          indexed = λ dk j. ground (
            arith,
            get-delete j id s.blobs,
            v.indexed dk j,
            in_set-unindex (dest_key b.dest_hash) id s.dest_index dk j,
          );
          sets_distinct = λ dk.
              unindex-SetDistinct (dest_key b.dest_hash) id s.dest_index dk (v.sets_distinct _)
                (v.sets_distinct dk);
        })
]
