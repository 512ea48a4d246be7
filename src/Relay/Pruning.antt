-- ===== src/Relay/Pruning.antt =====
-- `pruneExpired` removes exactly the expired blobs, and counts them.
use meshwhisper.Common.{
  ℕ, zero, suc, ◌+◌, ◌≡◌, refl, ap, ◌∙◌, Bool, true, false, ◌||◌, ◌&&◌, Option, none, some, Text,
  text_eq, mem, AllDistinct, arith, List, [], ◌∷◌, length, take, get_elem?, Option-cases,
  Bool-cases, inl, inr, if◌then◌else◌, remove_first,
}
use meshwhisper.Common.TextMap.{get, delete, size}
use meshwhisper.Common.TextMap.Laws.{size-delete}
use meshwhisper.Relay.{
  StoredBlob, RelayStore, is_expired, remove_blob, prune_at, prune_from, prune_expired,
}
use meshwhisper.Relay.Invariant.{Inv, remove_blob-Inv, get-remove_blob}

mem_of_get_elem? : (x : Text) (i : ℕ) (xs : List Text) → get_elem? xs i ≡ some x → mem x xs ≡ true
unfolding mem
mem_of_get_elem? x i [] h = cc
mem_of_get_elem? x zero (y ∷ xs) h = ground arith
mem_of_get_elem? x (suc i) (y ∷ xs) h = ground (arith, mem_of_get_elem? x i xs)

take-remove_first :
    (x : Text) (i : ℕ) (xs : List Text)
    → AllDistinct xs
    → get_elem? xs i ≡ some x
    → take i (remove_first x xs) ≡ take i xs
unfolding remove_first
take-remove_first x i [] d h = refl
take-remove_first x zero (y ∷ xs) d h = refl
take-remove_first x (suc i) (y ∷ xs) d h =
    ground (arith, take-remove_first x i xs d.1, mem_of_get_elem? x i xs)

-- The id at a position is `j`.
at : Text → Option Text → Bool
at j none = false
at j (some x) = text_eq x j

mem-take-suc :
    (j : Text) (i : ℕ) (xs : List Text)
    → mem j (take (suc i) xs) ≡ (mem j (take i xs) || at j (get_elem? xs i))
unfolding mem at
mem-take-suc j zero [] = refl
mem-take-suc j (suc i) [] = refl
mem-take-suc j zero (y ∷ xs) = ground arith
mem-take-suc j (suc i) (y ∷ xs) = ground (arith, mem-take-suc j i xs)

take-length : (xs : List Text) → take (length xs) xs ≡ xs
take-length [] = refl
take-length (x ∷ xs) = ap (◌∷◌ x) (take-length xs)

abbrev pub expired : ℕ → Option StoredBlob → Bool
expired now none = false
expired now (some b) = is_expired now b

-- The state and the count after the positions below `i` of the order have been looked at.
record Pruned (now i : ℕ) (s : RelayStore) (removed : ℕ) (r : RelayStore × ℕ) : Type 0 where
  valid : Inv r.0
  remaining :
      (j : Text)
      → get j r.0.blobs ≡ (
          if mem j (take i s.insertion_order) && expired now (get j s.blobs)
          then none
          else get j s.blobs)
  counted : r.1 + size r.0.blobs ≡ removed + size s.blobs

record Step (now i : ℕ) (s : RelayStore) (removed : ℕ) (r : RelayStore × ℕ) : Type 0 where
  valid : Inv r.0
  order : take i r.0.insertion_order ≡ take i s.insertion_order
  remaining :
      (j : Text)
      → get j r.0.blobs ≡ (
          if at j (get_elem? s.insertion_order i) && expired now (get j s.blobs)
          then none
          else get j s.blobs)
  counted : r.1 + size r.0.blobs ≡ removed + size s.blobs

remove_blob_present :
    (id : Text) (b : StoredBlob) (s : RelayStore)
    → get id s.blobs ≡ some b
    → ((remove_blob id s).insertion_order ≡ remove_first id s.insertion_order)
      × ((remove_blob id s).blobs ≡ delete id s.blobs)
unfolding remove_blob
remove_blob_present id b s e = ground arith

module _ (now i : ℕ) (s : RelayStore) (removed : ℕ) (v : Inv s) where
  skip :
      ((j : Text) → (at j (get_elem? s.insertion_order i) && expired now (get j s.blobs)) ≡ false)
      → Step now i s removed (s, removed)
  skip h = record { valid = v; order = refl; remaining = λ j. ground (arith, h j); counted = refl }

  drop_expired :
      (id : Text) (b : StoredBlob)
      → get_elem? s.insertion_order i ≡ some id
      → get id s.blobs ≡ some b
      → is_expired now b ≡ true
      → Step now i s removed (remove_blob id s, removed + 1)
  unfolding at
  drop_expired id b e f old = record {
    valid = remove_blob-Inv id s v;
    order = shorter;
    remaining = λ j. ground (arith, get-remove_blob j id s);
    counted = fewer;
  }
    where
      shorter : take i (remove_blob id s).insertion_order ≡ take i s.insertion_order
      shorter =
          ap (take i) (remove_blob_present id b s f).0
          ∙ take-remove_first id i s.insertion_order v.order_distinct e

      fewer : removed + 1 + size (remove_blob id s).blobs ≡ removed + size s.blobs
      fewer =
          omega
            (arith, ap size (remove_blob_present id b s f).1, size-delete id b s.blobs v.distinct f)

  prune_at-Step : Step now i s removed (prune_at now i s removed)
  unfolding prune_at at
  prune_at-Step = elim (Option-cases (get_elem? s.insertion_order i)) [
    | inl e ↦ rw (e, prune_at) (skip (λ j. ground arith))
    | inr (id, e) ↦ elim (Option-cases (get id s.blobs)) [
      | inl f ↦ rw (e, f, prune_at) (skip (λ j. ground arith))
      | inr (b, f) ↦ elim (Bool-cases (is_expired now b)) [
        | inl old ↦ rw (e, f, old, prune_at) (drop_expired id b e f old)
        | inr fresh ↦ rw (e, f, fresh, prune_at) (skip (λ j. ground arith))
      ]
    ]
  ]

prune_from-Pruned :
    (now i : ℕ) (s : RelayStore) (removed : ℕ)
    → Inv s
    → Pruned now i s removed (prune_from now i s removed)
unfolding prune_from mem
prune_from-Pruned now zero s removed v = record { valid = v; remaining = λ j. refl; counted = refl }
prune_from-Pruned now (suc i) s removed v =
    let r = prune_at now i s removed in
    let st = prune_at-Step now i s removed v in
    let p = prune_from-Pruned now i r.0 r.1 st.valid in
    record {
      valid = p.valid;
      remaining = λ j.
          ground
            (arith, p.remaining j, st.remaining j, st.order, mem-take-suc j i s.insertion_order);
      counted = p.counted ∙ st.counted;
    }

-- On a well-formed store, `pruneExpired` removes exactly the blobs whose time has run out, leaves
-- every other blob as it is, keeps the store well formed, and returns the number of blobs that it
-- removed.
pub prune_expired_lem :
    (now : ℕ) (s : RelayStore)
    → Inv s
    → Inv (prune_expired now s).0
      × ((j : Text)
          → get j (prune_expired now s).0.blobs
            ≡ (if expired now (get j s.blobs) then none else get j s.blobs))
      × ((prune_expired now s).1 + size (prune_expired now s).0.blobs ≡ size s.blobs)
unfolding prune_expired
prune_expired_lem now s v =
    let p = prune_from-Pruned now (length s.insertion_order) s 0 v in
    (
      p.valid,
      λ j. ground (arith, p.remaining j, take-length s.insertion_order, v.ordered j),
      omega (arith, p.counted),
    )
