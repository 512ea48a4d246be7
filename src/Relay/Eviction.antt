-- ===== src/Relay/Eviction.antt =====
-- The eviction loop of `storeBlob`: it ends within its fuel, by its own test, and drops the
-- oldest blobs.
use meshwhisper.Common.{
  ℕ, zero, suc, ◌+◌, ◌≤◌, ◌≡◌, ◌≢◌, refl, sym, ap, ◌∙◌, true, false, none, Text, text_discrete, mem,
  AllDistinct, remove_first, arith, List, [], ◌∷◌, ◌++◌, ◌⊎◌, length, ltb, Bool-cases, inl, inr,
  if_neg, subst, mem-append, ltb→le,
}
use meshwhisper.Common.TextMap.{TextMap, get, total}
use meshwhisper.Relay.{RelayStore, blob_byte_size, remove_blob, evict}
use meshwhisper.Relay.Invariant.{Inv, remove_blob-Inv, get-remove_blob}

pub remove_blob-max :
    (id : Text) (s : RelayStore) → (remove_blob id s).max_storage_bytes ≡ s.max_storage_bytes
unfolding remove_blob
remove_blob-max id s = ground arith

-- Removing the oldest blob takes the head off the order.
remove_oldest :
    (x : Text) (rest : List Text) (s : RelayStore)
    → Inv s
    → s.insertion_order ≡ x ∷ rest
    → (remove_blob x s).insertion_order ≡ rest
unfolding remove_blob remove_first mem
remove_oldest x rest s v e = ground (arith, v.ordered x)

empty_of_none {ℓ} : {V : Type ℓ} (m : TextMap V) → ((id : Text) → get id m ≡ none) → m ≡ []
unfolding get
empty_of_none [] h = refl
empty_of_none ((k, v) ∷ m) h = ground (arith, h k)

-- A store with an empty order is empty.
pub empty_of_order :
    (s : RelayStore)
    → Inv s
    → s.insertion_order ≡ []
    → (s.blobs ≡ []) × (s.current_storage_bytes ≡ 0)
unfolding mem total
empty_of_order s v e =
    let none_left = empty_of_none s.blobs (λ id. ground (arith, v.ordered id)) in
    (none_left, v.used ∙ ap (total blob_byte_size) none_left)

-- The state `t` in which the loop leaves `s`.
pub record Evicted (size : ℕ) (s t : RelayStore) : Type 0 where
  pub valid : Inv t
  pub same_max : t.max_storage_bytes ≡ s.max_storage_bytes
  pub ended : (t.current_storage_bytes + size ≤ s.max_storage_bytes) ⊎ (t.insertion_order ≡ [])
  pub dropped : List Text
  pub oldest_first : s.insertion_order ≡ dropped ++ t.insertion_order
  pub kept : (j : Text) → mem j t.insertion_order ≡ true → get j t.blobs ≡ get j s.blobs

stop :
    (size : ℕ) (s : RelayStore)
    → Inv s
    → (s.current_storage_bytes + size ≤ s.max_storage_bytes) ⊎ (s.insertion_order ≡ [])
    → Evicted size s s
stop size s v h = record {
  valid = v;
  same_max = refl;
  ended = h;
  dropped = [];
  oldest_first = refl;
  kept = λ j m. refl;
}

mem_dropped :
    (x j : Text) (xs ys : List Text) → AllDistinct (x ∷ (xs ++ ys)) → mem j ys ≡ true → x ≢ j
unfolding mem
mem_dropped x j xs ys d m e = ground (arith, mem-append x xs ys, ap (λ z. mem z ys) e)

again :
    (size : ℕ) (s t : RelayStore) (x : Text) (rest : List Text)
    → Inv s
    → s.insertion_order ≡ x ∷ rest
    → Evicted size (remove_blob x s) t
    → Evicted size s t
again size s t x rest v e h = record {
  valid = h.valid;
  same_max = h.same_max ∙ remove_blob-max x s;
  ended = rw (← remove_blob-max x s) h.ended;
  dropped = x ∷ h.dropped;
  oldest_first = order;
  kept = λ j m.
      h.kept j m
      ∙ get-remove_blob j x s
      ∙ if_neg (text_discrete x j)
          (mem_dropped x j h.dropped t.insertion_order (subst AllDistinct order v.order_distinct) m)
          none (get j s.blobs);
}
  where
    order : s.insertion_order ≡ x ∷ (h.dropped ++ t.insertion_order)
    order = e ∙ ap (◌∷◌ x) (sym (remove_oldest x rest s v e) ∙ h.oldest_first)

module _ (fuel size : ℕ) (s : RelayStore) where
  evict_empty : s.insertion_order ≡ [] → evict (suc fuel) size s ≡ s
  unfolding evict
  evict_empty e = ground arith

  module _ (x : Text) (rest : List Text) (e : s.insertion_order ≡ x ∷ rest) where
    evict_full :
        ltb s.max_storage_bytes (s.current_storage_bytes + size) ≡ true
        → evict (suc fuel) size s ≡ evict fuel size (remove_blob x s)
    unfolding evict
    evict_full full = ground arith

    evict_room :
        ltb s.max_storage_bytes (s.current_storage_bytes + size) ≡ false
        → evict (suc fuel) size s ≡ s
    unfolding evict
    evict_room room = ground arith

evict_from :
    (fuel size : ℕ) (s : RelayStore) (order : List Text)
    → s.insertion_order ≡ order
    → Inv s
    → length order ≤ fuel
    → Evicted size s (evict fuel size s)
unfolding evict
evict_from zero size s [] e v h = stop size s v (inr e)
evict_from zero size s (x ∷ rest) e v h = absurd (omega arith)
evict_from (suc fuel) size s [] e v h =
    subst (Evicted size s) (sym (evict_empty fuel size s e)) (stop size s v (inr e))
evict_from (suc fuel) size s (x ∷ rest) e v h =
    elim (Bool-cases (ltb s.max_storage_bytes (s.current_storage_bytes + size))) [
      | inl full ↦ subst (Evicted size s) (sym (evict_full fuel size s x rest e full)) (
          again size s _ x rest v e (
            evict_from fuel size (remove_blob x s) rest (remove_oldest x rest s v e)
              (remove_blob-Inv x s v) (omega arith)))
      | inr room ↦
          subst (Evicted size s) (sym (evict_room fuel size s x rest e room))
            (stop size s v (inl (ltb→le _ _ room)))
    ]

-- On a well-formed store, with as much fuel as there are blobs, the eviction loop ends by its own
-- test: the new blob fits, or nothing is left. It drops blobs from the oldest on, changes no other,
-- and leaves the store well formed.
pub evict-Evicted :
    (size : ℕ) (s : RelayStore) → Inv s → Evicted size s (evict (length s.insertion_order) size s)
evict-Evicted size s v =
    evict_from (length s.insertion_order) size s s.insertion_order refl v (omega arith)
