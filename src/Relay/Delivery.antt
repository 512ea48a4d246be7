-- ===== src/Relay/Delivery.antt =====
-- Delivery on a presence announcement: exactly the blobs of the announced destinations, each
-- once, and they leave the store.
use meshwhisper.Bytes.{Bytes, bytes_equal}
use meshwhisper.Bytes.Laws.{bytes_equal_iff}
use meshwhisper.Common.{
  ℕ, ◌≡◌, refl, sym, ap, ◌∙◌, Bool, true, ◌||◌, Option, none, some, Text, mem, fun_ext, subst,
  All-imp, append-AllDistinct_of_disjoint, AllDistinct, mem-append, arith, List, [], ◌∷◌, ◌++◌, All,
  All-append, Option-cases, Bool-cases, inl, inr, if◌then◌else◌,
}
use meshwhisper.Common.TextMap.{TextMap, get}
use meshwhisper.Common.TextMap.Laws.{is_some, mem-keys, keys-AllDistinct}
use meshwhisper.Relay.{
  StoredBlob, RelayStore, dest_key, remove_blob, remove_blobs, lookup_all, ids_for, get_blobs,
  remove_blobs_for_dest, deliver, handle_presence_announcement,
}
use meshwhisper.Relay.Invariant.{Inv, Named, targets, remove_blob-Inv, get-remove_blob}

abbrev pub blob_ids : List StoredBlob → List Text
blob_ids [] = []
blob_ids (b ∷ bs) = b.id ∷ blob_ids bs

remove_blobs-Inv : (ids : List Text) (s : RelayStore) → Inv s → Inv (remove_blobs ids s)
unfolding remove_blobs
remove_blobs-Inv [] s v = v
remove_blobs-Inv (id ∷ ids) s v = remove_blobs-Inv ids (remove_blob id s) (remove_blob-Inv id s v)

get-remove_blobs :
    (j : Text) (ids : List Text) (s : RelayStore)
    → get j (remove_blobs ids s).blobs ≡ (if mem j ids then none else get j s.blobs)
unfolding remove_blobs mem
get-remove_blobs j [] s = refl
get-remove_blobs j (id ∷ ids) s =
    ground (arith, get-remove_blobs j ids (remove_blob id s), get-remove_blob j id s)

-- The ids in the index are those of the blobs with that destination.
mem-ids_for :
    (j dk : Text) (s : RelayStore) → Inv s → mem j (ids_for dk s) ≡ targets dk (get j s.blobs)
unfolding ids_for mem
mem-ids_for j dk s v = elim (Option-cases (get dk s.dest_index)) [
  | inl e ↦ rw (e, ids_for) (ground (arith, v.indexed dk j))
  | inr (ids, e) ↦ rw (e, ids_for) (ground (arith, v.indexed dk j, mem-keys j ids))
]

ids_for-AllDistinct : (dk : Text) (s : RelayStore) → Inv s → AllDistinct (ids_for dk s)
unfolding ids_for
ids_for-AllDistinct dk s v = elim (Option-cases (get dk s.dest_index)) [
  | inl e ↦ rw (e, ids_for) tt
  | inr (ids, e) ↦ rw (e, ids_for) (keys-AllDistinct ids (rw e at (v.sets_distinct dk)))
]

blob_ids-lookup_all :
    (ids : List Text) (blobs : TextMap StoredBlob)
    → ((j : Text) → Named j (get j blobs))
    → ((j : Text) → mem j ids ≡ true → is_some (get j blobs) ≡ true)
    → blob_ids (lookup_all ids blobs) ≡ ids
unfolding lookup_all mem
blob_ids-lookup_all [] blobs named present = refl
blob_ids-lookup_all (id ∷ ids) blobs named present = ground (
  arith,
  named id,
  present id (ground arith),
  blob_ids-lookup_all ids blobs named (λ j m. present j (ground arith)),
)

lookup_all-stored :
    (ids : List Text) (blobs : TextMap StoredBlob)
    → ((j : Text) → Named j (get j blobs))
    → All (λ b. get b.id blobs ≡ some b) (lookup_all ids blobs)
unfolding lookup_all
lookup_all-stored [] blobs named = tt
lookup_all-stored (id ∷ ids) blobs named =
    ground (arith, named id, lookup_all-stored ids blobs named)

blob_ids-get_blobs :
    (h : List ℕ) (s : RelayStore) → Inv s → blob_ids (get_blobs h s) ≡ ids_for (dest_key h) s
unfolding get_blobs
blob_ids-get_blobs h s v =
    blob_ids-lookup_all (ids_for (dest_key h) s) s.blobs v.named
      (λ j m. ground (arith, mem-ids_for j (dest_key h) s v))

-- What a delivery from `s` does, when `due` says which ids it is for: the store left is
-- well-formed and holds the blobs that are not due, unchanged; the blobs handed over are blobs of
-- `s`, exactly those that are due, each once.
pub record Delivered (due : Text → Bool) (s : RelayStore) (r : RelayStore × List StoredBlob)
    : Type 0 where
  pub valid : Inv r.0
  pub remaining : (j : Text) → get j r.0.blobs ≡ (if due j then none else get j s.blobs)
  pub complete : (j : Text) → mem j (blob_ids r.1) ≡ due j
  pub once : AllDistinct (blob_ids r.1)
  pub genuine : All (λ b. get b.id s.blobs ≡ some b) r.1

abbrev pub due_for : List ℕ → RelayStore → Text → Bool
due_for h s j = targets (dest_key h) (get j s.blobs)

-- `deliver` hands over the blobs of one destination.
pub deliver-Delivered :
    (h : List ℕ) (s : RelayStore) → Inv s → Delivered (due_for h s) s (deliver h s)
unfolding deliver remove_blobs_for_dest get_blobs
deliver-Delivered h s v =
    let dk = dest_key h in
    let same =
      blob_ids-lookup_all (ids_for dk s) s.blobs v.named
        (λ j m. ground (arith, mem-ids_for j dk s v)) in
    record {
      valid = remove_blobs-Inv (ids_for dk s) s v;
      remaining = λ j. ground (arith, get-remove_blobs j (ids_for dk s) s, mem-ids_for j dk s v);
      complete = λ j. ap (mem j) same ∙ mem-ids_for j dk s v;
      once = subst AllDistinct (sym same) (ids_for-AllDistinct dk s v);
      genuine = lookup_all-stored (ids_for dk s) s.blobs v.named;
    }

blob_ids-append : (xs ys : List StoredBlob) → blob_ids (xs ++ ys) ≡ blob_ids xs ++ blob_ids ys
blob_ids-append [] ys = refl
blob_ids-append (b ∷ xs) ys = ap (◌∷◌ b.id) (blob_ids-append xs ys)

-- Two deliveries, one after the other.
Delivered-then :
    (s : RelayStore) (p q : Text → Bool) (r : RelayStore × List StoredBlob) (h : List ℕ)
    → Delivered p s r
    → ((j : Text) → q j ≡ due_for h s j)
    → Delivered (λ j. p j || q j) s ((deliver h r.0).0, r.1 ++ (deliver h r.0).1)
Delivered-then s p q r h d e =
    let next = deliver-Delivered h r.0 d.valid in
    let ids = blob_ids-append r.1 (deliver h r.0).1 in
    record {
      valid = next.valid;
      remaining = λ j. ground (arith, next.remaining j, d.remaining j, e j);
      complete = λ j.
          ap (mem j) ids
          ∙ ground (
            arith,
            mem-append j (blob_ids r.1) (blob_ids (deliver h r.0).1),
            d.complete j,
            next.complete j,
            d.remaining j,
            e j,
          );
      once = subst AllDistinct (sym ids) (
          append-AllDistinct_of_disjoint (blob_ids r.1) (blob_ids (deliver h r.0).1) d.once
            next.once (λ j m. ground (arith, d.complete j, next.complete j, d.remaining j)));
      genuine =
          All-append _ r.1 (deliver h r.0).1 d.genuine
            (All-imp (λ b k. ground (arith, d.remaining b.id)) (deliver h r.0).1 next.genuine);
    }

abbrev pub due_for_either : List ℕ → Option (List ℕ) → RelayStore → Text → Bool
due_for_either h none s j = due_for h s j
due_for_either h (some p) s j = due_for h s j || due_for p s j

abbrev pub Bytes? : Option (List ℕ) → Type 0
Bytes? none = Unit
Bytes? (some p) = Bytes p

same_key :
    (h p : List ℕ) (s : RelayStore)
    → h ≡ p
    → (j : Text) → due_for h s j ≡ (due_for h s j || due_for p s j)
same_key h p s e j = rw (← e) (ground arith)

-- On a well-formed store, a presence announcement hands over exactly the blobs stored for the
-- current destination hash and, if it is given, for the previous one, each once; it removes these
-- from the store and changes no other. The hashes are byte arrays.
pub handle_presence_announcement-Delivered :
    (h : List ℕ) (previous : Option (List ℕ)) (s : RelayStore)
    → Inv s
    → Bytes h
    → Bytes? previous
    → Delivered (due_for_either h previous s) s (handle_presence_announcement h previous s)
unfolding handle_presence_announcement
handle_presence_announcement-Delivered h none s v bh bp = deliver-Delivered h s v
handle_presence_announcement-Delivered h (some p) s v bh bp =
    let first = deliver-Delivered h s v in
    elim (Bool-cases (bytes_equal h p)) [
      | inl equal ↦ rw equal (
          subst (λ due. Delivered due s (deliver h s))
            (fun_ext (same_key h p s ((bytes_equal_iff h p bh bp).0 equal))) first)
      | inr differ ↦
          rw differ (Delivered-then s (due_for h s) (due_for p s) (deliver h s) p first (λ j. refl))
    ]
