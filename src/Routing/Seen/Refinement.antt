-- ===== src/Routing/Seen/Refinement.antt =====
-- `SeenPacketSet` refines a queue: the last `capacity` new fingerprints, oldest first.
use meshwhisper.Common.{
  ℕ, zero, suc, ◌+◌, ◌≤◌, ◌<◌, ◌≡◌, ◌≢◌, refl, ap, ◌∙◌, Bool, true, false, List, [], ◌∷◌, ◌++◌,
  length, length-append, take, drop, get_elem?, set_elem, arith, append_assoc, some, Text, mem,
  mem-append, AllDistinct, append-AllDistinct, leb, if◌then◌else◌, Bool-cases, inl, inr, ◌%◌,
}
use meshwhisper.Common.TextMap.{TextMap, get, has, set, delete, size, Distinct}
use meshwhisper.Common.TextMap.Laws.{
  has-get, get-set, get-delete, set-Distinct, delete-Distinct, size-set_new, size-delete,
}
use meshwhisper.Routing.Seen.Rotation.{rotate, length-set_elem}
use meshwhisper.Routing.Seen.{SeenPacketSet, replicate, evict_text, test_and_add}

-- The ring from its oldest place on.
unfoldable pub chronological : SeenPacketSet → List Text
chronological s = drop s.cursor s.ring ++ take s.cursor s.ring

-- The specification: a new fingerprint goes to the end, and in a full queue the oldest leaves.
unfoldable pub push : ℕ → Text → List Text → List Text
push capacity fp [] = fp ∷ []
push capacity fp (x ∷ q) =
    if leb capacity (length (x ∷ q)) then q ++ fp ∷ [] else x ∷ (q ++ fp ∷ [])

unfoldable pub observe : ℕ → Text → List Text → List Text × Bool
observe capacity fp q = if mem fp q then (q, true) else (push capacity fp q, false)

-- The set and the ring stand for the queue `q`: in time order the ring holds blank places, then
-- `q`; and the members are those of `q`.
pub record Refines (s : SeenPacketSet) (q : List Text) : Type 0 where
  pub positive : 0 < s.capacity
  pub ring_size : length s.ring ≡ s.capacity
  pub cursor_in_ring : s.cursor < s.capacity
  pub blank : ℕ
  pub in_order : chronological s ≡ replicate blank [] ++ q
  pub full : blank + length q ≡ s.capacity
  pub distinct : Distinct s.members
  pub queue_distinct : AllDistinct q
  pub members_in : (j : Text) → has j s.members ≡ mem j q
  pub sizes : size s.members ≡ length q
  pub no_blank : mem [] q ≡ false

next : SeenPacketSet → Text → TextMap (Unit {0}) → SeenPacketSet
next s fp members = record s {
  members = members;
  ring = set_elem s.ring s.cursor fp;
  cursor = (s.cursor + 1) % s.capacity;
}

module _ (s : SeenPacketSet) (fp : Text) (fresh : fp ≢ []) where
  add_room :
      (q : List Text) (w : Refines s q) (b : ℕ)
      → w.blank ≡ suc b
      → mem fp q ≡ false
      → Refines (next s fp (set fp tt s.members)) (q ++ (fp ∷ []))
  unfolding next chronological replicate mem
  add_room q w b e new =
      let (head, order) =
        rotate s.cursor s.capacity s.ring fp [] (replicate b [] ++ q) w.ring_size w.cursor_in_ring
          (w.in_order ∙ ap (λ k. replicate k [] ++ q) e) in
      record {
        positive = w.positive;
        ring_size = length-set_elem s.ring s.cursor fp ∙ w.ring_size;
        cursor_in_ring = omega (arith, w.positive);
        blank = b;
        in_order = order ∙ append_assoc (replicate b []) q (fp ∷ []);
        full = omega (arith, w.full, length-append q (fp ∷ []));
        distinct = set-Distinct fp tt s.members w.distinct;
        queue_distinct = append-AllDistinct fp q w.queue_distinct new;
        members_in = λ j. ground (
          arith,
          w.members_in j,
          has-get j s.members,
          has-get j (set fp tt s.members),
          get-set j fp tt s.members,
          mem-append j q (fp ∷ []),
        );
        sizes = omega (
          arith,
          w.sizes,
          length-append q (fp ∷ []),
          size-set_new fp tt s.members (ground (arith, w.members_in fp, has-get fp s.members)),
        );
        no_blank = ground (arith, w.no_blank, mem-append [] q (fp ∷ []));
      }

  add_full :
      (x : Text) (r : List Text) (w : Refines s (x ∷ r))
      → w.blank ≡ 0
      → mem fp (x ∷ r) ≡ false
      → Refines (next s fp (set fp tt (delete x s.members))) (r ++ (fp ∷ []))
  unfolding next chronological replicate mem
  add_full x r w e new =
      let (head, order) =
        rotate s.cursor s.capacity s.ring fp x r w.ring_size w.cursor_in_ring
          (w.in_order ∙ ap (λ k. replicate k [] ++ (x ∷ r)) e) in
      let held : get x s.members ≡ some tt = ground (arith, w.members_in x, has-get x s.members) in
      let gone = delete x s.members in
      record {
        positive = w.positive;
        ring_size = length-set_elem s.ring s.cursor fp ∙ w.ring_size;
        cursor_in_ring = omega (arith, w.positive);
        blank = 0;
        in_order = order;
        full = omega (arith, w.full, length-append r (fp ∷ []));
        distinct = set-Distinct fp tt gone (delete-Distinct x s.members w.distinct);
        queue_distinct = append-AllDistinct fp r w.queue_distinct.1 (ground arith);
        members_in = λ j. ground (
          arith,
          w.members_in j,
          has-get j s.members,
          has-get j (set fp tt gone),
          get-set j fp tt gone,
          get-delete j x s.members,
          mem-append j r (fp ∷ []),
          w.queue_distinct.0,
        );
        sizes = omega (
          arith,
          w.sizes,
          length-append r (fp ∷ []),
          size-delete x tt s.members w.distinct held,
          size-set_new fp tt gone
              (ground (arith, w.members_in fp, has-get fp s.members, get-delete fp x s.members)),
        );
        no_blank = ground (arith, w.no_blank, mem-append [] r (fp ∷ []));
      }

pub push_room : (n : ℕ) (fp : Text) (q : List Text) → length q < n → push n fp q ≡ q ++ (fp ∷ [])
unfolding push
push_room n fp [] h = refl
push_room n fp (x ∷ q) h = ground arith

pub push_full :
    (n : ℕ) (fp x : Text) (r : List Text) → n ≤ length (x ∷ r) → push n fp (x ∷ r) ≡ r ++ (fp ∷ [])
unfolding push
push_full n fp x r h = ground arith

-- What `testAndAdd` computes for a text that is not in the set.
new_lem :
    (s : SeenPacketSet) (fp : Text) (members : TextMap (Unit {0}))
    → has fp s.members ≡ false
    → (if leb s.capacity (size s.members)
        then evict_text (get_elem? s.ring s.cursor) s.members
        else s.members)
      ≡ members
    → test_and_add fp s ≡ (next s fp (set fp tt members), false)
unfolding test_and_add next
new_lem s fp members h e = rw (h, e)

abbrev Agrees : SeenPacketSet → List Text → Text → Type 0
Agrees s q fp =
    ((test_and_add fp s).1 ≡ (observe s.capacity fp q).1)
    × Refines (test_and_add fp s).0 (observe s.capacity fp q).0

known :
    (s : SeenPacketSet) (q : List Text) (fp : Text) → Refines s q → mem fp q ≡ true → Agrees s q fp
unfolding test_and_add observe
known s q fp w old =
    let had : has fp s.members ≡ true = w.members_in fp ∙ old in rw (had, old) (refl, w)

evict_some :
    (x : Text) (members : TextMap (Unit {0}))
    → x ≢ []
    → evict_text (some x) members ≡ delete x members
unfolding evict_text
evict_some [] members h = absurd (h refl)
evict_some (c ∷ cs) members h = refl

answer :
    (s : SeenPacketSet) (q q' : List Text) (fp : Text) (members : TextMap (Unit {0}))
    → mem fp q ≡ false
    → push s.capacity fp q ≡ q'
    → test_and_add fp s ≡ (next s fp (set fp tt members), false)
    → Refines (next s fp (set fp tt members)) q'
    → Agrees s q fp
unfolding observe
answer s q q' fp members new p e w = rw (e, new, p) (refl, w)

unknown :
    (s : SeenPacketSet) (q : List Text) (b : ℕ) (fp : Text) (w : Refines s q)
    → fp ≢ []
    → w.blank ≡ b
    → mem fp q ≡ false
    → Agrees s q fp
unfolding mem chronological replicate
unknown s q (suc b) fp w fresh e new =
    answer s q (q ++ (fp ∷ [])) fp s.members new (push_room s.capacity fp q (omega (arith, w.full)))
      (new_lem s fp s.members (w.members_in fp ∙ new) (ground (arith, w.sizes, w.full)))
      (add_room s fp fresh q w b e new)
unknown s [] zero fp w fresh e new = absurd (omega (arith, w.full, w.positive))
unknown s (x ∷ r) zero fp w fresh e new =
    let (head, _) =
      rotate s.cursor s.capacity s.ring fp x r w.ring_size w.cursor_in_ring
        (w.in_order ∙ ap (λ k. replicate k [] ++ (x ∷ r)) e) in
    let some_text : x ≢ [] = λ z. ground (arith, w.no_blank) in
    answer s (x ∷ r) (r ++ (fp ∷ [])) fp (delete x s.members) new
      (push_full s.capacity fp x r (omega (arith, w.full)))
      (new_lem s fp (delete x s.members) (w.members_in fp ∙ new)
        (ground (arith, w.sizes, w.full, head, evict_some x s.members some_text)))
      (add_full s fp fresh x r w e new)

-- A set that stands for a queue answers `testAndAdd` of a non-empty fingerprint as the queue does,
-- and goes on standing for it: it says whether the fingerprint is among the last `capacity` new
-- ones, and forgets exactly the oldest.
pub test_and_add-Refines :
    (s : SeenPacketSet) (q : List Text) (fp : Text)
    → Refines s q
    → fp ≢ []
    → ((test_and_add fp s).1 ≡ (observe s.capacity fp q).1)
      × Refines (test_and_add fp s).0 (observe s.capacity fp q).0
test_and_add-Refines s q fp w fresh = elim (Bool-cases (mem fp q)) [
  | inl old ↦ known s q fp w old
  | inr new ↦ unknown s q w.blank fp w fresh refl new
]
