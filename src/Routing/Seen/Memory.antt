-- ===== src/Routing/Seen/Memory.antt =====
-- How long `SeenPacketSet` remembers a fingerprint.
use meshwhisper.Common.{
  ℕ, suc, ◌≤◌, ◌<◌, ◌≡◌, ◌≢◌, refl, ap, ◌∙◌, subst, sym, true, false, List, [], ◌∷◌, ◌++◌, length,
  length-append, append_assoc, arith, Text, mem, mem-append, leb, Bool-cases, inl, inr,
}
use meshwhisper.Routing.Seen.{SeenPacketSet, test_and_add}
use meshwhisper.Routing.Seen.Refinement.{
  push, push_room, push_full, observe, Refines, test_and_add-Refines,
}
use meshwhisper.Routing.Seen.Runs.{same_capacity}

pub push_last :
    (n : ℕ) (fp : Text) (q : List Text) → (front : List Text) × (push n fp q ≡ front ++ (fp ∷ []))
unfolding push
push_last n fp [] = ([], refl)
push_last n fp (x ∷ q) = elim (Bool-cases (leb n (length (x ∷ q)))) [
  | inl e ↦ (q, push_full n fp x q (ground arith))
  | inr e ↦ (x ∷ q, push_room n fp (x ∷ q) (ground arith))
]

-- A queue that holds the fingerprint with at most `k` others behind it.
abbrev Behind : Text → ℕ → List Text → Type 0
Behind fp k q =
    (front : List Text) × (rest : List Text) × (q ≡ front ++ (fp ∷ rest)) × (length rest ≤ k)

push-Behind :
    (n : ℕ) (g fp : Text) (k : ℕ) (front rest : List Text)
    → length rest ≤ k
    → suc k < n
    → Behind fp (suc k) (push n g (front ++ (fp ∷ rest)))
push-Behind n g fp k [] rest h room = (
  [],
  rest ++ (g ∷ []),
  push_room n g (fp ∷ rest) (omega arith),
  omega (arith, length-append rest (g ∷ [])),
)
push-Behind n g fp k (x ∷ front) rest h room =
    let q = front ++ (fp ∷ rest) in
    let size : length (rest ++ (g ∷ [])) ≤ suc k = omega (arith, length-append rest (g ∷ [])) in
    elim (Bool-cases (leb n (length (x ∷ q)))) [
      | inl e ↦ (
        front,
        rest ++ (g ∷ []),
        push_full n g x q (ground arith) ∙ append_assoc front (fp ∷ rest) (g ∷ []),
        size,
      )
      | inr e ↦ (
        x ∷ front,
        rest ++ (g ∷ []),
        push_room n g (x ∷ q) (ground arith) ∙ ap (◌∷◌ x) (append_assoc front (fp ∷ rest) (g ∷ [])),
        size,
      )
    ]

observe-Behind :
    (n : ℕ) (g fp : Text) (k : ℕ) (q : List Text)
    → Behind fp k q
    → suc k < n
    → Behind fp (suc k) (observe n g q).0
unfolding observe
observe-Behind n g fp k q (front, rest, e, h) room = elim (Bool-cases (mem g q)) [
  | inl old ↦ rw old (front, rest, e, omega arith)
  | inr new ↦
      rw new (
        subst (λ p. Behind fp (suc k) (push n g p)) (sym e)
          (push-Behind n g fp k front rest h room))
]

Behind-mem : (fp : Text) (k : ℕ) (q : List Text) → Behind fp k q → mem fp q ≡ true
unfolding mem
Behind-mem fp k q (front, rest, e, h) = rw e (ground (arith, mem-append fp front (fp ∷ rest)))

-- A set of capacity `n` for such a queue.
pub record Remembers (n : ℕ) (fp : Text) (k : ℕ) (s : SeenPacketSet) : Type 0 where
  capacity : s.capacity ≡ n
  queue : List Text
  refines : Refines s queue
  behind : Behind fp k queue

-- `testAndAdd` in a set of capacity `n`, and in its queue.
test_and_add_queue :
    (n : ℕ) (g : Text) (s : SeenPacketSet) (q : List Text)
    → s.capacity ≡ n
    → Refines s q
    → g ≢ []
    → ((test_and_add g s).1 ≡ (observe n g q).1) × Refines (test_and_add g s).0 (observe n g q).0
test_and_add_queue n g s q c w some_text =
    subst
      (λ m.
        ((test_and_add g s).1 ≡ (observe m g q).1) × Refines (test_and_add g s).0 (observe m g q).0)
      c (test_and_add-Refines s q g w some_text)

pub weaken-Remembers :
    (n : ℕ) (fp : Text) (k : ℕ) (s : SeenPacketSet) → Remembers n fp k s → Remembers n fp (suc k) s
weaken-Remembers n fp k s v =
    let (front, rest, e, h) = v.behind in
    record {
      capacity = v.capacity;
      queue = v.queue;
      refines = v.refines;
      behind = (front, rest, e, omega arith);
    }

-- One more fingerprint moves the first one by at most one place towards the oldest.
pub test_and_add-Remembers :
    (n : ℕ) (g fp : Text) (k : ℕ) (s : SeenPacketSet)
    → g ≢ []
    → suc k < n
    → Remembers n fp k s
    → Remembers n fp (suc k) (test_and_add g s).0
test_and_add-Remembers n g fp k s some_text room v = record {
  capacity = same_capacity g s ∙ v.capacity;
  queue = (observe n g v.queue).0;
  refines = (test_and_add_queue n g s v.queue v.capacity v.refines some_text).1;
  behind = observe-Behind n g fp k v.queue v.behind room;
}

-- A fingerprint that is new is remembered.
pub test_and_add_new :
    (n : ℕ) (fp : Text) (s : SeenPacketSet) (q : List Text)
    → s.capacity ≡ n
    → Refines s q
    → fp ≢ []
    → (test_and_add fp s).1 ≡ false
    → Remembers n fp 0 (test_and_add fp s).0
unfolding observe
test_and_add_new n fp s q c w some_text new =
    let (same, after) = test_and_add_queue n fp s q c w some_text in
    let (front, e) = push_last n fp q in
    record {
      capacity = same_capacity fp s ∙ c;
      queue = (observe n fp q).0;
      refines = after;
      behind = (front, [], ground arith, omega arith);
    }

-- A remembered fingerprint is found.
pub test_and_add_old :
    (n : ℕ) (fp : Text) (k : ℕ) (s : SeenPacketSet)
    → fp ≢ []
    → Remembers n fp k s
    → (test_and_add fp s).1 ≡ true
unfolding observe
test_and_add_old n fp k s some_text v =
    let (same, after) = test_and_add_queue n fp s v.queue v.capacity v.refines some_text in
    ground (arith, Behind-mem fp k v.queue v.behind)
