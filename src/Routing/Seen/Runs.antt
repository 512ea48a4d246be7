-- ===== src/Routing/Seen/Runs.antt =====
-- A new `SeenPacketSet` on a whole sequence of packets.
use meshwhisper.Common.{
  ℕ, zero, suc, ◌<◌, ◌≡◌, ◌≢◌, refl, ap, ◌∙◌, subst, Bool, List, [], ◌∷◌, length, arith, Text, mem,
  All,
}
use mathlib.Core.Path.{ap₂}
use meshwhisper.Common.TextMap.{has}
use meshwhisper.Routing.Seen.{SeenPacketSet, replicate, new_seen, test_and_add}
use meshwhisper.Routing.Seen.Refinement.{chronological, observe, Refines, test_and_add-Refines}

length-replicate {ℓ} : {A : Type ℓ} (n : ℕ) (a : A) → length (replicate n a) ≡ n
unfolding replicate
length-replicate zero a = refl
length-replicate (suc n) a = ap suc (length-replicate n a)

-- A new set stands for the empty queue.
pub new_seen-Refines : (n : ℕ) → 0 < n → Refines (new_seen n) []
unfolding new_seen chronological has mem
new_seen-Refines n h = record {
  positive = h;
  ring_size = length-replicate n [];
  cursor_in_ring = h;
  blank = n;
  in_order = refl;
  full = omega arith;
  distinct = tt;
  queue_distinct = tt;
  members_in = λ j. refl;
  sizes = refl;
  no_blank = refl;
}

-- The answers of a run of `testAndAdd`, first to last, and those of the queue.
unfoldable pub observe_all : ℕ → List Text → List Text → List Bool
observe_all n [] q = []
observe_all n (fp ∷ fps) q = (observe n fp q).1 ∷ observe_all n fps (observe n fp q).0

unfoldable pub test_all : List Text → SeenPacketSet → List Bool
test_all [] s = []
test_all (fp ∷ fps) s = (test_and_add fp s).1 ∷ test_all fps (test_and_add fp s).0

pub same_capacity : (fp : Text) (s : SeenPacketSet) → (test_and_add fp s).0.capacity ≡ s.capacity
unfolding test_and_add
same_capacity fp s = ground arith

test_all-Refines :
    (n : ℕ) (fps q : List Text) (s : SeenPacketSet)
    → s.capacity ≡ n
    → All (λ fp. fp ≢ []) fps
    → Refines s q
    → test_all fps s ≡ observe_all n fps q
unfolding test_all observe_all
test_all-Refines n [] q s c h w = refl
test_all-Refines n (fp ∷ fps) q s c h w =
    let (same, after) =
      subst
        (λ k.
          ((test_and_add fp s).1 ≡ (observe k fp q).1)
          × Refines (test_and_add fp s).0 (observe k fp q).0)
        c (test_and_add-Refines s q fp w h.0) in
    ap₂ ◌∷◌ same (
      test_all-Refines n fps (observe n fp q).0 (test_and_add fp s).0 (same_capacity fp s ∙ c) h.1
        after)

-- On any sequence of non-empty fingerprints, a new set of positive capacity `n` answers as the
-- queue of the last `n` new fingerprints does.
pub test_all-observe_all :
    (n : ℕ) (fps : List Text)
    → 0 < n
    → All (λ fp. fp ≢ []) fps
    → test_all fps (new_seen n) ≡ observe_all n fps []
unfolding new_seen
test_all-observe_all n fps h k =
    test_all-Refines n fps [] (new_seen n) refl k (new_seen-Refines n h)
