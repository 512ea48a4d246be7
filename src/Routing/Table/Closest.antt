-- ===== src/Routing/Table/Closest.antt =====
-- `getClosestPeers`: the nearest peers by XOR distance.
use meshwhisper.Common.{
  ℕ, ◌≤◌, ◌≡◌, sym, ap, ◌∙◌, subst, true, false, List, ◌++◌, length, take, drop, take-drop, All,
  All-imp, min, arith, length-take-min,
}
use meshwhisper.Common.Sorting.{sort, sort-perm, sort-IsSorted, length-sort, IsSorted-take-drop}
use meshwhisper.Common.TextMap.{values, size}
use meshwhisper.Common.TextMap.Laws.{length-values}
use meshwhisper.Routing.{PeerProximityEntry}
use meshwhisper.Routing.Table.{Table, closer, xor_distance, get_closest_peers}
use mathlib.Core.List.{Perm}

-- `getClosestPeers` splits the table in two: the peers that it returns, as many as asked for if
-- there are so many, and the rest, none of which is nearer than a peer returned.
pub get_closest_peers_lem :
    (h : List ℕ) (n : ℕ) (t : Table)
    → (length (get_closest_peers h n t) ≡ min n (size t.entries))
      × (rest : List PeerProximityEntry) × Perm (get_closest_peers h n t ++ rest) (values t.entries)
      × All
          (λ x. All (λ y. xor_distance x.dest_hash h ≤ xor_distance y.dest_hash h) rest)
          (get_closest_peers h n t)
unfolding get_closest_peers closer
get_closest_peers_lem h n t = (
  length-take-min n sorted
      ∙ ap (min n) (length-sort (closer h) (values t.entries) ∙ length-values t.entries),
  drop n sorted,
  subst (λ xs. Perm xs (values t.entries)) (sym (take-drop n sorted))
      (sort-perm (closer h) (values t.entries)),
  All-imp (λ x. All-imp (nearer x) (drop n sorted)) (take n sorted)
      (IsSorted-take-drop (closer h) n sorted
        (sort-IsSorted (closer h) asym trans (values t.entries))),
)
  where
    sorted : List PeerProximityEntry
    sorted = sort (closer h) (values t.entries)

    nearer :
        (x y : PeerProximityEntry)
        → closer h y x ≡ false
        → xor_distance x.dest_hash h ≤ xor_distance y.dest_hash h
    nearer x y e = ground arith

    asym : (x y : PeerProximityEntry) → closer h x y ≡ true → closer h y x ≡ false
    asym x y e = ground arith

    trans :
        (x y z : PeerProximityEntry)
        → closer h x y ≡ false
        → closer h y z ≡ false
        → closer h x z ≡ false
    trans x y z e f = ground arith
