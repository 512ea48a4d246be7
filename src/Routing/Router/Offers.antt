-- ===== src/Routing/Router/Offers.antt =====
-- Route discovery: the offer that is chosen when the window of a request closes.
use meshwhisper.Bytes.{hash_to_hex}
use meshwhisper.Common.{
  ℕ, ◌≤◌, ◌<◌, ◌≡◌, ◌≢◌, ◌⊎◌, refl, ap, subst, true, false, List, [], ◌∷◌, none, some, Text, All,
  All-imp, length, arith,
}
use meshwhisper.Common.Sorting.{sort, sort-perm, sort-IsSorted, All-sort_inv, length-sort, IsSorted}
use meshwhisper.Common.TextMap.{get}
use meshwhisper.Common.TextMap.Laws.{get-set, get-delete}
use meshwhisper.Routing.{Route, RouteOffer}
use meshwhisper.Routing.Router.{
  Router, PendingRequest, better, offer_to_route, cache_route, settle, resolve_pending_request,
}
use mathlib.Core.List.{Mem, mem-cons_self}
use mathlib.Core.List.Perm

-- `a` is no worse than `b`: fewer hops, or as many and no more latency.
abbrev pub NoWorse : RouteOffer → RouteOffer → Type 0
NoWorse a b =
    (a.hop_count < b.hop_count)
    ⊎ ((a.hop_count ≡ b.hop_count) × (a.estimated_latency ≤ b.estimated_latency))

better_asym : (a b : RouteOffer) → better a b ≡ true → better b a ≡ false
unfolding better
better_asym a b h = ground arith

better_trans : (a b c : RouteOffer) → better a b ≡ false → better b c ≡ false → better a c ≡ false
unfolding better
better_trans a b c h k = ground arith

NoWorse-of_better : (best o : RouteOffer) → better o best ≡ false → NoWorse best o
unfolding better
NoWorse-of_better best o h = ground arith

better_self : (a : RouteOffer) → better a a ≡ false
unfolding better
better_self a = ground arith

-- The head of the sorted offers is one of them, and no worse than any.
best_offer :
    (offers : List RouteOffer) (best : RouteOffer) (rest : List RouteOffer)
    → sort better offers ≡ best ∷ rest
    → Mem best offers × All (NoWorse best) offers
best_offer offers best rest e =
    let sorted = subst (IsSorted better) e (sort-IsSorted better better_asym better_trans offers) in
    (
      (Perm.mem_iff (sort-perm better offers)).0 (rw e mem-cons_self),
      All-sort_inv better (NoWorse best) offers (
          rw e (
            NoWorse-of_better best best (better_self best),
            All-imp (NoWorse-of_better best) rest sorted.0,
          )),
    )

resolve_lem :
    (now : ℕ) (key : Text) (r : Router) (p : PendingRequest) (best : RouteOffer)
    (rest : List RouteOffer)
    → get key r.pending ≡ some p
    → sort better p.offers ≡ best ∷ rest
    → resolve_pending_request now key r
      ≡ cache_route
          (offer_to_route now r.route_ttl_ms p.request best)
          (settle key (some (offer_to_route now r.route_ttl_ms p.request best)) r)
unfolding resolve_pending_request
resolve_lem now key r p best rest e f = rw (e, f, resolve_pending_request)

cached :
    (now : ℕ) (key : Text) (r : Router) (p : PendingRequest) (route : Route)
    → let s = cache_route route (settle key (some route) r) in
      (s.resolved ≡ (key, some route) ∷ r.resolved)
      × (get (hash_to_hex route.dest_hash) s.routes ≡ some route)
      × (get key s.pending ≡ none)
unfolding cache_route settle
cached now key r p route = (
  refl,
  ground
      (arith, get-set (hash_to_hex route.dest_hash) (hash_to_hex route.dest_hash) route r.routes),
  ground (arith, get-delete key key r.pending),
)

no_offers : (offers : List RouteOffer) → sort better offers ≡ [] → offers ≡ []
no_offers [] e = refl
no_offers (o ∷ os) e = absurd (omega (arith, length-sort better (o ∷ os), ap length e))

abbrev pub Settled : ℕ → Text → Router → PendingRequest → RouteOffer → Type 0
Settled now key r p best =
    let route = offer_to_route now r.route_ttl_ms p.request best in
    let s = resolve_pending_request now key r in
    (s.resolved ≡ (key, some route) ∷ r.resolved)
    × (get (hash_to_hex p.request.dest_hash) s.routes ≡ some route)
    × (get key s.pending ≡ none)

choose :
    (now : ℕ) (key : Text) (r : Router) (p : PendingRequest) (xs : List RouteOffer)
    → sort better p.offers ≡ xs
    → get key r.pending ≡ some p
    → p.offers ≢ []
    → (best : RouteOffer) × Mem best p.offers
      × All (NoWorse best) p.offers
      × Settled now key r p best
unfolding offer_to_route
choose now key r p [] f e h = absurd (h (no_offers p.offers f))
choose now key r p (best ∷ rest) f e h =
    let (held, least) = best_offer p.offers best rest f in
    (
      best,
      held,
      least,
      rw (resolve_lem now key r p best rest e f)
          (cached now key r p (offer_to_route now r.route_ttl_ms p.request best)),
    )

-- When the window of a request closes with offers, it is settled with a route made from the best
-- of them: one offer is chosen, no other has fewer hops, or as many and a lower latency. The route
-- is cached under the destination asked for, and the request is no longer pending.
pub resolve_pending_request-best :
    (now : ℕ) (key : Text) (r : Router) (p : PendingRequest)
    → get key r.pending ≡ some p
    → p.offers ≢ []
    → (best : RouteOffer) × Mem best p.offers
      × All (NoWorse best) p.offers
      × Settled now key r p best
resolve_pending_request-best now key r p e some_offer =
    choose now key r p (sort better p.offers) refl e some_offer

-- A request whose window closes with no offer is settled with no route, and nothing is cached.
pub resolve_pending_request-none :
    (now : ℕ) (key : Text) (r : Router) (p : PendingRequest)
    → get key r.pending ≡ some p
    → p.offers ≡ []
    → resolve_pending_request now key r ≡ settle key none r
unfolding resolve_pending_request sort
resolve_pending_request-none now key r p e f = rw (e, f, resolve_pending_request)
