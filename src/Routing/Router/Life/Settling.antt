-- ===== src/Routing/Router/Life/Settling.antt =====
-- How the requests for a route are settled over the life of a router: by the timer of `findRoute`,
-- or by `pruneExpiredRequests`.
use meshwhisper.Bytes.{hash_to_hex}
use meshwhisper.Common.{
  ℕ, ◌||◌, true, ◌+◌, ◌≡◌, refl, List, [], ◌∷◌, Option, none, some, Text, text_discrete, ltb, arith,
  inl, inr, Option-cases, Bool-cases,
}
use meshwhisper.Common.Sorting.{sort}
use meshwhisper.Common.TextMap.{TextMap, get, has, set, Distinct}
use meshwhisper.Common.TextMap.Laws.{get-set, get-delete, set-Distinct, delete-Distinct}
use meshwhisper.Packet.{Packet}
use meshwhisper.Routing.{Route, PeerProximityEntry, RouteOffer}
use meshwhisper.Routing.Router.{
  Router, PendingRequest, new_router, get_cached_route, cache_route, invalidate_route, lookup_peer,
  recent_peer, open_request, discover, find_route, get_next_hop, handle_route_request,
  handle_route_offer, settle, resolve_pending_request, prune_requests, prune_expired_requests,
  get_pending_requests, should_relay, better, offer_to_route,
}
use meshwhisper.Routing.Router.Life.{
  Step, Later, Reachable-Later, Reachable, start, next, updated, sought, asked, offered, timed_out,
  pruned, listed, read, cached, invalidated, hopped, relayed,
}
use meshwhisper.Routing.Router.Life.Waiting.{pending_or_settled}

-- No request is settled twice, and a pending one is not settled yet.
record IsOnce (pending : TextMap PendingRequest) (resolved : TextMap (Option Route)) : Type 0 where
  waiting : Distinct pending
  settled : Distinct resolved
  apart : (k : Text) (p : PendingRequest) → get k pending ≡ some p → get k resolved ≡ none

abbrev RouterIsOnce : Router → Type 0
RouterIsOnce r = IsOnce r.pending r.resolved

set-IsOnce :
    (key : Text) (x : PendingRequest) (ps : TextMap PendingRequest)
    (resolved : TextMap (Option Route))
    → get key resolved ≡ none
    → IsOnce ps resolved
    → IsOnce (set key x ps) resolved
set-IsOnce key x ps resolved fresh v = record {
  waiting = set-Distinct key x ps v.waiting;
  settled = v.settled;
  apart = λ k p e. elim (text_discrete key k) [
    | yes same ↦ ground arith
    | no other ↦ v.apart k p (ground (arith, get-set k key x ps))
  ];
}

open_request-IsOnce :
    (now : ℕ) (id h : List ℕ) (r : Router)
    → get (hash_to_hex id) r.resolved ≡ none
    → RouterIsOnce r
    → RouterIsOnce (open_request now id h r).0
unfolding open_request
open_request-IsOnce now id h r fresh v = set-IsOnce (hash_to_hex id) _ r.pending r.resolved fresh v

settle-IsOnce :
    (key : Text) (p : PendingRequest) (result : Option Route) (r : Router)
    → get key r.pending ≡ some p
    → RouterIsOnce r
    → RouterIsOnce (settle key result r)
unfolding settle get
settle-IsOnce key p result r e v = record {
  waiting = delete-Distinct key r.pending v.waiting;
  settled = (v.apart key p e, v.settled);
  apart = λ k q f. ground (arith, get-delete k key r.pending, v.apart k q);
}

resolve-IsOnce :
    (now : ℕ) (key : Text) (p : PendingRequest) (offers : List RouteOffer) (r : Router)
    → get key r.pending ≡ some p
    → sort better p.offers ≡ offers
    → RouterIsOnce r
    → RouterIsOnce (resolve_pending_request now key r)
unfolding resolve_pending_request cache_route
resolve-IsOnce now key p [] r e f v =
    rw (e, f, resolve_pending_request) (settle-IsOnce key p none r e v)
resolve-IsOnce now key p (best ∷ _) r e f v =
    rw (e, f, resolve_pending_request)
      (settle-IsOnce key p (some (offer_to_route now r.route_ttl_ms p.request best)) r e v)

resolve_pending_request-IsOnce :
    (now : ℕ) (key : Text) (r : Router)
    → RouterIsOnce r
    → RouterIsOnce (resolve_pending_request now key r)
resolve_pending_request-IsOnce now key r v = elim (Option-cases (get key r.pending)) [
  | inl e ↦ unfold resolve_pending_request in rw (e, resolve_pending_request) v
  | inr (p, e) ↦ resolve-IsOnce now key p (sort better p.offers) r e refl v
]

-- The requests of the rest of the loop are all pending still.
abbrev AllPending : TextMap PendingRequest → Router → Type 0
AllPending ps r = (k : Text) (p : PendingRequest) → get k ps ≡ some p → get k r.pending ≡ some p

prune_requests-IsOnce :
    (now : ℕ) (ps : TextMap PendingRequest) (r : Router)
    → Distinct ps
    → AllPending ps r
    → RouterIsOnce r
    → RouterIsOnce (prune_requests now ps r)
unfolding prune_requests get settle
prune_requests-IsOnce now [] r d here v = v
prune_requests-IsOnce now ((key, p) ∷ ps) r d here v =
    elim (Bool-cases (ltb (p.created_at + p.timeout_ms) now)) [
      | inl old ↦
          rw (old, prune_requests)
            (prune_requests-IsOnce now ps (settle key none r) d.1
              (λ k q e. ground (arith, get-delete k key r.pending, here k q))
              (settle-IsOnce key p none r (here key p (ground arith)) v))
      | inr young ↦
          rw (young, prune_requests)
            (prune_requests-IsOnce now ps r d.1 (λ k q e. here k q (ground arith)) v)
    ]

handle_route_offer-IsOnce :
    (offer : RouteOffer) (r : Router) → RouterIsOnce r → RouterIsOnce (handle_route_offer offer r)
unfolding handle_route_offer
handle_route_offer-IsOnce offer r v =
    let key = hash_to_hex offer.request_id in
    elim (Option-cases (get key r.pending)) [
      | inl e ↦ rw (e, handle_route_offer) v
      | inr (old, e) ↦
          rw (e, handle_route_offer) (set-IsOnce key _ r.pending r.resolved (v.apart key old e) v)
    ]

-- The other calls leave the requests as they are, except that `findRoute` may open one.
abbrev Same : Router → Router → Type 0
Same r s = (s.pending ≡ r.pending) × (s.resolved ≡ r.resolved)

Same-IsOnce : (r s : Router) → Same r s → RouterIsOnce r → RouterIsOnce s
Same-IsOnce r s (e, f) v = rw (e, f) v

get_cached_route-Same : (now : ℕ) (h : List ℕ) (r : Router) → Same r (get_cached_route now h r).0
unfolding get_cached_route
get_cached_route-Same now h r = (ground arith, ground arith)

discover-IsOnce :
    (now : ℕ) (id h : List ℕ) (r : Router) (o : Option PeerProximityEntry)
    → get (hash_to_hex id) r.resolved ≡ none
    → RouterIsOnce r
    → RouterIsOnce (discover now id h r o).0
unfolding discover cache_route
discover-IsOnce now id h r none fresh v = open_request-IsOnce now id h r fresh v
discover-IsOnce now id h r (some peer) fresh v = v

find_route-IsOnce :
    (now : ℕ) (id h : List ℕ) (r : Router)
    → get (hash_to_hex id) r.resolved ≡ none
    → RouterIsOnce r
    → RouterIsOnce (find_route now id h r).0
unfolding find_route lookup_peer
find_route-IsOnce now id h r fresh v =
    let c = get_cached_route now h r in
    let (e, f) = get_cached_route-Same now h r in
    elim (Option-cases c.1) [
      | inl n ↦
          rw (n, find_route)
            (discover-IsOnce now id h (lookup_peer h c.0).0 (recent_peer now (lookup_peer h c.0).1)
              (rw f fresh) (rw (e, f) v))
      | inr (route, n) ↦ rw (n, find_route) (Same-IsOnce r c.0 (e, f) v)
    ]

get_next_hop-Same : (now : ℕ) (h : List ℕ) (r : Router) → Same r (get_next_hop now h r).0
unfolding get_next_hop lookup_peer
get_next_hop-Same now h r =
    let (e, f) = get_cached_route-Same now h r in (ground arith, ground arith)

should_relay-Same : (p : Packet) (r : Router) → Same r (should_relay p r).0
unfolding should_relay
should_relay-Same p r = (ground arith, ground arith)

Step-IsOnce : {r s : Router} → Step r s → RouterIsOnce r → RouterIsOnce s
unfolding cache_route invalidate_route handle_route_request lookup_peer prune_expired_requests
    get_pending_requests
Step-IsOnce (updated table) v = v
Step-IsOnce {r} (sought now id h new fresh) v = find_route-IsOnce now id h r fresh v
Step-IsOnce (asked now request) v = v
Step-IsOnce {r} (offered offer) v = handle_route_offer-IsOnce offer r v
Step-IsOnce {r} (timed_out now key) v = resolve_pending_request-IsOnce now key r v
Step-IsOnce {r} (pruned now) v = prune_requests-IsOnce now r.pending r v.waiting (λ k p e. e) v
Step-IsOnce {r} (listed now) v = prune_requests-IsOnce now r.pending r v.waiting (λ k p e. e) v
Step-IsOnce {r} (read now h) v =
    Same-IsOnce r (get_cached_route now h r).0 (get_cached_route-Same now h r) v
Step-IsOnce (cached route) v = v
Step-IsOnce (invalidated h) v = v
Step-IsOnce {r} (hopped now h) v =
    Same-IsOnce r (get_next_hop now h r).0 (get_next_hop-Same now h r) v
Step-IsOnce {r} (relayed p fresh) v = Same-IsOnce r (should_relay p r).0 (should_relay-Same p r) v

reachable-IsOnce : {r : Router} → Reachable r → RouterIsOnce r
unfolding new_router get
reachable-IsOnce (start own table ttl timeout) = record {
  waiting = tt;
  settled = tt;
  apart = λ k p e. refl;
}
reachable-IsOnce (next before step) = Step-IsOnce step (reachable-IsOnce before)

-- Take a router that calls lead to, where each new request has a fresh id and each relayed packet a
-- fingerprint that is not empty, and any later calls. Then no request has been settled twice,
-- whether by the end of its window or by the pruning of expired requests; no request that is still
-- pending is settled; and a request that was pending is pending still or settled.
pub reachable_settled_once :
    (r s : Router)
    → Reachable r
    → Later r s
    → Distinct s.resolved
      × ((key : Text) (p : PendingRequest) → get key s.pending ≡ some p → get key s.resolved ≡ none)
      × ((key : Text) (p : PendingRequest)
          → get key r.pending ≡ some p
          → (has key s.pending || has key s.resolved) ≡ true)
reachable_settled_once r s life calls =
    let v = reachable-IsOnce (Reachable-Later life calls) in
    (v.settled, v.apart, λ key p e. pending_or_settled key p r s calls e)
