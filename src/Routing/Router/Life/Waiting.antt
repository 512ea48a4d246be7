-- ===== src/Routing/Router/Life/Waiting.antt =====
-- The requests for a route that are pending or settled, over the life of a router.
use meshwhisper.Bytes.{hash_to_hex}
use meshwhisper.Common.{
  ℕ, ◌+◌, ◌≡◌, refl, Bool, true, ◌||◌, List, [], ◌∷◌, Option, none, some, Text, ltb, arith, inl,
  inr, Option-cases, Bool-cases,
}
use meshwhisper.Common.Sorting.{sort}
use meshwhisper.Common.TextMap.{TextMap, get, has, set}
use meshwhisper.Common.TextMap.Laws.{is_some, get-set, get-delete, has-get}
use meshwhisper.Packet.{Packet}
use meshwhisper.Routing.{Route, PeerProximityEntry, RouteOffer}
use meshwhisper.Routing.Router.{
  Router, PendingRequest, get_cached_route, cache_route, invalidate_route, lookup_peer, recent_peer,
  open_request, discover, find_route, get_next_hop, handle_route_request, handle_route_offer,
  settle, resolve_pending_request, prune_requests, prune_expired_requests, get_pending_requests,
  should_relay, better, offer_to_route,
}
use meshwhisper.Routing.Router.Life.{
  Step, Later, now_itself, after, updated, sought, asked, offered, timed_out, pruned, listed, read,
  cached, invalidated, hopped, relayed,
}

-- The request is pending or settled.
abbrev is_known : Text → Router → Bool
is_known key r = is_some (get key r.pending) || is_some (get key r.resolved)

-- What was known is known after the call.
abbrev Knows : Router → Router → Type 0
Knows r s = (key : Text) → is_known key r ≡ true → is_known key s ≡ true

settle-Knows : (k : Text) (result : Option Route) (r : Router) → Knows r (settle k result r)
unfolding settle get
settle-Knows k result r key h = ground (arith, get-delete key k r.pending)

resolve-Knows :
    (now : ℕ) (k : Text) (r : Router) (p : PendingRequest) (offers : List RouteOffer)
    → get k r.pending ≡ some p
    → sort better p.offers ≡ offers
    → Knows r (resolve_pending_request now k r)
unfolding resolve_pending_request cache_route
resolve-Knows now k r p [] e f key h =
    rw (e, f, resolve_pending_request) (settle-Knows k none r key h)
resolve-Knows now k r p (best ∷ _) e f key h =
    rw (e, f, resolve_pending_request)
      (settle-Knows k (some (offer_to_route now r.route_ttl_ms p.request best)) r key h)

resolve_pending_request-Knows :
    (now : ℕ) (k : Text) (r : Router) → Knows r (resolve_pending_request now k r)
resolve_pending_request-Knows now k r key h = elim (Option-cases (get k r.pending)) [
  | inl e ↦ unfold resolve_pending_request in rw (e, resolve_pending_request) h
  | inr (p, e) ↦ resolve-Knows now k r p (sort better p.offers) e refl key h
]

prune_requests-Knows :
    (now : ℕ) (ps : TextMap PendingRequest) (r : Router) → Knows r (prune_requests now ps r)
unfolding prune_requests
prune_requests-Knows now [] r key h = h
prune_requests-Knows now ((k, p) ∷ ps) r key h =
    elim (Bool-cases (ltb (p.created_at + p.timeout_ms) now)) [
      | inl old ↦
          rw (old, prune_requests)
            (prune_requests-Knows now ps (settle k none r) key (settle-Knows k none r key h))
      | inr young ↦ rw (young, prune_requests) (prune_requests-Knows now ps r key h)
    ]

set-Knows :
    (k : Text) (x : PendingRequest) (r : Router)
    → Knows r (record r { pending = set k x r.pending })
set-Knows k x r key h = ground (arith, get-set key k x r.pending)

handle_route_offer-Knows : (offer : RouteOffer) (r : Router) → Knows r (handle_route_offer offer r)
unfolding handle_route_offer
handle_route_offer-Knows offer r key h =
    elim (Option-cases (get (hash_to_hex offer.request_id) r.pending)) [
      | inl e ↦ rw (e, handle_route_offer) h
      | inr (old, e) ↦
          rw (e, handle_route_offer) (set-Knows (hash_to_hex offer.request_id) _ r key h)
    ]

get_cached_route-Knows : (now : ℕ) (h : List ℕ) (r : Router) → Knows r (get_cached_route now h r).0
unfolding get_cached_route
get_cached_route-Knows now h r key k = ground arith

discover-Knows :
    (now : ℕ) (id h : List ℕ) (r : Router) (o : Option PeerProximityEntry)
    → Knows r (discover now id h r o).0
unfolding discover cache_route open_request
discover-Knows now id h r none key k = set-Knows (hash_to_hex id) _ r key k
discover-Knows now id h r (some peer) key k = k

find_route-Knows : (now : ℕ) (id h : List ℕ) (r : Router) → Knows r (find_route now id h r).0
unfolding find_route lookup_peer
find_route-Knows now id h r key k =
    let c = get_cached_route now h r in
    let kept = get_cached_route-Knows now h r key k in
    elim (Option-cases c.1) [
      | inl n ↦
          rw (n, find_route)
            (discover-Knows now id h (lookup_peer h c.0).0 (recent_peer now (lookup_peer h c.0).1)
              key kept)
      | inr (route, n) ↦ rw (n, find_route) kept
    ]

get_next_hop-Knows : (now : ℕ) (h : List ℕ) (r : Router) → Knows r (get_next_hop now h r).0
unfolding get_next_hop lookup_peer
get_next_hop-Knows now h r key k = ground (arith, get_cached_route-Knows now h r key k)

should_relay-Knows : (p : Packet) (r : Router) → Knows r (should_relay p r).0
unfolding should_relay
should_relay-Knows p r key h = ground arith

Step-Knows : {r s : Router} → Step r s → Knows r s
unfolding cache_route invalidate_route handle_route_request lookup_peer prune_expired_requests
    get_pending_requests
Step-Knows (updated table) key k = k
Step-Knows {r} (sought now id h new fresh) key k = find_route-Knows now id h r key k
Step-Knows (asked now request) key k = k
Step-Knows {r} (offered offer) key k = handle_route_offer-Knows offer r key k
Step-Knows {r} (timed_out now j) key k = resolve_pending_request-Knows now j r key k
Step-Knows {r} (pruned now) key k = prune_requests-Knows now r.pending r key k
Step-Knows {r} (listed now) key k = prune_requests-Knows now r.pending r key k
Step-Knows {r} (read now h) key k = get_cached_route-Knows now h r key k
Step-Knows (cached route) key k = k
Step-Knows (invalidated h) key k = k
Step-Knows {r} (hopped now h) key k = get_next_hop-Knows now h r key k
Step-Knows {r} (relayed p some_text) key k = should_relay-Knows p r key k

Later-Knows : {r s : Router} → Later r s → Knows r s
Later-Knows now_itself key k = k
Later-Knows (after calls step) key k = Step-Knows step key (Later-Knows calls key k)

-- A pending request is, after any calls, pending still or settled.
pub pending_or_settled :
    (key : Text) (p : PendingRequest) (r s : Router)
    → Later r s
    → get key r.pending ≡ some p
    → (has key s.pending || has key s.resolved) ≡ true
pending_or_settled key p r s calls e =
    let known : is_known key r ≡ true = ground arith in
    ground (arith, Later-Knows calls key known, has-get key s.pending, has-get key s.resolved)
