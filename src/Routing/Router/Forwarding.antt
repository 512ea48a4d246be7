-- ===== src/Routing/Router/Forwarding.antt =====
-- Where messages are forwarded: cached routes, next hops, and the copy of a packet that is relayed.
use meshwhisper.Bytes.{hash_to_hex}
use meshwhisper.Common.{
  ℕ, ◌+◌, ◌-◌, ◌≤◌, ◌<◌, ◌≡◌, refl, ap, ◌∙◌, true, List, Option, none, some, ltb, if◌then◌else◌,
  arith, Option-cases, inl, inr,
}
use meshwhisper.Common.TextMap.{get, set}
use meshwhisper.Common.TextMap.Laws.{get-set, get-delete}
use meshwhisper.Packet.{Packet}
use meshwhisper.Routing.{PeerProximityEntry, Route, RouteOffer, RouteRequest, default_peer_ttl_ms}
use meshwhisper.Routing.Table.{find_peer}
use meshwhisper.Routing.Router.{
  Router, at_once, get_cached_route, cache_route, find_route, discover, open_request, peer_to_route,
  recent_peer, lookup_peer, get_next_hop, is_recent, handle_route_request, should_relay,
  decrement_ttl,
}

-- A route that the cache returns is stored under the destination, and has not expired.
pub get_cached_route_sound :
    (now : ℕ) (h : List ℕ) (r : Router) (route : Route)
    → (get_cached_route now h r).1 ≡ some route
    → (get (hash_to_hex h) r.routes ≡ some route) × (now ≤ route.expires_at)
unfolding get_cached_route
get_cached_route_sound now h r route e = ground arith

-- A route just cached is returned until it expires, and from then on it is not, for good.
pub get_cached_route-cache_route :
    (now : ℕ) (route : Route) (r : Router)
    → let c = get_cached_route now route.dest_hash (cache_route route r) in
      (c.1 ≡ (if ltb route.expires_at now then none else some route))
      × (get (hash_to_hex route.dest_hash) c.0.routes ≡ c.1)
unfolding get_cached_route cache_route
get_cached_route-cache_route now route r =
    let key = hash_to_hex route.dest_hash in
    (
      ground (arith, get-set key key route r.routes),
      ground (arith, get-set key key route r.routes, get-delete key key (set key route r.routes)),
    )

cached_again :
    (now : ℕ) (h : List ℕ) (r : Router) (route : Route)
    → (get_cached_route now h r).1 ≡ some route
    → get_cached_route now h (get_cached_route now h r).0 ≡ (r, some route)
unfolding get_cached_route
cached_again now h r route e = ground arith

next_of_cached :
    (now : ℕ) (h : List ℕ) (r : Router) (route : Route)
    → (get_cached_route now h r).1 ≡ some route
    → (get_next_hop now h r).1 ≡ some route.next_hop
unfolding get_next_hop
next_of_cached now h r route e = rw (e, get_next_hop)

fresh_cached :
    (now ttl : ℕ) (peer : PeerProximityEntry) (h : List ℕ) (r : Router)
    → (get_cached_route now h (cache_route (peer_to_route now ttl peer h) r)).1
      ≡ some (peer_to_route now ttl peer h)
unfolding peer_to_route
fresh_cached now ttl peer h r =
    (get_cached_route-cache_route now (peer_to_route now ttl peer h) r).0 ∙ ground arith

found_cached :
    (now : ℕ) (id h : List ℕ) (r : Router) (route : Route) (o : Option PeerProximityEntry)
    → (discover now id h r o).1 ≡ at_once route
    → (get_cached_route now h (discover now id h r o).0).1 ≡ some route
unfolding discover open_request
found_cached now id h r route none e = absurd (cc)
found_cached now id h r route (some peer) e =
    fresh_cached now r.route_ttl_ms peer h r ∙ ap some (ground arith)

answer_cached :
    (now : ℕ) (id h : List ℕ) (r : Router) (route : Route)
    → (find_route now id h r).1 ≡ at_once route
    → (get_cached_route now h (find_route now id h r).0).1 ≡ some route
unfolding find_route
answer_cached now id h r route e = elim (Option-cases (get_cached_route now h r).1) [
  | inl f ↦
      rw (f, find_route)
        (found_cached now id h (lookup_peer h (get_cached_route now h r).0).0 route
          (recent_peer now (lookup_peer h (get_cached_route now h r).0).1)
          (rw (f, find_route) at e))
  | inr (x, f) ↦
      let same : x ≡ route = (let k = rw (f, find_route) at e in ground arith) in
      rw (f, find_route) (rw (cached_again now h r x f) (ap some same))
]

-- When `findRoute` answers at once, the answer is in the cache: at that moment `getNextHop` for the
-- same destination names its next hop.
pub get_next_hop-find_route :
    (now : ℕ) (id h : List ℕ) (r : Router) (route : Route)
    → (find_route now id h r).1 ≡ at_once route
    → (get_next_hop now h (find_route now id h r).0).1 ≡ some route.next_hop
get_next_hop-find_route now id h r route e =
    next_of_cached now h (find_route now id h r).0 route (answer_cached now id h r route e)

-- An offer in answer to a route request names this node, and comes from a peer that the table has
-- under the destination asked for and that was seen within the last hour; it counts one hop more
-- than the peer does.
pub handle_route_request_sound :
    (now : ℕ) (q : RouteRequest) (r : Router) (offer : RouteOffer)
    → (handle_route_request now q r).1 ≡ some offer
    → (peer : PeerProximityEntry) × ((find_peer q.dest_hash r.table).1 ≡ some peer)
      × (now < peer.last_seen + default_peer_ttl_ms)
      × (offer.hop_count ≡ peer.hop_count + 1)
      × (offer.estimated_latency ≡ peer.latency)
      × (offer.offered_by ≡ r.local_peer_id)
      × (offer.request_id ≡ q.request_id)
unfolding handle_route_request lookup_peer recent_peer is_recent
handle_route_request_sound now q r offer e = ground arith

-- A packet is relayed only with hops left, so its copy for the next relay can be made; and the
-- copy has one hop less, and every other field as it was.
pub should_relay-decrement_ttl :
    (p : Packet) (r : Router)
    → (should_relay p r).1 ≡ true
    → (q : Packet) × (decrement_ttl p ≡ some q)
      × (q.ttl + 1 ≡ p.ttl)
      × (q.version ≡ p.version)
      × (q.flags ≡ p.flags)
      × (q.dest_hash ≡ p.dest_hash)
      × (q.sender_ephemeral_id ≡ p.sender_ephemeral_id)
      × (q.payload_length ≡ p.payload_length)
      × (q.encrypted_payload ≡ p.encrypted_payload)
unfolding should_relay decrement_ttl
should_relay-decrement_ttl p r h =
    (record p { ttl = p.ttl - 1 }, ground arith, ground arith, refl, refl, refl, refl, refl, refl)
