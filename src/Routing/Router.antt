-- ===== src/Routing/Router.antt =====
-- `RouteCache` and `SocialGraphRouter`. A promise that the router resolves is an entry of
-- `resolved`, newest first, under the key of its request; the timer of `findRoute` is a later call
-- of `resolve_pending_request`; the random request id is an argument.
pub mod Offers
pub mod Forwarding
pub mod Life
use meshwhisper.Bytes.{hash_to_hex}
use meshwhisper.Common.{
  ℕ, zero, suc, ◌+◌, ◌-◌, Bool, true, false, List, [], ◌∷◌, ◌++◌, Option, none, some, Text, ltb,
  leb, ◌==◌, if◌then◌else◌, map,
}
use meshwhisper.Common.Sorting.{sort}
use meshwhisper.Common.TextMap.{TextMap, get, set, delete, values}
use meshwhisper.Packet.{Packet}
use meshwhisper.Routing.{
  PeerProximityEntry, Route, RouteRequest, RouteOffer, default_peer_ttl_ms, gossip_fanout,
  seen_packet_capacity,
}
use meshwhisper.Routing.Seen.{SeenPacketSet, new_seen, test_and_add, packet_fingerprint}
use meshwhisper.Routing.Table.{Table, find_peer, get_closest_peers}

pub record PendingRequest : Type 0 where
  pub request : RouteRequest
  pub created_at : ℕ
  pub timeout_ms : ℕ
  pub offers : List RouteOffer

pub record Router : Type 0 where
  pub local_peer_id : Text
  pub table : Table
  pub routes : TextMap Route
  pub seen : SeenPacketSet
  pub pending : TextMap PendingRequest
  pub route_ttl_ms : ℕ
  pub request_timeout_ms : ℕ
  pub resolved : List (Text × Option Route)

unfoldable pub new_router : Text → Table → ℕ → ℕ → Router
new_router local_peer_id table route_ttl_ms request_timeout_ms = record {
  local_peer_id = local_peer_id;
  table = table;
  routes = [];
  seen = new_seen seen_packet_capacity;
  pending = [];
  route_ttl_ms = route_ttl_ms;
  request_timeout_ms = request_timeout_ms;
  resolved = [];
}

-- An expired route is deleted when it is read.
unfoldable pub get_cached_route : ℕ → List ℕ → Router → Router × Option Route
get_cached_route now dest_hash r = elim (get (hash_to_hex dest_hash) r.routes) [
  | none ↦ (r, none)
  | some route ↦
      if ltb route.expires_at now
      then (record r { routes = delete (hash_to_hex dest_hash) r.routes }, none)
      else (r, some route)
]

unfoldable pub cache_route : Route → Router → Router
cache_route route r = record r { routes = set (hash_to_hex route.dest_hash) route r.routes }

unfoldable pub invalidate_route : List ℕ → Router → Router
invalidate_route dest_hash r = record r { routes = delete (hash_to_hex dest_hash) r.routes }

-- `(Date.now() - timestamp) < DEFAULT_PEER_TTL_MS`
unfoldable pub is_recent : ℕ → ℕ → Bool
is_recent now timestamp = ltb now (timestamp + default_peer_ttl_ms)

unfoldable pub first_hop : PeerProximityEntry → Text
first_hop peer = elim peer.relay_path [ [] ↦ peer.peer_id | hop ∷ _ ↦ hop ]

unfoldable pub peer_to_route : ℕ → ℕ → PeerProximityEntry → List ℕ → Route
peer_to_route now ttl peer dest_hash = record {
  dest_hash = dest_hash;
  next_hop = first_hop peer;
  hop_count = peer.hop_count;
  estimated_latency = peer.latency;
  discovered_at = now;
  expires_at = now + ttl;
}

-- `findPeer`, with the table put back.
unfoldable pub lookup_peer : List ℕ → Router → Router × Option PeerProximityEntry
lookup_peer dest_hash r = let f = find_peer dest_hash r.table in (record r { table = f.0 }, f.1)

unfoldable pub recent_peer : ℕ → Option PeerProximityEntry → Option PeerProximityEntry
recent_peer now none = none
recent_peer now (some peer) = if is_recent now peer.last_seen then some peer else none

-- The promise of `findRoute`: resolved at once, or left waiting under the key of its request.
pub data Found : Type 0 where
  at_once : Route → Found
  waiting : Text → Found

unfoldable pub open_request : ℕ → List ℕ → List ℕ → Router → Router × Found
open_request now request_id dest_hash r = (
  record r {
    pending =
        set (hash_to_hex request_id)
          (record {
            request = record {
              dest_hash = dest_hash;
              request_id = request_id;
              ttl = 6;
              timestamp = now;
            };
            created_at = now;
            timeout_ms = r.request_timeout_ms;
            offers = [];
          })
          r.pending;
  },
  waiting (hash_to_hex request_id),
)

-- The part of `findRoute` behind the cache.
unfoldable pub discover : ℕ → List ℕ → List ℕ → Router → Option PeerProximityEntry → Router × Found
discover now request_id dest_hash r none = open_request now request_id dest_hash r
discover now request_id dest_hash r (some peer) =
    let route = peer_to_route now r.route_ttl_ms peer dest_hash in
    (cache_route route r, at_once route)

unfoldable pub find_route : ℕ → List ℕ → List ℕ → Router → Router × Found
find_route now request_id dest_hash r =
    let c = get_cached_route now dest_hash r in
    let p = lookup_peer dest_hash c.0 in
    elim c.1 [
      | some route ↦ (c.0, at_once route)
      | none ↦ discover now request_id dest_hash p.0 (recent_peer now p.1)
    ]

unfoldable pub handle_route_request : ℕ → RouteRequest → Router → Router × Option RouteOffer
handle_route_request now request r =
    let p = lookup_peer request.dest_hash r in
    (
      p.0,
      elim (recent_peer now p.1) [
        | none ↦ none
        | some peer ↦ some (record {
          request_id = request.request_id;
          hop_count = peer.hop_count + 1;
          estimated_latency = peer.latency;
          offered_by = r.local_peer_id;
        })
      ],
    )

unfoldable pub handle_route_offer : RouteOffer → Router → Router
handle_route_offer offer r = elim (get (hash_to_hex offer.request_id) r.pending) [
  | none ↦ r
  | some p ↦ record r {
    pending =
        set (hash_to_hex offer.request_id) (record p { offers = p.offers ++ offer ∷ [] }) r.pending;
  }
]

-- Fewer hops first, then the lower latency.
unfoldable pub better : RouteOffer → RouteOffer → Bool
better a b =
    if a.hop_count == b.hop_count
    then ltb a.estimated_latency b.estimated_latency
    else ltb a.hop_count b.hop_count

unfoldable pub offer_to_route : ℕ → ℕ → RouteRequest → RouteOffer → Route
offer_to_route now ttl request best = record {
  dest_hash = request.dest_hash;
  next_hop = best.offered_by;
  hop_count = best.hop_count;
  estimated_latency = best.estimated_latency;
  discovered_at = now;
  expires_at = now + ttl;
}

unfoldable pub settle : Text → Option Route → Router → Router
settle key result r = record r {
  pending = delete key r.pending;
  resolved = (key, result) ∷ r.resolved;
}

unfoldable pub resolve_pending_request : ℕ → Text → Router → Router
resolve_pending_request now key r = elim (get key r.pending) [
  | none ↦ r
  | some p ↦ elim (sort better p.offers) [
    | [] ↦ settle key none r
    | best ∷ _ ↦
        let route = offer_to_route now r.route_ttl_ms p.request best in
        cache_route route (settle key (some route) r)
  ]
]

unfoldable pub prune_requests : ℕ → TextMap PendingRequest → Router → Router
prune_requests now [] r = r
prune_requests now ((key, p) ∷ ps) r =
    prune_requests now ps (if ltb (p.created_at + p.timeout_ms) now then settle key none r else r)

unfoldable pub prune_expired_requests : ℕ → Router → Router
prune_expired_requests now r = prune_requests now r.pending r

unfoldable pub get_pending_requests : ℕ → Router → Router × List RouteRequest
get_pending_requests now r =
    let pruned = prune_expired_requests now r in
    (pruned, map (λ p. p.request) (values pruned.pending))

unfoldable pub get_gossip_targets : List ℕ → Router → List PeerProximityEntry
get_gossip_targets dest_hash r = get_closest_peers dest_hash gossip_fanout r.table

unfoldable pub closest_hop : ℕ → List PeerProximityEntry → Option Text
closest_hop now [] = none
closest_hop now (peer ∷ _) = if is_recent now peer.last_seen then some peer.peer_id else none

unfoldable pub get_next_hop : ℕ → List ℕ → Router → Router × Option Text
get_next_hop now dest_hash r =
    let c = get_cached_route now dest_hash r in
    let p = lookup_peer dest_hash c.0 in
    elim c.1 [
      | some route ↦ (c.0, some route.next_hop)
      | none ↦ elim (recent_peer now p.1) [
        | some peer ↦ (p.0, some (first_hop peer))
        | none ↦ (p.0, closest_hop now (get_closest_peers dest_hash 1 p.0.table))
      ]
    ]

unfoldable pub should_relay : Packet → Router → Router × Bool
should_relay packet r =
    let t = test_and_add (packet_fingerprint packet) r.seen in
    if leb packet.ttl 0 then (r, false) else (record r { seen = t.0 }, if t.1 then false else true)

-- `none` is the exception for a packet whose TTL is 0.
unfoldable pub decrement_ttl : Packet → Option Packet
decrement_ttl packet =
    if leb packet.ttl 0 then none else some (record packet { ttl = packet.ttl - 1 })
