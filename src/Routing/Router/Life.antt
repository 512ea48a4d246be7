-- ===== src/Routing/Router/Life.antt =====
-- The life of a router: its calls, in any order, as a relation.
pub mod Waiting
pub mod Settling
pub mod Relaying
use meshwhisper.Bytes.{hash_to_hex}
use meshwhisper.Common.{ℕ, ◌≡◌, ◌≢◌, List, [], none, Text}
use meshwhisper.Common.TextMap.{get}
use meshwhisper.Packet.{Packet}
use meshwhisper.Routing.{Route, RouteOffer, RouteRequest}
use meshwhisper.Routing.Seen.{packet_fingerprint}
use meshwhisper.Routing.Table.{Table}
use meshwhisper.Routing.Router.{
  Router, new_router, get_cached_route, cache_route, invalidate_route, find_route, get_next_hop,
  handle_route_request, handle_route_offer, resolve_pending_request, prune_expired_requests,
  get_pending_requests, should_relay,
}

-- One call, at any time. The id of a new request is one that no earlier request has, as random ids
-- are; the table is shared with its owner, who may change it. A packet's fingerprint is not empty,
-- since a packet has a destination.
pub data Step (r : Router) : Router → Type 0 where
  updated : (table : Table) → Step r (record r { table = table })
  sought :
      (now : ℕ) (request_id dest_hash : List ℕ)
      → get (hash_to_hex request_id) r.pending ≡ none
      → get (hash_to_hex request_id) r.resolved ≡ none
      → Step r (find_route now request_id dest_hash r).0
  asked : (now : ℕ) (request : RouteRequest) → Step r (handle_route_request now request r).0
  offered : (offer : RouteOffer) → Step r (handle_route_offer offer r)
  timed_out : (now : ℕ) (key : Text) → Step r (resolve_pending_request now key r)
  pruned : (now : ℕ) → Step r (prune_expired_requests now r)
  listed : (now : ℕ) → Step r (get_pending_requests now r).0
  read : (now : ℕ) (dest_hash : List ℕ) → Step r (get_cached_route now dest_hash r).0
  cached : (route : Route) → Step r (cache_route route r)
  invalidated : (dest_hash : List ℕ) → Step r (invalidate_route dest_hash r)
  hopped : (now : ℕ) (dest_hash : List ℕ) → Step r (get_next_hop now dest_hash r).0
  relayed : (packet : Packet) → packet_fingerprint packet ≢ [] → Step r (should_relay packet r).0

pub data Reachable : Router → Type 0 where
  start :
      (local_peer_id : Text) (table : Table) (route_ttl_ms request_timeout_ms : ℕ)
      → Reachable (new_router local_peer_id table route_ttl_ms request_timeout_ms)
  next : {r r' : Router} → Reachable r → Step r r' → Reachable r'

-- Any number of calls.
pub data Later (r : Router) : Router → Type 0 where
  now_itself : Later r r
  after : {s t : Router} → Later r s → Step s t → Later r t

pub Reachable-Later : {r s : Router} → Reachable r → Later r s → Reachable s
Reachable-Later life now_itself = life
Reachable-Later life (after calls step) = next (Reachable-Later life calls) step
