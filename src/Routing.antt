-- ===== src/Routing.antt =====
-- src/routing/index.ts: social graph routing. This file holds the data and the packet test; the
-- children hold the proximity table, the set of seen packets, the route cache and the router.
-- Latencies and times are whole milliseconds, and every `Date.now()` is an argument.
pub mod Table
pub mod Seen
pub mod Router
mod Tests
use meshwhisper.Common.{ℕ, List, Text}

pub record PeerProximityEntry : Type 0 where
  pub peer_id : Text
  pub dest_hash : List ℕ
  pub last_seen : ℕ
  pub hop_count : ℕ
  pub latency : ℕ
  pub relay_path : List Text

pub record Route : Type 0 where
  pub dest_hash : List ℕ
  pub next_hop : Text
  pub hop_count : ℕ
  pub estimated_latency : ℕ
  pub discovered_at : ℕ
  pub expires_at : ℕ

pub record RouteRequest : Type 0 where
  pub dest_hash : List ℕ
  pub request_id : List ℕ
  pub ttl : ℕ
  pub timestamp : ℕ

pub record RouteOffer : Type 0 where
  pub request_id : List ℕ
  pub hop_count : ℕ
  pub estimated_latency : ℕ
  pub offered_by : Text

-- `DEFAULT_PEER_TTL_MS`
abbrev pub default_peer_ttl_ms : ℕ
default_peer_ttl_ms = 3600000

abbrev pub gossip_fanout : ℕ
gossip_fanout = 5

abbrev pub seen_packet_capacity : ℕ
seen_packet_capacity = 10000
