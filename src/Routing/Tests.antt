-- ===== src/Routing/Tests.antt =====
-- Small tables and routers, and the witnesses of the theorems on routing.
use meshwhisper.Bytes.{hash_to_hex, hex_digit}
use meshwhisper.Common.{
  ℕ, ◌||◌, ◌+◌, ◌≤◌, ◌≡◌, ◌≢◌, refl, true, false, List, [], ◌∷◌, ◌++◌, length, none, some, Text,
  text_discrete, arith, ap, min, All,
}
use meshwhisper.Common.TextMap.{get, has, set, size, values, Distinct}
use mathlib.Core.List.{Mem, Perm}
use meshwhisper.Packet.{Packet}
use meshwhisper.Routing.{PeerProximityEntry, Route, RouteRequest, RouteOffer}
use meshwhisper.Routing.Table.{
  Table, Updates, new_table, add_peer, remove_peer, update_peer, find_peer, xor_distance,
  get_closest_peers,
}
use meshwhisper.Routing.Table.Lookup.{
  IsSound, update_peer-IsSound, find_peer_outdated, find_peer_lost,
}
use meshwhisper.Routing.Table.Closest.{get_closest_peers_lem}
use meshwhisper.Routing.Seen.{new_seen, test_and_add, packet_fingerprint}
use meshwhisper.Routing.Seen.Runs.{test_all, observe_all, test_all-observe_all}
use meshwhisper.Routing.Router.{
  PendingRequest, Router, new_router, find_route, get_cached_route, discover, open_request, settle,
  lookup_peer, recent_peer, resolve_pending_request, should_relay, decrement_ttl,
}
use meshwhisper.Routing.Router.Offers.{NoWorse, Settled, resolve_pending_request-best}
use meshwhisper.Routing.Router.Forwarding.{should_relay-decrement_ttl}
use meshwhisper.Routing.Router.Life.{Reachable, start, next, sought, timed_out, now_itself, after}
use meshwhisper.Routing.Router.Life.Settling.{reachable_settled_once}
use meshwhisper.Routing.Router.Life.Relaying.{relay_all, should_relay_once}
use meshwhisper.Common.Sorting.{sort}

abbrev first : PeerProximityEntry
first = record {
  peer_id = 97 ∷ [];
  dest_hash = 1 ∷ 2 ∷ [];
  last_seen = 100;
  hop_count = 1;
  latency = 20;
  relay_path = [];
}

abbrev second : PeerProximityEntry
second = record first { peer_id = 98 ∷ 98 ∷ []; hop_count = 2 }

-- `first` under another hash.
abbrev moved : PeerProximityEntry
moved = record first { dest_hash = 3 ∷ [] }

-- A table with `first`.
abbrev table : Table
table = record {
  entries = (97 ∷ [], first) ∷ [];
  dest_hash_index = (hash_to_hex (1 ∷ 2 ∷ []), 97 ∷ []) ∷ [];
  ttl_ms = 1000;
}

table-IsSound : IsSound table
unfolding get
table-IsSound key peer_id e = ground arith

find_table : (find_peer (1 ∷ 2 ∷ []) table).1 ≡ some first
unfolding find_peer get text_discrete hash_to_hex hex_digit
find_table = refl

abbrev one_two : List ℕ
one_two = 1 ∷ 2 ∷ []

abbrev moving : Updates
moving = record {
  new_peer_id = none;
  new_dest_hash = some (3 ∷ []);
  new_last_seen = none;
  new_hop_count = none;
  new_latency = none;
  new_relay_path = none;
}

update_peer-IsSound_example : IsSound (update_peer (97 ∷ []) moving table)
unfolding get text_discrete
update_peer-IsSound_example =
    update_peer-IsSound (97 ∷ []) moving table table-IsSound (omega arith, (omega arith, tt))
      (omega arith, tt)

find_peer_outdated_example :
    (find_peer one_two (add_peer moved (add_peer first (new_table 1000)))).1 ≡ some moved
unfolding hash_to_hex
find_peer_outdated_example =
    find_peer_outdated first moved (new_table 1000) refl (λ e. absurd (omega (arith, ap length e)))

find_peer_lost_example :
    let u = remove_peer (97 ∷ []) (add_peer second (add_peer first (new_table 1000))) in
    (get (98 ∷ 98 ∷ []) u.entries ≡ some second) × ((find_peer one_two u).1 ≡ none)
find_peer_lost_example =
    find_peer_lost first second (new_table 1000) (λ e. absurd (omega (arith, ap length e))) refl

get_closest_peers_example :
    (length (get_closest_peers one_two 1 table) ≡ min 1 (size table.entries))
    × (rest : List PeerProximityEntry) × Perm
        (get_closest_peers one_two 1 table ++ rest)
        (values table.entries)
    × All
        (λ x. All (λ y. xor_distance x.dest_hash one_two ≤ xor_distance y.dest_hash one_two) rest)
        (get_closest_peers one_two 1 table)
get_closest_peers_example = get_closest_peers_lem one_two 1 table

-- Three fingerprints in a set of two: the first is forgotten, and counts as new again.
abbrev trace : List Text
trace = (65 ∷ []) ∷ (66 ∷ []) ∷ (67 ∷ []) ∷ (65 ∷ []) ∷ []

nonempty : (c : ℕ) → c ∷ [] ≢ []
nonempty c e = absurd (omega (arith, ap length e))

test_all-observe_all_example : test_all trace (new_seen 2) ≡ observe_all 2 trace []
test_all-observe_all_example =
    test_all-observe_all 2 trace (omega arith)
      (nonempty 65, (nonempty 66, (nonempty 67, (nonempty 65, tt))))

abbrev request : RouteRequest
request = record { dest_hash = one_two; request_id = 5 ∷ []; ttl = 6; timestamp = 50 }

abbrev near : RouteOffer
near = record { request_id = 5 ∷ []; hop_count = 1; estimated_latency = 30; offered_by = 110 ∷ [] }

abbrev far : RouteOffer
far = record { request_id = 5 ∷ []; hop_count = 3; estimated_latency = 10; offered_by = 102 ∷ [] }

abbrev waiting_request : PendingRequest
waiting_request = record {
  request = request;
  created_at = 50;
  timeout_ms = 5000;
  offers = far ∷ near ∷ [];
}

abbrev begin : Router
begin = new_router (109 ∷ []) table 1000 5000

-- A router that knows `first`, with one request open.
abbrev router : Router
router = record (new_router (109 ∷ []) table 1000 5000) {
  pending = (hash_to_hex (5 ∷ []), waiting_request) ∷ [];
}

resolve_pending_request-best_example :
    (best : RouteOffer) × Mem best waiting_request.offers
    × All (NoWorse best) waiting_request.offers
    × Settled 60 (hash_to_hex (5 ∷ [])) router waiting_request best
unfolding get text_discrete hash_to_hex hex_digit
resolve_pending_request-best_example =
    resolve_pending_request-best 60 (hash_to_hex (5 ∷ [])) router waiting_request refl
      (λ e. absurd (omega (arith, ap length e)))

-- A new router that opened one request, and whose window closed.
abbrev asking : Router
asking = (find_route 50 (5 ∷ []) (7 ∷ []) begin).0

asking_life : Reachable asking
unfolding new_router get
asking_life = next (start (109 ∷ []) table 1000 5000) (sought 50 (5 ∷ []) (7 ∷ []) refl refl)

asking_settled :
    (resolve_pending_request 6000 (hash_to_hex (5 ∷ [])) asking).resolved
    ≡ (hash_to_hex (5 ∷ []), none) ∷ []
unfolding resolve_pending_request find_route get_cached_route discover open_request settle
    new_router lookup_peer recent_peer find_peer get text_discrete hash_to_hex hex_digit set sort
asking_settled = refl

reachable_settled_once_example :
    let s = resolve_pending_request 6000 (hash_to_hex (5 ∷ [])) asking in
    Distinct s.resolved
    × ((key : Text) (p : PendingRequest) → get key s.pending ≡ some p → get key s.resolved ≡ none)
    × ((key : Text) (p : PendingRequest)
        → get key asking.pending ≡ some p
        → (has key s.pending || has key s.resolved) ≡ true)
reachable_settled_once_example =
    reachable_settled_once asking (resolve_pending_request 6000 (hash_to_hex (5 ∷ [])) asking)
      asking_life (after now_itself (timed_out 6000 (hash_to_hex (5 ∷ []))))

abbrev route : Route
route = record {
  dest_hash = one_two;
  next_hop = 97 ∷ [];
  hop_count = 1;
  estimated_latency = 20;
  discovered_at = 100;
  expires_at = 1100;
}

abbrev answer : RouteOffer
answer = record {
  request_id = 5 ∷ [];
  hop_count = 2;
  estimated_latency = 20;
  offered_by = 109 ∷ [];
}

abbrev packet : Packet
packet = record {
  version = 1;
  flags = 1;
  dest_hash = 1 ∷ [];
  sender_ephemeral_id = 2 ∷ [];
  ttl = 2;
  payload_length = 1;
  encrypted_payload = 3 ∷ [];
}

should_relay-decrement_ttl_example :
    (q : Packet) × (decrement_ttl packet ≡ some q)
    × (q.ttl + 1 ≡ packet.ttl)
    × (q.version ≡ packet.version)
    × (q.flags ≡ packet.flags)
    × (q.dest_hash ≡ packet.dest_hash)
    × (q.sender_ephemeral_id ≡ packet.sender_ephemeral_id)
    × (q.payload_length ≡ packet.payload_length)
    × (q.encrypted_payload ≡ packet.encrypted_payload)
unfolding should_relay test_and_add new_router new_seen has
should_relay-decrement_ttl_example = should_relay-decrement_ttl packet router refl

abbrev other_packet : Packet
other_packet = record packet { dest_hash = 4 ∷ [] }

fingerprint_nonempty : packet_fingerprint packet ≢ []
unfolding packet_fingerprint hash_to_hex
fingerprint_nonempty e = absurd (omega (arith, ap length e))

other_nonempty : packet_fingerprint other_packet ≢ []
unfolding packet_fingerprint hash_to_hex
other_nonempty e = absurd (omega (arith, ap length e))

packet_relayed : (should_relay packet begin).1 ≡ true
unfolding should_relay test_and_add new_router new_seen has
packet_relayed = refl

same_fingerprint : packet_fingerprint (record packet { ttl = 1 }) ≡ packet_fingerprint packet
unfolding packet_fingerprint
same_fingerprint = refl

should_relay_once_example :
    (should_relay
      (record packet { ttl = 1 })
      (relay_all (other_packet ∷ packet ∷ []) (should_relay packet begin).0)).1
    ≡ false
should_relay_once_example =
    should_relay_once begin packet (record packet { ttl = 1 }) (other_packet ∷ packet ∷ [])
      (start (109 ∷ []) table 1000 5000) packet_relayed same_fingerprint fingerprint_nonempty
      (other_nonempty, (fingerprint_nonempty, tt)) (omega arith)
