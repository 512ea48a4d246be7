-- ===== src/Routing/Router/Life/Relaying.antt =====
-- The packets that a router relays over its life.
use meshwhisper.Common.{
  ℕ, suc, ◌+◌, ◌<◌, ◌≡◌, ◌≢◌, refl, ◌∙◌, subst, sym, true, false, List, [], ◌∷◌, length, arith,
  Text, leb, Bool-cases, inl, inr, All,
}
use meshwhisper.Common.TextMap.{TextMap}
use meshwhisper.Packet.{Packet}
use meshwhisper.Routing.{seen_packet_capacity}
use meshwhisper.Routing.Seen.{SeenPacketSet, new_seen, packet_fingerprint}
use meshwhisper.Routing.Seen.Refinement.{Refines, observe, test_and_add-Refines}
use meshwhisper.Routing.Seen.Runs.{new_seen-Refines, same_capacity}
use meshwhisper.Routing.Seen.Memory.{
  Remembers, weaken-Remembers, test_and_add-Remembers, test_and_add_new, test_and_add_old,
}
use meshwhisper.Routing.Router.{
  Router, PendingRequest, new_router, get_cached_route, cache_route, invalidate_route, lookup_peer,
  open_request, discover, find_route, get_next_hop, handle_route_request, handle_route_offer,
  settle, resolve_pending_request, prune_requests, prune_expired_requests, get_pending_requests,
  should_relay,
}
use meshwhisper.Routing.Router.Life.{
  Step, Reachable, start, next, updated, sought, asked, offered, timed_out, pruned, listed, read,
  cached, invalidated, hopped, relayed,
}

-- The packets of a sequence, given to `shouldRelay` one after the other.
unfoldable pub relay_all : List Packet → Router → Router
relay_all [] r = r
relay_all (p ∷ ps) r = relay_all ps (should_relay p r).0

-- The set of seen packets is that of a queue of the last fingerprints.
record IsQueue (s : SeenPacketSet) : Type 0 where
  capacity : s.capacity ≡ seen_packet_capacity
  queue : List Text
  refines : Refines s queue

should_relay-IsQueue :
    (p : Packet) (r : Router)
    → packet_fingerprint p ≢ []
    → IsQueue r.seen
    → IsQueue (should_relay p r).0.seen
unfolding should_relay
should_relay-IsQueue p r some_text v =
    let fp = packet_fingerprint p in
    elim (Bool-cases (leb p.ttl 0)) [
      | inl e ↦ rw e v
      | inr e ↦ rw e (record {
        capacity = same_capacity fp r.seen ∙ v.capacity;
        queue = (observe r.seen.capacity fp v.queue).0;
        refines = (test_and_add-Refines r.seen v.queue fp v.refines some_text).1;
      })
    ]

same_seen_prune :
    (now : ℕ) (ps : TextMap PendingRequest) (r : Router) → (prune_requests now ps r).seen ≡ r.seen
unfolding prune_requests settle
same_seen_prune now [] r = refl
same_seen_prune now ((key, p) ∷ ps) r = same_seen_prune now ps _ ∙ ground arith

same_seen_find : (now : ℕ) (id h : List ℕ) (r : Router) → (find_route now id h r).0.seen ≡ r.seen
unfolding find_route get_cached_route lookup_peer discover open_request cache_route
same_seen_find now id h r = ground arith

same_seen_resolve :
    (now : ℕ) (key : Text) (r : Router) → (resolve_pending_request now key r).seen ≡ r.seen
unfolding resolve_pending_request settle cache_route
same_seen_resolve now key r = ground arith

Step-IsQueue : {r s : Router} → Step r s → IsQueue r.seen → IsQueue s.seen
unfolding cache_route invalidate_route handle_route_request handle_route_offer lookup_peer
    get_cached_route get_next_hop prune_expired_requests get_pending_requests
Step-IsQueue (updated table) v = v
Step-IsQueue {r} (sought now id h new fresh) v = subst IsQueue (sym (same_seen_find now id h r)) v
Step-IsQueue (asked now request) v = v
Step-IsQueue {r} (offered offer) v =
    subst IsQueue (sym {a = (handle_route_offer offer r).seen} (ground arith)) v
Step-IsQueue {r} (timed_out now key) v = subst IsQueue (sym (same_seen_resolve now key r)) v
Step-IsQueue {r} (pruned now) v = subst IsQueue (sym (same_seen_prune now r.pending r)) v
Step-IsQueue {r} (listed now) v = subst IsQueue (sym (same_seen_prune now r.pending r)) v
Step-IsQueue {r} (read now h) v =
    subst IsQueue (sym {a = (get_cached_route now h r).0.seen} (ground arith)) v
Step-IsQueue (cached route) v = v
Step-IsQueue (invalidated h) v = v
Step-IsQueue {r} (hopped now h) v =
    subst IsQueue (sym {a = (get_next_hop now h r).0.seen} (ground arith)) v
Step-IsQueue {r} (relayed p some_text) v = should_relay-IsQueue p r some_text v

new_seen_capacity : (n : ℕ) → (new_seen n).capacity ≡ n
unfolding new_seen
new_seen_capacity n = refl

reachable-IsQueue : {r : Router} → Reachable r → IsQueue r.seen
unfolding new_router
reachable-IsQueue (start own table ttl timeout) = record {
  capacity = new_seen_capacity seen_packet_capacity;
  queue = [];
  refines = new_seen-Refines seen_packet_capacity (omega arith);
}
reachable-IsQueue (next before step) = Step-IsQueue step (reachable-IsQueue before)

should_relay-Remembers :
    (n : ℕ) (p : Packet) (fp : Text) (k : ℕ) (r : Router)
    → packet_fingerprint p ≢ []
    → suc k < n
    → Remembers n fp k r.seen
    → Remembers n fp (suc k) (should_relay p r).0.seen
unfolding should_relay
should_relay-Remembers n p fp k r some_text room v = elim (Bool-cases (leb p.ttl 0)) [
  | inl e ↦ rw e (weaken-Remembers n fp k r.seen v)
  | inr e ↦ rw e (test_and_add-Remembers n (packet_fingerprint p) fp k r.seen some_text room v)
]

relay_all-Remembers :
    (n : ℕ) (ps : List Packet) (fp : Text) (k : ℕ) (r : Router)
    → All (λ p. packet_fingerprint p ≢ []) ps
    → length ps + k < n
    → Remembers n fp k r.seen
    → (j : ℕ) × Remembers n fp j (relay_all ps r).seen
unfolding relay_all
relay_all-Remembers n [] fp k r some_text room v = (k, v)
relay_all-Remembers n (p ∷ ps) fp k r some_text room v =
    relay_all-Remembers n ps fp (suc k) (should_relay p r).0 some_text.1 (omega arith)
      (should_relay-Remembers n p fp k r some_text.0 (omega arith) v)

relayed-Remembers :
    (p : Packet) (r : Router)
    → packet_fingerprint p ≢ []
    → IsQueue r.seen
    → (should_relay p r).1 ≡ true
    → Remembers seen_packet_capacity (packet_fingerprint p) 0 (should_relay p r).0.seen
unfolding should_relay
relayed-Remembers p r some_text v h =
    let fp = packet_fingerprint p in
    elim (Bool-cases (leb p.ttl 0)) [
      | inl e ↦ absurd (ground arith)
      | inr e ↦ rw e (
          test_and_add_new seen_packet_capacity fp r.seen v.queue v.capacity v.refines some_text
            (ground arith))
    ]

refused :
    (n k : ℕ) (p : Packet) (r : Router)
    → packet_fingerprint p ≢ []
    → Remembers n (packet_fingerprint p) k r.seen
    → (should_relay p r).1 ≡ false
unfolding should_relay
refused n k p r some_text v =
    ground (arith, test_and_add_old n (packet_fingerprint p) k r.seen some_text v)

-- Take a router that calls lead to, where each new request has a fresh id, and let no fingerprint of
-- a packet be empty. After a packet is relayed, and after fewer than 10,000 further packets, relayed
-- or refused, a copy of it at any hop count is refused.
pub should_relay_once :
    (r : Router) (p q : Packet) (others : List Packet)
    → Reachable r
    → (should_relay p r).1 ≡ true
    → packet_fingerprint q ≡ packet_fingerprint p
    → packet_fingerprint p ≢ []
    → All (λ o. packet_fingerprint o ≢ []) others
    → length others < 10000
    → (should_relay q (relay_all others (should_relay p r).0)).1 ≡ false
should_relay_once r p q others life h e some_text all few =
    let after = (should_relay p r).0 in
    let (j, v) =
      relay_all-Remembers seen_packet_capacity others (packet_fingerprint p) 0 after all
        (omega arith) (relayed-Remembers p r some_text (reachable-IsQueue life) h) in
    refused seen_packet_capacity j q (relay_all others after) (λ z. some_text (sym e ∙ z))
      (subst (λ fp. Remembers seen_packet_capacity fp j (relay_all others after).seen) (sym e) v)
