-- ===== src/Permissions/Requests.antt =====
-- Contact requests of the mutual model and introductions. A request is a shared object in the
-- source: where a handler sets its status after storing it, the stored one and the caller's one
-- both change, so both are results here.
use meshwhisper.Common.{ℕ, Bool, true, false, ◌&&◌, [], Option, none, some, Text, if◌then◌else◌}
use meshwhisper.Common.TextMap.{get, has, set}
use meshwhisper.Permissions.{
  PermissionManager, ContactRequest, IntroductionRequest, pending, introduced, accepted, rejected,
  add_contact,
}

unfoldable pub request_mutual_contact :
    ℕ → Text → Text → PermissionManager → PermissionManager × ContactRequest
request_mutual_contact now fresh_id peer_id m =
    let request : ContactRequest = record {
      id = fresh_id;
      from_peer_id = [];
      to_peer_id = peer_id;
      timestamp = now;
      status = pending;
    } in
    (record m { outbound_requests = set peer_id request m.outbound_requests }, request)

unfoldable pub confirm_mutual_contact : Text → PermissionManager → PermissionManager
confirm_mutual_contact peer_id m =
    add_contact peer_id (record m { mutual_confirmed = set peer_id tt m.mutual_confirmed })

-- The branch of `handleContactRequest` behind the check for blocked peers.
unfoldable pub match_outbound :
    ContactRequest
    → Option ContactRequest
    → PermissionManager
    → PermissionManager × ContactRequest × Bool
match_outbound request none m = (
  record m { inbound_requests = set request.from_peer_id request m.inbound_requests },
  request,
  false,
)
match_outbound request (some outbound) m =
    let done : ContactRequest = record request { status = accepted } in
    (
      confirm_mutual_contact request.from_peer_id (record m {
        inbound_requests = set request.from_peer_id done m.inbound_requests;
        outbound_requests =
            set request.from_peer_id (record outbound { status = accepted }) m.outbound_requests;
      }),
      done,
      true,
    )

unfoldable pub handle_contact_request :
    ContactRequest → PermissionManager → PermissionManager × ContactRequest × Bool
handle_contact_request request m =
    if has request.from_peer_id m.blocked
    then (m, record request { status = rejected }, false)
    else match_outbound request (get request.from_peer_id m.outbound_requests) m

unfoldable pub request_introduction :
    ℕ → Text → Text → Text → PermissionManager → PermissionManager × IntroductionRequest
request_introduction now fresh_id target_peer_id introducer_peer_id m =
    let request : IntroductionRequest = record {
      id = fresh_id;
      from_peer_id = [];
      to_peer_id = target_peer_id;
      introducer_peer_id = introducer_peer_id;
      timestamp = now;
      status = pending;
    } in
    (record m { introduction_requests = set fresh_id request m.introduction_requests }, request)

unfoldable pub handle_introduction_request :
    IntroductionRequest → PermissionManager → PermissionManager × IntroductionRequest × Bool
handle_introduction_request request m =
    let knows = has request.from_peer_id m.contacts && has request.to_peer_id m.contacts in
    let answered : IntroductionRequest = record request {
      status = if knows then introduced else rejected;
    } in
    if has request.from_peer_id m.blocked
    then (m, record request { status = rejected }, false)
    else (
      record m { introduction_requests = set request.id answered m.introduction_requests },
      answered,
      knows,
    )

unfoldable pub confirm_introduction :
    IntroductionRequest → PermissionManager → PermissionManager × IntroductionRequest
confirm_introduction request m =
    let done : IntroductionRequest = record request { status = accepted } in
    (
      add_contact request.from_peer_id (record m {
        introduction_requests = set request.id done m.introduction_requests;
        introduced_peers = set request.from_peer_id tt m.introduced_peers;
      }),
      done,
    )
