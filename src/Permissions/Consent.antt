-- ===== src/Permissions/Consent.antt =====
-- Mutual consent and introductions: what a handled request leads to.
use meshwhisper.Common.{
  ◌≡◌, refl, sym, ◌∙◌, Bool, true, false, ◌&&◌, Option, none, some, Text, if◌then◌else◌, arith,
  Bool-cases, inl, inr,
}
use meshwhisper.Common.TextMap.{get, has, set}
use meshwhisper.Common.TextMap.Laws.{is_some, has-get}
use meshwhisper.Permissions.{
  PermissionManager, ContactRequest, IntroductionRequest, ContactContext, add_contact,
  add_contact_account, add_devices, add_device, ensure_account, accepted, rejected, introduced,
}
use meshwhisper.Permissions.Contacts.{has-set}
use meshwhisper.Permissions.Checks.{can_receive_from, can_send_to, model_sends}
use meshwhisper.Permissions.Requests.{
  handle_contact_request, match_outbound, confirm_mutual_contact, handle_introduction_request,
}

-- A contact just added is a contact, and no list of blocked peers or model changes.
add_contact_lem :
    (id : Text) (m : PermissionManager)
    → (has id (add_contact id m).contacts ≡ true)
      × ((add_contact id m).blocked ≡ m.blocked)
      × ((add_contact id m).model ≡ m.model)
      × ((add_contact id m).allowed ≡ m.allowed)
      × ((add_contact id m).mutual_confirmed ≡ m.mutual_confirmed)
unfolding add_contact add_contact_account add_devices add_device ensure_account
add_contact_lem id m = ground (arith, has-set id id tt m.contacts)

confirmed :
    (id : Text) (m : PermissionManager)
    → (has id (confirm_mutual_contact id m).contacts ≡ true)
      × (has id (confirm_mutual_contact id m).mutual_confirmed ≡ true)
      × ((confirm_mutual_contact id m).blocked ≡ m.blocked)
      × ((confirm_mutual_contact id m).model ≡ m.model)
unfolding confirm_mutual_contact
confirmed id m =
    let n = record m { mutual_confirmed = set id tt m.mutual_confirmed } in
    let (contact, blocked, model, _, mutually) = add_contact_lem id n in
    (contact, rw mutually (ground (arith, has-set id id tt m.mutual_confirmed)), blocked, model)

abbrev Answered :
    ContactRequest → PermissionManager → PermissionManager × ContactRequest × Bool → Type 0
Answered q m r =
    (r.2 ≡ true
      → (r.1.status ≡ accepted)
        × (has q.from_peer_id r.0.contacts ≡ true)
        × (has q.from_peer_id r.0.mutual_confirmed ≡ true)
        × (r.0.blocked ≡ m.blocked))
    × (r.2 ≡ false → r.0.contacts ≡ m.contacts)

match_outbound-Answered :
    (q : ContactRequest) (o : Option ContactRequest) (m : PermissionManager)
    → ((match_outbound q o m).2 ≡ is_some o) × Answered q m (match_outbound q o m)
unfolding match_outbound
match_outbound-Answered q none m = (refl, ((λ e. absurd (cc)), (λ e. refl)))
match_outbound-Answered q (some outbound) m =
    let (contact, mutually, blocked, _) = confirmed q.from_peer_id _ in
    (refl, ((λ e. (refl, contact, mutually, blocked)), (λ e. absurd (cc))))

-- An inbound request is accepted exactly when the sender is not blocked and this device has asked
-- the sender before. Then the sender is a contact, confirmed by both sides, and still not blocked;
-- a request that is not accepted changes no contact.
pub handle_contact_request-accepts :
    (q : ContactRequest) (m : PermissionManager)
    → let r = handle_contact_request q m in
      (r.2
        ≡ (if has q.from_peer_id m.blocked then false else has q.from_peer_id m.outbound_requests))
      × (r.2 ≡ true
          → (r.1.status ≡ accepted)
            × (has q.from_peer_id r.0.contacts ≡ true)
            × (has q.from_peer_id r.0.mutual_confirmed ≡ true)
            × (r.0.blocked ≡ m.blocked))
      × (r.2 ≡ false → r.0.contacts ≡ m.contacts)
unfolding handle_contact_request
handle_contact_request-accepts q m = elim (Bool-cases (has q.from_peer_id m.blocked)) [
  | inl blocked ↦ rw blocked (refl, (λ e. absurd (cc)), (λ e. refl))
  | inr free ↦
      let (answer, rest) = match_outbound-Answered q (get q.from_peer_id m.outbound_requests) m in
      rw free (answer ∙ sym (has-get q.from_peer_id m.outbound_requests), rest.0, rest.1)
]

-- When this device has asked a peer and has not blocked it, that peer's own request makes it able
-- to write to this device and to receive from it, in every model.
pub consent_opens :
    (q : ContactRequest) (context : ContactContext) (m : PermissionManager)
    → has q.from_peer_id m.blocked ≡ false
    → has q.from_peer_id m.outbound_requests ≡ true
    → let n = (handle_contact_request q m).0 in
      (can_receive_from q.from_peer_id context n ≡ true) × (can_send_to q.from_peer_id n ≡ true)
unfolding can_receive_from can_send_to model_sends
consent_opens q context m free asked =
    let (answer, accepts, _) = handle_contact_request-accepts q m in
    let (status, contact, mutually, blocked) = accepts (ground arith) in
    (ground arith, ground arith)

-- As the intermediary, this device brokers an introduction exactly when the sender is not blocked
-- and both sides are its contacts.
pub handle_introduction_request-brokers :
    (q : IntroductionRequest) (m : PermissionManager)
    → let r = handle_introduction_request q m in
      (r.2 ≡ (
        if has q.from_peer_id m.blocked
        then false
        else has q.from_peer_id m.contacts && has q.to_peer_id m.contacts))
      × (r.1.status ≡ (if r.2 then introduced else rejected))
      × (r.0.contacts ≡ m.contacts)
unfolding handle_introduction_request
handle_introduction_request-brokers q m = (ground arith, ground arith, ground arith)
