-- ===== src/Permissions/Checks.antt =====
-- The permission checks `canReceiveFrom` and `canSendTo`, and what holds of them in every model.
use meshwhisper.Common.{
  ◌≡◌, refl, Bool, true, false, ◌||◌, Option, none, some, Text, [], ◌∷◌, if◌then◌else◌, arith,
}
use meshwhisper.Common.TextMap.{has, set}
use meshwhisper.Common.TextMap.Laws.{has-get, get-set}
use meshwhisper.Permissions.{
  PermissionManager, PermissionModel, ContactContext, open_model, mutual_model, introduction_model,
  transactional_model, custom_model, block_peer,
}

-- An absent or empty reference is falsy.
unfoldable pub check_introduction : ContactContext → PermissionManager → Bool
check_introduction context m = elim context.introduction_by [
  | none ↦ false
  | some by ↦ elim by [ [] ↦ false | c ∷ cs ↦ has (c ∷ cs) m.contacts ]
]

unfoldable pub verified : Text → Option (Text → Text → Bool) → Option Text → Bool
verified sender_id none event = false
verified sender_id (some verifier) none = false
verified sender_id (some verifier) (some []) = false
verified sender_id (some verifier) (some (c ∷ cs)) = verifier sender_id (c ∷ cs)

unfoldable pub check_transaction : Text → ContactContext → PermissionManager → Bool
check_transaction sender_id context m =
    verified sender_id m.transaction_verifier context.transaction_event

unfoldable pub check_custom : Text → ContactContext → PermissionManager → Bool
check_custom sender_id context m = elim m.custom_handler [
  | none ↦ false
  | some handler ↦ handler sender_id context
]

-- The `switch` of `canReceiveFrom`.
unfoldable pub model_receives : PermissionModel → Text → ContactContext → PermissionManager → Bool
model_receives open_model sender_id context m = true
model_receives mutual_model sender_id context m = has sender_id m.mutual_confirmed
model_receives introduction_model sender_id context m =
    has sender_id m.introduced_peers || check_introduction context m
model_receives transactional_model sender_id context m = check_transaction sender_id context m
model_receives custom_model sender_id context m = check_custom sender_id context m

unfoldable pub can_receive_from : Text → ContactContext → PermissionManager → Bool
can_receive_from sender_id context m =
    if has sender_id m.blocked
    then false
    else if has sender_id m.allowed
    then true
    else if has sender_id m.contacts
    then true
    else model_receives m.model sender_id context m

-- The `switch` of `canSendTo`.
unfoldable pub model_sends : PermissionModel → Text → PermissionManager → Bool
model_sends open_model recipient_id m = true
model_sends mutual_model recipient_id m =
    has recipient_id m.contacts || has recipient_id m.mutual_confirmed
model_sends introduction_model recipient_id m =
    has recipient_id m.contacts || has recipient_id m.introduced_peers
model_sends transactional_model recipient_id m = has recipient_id m.contacts
model_sends custom_model recipient_id m = true

unfoldable pub can_send_to : Text → PermissionManager → Bool
can_send_to recipient_id m =
    if has recipient_id m.blocked
    then false
    else if has recipient_id m.allowed
    then true
    else model_sends m.model recipient_id m

-- After a peer is blocked nothing passes in either direction, whatever the model, the handlers, the
-- allow list and the contacts say.
pub block_peer-denies :
    (id : Text) (context : ContactContext) (m : PermissionManager)
    → (can_receive_from id context (block_peer id m) ≡ false)
      × (can_send_to id (block_peer id m) ≡ false)
unfolding can_receive_from can_send_to block_peer
block_peer-denies id context m = (
  ground (arith, has-get id (set id tt m.blocked), get-set id id tt m.blocked),
  ground (arith, has-get id (set id tt m.blocked), get-set id id tt m.blocked),
)

-- In the mutual model the check for receiving from a peer and the check for sending to it give the
-- same answer.
pub mutual_symmetric :
    (id : Text) (context : ContactContext) (m : PermissionManager)
    → m.model ≡ mutual_model
    → can_receive_from id context m ≡ can_send_to id m
unfolding can_receive_from can_send_to model_receives model_sends
mutual_symmetric id context m e = ground arith

-- In the introduction model a stranger gets in only with a reference to one of the contacts.
pub introduction_needs_contact :
    (id : Text) (context : ContactContext) (m : PermissionManager)
    → m.model ≡ introduction_model
    → can_receive_from id context m ≡ true
    → has id m.allowed ≡ false
    → has id m.contacts ≡ false
    → has id m.introduced_peers ≡ false
    → (by : Text) × (context.introduction_by ≡ some by) × (has by m.contacts ≡ true)
unfolding can_receive_from model_receives check_introduction
introduction_needs_contact id context m e r a c i = needs (context.introduction_by) refl
  where
    needs :
        (o : Option Text)
        → context.introduction_by ≡ o
        → (by : Text) × (context.introduction_by ≡ some by) × (has by m.contacts ≡ true)
    needs none f = absurd (ground arith)
    needs (some []) f = absurd (ground arith)
    needs (some (x ∷ xs)) f = (x ∷ xs, f, ground arith)
