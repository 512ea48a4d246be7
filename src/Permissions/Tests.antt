-- ===== src/Permissions/Tests.antt =====
-- A small address book, and the witnesses of the theorems on permissions.
use meshwhisper.Common.{
  ◌≡◌, refl, true, false, [], ◌∷◌, none, Text, text_discrete, if◌then◌else◌, arith, ap, length,
}
use meshwhisper.Common.TextMap.{get, has}
use meshwhisper.Permissions.{
  PermissionManager, mutual_model, ContactContext, ContactRequest, accepted, pending, new_manager,
  add_device_to_contact, remove_device_from_contact, remove_contact, is_contact, block_peer,
  devices_of, TextSet, load_contact_records, get_contact_records,
}
use meshwhisper.Permissions.Checks.{can_receive_from, can_send_to, block_peer-denies}
use meshwhisper.Permissions.Requests.{handle_contact_request}
use meshwhisper.Permissions.Contacts.{InSync}
use meshwhisper.Permissions.Removal.{remove_contact-InSync, moved_device_lost}
use meshwhisper.Permissions.Consent.{handle_contact_request-accepts}
use meshwhisper.Permissions.Records.{load-get_contact_records}

abbrev a : Text
a = 97 ∷ []

abbrev b : Text
b = 98 ∷ 98 ∷ []

abbrev d : Text
d = 100 ∷ []

abbrev a_devices : TextSet
a_devices = (d, tt) ∷ []

abbrev empty : PermissionManager
empty = new_manager mutual_model none none [] []

-- The account `a` with its device `d`, and the account `b` with no device.
abbrev book : PermissionManager
book = record empty {
  contacts = (d, tt) ∷ [];
  contact_devices = (a, (d, tt) ∷ []) ∷ (b, []) ∷ [];
  device_to_account = (d, a) ∷ [];
  outbound_requests =
      (a, record { id = []; from_peer_id = b; to_peer_id = a; timestamp = 1; status = pending })
      ∷ [];
}

abbrev context : ContactContext
context = record {
  sender_id = a;
  sender_public_key = [];
  timestamp = 3;
  introduction_by = none;
  transaction_event = none;
}

abbrev request : ContactRequest
request = record { id = 1 ∷ []; from_peer_id = a; to_peer_id = b; timestamp = 2; status = pending }

block_peer-denies_example :
    (can_receive_from d context (block_peer d book) ≡ false)
    × (can_send_to d (block_peer d book) ≡ false)
block_peer-denies_example = block_peer-denies d context book

handle_contact_request-accepts_example :
    let r = handle_contact_request request book in
    (r.2 ≡ (if has a book.blocked then false else has a book.outbound_requests))
    × (r.2 ≡ true
        → (r.1.status ≡ accepted)
          × (has a r.0.contacts ≡ true)
          × (has a r.0.mutual_confirmed ≡ true)
          × (r.0.blocked ≡ book.blocked))
    × (r.2 ≡ false → r.0.contacts ≡ book.contacts)
handle_contact_request-accepts_example = handle_contact_request-accepts request book

book-InSync : InSync book
unfolding get has new_manager
book-InSync = record {
  flat = λ dk. ground arith;
  owned = λ dk account e. ground arith;
  listed = λ dk account e. ground arith;
}

remove_contact-InSync_example : InSync (remove_contact a book)
remove_contact-InSync_example = remove_contact-InSync a book book-InSync

moved_device_lost_example :
    let moved = add_device_to_contact b d (add_device_to_contact a d book) in
    let after = remove_device_from_contact a d moved in
    (has d (devices_of (get a moved.contact_devices)) ≡ true)
    × (has d (devices_of (get b after.contact_devices)) ≡ true)
    × (is_contact d after ≡ false)
unfolding has text_discrete
moved_device_lost_example =
    moved_device_lost a b d book (λ e. absurd (omega (arith, ap length e))) refl refl

load-get_contact_records_example :
    (load_contact_records (get_contact_records book) empty).contact_devices ≡ book.contact_devices
unfolding has get new_manager text_discrete
load-get_contact_records_example =
    load-get_contact_records book empty refl (refl, (refl, tt)) ((refl, tt), (tt, tt))
