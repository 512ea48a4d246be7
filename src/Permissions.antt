-- ===== src/Permissions.antt =====
-- src/permissions/index.ts: `PermissionManager`, who may contact this device. This file holds its
-- state and the management of contacts; the children hold the permission checks, the requests,
-- and the proofs. A handler's promise is the answer that it resolves to.
pub mod Checks
pub mod Requests
pub mod Contacts
pub mod Devices
pub mod Removal
pub mod Consent
pub mod Records
mod Tests
use meshwhisper.Common.{
  ℕ, Bool, true, false, List, [], ◌∷◌, Option, none, some, Text, ◌==◌, if◌then◌else◌,
}
use meshwhisper.Common.TextMap.{TextMap, get, has, set, delete, keys, size}

pub data PermissionModel : Type 0 where
  open_model mutual_model introduction_model transactional_model custom_model : PermissionModel

pub record ContactContext : Type 0 where
  pub sender_id : Text
  pub sender_public_key : List ℕ
  pub timestamp : ℕ
  pub introduction_by : Option Text
  pub transaction_event : Option Text

-- The status of a request.
pub data Status : Type 0 where
  pending introduced accepted rejected : Status

pub record ContactRequest : Type 0 where
  pub id : Text
  pub from_peer_id : Text
  pub to_peer_id : Text
  pub timestamp : ℕ
  pub status : Status

pub record IntroductionRequest : Type 0 where
  pub id : Text
  pub from_peer_id : Text
  pub to_peer_id : Text
  pub introducer_peer_id : Text
  pub timestamp : ℕ
  pub status : Status

-- `Set<string>`
abbrev pub TextSet : Type 0
TextSet = TextMap (Unit {0})

pub record PermissionManager : Type 0 where
  pub model : PermissionModel
  pub custom_handler : Option (Text → ContactContext → Bool)
  pub transaction_verifier : Option (Text → Text → Bool)
  pub contacts : TextSet
  pub contact_devices : TextMap TextSet
  pub device_to_account : TextMap Text
  pub blocked : TextSet
  pub allowed : TextSet
  pub inbound_requests : TextMap ContactRequest
  pub outbound_requests : TextMap ContactRequest
  pub introduction_requests : TextMap IntroductionRequest
  pub mutual_confirmed : TextSet
  pub introduced_peers : TextSet

unfoldable pub add_all : List Text → TextSet → TextSet
add_all [] s = s
add_all (id ∷ ids) s = add_all ids (set id tt s)

-- The constructor; the lists of the options are empty where they are not given.
unfoldable pub new_manager :
    PermissionModel
    → Option (Text → ContactContext → Bool)
    → Option (Text → Text → Bool)
    → List Text
    → List Text
    → PermissionManager
new_manager model custom_handler transaction_verifier allow_list block_list = record {
  model = model;
  custom_handler = custom_handler;
  transaction_verifier = transaction_verifier;
  contacts = [];
  contact_devices = [];
  device_to_account = [];
  blocked = add_all block_list [];
  allowed = add_all allow_list [];
  inbound_requests = [];
  outbound_requests = [];
  introduction_requests = [];
  mutual_confirmed = [];
  introduced_peers = [];
}

unfoldable pub set_model : PermissionModel → PermissionManager → PermissionManager
set_model model m = record m { model = model }

-- The devices of an account; none where it is unknown.
abbrev pub devices_of : Option TextSet → TextSet
devices_of none = []
devices_of (some devices) = devices

-- The lines that each add one device: to the set of the account, the reverse map and the flat view.
unfoldable pub add_device : Text → Text → PermissionManager → PermissionManager
add_device account_key dk m = record m {
  contact_devices =
      set account_key (set dk tt (devices_of (get account_key m.contact_devices)))
        m.contact_devices;
  device_to_account = set dk account_key m.device_to_account;
  contacts = set dk tt m.contacts;
}

unfoldable pub add_devices : Text → List Text → PermissionManager → PermissionManager
add_devices account_key [] m = m
add_devices account_key (dk ∷ dks) m = add_devices account_key dks (add_device account_key dk m)

-- `if (!devices) { devices = new Set(); contactDevices.set(accountKey, devices); }`
unfoldable pub ensure_account : Text → PermissionManager → PermissionManager
ensure_account account_key m =
    if has account_key m.contact_devices
    then m
    else record m { contact_devices = set account_key [] m.contact_devices }

unfoldable pub add_contact_account : Text → List Text → PermissionManager → PermissionManager
add_contact_account account_key device_keys m =
    add_devices account_key device_keys (ensure_account account_key m)

unfoldable pub add_contact : Text → PermissionManager → PermissionManager
add_contact peer_id m = add_contact_account peer_id (peer_id ∷ []) m

unfoldable pub add_device_to_contact : Text → Text → PermissionManager → PermissionManager
add_device_to_contact account_key device_key m = add_device account_key device_key (
    if has account_key m.contact_devices
    then m
    else add_contact_account account_key (account_key ∷ []) m)

unfoldable pub remove_device_from_contact : Text → Text → PermissionManager → PermissionManager
remove_device_from_contact account_key device_key m = elim (get account_key m.contact_devices) [
  | none ↦ m
  | some devices ↦
      let left = delete device_key devices in
      let shared = record m {
        contact_devices = set account_key left m.contact_devices;
        device_to_account = delete device_key m.device_to_account;
        contacts = delete device_key m.contacts;
      } in
      if size left == 0
      then record shared {
        contact_devices = delete account_key shared.contact_devices;
        mutual_confirmed = delete account_key shared.mutual_confirmed;
      }
      else shared
]

-- `for (const deviceKey of directAccount) { deviceToAccount.delete(…); contacts.delete(…); }`
unfoldable pub forget_devices : List Text → PermissionManager → PermissionManager
forget_devices [] m = m
forget_devices (dk ∷ dks) m = forget_devices dks (record m {
  device_to_account = delete dk m.device_to_account;
  contacts = delete dk m.contacts;
})

-- `if (accountKey)`: an empty account key counts as absent.
unfoldable pub remove_as_device : Text → Option Text → PermissionManager → PermissionManager
remove_as_device peer_id none m = m
remove_as_device peer_id (some []) m = m
remove_as_device peer_id (some (c ∷ cs)) m = remove_device_from_contact (c ∷ cs) peer_id m

unfoldable pub remove_contact : Text → PermissionManager → PermissionManager
remove_contact peer_id m = elim (get peer_id m.contact_devices) [
  | some devices ↦
      let rest = forget_devices (keys devices) m in
      record rest {
        contact_devices = delete peer_id rest.contact_devices;
        mutual_confirmed = delete peer_id rest.mutual_confirmed;
      }
  | none ↦ remove_as_device peer_id (get peer_id m.device_to_account) m
]

unfoldable pub is_contact : Text → PermissionManager → Bool
is_contact peer_id m = has peer_id m.contacts

unfoldable pub get_contacts : PermissionManager → List Text
get_contacts m = keys m.contacts

unfoldable pub load_contacts : List Text → PermissionManager → PermissionManager
load_contacts [] m = m
load_contacts (id ∷ ids) m = load_contacts ids (add_contact id m)

-- `ContactRecord`
pub record ContactRecord : Type 0 where
  pub account_key : Text
  pub device_keys : List Text

unfoldable pub load_contact_records : List ContactRecord → PermissionManager → PermissionManager
load_contact_records [] m = m
load_contact_records (r ∷ rs) m =
    load_contact_records rs (add_contact_account r.account_key r.device_keys m)

unfoldable pub records_of : TextMap TextSet → List ContactRecord
records_of [] = []
records_of ((account_key, devices) ∷ rest) =
    record { account_key = account_key; device_keys = keys devices } ∷ records_of rest

unfoldable pub get_contact_records : PermissionManager → List ContactRecord
get_contact_records m = records_of m.contact_devices

unfoldable pub get_account_for_device : Text → PermissionManager → Option Text
get_account_for_device device_key m = get device_key m.device_to_account

unfoldable pub get_devices_for_account : Text → PermissionManager → List Text
get_devices_for_account account_key m = keys (devices_of (get account_key m.contact_devices))

unfoldable pub block_peer : Text → PermissionManager → PermissionManager
block_peer peer_id m = record m { blocked = set peer_id tt m.blocked }

unfoldable pub unblock_peer : Text → PermissionManager → PermissionManager
unblock_peer peer_id m = record m { blocked = delete peer_id m.blocked }
