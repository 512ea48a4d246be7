-- ===== src/Permissions/Contacts.antt =====
-- The three views of the contacts: the flat set, the devices of each account, and the account
-- of each device.
use meshwhisper.Common.{
  ◌≡◌, inl, inr, true, false, ◌||◌, some, Text, text_discrete, text_eq, List, [], ◌∷◌, arith, ite,
  All, All-imp, Bool-cases,
}
use meshwhisper.Common.TextMap.{TextMap, get, has, set, delete}
use meshwhisper.Common.TextMap.Laws.{is_some, has-get, get-set, get-delete}
use meshwhisper.Permissions.{
  PermissionManager, devices_of, add_device, add_devices, ensure_account, add_contact_account,
  add_device_to_contact,
}

-- A device is a contact exactly when it has an account; its account lists it; and no account lists
-- it but its own, so every listed device is a contact.
pub record InSync (m : PermissionManager) : Type 0 where
  pub flat : (dk : Text) → has dk m.contacts ≡ is_some (get dk m.device_to_account)
  pub owned :
      (dk account : Text)
      → get dk m.device_to_account ≡ some account
      → has dk (devices_of (get account m.contact_devices)) ≡ true
  pub listed :
      (dk account : Text)
      → has dk (devices_of (get account m.contact_devices)) ≡ true
      → get dk m.device_to_account ≡ some account

-- The device belongs to no account but this one.
abbrev pub IsFree : Text → PermissionManager → Text → Type 0
IsFree account m dk = (a : Text) → get dk m.device_to_account ≡ some a → a ≡ account

pub has-set {ℓ} :
    {V : Type ℓ} (j k : Text) (v : V) (m : TextMap V) → has j (set k v m) ≡ (text_eq k j || has j m)
has-set j k v m = ground (arith, has-get j m, has-get j (set k v m), get-set j k v m)

pub has-delete {ℓ} :
    {V : Type ℓ} (j k : Text) (m : TextMap V)
    → has j (delete k m) ≡ ite (text_discrete k j) false (has j m)
has-delete j k m = ground (arith, has-get j m, has-get j (delete k m), get-delete j k m)

has-add_device :
    (account dk a j : Text) (m : PermissionManager)
    → has j (devices_of (get a (add_device account dk m).contact_devices))
      ≡ ite
          (text_discrete account a)
          (text_eq dk j || has j (devices_of (get account m.contact_devices)))
          (has j (devices_of (get a m.contact_devices)))
unfolding add_device
has-add_device account dk a j m = ground (
  arith,
  get-set a account (set dk tt (devices_of (get account m.contact_devices))) m.contact_devices,
  has-set j dk tt (devices_of (get account m.contact_devices)),
)

get-add_device :
    (account dk j : Text) (m : PermissionManager)
    → get j (add_device account dk m).device_to_account
      ≡ ite (text_discrete dk j) (some account) (get j m.device_to_account)
unfolding add_device
get-add_device account dk j m = get-set j dk account m.device_to_account

pub add_device-InSync :
    (account dk : Text) (m : PermissionManager)
    → IsFree account m dk
    → InSync m
    → InSync (add_device account dk m)
add_device-InSync account dk m free v = record {
  flat = λ j.
      unfold add_device in
      ground
        (arith, v.flat j, has-set j dk tt m.contacts, get-set j dk account m.device_to_account);
  owned = λ j a e.
      ground (arith, has-add_device account dk a j m, get-add_device account dk j m, v.owned j a);
  listed = λ j a e. ground (
    arith,
    has-add_device account dk a j m,
    get-add_device account dk j m,
    v.listed j a,
    v.listed j account,
    free a,
  );
}

pub ensure_account-InSync :
    (account : Text) (m : PermissionManager) → InSync m → InSync (ensure_account account m)
unfolding ensure_account has
ensure_account-InSync account m v = elim (Bool-cases (has account m.contact_devices)) [
  | inl known ↦ rw (known, ensure_account) v
  | inr new ↦
      rw (new, ensure_account)
        (record {
          flat = v.flat;
          owned = λ j a e. ground (
            arith,
            v.owned j a e,
            get-set a account [] m.contact_devices,
            has-get account m.contact_devices,
          );
          listed = λ j a e. ground (
            arith,
            v.listed j a,
            get-set a account [] m.contact_devices,
            has-get account m.contact_devices,
          );
        })
]

ensure_account-IsFree :
    (account dk a : Text) (m : PermissionManager)
    → IsFree account m dk
    → IsFree account (ensure_account a m) dk
unfolding ensure_account
ensure_account-IsFree account dk a m free = elim (Bool-cases (has a m.contact_devices)) [
  | inl known ↦ rw (known, ensure_account) free
  | inr new ↦ rw (new, ensure_account) free
]

add_device-IsFree :
    (account dk j : Text) (m : PermissionManager)
    → IsFree account m j
    → IsFree account (add_device account dk m) j
add_device-IsFree account dk j m free a e = ground (arith, get-add_device account dk j m, free a)

add_devices-IsFree :
    (account j : Text) (dks : List Text) (m : PermissionManager)
    → IsFree account m j
    → IsFree account (add_devices account dks m) j
unfolding add_devices
add_devices-IsFree account j [] m free = free
add_devices-IsFree account j (dk ∷ dks) m free =
    add_devices-IsFree account j dks (add_device account dk m)
      (add_device-IsFree account dk j m free)

pub add_devices-InSync :
    (account : Text) (dks : List Text) (m : PermissionManager)
    → All (IsFree account m) dks
    → InSync m
    → InSync (add_devices account dks m)
unfolding add_devices
add_devices-InSync account [] m free v = v
add_devices-InSync account (dk ∷ dks) m free v =
    add_devices-InSync account dks (add_device account dk m)
      (All-imp (λ j. add_device-IsFree account dk j m) dks free.1)
      (add_device-InSync account dk m free.0 v)

-- Adding contacts and devices that belong to no other account keeps the views in step.
pub add_contact_account-InSync :
    (account : Text) (dks : List Text) (m : PermissionManager)
    → All (IsFree account m) dks
    → InSync m
    → InSync (add_contact_account account dks m)
unfolding add_contact_account
add_contact_account-InSync account dks m free v =
    add_devices-InSync account dks (ensure_account account m)
      (All-imp (λ dk. ensure_account-IsFree account dk account m) dks free)
      (ensure_account-InSync account m v)

pub add_device_to_contact-InSync :
    (account dk : Text) (m : PermissionManager)
    → IsFree account m account
    → IsFree account m dk
    → InSync m
    → InSync (add_device_to_contact account dk m)
unfolding add_device_to_contact add_contact_account
add_device_to_contact-InSync account dk m own free v =
    elim (Bool-cases (has account m.contact_devices)) [
      | inl known ↦ rw (known, add_device_to_contact) (add_device-InSync account dk m free v)
      | inr new ↦
          rw (new, add_device_to_contact)
            (add_device-InSync account dk (add_contact_account account (account ∷ []) m)
              (add_devices-IsFree account dk (account ∷ []) (ensure_account account m)
                (ensure_account-IsFree account dk account m free))
              (add_contact_account-InSync account (account ∷ []) m (own, tt) v))
    ]
