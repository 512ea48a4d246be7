-- ===== src/Permissions/Removal.antt =====
-- `removeContact`, and what goes wrong when a device changes its account.
use meshwhisper.Common.{
  ◌≡◌, ◌≢◌, refl, true, false, Option, none, some, Text, text_discrete, mem, List, [], ◌∷◌,
  if◌then◌else◌, arith, ite, Option-cases, inl, inr,
}
use meshwhisper.Common.TextMap.{get, has, set, delete, keys}
use meshwhisper.Common.TextMap.Laws.{get-set, get-delete, mem-keys}
use meshwhisper.Permissions.{
  PermissionManager, TextSet, devices_of, add_device, add_device_to_contact,
  remove_device_from_contact, forget_devices, remove_as_device, remove_contact, is_contact,
}
use meshwhisper.Permissions.Contacts.{InSync, has-delete, has-set}
use meshwhisper.Permissions.Devices.{
  removed_contacts, removed_devices, remove_device_from_contact-InSync,
}

has-forget_devices :
    (j : Text) (dks : List Text) (m : PermissionManager)
    → has j (forget_devices dks m).contacts ≡ (if mem j dks then false else has j m.contacts)
unfolding forget_devices mem
has-forget_devices j [] m = refl
has-forget_devices j (dk ∷ dks) m = ground (
  arith,
  has-forget_devices j dks (record m {
    device_to_account = delete dk m.device_to_account;
    contacts = delete dk m.contacts;
  }),
  has-delete j dk m.contacts,
)

get-forget_devices :
    (j : Text) (dks : List Text) (m : PermissionManager)
    → get j (forget_devices dks m).device_to_account
      ≡ (if mem j dks then none else get j m.device_to_account)
unfolding forget_devices mem
get-forget_devices j [] m = refl
get-forget_devices j (dk ∷ dks) m = ground (
  arith,
  get-forget_devices j dks (record m {
    device_to_account = delete dk m.device_to_account;
    contacts = delete dk m.contacts;
  }),
  get-delete j dk m.device_to_account,
)

same_devices :
    (dks : List Text) (m : PermissionManager)
    → (forget_devices dks m).contact_devices ≡ m.contact_devices
unfolding forget_devices
same_devices [] m = refl
same_devices (dk ∷ dks) m = same_devices dks (record m {
  device_to_account = delete dk m.device_to_account;
  contacts = delete dk m.contacts;
})

has_nothing : (j : Text) → has {V = Unit {0}} j [] ≡ false
unfolding has
has_nothing j = refl

-- The state that `removeContact` of an account leaves, part by part.
module _ (id : Text) (m : PermissionManager) (devices : TextSet)
    (e : get id m.contact_devices ≡ some devices) where
  left_contacts :
      (j : Text)
      → has j (remove_contact id m).contacts ≡ (if has j devices then false else has j m.contacts)
  unfolding remove_contact
  left_contacts j = ground (arith, has-forget_devices j (keys devices) m, mem-keys j devices)

  left_accounts :
      (j : Text)
      → get j (remove_contact id m).device_to_account
        ≡ (if has j devices then none else get j m.device_to_account)
  unfolding remove_contact
  left_accounts j = ground (arith, get-forget_devices j (keys devices) m, mem-keys j devices)

  left_devices :
      (a : Text)
      → get a (remove_contact id m).contact_devices
        ≡ ite (text_discrete id a) none (get a m.contact_devices)
  unfolding remove_contact
  left_devices a = ground (arith, same_devices (keys devices) m, get-delete a id m.contact_devices)

  removed_account-InSync : InSync m → InSync (remove_contact id m)
  removed_account-InSync v = record {
    flat = λ j. ground (arith, left_contacts j, left_accounts j, v.flat j);
    owned = λ j a f. rw (left_devices a) (ground (arith, left_accounts j, v.owned j a));
    listed = λ j a f.
        let f' = rw (left_devices a) at f in
        ground (arith, left_accounts j, v.listed j a, v.listed j id, has_nothing j);
  }

remove_as_device-InSync :
    (id : Text) (o : Option Text) (m : PermissionManager)
    → get id m.device_to_account ≡ o
    → InSync m
    → InSync (remove_as_device id o m)
unfolding remove_as_device
remove_as_device-InSync id none m e v = v
remove_as_device-InSync id (some []) m e v = v
remove_as_device-InSync id (some (c ∷ cs)) m e v =
    remove_device_from_contact-InSync (c ∷ cs) id m (λ a f. ground arith) v

-- Removing a contact, by its account or by one of its devices, keeps the flat set, the devices of
-- the accounts and the reverse map in step: a device is a contact exactly when it has an account,
-- and its account is the one account that lists it.
pub remove_contact-InSync :
    (id : Text) (m : PermissionManager) → InSync m → InSync (remove_contact id m)
unfolding remove_contact
remove_contact-InSync id m v = elim (Option-cases (get id m.contact_devices)) [
  | inl e ↦
      rw (e, remove_contact) (remove_as_device-InSync id (get id m.device_to_account) m refl v)
  | inr (devices, e) ↦ removed_account-InSync id m devices e v
]

-- Removing an account takes away the account and all its devices: none of them is a contact any
-- more. Devices of other accounts stay as they were.
pub remove_contact_account :
    (id : Text) (m : PermissionManager) (devices : TextSet)
    → get id m.contact_devices ≡ some devices
    → (get id (remove_contact id m).contact_devices ≡ none)
      × ((j : Text) → has j devices ≡ true → is_contact j (remove_contact id m) ≡ false)
      × ((j : Text) → has j devices ≡ false → is_contact j (remove_contact id m) ≡ is_contact j m)
unfolding is_contact
remove_contact_account id m devices e = (
  ground (arith, left_devices id m devices e id),
  λ j h. ground (arith, left_contacts id m devices e j),
  λ j h. ground (arith, left_contacts id m devices e j),
)

listed_twice :
    (a b dk : Text) (m : PermissionManager)
    → a ≢ b
    → let moved = add_device b dk (add_device a dk m) in
      (get a moved.contact_devices ≡ some (set dk tt (devices_of (get a m.contact_devices))))
      × (has dk (devices_of (get b moved.contact_devices)) ≡ true)
unfolding add_device
listed_twice a b dk m differ =
    let one = set a (set dk tt (devices_of (get a m.contact_devices))) m.contact_devices in
    (
      ground (
        arith,
        get-set a b (set dk tt (devices_of (get b one))) one,
        get-set a a (set dk tt (devices_of (get a m.contact_devices))) m.contact_devices,
      ),
      ground (
        arith,
        get-set b b (set dk tt (devices_of (get b one))) one,
        has-set dk dk tt (devices_of (get b one)),
      ),
    )

known_account :
    (a dk : Text) (m : PermissionManager)
    → has a m.contact_devices ≡ true
    → add_device_to_contact a dk m ≡ add_device a dk m
unfolding add_device_to_contact
known_account a dk m h = rw h

still_known :
    (a b dk : Text) (m : PermissionManager)
    → has b m.contact_devices ≡ true
    → has b (add_device a dk m).contact_devices ≡ true
unfolding add_device
still_known a b dk m h =
    ground (arith, has-set b a (set dk tt (devices_of (get a m.contact_devices))) m.contact_devices)

-- A device that moves from one known contact account to another is still listed under the first;
-- when it is then removed from the first, the second account keeps it among its devices, but it is
-- no contact any more.
pub moved_device_lost :
    (a b dk : Text) (m : PermissionManager)
    → a ≢ b
    → has a m.contact_devices ≡ true
    → has b m.contact_devices ≡ true
    → let moved = add_device_to_contact b dk (add_device_to_contact a dk m) in
      let after = remove_device_from_contact a dk moved in
      (has dk (devices_of (get a moved.contact_devices)) ≡ true)
      × (has dk (devices_of (get b after.contact_devices)) ≡ true)
      × (is_contact dk after ≡ false)
unfolding is_contact
moved_device_lost a b dk m differ ha hb =
    let moved = add_device b dk (add_device a dk m) in
    let (first, found) = listed_twice a b dk m differ in
    rw (known_account a dk m ha, known_account b dk (add_device a dk m) (still_known a b dk m hb))
      (
        rw first (ground (arith, has-set dk dk tt (devices_of (get a m.contact_devices)))),
        ground (arith, removed_devices a dk moved _ first dk b),
        ground (arith, removed_contacts a dk moved _ first, has-delete dk dk moved.contacts),
      )
