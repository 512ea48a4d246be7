-- ===== src/Permissions/Devices.antt =====
-- `removeDeviceFromContact` and the views of the contacts.
use meshwhisper.Common.{
  ◌≡◌, inl, inr, refl, false, some, Text, text_discrete, [], ◌∷◌, arith, ite, Option-cases,
}
use meshwhisper.Common.TextMap.{get, has, set, delete, size}
use meshwhisper.Common.TextMap.Laws.{get-set, get-delete}
use meshwhisper.Permissions.{PermissionManager, TextSet, devices_of, remove_device_from_contact}
use meshwhisper.Permissions.Contacts.{InSync, IsFree, has-delete}

has_of_empty : (id : Text) (ids : TextSet) → size ids ≡ 0 → has id ids ≡ false
unfolding has
has_of_empty id [] h = refl
has_of_empty id (x ∷ ids) h = absurd (omega arith)

-- The state that `removeDeviceFromContact` leaves, part by part.
module _ (account dk : Text) (m : PermissionManager) (devices : TextSet)
    (e : get account m.contact_devices ≡ some devices) where
  pub removed_contacts : (remove_device_from_contact account dk m).contacts ≡ delete dk m.contacts
  unfolding remove_device_from_contact
  removed_contacts = ground arith

  removed_accounts :
      (remove_device_from_contact account dk m).device_to_account ≡ delete dk m.device_to_account
  unfolding remove_device_from_contact
  removed_accounts = ground arith

  pub removed_devices :
      (j a : Text)
      → has j (devices_of (get a (remove_device_from_contact account dk m).contact_devices))
        ≡ ite
            (text_discrete account a)
            (has j (delete dk devices))
            (has j (devices_of (get a m.contact_devices)))
  unfolding remove_device_from_contact has
  removed_devices j a = ground (
    arith,
    get-set a account (delete dk devices) m.contact_devices,
    get-delete a account (set account (delete dk devices) m.contact_devices),
    has_of_empty j (delete dk devices),
  )

  removed-InSync : IsFree account m dk → InSync m → InSync (remove_device_from_contact account dk m)
  removed-InSync free v = record {
    flat = λ j.
        rw (removed_contacts, removed_accounts)
          (ground
            (arith, has-delete j dk m.contacts, get-delete j dk m.device_to_account, v.flat j));
    owned = λ j a f. rw (removed_devices j a) (
        ground (
          arith,
          get-delete j dk m.device_to_account,
          removed_accounts,
          has-delete j dk devices,
          v.owned j a,
        ));
    listed = λ j a f.
        let f' = rw (removed_devices j a) at f in
        rw removed_accounts (
          ground (
            arith,
            get-delete j dk m.device_to_account,
            has-delete j dk devices,
            v.listed j a,
            free a,
          ));
  }

-- Removing a device that belongs to no other account keeps the views in step.
pub remove_device_from_contact-InSync :
    (account dk : Text) (m : PermissionManager)
    → IsFree account m dk
    → InSync m
    → InSync (remove_device_from_contact account dk m)
remove_device_from_contact-InSync account dk m free v =
    elim (Option-cases (get account m.contact_devices)) [
      | inl e ↦ unfold remove_device_from_contact in rw (e, remove_device_from_contact) v
      | inr (devices, e) ↦ removed-InSync account dk m devices e free v
    ]
