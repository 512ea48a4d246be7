-- ===== src/Permissions/Records.antt =====
-- Saving the contacts and loading them again.
use meshwhisper.Common.{
  ◌≡◌, ◌≢◌, refl, sym, ap, subst, ◌∙◌, none, some, Text, [], ◌∷◌, ◌++◌, append_assoc, append-nil,
  arith,
}
use meshwhisper.Common.TextMap.{TextMap, get, set, keys, Distinct}
use meshwhisper.Common.TextMap.Laws.{has-get}
use meshwhisper.Permissions.{
  PermissionManager, TextSet, devices_of, add_device, add_devices, ensure_account,
  add_contact_account, load_contact_records, records_of, get_contact_records,
}

-- A new key goes to the end, and the last entry can be written again.
set_new {ℓ} :
    {V : Type ℓ} (k : Text) (v : V) (m : TextMap V)
    → get k m ≡ none
    → set k v m ≡ m ++ ((k, v) ∷ [])
unfolding set get
set_new k v [] h = refl
set_new k v ((j, w) ∷ m) h = ground (arith, set_new k v m)

set_last {ℓ} :
    {V : Type ℓ} (k : Text) (v w : V) (m : TextMap V)
    → get k m ≡ none
    → set k v (m ++ ((k, w) ∷ [])) ≡ m ++ ((k, v) ∷ [])
unfolding set get
set_last k v w [] h = ground arith
set_last k v w ((j, x) ∷ m) h = ground (arith, set_last k v w m)

get_last {ℓ} :
    {V : Type ℓ} (k : Text) (v : V) (m : TextMap V)
    → get k m ≡ none
    → get k (m ++ ((k, v) ∷ [])) ≡ some v
unfolding get
get_last k v [] h = ground arith
get_last k v ((j, x) ∷ m) h = ground (arith, get_last k v m)

get_prefix {ℓ} :
    {V : Type ℓ} (k : Text) (m n : TextMap V) → get k m ≡ none → get k (m ++ n) ≡ get k n
unfolding get
get_prefix k [] n h = refl
get_prefix k ((j, x) ∷ m) n h = ground (arith, get_prefix k m n)

present_inside {ℓ} :
    {V : Type ℓ} (k : Text) (v : V) (xs ys : TextMap V) → get k (xs ++ ((k, v) ∷ ys)) ≢ none
unfolding get
present_inside k v [] ys e = ground arith
present_inside k v ((j, w) ∷ xs) ys e = ground (arith, present_inside k v xs ys)

absent_before {ℓ} :
    {V : Type ℓ} (k : Text) (v : V) (xs ys : TextMap V)
    → Distinct (xs ++ ((k, v) ∷ ys))
    → get k xs ≡ none
unfolding get
absent_before k v [] ys d = refl
absent_before k v ((j, w) ∷ xs) ys d =
    ground (arith, absent_before k v xs ys d.1, present_inside k v xs ys)

add_device_last :
    (account dk : Text) (done : TextSet) (before : TextMap TextSet) (m : PermissionManager)
    → m.contact_devices ≡ before ++ ((account, done) ∷ [])
    → get account before ≡ none
    → get dk done ≡ none
    → (add_device account dk m).contact_devices
      ≡ before ++ ((account, done ++ ((dk, tt) ∷ [])) ∷ [])
unfolding add_device
add_device_last account dk done before m e new fresh =
    ap (λ z. set account (set dk tt (devices_of (get account z))) z) e
    ∙ rw (get_last account done before new, set_new dk tt done fresh)
        (set_last account (done ++ ((dk, tt) ∷ [])) done before new)

fresh_account :
    (account : Text) (m : PermissionManager)
    → get account m.contact_devices ≡ none
    → (ensure_account account m).contact_devices ≡ m.contact_devices ++ ((account, []) ∷ [])
unfolding ensure_account
fresh_account account m new =
    ground (arith, has-get account m.contact_devices, set_new account [] m.contact_devices new)

-- Adding the keys of a set one by one to the last account appends them.
add_devices_last :
    (account : Text) (done rest : TextSet) (before : TextMap TextSet) (m : PermissionManager)
    → m.contact_devices ≡ before ++ ((account, done) ∷ [])
    → get account before ≡ none
    → Distinct (done ++ rest)
    → (add_devices account (keys rest) m).contact_devices ≡ before ++ ((account, done ++ rest) ∷ [])
unfolding add_devices keys
add_devices_last account done [] before m e new d =
    e ∙ ap (λ z. before ++ ((account, z) ∷ [])) (sym (append-nil done))
add_devices_last account done ((dk, u) ∷ rest) before m e new d =
    let same : done ++ ((dk, u) ∷ rest) ≡ (done ++ ((dk, tt) ∷ [])) ++ rest =
      sym (append_assoc done ((dk, tt) ∷ []) rest) in
    add_devices_last account (done ++ ((dk, tt) ∷ [])) rest before (add_device account dk m)
      (add_device_last account dk done before m e new (absent_before dk u done rest d)) new
      (subst Distinct same d)
    ∙ ap (λ z. before ++ ((account, z) ∷ [])) (sym same)

-- The device sets are sets.
abbrev pub SetsDistinct : TextMap TextSet → Type 0
SetsDistinct [] = Unit
SetsDistinct ((account, devices) ∷ rest) = Distinct devices × SetsDistinct rest

load_one :
    (account : Text) (devices : TextSet) (m : PermissionManager)
    → get account m.contact_devices ≡ none
    → Distinct devices
    → (add_contact_account account (keys devices) m).contact_devices
      ≡ m.contact_devices ++ ((account, devices) ∷ [])
unfolding add_contact_account
load_one account devices m new d =
    add_devices_last account [] devices m.contact_devices (ensure_account account m)
      (fresh_account account m new) new d

load_all :
    (before rest : TextMap TextSet) (m : PermissionManager)
    → m.contact_devices ≡ before
    → Distinct (before ++ rest)
    → SetsDistinct rest
    → (load_contact_records (records_of rest) m).contact_devices ≡ before ++ rest
unfolding load_contact_records records_of
load_all before [] m e d s = e ∙ sym (append-nil before)
load_all before ((account, devices) ∷ rest) m e d s =
    let new = absent_before account devices before rest d in
    let same = append_assoc before ((account, devices) ∷ []) rest in
    load_all (before ++ ((account, devices) ∷ [])) rest _
      (load_one account devices m (rw e new) s.0 ∙ ap (λ z. z ++ ((account, devices) ∷ [])) e)
      (subst Distinct (sym same) d) s.1
    ∙ same

-- What `getContactRecords` saves, `loadContactRecords` restores in a manager with no contacts: the
-- same accounts with the same devices, in the same order, where no account and no device of an
-- account occurs twice in the maps.
pub load-get_contact_records :
    (m n : PermissionManager)
    → n.contact_devices ≡ []
    → Distinct m.contact_devices
    → SetsDistinct m.contact_devices
    → (load_contact_records (get_contact_records m) n).contact_devices ≡ m.contact_devices
unfolding get_contact_records
load-get_contact_records m n e d s = load_all [] m.contact_devices n e d s
