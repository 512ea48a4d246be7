-- ===== src/Cluster/Election.antt =====
-- The election: the loop of `electPrimary`, and the marks that it writes.
use meshwhisper.Common.{
  ok-injective, ◌≤◌, ◌≡◌, ◌⊎◌, inl, inr, refl, sym, ap, ◌∙◌, subst, true, [], ◌∷◌, none, some, Text,
  text_eq, text_discrete, ltb, ltb→le, ltb→lt, arith, Bool-cases, Option-cases,
}
use meshwhisper.Common.TextMap.{TextMap, get, Distinct}
use meshwhisper.Common.TextMap.Keyed.{IsKeyed}
use meshwhisper.Cluster.{
  ClusterDevice, DeviceCluster, ClusterError, ok, score_device, best_device, mark_primary,
  elect_primary, get_primary,
}
use mathlib.Core.Option.{some-injective}

-- The id that a device stands under.
abbrev pub id_of : ClusterDevice → Text
id_of d = d.device_id

-- The best of a first device and those of a map.
abbrev Best : ClusterDevice → TextMap ClusterDevice → ClusterDevice → Type 0
Best b m e =
    (score_device b ≤ score_device e)
    × ((k : Text) (d : ClusterDevice) → get k m ≡ some d → score_device d ≤ score_device e)
    × ((e ≡ b) ⊎ (get e.device_id m ≡ some e))

module _ (j : Text) (x : ClusterDevice) (m : TextMap ClusterDevice) (e : ClusterDevice) where
  all_scores :
      score_device x ≤ score_device e
      → ((k : Text) (d : ClusterDevice) → get k m ≡ some d → score_device d ≤ score_device e)
      → (k : Text) (d : ClusterDevice) → get k ((j, x) ∷ m) ≡ some d
      → score_device d ≤ score_device e
  unfolding get
  all_scores here all k d h = elim (text_discrete j k) [
    | yes q ↦ subst (λ z. score_device z ≤ score_device e) (some-injective x d (ground arith)) here
    | no q ↦ all k d (ground arith)
  ]

  found_here : x.device_id ≡ j → e ≡ x → get e.device_id ((j, x) ∷ m) ≡ some e
  unfolding get
  found_here v p = ground (arith, ap (λ (z : ClusterDevice). z.device_id) p)

  found_later : get j m ≡ none → get e.device_id m ≡ some e → get e.device_id ((j, x) ∷ m) ≡ some e
  unfolding get
  found_later n h = elim (text_discrete j e.device_id) [
    | yes q ↦ absurd (ground (arith, ap (λ k. get k m) q))
    | no q ↦ ground arith
  ]

-- Where the best of a map comes from.
origin :
    (j : Text) (x b e : ClusterDevice) (m : TextMap ClusterDevice)
    → get j m ≡ none
    → (e ≡ b) ⊎ (get e.device_id m ≡ some e)
    → (e ≡ b) ⊎ (get e.device_id ((j, x) ∷ m) ≡ some e)
origin j x b e m n (inl p) = inl p
origin j x b e m n (inr h) = inr (found_later j x m e n h)

found :
    (j : Text) (x e : ClusterDevice) (m : TextMap ClusterDevice)
    → get j m ≡ none
    → x.device_id ≡ j
    → (e ≡ x) ⊎ (get e.device_id m ≡ some e)
    → get e.device_id ((j, x) ∷ m) ≡ some e
found j x e m n v (inl p) = found_here j x m e v p
found j x e m n v (inr h) = found_later j x m e n h

best_device_lem :
    (m : TextMap ClusterDevice) (b : ClusterDevice)
    → Distinct m
    → IsKeyed id_of m
    → (e : ClusterDevice) × (best_device (some b) m ≡ some e) × Best b m e
unfolding best_device get
best_device_lem [] b u v = (b, refl, (omega arith, (λ k d h. absurd (ground arith)), inl refl))
best_device_lem ((j, x) ∷ m) b u v = elim (Bool-cases (ltb (score_device b) (score_device x))) [
  | inl better ↦
      let (e, f, (above, all, from)) = best_device_lem m x u.1 v.1 in
      (
        e,
        rw (best_device, better) f,
        (
          omega (arith, above, ltb→lt (score_device b) (score_device x) better),
          all_scores j x m e above all,
          inr (found j x e m u.0 v.0 from),
        ),
      )
  | inr worse ↦
      let (e, f, (above, all, from)) = best_device_lem m b u.1 v.1 in
      (
        e,
        rw (best_device, worse) f,
        (
          above,
          all_scores j x m e (omega (arith, above, ltb→le (score_device b) (score_device x) worse))
              all,
          origin j x b e m u.0 from,
        ),
      )
]

-- The device that the loop finds.
abbrev IsElected : TextMap ClusterDevice → ClusterDevice → Type 0
IsElected m e =
    (get e.device_id m ≡ some e)
    × ((k : Text) (d : ClusterDevice) → get k m ≡ some d → score_device d ≤ score_device e)

best_device-IsElected :
    (m : TextMap ClusterDevice) (e : ClusterDevice)
    → Distinct m
    → IsKeyed id_of m
    → best_device none m ≡ some e
    → IsElected m e
unfolding best_device
best_device-IsElected [] e u v h = absurd (ground arith)
best_device-IsElected ((j, x) ∷ m) e u v h =
    let (b, f, (above, all, from)) = best_device_lem m x u.1 v.1 in
    subst (IsElected ((j, x) ∷ m)) (some-injective b e (sym f ∙ h))
      (found j x b m u.0 v.0 from, all_scores j x m b above all)

-- The mark of a device.
abbrev marked : Text → ClusterDevice → ClusterDevice
marked p d = record d { is_primary = text_eq d.device_id p }

get-mark_primary :
    (p k : Text) (m : TextMap ClusterDevice) (d : ClusterDevice)
    → get k (mark_primary p m) ≡ some d
    → (x : ClusterDevice) × (get k m ≡ some x) × (d ≡ marked p x)
unfolding mark_primary get
get-mark_primary p k [] d h = absurd (ground arith)
get-mark_primary p k ((j, x) ∷ m) d h = elim (text_discrete j k) [
  | yes q ↦ (x, ground arith, some-injective d (marked p x) (ground arith))
  | no q ↦ let (y, f, g) = get-mark_primary p k m d (ground arith) in (y, ground arith, g)
]

get-mark_primary_known :
    (p k : Text) (m : TextMap ClusterDevice) (x : ClusterDevice)
    → get k m ≡ some x
    → get k (mark_primary p m) ≡ some (marked p x)
unfolding mark_primary get
get-mark_primary_known p k [] x h = absurd (ground arith)
get-mark_primary_known p k ((j, y) ∷ m) x h = elim (text_discrete j k) [
  | yes q ↦
      let here : get k (mark_primary p ((j, y) ∷ m)) ≡ some (marked p y) = ground arith in
      here ∙ ap (λ z. some (marked p z)) (some-injective y x (ground arith))
  | no q ↦
      let later : get k (mark_primary p ((j, y) ∷ m)) ≡ get k (mark_primary p m) = ground arith in
      later ∙ get-mark_primary_known p k m x (ground arith)
]

mark_primary-none :
    (p k : Text) (m : TextMap ClusterDevice) → get k m ≡ none → get k (mark_primary p m) ≡ none
unfolding mark_primary get
mark_primary-none p k [] h = refl
mark_primary-none p k ((j, x) ∷ m) h = ground (arith, mark_primary-none p k m)

mark_primary-Distinct :
    (p : Text) (m : TextMap ClusterDevice) → Distinct m → Distinct (mark_primary p m)
unfolding mark_primary
mark_primary-Distinct p [] u = tt
mark_primary-Distinct p ((j, x) ∷ m) u =
    (mark_primary-none p j m u.0, mark_primary-Distinct p m u.1)

mark_primary-IsKeyed :
    (p : Text) (m : TextMap ClusterDevice) → IsKeyed id_of m → IsKeyed id_of (mark_primary p m)
unfolding mark_primary
mark_primary-IsKeyed p [] v = tt
mark_primary-IsKeyed p ((j, x) ∷ m) v = (v.0, mark_primary-IsKeyed p m v.1)

-- There is a primary device, no device has a higher score, and it alone is marked.
abbrev pub IsLed : DeviceCluster → Type 0
IsLed c =
    (k : Text) (d : ClusterDevice)
    → get k c.devices ≡ some d
    → (p : ClusterDevice) × (get_primary c ≡ some p)
      × (score_device d ≤ score_device p)
      × (d.is_primary ≡ text_eq d.device_id p.device_id)

abbrev pub IsFormed : DeviceCluster → Type 0
IsFormed c = Distinct c.devices × IsKeyed id_of c.devices

abbrev after : DeviceCluster → ClusterDevice → DeviceCluster
after c e = record c {
  devices = mark_primary e.device_id c.devices;
  primary_device_id = some e.device_id;
}

after-IsLed : (c : DeviceCluster) (e : ClusterDevice) → IsElected c.devices e → IsLed (after c e)
unfolding get_primary score_device
after-IsLed c e (known, all) k d h =
    let (x, f, g) = get-mark_primary e.device_id k c.devices d h in
    (
      marked e.device_id e,
      get-mark_primary_known e.device_id e.device_id c.devices e known,
      subst (λ z. score_device z ≤ score_device e) (sym g) (all k x f),
      ap (λ (z : ClusterDevice). z.is_primary) g
          ∙ ap (λ i. text_eq i e.device_id) (sym (ap (λ (z : ClusterDevice). z.device_id) g)),
    )

pub elect_primary_lem :
    (c c' : DeviceCluster) (p : ClusterDevice)
    → IsFormed c
    → elect_primary c ≡ ok (c', p)
    → IsFormed c' × IsLed c'
unfolding elect_primary
elect_primary_lem c c' p (u, v) h = elim (Option-cases (best_device none c.devices)) [
  | inl e ↦ absurd (ground arith)
  | inr (e, f) ↦
      let formed : IsFormed (after c e) = (
        mark_primary-Distinct e.device_id c.devices u,
        mark_primary-IsKeyed e.device_id c.devices v,
      ) in
      subst (λ z. IsFormed z × IsLed z)
        (ap (λ (r : DeviceCluster × ClusterDevice). r.0)
          (ok-injective {E = ClusterError} (after c e, record e { is_primary = true }) (c', p)
            (ground arith)))
        (formed, after-IsLed c e (best_device-IsElected c.devices e u v f))
]
