-- ===== src/Cluster/Life.antt =====
-- The calls that change a cluster, in any order, as a relation, and who leads it.
use meshwhisper.Common.{
  ℕ, ◌≤◌, ◌≡◌, refl, sym, ap, ◌∙◌, subst, true, false, List, [], ◌∷◌, none, some, Text, text_eq,
  arith, Bool-cases, Option-cases, Outcome-cases, inl, inr, ok-injective,
}
use meshwhisper.Common.TextMap.{TextMap, get, set, delete, Distinct}
use meshwhisper.Common.TextMap.Laws.{set-Distinct, delete-Distinct}
use meshwhisper.Common.TextMap.Keyed.{IsKeyed, key_of-get, set-IsKeyed, delete-IsKeyed}
use meshwhisper.Cluster.{
  ClusterDevice, DeviceCapability, DeviceCluster, ClusterError, ok, score_device, new_cluster,
  elect_primary, get_primary, reelect, reelect_any, add_device, forget, remove_device,
  put_capabilities, update_local_capabilities, handle_capability_update, start, stop, unmark,
  no_local_device, not_a_member,
}
use meshwhisper.Cluster.Election.{id_of, IsLed, IsFormed, elect_primary_lem}
use meshwhisper.Cluster.Sync.{MessageSyncManager, new_sync_manager}

-- One call that returns; the queue of messages may change in any way.
pub data Change (c : DeviceCluster) : DeviceCluster → Type 0 where
  added : {c' : DeviceCluster} (device : ClusterDevice) → add_device device c ≡ ok c' → Change c c'
  removed :
      {c' : DeviceCluster} (device_id : Text) → remove_device device_id c ≡ ok c' → Change c c'
  elected : {c' : DeviceCluster} {p : ClusterDevice} → elect_primary c ≡ ok (c', p) → Change c c'
  local_updated :
      {c' : DeviceCluster} (capabilities : DeviceCapability)
      → update_local_capabilities capabilities c ≡ ok c'
      → Change c c'
  updated :
      {c' : DeviceCluster} (device_id : Text) (capabilities : DeviceCapability)
      → handle_capability_update device_id capabilities c ≡ ok c'
      → Change c c'
  started : {c' : DeviceCluster} → start c ≡ ok c' → Change c c'
  stopped : Change c (stop c)
  synced : (m : MessageSyncManager) → Change c (record c { sync_manager = m })

pub data Reachable : DeviceCluster → Type 0 where
  built :
      {c : DeviceCluster} (derive : List ℕ → List ℕ) (key : List ℕ) (id : Text)
      → new_cluster derive key id ≡ ok c
      → Reachable c
  next : {c c' : DeviceCluster} → Reachable c → Change c c' → Reachable c'

-- A running cluster is led.
abbrev IsSound : DeviceCluster → Type 0
IsSound c = IsFormed c × (c.running ≡ true → IsLed c)

reelect-IsSound : (c c' : DeviceCluster) → IsFormed c → reelect c ≡ ok c' → IsSound c'
unfolding reelect
reelect-IsSound c c' f h = elim (Bool-cases c.running) [
  | inr idle ↦
      subst IsSound (ok-injective {E = ClusterError} c c' (ground arith))
        (f, (λ on. absurd (ground arith)))
  | inl runs ↦ elim (Outcome-cases (elect_primary c)) [
    | inl (x, e) ↦ absurd (ground arith)
    | inr (r, e) ↦
        let (formed, led) = elect_primary_lem c r.0 r.1 f e in
        subst IsSound (ok-injective {E = ClusterError} r.0 c' (ground arith)) (formed, (λ on. led))
  ]
]

reelect_any_empty : (c : DeviceCluster) → c.devices ≡ [] → reelect_any c ≡ ok c
unfolding reelect_any
reelect_any_empty c e = ground arith

reelect_any_more :
    (c : DeviceCluster) (x : Text × ClusterDevice) (m : TextMap ClusterDevice)
    → c.devices ≡ x ∷ m
    → reelect_any c ≡ reelect c
unfolding reelect_any
reelect_any_more c x m e = ground arith

empty-IsLed : (c : DeviceCluster) → c.devices ≡ [] → IsLed c
unfolding get
empty-IsLed c e k d h = absurd (ground (arith, ap (get k) e))

reelect_any-IsSound :
    (c c' : DeviceCluster) (m : TextMap ClusterDevice)
    → c.devices ≡ m
    → IsFormed c
    → reelect_any c ≡ ok c'
    → IsSound c'
reelect_any-IsSound c c' [] e f h =
    subst IsSound (ok-injective {E = ClusterError} c c' (sym (reelect_any_empty c e) ∙ h))
      (f, (λ on. empty-IsLed c e))
reelect_any-IsSound c c' (x ∷ m) e f h = reelect-IsSound c c' f (sym (reelect_any_more c x m e) ∙ h)

unmark-none : (k : Text) (m : TextMap ClusterDevice) → get k m ≡ none → get k (unmark m) ≡ none
unfolding unmark get
unmark-none k [] h = refl
unmark-none k ((j, x) ∷ m) h = ground (arith, unmark-none k m)

unmark-Distinct : (m : TextMap ClusterDevice) → Distinct m → Distinct (unmark m)
unfolding unmark
unmark-Distinct [] u = tt
unmark-Distinct ((j, x) ∷ m) u = (unmark-none j m u.0, unmark-Distinct m u.1)

unmark-IsKeyed : (m : TextMap ClusterDevice) → IsKeyed id_of m → IsKeyed id_of (unmark m)
unfolding unmark
unmark-IsKeyed [] v = tt
unmark-IsKeyed ((j, x) ∷ m) v = (v.0, unmark-IsKeyed m v.1)

put_capabilities-IsSound :
    (missing : ClusterError) (id : Text) (capabilities : DeviceCapability) (c c' : DeviceCluster)
    → IsFormed c
    → put_capabilities missing id capabilities c ≡ ok c'
    → IsSound c'
unfolding put_capabilities
put_capabilities-IsSound missing id capabilities c c' (u, v) h =
    elim (Option-cases (get id c.devices)) [
      | inl e ↦ absurd (ground arith)
      | inr (d, e) ↦
          let x : ClusterDevice = record d { capabilities = capabilities } in
          reelect-IsSound (record c { devices = set id x c.devices }) c'
            (
              set-Distinct id x c.devices u,
              set-IsKeyed id_of id x c.devices (key_of-get id_of id c.devices d v e) v,
            )
            (ground arith)
    ]

stop-IsSound : (c : DeviceCluster) → IsSound c → IsSound (stop c)
unfolding stop
stop-IsSound c ((u, v), led) = elim (Bool-cases c.running) [
  | inl e ↦
      rw (stop, e)
        ((unmark-Distinct c.devices u, unmark-IsKeyed c.devices v), (λ on. absurd (ground arith)))
  | inr e ↦ let same : stop c ≡ c = ground arith in subst IsSound (sym same) ((u, v), led)
]

add_device-IsSound :
    (device : ClusterDevice) (id : Text) (c c' : DeviceCluster)
    → device.device_id ≡ id
    → IsFormed c
    → add_device device c ≡ ok c'
    → IsSound c'
unfolding add_device
add_device-IsSound device [] c c' e f h = absurd (ground arith)
add_device-IsSound device (x ∷ xs) c c' e (u, v) h =
    reelect-IsSound (record c { devices = set device.device_id device c.devices }) c'
      (
        set-Distinct device.device_id device c.devices u,
        set-IsKeyed id_of device.device_id device c.devices refl v,
      )
      (ground arith)

start-IsSound : (c c' : DeviceCluster) → IsSound c → start c ≡ ok c' → IsSound c'
unfolding start
start-IsSound c c' (f, led) h = elim (Bool-cases c.running) [
  | inl e ↦ subst IsSound (ok-injective {E = ClusterError} c c' (ground arith)) (f, led)
  | inr e ↦ reelect_any-IsSound (record c { running = true }) c' c.devices refl f (ground arith)
]

Change-IsSound : {c c' : DeviceCluster} → Change c c' → IsSound c → IsSound c'
unfolding remove_device update_local_capabilities handle_capability_update get_primary
Change-IsSound {c} {c'} (added device h) (f, led) =
    add_device-IsSound device device.device_id c c' refl f h
Change-IsSound {c} {c'} (removed id h) ((u, v), led) =
    reelect_any-IsSound
      (record c {
        devices = delete id c.devices;
        primary_device_id = forget id c.primary_device_id;
      })
      c' (delete id c.devices) refl
      (delete-Distinct id c.devices u, delete-IsKeyed id_of id c.devices v) h
Change-IsSound {c} {c'} (elected {p} h) (f, led) =
    let (formed, leads) = elect_primary_lem c c' p f h in (formed, (λ on. leads))
Change-IsSound {c} {c'} (local_updated capabilities h) (f, led) =
    put_capabilities-IsSound no_local_device c.local_device_id capabilities c c' f h
Change-IsSound {c} {c'} (updated id capabilities h) (f, led) =
    put_capabilities-IsSound not_a_member id capabilities c c' f h
Change-IsSound {c} {c'} (started h) s = start-IsSound c c' s h
Change-IsSound {c} stopped s = stop-IsSound c s
Change-IsSound {c} (synced m) (f, led) = (f, led)

new_cluster-IsSound :
    (derive : List ℕ → List ℕ) (key : List ℕ) (id : Text) (c : DeviceCluster)
    → new_cluster derive key id ≡ ok c
    → IsSound c
unfolding new_cluster
new_cluster-IsSound derive key [] c h = absurd (ground arith)
new_cluster-IsSound derive [] (x ∷ xs) c h = absurd (ground arith)
new_cluster-IsSound derive (k ∷ ks) (x ∷ xs) c h =
    let fresh : DeviceCluster = record {
      local_device_id = x ∷ xs;
      cluster_key = derive (k ∷ ks);
      devices = [];
      primary_device_id = none;
      running = false;
      sync_manager = new_sync_manager;
    } in
    subst IsSound (ok-injective {E = ClusterError} fresh c h)
      ((tt, tt), (λ on. absurd (ground arith)))

Reachable-IsSound : {c : DeviceCluster} → Reachable c → IsSound c
Reachable-IsSound {c} (built derive key id h) = new_cluster-IsSound derive key id c h
Reachable-IsSound (next r u) = Change-IsSound u (Reachable-IsSound r)

-- In every running cluster that calls lead to, for every device: there is a primary device, its score is
-- not lower than the device's, and the device is marked as primary exactly when its id is that of the
-- primary one.
pub reachable_primary :
    (c : DeviceCluster) (k : Text) (d : ClusterDevice)
    → Reachable c
    → c.running ≡ true
    → get k c.devices ≡ some d
    → (p : ClusterDevice) × (get_primary c ≡ some p)
      × (score_device d ≤ score_device p)
      × (d.is_primary ≡ text_eq d.device_id p.device_id)
reachable_primary c k d r on h = (Reachable-IsSound r).1 on k d h
