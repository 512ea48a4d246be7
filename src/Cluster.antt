-- ===== src/Cluster.antt =====
-- src/cluster/index.ts: the devices of one account, the election of the primary device among them, and
-- the queue of messages to copy to each. The hash of the cluster key is an argument. A `throw` is an
-- `err`.
pub mod Sync
pub mod Election
pub mod Life
pub mod Queue
mod Tests
pub use meshwhisper.Common.{Outcome, ok, err, ◌>>=◌}
use meshwhisper.Common.{
  ℕ, ◌+◌, ◌*◌, Bool, true, false, List, [], ◌∷◌, Option, none, some, Text, text_eq, ltb,
  if◌then◌else◌,
}
use meshwhisper.Common.TextMap.{TextMap, get, has, set, delete, keys, values, size}
use meshwhisper.Cluster.Sync.{MessageSyncManager, new_sync_manager, get_pending_count}

pub data BatteryState : Type 0 where
  charging high medium low critical : BatteryState

pub data RelayWillingness : Type 0 where
  eager willing reluctant unavailable : RelayWillingness

pub record DeviceCapability : Type 0 where
  pub bearer_platform_p2p : Bool
  pub bearer_local_net : Bool
  pub bearer_internet : Bool
  pub inbound_connectable : Bool
  pub battery_state : BatteryState
  pub relay_willingness : RelayWillingness

pub record ClusterDevice : Type 0 where
  pub device_id : Text
  pub cluster_key : List ℕ
  pub capabilities : DeviceCapability
  pub is_primary : Bool
  pub last_sync : ℕ

pub record DeviceCluster : Type 0 where
  pub local_device_id : Text
  pub cluster_key : List ℕ
  pub devices : TextMap ClusterDevice
  pub primary_device_id : Option Text
  pub running : Bool
  pub sync_manager : MessageSyncManager

pub record ClusterStatus : Type 0 where
  pub device_count : ℕ
  pub primary_id : Text
  pub sync_pending : ℕ

pub data ClusterError : Type 0 where
  empty_local_id empty_identity_key empty_device_id no_local_device no_devices not_a_member :
      ClusterError

abbrev pub Result {ℓ} : Type ℓ → Type ℓ
Result A = Outcome ClusterError A

unfoldable pub battery_score : BatteryState → ℕ
battery_score charging = 5
battery_score high = 4
battery_score medium = 3
battery_score low = 2
battery_score critical = 1

unfoldable pub relay_score : RelayWillingness → ℕ
relay_score eager = 4
relay_score willing = 3
relay_score reluctant = 2
relay_score unavailable = 1

unfoldable pub connectivity_score : DeviceCapability → ℕ
connectivity_score cap =
    if cap.bearer_internet
    then 3
    else if cap.bearer_local_net
    then 2
    else if cap.bearer_platform_p2p
    then 1
    else 0

unfoldable pub score_device : ClusterDevice → ℕ
score_device device =
    let cap = device.capabilities in
    battery_score cap.battery_state * 1000
    + connectivity_score cap * 100
    + relay_score cap.relay_willingness * 10
    + (if cap.inbound_connectable then 1 else 0)

-- The constructor; `derive` is BLAKE3 of the key and the domain.
unfoldable pub new_cluster : (List ℕ → List ℕ) → List ℕ → Text → Result DeviceCluster
new_cluster derive identity_key [] = err empty_local_id
new_cluster derive [] (c ∷ cs) = err empty_identity_key
new_cluster derive (k ∷ ks) (c ∷ cs) = ok (record {
  local_device_id = c ∷ cs;
  cluster_key = derive (k ∷ ks);
  devices = [];
  primary_device_id = none;
  running = false;
  sync_manager = new_sync_manager;
})

-- `score > bestScore`, where the first score of all is -1.
abbrev pub outscores : Option ClusterDevice → ClusterDevice → Bool
outscores none device = true
outscores (some best) device = ltb (score_device best) (score_device device)

unfoldable pub best_device : Option ClusterDevice → TextMap ClusterDevice → Option ClusterDevice
best_device best [] = best
best_device best ((id, device) ∷ rest) =
    best_device (if outscores best device then some device else best) rest

-- `device.isPrimary = device.deviceId === elected.deviceId` for every device.
unfoldable pub mark_primary : Text → TextMap ClusterDevice → TextMap ClusterDevice
mark_primary elected [] = []
mark_primary elected ((id, device) ∷ rest) =
    (id, record device { is_primary = text_eq device.device_id elected })
    ∷ mark_primary elected rest

unfoldable pub elect_primary : DeviceCluster → Result (DeviceCluster × ClusterDevice)
elect_primary c = elim (best_device none c.devices) [
  | none ↦ err no_devices
  | some elected ↦ ok (
    record c {
      devices = mark_primary elected.device_id c.devices;
      primary_device_id = some elected.device_id;
    },
    record elected { is_primary = true },
  )
]

-- `if (this.running) { this.reelectPrimary(); }`
unfoldable pub reelect : DeviceCluster → Result DeviceCluster
reelect c = if c.running then elect_primary c >>= (λ r. ok r.0) else ok c

-- `if (this.running && this.devices.size > 0) { this.reelectPrimary(); }`
unfoldable pub reelect_any : DeviceCluster → Result DeviceCluster
reelect_any c = elim c.devices [ [] ↦ ok c | e ∷ es ↦ reelect c ]

unfoldable pub add_device : ClusterDevice → DeviceCluster → Result DeviceCluster
add_device device c = elim device.device_id [
  | [] ↦ err empty_device_id
  | x ∷ xs ↦ reelect (record c { devices = set device.device_id device c.devices })
]

-- The primary is forgotten when it is the removed device.
abbrev pub forget : Text → Option Text → Option Text
forget device_id none = none
forget device_id (some p) = if text_eq p device_id then none else some p

unfoldable pub remove_device : Text → DeviceCluster → Result DeviceCluster
remove_device device_id c = reelect_any (record c {
  devices = delete device_id c.devices;
  primary_device_id = forget device_id c.primary_device_id;
})

unfoldable pub get_devices : DeviceCluster → List ClusterDevice
get_devices c = values c.devices

abbrev pub or_throw {ℓ} : {A : Type ℓ} → Option A → ClusterError → Result A
or_throw none e = err e
or_throw (some a) e = ok a

unfoldable pub get_local_device : DeviceCluster → Result ClusterDevice
get_local_device c = or_throw (get c.local_device_id c.devices) no_local_device

unfoldable pub is_cluster_member : Text → DeviceCluster → Bool
is_cluster_member device_id c = has device_id c.devices

unfoldable pub get_primary : DeviceCluster → Option ClusterDevice
get_primary c = elim c.primary_device_id [ none ↦ none | some p ↦ get p c.devices ]

unfoldable pub is_primary_here : DeviceCluster → Bool
is_primary_here c = elim c.primary_device_id [ none ↦ false | some p ↦ text_eq p c.local_device_id ]

-- New capabilities for a device that is there.
unfoldable pub put_capabilities :
    ClusterError → Text → DeviceCapability → DeviceCluster → Result DeviceCluster
put_capabilities missing device_id capabilities c = elim (get device_id c.devices) [
  | none ↦ err missing
  | some device ↦ reelect (record c {
    devices = set device_id (record device { capabilities = capabilities }) c.devices;
  })
]

unfoldable pub update_local_capabilities : DeviceCapability → DeviceCluster → Result DeviceCluster
update_local_capabilities capabilities c =
    put_capabilities no_local_device c.local_device_id capabilities c

unfoldable pub handle_capability_update :
    Text → DeviceCapability → DeviceCluster → Result DeviceCluster
handle_capability_update device_id capabilities c =
    put_capabilities not_a_member device_id capabilities c

unfoldable pub start : DeviceCluster → Result DeviceCluster
start c = if c.running then ok c else reelect_any (record c { running = true })

unfoldable pub unmark : TextMap ClusterDevice → TextMap ClusterDevice
unmark [] = []
unmark ((id, device) ∷ rest) = (id, record device { is_primary = false }) ∷ unmark rest

unfoldable pub stop : DeviceCluster → DeviceCluster
stop c =
    if c.running
    then record c { running = false; primary_device_id = none; devices = unmark c.devices }
    else c

abbrev pub or_empty : Option Text → Text
or_empty none = []
or_empty (some id) = id

unfoldable pub get_cluster_status : DeviceCluster → ClusterStatus
get_cluster_status c = record {
  device_count = size c.devices;
  primary_id = or_empty c.primary_device_id;
  sync_pending = get_pending_count (keys c.devices) c.sync_manager;
}
