-- ===== src/Cluster/Tests.antt =====
-- A run of a cluster at concrete values.
use meshwhisper.Common.{◌≤◌, ◌≡◌, refl, Bool, true, false, [], ◌∷◌, none, some, Text, text, text_eq}
use meshwhisper.Common.TextMap.{get, set}
use meshwhisper.Cluster.{
  BatteryState, RelayWillingness, ClusterDevice, DeviceCluster, ok, new_cluster, add_device, start,
  reelect, reelect_any, elect_primary, best_device, mark_primary, score_device, battery_score,
  relay_score, connectivity_score, get_primary,
}
use meshwhisper.Cluster.Sync.{
  SyncMessage, MessageSyncManager, new_sync_manager, queue_for_sync, get_unsynced_messages, sync,
}
use meshwhisper.Cluster.Queue.{fresh, queued, sync_once}
use meshwhisper.Cluster.Life.{Reachable, built, next, added, started, reachable_primary}

abbrev phone_id : Text
phone_id = text "phone"

abbrev phone : Bool → ClusterDevice
phone marked = record {
  device_id = phone_id;
  cluster_key = [];
  capabilities = record {
    bearer_platform_p2p = true;
    bearer_local_net = true;
    bearer_internet = false;
    inbound_connectable = false;
    battery_state = BatteryState.high;
    relay_willingness = RelayWillingness.willing;
  };
  is_primary = marked;
  last_sync = 0;
}

abbrev laptop_id : Text
laptop_id = text "laptop"

abbrev laptop : Bool → ClusterDevice
laptop marked = record {
  device_id = laptop_id;
  cluster_key = [];
  capabilities = record {
    bearer_platform_p2p = false;
    bearer_local_net = true;
    bearer_internet = true;
    inbound_connectable = true;
    battery_state = BatteryState.charging;
    relay_willingness = RelayWillingness.eager;
  };
  is_primary = marked;
  last_sync = 0;
}

abbrev empty_cluster : Bool → DeviceCluster
empty_cluster on = record {
  local_device_id = phone_id;
  cluster_key = 1 ∷ [];
  devices = [];
  primary_device_id = none;
  running = on;
  sync_manager = new_sync_manager;
}

abbrev phone_alone : DeviceCluster
phone_alone = record (empty_cluster true) {
  devices = (phone_id, phone true) ∷ [];
  primary_device_id = some phone_id;
}

abbrev two_devices : DeviceCluster
two_devices = record (empty_cluster true) {
  devices = (phone_id, phone false) ∷ (laptop_id, laptop true) ∷ [];
  primary_device_id = some laptop_id;
}

cluster_built : new_cluster (λ k. k) (1 ∷ []) phone_id ≡ ok (empty_cluster false)
unfolding new_cluster
cluster_built = refl

cluster_started : start (empty_cluster false) ≡ ok (empty_cluster true)
unfolding start reelect_any
cluster_started = refl

phone_added : add_device (phone false) (empty_cluster true) ≡ ok phone_alone
unfolding add_device reelect elect_primary best_device mark_primary set
phone_added = refl

laptop_added : add_device (laptop false) phone_alone ≡ ok two_devices
unfolding add_device reelect elect_primary best_device mark_primary set score_device battery_score
    relay_score connectivity_score
laptop_added = refl

two_devices_Reachable : Reachable two_devices
two_devices_Reachable =
    next
      (next (next (built (λ k. k) (1 ∷ []) phone_id cluster_built) (started cluster_started))
        (added (phone false) phone_added))
      (added (laptop false) laptop_added)

get-two_devices : get phone_id two_devices.devices ≡ some (phone false)
unfolding get
get-two_devices = refl

reachable_primary_example :
    (p : ClusterDevice) × (get_primary two_devices ≡ some p)
    × (score_device (phone false) ≤ score_device p)
    × ((phone false).is_primary ≡ text_eq (phone false).device_id p.device_id)
reachable_primary_example =
    reachable_primary two_devices phone_id (phone false) two_devices_Reachable refl get-two_devices

abbrev note : SyncMessage
note = record {
  message_id = text "m1";
  encrypted_payload = 1 ∷ [];
  received_at = 5;
  received_by = phone_id;
  synced_to = (phone_id, tt) ∷ [];
}

abbrev one_message : MessageSyncManager
one_message = record { messages = (text "m1", note) ∷ [] }

note_queued : queue_for_sync note new_sync_manager ≡ ok one_message
unfolding queue_for_sync set new_sync_manager
note_queued = refl

sync_once_example : get_unsynced_messages laptop_id (sync laptop_id one_message).0 ≡ []
sync_once_example = sync_once one_message laptop_id (queued note fresh note_queued)
