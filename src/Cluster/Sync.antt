-- ===== src/Cluster/Sync.antt =====
-- src/cluster/index.ts: `MessageSyncManager`. A `Set` of device ids is a map to units.
use meshwhisper.Common.{
  ℕ, Bool, true, false, not, List, [], ◌∷◌, none, some, Text, length, keep, Outcome, ok, err,
  if◌then◌else◌,
}
use meshwhisper.Common.TextMap.{TextMap, get, has, set, values}

pub record SyncMessage : Type 0 where
  pub message_id : Text
  pub encrypted_payload : List ℕ
  pub received_at : ℕ
  pub received_by : Text
  pub synced_to : TextMap (Unit {0})

pub record MessageSyncManager : Type 0 where
  pub messages : TextMap SyncMessage

pub data SyncError : Type 0 where
  empty_message_id : SyncError

unfoldable pub new_sync_manager : MessageSyncManager
new_sync_manager = record { messages = [] }

unfoldable pub queue_for_sync :
    SyncMessage → MessageSyncManager → Outcome SyncError MessageSyncManager
queue_for_sync message m = elim message.message_id [
  | [] ↦ err empty_message_id
  | c ∷ cs ↦ ok (record { messages = set message.message_id message m.messages })
]

abbrev pub is_unsynced : Text → SyncMessage → Bool
is_unsynced device_id msg = not (has device_id msg.synced_to)

unfoldable pub get_unsynced_messages : Text → MessageSyncManager → List SyncMessage
get_unsynced_messages device_id m = keep (is_unsynced device_id) (values m.messages)

unfoldable pub mark_synced : Text → Text → MessageSyncManager → MessageSyncManager
mark_synced message_id device_id m = elim (get message_id m.messages) [
  | none ↦ m
  | some msg ↦ record {
    messages =
        set message_id (record msg { synced_to = set device_id tt msg.synced_to }) m.messages;
  }
]

unfoldable pub mark_all : Text → List SyncMessage → MessageSyncManager → MessageSyncManager
mark_all device_id [] m = m
mark_all device_id (msg ∷ rest) m = mark_all device_id rest (mark_synced msg.message_id device_id m)

unfoldable pub sync : Text → MessageSyncManager → MessageSyncManager × List SyncMessage
sync target_device_id m =
    let unsynced = get_unsynced_messages target_device_id m in
    (mark_all target_device_id unsynced m, unsynced)

-- Whether one of the devices has not got the message.
unfoldable pub is_pending : List Text → SyncMessage → Bool
is_pending [] msg = false
is_pending (id ∷ ids) msg = if is_unsynced id msg then true else is_pending ids msg

unfoldable pub get_pending_count : List Text → MessageSyncManager → ℕ
get_pending_count all_device_ids m = length (keep (is_pending all_device_ids) (values m.messages))

unfoldable pub clear : MessageSyncManager → MessageSyncManager
clear m = record { messages = [] }
