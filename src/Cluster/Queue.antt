-- ===== src/Cluster/Queue.antt =====
-- What a device gets from the queue of messages.
use meshwhisper.Common.{
  ok, ok-injective, ◌≡◌, refl, sym, ap, ◌∙◌, subst, false, List, [], ◌∷◌, ◌++◌, none, some, Text,
  append_assoc, keep, arith, Bool-cases, Option-cases, inl, inr, if◌then◌else◌,
}
use meshwhisper.Common.TextMap.{TextMap, get, set, values, Distinct}
use meshwhisper.Common.TextMap.Laws.{has-get, get-set, set-Distinct}
use meshwhisper.Common.TextMap.Append.{get-append, set-append_there, shift_apart}
use meshwhisper.Common.TextMap.Keyed.{IsKeyed, key_of-get, set-IsKeyed}
use meshwhisper.Cluster.Sync.{
  SyncMessage, SyncError, new_sync_manager, queue_for_sync, clear, MessageSyncManager, is_unsynced,
  get_unsynced_messages, mark_synced, mark_all, sync,
}

abbrev pub message_of : SyncMessage → Text
message_of msg = msg.message_id

-- A message that the device has got.
abbrev received : Text → SyncMessage → SyncMessage
received device_id msg = record msg { synced_to = set device_id tt msg.synced_to }

abbrev receive_all : Text → TextMap SyncMessage → TextMap SyncMessage
receive_all device_id [] = []
receive_all device_id ((k, msg) ∷ m) =
    (k, (if is_unsynced device_id msg then received device_id msg else msg))
    ∷ receive_all device_id m

abbrev manager : TextMap SyncMessage → MessageSyncManager
manager m = record { messages = m }

has-received :
    (device_id : Text) (msg : SyncMessage) → is_unsynced device_id (received device_id msg) ≡ false
has-received device_id msg = ground (
  arith,
  has-get device_id (set device_id tt msg.synced_to),
  get-set device_id device_id tt msg.synced_to,
)

mark_synced_there :
    (device_id k : Text) (msg : SyncMessage) (done rest : TextMap SyncMessage)
    → get k done ≡ none
    → mark_synced k device_id (manager (done ++ (k, msg) ∷ rest))
      ≡ manager (done ++ (k, received device_id msg) ∷ rest)
unfolding mark_synced get
mark_synced_there device_id k msg done rest h =
    let there : get k (done ++ (k, msg) ∷ rest) ≡ some msg =
      get-append k done ((k, msg) ∷ rest) h ∙ ground arith in
    rw (mark_synced, there)
      (ap (λ (m : TextMap SyncMessage). manager m)
        (set-append_there k (received device_id msg) msg done rest h))

mark_all_lem :
    (device_id : Text) (m done : TextMap SyncMessage)
    → Distinct m
    → IsKeyed message_of m
    → ((k : Text) (x : SyncMessage) → get k m ≡ some x → get k done ≡ none)
    → mark_all device_id (keep (is_unsynced device_id) (values m)) (manager (done ++ m))
      ≡ manager (done ++ receive_all device_id m)
unfolding mark_all values get
mark_all_lem device_id [] done u v h = refl
mark_all_lem device_id ((j, x) ∷ m) done u v h =
    let fresh : get j done ≡ none = h j x (ground arith) in
    let rest = keep (is_unsynced device_id) (values m) in
    let onward : (w : SyncMessage)
        → mark_all device_id rest (manager (done ++ (j, w) ∷ m))
          ≡ manager (done ++ (j, w) ∷ receive_all device_id m) =
      λ w.
        ap (λ t. mark_all device_id rest (manager t)) (sym (append_assoc done ((j, w) ∷ []) m))
        ∙ mark_all_lem device_id m (done ++ (j, w) ∷ []) u.1 v.1 (shift_apart j x w m done u.0 h)
        ∙ ap manager (append_assoc done ((j, w) ∷ []) (receive_all device_id m)) in
    elim (Bool-cases (is_unsynced device_id x)) [
      | inl e ↦
          rw (keep, e)
            (ap (mark_all device_id rest) (
                ap (λ i. mark_synced i device_id (manager (done ++ (j, x) ∷ m))) v.0
                ∙ mark_synced_there device_id j x done m fresh)
              ∙ onward (received device_id x))
      | inr e ↦ rw (keep, e) (onward x)
    ]

keep_skip :
    (device_id : Text) (x : SyncMessage) (xs : List SyncMessage)
    → is_unsynced device_id x ≡ false
    → keep (is_unsynced device_id) (x ∷ xs) ≡ keep (is_unsynced device_id) xs
keep_skip device_id x xs e = rw (keep, e) refl

is_unsynced-received :
    (device_id : Text) (x : SyncMessage)
    → is_unsynced device_id (if is_unsynced device_id x then received device_id x else x) ≡ false
is_unsynced-received device_id x = elim (Bool-cases (is_unsynced device_id x)) [
  | inl e ↦
      ap (λ b. is_unsynced device_id (if b then received device_id x else x)) e
      ∙ has-received device_id x
  | inr e ↦ ap (λ b. is_unsynced device_id (if b then received device_id x else x)) e ∙ e
]

unsynced-receive_all :
    (device_id : Text) (m : TextMap SyncMessage)
    → keep (is_unsynced device_id) (values (receive_all device_id m)) ≡ []
unfolding values
unsynced-receive_all device_id [] = refl
unsynced-receive_all device_id ((j, x) ∷ m) =
    keep_skip device_id (if is_unsynced device_id x then received device_id x else x)
      (values (receive_all device_id m)) (is_unsynced-received device_id x)
    ∙ unsynced-receive_all device_id m

-- The queues that calls lead to.
pub data Queue : MessageSyncManager → Type 0 where
  fresh : Queue new_sync_manager
  queued :
      {m m' : MessageSyncManager} (msg : SyncMessage)
      → Queue m
      → queue_for_sync msg m ≡ ok m'
      → Queue m'
  marked :
      {m : MessageSyncManager} (message_id device_id : Text)
      → Queue m
      → Queue (mark_synced message_id device_id m)
  synced : {m : MessageSyncManager} (device_id : Text) → Queue m → Queue (sync device_id m).0
  cleared : {m : MessageSyncManager} → Queue m → Queue (clear m)

abbrev IsOrdered : MessageSyncManager → Type 0
IsOrdered m = Distinct m.messages × IsKeyed message_of m.messages

queue_for_sync-IsOrdered :
    (msg : SyncMessage) (id : Text) (m m' : MessageSyncManager)
    → msg.message_id ≡ id
    → IsOrdered m
    → queue_for_sync msg m ≡ ok m'
    → IsOrdered m'
unfolding queue_for_sync
queue_for_sync-IsOrdered msg [] m m' e v h = absurd (ground arith)
queue_for_sync-IsOrdered msg (c ∷ cs) m m' e (u, v) h =
    subst IsOrdered
      (ok-injective {E = SyncError} (manager (set msg.message_id msg m.messages)) m' (ground arith))
      (
        set-Distinct msg.message_id msg m.messages u,
        set-IsKeyed message_of msg.message_id msg m.messages refl v,
      )

mark_synced-IsOrdered :
    (message_id device_id : Text) (m : MessageSyncManager)
    → IsOrdered m
    → IsOrdered (mark_synced message_id device_id m)
unfolding mark_synced
mark_synced-IsOrdered message_id device_id m (u, v) =
    elim (Option-cases (get message_id m.messages)) [
      | inl e ↦ rw (mark_synced, e) (u, v)
      | inr (x, e) ↦
          rw (mark_synced, e)
            (
              set-Distinct message_id (received device_id x) m.messages u,
              set-IsKeyed message_of message_id (received device_id x) m.messages
                  (key_of-get message_of message_id m.messages x v e) v,
            )
    ]

mark_all-IsOrdered :
    (device_id : Text) (msgs : List SyncMessage) (m : MessageSyncManager)
    → IsOrdered m
    → IsOrdered (mark_all device_id msgs m)
unfolding mark_all
mark_all-IsOrdered device_id [] m v = v
mark_all-IsOrdered device_id (msg ∷ msgs) m v =
    mark_all-IsOrdered device_id msgs (mark_synced msg.message_id device_id m)
      (mark_synced-IsOrdered msg.message_id device_id m v)

Queue-IsOrdered : {m : MessageSyncManager} → Queue m → IsOrdered m
unfolding new_sync_manager sync clear
Queue-IsOrdered fresh = (tt, tt)
Queue-IsOrdered {m = m'} (queued {m} msg q h) =
    queue_for_sync-IsOrdered msg msg.message_id m m' refl (Queue-IsOrdered q) h
Queue-IsOrdered (marked {m} message_id device_id q) =
    mark_synced-IsOrdered message_id device_id m (Queue-IsOrdered q)
Queue-IsOrdered (synced {m} device_id q) =
    mark_all-IsOrdered device_id (get_unsynced_messages device_id m) m (Queue-IsOrdered q)
Queue-IsOrdered (cleared q) = (tt, tt)

-- After a device has synced with a queue that calls lead to, no message of the queue is left for it.
pub sync_once :
    (m : MessageSyncManager) (device_id : Text)
    → Queue m
    → get_unsynced_messages device_id (sync device_id m).0 ≡ []
unfolding sync get_unsynced_messages get
sync_once m device_id q =
    let (u, v) = Queue-IsOrdered q in
    ap (λ t. keep (is_unsynced device_id) (values t.messages))
      (mark_all_lem device_id m.messages [] u v (λ k x h. refl))
    ∙ unsynced-receive_all device_id m.messages
