-- ===== src/Relay/History.antt =====
-- Any history of the relay store, from its construction on.
use meshwhisper.Bytes.{Bytes}
use meshwhisper.Common.{ℕ, ◌≤◌, ◌≡◌, refl, ◌∙◌, Option, Text, mem, arith, List, [], ◌∷◌}
use meshwhisper.Common.TextMap.{get, total}
use meshwhisper.Relay.{
  StoredBlob, RelayStore, blob_byte_size, init, store_blob, remove_blob, prune_expired,
  handle_presence_announcement,
}
use meshwhisper.Relay.Invariant.{Inv, remove_blob-Inv}
use meshwhisper.Relay.Storing.{store_blob-Inv, store_blob-le-max}
use meshwhisper.Relay.Bounds.{
  remove_blob-NoLarger, handle_presence_announcement-NoLarger, prune_expired-NoLarger,
}
use meshwhisper.Relay.Delivery.{handle_presence_announcement-Delivered, Bytes?}
use meshwhisper.Relay.Pruning.{prune_expired_lem}

-- The operations that change the store.
pub data Operation : Type 0 where
  stores : StoredBlob → Operation
  removes : Text → Operation
  prunes : ℕ → Operation
  announces : List ℕ → Option (List ℕ) → Operation

unfoldable pub step : Operation → RelayStore → RelayStore
step (stores b) s = (store_blob b s).0
step (removes id) s = remove_blob id s
step (prunes now) s = (prune_expired now s).0
step (announces h p) s = (handle_presence_announcement h p s).0

unfoldable pub run : List Operation → RelayStore → RelayStore
run [] s = s
run (o ∷ os) s = run os (step o s)

-- The hashes of announcements are byte arrays.
abbrev pub AreBytes : List Operation → Type 0
AreBytes [] = Unit
AreBytes (announces h p ∷ os) = Bytes h × Bytes? p × AreBytes os
AreBytes (_ ∷ os) = AreBytes os

init-Inv : (max : ℕ) → Inv (init max)
unfolding init get mem total
init-Inv max = record {
  distinct = tt;
  named = λ id. tt;
  used = refl;
  ordered = λ id. refl;
  order_distinct = tt;
  indexed = λ dk id. refl;
  sets_distinct = λ dk. tt;
}

init_lem :
    (max : ℕ) → ((init max).max_storage_bytes ≡ max) × ((init max).current_storage_bytes ≤ max)
unfolding init
init_lem max = (refl, omega arith)

run-Inv : (os : List Operation) (s : RelayStore) → AreBytes os → Inv s → Inv (run os s)
unfolding run step
run-Inv [] s a v = v
run-Inv (stores b ∷ os) s a v = run-Inv os (store_blob b s).0 a (store_blob-Inv b s v)
run-Inv (removes id ∷ os) s a v = run-Inv os (remove_blob id s) a (remove_blob-Inv id s v)
run-Inv (prunes now ∷ os) s a v = run-Inv os (prune_expired now s).0 a (prune_expired_lem now s v).0
run-Inv (announces h p ∷ os) s a v =
    run-Inv os (handle_presence_announcement h p s).0 a.2
      (handle_presence_announcement-Delivered h p s v a.0 a.1).valid

run-bounded :
    (max : ℕ) (os : List Operation) (s : RelayStore)
    → AreBytes os
    → Inv s
    → s.max_storage_bytes ≡ max
    → s.current_storage_bytes ≤ max
    → total blob_byte_size (run os s).blobs ≤ max
unfolding run step
run-bounded max [] s a v e h = omega (arith, v.used)
run-bounded max (stores b ∷ os) s a v e h =
    let (fits, same) = store_blob-le-max b s v in
    let w = store_blob-Inv b s v in
    run-bounded max os (store_blob b s).0 a w (same ∙ e) (omega (arith, w.used))
run-bounded max (removes id ∷ os) s a v e h =
    let n = remove_blob-NoLarger id s in
    run-bounded max os (remove_blob id s) a (remove_blob-Inv id s v) (n.same_max ∙ e)
      (omega (arith, n.bytes))
run-bounded max (prunes now ∷ os) s a v e h =
    let n = prune_expired-NoLarger now s in
    run-bounded max os (prune_expired now s).0 a (prune_expired_lem now s v).0 (n.same_max ∙ e)
      (omega (arith, n.bytes))
run-bounded max (announces h p ∷ os) s a v e k =
    let n = handle_presence_announcement-NoLarger h p s in
    run-bounded max os (handle_presence_announcement h p s).0 a.2
      (handle_presence_announcement-Delivered h p s v a.0 a.1).valid (n.same_max ∙ e)
      (omega (arith, n.bytes))

-- After any history of a new store its maps, its order and its byte count agree, and the blobs it
-- holds fit in its capacity. The hashes of the announcements are byte arrays.
pub run-init :
    (max : ℕ) (os : List Operation)
    → AreBytes os
    → Inv (run os (init max)) × (total blob_byte_size (run os (init max)).blobs ≤ max)
run-init max os a = (
  run-Inv os (init max) a (init-Inv max),
  run-bounded max os (init max) a (init-Inv max) (init_lem max).0 (init_lem max).1,
)
