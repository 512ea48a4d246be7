-- ===== src/Relay/Bounds.antt =====
-- No operation but `storeBlob` takes up storage, and none changes the capacity.
use meshwhisper.Common.{
  ℕ, zero, suc, ◌≤◌, ◌≡◌, refl, ◌∙◌, Option, none, some, Text, arith, List, [], ◌∷◌,
}
use meshwhisper.Relay.{
  RelayStore, remove_blob, remove_blobs, ids_for, remove_blobs_for_dest, dest_key, deliver,
  handle_presence_announcement, prune_at, prune_from, prune_expired,
}

pub record NoLarger (s t : RelayStore) : Type 0 where
  pub same_max : t.max_storage_bytes ≡ s.max_storage_bytes
  pub bytes : t.current_storage_bytes ≤ s.current_storage_bytes

same : (s : RelayStore) → NoLarger s s
same s = record { same_max = refl; bytes = omega arith }

then : {s t u : RelayStore} → NoLarger s t → NoLarger t u → NoLarger s u
then h k = record { same_max = k.same_max ∙ h.same_max; bytes = omega arith }

pub remove_blob-NoLarger : (id : Text) (s : RelayStore) → NoLarger s (remove_blob id s)
unfolding remove_blob
remove_blob-NoLarger id s = ground arith

remove_blobs-NoLarger : (ids : List Text) (s : RelayStore) → NoLarger s (remove_blobs ids s)
unfolding remove_blobs
remove_blobs-NoLarger [] s = same s
remove_blobs-NoLarger (id ∷ ids) s =
    then (remove_blob-NoLarger id s) (remove_blobs-NoLarger ids (remove_blob id s))

deliver-NoLarger : (h : List ℕ) (s : RelayStore) → NoLarger s (deliver h s).0
unfolding deliver remove_blobs_for_dest
deliver-NoLarger h s = remove_blobs-NoLarger (ids_for (dest_key h) s) s

pub handle_presence_announcement-NoLarger :
    (h : List ℕ) (p : Option (List ℕ)) (s : RelayStore)
    → NoLarger s (handle_presence_announcement h p s).0
unfolding handle_presence_announcement
handle_presence_announcement-NoLarger h none s = deliver-NoLarger h s
handle_presence_announcement-NoLarger h (some p) s =
    ground (arith, deliver-NoLarger h s, deliver-NoLarger p (deliver h s).0)

prune_from-NoLarger :
    (now i : ℕ) (s : RelayStore) (removed : ℕ) → NoLarger s (prune_from now i s removed).0
unfolding prune_from prune_at
prune_from-NoLarger now zero s removed = same s
prune_from-NoLarger now (suc i) s removed =
    then one (prune_from-NoLarger now i (prune_at now i s removed).0 (prune_at now i s removed).1)
  where
    one : NoLarger s (prune_at now i s removed).0
    one = grind (arith, remove_blob-NoLarger)

pub prune_expired-NoLarger : (now : ℕ) (s : RelayStore) → NoLarger s (prune_expired now s).0
unfolding prune_expired
prune_expired-NoLarger now s = prune_from-NoLarger now _ s 0
