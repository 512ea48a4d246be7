-- ===== src/Relay/Tests.antt =====
-- Runs of the relay store on small blobs, and the witnesses of its theorems.
use meshwhisper.Bytes.{hash_to_hex, hex_digit}
use meshwhisper.Common.{
  ◌+◌, ◌≤◌, ◌≡◌, ◌≢◌, ◌⊎◌, refl, true, false, [], ◌∷◌, length, none, some, Text, text, arith,
  if◌then◌else◌, remove_first, text_discrete,
}
use meshwhisper.Common.TextMap.{get, has, set, delete, total, size}
use meshwhisper.Relay.{
  StoredBlob, RelayStore, blob_byte_size, init, evict, remove_blob, insert_blob, drop_duplicate,
  unindex, index_blob, store_blob, prune_expired, handle_presence_announcement,
}
use meshwhisper.Relay.Invariant.{Inv}
use meshwhisper.Relay.Eviction.{Evicted, evict-Evicted}
use meshwhisper.Relay.Storing.{store_blob-accepts, store_blob-wipes}
use meshwhisper.Relay.Delivery.{Delivered, due_for_either, handle_presence_announcement-Delivered}
use meshwhisper.Relay.Pruning.{expired, prune_expired_lem}
use meshwhisper.Relay.History.{step, stores, announces, run, run-init}

abbrev one : StoredBlob
one = record {
  id = text "a";
  dest_hash = 1 ∷ 2 ∷ [];
  encrypted_payload = 7 ∷ 7 ∷ 7 ∷ [];
  received_at = 5;
  ttl_hours = 1;
  hops_remaining = 2;
}

abbrev two : StoredBlob
two = record one { id = text "b"; dest_hash = 3 ∷ 4 ∷ [] }

abbrev large : StoredBlob
large = record one { id = text "c"; encrypted_payload = 0 ∷ 0 ∷ 0 ∷ 0 ∷ 0 ∷ 0 ∷ [] }

-- A store with room for one blob, which holds `two`; `one` was evicted.
abbrev small : RelayStore
small = run (stores one ∷ stores two ∷ []) (init 40)

-- A store with room for both.
abbrev roomy : RelayStore
roomy = run (stores one ∷ stores two ∷ []) (init 100)

small-Inv : Inv small
small-Inv = (run-init 40 (stores one ∷ stores two ∷ []) tt).0

roomy-Inv : Inv roomy
roomy-Inv = (run-init 100 (stores one ∷ stores two ∷ []) tt).0

small_run : (get (text "a") small.blobs ≡ none) × (get (text "b") small.blobs ≡ some two)
unfolding run step init store_blob evict remove_blob insert_blob drop_duplicate unindex index_blob
    blob_byte_size get has set delete remove_first size text_discrete hash_to_hex hex_digit
small_run = (refl, refl)

run-init_example :
    Inv (run (stores one ∷ announces (1 ∷ 2 ∷ []) none ∷ []) (init 40))
    × (total blob_byte_size (run (stores one ∷ announces (1 ∷ 2 ∷ []) none ∷ []) (init 40)).blobs
        ≤ 40)
run-init_example =
    run-init 40 (stores one ∷ announces (1 ∷ 2 ∷ []) none ∷ [])
      ((omega arith, (omega arith, tt)), tt, tt)

store_blob-accepts_example :
    ((store_blob one small).1 ≡ true)
    × (get (text "a") (store_blob one small).0.blobs ≡ some one)
    × ((j : Text)
        → j ≢ text "a"
        → (get j (store_blob one small).0.blobs ≡ none)
          ⊎ (get j (store_blob one small).0.blobs ≡ get j small.blobs))
unfolding run step init store_blob evict remove_blob insert_blob drop_duplicate unindex index_blob
    blob_byte_size get has set delete remove_first size text_discrete hash_to_hex hex_digit
store_blob-accepts_example = store_blob-accepts one small small-Inv (omega arith)

store_blob-wipes_example :
    ((store_blob large small).1 ≡ false) × ((store_blob large small).0.blobs ≡ [])
unfolding run step init store_blob evict remove_blob insert_blob drop_duplicate unindex index_blob
    blob_byte_size get has set delete remove_first size text_discrete hash_to_hex hex_digit
store_blob-wipes_example = store_blob-wipes large small small-Inv (omega arith)

handle_presence_announcement-Delivered_example :
    Delivered
      (due_for_either (3 ∷ 4 ∷ []) (some (1 ∷ 2 ∷ [])) roomy)
      roomy
      (handle_presence_announcement (3 ∷ 4 ∷ []) (some (1 ∷ 2 ∷ [])) roomy)
handle_presence_announcement-Delivered_example =
    handle_presence_announcement-Delivered (3 ∷ 4 ∷ []) (some (1 ∷ 2 ∷ [])) roomy roomy-Inv
      (omega arith, (omega arith, tt)) (omega arith, (omega arith, tt))

prune_expired_example :
    Inv (prune_expired 3600005 roomy).0
    × ((j : Text)
        → get j (prune_expired 3600005 roomy).0.blobs
          ≡ (if expired 3600005 (get j roomy.blobs) then none else get j roomy.blobs))
    × ((prune_expired 3600005 roomy).1 + size (prune_expired 3600005 roomy).0.blobs
        ≡ size roomy.blobs)
prune_expired_example = prune_expired_lem 3600005 roomy roomy-Inv

evict-Evicted_example : Evicted 50 roomy (evict (length roomy.insertion_order) 50 roomy)
evict-Evicted_example = evict-Evicted 50 roomy roomy-Inv

abbrev forwarded : StoredBlob
forwarded = record one { id = text "e"; hops_remaining = 1; received_at = 20 }
