-- ===== src/Relay/Manager.antt =====
-- `StoreAndForwardManager` of src/relay/index.ts, and the forwarding of blobs over several hops.
use meshwhisper.Common.{
  ℕ, zero, suc, ◌∙◌, ◌+◌, ◌-◌, ◌≤◌, ◌<◌, ◌≡◌, refl, Bool, true, Option, none, some, Text, arith,
  List, [], ◌∷◌, ltb, leb, if◌then◌else◌, Bool-cases, inl, inr, ◌⊎◌,
}
use meshwhisper.Common.TextMap.{get, size, values}
use meshwhisper.Relay.{
  StoredBlob, RelayStore, blob_byte_size, store_blob, handle_presence_announcement, should_forward,
  prepare_forward,
}
use meshwhisper.Relay.Invariant.{Inv}
use meshwhisper.Relay.Storing.{store_blob-accepts, store_blob-wipes}

-- The result of `storeForDelivery`: the id, or the exception that the storage is full.
pub data Stored : Type 0 where
  stored : Text → Stored
  storage_full : Stored

unfoldable pub new_blob : ℕ → Text → List ℕ → List ℕ → Option ℕ → StoredBlob
new_blob now fresh_id dest_hash encrypted_payload ttl_hours = record {
  id = fresh_id;
  dest_hash = dest_hash;
  encrypted_payload = encrypted_payload;
  received_at = now;
  ttl_hours = elim ttl_hours [ none ↦ 72 | some t ↦ t ];
  hops_remaining = 3;
}

unfoldable pub store_for_delivery :
    ℕ → Text → List ℕ → List ℕ → Option ℕ → RelayStore → RelayStore × Stored
store_for_delivery now fresh_id dest_hash encrypted_payload ttl_hours s =
    let r = store_blob (new_blob now fresh_id dest_hash encrypted_payload ttl_hours) s in
    if r.1 then (r.0, stored fresh_id) else (r.0, storage_full)

unfoldable pub deliver_stored : List ℕ → RelayStore → RelayStore × List StoredBlob
deliver_stored dest_hash s = handle_presence_announcement dest_hash none s

-- `for (const blob of blobs.values()) if (blob.receivedAt < oldest) oldest = blob.receivedAt`,
-- where `none` is the start value `Infinity`.
unfoldable pub oldest_from : Option ℕ → List StoredBlob → Option ℕ
oldest_from oldest [] = oldest
oldest_from none (b ∷ bs) = oldest_from (some b.received_at) bs
oldest_from (some o) (b ∷ bs) =
    oldest_from (some (if ltb b.received_at o then b.received_at else o)) bs

unfoldable pub compute_oldest_age : ℕ → RelayStore → ℕ
compute_oldest_age now s = elim (oldest_from none (values s.blobs)) [ none ↦ 0 | some o ↦ now - o ]

pub record StoreAndForwardStats : Type 0 where
  pub blob_count : ℕ
  pub bytes_used : ℕ
  pub oldest_blob_age : ℕ

unfoldable pub get_stats : ℕ → RelayStore → StoreAndForwardStats
get_stats now s = record {
  blob_count = size s.blobs;
  bytes_used = s.current_storage_bytes;
  oldest_blob_age = if ltb 0 (size s.blobs) then compute_oldest_age now s else 0;
}

-- On a well-formed store, `storeForDelivery` throws exactly when the blob is larger than the whole
-- capacity; otherwise it returns the id, and a blob with the given payload and destination stands
-- under that id.
pub store_for_delivery_lem :
    (now : ℕ) (id : Text) (h payload : List ℕ) (ttl : Option ℕ) (s : RelayStore)
    → Inv s
    → let b = new_blob now id h payload ttl in
      let r = store_for_delivery now id h payload ttl s in
      ((blob_byte_size b ≤ s.max_storage_bytes) × (r.1 ≡ stored id) × (get id r.0.blobs ≡ some b))
      ⊎ ((s.max_storage_bytes < blob_byte_size b) × (r.1 ≡ storage_full))
unfolding store_for_delivery new_blob
store_for_delivery_lem now id h payload ttl s v =
    let b = new_blob now id h payload ttl in
    elim (Bool-cases (leb (blob_byte_size b) s.max_storage_bytes)) [
      | inl fits ↦
          let (done, here, _) = store_blob-accepts b s v (ground arith) in
          inl (ground arith, rw done, rw done here)
      | inr over ↦
          let (failed, _) = store_blob-wipes b s v (ground arith) in inr (ground arith, rw failed)
    ]

-- `c` is `b` after `n` hops, at each of which a relay forwarded it.
pub data Forwarded (b : StoredBlob) : ℕ → StoredBlob → Type 0 where
  here : Forwarded b zero b
  next :
      {n : ℕ} {c d : StoredBlob} (now : ℕ) (fresh_id : Text) (closer : Bool)
      → Forwarded b n c
      → should_forward c closer ≡ true
      → prepare_forward now fresh_id c ≡ some d
      → Forwarded b (suc n) d

hop :
    (c d : StoredBlob) (now : ℕ) (id : Text)
    → prepare_forward now id c ≡ some d
    → (d.hops_remaining + 1 ≡ c.hops_remaining)
      × (d.dest_hash ≡ c.dest_hash)
      × (d.encrypted_payload ≡ c.encrypted_payload)
unfolding prepare_forward
hop c d now id h = ground arith

-- Forwarding uses up one hop at each relay and changes neither the destination nor the payload; so
-- a blob is forwarded no more often than its hop count says.
pub Forwarded-hops :
    {b c : StoredBlob} {n : ℕ}
    → Forwarded b n c
    → (n + c.hops_remaining ≡ b.hops_remaining)
      × (c.dest_hash ≡ b.dest_hash)
      × (c.encrypted_payload ≡ b.encrypted_payload)
Forwarded-hops here = (omega arith, refl, refl)
Forwarded-hops (next {c = c} {d = d} now id closer r w e) =
    let (hops, dest, payload) = Forwarded-hops r in
    let (one, same_dest, same_payload) = hop c d now id e in
    (omega arith, same_dest ∙ dest, same_payload ∙ payload)

-- Whenever the code decides to forward a blob, preparing it does not throw.
pub prepare_forward-total :
    (b : StoredBlob) (closer : Bool) (now : ℕ) (id : Text)
    → should_forward b closer ≡ true
    → (c : StoredBlob) × (prepare_forward now id b ≡ some c)
unfolding should_forward prepare_forward
prepare_forward-total b closer now id h =
    (record b { id = id; hops_remaining = b.hops_remaining - 1; received_at = now }, ground arith)
