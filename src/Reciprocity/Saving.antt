-- ===== src/Reciprocity/Saving.antt =====
-- src/reciprocity/index.ts: `serialize` and `deserialize`. JSON and its UTF-8 form are a parameter,
-- `Codec`, with the documented behaviour that the code relies on; the bytes are opaque to this code.
pub mod RoundTrip
use meshwhisper.Common.{ℕ, ◌/◌, ◌≡◌, List, [], ◌∷◌, Option, none, some, Text, if◌then◌else◌, ◌==◌}
use meshwhisper.Common.TextMap.{TextMap, set}
use meshwhisper.Reciprocity.{
  ℤ, pos, RelayLedgerEntry, RelayLedger, Result, ok, err, ◌>>=◌, invalid_data, unsupported_version,
  ms_per_hour, serialization_version, new_ledger, get_all_entries,
}

pub record SerializedLedger : Type 0 where
  pub version : ℕ
  pub grace_period_hours : ℤ
  pub device_id : Option Text
  pub device_registered_at : Option ℕ
  pub entries : List RelayLedgerEntry

-- `JSON.stringify` and the encoder; the decoder and `JSON.parse`, which throws on other bytes.
pub record Codec (Bytes : Type 0) : Type 0 where
  pub print : SerializedLedger → Bytes
  pub parse : Bytes → Option SerializedLedger
  pub parse-print : (p : SerializedLedger) → parse (print p) ≡ some p

-- The registration is taken over when both of its parts are there.
unfoldable pub restore_device : Option Text → Option ℕ → RelayLedger → RelayLedger
restore_device none at l = l
restore_device (some id) none l = l
restore_device (some id) (some at) l = record l {
  device_id = some id;
  device_registered_at = some at;
}

unfoldable pub restore_entries :
    List RelayLedgerEntry → TextMap RelayLedgerEntry → TextMap RelayLedgerEntry
restore_entries [] m = m
restore_entries (e ∷ es) m = restore_entries es (set e.peer_id e m)

unfoldable pub restore : SerializedLedger → Result RelayLedger
restore p = do
  l ← new_ledger p.grace_period_hours
  let d = restore_device p.device_id p.device_registered_at l
  ok (record d { entries = restore_entries p.entries d.entries })

module _ {Bytes : Type 0} (codec : Codec Bytes) where
  unfoldable pub serialize : RelayLedger → Bytes
  serialize l = codec.print (record {
    version = serialization_version;
    grace_period_hours = pos (l.grace_period_ms / ms_per_hour);
    device_id = l.device_id;
    device_registered_at = l.device_registered_at;
    entries = get_all_entries l;
  })

  unfoldable pub deserialize : Bytes → Result RelayLedger
  deserialize bytes = elim (codec.parse bytes) [
    | none ↦ err invalid_data
    | some p ↦ if p.version == serialization_version then restore p else err unsupported_version
  ]
