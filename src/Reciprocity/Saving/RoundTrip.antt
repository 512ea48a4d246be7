-- ===== src/Reciprocity/Saving/RoundTrip.antt =====
-- A ledger that is saved and restored.
use meshwhisper.Common.{
  ℕ, ◌*◌, ◌/◌, ◌≡◌, refl, sym, ap, ◌∙◌, [], ◌∷◌, ◌++◌, Option, none, some, Text, append_assoc,
  append-nil, arith,
}
use meshwhisper.Common.TextMap.{TextMap, get, set, values, Distinct}
use meshwhisper.Common.TextMap.Append.{set-append, shift_apart}
use meshwhisper.Common.TextMap.Keyed.{IsKeyed}
use meshwhisper.Reciprocity.{
  pos, RelayLedgerEntry, RelayLedger, ok, ms_per_hour, new_ledger, get_all_entries,
}
use meshwhisper.Reciprocity.Saving.{
  Codec, restore_device, restore_entries, restore, serialize, deserialize,
}

-- Every entry stands under its own peer.
abbrev pub peer_of : RelayLedgerEntry → Text
peer_of e = e.peer_id

abbrev pub IsRegistered : Option Text → Option ℕ → Type 0
IsRegistered none none = Unit
IsRegistered none (some at) = ⊥
IsRegistered (some id) none = ⊥
IsRegistered (some id) (some at) = Unit

-- What the operations keep.
pub record IsSound (l : RelayLedger) : Type 0 where
  pub distinct : Distinct l.entries
  pub keyed : IsKeyed peer_of l.entries
  pub registered : IsRegistered l.device_id l.device_registered_at
  pub hours : ℕ
  pub whole : l.grace_period_ms ≡ hours * 3600000

-- Restoring the entries one after the other.
restore_entries_lem :
    (m done : TextMap RelayLedgerEntry)
    → Distinct m
    → IsKeyed peer_of m
    → ((k : Text) (e : RelayLedgerEntry) → get k m ≡ some e → get k done ≡ none)
    → restore_entries (values m) done ≡ done ++ m
unfolding restore_entries values get
restore_entries_lem [] done d k h = sym (append-nil done)
restore_entries_lem ((j, e) ∷ m) done d k h =
    let fresh : get j done ≡ none = h j e (ground arith) in
    let step : set e.peer_id e done ≡ done ++ (j, e) ∷ [] =
      ap (λ i. set i e done) k.0 ∙ set-append j e done fresh in
    ap (restore_entries (values m)) step
    ∙ restore_entries_lem m (done ++ (j, e) ∷ []) d.1 k.1 (shift_apart j e e m done d.0 h)
    ∙ append_assoc done ((j, e) ∷ []) m

restore_device_lem :
    (id : Option Text) (at : Option ℕ) (ms : ℕ)
    → IsRegistered id at
    → restore_device id at (record {
      grace_period_ms = ms;
      entries = [];
      device_id = none;
      device_registered_at = none;
    })
      ≡ record { grace_period_ms = ms; entries = []; device_id = id; device_registered_at = at }
unfolding restore_device
restore_device_lem none none ms r = refl
restore_device_lem none (some at) ms r = absurd r
restore_device_lem (some id) none ms r = absurd r
restore_device_lem (some id) (some at) ms r = refl

restore_lem :
    (l : RelayLedger)
    → IsSound l
    → restore (record {
      version = 1;
      grace_period_hours = pos (l.grace_period_ms / 3600000);
      device_id = l.device_id;
      device_registered_at = l.device_registered_at;
      entries = values l.entries;
    })
      ≡ ok l
unfolding restore new_ledger get
restore_lem l s =
    let ms : l.grace_period_ms / 3600000 * 3600000 ≡ l.grace_period_ms = omega (arith, s.whole) in
    let device =
      restore_device_lem l.device_id l.device_registered_at (l.grace_period_ms / 3600000 * 3600000)
        s.registered in
    let entries : restore_entries (values l.entries) [] ≡ l.entries =
      restore_entries_lem l.entries [] s.distinct s.keyed (λ k e h. refl) in
    ap
      (λ (d : RelayLedger).
        ok (record d { entries = restore_entries (values l.entries) d.entries }))
      device
    ∙ (λ i. ok (record {
      grace_period_ms = ms i;
      entries = entries i;
      device_id = l.device_id;
      device_registered_at = l.device_registered_at;
    }))

module _ {Bytes : Type 0} (codec : Codec Bytes) where
  pub deserialize-serialize_ledger :
      (l : RelayLedger) → IsSound l → deserialize codec (serialize codec l) ≡ ok l
  unfolding deserialize serialize get_all_entries
  deserialize-serialize_ledger l s =
      rw
        (
          deserialize,
          serialize,
          codec.parse-print (record {
            version = 1;
            grace_period_hours = pos (l.grace_period_ms / ms_per_hour);
            device_id = l.device_id;
            device_registered_at = l.device_registered_at;
            entries = values l.entries;
          }),
        )
        (restore_lem l s)
