-- ===== src/Routing/Seen.antt =====
-- `SeenPacketSet`: the fingerprints of recent packets, in a set and a ring that says which is the
-- oldest.
pub mod Rotation
pub mod Refinement
pub mod Runs
pub mod Memory
use meshwhisper.Bytes.{hash_to_hex}
use meshwhisper.Common.{
  ℕ, zero, suc, ◌+◌, ◌%◌, Bool, true, false, List, [], ◌∷◌, ◌++◌, length, take, get_elem?, set_elem,
  Option, none, some, Text, ltb, leb, if◌then◌else◌, min,
}
use meshwhisper.Common.TextMap.{TextMap, has, set, delete, size}
use meshwhisper.Packet.{Packet}

pub record SeenPacketSet : Type 0 where
  pub capacity : ℕ
  pub members : TextMap (Unit {0})
  pub ring : List Text
  pub cursor : ℕ

unfoldable pub replicate {ℓ} : {A : Type ℓ} → ℕ → A → List A
replicate zero a = []
replicate (suc n) a = a ∷ replicate n a

unfoldable pub new_seen : ℕ → SeenPacketSet
new_seen capacity = record {
  capacity = capacity;
  members = [];
  ring = replicate capacity [];
  cursor = 0;
}

-- `if (evict) set.delete(evict)`: the empty text is not an entry.
unfoldable pub evict_text : Option Text → TextMap (Unit {0}) → TextMap (Unit {0})
evict_text none members = members
evict_text (some []) members = members
evict_text (some (c ∷ cs)) members = delete (c ∷ cs) members

unfoldable pub test_and_add : Text → SeenPacketSet → SeenPacketSet × Bool
test_and_add fingerprint s = if has fingerprint s.members then (s, true) else (
  record s {
    members = set fingerprint tt (
        if leb s.capacity (size s.members)
        then evict_text (get_elem? s.ring s.cursor) s.members
        else s.members);
    ring = set_elem s.ring s.cursor fingerprint;
    cursor = (s.cursor + 1) % s.capacity;
  },
  false,
)

-- `packetFingerprint`
unfoldable pub packet_fingerprint : Packet → Text
packet_fingerprint p =
    hash_to_hex (p.dest_hash ++ (p.sender_ephemeral_id ++ take 8 p.encrypted_payload))
