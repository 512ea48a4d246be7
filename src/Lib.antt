-- ===== src/Lib.antt =====
-- MeshWhisper: the core of an end-to-end encrypted mesh messenger (src/ of the repository). A message
-- is encrypted by the double ratchet, framed as a packet, and relayed by peers that route it by an
-- opaque destination hash; a relay stores it while the receiver is offline; and the receiver's
-- permissions decide who may write at all; a key agreement starts the ratchet. Groups share sender
-- keys and a relay tree, a ledger decides for whom a device relays, and the devices of one account elect
-- a primary one. These nine parts are modelled.
--
-- Packet (src/packet/index.ts, and the packet types of src/types.ts): `encode_packet` is
-- `encodePacket`, `decode_packet` is `decodePacket`, each check of theirs in its place, and
-- Packet.Builders holds `buildPacket` and the `create...Packet` functions. An exception is a value of
-- `Result`. The compression by the lz4js package is not modelled.
--
-- Relay (src/relay/index.ts): the record `RelayStore` has the fields of the class: the blobs by id,
-- the index from destination to ids, the insertion order and the byte count. `store_blob` is
-- `storeBlob`, `remove_blob` `removeBlob`, `prune_expired` `pruneExpired`,
-- `handle_presence_announcement` `handlePresenceAnnouncement`; Relay.Manager has
-- `StoreAndForwardManager`. The eviction loop `evict` runs on fuel, one unit for each blob in the
-- order, and ends by its own test before the fuel is spent. Relay.History runs any sequence of
-- operations from the constructor on.
--
-- Routing (src/routing/index.ts): Routing.Table is `PeerProximityTable`, Routing.Seen is
-- `SeenPacketSet` with its ring, and Routing.Router is `RouteCache` and `SocialGraphRouter`. A promise
-- that the router settles is an entry of `resolved`; the timer of `findRoute` is a later call of
-- `resolve_pending_request`. Routing.Router.Life is the relation of all calls that change a router. XOR distances are rounded to doubles as the code's numbers are
-- (`to_double`, with 64 units of fuel, enough for any hash below 14 bytes). The relay and the tables
-- key their maps by `hash_to_hex` of Bytes, which stands for `hashToHex`.
--
-- Permissions (src/permissions/index.ts): `PermissionManager` with its contacts by account and
-- device, the permission checks (Permissions.Checks) and the contact and introduction requests
-- (Permissions.Requests). The custom handler and the transaction verifier are parts of the state.
--
-- Handshake (src/x3dh/index.ts): `generate_pre_key_bundle`, `initiate_key_exchange` and
-- `complete_key_exchange` are the functions of those names, over a record `Primitives` of X25519,
-- Ed25519, ML-KEM and BLAKE3. Handshake.Serialization has `serializePreKeyBundle`, with each write into
-- the byte array, and `deserializePreKeyBundle`.
--
-- Ratchet (src/ratchet/index.ts): the Double Ratchet over a record `Crypto` of the primitives that
-- the @noble packages provide: X25519, BLAKE3 and AES-GCM, with the laws that the code relies on:
-- the two sides of a key exchange agree, a hash has the length asked for, and decryption inverts
-- encryption under one key and nonce. Nothing is assumed of their secrecy.
--
-- Group (src/group/index.ts): `GroupManager`. Group holds its state and the membership, Group.Keys the
-- sender keys and the encryption with them, Group.Tree the nodes and the insertion loop of
-- `buildRelayTree`, and Group.Routing the activity, the cached tree and `routeGroupMessage`. Nodes that
-- the source shares by reference are found by their ids, which are distinct. The search for the next
-- parent has one unit of fuel for each place of the queue, and `getRelayTarget` one for each node of
-- the tree. Group.Life is the relation of all calls that change a manager. AES-GCM is a record `Gcm`:
-- both directions may throw, and for keys of 32 bytes and nonces of 12, decryption inverts encryption and
-- the tag has 16 bytes; the collation of `localeCompare` is a parameter without laws.
--
-- Reciprocity (src/reciprocity/index.ts): `RelayLedger`. A score is a fraction or `Infinity`, and its
-- comparison with the thresholds is a multiplication, which agrees with the doubles while the counts
-- stay below 2^53; priorities are in tenths. The floor of a count times the factor of a decay is a
-- function that comes with the factor. Reciprocity.Saving has `serialize` and `deserialize` over a record
-- `Codec` for JSON, and Reciprocity.Upkeep the relation of all calls that change a ledger.
--
-- Cluster (src/cluster/index.ts): `DeviceCluster`, with `elect_primary` for `electPrimary`, and
-- Cluster.Sync for `MessageSyncManager`. Cluster.Life is the relation of all calls that change a cluster,
-- Cluster.Queue that of the calls that change the queue of messages.
--
-- Common holds what the parts share: texts as lists of character codes, insertion-ordered maps for
-- `Map` and `Set` (Common.TextMap), and a stable sort. The modules called Tests run the
-- definitions on small inputs.
--
-- The clock, random ids and random bytes are arguments of the operations. Natural numbers stand for
-- the code's whole numbers, which stay below 2^53 except in XOR distances. Not modelled: the SDK, the
-- node server, the transports, storage, namespaces, cover traffic, Sybil resistance and compliance, which
-- build on these parts or do I/O; and the timers, which only call the operations modelled here.
pub mod Common
pub mod Bytes
pub mod Packet
pub mod Relay
pub mod Routing
pub mod Permissions
pub mod Group
pub mod Reciprocity
pub mod Cluster
pub mod Handshake
pub mod Ratchet
