-- ===== src/Tests/Peers.antt =====
-- What a host does with the entries of its peers, and its snapshot.
use plan_vault_libp2p.P2P.Discovery.{handle_discovery_upsert, handle_discovery_entry}
use plan_vault_libp2p.Memory.Peers.{
  keys_of, addrs_of, state_encoding, marshal_public, libraries, any_encoding,
}
use plan_vault_libp2p.Prelude.{
  ◌≡◌, ◌≢◌, Slice, refl, [], ◌∷◌, some, none, Bytes, Bytes_eq, ok, true, lookup, replicate, All,
}
use plan_vault_libp2p.Protos.{Msg, Peer, PeerUpdateOp}
use plan_vault_libp2p.Store.Channel.{new_channel}
use plan_vault_libp2p.Keyring.{new_key_ring, member_id_from_string, encode_entry}
use plan_vault_libp2p.Keyring.Knows.{Knows}
use plan_vault_libp2p.P2P.{Host, TopicHandler, feed, discovery}
use plan_vault_libp2p.P2P.Peers.{encode_peer, decode_peer_addr}
use plan_vault_libp2p.P2P.Discovery.Announcements.{Connects, handle_announcement}
use plan_vault_libp2p.P2P.Snapshots.{snapshot, restore}
use plan_vault_libp2p.P2P.Snapshots.Restoring.{IsKnown, peers_survive}
use plan_vault_libp2p.Memory.Database.{memory}
use plan_vault_libp2p.Memory.Keys.{plain}
use plan_vault_libp2p.Tests.{id_1}
use plan_vault_libp2p.Tests.Host.{store}
use plan_vault_libp2p.Tests.Keyring.{
  ring, receiver, mine, theirs, ring_lem, receiver_lem, their_key,
}
use plan_vault_libp2p.Store.Entries

abbrev peer_id : Bytes
peer_id = 3 ∷ []

abbrev peer : Peer
peer = record { op = PeerUpdateOp.upsert; id = peer_id; key = some peer_id; multiaddrs = [] }

encodes : encode_peer libraries peer_id (some peer_id) [] ≡ ok peer
unfolding encode_peer marshal_public
encodes = refl

abbrev discovery_handler : TopicHandler
discovery_handler = record {
  id = 4 ∷ [];
  channel = new_channel (9 ∷ []);
  topic = [];
  ctx = 0;
  acts = discovery;
  last_entry_id = some [];
}

abbrev host : Host libraries
host = record {
  self = 2 ∷ [];
  store = store;
  key_ring = new_key_ring;
  handlers = (9 ∷ [], discovery_handler) ∷ [];
  discovery_uri = 9 ∷ [];
  net = [];
  pubsub = [] ∷ [];
  next_ctx = 1;
  cancelled = [];
  signals = 0;
  subscriptions = [];
}

-- A host that knows the keys of a channel.
abbrev listener : Host libraries
listener = record host { key_ring = receiver }

packed_peer : libraries.state_proto.marshal_peer peer ≡ ok (1 ∷ 3 ∷ 3 ∷ [])
unfolding state_encoding
packed_peer = refl

handle_announcement_example :
    (entry : Msg) × (encoded : Bytes) × (encode_entry plain
        (ok (replicate 24 3))
        id_1
        (1 ∷ 3 ∷ 3 ∷ [])
        (1 ∷ [])
        ring
      ≡ ok entry)
    × (libraries.network.marshal_public_key (some peer_id) ≡ ok encoded)
    × Connects libraries
        (record { id = peer_id; addrs = [] })
        encoded
        listener
        (handle_discovery_entry libraries listener entry)
handle_announcement_example =
    handle_announcement libraries listener ring mine theirs peer_id (some peer_id) [] peer (1 ∷ [])
      (5 ∷ []) (8 ∷ []) (8 ∷ []) (replicate 24 3) id_1 (1 ∷ 3 ∷ 3 ∷ []) encodes packed_peer ring_lem
      receiver_lem refl refl refl their_key refl refl refl

-- A handler of a feed.
abbrev pub handler : TopicHandler
handler = record {
  id = 6 ∷ [];
  channel = new_channel (1 ∷ []);
  topic = [];
  ctx = 1;
  acts = feed;
  last_entry_id = none;
}

abbrev pub body : Bytes
body = 1 ∷ 2 ∷ 7 ∷ 1 ∷ 1 ∷ 1 ∷ 104 ∷ 105 ∷ []

-- A host with a peer, and the host that starts on its database.
abbrev before : Host libraries
before = record host { net = (peer_id, []) ∷ [] }

abbrev saved : Host libraries
saved = (snapshot libraries true before).0

snapshot_lem : snapshot libraries true before ≡ (saved, ok tt)
unfolding snapshot keys_of encode_peer marshal_public state_encoding addrs_of lookup Entries.upsert
    any_encoding memory
snapshot_lem = refl

abbrev restarted : Host libraries
restarted = record host { store = saved.store }

abbrev after : Host libraries
after = (restore libraries restarted).0

restore_lem : restore libraries restarted ≡ (after, ok tt)
unfolding restore Entries.get memory snapshot keys_of encode_peer marshal_public state_encoding
    addrs_of Entries.upsert any_encoding handle_discovery_upsert decode_peer_addr
restore_lem = refl

peers_survive_example :
    All
      (λ (id : Bytes).
        IsKnown libraries before.net (9 ∷ []) after.key_ring (member_id_from_string id))
      (libraries.network.peers before.net)
    × ((i : Bytes) (key : Slice)
        → All (λ (id : Bytes). member_id_from_string id ≢ i) (libraries.network.peers before.net)
        → Knows (9 ∷ []) i key restarted.key_ring
        → Knows (9 ∷ []) i key after.key_ring)
peers_survive_example =
    peers_survive libraries before saved restarted after snapshot_lem refl restore_lem
