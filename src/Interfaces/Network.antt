-- ===== src/Interfaces/Network.antt =====
-- What the peer to peer host uses of libp2p, of its pubsub and of protobuf, and all libraries of
-- the host in one record.
use plan_vault_libp2p.Prelude.{◌≡◌, List, map, Option, Bool, true, Bytes, Slice, Error, Result, ok}
use plan_vault_libp2p.Protos.{Peer, TopicPointer, PubsubState}
use plan_vault_libp2p.Interfaces.{Badger, Proto, Hash, Crypto, KeyLib, wire_slice}

abbrev pub wire_peer : Peer → Peer
wire_peer p = record p { key = wire_slice p.key }

abbrev wire_topic : TopicPointer → TopicPointer
wire_topic t = record t { last_entry_published = wire_slice t.last_entry_published }

abbrev pub wire_state : PubsubState → PubsubState
wire_state s = record { topics = map wire_topic s.topics; peers = map wire_peer s.peers }

-- google.golang.org/protobuf on the messages of the host.
pub record StateProto : Type 0 where
  pub marshal_peer : Peer → Result Bytes
  pub unmarshal_peer : Bytes → Result Peer
  pub marshal_state : PubsubState → Result Bytes
  pub unmarshal_state : Bytes → Result PubsubState
  pub unmarshal-marshal_peer :
      (p : Peer) (b : Bytes) → marshal_peer p ≡ ok b → unmarshal_peer b ≡ ok (wire_peer p)
  pub unmarshal-marshal_state :
      (s : PubsubState) (b : Bytes) → marshal_state s ≡ ok b → unmarshal_state b ≡ ok (wire_state s)

-- libpeer.AddrInfo over the type of addresses.
pub record AddrInfo (M : Type 0) : Type 0 where
  pub id : Bytes
  pub addrs : List M

-- A libp2p host with its peerstore, and gossipsub. Join refuses a topic that has a handle, and
-- nothing that the vault does gives one up.
pub record Network (Key : Type 0) : Type 1 where
  pub Multiaddr : Type 0
  pub new_multiaddr_bytes : Bytes → Result Multiaddr
  pub multiaddr_bytes : Multiaddr → Bytes
  pub new_multiaddr_bytes-multiaddr_bytes :
      (m : Multiaddr) → new_multiaddr_bytes (multiaddr_bytes m) ≡ ok m
  pub marshal_public_key : Option Key → Result Bytes
  pub Net : Type 0
  pub connect : AddrInfo Multiaddr → Net → Net × Result (Unit {0})
  pub peers : Net → List Bytes
  pub addrs : Net → Bytes → List Multiaddr
  pub pub_key : Net → Bytes → Option Key
  pub PubSub : Type 0
  pub join : Bytes → PubSub → PubSub × Result (Unit {0})
  pub subscribe : Bytes → PubSub → PubSub × Result (Unit {0})
  pub publish : Bytes → Slice → PubSub → PubSub
  pub joined : PubSub → Bytes → Bool
  pub joined-join : (t : Bytes) (p : PubSub) → (join t p).1 ≡ ok tt → joined (join t p).0 t ≡ true
  pub join_taken :
      (t : Bytes) (p : PubSub) → joined p t ≡ true → (e : Error) × (join t p ≡ (p, Result.err e))
  pub joined-subscribe :
      (t u : Bytes) (p : PubSub) → joined p u ≡ true → joined (subscribe t p).0 u ≡ true
  pub joined-publish :
      (t u : Bytes) (b : Slice) (p : PubSub) → joined p u ≡ true → joined (publish t b p) u ≡ true

pub record Libraries : Type 1 where
  pub badger : Badger
  pub proto : Proto
  pub hash : Hash
  pub crypto : Crypto
  pub keys : KeyLib
  pub state_proto : StateProto
  pub network : Network keys.PubKey
