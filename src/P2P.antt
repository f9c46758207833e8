-- ===== src/P2P.antt =====
-- The peer to peer host of p2p/host.go and the topic handlers of p2p/topic_handler.go: their state.
-- A handler is reached through the host's map; its channel is that of the store, whose id, uri and
-- prefixes do not change. The two functions that a handler is made with are its `acts`. `signals`
-- are the sends on snapshotUpdateCh that wait for the loop of watchTopics.
pub mod Peers
pub mod Discovery
pub mod Topics
pub mod Snapshots
pub mod Run
pub mod Lock
pub mod Logged
use plan_vault_libp2p.Prelude.{ℕ, List, Bytes, Slice, Dict}
use plan_vault_libp2p.Interfaces.Network.{Libraries}
use plan_vault_libp2p.Store.Channel.{Channel}
use plan_vault_libp2p.Store.Channels.{Store, Subscribed}
use plan_vault_libp2p.Keyring.{KeyRing}

-- What a handler does with entries: those of the discovery channel, or those of a feed.
pub data Acts : Type 0 where
  discovery feed : Acts

pub record TopicHandler : Type 0 where
  pub id : Bytes
  pub channel : Channel
  pub topic : Bytes
  pub ctx : ℕ
  pub acts : Acts
  pub last_entry_id : Slice

pub record Host (X : Libraries) : Type 0 where
  pub self : Bytes
  pub store : Store X.badger
  pub key_ring : KeyRing X.keys.PrivKey
  pub handlers : Dict Bytes TopicHandler
  pub discovery_uri : Bytes
  pub net : X.network.Net
  pub pubsub : X.network.PubSub
  pub next_ctx : ℕ
  pub cancelled : List ℕ
  pub signals : ℕ
  pub subscriptions : List (Bytes × Subscribed)
