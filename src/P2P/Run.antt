-- ===== src/P2P/Run.antt =====
-- The life of a host: New, watchTopics with its loop, and joinChannel of p2p/host.go, with
-- NewChannelDiscovery of p2p/discovery_channel.go and HandlePeerFound of p2p/discovery_mdns.go.
-- What libp2p and the key file give at the start are arguments, and a goroutine that the loop
-- starts runs where it is started.
pub mod Blocked
pub mod Started
use plan_vault_libp2p.Prelude.{
  ℕ, suc, ◌-◌, List, [], ◌∷◌, Option, none, some, Bool, true, false, Bytes, Slice, Bytes_eq, ◌==◌,
  Result, ok, err, panics, ◌>>=◌, insert, lookup, if◌then◌else◌,
}
use plan_vault_libp2p.Interfaces.Network.{Libraries, AddrInfo}
use plan_vault_libp2p.Store.Channel.{Channel}
use plan_vault_libp2p.Store.Channels.{Store, channel}
use plan_vault_libp2p.Keyring.{KeyRing}
use plan_vault_libp2p.P2P.{Host, TopicHandler, Acts, discovery, feed}
use plan_vault_libp2p.P2P.Topics.{new_topic_handler, watch_topic}
use plan_vault_libp2p.P2P.Snapshots.{snapshot, restore}

-- The events of the loop of watchTopics: a new channel, with the UUID of its handler, or the end of
-- the updates; a signal on snapshotUpdateCh; the ticker; the end of the host's context.
pub data Event : Type 0 where
  update : Option Channel → Bytes → Event
  signalled tick ctx_done : Event

module _ (X : Libraries) where
  -- From the handler on: it is registered, and one send on snapshotUpdateCh waits.
  unfoldable pub joined_channel : Bytes → Host X × Result TopicHandler → Result (Host X)
  joined_channel uri (h, ok th) =
      watch_topic X th (record h { handlers = insert uri th h.handlers; signals = suc h.signals })
  joined_channel uri (h, err e) = ok h
  joined_channel uri (h, panics) = panics

  unfoldable pub join_channel : Host X → Channel → Slice → Bytes → Result (Host X)
  unfolding joined_channel
  join_channel h c start uuid = elim (lookup c.uri h.handlers) [
    | some th ↦ ok h
    | none ↦ joined_channel c.uri (new_topic_handler X h c start feed uuid)
  ]

  -- The loop with its flag.
  pub record Loop : Type 0 where
    pub host : Host X
    pub dirty : Bool
    pub running : Bool

  -- After the ticker: a snapshot that fails leaves the flag.
  unfoldable pub after_tick : Loop → Host X × Result (Unit {0}) → Result Loop
  after_tick l (h, ok _) = ok (record l { host = h; dirty = false })
  after_tick l (h, err e) = ok (record l { host = h })
  after_tick l (h, panics) = panics

  unfoldable pub loop_event : Loop → Event → Result Loop
  unfolding join_channel after_tick
  loop_event l (update none uuid) = ok l
  loop_event l (update (some c) uuid) = do
    h ← join_channel l.host c (some []) uuid
    ok (record l { host = h })
  loop_event l signalled =
      let h : Host X = l.host in
      ok (record l { host = record h { signals = h.signals - 1 }; dirty = true })
  loop_event l tick = after_tick l (snapshot X l.dirty l.host)
  loop_event l ctx_done = ok (record l { running = false })

  unfoldable pub run_loop : List Event → Loop → Result Loop
  unfolding loop_event
  run_loop [] l = ok l
  run_loop (e ∷ es) l = elim l.running [
    | false ↦ ok l
    | true ↦ do l' ← loop_event l e; run_loop es l'
  ]

  -- The discovery channel of the host and its handler.
  unfoldable pub discovered : Host X × Result TopicHandler → Result (Host X × TopicHandler)
  discovered (h, ok th) = do h' ← watch_topic X th h; ok (h', th)
  discovered (h, err e) = err e
  discovered (h, panics) = panics

  unfoldable pub new_channel_discovery : Host X → Bytes → Bytes → Result (Host X × TopicHandler)
  unfolding discovered
  new_channel_discovery h uri uuid =
      let (s, c) = channel X.badger (X.hash.sum256 uri) h.store in
      discovered (new_topic_handler X (record h { store = s }) c (some []) discovery uuid)

  -- watchTopics from `restore` on, after its loop was started.
  unfoldable pub restored : Host X × Result (Unit {0}) → Result (Host X)
  restored (h, ok _) = ok h
  restored (h, err e) = err e
  restored (h, panics) = panics

  -- The configuration that New reads, what NewFromFile and libp2p give, and the result of
  -- setupDiscoverymDNS.
  pub record Setup : Type 0 where
    pub uri : Bytes
    pub mdns : Bool
    pub key_ring : Result (KeyRing X.keys.PrivKey)
    pub node : Result (Bytes × X.network.Net)
    pub gossip : Result X.network.PubSub
    pub mdns_service : Result (Unit {0})

  unfoldable pub started_host :
      Setup
      → Store X.badger
      → KeyRing X.keys.PrivKey
      → Bytes × X.network.Net
      → X.network.PubSub
      → Host X
  started_host cfg s kr node p = record {
    self = node.0;
    store = s;
    key_ring = kr;
    handlers = [];
    discovery_uri = cfg.uri;
    net = node.1;
    pubsub = p;
    next_ctx = 0;
    cancelled = [];
    signals = 0;
    subscriptions = [];
  }

  -- New, with a discovery URI.
  unfoldable pub start_host : Setup → Store X.badger → Bytes → Result (Host X)
  unfolding new_channel_discovery restored started_host
  start_host cfg s uuid = do
    kr ← cfg.key_ring
    node ← cfg.node
    p ← cfg.gossip
    mdns ← if cfg.mdns then cfg.mdns_service else ok tt
    let host = started_host cfg s kr node p
    disc ← new_channel_discovery host cfg.uri uuid
    let h : Host X = disc.0
    restored (restore X (record h { handlers = insert cfg.uri disc.1 h.handlers }))

  -- A vault without a URI has no host.
  unfoldable pub new : Setup → Store X.badger → Bytes → Result (Option (Host X))
  unfolding start_host
  new cfg s uuid = if cfg.uri == [] then ok none else (do h ← start_host cfg s uuid; ok (some h))

  -- HandlePeerFound: an error is logged.
  unfoldable pub handle_peer_found : AddrInfo X.network.Multiaddr → Host X → Host X
  handle_peer_found info h = record h { net = (X.network.connect info h.net).0 }
