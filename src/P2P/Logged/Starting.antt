-- ===== src/P2P/Logged/Starting.antt =====
-- The start of a host and its Publish: what they make of the store and of the handlers.
use plan_vault_libp2p.Prelude.{
  ◌≡◌, refl, sym, subst, List, [], ◌∷◌, Option, none, some, Bytes, Bytes_eq, Result, ok, err,
  panics, >>=-eq-ok, ok-injective, lookup, insert, if◌then◌else◌,
}
use plan_vault_libp2p.Protos.{Msg, Peer, PubsubState}
use plan_vault_libp2p.Interfaces.Network.{Libraries}
use plan_vault_libp2p.Store.Channel.{Channel}
use plan_vault_libp2p.Store.Channels.{Store, channel}
use plan_vault_libp2p.Store.Channels.Registry.{channel-Gives}
use plan_vault_libp2p.Store.Channels.Hashed.{IsStore, OfFeed, channel-IsStore}
use plan_vault_libp2p.Log.{Posted}
use plan_vault_libp2p.Log.Refinement.{Represents}
use plan_vault_libp2p.P2P.{Host, TopicHandler, Acts, discovery, feed}
use plan_vault_libp2p.P2P.Peers.{decode_peer_addr}
use plan_vault_libp2p.P2P.Discovery.{handle_discovery_upsert}
use plan_vault_libp2p.P2P.Topics.{dropped, watch_topic, publish, on_publish, body_or_nil}
use plan_vault_libp2p.P2P.Logged.{
  Kept, kept, Kept-Kept, Holds, Kept-Holds, handle_discovery_entry-Kept, upsert_decoded-Kept,
}
use plan_vault_libp2p.P2P.Snapshots.{restore, restore_from, restore_peers}
use plan_vault_libp2p.P2P.Run.{
  Setup, start_host, started_host, new_channel_discovery, discovered, restored,
}
use plan_vault_libp2p.P2P.Logged.Looping.{watch_topic-Holds, insert-Holds, new_topic_handler-Kept}
use plan_vault_libp2p.Keyring.{KeyRing}
use plan_vault_libp2p.P2P.Logged.Hearing.{dropped-ok}

module _ (X : Libraries) where
  discovered-Holds :
      (log : List Posted) (d : Host X × TopicHandler) (r : Host X × Result TopicHandler)
      → ((th : TopicHandler) → r.1 ≡ ok th → OfFeed X.badger X.hash th.channel)
      → Holds X log r.0
      → discovered X r ≡ ok d
      → Holds X log d.0 × OfFeed X.badger X.hash d.1.channel
  unfolding discovered
  discovered-Holds log d (h, ok th) of w e =
      let (h', watched, last) = >>=-eq-ok (watch_topic X th h) _ e in
      subst (λ (x : Host X × TopicHandler). Holds X log x.0 × OfFeed X.badger X.hash x.1.channel)
        (ok-injective last) (watch_topic-Holds X log th h h' (of th refl) w watched, of th refl)
  discovered-Holds log d (h, err x) of w e = cc
  discovered-Holds log d (h, panics) of w e = cc

  new_channel_discovery-Holds :
      (log : List Posted) (h : Host X) (uri uuid : Bytes) (d : Host X × TopicHandler)
      → Holds X log h
      → new_channel_discovery X h uri uuid ≡ ok d
      → Holds X log d.0 × OfFeed X.badger X.hash d.1.channel
  unfolding new_channel_discovery
  new_channel_discovery-Holds log h uri uuid d w e =
      let id : Bytes = X.hash.sum256 uri in
      let s : Store X.badger = (channel X.badger id h.store).0 in
      let c : Channel = (channel X.badger id h.store).1 in
      let gives = channel-Gives X.badger id h.store w.host.store.registry in
      let h' : Host X = record h { store = s } in
      let (k, is) = new_topic_handler-Kept X h' c (some []) discovery uuid in
      discovered-Holds log d _
        (λ th made. subst (OfFeed X.badger X.hash) (sym (is th made)) (uri, gives.made))
        (Kept-Holds X log h' _ k (record {
          host = record {
            store = channel-IsStore X.badger X.hash id h.store (uri, refl) w.host.store;
            handlers = w.host.handlers;
          };
          entries = subst (Represents X.badger X.proto X.hash log) (sym gives.same_db) w.entries;
        }))
        e

  restore_peers-Kept :
      (ps : List Peer) (h : Host X) (r : Result (Unit {0})) → Kept X h (restore_peers X ps (h, r)).0
  unfolding restore_peers handle_discovery_upsert
  restore_peers-Kept [] h r = kept X h
  restore_peers-Kept (p ∷ ps) h (ok _) =
      let q = handle_discovery_upsert X h p in
      Kept-Kept X h q.0 _ (upsert_decoded-Kept X p h (decode_peer_addr X p))
        (restore_peers-Kept ps q.0 q.1)
  restore_peers-Kept (p ∷ ps) h (err e) = kept X h
  restore_peers-Kept (p ∷ ps) h panics = kept X h

  restore_from-Kept :
      (h : Host X) (disc : Option TopicHandler) (r : Result PubsubState)
      → Kept X h (restore_from X h disc r).0
  unfolding restore_from
  restore_from-Kept h (some disc) (ok snap) = restore_peers-Kept snap.peers h (ok tt)
  restore_from-Kept h none (ok snap) = kept X h
  restore_from-Kept h (some disc) (err e) = kept X h
  restore_from-Kept h none (err e) = kept X h
  restore_from-Kept h (some disc) panics = kept X h
  restore_from-Kept h none panics = kept X h

  restored-ok : (p : Host X × Result (Unit {0})) (h : Host X) → restored X p ≡ ok h → p.0 ≡ h
  unfolding restored
  restored-ok (k, ok _) h e = ok-injective e
  restored-ok (k, err x) h e = cc
  restored-ok (k, panics) h e = cc

  started_host-Holds :
      (log : List Posted) (cfg : Setup X) (s : Store X.badger) (kr : KeyRing X.keys.PrivKey)
      (node : Bytes × X.network.Net) (p : X.network.PubSub)
      → IsStore X.badger X.hash s
      → Represents X.badger X.proto X.hash log s.db
      → Holds X log (started_host X cfg s kr node p)
  unfolding started_host lookup
  started_host-Holds log cfg s kr node p w rep = record {
    host = record { store = w; handlers = λ u th found. cc found };
    entries = rep;
  }

  -- A host that New starts on a store that holds a log finds and leaves that log there, and its
  -- handlers stand for feeds.
  pub start_host-Holds :
      (log : List Posted) (cfg : Setup X) (s : Store X.badger) (uuid : Bytes) (h : Host X)
      → IsStore X.badger X.hash s
      → Represents X.badger X.proto X.hash log s.db
      → start_host X cfg s uuid ≡ ok h
      → Holds X log h
  unfolding start_host restore
  start_host-Holds log cfg s uuid h w rep e =
      let (kr, e1, k1) = >>=-eq-ok cfg.key_ring _ e in
      let (node, e2, k2) = >>=-eq-ok cfg.node _ k1 in
      let (p, e3, k3) = >>=-eq-ok cfg.gossip _ k2 in
      let (mdns, e4, k4) = >>=-eq-ok (if cfg.mdns then cfg.mdns_service else ok tt) _ k3 in
      let (disc, e5, k5) =
        >>=-eq-ok (new_channel_discovery X (started_host X cfg s kr node p) cfg.uri uuid) _ k4 in
      let (held, of) =
        new_channel_discovery-Holds log (started_host X cfg s kr node p) cfg.uri uuid disc
          (started_host-Holds log cfg s kr node p w rep) e5 in
      let h1 : Host X = disc.0 in
      let h2 : Host X = record h1 { handlers = insert cfg.uri disc.1 h1.handlers } in
      subst (Holds X log) (restored-ok (restore X h2) h k5) (
        Kept-Holds X log h2 _ (restore_from-Kept h2 _ _)
          (insert-Holds X log cfg.uri disc.1 h1 h1.signals of held))

  on_publish-Kept : (a : Acts) (entry : Msg) (h : Host X) → Kept X h (on_publish X a entry h).0
  unfolding on_publish
  on_publish-Kept discovery entry h = handle_discovery_entry-Kept X h entry
  on_publish-Kept feed entry h = record { store = refl; handlers = refl }

  -- Publishing an entry to the peers leaves the log alone.
  pub publish-Holds :
      (log : List Posted) (uri : Bytes) (th : TopicHandler) (entry : Msg) (h h' : Host X)
      → OfFeed X.badger X.hash th.channel
      → Holds X log h
      → publish X uri th entry h ≡ ok h'
      → Holds X log h'
  unfolding publish
  publish-Holds log uri th entry h h' of w e =
      let (body, e1, k1) = >>=-eq-ok (body_or_nil X (X.proto.marshal entry)) _ e in
      let sent : Host X = record h { pubsub = X.network.publish th.topic body h.pubsub } in
      let (h2, e2, k2) = >>=-eq-ok (dropped X (on_publish X th.acts entry sent)) _ k1 in
      let q = on_publish X th.acts entry sent in
      let w2 : Holds X log h2 = subst (Holds X log) (dropped-ok X q h2 e2) (
        Kept-Holds X log h q.0
          (Kept-Kept X h sent q.0 (record { store = refl; handlers = refl })
            (on_publish-Kept th.acts entry sent))
          w) in
      subst (Holds X log) (ok-injective k2) (insert-Holds X log uri _ h2 h2.signals of w2)
