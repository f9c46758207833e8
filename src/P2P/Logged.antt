-- ===== src/P2P/Logged.antt =====
-- The peer to peer host and the log: what the topic handlers and the loop of p2p/host.go make of
-- the entries of the store that the host shares with the server.
pub mod Hearing
pub mod Looping
pub mod Starting
use plan_vault_libp2p.Prelude.{
  ℕ, ◌≡◌, refl, sym, ap, subst, ◌∙◌, inl, inr, List, [], Option, none, some, Bool, true, false,
  Bytes, Slice, Bytes_eq, ◌==◌, Result, ok, err, panics, ◌>>=◌, >>=-eq-ok, ok-injective, lookup,
  insert, if◌then◌else◌, Bool-cases, Option-cases, eq_of_some,
}
use plan_vault_libp2p.Prelude.ByteStrings.{bytes_beq_iff}
use plan_vault_libp2p.Prelude.Maps.{lookup-insert}
use plan_vault_libp2p.Protos.{Msg, Peer, PeerUpdateOp}
use plan_vault_libp2p.Interfaces.Network.{Libraries, AddrInfo}
use plan_vault_libp2p.Store.Channel.{Channel, topic}
use plan_vault_libp2p.Store.Channels.{Store, Subscribed, channel, subscribe}
use plan_vault_libp2p.Store.Channels.Registry.{IsMade, channel-Gives}
use plan_vault_libp2p.Store.Channels.Hashed.{
  IsStore, Hashed, OfFeed, with_db-IsStore, channel-IsStore, put_channel-IsStore, OfFeed-Hashed,
}
use plan_vault_libp2p.Store.Entries
use plan_vault_libp2p.Store.Entries.Made.{append_made}
use plan_vault_libp2p.Log.{Request, Posted, Label, quiet, answered, read, stays}
use plan_vault_libp2p.Log.Writers.{Flying}
use plan_vault_libp2p.Log.Refinement.{Represents, Follows, append-Follows, upsert-Represents}
use plan_vault_libp2p.P2P.{Host, TopicHandler, Acts, discovery, feed}
use plan_vault_libp2p.P2P.Peers.{decode_peer_addr}
use plan_vault_libp2p.P2P.Discovery.{
  handle_discovery_entry, handle_decoded, handle_update, handle_discovery_upsert, upsert_decoded,
  add_peer,
}
use plan_vault_libp2p.P2P.Topics.{
  Incoming, failed, message, receive, decoded, dropped, on_receive, appended, watch_topic,
  subscribed_topic, new_topic_handler, then_subscribe, made_handler,
}

module _ (X : Libraries) where
  -- The store and the handlers are the same.
  pub record Kept (a b : Host X) : Type 0 where
    pub store : b.store ≡ a.store
    pub handlers : b.handlers ≡ a.handlers

  pub kept : (h : Host X) → Kept h h
  kept h = record { store = refl; handlers = refl }

  pub Kept-Kept : (a b c : Host X) → Kept a b → Kept b c → Kept a c
  Kept-Kept a b c s t = record { store = t.store ∙ s.store; handlers = t.handlers ∙ s.handlers }

  add_peer-Kept :
      (p : Peer) (info : AddrInfo X.network.Multiaddr) (h : Host X)
      (r : X.network.Net × Result (Unit {0}))
      → Kept h (add_peer X p info h r).0
  unfolding add_peer
  add_peer-Kept p info h (net, ok _) = record { store = refl; handlers = refl }
  add_peer-Kept p info h (net, err e) = record { store = refl; handlers = refl }
  add_peer-Kept p info h (net, panics) = record { store = refl; handlers = refl }

  pub upsert_decoded-Kept :
      (p : Peer) (h : Host X) (r : Result (AddrInfo X.network.Multiaddr))
      → Kept h (upsert_decoded X p h r).0
  unfolding upsert_decoded
  upsert_decoded-Kept p h (ok info) = add_peer-Kept p info h (X.network.connect info h.net)
  upsert_decoded-Kept p h (err e) = kept h
  upsert_decoded-Kept p h panics = kept h

  handle_update-Kept :
      (op : PeerUpdateOp) (h : Host X) (p : Peer) → Kept h (handle_update X op h p).0
  unfolding handle_update handle_discovery_upsert
  handle_update-Kept PeerUpdateOp.upsert h p = upsert_decoded-Kept p h (decode_peer_addr X p)
  handle_update-Kept PeerUpdateOp.remove_permanently h p = kept h
  handle_update-Kept PeerUpdateOp.nothing h p = kept h
  handle_update-Kept (PeerUpdateOp.other n) h p = kept h

  handle_decoded-Kept : (h : Host X) (r : Result Peer) → Kept h (handle_decoded X h r).0
  unfolding handle_decoded
  handle_decoded-Kept h (ok p) = handle_update-Kept p.op h p
  handle_decoded-Kept h (err e) = kept h
  handle_decoded-Kept h panics = kept h

  pub handle_discovery_entry-Kept :
      (h : Host X) (entry : Msg) → Kept h (handle_discovery_entry X h entry).0
  unfolding handle_discovery_entry
  handle_discovery_entry-Kept h entry = handle_decoded-Kept h _

  -- The store is one of feeds, and every handler stands for a feed.
  pub record IsHost (h : Host X) : Type 0 where
    pub store : IsStore X.badger X.hash h.store
    pub handlers :
        (uri : Bytes) (th : TopicHandler)
        → lookup uri h.handlers ≡ some th
        → OfFeed X.badger X.hash th.channel

  -- What a host stands on whose store holds a log.
  pub record Holds (log : List Posted) (h : Host X) : Type 0 where
    pub host : IsHost h
    pub entries : Represents X.badger X.proto X.hash log h.store.db

  pub Kept-Holds : (log : List Posted) (a b : Host X) → Kept a b → Holds log a → Holds log b
  Kept-Holds log a b k w = record {
    host = record {
      store = subst (IsStore X.badger X.hash) (sym k.store) w.host.store;
      handlers = λ uri th found. w.host.handlers uri th (ap (lookup uri) (sym k.handlers) ∙ found);
    };
    entries =
        subst (λ (s : Store X.badger). Represents X.badger X.proto X.hash log s.db) (sym k.store)
          w.entries;
  }
