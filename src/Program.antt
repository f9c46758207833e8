-- ===== src/Program.antt =====
-- The running program: the sessions of server/server.go, the host of p2p/host.go with its topic
-- handlers and its loop, and the subscriptions, all on the one Store that main.go hands to them. A
-- step is a call that one of the goroutines makes; calls come in any order, and a call that panics
-- ends the program. A restart finds the content that the database had, and nothing else.
pub mod Refinement
pub mod Acknowledged
pub mod Delivered
use plan_vault_libp2p.Prelude.{
  ℕ, ◌≡◌, List, [], ◌∷◌, ◌++◌, Option, none, some, Bool, false, Bytes, Dict, Bytes_eq, Result, ok,
  lookup, insert,
}
use plan_vault_libp2p.Protos.{Msg, FeedReq}
use plan_vault_libp2p.Interfaces.Network.{Libraries, AddrInfo}
use plan_vault_libp2p.Store.Channel.{Channel, Subscriber}
use plan_vault_libp2p.Store.Channels
use plan_vault_libp2p.Store.Channels.{Store, Subscribed, put_channel, unsubscribe}
use plan_vault_libp2p.Server.Session.{Connection, Vault, new_connection, handle}
use plan_vault_libp2p.P2P.{Host, TopicHandler}
use plan_vault_libp2p.P2P.Topics.{Incoming, receive, publish}
use plan_vault_libp2p.P2P.Run.{Event, Loop, Setup, loop_event, start_host, handle_peer_found}
use plan_vault_libp2p.P2P.Logged.Hearing.{brought}
use plan_vault_libp2p.P2P.Logged.Looping.{Tells}

module _ (X : Libraries) where
  -- `served` are the subscriptions that the server has made.
  pub record Program : Type 0 where
    pub loop : Loop X
    pub conns : Dict Bytes Connection
    pub served : List (Bytes × Subscribed)

  -- The program after New of the host.
  abbrev pub program : Host X → Program
  program h = record {
    loop = record { host = h; dirty = false; running = Bool.true };
    conns = [];
    served = [];
  }

  abbrev with_host : Host X → Program → Program
  with_host h w = record w { loop = record w.loop { host = h } }

  abbrev with_store : Store X.badger → Program → Program
  with_store s w = with_host (record w.loop.host { store = s }) w

  -- What the session of a connection works on.
  abbrev pub vault_of : Connection → Program → Vault X.badger X.proto X.hash
  vault_of conn w = record { store = w.loop.host.store; conn = conn; subscriptions = w.served }

  abbrev pub with_vault : Vault X.badger X.proto X.hash → Program → Program
  with_vault v w =
      let k : Program = with_store v.store w in
      record k { conns = insert v.conn.id v.conn w.conns; served = v.subscriptions }

  -- What is seen of a step: the reply to a request that was handled at a Unix time, or an entry
  -- that came from a peer, with its time, and the channel of its topic.
  pub data Seen : Type 0 where
    nothing : Seen
    replied : ℕ → FeedReq → Result Msg → Seen
    heard : Option (ℕ × Msg) → Channel → Seen

  pub data Step (w : Program) : Seen → Program → Type 0 where
    connects :
        (uuid : Bytes)
        → Step w nothing (record w { conns = insert uuid (new_connection uuid) w.conns })
    requests :
        (conn : Connection) (unix : ℕ) (req : FeedReq)
        → lookup conn.id w.conns ≡ some conn
        → Step w
            (replied unix req (handle X.badger X.proto X.hash unix req (vault_of conn w)).1)
            (with_vault (handle X.badger X.proto X.hash unix req (vault_of conn w)).0 w)
    unsubscribes :
        (id : Bytes) (c : Channel) (sub : Subscriber)
        → lookup id w.loop.host.store.channels ≡ some c
        → Step w nothing (with_store (put_channel X.badger (unsubscribe c sub) w.loop.host.store) w)
    hears :
        (uri : Bytes) (th : TopicHandler) (i : Incoming) (h : Host X)
        → lookup uri w.loop.host.handlers ≡ some th
        → receive X th i w.loop.host ≡ ok h
        → Step w (heard (brought X w.loop.host th.acts i) th.channel) (with_host h w)
    publishes :
        (uri : Bytes) (th : TopicHandler) (entry : Msg) (h : Host X)
        → lookup uri w.loop.host.handlers ≡ some th
        → publish X uri th entry w.loop.host ≡ ok h
        → Step w nothing (with_host h w)
    loops :
        (e : Event) (l : Loop X)
        → Tells X w.loop.host e
        → loop_event X w.loop e ≡ ok l
        → Step w nothing (record w { loop = l })
    finds :
        (info : AddrInfo X.network.Multiaddr)
        → Step w nothing (with_host (handle_peer_found X info w.loop.host) w)
    restarts :
        (cfg : Setup X) (has_discovery : Bool) (s : Store X.badger) (uuid : Bytes) (h : Host X)
        → Channels.new X.badger (ok w.loop.host.store.db) has_discovery ≡ ok s
        → start_host X cfg s uuid ≡ ok h
        → Step w nothing (program h)

  pub data Reach (w : Program) : List Seen → Program → Type 0 where
    start : Reach w [] w
    later :
        {mid last : Program} {x : Seen} {xs : List Seen}
        → Reach w xs mid
        → Step mid x last
        → Reach w (xs ++ x ∷ []) last
