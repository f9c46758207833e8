-- ===== src/P2P/Topics.antt =====
-- The topic handlers of p2p/topic_handler.go. The loop of watchTopic takes what the subscription
-- gives one after the other. Errors are logged, and the caller goes on; a panic ends the program.
pub mod Gossip
use plan_vault_libp2p.Prelude.{
  ℕ, suc, List, [], ◌∷◌, ◌++◌, Option, none, some, Bytes, Slice, Bytes_eq, ◌==◌, Error, Result, ok,
  err, panics, ◌>>=◌, insert, if◌then◌else◌,
}
use plan_vault_libp2p.Protos.{Msg, get_entry_id}
use plan_vault_libp2p.Interfaces.Network.{Libraries}
use plan_vault_libp2p.Store.Options.{StreamOpts, tail, opt_none}
use plan_vault_libp2p.Store.Channel.{Channel, Target, topic}
use plan_vault_libp2p.Store.Channels.{Store, Subscribed, channel, put_channel, subscribe}
use plan_vault_libp2p.Store.Entries
use plan_vault_libp2p.P2P.{Host, TopicHandler, Acts, discovery, feed}
use plan_vault_libp2p.P2P.Discovery.{handle_discovery_entry}

-- What `sub.Next` gives: a message with its sender and the Unix time at which it is handled, or an
-- error.
pub data Incoming : Type 0 where
  failed : Error → Incoming
  message : Bytes → Bytes → ℕ → Incoming

module _ (X : Libraries) where
  -- The handler that is made once the topic is joined and subscribed to.
  unfoldable pub made_handler :
      Bytes → Channel → Slice → Acts → Host X × Result (Unit {0}) → Host X × Result TopicHandler
  made_handler uuid c start acts (h, ok _) = (
    record h { next_ctx = suc h.next_ctx },
    ok (record {
      id = uuid;
      channel = c;
      topic = c.uri;
      ctx = h.next_ctx;
      acts = acts;
      last_entry_id = start;
    }),
  )
  made_handler uuid c start acts (h, err e) = (h, err e)
  made_handler uuid c start acts (h, panics) = (h, panics)

  -- topic.Subscribe, after a Join.
  unfoldable pub then_subscribe :
      Bytes → Host X → X.network.PubSub × Result (Unit {0}) → Host X × Result (Unit {0})
  then_subscribe uri h (p, ok _) =
      let (q, r) = X.network.subscribe uri p in (record h { pubsub = q }, r)
  then_subscribe uri h (p, err e) = (record h { pubsub = p }, err e)
  then_subscribe uri h (p, panics) = (record h { pubsub = p }, panics)

  -- The topic is named by the URI of the channel. A topic that was joined stays joined when the
  -- subscription fails.
  unfoldable pub new_topic_handler :
      Host X → Channel → Slice → Acts → Bytes → Host X × Result TopicHandler
  unfolding made_handler then_subscribe
  new_topic_handler h c start acts uuid =
      made_handler uuid c start acts (then_subscribe c.uri h (X.network.join c.uri h.pubsub))

  unfoldable pub subscribed_topic : Bytes → Host X → Result (Channel × Subscribed) → Result (Host X)
  subscribed_topic id h (ok (c, what)) = ok (record h {
    store = put_channel X.badger c h.store;
    subscriptions = h.subscriptions ++ (id, what) ∷ [];
  })
  subscribed_topic id h (err e) = err e
  subscribed_topic id h panics = panics

  -- watchTopic up to its loop: the subscription to the channel, from the last entry ID on.
  unfoldable pub watch_topic : TopicHandler → Host X → Result (Host X)
  unfolding subscribed_topic
  watch_topic th h =
      let (s, c) = channel X.badger th.channel.id h.store in
      let opts : StreamOpts = record { seek = th.last_entry_id; max = tail; flags = opt_none } in
      subscribed_topic c.id (record h { store = s }) (subscribe c th.ctx (topic th.id) (some opts))

  -- An error of a handler's function is logged or dropped.
  abbrev pub dropped : Host X × Result (Unit {0}) → Result (Host X)
  dropped (h, panics) = panics
  dropped (h, _) = ok h

  unfoldable pub appended : Host X → X.badger.Db × Result Bytes → Host X × Result (Unit {0})
  appended h (db, r) = (record h { store = record h.store { db = db } }, r >>= λ _. ok tt)

  unfoldable pub on_receive : TopicHandler → Acts → ℕ → Msg → Host X → Host X × Result (Unit {0})
  unfolding appended
  on_receive th discovery unix entry h = handle_discovery_entry X h entry
  on_receive th feed unix entry h =
      appended h
        (Entries.append X.badger X.proto th.channel unix (some entry) h.store.db h.store.db)

  unfoldable pub on_publish : Acts → Msg → Host X → Host X × Result (Unit {0})
  on_publish discovery entry h = handle_discovery_entry X h entry
  on_publish feed entry h = (record h { signals = suc h.signals }, ok tt)

  -- A message that does not decode is logged and passed over.
  unfoldable pub decoded : TopicHandler → ℕ → Host X → Result Msg → Result (Host X)
  unfolding on_receive
  decoded th unix h (ok entry) = dropped (on_receive th th.acts unix entry h)
  decoded th unix h (err e) = ok h
  decoded th unix h panics = panics

  -- One round of the loop of watchTopic. The host passes over its own messages.
  unfoldable pub receive : TopicHandler → Incoming → Host X → Result (Host X)
  unfolding decoded
  receive th (failed e) h = ok h
  receive th (message sender body unix) h =
      if sender == h.self then ok h else decoded th unix h (X.proto.unmarshal body)

  -- An entry that cannot be marshalled is published as an empty message.
  abbrev pub body_or_nil : Result Bytes → Result Slice
  body_or_nil (ok b) = ok (some b)
  body_or_nil (err e) = ok none
  body_or_nil panics = panics

  -- Publish, for the handler that stands in the host's map at `uri`.
  unfoldable pub publish : Bytes → TopicHandler → Msg → Host X → Result (Host X)
  unfolding on_publish
  publish uri th entry h = do
    body ← body_or_nil (X.proto.marshal entry)
    let sent : Host X = record h { pubsub = X.network.publish th.topic body h.pubsub }
    h' ← dropped (on_publish th.acts entry sent)
    ok (record h' {
      handlers =
          insert uri (record th { last_entry_id = get_entry_id entry.entry_header }) h'.handlers;
    })

  -- Done: the subscription and the context of the handler are cancelled.
  unfoldable pub done : TopicHandler → Host X → Host X
  done th h = record h { cancelled = h.cancelled ++ th.ctx ∷ [] }
