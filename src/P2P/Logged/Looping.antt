-- ===== src/P2P/Logged/Looping.antt =====
-- What the loop of watchTopics, the peers that it connects to, and Publish make of the store and of
-- the handlers of a host.
use plan_vault_libp2p.Prelude.{
  ℕ, suc, ◌≡◌, refl, sym, ap, subst, inl, inr, List, [], none, some, Bool, true, false, Bytes,
  Slice, Bytes_eq, ◌==◌, Result, ok, err, panics, >>=-eq-ok, ok-injective, lookup, insert,
  Bool-cases, Option-cases, eq_of_some,
}
use plan_vault_libp2p.Prelude.Maps.{lookup-insert}
use plan_vault_libp2p.Protos.{PubsubState}
use plan_vault_libp2p.Interfaces.Network.{Libraries}
use plan_vault_libp2p.Store.Channel.{Channel, topic}
use plan_vault_libp2p.Store.Channels.{Subscribed, channel, put_channel}
use plan_vault_libp2p.Store.Channels.Registry.{IsMade, channel-Gives}
use plan_vault_libp2p.Store.Channels.Hashed.{
  Hashed, OfFeed, with_db-IsStore, channel-IsStore, put_channel-IsStore, OfFeed-Hashed,
  registered-OfFeed,
}
use plan_vault_libp2p.Log.{Posted}
use plan_vault_libp2p.Log.Refinement.{Represents, upsert-Represents}
use plan_vault_libp2p.P2P.{Host, TopicHandler, Acts, feed}
use plan_vault_libp2p.P2P.Topics.{
  watch_topic, subscribed_topic, new_topic_handler, then_subscribe, made_handler,
}
use plan_vault_libp2p.P2P.Logged.{Kept, kept, Kept-Kept, Holds, Kept-Holds}
use plan_vault_libp2p.Store.Channels.Subscriptions.{subscribe-IsMade}
use plan_vault_libp2p.P2P.Snapshots.{
  snapshot, take_snapshot, write_taken, write_snapshot, put_snapshot, written,
}
use plan_vault_libp2p.P2P.Run.{
  Event, update, signalled, tick, ctx_done, Loop, loop_event, join_channel, joined_channel,
  after_tick,
}

module _ (X : Libraries) where
  then_subscribe-Kept :
      (uri : Bytes) (h : Host X) (r : X.network.PubSub × Result (Unit {0}))
      → Kept X h (then_subscribe X uri h r).0
  unfolding then_subscribe
  then_subscribe-Kept uri h (p, ok _) = record { store = refl; handlers = refl }
  then_subscribe-Kept uri h (p, err x) = record { store = refl; handlers = refl }
  then_subscribe-Kept uri h (p, panics) = record { store = refl; handlers = refl }

  -- A handler stands for the channel that it is made for.
  made_handler-Kept :
      (uuid : Bytes) (c : Channel) (start : Slice) (acts : Acts) (r : Host X × Result (Unit {0}))
      → Kept X r.0 (made_handler X uuid c start acts r).0
        × ((th : TopicHandler) → (made_handler X uuid c start acts r).1 ≡ ok th → th.channel ≡ c)
  unfolding made_handler
  made_handler-Kept uuid c start acts (h, ok _) = (
    record { store = refl; handlers = refl },
    λ th e. ap (λ (t : TopicHandler). t.channel) (sym (ok-injective e)),
  )
  made_handler-Kept uuid c start acts (h, err x) = (kept X h, λ th e. cc)
  made_handler-Kept uuid c start acts (h, panics) = (kept X h, λ th e. cc)

  pub new_topic_handler-Kept :
      (h : Host X) (c : Channel) (start : Slice) (acts : Acts) (uuid : Bytes)
      → let q = new_topic_handler X h c start acts uuid in
        Kept X h q.0 × ((th : TopicHandler) → q.1 ≡ ok th → th.channel ≡ c)
  unfolding new_topic_handler
  new_topic_handler-Kept h c start acts uuid =
      let r = then_subscribe X c.uri h (X.network.join c.uri h.pubsub) in
      let (k, of) = made_handler-Kept uuid c start acts r in
      (Kept-Kept X h r.0 _ (then_subscribe-Kept c.uri h (X.network.join c.uri h.pubsub)) k, of)

  subscribed_topic-Holds :
      (log : List Posted) (id i : Bytes) (h h' : Host X) (r : Result (Channel × Subscribed))
      → Hashed X.badger X.hash i
      → ((c : Channel) (what : Subscribed) → r ≡ ok (c, what) → IsMade i c)
      → Holds X log h
      → subscribed_topic X id h r ≡ ok h'
      → Holds X log h'
  unfolding subscribed_topic put_channel
  subscribed_topic-Holds log id i h h' (ok (c, what)) of made w e =
      subst (Holds X log) (ok-injective e) (record {
        host = record {
          store =
              put_channel-IsStore X.badger X.hash i c h.store (made c what refl) of w.host.store;
          handlers = w.host.handlers;
        };
        entries = w.entries;
      })
  subscribed_topic-Holds log id i h h' (err x) of made w e = cc
  subscribed_topic-Holds log id i h h' panics of made w e = cc

  pub watch_topic-Holds :
      (log : List Posted) (th : TopicHandler) (h h' : Host X)
      → OfFeed X.badger X.hash th.channel
      → Holds X log h
      → watch_topic X th h ≡ ok h'
      → Holds X log h'
  unfolding watch_topic
  watch_topic-Holds log th h h' of w e =
      let id : Bytes = th.channel.id in
      let gives = channel-Gives X.badger id h.store w.host.store.registry in
      subscribed_topic-Holds log _ id _ h' _ (OfFeed-Hashed X.badger X.hash th.channel of)
        (subscribe-IsMade id (channel X.badger id h.store).1 th.ctx (topic th.id) _ gives.made)
        (record {
          host = record {
            store =
                channel-IsStore X.badger X.hash id h.store
                  (OfFeed-Hashed X.badger X.hash th.channel of) w.host.store;
            handlers = w.host.handlers;
          };
          entries = subst (Represents X.badger X.proto X.hash log) (sym gives.same_db) w.entries;
        })
        e

  -- A handler of a feed is registered.
  pub insert-Holds :
      (log : List Posted) (uri : Bytes) (th : TopicHandler) (h : Host X) (n : ℕ)
      → OfFeed X.badger X.hash th.channel
      → Holds X log h
      → Holds X log (record h { handlers = insert uri th h.handlers; signals = n })
  insert-Holds log uri th h n of w = record {
    host = record {
      store = w.host.store;
      handlers = λ u t found. elim (Bool-cases (uri == u)) [
        | inl same ↦
            subst (λ (s : TopicHandler). OfFeed X.badger X.hash s.channel)
              (eq_of_some (rw (lookup-insert uri u th h.handlers, same) at found)) of
        | inr apart ↦ w.host.handlers u t (rw (lookup-insert uri u th h.handlers, apart) at found)
      ];
    };
    entries = w.entries;
  }

  joined_channel-Holds :
      (log : List Posted) (uri : Bytes) (h' : Host X) (r : Host X × Result TopicHandler)
      → ((th : TopicHandler) → r.1 ≡ ok th → OfFeed X.badger X.hash th.channel)
      → Holds X log r.0
      → joined_channel X uri r ≡ ok h'
      → Holds X log h'
  unfolding joined_channel
  joined_channel-Holds log uri h' (h, ok th) of w e =
      watch_topic-Holds log th _ h' (of th refl)
        (insert-Holds log uri th h (suc h.signals) (of th refl) w) e
  joined_channel-Holds log uri h' (h, err x) of w e = subst (Holds X log) (ok-injective e) w
  joined_channel-Holds log uri h' (h, panics) of w e = cc

  join_channel-Holds :
      (log : List Posted) (h h' : Host X) (c : Channel) (start : Slice) (uuid : Bytes)
      → OfFeed X.badger X.hash c
      → Holds X log h
      → join_channel X h c start uuid ≡ ok h'
      → Holds X log h'
  unfolding join_channel
  join_channel-Holds log h h' c start uuid of w e = elim (Option-cases (lookup c.uri h.handlers)) [
    | inl absent ↦
        let (k, is) = new_topic_handler-Kept h c start feed uuid in
        joined_channel-Holds log c.uri h' _
          (λ th made. subst (OfFeed X.badger X.hash) (sym (is th made)) of)
          (Kept-Holds X log h _ k w) (rw (absent, join_channel) at e)
    | inr (th, there) ↦ subst (Holds X log) (ok-injective (rw (there, join_channel) at e)) w
  ]

  put_snapshot-Holds :
      (log : List Posted) (h : Host X) (r : Result Bytes)
      → Holds X log h
      → Holds X log (put_snapshot X h r).0
  unfolding put_snapshot written
  put_snapshot-Holds log h (ok body) w = record {
    host = record {
      store = with_db-IsStore X.badger X.hash h.store _ w.host.store;
      handlers = w.host.handlers;
    };
    entries =
        upsert-Represents X.badger X.proto X.hash log _ h.store.db h.store.db _ _ w.entries refl;
  }
  put_snapshot-Holds log h (err x) w = w
  put_snapshot-Holds log h panics w = w

  snapshot-Holds :
      (log : List Posted) (dirty : Bool) (h : Host X)
      → Holds X log h
      → Holds X log (snapshot X dirty h).0
  unfolding snapshot write_snapshot
  snapshot-Holds log false h w = w
  snapshot-Holds log true h w = of_taken (take_snapshot X h)
    where
      of_taken : (r : Result PubsubState) → Holds X log (write_taken X h r).0
      of_taken (ok snap) = put_snapshot-Holds log h (X.state_proto.marshal_state snap) w
      of_taken (err x) = w
      of_taken panics = w

  -- What the store tells the loop.
  abbrev pub Tells : Host X → Event → Type 0
  Tells h (update (some c) uuid) = (id : Bytes) × (lookup id h.store.channels ≡ some c)
  Tells h _ = Unit {0}

  -- Whatever the loop of watchTopics gets, the store of the host holds the log that it held: a
  -- round of the loop neither adds an entry of a feed nor changes or loses one.
  pub loop_event-Holds :
      (log : List Posted) (l l' : Loop X) (e : Event)
      → Tells l.host e
      → Holds X log l.host
      → loop_event X l e ≡ ok l'
      → Holds X log l'.host
  unfolding loop_event
  loop_event-Holds log l l' (update none uuid) t w e =
      subst (λ (k : Loop X). Holds X log k.host) (ok-injective e) w
  loop_event-Holds log l l' (update (some c) uuid) (id, found) w e =
      let (h, joined, last) = >>=-eq-ok (join_channel X l.host c (some []) uuid) _ e in
      subst (λ (k : Loop X). Holds X log k.host) (ok-injective last)
        (join_channel-Holds log l.host h c (some []) uuid
          (registered-OfFeed X.badger X.hash l.host.store id c w.host.store found) w joined)
  loop_event-Holds log l l' signalled t w e =
      subst (λ (k : Loop X). Holds X log k.host) (ok-injective e)
        (Kept-Holds X log l.host _ (record { store = refl; handlers = refl }) w)
  loop_event-Holds log l l' tick t w e =
      after_tick-Holds (snapshot X l.dirty l.host) (snapshot-Holds log l.dirty l.host w) e
    where
      after_tick-Holds :
          (r : Host X × Result (Unit {0}))
          → Holds X log r.0
          → after_tick X l r ≡ ok l'
          → Holds X log l'.host
      after_tick-Holds (h, ok _) w' e' =
          subst (λ (k : Loop X). Holds X log k.host) (ok-injective e') w'
      after_tick-Holds (h, err x) w' e' =
          subst (λ (k : Loop X). Holds X log k.host) (ok-injective e') w'
      after_tick-Holds (h, panics) w' e' = cc
  loop_event-Holds log l l' ctx_done t w e =
      subst (λ (k : Loop X). Holds X log k.host) (ok-injective e) w
