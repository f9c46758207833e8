-- ===== src/P2P/Run/Blocked.antt =====
-- What becomes of the channels that a host is told to join: their URIs are empty, as the store
-- leaves them.
use plan_vault_libp2p.Prelude.{
  ◌≡◌, refl, sym, ap, subst, ◌∙◌, inl, inr, List, [], ◌∷◌, Option, none, some, Bool, true, false,
  Bytes, Slice, Bytes_eq, Error, Result, ok, err, panics, ◌>>=◌, >>=-eq-ok, ok-injective, lookup,
  Bool-cases, Option-cases,
}
use plan_vault_libp2p.Protos.{Peer, PubsubState}
use plan_vault_libp2p.Interfaces.Network.{Libraries, AddrInfo}
use plan_vault_libp2p.Store.Channel.{Channel}
use plan_vault_libp2p.Store.Channels.Registry.{IsMade}
use plan_vault_libp2p.P2P.{Host, TopicHandler, Acts, feed}
use plan_vault_libp2p.P2P.Peers.{decode_peer_addr}
use plan_vault_libp2p.P2P.Discovery.{handle_discovery_upsert, upsert_decoded, add_peer}
use plan_vault_libp2p.P2P.Topics.{new_topic_handler, made_handler, then_subscribe}
use plan_vault_libp2p.P2P.Snapshots.{
  snapshot, restore_from, restore_peers, take_snapshot, write_taken, put_snapshot,
}
use plan_vault_libp2p.P2P.Run.{
  Event, update, signalled, tick, ctx_done, Loop, join_channel, joined_channel, loop_event,
  after_tick, run_loop,
}

module _ (X : Libraries) where
  -- The handlers, the topics and the subscriptions are the same.
  pub record Same (a b : Host X) : Type 0 where
    pub handlers : b.handlers ≡ a.handlers
    pub pubsub : b.pubsub ≡ a.pubsub
    pub subscriptions : b.subscriptions ≡ a.subscriptions

  pub same : (h : Host X) → Same h h
  same h = record { handlers = refl; pubsub = refl; subscriptions = refl }

  Same-Same : (a b c : Host X) → Same a b → Same b c → Same a c
  Same-Same a b c s t = record {
    handlers = t.handlers ∙ s.handlers;
    pubsub = t.pubsub ∙ s.pubsub;
    subscriptions = t.subscriptions ∙ s.subscriptions;
  }

  add_peer-Same :
      (p : Peer) (info : AddrInfo X.network.Multiaddr) (h : Host X)
      (r : X.network.Net × Result (Unit {0}))
      → Same h (add_peer X p info h r).0
  unfolding add_peer
  add_peer-Same p info h (net, ok _) = record {
    handlers = refl;
    pubsub = refl;
    subscriptions = refl;
  }
  add_peer-Same p info h (net, err e) = record {
    handlers = refl;
    pubsub = refl;
    subscriptions = refl;
  }
  add_peer-Same p info h (net, panics) = record {
    handlers = refl;
    pubsub = refl;
    subscriptions = refl;
  }

  upsert_decoded-Same :
      (p : Peer) (h : Host X) (r : Result (AddrInfo X.network.Multiaddr))
      → Same h (upsert_decoded X p h r).0
  unfolding upsert_decoded
  upsert_decoded-Same p h (ok info) = add_peer-Same p info h (X.network.connect info h.net)
  upsert_decoded-Same p h (err e) = same h
  upsert_decoded-Same p h panics = same h

  restore_peers-Same :
      (ps : List Peer) (h : Host X) (r : Result (Unit {0})) → Same h (restore_peers X ps (h, r)).0
  unfolding restore_peers handle_discovery_upsert
  restore_peers-Same [] h r = same h
  restore_peers-Same (p ∷ ps) h (ok _) =
      let s = upsert_decoded-Same p h (decode_peer_addr X p) in
      Same-Same h (handle_discovery_upsert X h p).0 _ s
        (restore_peers-Same ps (handle_discovery_upsert X h p).0 (handle_discovery_upsert X h p).1)
  restore_peers-Same (p ∷ ps) h (err e) = same h
  restore_peers-Same (p ∷ ps) h panics = same h

  pub restore_from-Same :
      (h : Host X) (disc : Option TopicHandler) (r : Result PubsubState)
      → Same h (restore_from X h disc r).0
  unfolding restore_from
  restore_from-Same h (some disc) (ok snap) = restore_peers-Same snap.peers h (ok tt)
  restore_from-Same h none (ok snap) = same h
  restore_from-Same h (some disc) (err e) = same h
  restore_from-Same h none (err e) = same h
  restore_from-Same h (some disc) panics = same h
  restore_from-Same h none panics = same h

  snapshot-Same : (dirty : Bool) (h : Host X) → Same h (snapshot X dirty h).0
  unfolding snapshot
  snapshot-Same false h = same h
  snapshot-Same true h = write_taken-Same h (take_snapshot X h)
    where
      put_snapshot-Same : (h : Host X) (r : Result Bytes) → Same h (put_snapshot X h r).0
      put_snapshot-Same h (ok body) = record {
        handlers = refl;
        pubsub = refl;
        subscriptions = refl;
      }
      put_snapshot-Same h (err e) = same h
      put_snapshot-Same h panics = same h

      write_taken-Same : (h : Host X) (r : Result PubsubState) → Same h (write_taken X h r).0
      write_taken-Same h (ok snap) = put_snapshot-Same h (X.state_proto.marshal_state snap)
      write_taken-Same h (err e) = same h
      write_taken-Same h panics = same h

  refused :
      (h : Host X) (c : Channel) (start : Slice) (acts : Acts) (uuid : Bytes)
      → c.uri ≡ []
      → X.network.joined h.pubsub [] ≡ true
      → (e : Error) × (new_topic_handler X h c start acts uuid ≡ (h, err e))
  unfolding new_topic_handler then_subscribe made_handler
  refused h c start acts uuid empty taken =
      let (e, fails) = X.network.join_taken [] h.pubsub taken in
      (
        e,
        ap
            (λ (r : X.network.PubSub × Result (Unit {0})).
              made_handler X uuid c start acts (then_subscribe X c.uri h r))
            (ap (λ (u : Bytes). X.network.join u h.pubsub) empty ∙ fails),
      )

  -- A channel without a URI cannot be joined once the topic with the empty name is taken.
  join_channel-taken :
      (h : Host X) (c : Channel) (start : Slice) (uuid : Bytes)
      → c.uri ≡ []
      → X.network.joined h.pubsub [] ≡ true
      → join_channel X h c start uuid ≡ ok h
  unfolding joined_channel join_channel
  join_channel-taken h c start uuid empty taken =
      let (e, fails) = refused h c start feed uuid empty taken in
      elim (Option-cases (lookup c.uri h.handlers)) [
        | inl none_there ↦ rw (none_there, join_channel) (ap (joined_channel X c.uri) fails)
        | inr (th, there) ↦ rw (there, join_channel) refl
      ]

  -- The channels that the events bring are as Store.Channel makes them.
  abbrev pub FromStore : List Event → Type 0
  FromStore [] = Unit
  FromStore (update (some c) uuid ∷ es) = IsMade c.id c × FromStore es
  FromStore (_ ∷ es) = FromStore es

  after_tick-Same :
      (l l' : Loop X) (p : Host X × Result (Unit {0}))
      → Same l.host p.0
      → after_tick X l p ≡ ok l'
      → Same l.host l'.host
  unfolding after_tick
  after_tick-Same l l' (h, ok _) s e = subst (λ (k : Loop X). Same l.host k.host) (ok-injective e) s
  after_tick-Same l l' (h, err x) s e =
      subst (λ (k : Loop X). Same l.host k.host) (ok-injective e) s
  after_tick-Same l l' (h, panics) s e = cc

  loop_event-Same :
      (l l' : Loop X) (e : Event)
      → FromStore (e ∷ [])
      → X.network.joined l.host.pubsub [] ≡ true
      → loop_event X l e ≡ ok l'
      → Same l.host l'.host
  unfolding loop_event
  loop_event-Same l l' (update none uuid) n t h =
      subst (λ (k : Loop X). Same l.host k.host) (ok-injective h) (same l.host)
  loop_event-Same l l' (update (some c) uuid) n t h =
      let e : ok l ≡ ok l' =
        ap (λ (r : Result (Host X)). r >>= λ (k : Host X). ok (record l { host = k }))
          (sym (join_channel-taken l.host c (some []) uuid n.0.no_uri t))
        ∙ h in
      subst (λ (k : Loop X). Same l.host k.host) (ok-injective e) (same l.host)
  loop_event-Same l l' signalled n t h =
      subst (λ (k : Loop X). Same l.host k.host) (ok-injective h)
        (record { handlers = refl; pubsub = refl; subscriptions = refl })
  loop_event-Same l l' tick n t h =
      after_tick-Same l l' (snapshot X l.dirty l.host) (snapshot-Same l.dirty l.host) h
  loop_event-Same l l' ctx_done n t h =
      subst (λ (k : Loop X). Same l.host k.host) (ok-injective h) (same l.host)

  FromStore-split :
      (e : Event) (es : List Event) → FromStore (e ∷ es) → FromStore (e ∷ []) × FromStore es
  FromStore-split (update none uuid) es n = (tt, n)
  FromStore-split (update (some c) uuid) es n = ((n.0, tt), n.1)
  FromStore-split signalled es n = (tt, n)
  FromStore-split tick es n = (tt, n)
  FromStore-split ctx_done es n = (tt, n)

  pub run_loop-Same :
      (es : List Event) (l l' : Loop X)
      → FromStore es
      → X.network.joined l.host.pubsub [] ≡ true
      → run_loop X es l ≡ ok l'
      → Same l.host l'.host
  unfolding run_loop
  run_loop-Same [] l l' n t h =
      subst (λ (k : Loop X). Same l.host k.host) (ok-injective h) (same l.host)
  run_loop-Same (e ∷ es) l l' n t h = elim (Bool-cases l.running) [
    | inr stopped ↦
        subst (λ (k : Loop X). Same l.host k.host) (ok-injective (rw (stopped, run_loop) at h))
          (same l.host)
    | inl runs ↦
        let (l₁, first, rest) = >>=-eq-ok (loop_event X l e) _ (rw (runs, run_loop) at h) in
        let (now, later) = FromStore-split e es n in
        let s₁ = loop_event-Same l l₁ e now t first in
        Same-Same l.host l₁.host l'.host s₁ (
          run_loop-Same es l₁ l' later
            (subst (λ (p : X.network.PubSub). X.network.joined p [] ≡ true) (sym s₁.pubsub) t) rest)
  ]
