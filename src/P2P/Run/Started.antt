-- ===== src/P2P/Run/Started.antt =====
-- A host that New has started, and what its loop joins.
use plan_vault_libp2p.Prelude.{
  ◌≡◌, ◌≢◌, refl, sym, ap, subst, ◌∙◌, List, [], none, some, true, false, Bytes, Slice, Bytes_eq,
  Result, ok, err, panics, >>=-eq-ok, ok-injective, insert, lookup, if◌then◌else◌,
}
use plan_vault_libp2p.Prelude.Maps.{lookup-insert_other}
use plan_vault_libp2p.Interfaces.Network.{Libraries}
use plan_vault_libp2p.Store.Channel.{Channel}
use plan_vault_libp2p.Store.Channels.{Store, Subscribed, channel}
use plan_vault_libp2p.Store.Channels.Registry.{IsRegistry, channel-Gives}
use plan_vault_libp2p.Keyring.{KeyRing}
use plan_vault_libp2p.P2P.{Host, TopicHandler, Acts, discovery}
use plan_vault_libp2p.P2P.Topics.{
  new_topic_handler, made_handler, then_subscribe, watch_topic, subscribed_topic,
}
use plan_vault_libp2p.P2P.Snapshots.{restore}
use plan_vault_libp2p.P2P.Run.{
  Event, Loop, Setup, run_loop, start_host, started_host, new_channel_discovery, discovered,
  restored,
}
use plan_vault_libp2p.P2P.Run.Blocked.{Same, restore_from-Same, FromStore, run_loop-Same}

module _ (X : Libraries) where
  -- The topic with the empty name is joined.
  abbrev Taken : Host X → Type 0
  Taken h = X.network.joined h.pubsub [] ≡ true

  then_subscribe-Taken :
      (h : Host X) (r : X.network.PubSub × Result (Unit {0}))
      → (r.1 ≡ ok tt → X.network.joined r.0 [] ≡ true)
      → (then_subscribe X [] h r).1 ≡ ok tt
      → Taken (then_subscribe X [] h r).0
  unfolding then_subscribe
  then_subscribe-Taken h (p, ok _) t e = X.network.joined-subscribe [] [] p (t refl)
  then_subscribe-Taken h (p, err x) t e = cc
  then_subscribe-Taken h (p, panics) t e = cc

  made_handler-Taken :
      (uuid : Bytes) (c : Channel) (start : Slice) (acts : Acts) (r : Host X × Result (Unit {0}))
      (h : Host X) (th : TopicHandler)
      → (r.1 ≡ ok tt → Taken r.0)
      → made_handler X uuid c start acts r ≡ (h, ok th)
      → Taken h × (h.handlers ≡ r.0.handlers)
  unfolding made_handler
  made_handler-Taken uuid c start acts (h', ok _) h th t e =
      let same_host = ap (λ (p : Host X × Result TopicHandler). p.0) e in
      subst (λ (k : Host X). Taken k × (k.handlers ≡ h'.handlers)) same_host (t refl, refl)
  made_handler-Taken uuid c start acts (h', err x) h th t e = cc
  made_handler-Taken uuid c start acts (h', panics) h th t e = cc

  then_subscribe-handlers :
      (uri : Bytes) (h : Host X) (r : X.network.PubSub × Result (Unit {0}))
      → (then_subscribe X uri h r).0.handlers ≡ h.handlers
  unfolding then_subscribe
  then_subscribe-handlers uri h (p, ok _) = refl
  then_subscribe-handlers uri h (p, err x) = refl
  then_subscribe-handlers uri h (p, panics) = refl

  new_topic_handler-Taken :
      (h h' : Host X) (c : Channel) (start : Slice) (acts : Acts) (uuid : Bytes) (th : TopicHandler)
      → c.uri ≡ []
      → new_topic_handler X h c start acts uuid ≡ (h', ok th)
      → Taken h' × (h'.handlers ≡ h.handlers)
  unfolding new_topic_handler
  new_topic_handler-Taken h h' c start acts uuid th empty e =
      let r = X.network.join [] h.pubsub in
      let e' : made_handler X uuid c start acts (then_subscribe X [] h r) ≡ (h', ok th) =
        ap
          (λ (u : Bytes).
            made_handler X uuid c start acts (then_subscribe X u h (X.network.join u h.pubsub)))
          (sym empty)
        ∙ e in
      let (t, kept) =
        made_handler-Taken uuid c start acts (then_subscribe X [] h r) h' th
          (then_subscribe-Taken h r (X.network.joined-join [] h.pubsub)) e' in
      (t, kept ∙ then_subscribe-handlers [] h r)

  subscribed_topic-kept :
      (id : Bytes) (k : Host X) (r : Result (Channel × Subscribed)) (k' : Host X)
      → subscribed_topic X id k r ≡ ok k'
      → (k'.pubsub ≡ k.pubsub) × (k'.handlers ≡ k.handlers)
  unfolding subscribed_topic
  subscribed_topic-kept id k (ok (c, what)) k' e =
      subst (λ (x : Host X). (x.pubsub ≡ k.pubsub) × (x.handlers ≡ k.handlers)) (ok-injective e)
        (refl, refl)
  subscribed_topic-kept id k (err x) k' e = cc
  subscribed_topic-kept id k panics k' e = cc

  watch_topic-kept :
      (th : TopicHandler) (h h' : Host X)
      → watch_topic X th h ≡ ok h'
      → (h'.pubsub ≡ h.pubsub) × (h'.handlers ≡ h.handlers)
  unfolding watch_topic
  watch_topic-kept th h h' e = subscribed_topic-kept _ _ _ h' e

  discovered-Taken :
      (h : Host X) (c : Channel) (uuid : Bytes) (d : Host X × TopicHandler)
      (r : Host X × Result TopicHandler)
      → c.uri ≡ []
      → new_topic_handler X h c (some []) discovery uuid ≡ r
      → discovered X r ≡ ok d
      → Taken d.0 × (d.0.handlers ≡ h.handlers)
  unfolding discovered
  discovered-Taken h c uuid d (k, ok th) empty made e =
      let (k', watched, last) = >>=-eq-ok (watch_topic X th k) _ e in
      let (t, hs) = new_topic_handler-Taken h k c (some []) discovery uuid th empty made in
      let (ps, hs') = watch_topic-kept th k k' watched in
      subst (λ (x : Host X × TopicHandler). Taken x.0 × (x.0.handlers ≡ h.handlers))
        (ok-injective last)
        (subst (λ (q : X.network.PubSub). X.network.joined q [] ≡ true) (sym ps) t, hs' ∙ hs)
  discovered-Taken h c uuid d (k, err x) empty made e = cc
  discovered-Taken h c uuid d (k, panics) empty made e = cc

  restored-Same :
      (h h' : Host X) (p : Host X × Result (Unit {0}))
      → Same X h p.0
      → restored X p ≡ ok h'
      → Same X h h'
  unfolding restored
  restored-Same h h' (k, ok _) s e = subst (λ (x : Host X). Same X h x) (ok-injective e) s
  restored-Same h h' (k, err x) s e = cc
  restored-Same h h' (k, panics) s e = cc

  restore-Same : (h : Host X) → Same X h (restore X h).0
  unfolding restore
  restore-Same h = restore_from-Same X h _ _

  new_channel_discovery-Taken :
      (cfg : Setup X) (s : Store X.badger) (kr : KeyRing X.keys.PrivKey)
      (node : Bytes × X.network.Net) (p : X.network.PubSub) (uuid : Bytes)
      (d : Host X × TopicHandler)
      → IsRegistry X.badger s
      → new_channel_discovery X (started_host X cfg s kr node p) cfg.uri uuid ≡ ok d
      → Taken d.0 × (d.0.handlers ≡ [])
  unfolding new_channel_discovery started_host
  new_channel_discovery-Taken cfg s kr node p uuid d made e =
      let id = X.hash.sum256 cfg.uri in
      discovered-Taken _ (channel X.badger id s).1 uuid d _
        (channel-Gives X.badger id s made).made.no_uri refl e

  -- A started host has taken the topic with the empty name, and its one handler is that of the
  -- discovery channel.
  start_host-Taken :
      (cfg : Setup X) (s : Store X.badger) (uuid : Bytes) (h : Host X)
      → IsRegistry X.badger s
      → start_host X cfg s uuid ≡ ok h
      → Taken h × ((th : TopicHandler) × (h.handlers ≡ insert cfg.uri th []))
  unfolding start_host
  start_host-Taken cfg s uuid h made e =
      let (kr, e1, k1) = >>=-eq-ok cfg.key_ring _ e in
      let (node, e2, k2) = >>=-eq-ok cfg.node _ k1 in
      let (p, e3, k3) = >>=-eq-ok cfg.gossip _ k2 in
      let (m, e4, k4) = >>=-eq-ok (if cfg.mdns then cfg.mdns_service else ok tt) _ k3 in
      let (d, discovers, k5) =
        >>=-eq-ok (new_channel_discovery X (started_host X cfg s kr node p) cfg.uri uuid) _ k4 in
      let (t, hs) = new_channel_discovery-Taken cfg s kr node p uuid d made discovers in
      let d' : Host X = record d.0 { handlers = insert cfg.uri d.1 d.0.handlers } in
      let r = restored-Same d' h (restore X d') (restore-Same d') k5 in
      (
        subst (λ (q : X.network.PubSub). X.network.joined q [] ≡ true) (sym r.pubsub) t,
        (d.1, r.handlers ∙ ap (insert cfg.uri d.1) hs),
      )

  -- When New has started a host on a store whose channels are as Store.Channel makes them, and the
  -- loop of watchTopics runs through any events whose channels are such channels too, then the
  -- handlers, the joined topics and the subscriptions are those of the start: no URI but that of
  -- the discovery channel has a handler.
  pub joins_no_channel :
      (cfg : Setup X) (s : Store X.badger) (uuid : Bytes) (h : Host X) (es : List Event)
      (l : Loop X)
      → IsRegistry X.badger s
      → start_host X cfg s uuid ≡ ok h
      → FromStore X es
      → run_loop X es (record { host = h; dirty = false; running = true }) ≡ ok l
      → Same X h l.host × ((uri : Bytes) → cfg.uri ≢ uri → lookup uri l.host.handlers ≡ none)
  unfolding lookup
  joins_no_channel cfg s uuid h es l made e from runs =
      let (t, (th, hs)) = start_host-Taken cfg s uuid h made e in
      let kept = run_loop-Same X es _ l from t runs in
      (
        kept,
        λ uri other.
            ap (lookup uri) (kept.handlers ∙ hs) ∙ lookup-insert_other cfg.uri uri th [] other,
      )
