-- ===== src/Server/Session/Opening.antt =====
-- What opening a feed does to the store, the connection and the subscriptions.
use plan_vault_libp2p.Prelude.{
  ℕ, suc, ◌≡◌, ◌≢◌, refl, sym, ap, subst, ◌∙◌, inl, inr, [], ◌∷◌, ◌++◌, Option, none, some, ℕ_eq,
  Bytes, Bytes_eq, ◌==◌, Result, ok, panics, lookup, insert, Bool-cases, Option-cases,
  if◌then◌else◌,
}
use plan_vault_libp2p.Prelude.Maps.{lookup-insert, lookup-insert_self, lookup-insert_other}
use plan_vault_libp2p.Protos.{Msg, FeedReq, OpenFeedReq, StreamMode}
use plan_vault_libp2p.Interfaces.{Badger, Proto, Hash}
use plan_vault_libp2p.Store.Options.{StreamOpts}
use plan_vault_libp2p.Store.Channel.{Channel, Subscriber, Target, stream, new_channel}
use plan_vault_libp2p.Store.Channels.{
  Store, Subscribed, started, resets, channel, subscribe, put_channel,
}
use plan_vault_libp2p.Store.Channels.Registry.{IsRegistry, channel-Gives, channel-old, channel-new}
use plan_vault_libp2p.Store.Channels.Subscriptions.{
  subscribe-old, subscribe-fresh, subscribe_nil, first_subscriber, with_subscriber,
}
use plan_vault_libp2p.Server.Options.{new_stream_opts}
use plan_vault_libp2p.Server.Modes.{new_stream_opts_lem}
use plan_vault_libp2p.Server.Session.{
  Vault, open_feed, open_at, open_checked, subscribed, working_reply,
}

module _ (B : Badger) where
  -- On the channel with this id, the connection has the subscriber; or it has none.
  abbrev pub HasSubscriber : Store B → Bytes → Bytes → Subscriber → Type 0
  HasSubscriber s id conn sub =
      (c : Channel) × (lookup id s.channels ≡ some c) × (lookup conn c.subscribers ≡ some sub)

  abbrev pub NoSubscriber : Store B → Bytes → Bytes → Type 0
  NoSubscriber s id conn =
      (c : Channel) → lookup id s.channels ≡ some c → lookup conn c.subscribers ≡ none

  had_subscriber :
      (s : Store B) (id conn : Bytes) (sub : Subscriber)
      → lookup conn (channel B id s).1.subscribers ≡ some sub
      → HasSubscriber s id conn sub
  unfolding new_channel lookup
  had_subscriber s id conn sub e = elim (Option-cases (lookup id s.channels)) [
    | inl fresh ↦
        cc (
          ap (λ (p : Store B × Channel). lookup conn p.1.subscribers) (channel-new B id s fresh),
          e,
        )
    | inr (c, known) ↦ (
      c,
      known,
      ap (λ (p : Store B × Channel). lookup conn p.1.subscribers) (sym (channel-old B id s c known))
          ∙ e,
    )
  ]

  had_none :
      (s : Store B) (id conn : Bytes)
      → lookup conn (channel B id s).1.subscribers ≡ none
      → NoSubscriber s id conn
  had_none s id conn e c known =
      ap (λ (p : Store B × Channel). lookup conn p.1.subscribers) (sym (channel-old B id s c known))
      ∙ e

module _ (B : Badger) (P : Proto) (H : Hash) where
  -- The three ways in which request `n` to open `q` ends.
  pub data Outcome (n : ℕ) (q : OpenFeedReq) (v v' : Vault B P H) (reply : Result Msg)
      : Type 0 where
    starts :
        (o : StreamOpts) (sub : Subscriber)
        → sub ≡ first_subscriber v.conn.next_ctx (stream v.conn.id n) o
        → NoSubscriber B v.store (H.sum256 q.feed_uri) v.conn.id
        → new_stream_opts q ≡ some o
        → HasSubscriber B v'.store (H.sum256 q.feed_uri) v.conn.id sub
        → v'.subscriptions ≡ v.subscriptions ++ (H.sum256 q.feed_uri, started sub) ∷ []
        → reply ≡ ok (working_reply B P H n)
        → Outcome n q v v' reply
    restarts :
        (sub : Subscriber)
        → HasSubscriber B v.store (H.sum256 q.feed_uri) v.conn.id sub
        → HasSubscriber B v'.store (H.sum256 q.feed_uri) v.conn.id sub
        → v'.subscriptions
          ≡ v.subscriptions ++ (H.sum256 q.feed_uri, resets sub (new_stream_opts q)) ∷ []
        → reply ≡ ok (working_reply B P H n)
        → Outcome n q v v' reply
    dies :
        NoSubscriber B v.store (H.sum256 q.feed_uri) v.conn.id
        → q.stream_mode ≡ StreamMode.dont_stream
        → v'.subscriptions ≡ v.subscriptions
        → reply ≡ panics
        → Outcome n q v v' reply

  -- The vault and the reply after it.
  pub record Opens (n : ℕ) (q : OpenFeedReq) (v v' : Vault B P H) (reply : Result Msg)
      : Type 0 where
    pub streams :
        (k : ℕ)
        → lookup k v'.conn.streams ≡ (
            if n == k
            then some (record { id = n; ctx = v.conn.next_ctx })
            else lookup k v.conn.streams)
    pub contexts : v'.conn.next_ctx ≡ suc v.conn.next_ctx
    pub connection : v'.conn.id ≡ v.conn.id
    pub db : v'.store.db ≡ v.store.db
    pub others :
        (j : Bytes)
        → H.sum256 q.feed_uri ≢ j
        → lookup j v'.store.channels ≡ lookup j v.store.channels
    pub subscribers :
        (i : Bytes) (sub : Subscriber)
        → v.conn.id ≢ i
        → HasSubscriber B v.store (H.sum256 q.feed_uri) i sub
        → HasSubscriber B v'.store (H.sum256 q.feed_uri) i sub
    pub outcome : Outcome n q v v' reply

  -- The vault when Subscribe is called.
  abbrev prepared : ℕ → OpenFeedReq → Vault B P H → Vault B P H
  prepared n q v = record v {
    store = (channel B (H.sum256 q.feed_uri) v.store).0;
    conn = record v.conn {
      streams = insert n (record { id = n; ctx = v.conn.next_ctx }) v.conn.streams;
      next_ctx = suc v.conn.next_ctx;
    };
  }

  open_at_eq :
      (n : ℕ) (q : OpenFeedReq) (v : Vault B P H) (r : Result (Channel × Subscribed))
      → subscribe
          (channel B (H.sum256 q.feed_uri) v.store).1
          v.conn.next_ctx
          (stream v.conn.id n)
          (new_stream_opts q)
        ≡ r
      → open_at B P H n q v ≡ subscribed B P H n (H.sum256 q.feed_uri) (prepared n q v) r
  unfolding open_at
  open_at_eq n q v r e = ap (subscribed B P H n (H.sum256 q.feed_uri) (prepared n q v)) e

  -- The channel goes back to its place in the registry.
  put_channel-found :
      (id : Bytes) (s : Store B) (c : Channel)
      → c.id ≡ id
      → lookup id (put_channel B c s).channels ≡ some c
  unfolding put_channel
  put_channel-found id s c e =
      subst (λ (i : Bytes). lookup i (insert c.id c s.channels) ≡ some c) e
        (lookup-insert_self c.id c s.channels)

  -- The channel that Store.Channel gives out has the subscribers that it had.
  still_there :
      (id i : Bytes) (sub : Subscriber) (s : Store B)
      → IsRegistry B s
      → HasSubscriber B s id i sub
      → lookup i (channel B id s).1.subscribers ≡ some sub
  still_there id i sub s reg (c, known, e) =
      ap (λ (d : Channel). lookup i d.subscribers) ((channel-Gives B id s reg).old c known).0 ∙ e

  subscribed-Opens :
      (n : ℕ) (q : OpenFeedReq) (v : Vault B P H) (c : Channel) (what : Subscribed)
      → IsRegistry B v.store
      → c.id ≡ H.sum256 q.feed_uri
      → ((i : Bytes)
          → v.conn.id ≢ i
          → lookup i c.subscribers
            ≡ lookup i (channel B (H.sum256 q.feed_uri) v.store).1.subscribers)
      → let p = subscribed B P H n (H.sum256 q.feed_uri) (prepared n q v) (ok (c, what)) in
        Outcome n q v p.0 p.1 → Opens n q v p.0 p.1
  unfolding subscribed put_channel
  subscribed-Opens n q v c what reg e kept out =
      let g = channel-Gives B (H.sum256 q.feed_uri) v.store reg in
      let t = (channel B (H.sum256 q.feed_uri) v.store).0 in
      record {
        streams = λ k. lookup-insert n k _ v.conn.streams;
        contexts = refl;
        connection = refl;
        db = g.same_db;
        others = λ j apart.
            lookup-insert_other c.id j c t.channels (λ e'. apart (sym e ∙ e')) ∙ g.others j apart;
        subscribers = λ i sub apart has. (
          c,
          put_channel-found (H.sum256 q.feed_uri) t c e,
          kept i apart ∙ still_there (H.sum256 q.feed_uri) i sub v.store reg has,
        );
        outcome = out;
      }

  open_at-Opens :
      (n : ℕ) (q : OpenFeedReq) (v : Vault B P H)
      → IsRegistry B v.store
      → Opens n q v (open_at B P H n q v).0 (open_at B P H n q v).1
  unfolding subscribed
  open_at-Opens n q v reg =
      let id = H.sum256 q.feed_uri in
      let c : Channel = (channel B id v.store).1 in
      let t : Target = stream v.conn.id n in
      let ctx = v.conn.next_ctx in
      let g = channel-Gives B id v.store reg in
      let Goal : Vault B P H × Result Msg → Type 0 =
        λ (p : Vault B P H × Result Msg). Opens n q v p.0 p.1 in
      elim (Option-cases (lookup v.conn.id c.subscribers)) [
        | inr (sub, e) ↦
            let what = resets sub (new_stream_opts q) in
            subst Goal
              (sym
                (open_at_eq n q v (ok (c, what)) (subscribe-old c ctx t (new_stream_opts q) sub e)))
              (subscribed-Opens n q v c what reg g.made.at_id (λ i apart. refl)
                (Outcome.restarts sub (had_subscriber B v.store id v.conn.id sub e)
                  (c, put_channel-found id (prepared n q v).store c g.made.at_id, e) refl refl))
        | inl e ↦ elim (new_stream_opts_lem q) [
          | inr (o, has, fits) ↦
              let sub = first_subscriber ctx t o in
              let c' = with_subscriber sub c in
              subst Goal
                (sym (
                  open_at_eq n q v (ok (c', started sub))
                    (ap (subscribe c ctx t) has ∙ subscribe-fresh c ctx t o e)))
                (subscribed-Opens n q v c' (started sub) reg g.made.at_id
                  (λ i apart. lookup-insert_other v.conn.id i sub c.subscribers apart)
                  (Outcome.starts o sub refl (had_none B v.store id v.conn.id e) has
                    (
                      c',
                      put_channel-found id (prepared n q v).store c' g.made.at_id,
                      lookup-insert_self v.conn.id sub c.subscribers,
                    )
                    refl refl))
          | inl (mode, nothing) ↦
              subst Goal
                (sym (
                  open_at_eq n q v panics
                    (ap (subscribe c ctx t) nothing ∙ (subscribe_nil c ctx t).0 e)))
                (record {
                  streams = λ k. lookup-insert n k _ v.conn.streams;
                  contexts = refl;
                  connection = refl;
                  db = g.same_db;
                  others = g.others;
                  subscribers =
                      λ i sub apart has. (c, g.registered, still_there id i sub v.store reg has);
                  outcome = Outcome.dies (had_none B v.store id v.conn.id e) mode refl refl;
                })
        ]
      ]

  open_checked_eq :
      (n : ℕ) (q : OpenFeedReq) (v : Vault B P H)
      → q.feed_uri ≢ []
      → open_checked B P H n (some q) v ≡ open_at B P H n q v
  unfolding open_checked
  open_checked_eq n q v uri = elim (Bool-cases (q.feed_uri == [])) [
    | inl e ↦ absurd (uri ((Bytes_eq.beq_iff q.feed_uri []).0 e))
    | inr e ↦ rw e refl
  ]

  -- Opening a feed with a URI, on a well-formed registry of channels: the connection has a stream
  -- for the request's id with the next context, and its other streams; the database and the
  -- channels of all other feeds are as they were, and on this feed's channel every subscriber of
  -- another connection is still there. And one of three things has happened. The
  -- connection had no subscriber on the feed's channel and the request has a mode that streams:
  -- then it has one for this stream and context, which is started. It had one: then that one stays
  -- and is handed the options to restart with. In both cases the reply is ReqComplete with
  -- StatusCode_Working. Or it had none and the mode is DontStream: then the handler panics.
  pub open_feed-Opens :
      (req : FeedReq) (q : OpenFeedReq) (v : Vault B P H)
      → IsRegistry B v.store
      → req.open_feed ≡ some q
      → q.feed_uri ≢ []
      → Opens req.req_id q v (open_feed B P H req v).0 (open_feed B P H req v).1
  unfolding open_feed
  open_feed-Opens req q v reg has uri =
      subst (λ (p : Vault B P H × Result Msg). Opens req.req_id q v p.0 p.1)
        (sym (
          ap (λ (o : Option OpenFeedReq). open_checked B P H req.req_id o v) has
          ∙ open_checked_eq req.req_id q v uri))
        (open_at-Opens req.req_id q v reg)
