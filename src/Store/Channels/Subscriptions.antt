-- ===== src/Store/Channels/Subscriptions.antt =====
-- Subscribe and unsubscribe.
use plan_vault_libp2p.Prelude.{
  ◌≡◌, ◌≢◌, refl, sym, ap, subst, eq_of_some, ◌∙◌, Option, none, some, Bytes, Bytes_eq, Result, ok,
  ok-injective, panics, lookup, insert, delete, if◌then◌else◌, ℕ, Option-cases, inl, inr,
}
use plan_vault_libp2p.Prelude.Maps.{
  lookup-insert_self, lookup-insert_other, lookup-delete_self, lookup-delete_other,
}
use plan_vault_libp2p.Store.Options.{StreamOpts, from_index}
use plan_vault_libp2p.Store.Channel.{Channel, Subscriber, Target, target_id, read, read_from_index}
use plan_vault_libp2p.Store.Channels.Registry.{IsMade}
use plan_vault_libp2p.Store.Channels.{
  Subscribed, started, resets, goroutine, subscribe, unsubscribe,
}

-- What a successful call of Subscribe on a channel does.
record Subscribes (c : Channel) (ctx : ℕ) (t : Target) (opts : Option StreamOpts) (c' : Channel)
    (what : Subscribed) : Type 0 where
  pub registered : (sub : Subscriber) × (lookup (target_id t) c'.subscribers ≡ some sub)
  pub others : (id : Bytes) → target_id t ≢ id → lookup id c'.subscribers ≡ lookup id c.subscribers
  pub old :
      (sub : Subscriber)
      → lookup (target_id t) c.subscribers ≡ some sub
      → (c' ≡ c) × (what ≡ resets sub opts)
  pub fresh :
      lookup (target_id t) c.subscribers ≡ none
      → (o : StreamOpts) × (sub : Subscriber) × (opts ≡ some o)
        × (what ≡ started sub)
        × (lookup (target_id t) c'.subscribers ≡ some sub)
        × (sub.ctx ≡ ctx)
        × (sub.target ≡ t)
        × (sub.runs ≡ (if from_index o then read_from_index o else read o))

abbrev pub first_subscriber : ℕ → Target → StreamOpts → Subscriber
first_subscriber ctx t o = record {
  id = target_id t;
  ctx = ctx;
  target = t;
  runs = if from_index o then read_from_index o else read o;
}

abbrev pub with_subscriber : Subscriber → Channel → Channel
with_subscriber sub c = record c { subscribers = insert sub.id sub c.subscribers }

pub subscribe-old :
    (c : Channel) (ctx : ℕ) (t : Target) (opts : Option StreamOpts) (sub : Subscriber)
    → lookup (target_id t) c.subscribers ≡ some sub
    → subscribe c ctx t opts ≡ ok (c, resets sub opts)
unfolding subscribe
subscribe-old c ctx t opts sub e = rw (e, subscribe) refl

pub subscribe-fresh :
    (c : Channel) (ctx : ℕ) (t : Target) (o : StreamOpts)
    → lookup (target_id t) c.subscribers ≡ none
    → subscribe c ctx t (some o)
      ≡ ok (with_subscriber (first_subscriber ctx t o) c, started (first_subscriber ctx t o))
unfolding subscribe goroutine
subscribe-fresh c ctx t o e = rw (e, subscribe) refl

-- Subscribe with nil options panics exactly if the target's id has no subscriber yet.
pub subscribe_nil :
    (c : Channel) (ctx : ℕ) (t : Target)
    → (lookup (target_id t) c.subscribers ≡ none → subscribe c ctx t none ≡ panics)
      × ((sub : Subscriber)
          → lookup (target_id t) c.subscribers ≡ some sub
          → subscribe c ctx t none ≡ ok (c, resets sub none))
unfolding subscribe goroutine
subscribe_nil c ctx t = (λ e. rw (e, subscribe) refl, λ sub e. subscribe-old c ctx t none sub e)

-- Subscribe with options succeeds. It leaves the target's id registered and every other subscriber
-- as it was. If the id had a subscriber, the channel stays as it is and that one gets the options
-- to restart with; if not, the new subscriber has the given context and target, and its goroutine
-- is readFromIndex or read as the options say.
subscribe-Subscribes :
    (c : Channel) (ctx : ℕ) (t : Target) (o : StreamOpts)
    → (c' : Channel) × (what : Subscribed) × (subscribe c ctx t (some o) ≡ ok (c', what))
      × Subscribes c ctx t (some o) c' what
subscribe-Subscribes c ctx t o = elim (Option-cases (lookup (target_id t) c.subscribers)) [
  | inr (sub, e) ↦ (
    c,
    resets sub (some o),
    subscribe-old c ctx t (some o) sub e,
    record {
      registered = (sub, e);
      others = λ id _. refl;
      old = λ sub' e'. (refl, ap (λ (u : Subscriber). resets u (some o)) (eq_of_some (sym e ∙ e')));
      fresh = λ e'. absurd (cc (e, e'));
    },
  )
  | inl e ↦ (
    with_subscriber (first_subscriber ctx t o) c,
    started (first_subscriber ctx t o),
    subscribe-fresh c ctx t o e,
    record {
      registered = (_, lookup-insert_self (target_id t) (first_subscriber ctx t o) c.subscribers);
      others = λ id apart.
          lookup-insert_other (target_id t) id (first_subscriber ctx t o) c.subscribers apart;
      old = λ sub' e'. absurd (cc (e, e'));
      fresh = λ _. (
        o,
        first_subscriber ctx t o,
        refl,
        refl,
        lookup-insert_self (target_id t) (first_subscriber ctx t o) c.subscribers,
        refl,
        refl,
        refl,
      );
    },
  )
]

-- After unsubscribe the subscriber's id has no subscriber and every other one is as it was, so that
-- the next Subscribe of that id with options starts a goroutine.
unsubscribe_lem :
    (c : Channel) (sub : Subscriber)
    → (lookup sub.id (unsubscribe c sub).subscribers ≡ none)
      × ((id : Bytes)
          → sub.id ≢ id
          → lookup id (unsubscribe c sub).subscribers ≡ lookup id c.subscribers)
      × ((ctx : ℕ) (t : Target) (o : StreamOpts)
          → target_id t ≡ sub.id
          → (c' : Channel) × (new_one : Subscriber) × (subscribe (unsubscribe c sub) ctx t (some o)
              ≡ ok (c', started new_one)))
unfolding unsubscribe
unsubscribe_lem c sub = (
  lookup-delete_self sub.id c.subscribers,
  λ id apart. lookup-delete_other sub.id id c.subscribers apart,
  λ ctx t o same. (
    _,
    _,
    subscribe-fresh (unsubscribe c sub) ctx t o (
        subst (λ (id : Bytes). lookup id (delete sub.id c.subscribers) ≡ none) (sym same)
          (lookup-delete_self sub.id c.subscribers)),
  ),
)

returned-IsMade :
    (id : Bytes) (r : Result (Channel × Subscribed)) (b c : Channel) (w what : Subscribed)
    → r ≡ ok (b, w)
    → r ≡ ok (c, what)
    → IsMade id b
    → IsMade id c
returned-IsMade id r b c w what h h' m =
    subst (IsMade id)
      (ap (λ (p : Channel × Subscribed). p.0)
        (ok-injective {a = (b, w)} {b = (c, what)} (sym h ∙ h')))
      m

-- Subscribe changes only the subscribers of a channel.
pub subscribe-IsMade :
    (id : Bytes) (c : Channel) (ctx : ℕ) (t : Target) (opts : Option StreamOpts)
    → IsMade id c
    → (c' : Channel) (what : Subscribed) → subscribe c ctx t opts ≡ ok (c', what)
    → IsMade id c'
subscribe-IsMade id c ctx t none m c' what h =
    elim (Option-cases (lookup (target_id t) c.subscribers)) [
      | inl e ↦ absurd (cc ((subscribe_nil c ctx t).0 e, h))
      | inr (old, e) ↦ returned-IsMade id _ c c' _ what (subscribe-old c ctx t none old e) h m
    ]
subscribe-IsMade id c ctx t (some o) m c' what h =
    elim (Option-cases (lookup (target_id t) c.subscribers)) [
      | inl e ↦
          returned-IsMade id _ (with_subscriber (first_subscriber ctx t o) c) c' _ what
            (subscribe-fresh c ctx t o e) h
            (record {
              at_id = m.at_id;
              no_uri = m.no_uri;
              entries = m.entries;
              arrival = m.arrival;
            })
      | inr (old, e) ↦ returned-IsMade id _ c c' _ what (subscribe-old c ctx t (some o) old e) h m
    ]

pub unsubscribe-IsMade :
    (id : Bytes) (c : Channel) (sub : Subscriber) → IsMade id c → IsMade id (unsubscribe c sub)
unfolding unsubscribe
unsubscribe-IsMade id c sub m = record {
  at_id = m.at_id;
  no_uri = m.no_uri;
  entries = m.entries;
  arrival = m.arrival;
}
