-- ===== src/Store/Channels.antt =====
-- The Store of store/store.go with its channels: New, Channel, watch, Subscribe and unsubscribe.
-- `announced` are the channels sent to the update channel, `watched` the prefixes that badger's
-- Subscribe was asked to watch, both oldest first. The two goroutines only deliver these.
pub mod Registry
pub mod Subscriptions
pub mod Hashed
use plan_vault_libp2p.Prelude.{
  ℕ, List, [], ◌∷◌, ◌++◌, Option, none, some, Bool, true, false, Bytes, Bytes_eq, Dict, Result, ok,
  err, panics, ◌>>=◌, lookup, insert, delete, if◌then◌else◌,
}
use plan_vault_libp2p.Interfaces.{Badger}
use plan_vault_libp2p.Store.Options.{StreamOpts, from_index}
use plan_vault_libp2p.Store.Channel.{
  Channel, Subscriber, Goroutine, Target, target_id, new_channel, read, read_from_index,
}

pub record Store (B : Badger) : Type 0 where
  pub db : B.Db
  pub has_update_ch : Bool
  pub channels : Dict Bytes Channel
  pub announced : List Bytes
  pub watched : List Bytes

-- What Subscribe does: start the goroutine of a new subscriber, or hand the options to the one that
-- is there. `none` stands for nil options.
pub data Subscribed : Type 0 where
  started : Subscriber → Subscribed
  resets : Subscriber → Option StreamOpts → Subscribed

-- The call of the method `fromIndex` on a nil pointer panics.
goroutine : Option StreamOpts → Result Goroutine
goroutine none = panics
goroutine (some opts) = ok (if from_index opts then read_from_index opts else read opts)

unfoldable pub subscribe : Channel → ℕ → Target → Option StreamOpts → Result (Channel × Subscribed)
unfolding goroutine
subscribe c ctx target opts = elim (lookup (target_id target) c.subscribers) [
  | some old ↦ ok (c, resets old opts)
  | none ↦ do
    runs ← goroutine opts
    let sub : Subscriber = record { id = target_id target; ctx = ctx; target = target; runs = runs }
    ok (record c { subscribers = insert sub.id sub c.subscribers }, started sub)
]

unfoldable pub unsubscribe : Channel → Subscriber → Channel
unsubscribe c sub = record c { subscribers = delete sub.id c.subscribers }

module _ (B : Badger) where
  -- `opened` is the result of badger.Open.
  unfoldable pub new : Result B.Db → Bool → Result (Store B)
  new opened has_discovery = do
    db ← opened
    ok (record {
      db = db;
      has_update_ch = has_discovery;
      channels = [];
      announced = [];
      watched = [];
    })

  watch : Channel → Store B → Store B
  watch c s = record s { watched = s.watched ++ c.prefix ∷ [] }

  announce : Bytes → Store B → Store B
  announce id s = record s {
    announced = if s.has_update_ch then s.announced ++ id ∷ [] else s.announced;
  }

  pub register : Bytes → Store B → Store B
  unfolding watch announce
  register id s =
      watch (new_channel id)
        (announce id (record s { channels = insert id (new_channel id) s.channels }))

  unfoldable pub channel : Bytes → Store B → Store B × Channel
  unfolding register
  channel id s = elim (lookup id s.channels) [
    | some c ↦ (s, c)
    | none ↦ (register id s, new_channel id)
  ]

  -- A channel is shared: what is done to it is done to the store's.
  unfoldable pub put_channel : Channel → Store B → Store B
  put_channel c s = record s { channels = insert c.id c s.channels }
