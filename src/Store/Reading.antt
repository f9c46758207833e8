-- ===== src/Store/Reading.antt =====
-- lastKey and the subscription loop `read` of store/store.go. The variables of the loop are a
-- record, and each step takes one event: what the `select` of the moment chose, with the content of
-- the database where the step opens a transaction. `opening` is the point before `iterate`,
-- `iterating` its loop with the items that the iterator has left, `waiting` the last `select`.
-- Keys are copied where badger lends them, and View returns no error of its own.
pub mod Drain
pub mod Notified
pub mod Items
pub mod Chains
pub mod Snapshots
pub mod Bounds
pub mod Keeps
use plan_vault_libp2p.Prelude.{
  ℕ, ◌+◌, ◌%◌, ◌^◌, List, [], ◌∷◌, ◌++◌, Option, none, some, Bool, true, false, Bytes, Slice,
  bytes_of, Bytes_eq, ◌==◌, Dict, Result, ok, err, panics, has_prefix, leb, if◌then◌else◌,
}
use plan_vault_libp2p.Protos.{Msg, empty_msg, empty_header}
use plan_vault_libp2p.Interfaces.{Badger, Proto}
use plan_vault_libp2p.Store.Options.{StreamOpts, keys_only, skip_first, from_head}
use plan_vault_libp2p.Store.Channel.{Channel}
use plan_vault_libp2p.Store.Keys.{entry_id_from_key}

pub data Phase : Type 0 where
  opening waiting : Phase
  iterating : Dict Bytes Bytes → Phase
  finished : Result (Unit {0}) → Phase

pub record Reader : Type 0 where
  pub opts : StreamOpts
  pub count : ℕ
  pub dirty : Bool
  pub last_seen : Slice
  pub key : Slice
  pub max : ℕ
  pub phase : Phase
  pub published : List Msg

-- `count++` on a uint64.
abbrev pub count_up : ℕ → ℕ
count_up n = (n + 1) % 2 ^ 64

-- The loop of lastKey over the items in reverse order.
unfoldable last_with_prefix : Bytes → Dict Bytes Bytes → Slice
last_with_prefix prefix [] = none
last_with_prefix prefix ((k, v) ∷ items) =
    if has_prefix prefix k then some k else last_with_prefix prefix items

-- After `iterate` returned nil.
unfoldable pub end_view : Reader → Reader
end_view r =
    if leb r.max r.count
    then record r { phase = finished (ok tt) }
    else if r.dirty
    then record r { phase = opening }
    else record r { phase = waiting }

-- The keysOnly branch, and the entry as it was stored.
abbrev pub id_msg : Result Bytes → Result Msg
id_msg (ok id) =
    ok (record empty_msg { entry_header = some (record empty_header { entry_id = some id }) })
id_msg (err e) = err e
id_msg panics = panics

abbrev stop : Reader → Result (Unit {0}) → Reader
stop r result = record r { phase = finished result }

-- Publish, and go on behind the item.
unfoldable pub publish : Reader → Bytes → Dict Bytes Bytes → Result Msg → Reader
publish r k rest (ok msg) = record r {
  count = count_up r.count;
  last_seen = some k;
  key = some k;
  phase = iterating rest;
  published = r.published ++ msg ∷ [];
}
publish r k rest (err e) = stop r (err e)
publish r k rest panics = stop r panics

module _ (B : Badger) (P : Proto) where
  pub data Event : Type 0 where
    snapshot : B.Db → Event
    cancelled notified idle : Event
    reset : Option StreamOpts → B.Db → Event

  unfoldable pub last_key : Channel → B.Db → Slice
  unfolding last_with_prefix
  last_key c d = last_with_prefix c.prefix (B.rewind_reverse d)

  -- Where the options say that the subscription starts.
  unfoldable pub start_key : Channel → StreamOpts → B.Db → Slice
  start_key c opts d = if from_head opts then last_key c d else opts.seek

  -- `read` up to its loop.
  unfoldable pub start : Channel → StreamOpts → B.Db → Reader
  start c opts d = record {
    opts = opts;
    count = 0;
    dirty = false;
    last_seen = if skip_first opts then start_key c opts d else none;
    key = start_key c opts d;
    max = opts.max;
    phase = opening;
    published = [];
  }

  unfoldable pub message : StreamOpts → Bytes → Bytes → Result Msg
  message opts k v = if keys_only opts then id_msg (entry_id_from_key k) else P.unmarshal v

  -- The `default` branch.
  next_item : Reader → Dict Bytes Bytes → Reader
  unfolding message publish end_view
  next_item r [] = end_view r
  next_item r ((k, v) ∷ rest) =
      if k == bytes_of r.last_seen
      then record r { phase = iterating rest }
      else publish r k rest (message r.opts k v)

  -- The branch of a reset. The flag that is read is that of the first options.
  apply_reset : Channel → Reader → Option StreamOpts → B.Db → Reader
  unfolding end_view
  apply_reset c r none d = end_view r
  apply_reset c r (some q) d = end_view (record r {
    dirty = true;
    key = start_key c q d;
    max = q.max;
    last_seen = if skip_first r.opts then start_key c q d else r.last_seen;
  })

  select : Channel → Reader → Dict Bytes Bytes → Event → Reader
  unfolding next_item apply_reset end_view
  select c r items (snapshot d) = r
  select c r items cancelled = end_view r
  select c r items notified = record r { dirty = true }
  select c r items (reset q d) = apply_reset c r q d
  select c r items idle = next_item r items

  step_at : Channel → Reader → Phase → Event → Reader
  unfolding select end_view
  step_at c r opening (snapshot d) = record r {
    dirty = false;
    phase = iterating (B.seek d c.prefix (bytes_of r.key));
  }
  step_at c r (iterating items) e = if leb r.max r.count then end_view r else select c r items e
  step_at c r waiting cancelled = stop r (ok tt)
  step_at c r waiting notified = record r { phase = opening }
  step_at c r _ _ = r

  unfoldable pub step : Channel → Reader → Event → Reader
  unfolding step_at
  step c r e = step_at c r r.phase e

  unfoldable pub run : Channel → Reader → List Event → Reader
  unfolding step
  run c r [] = r
  run c r (e ∷ es) = run c (step c r e) es
