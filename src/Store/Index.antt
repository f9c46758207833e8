-- ===== src/Store/Index.antt =====
-- readFromIndex of store/store.go: the loop over the arrival keys of one snapshot `db`. Each step
-- takes what its `select` chose; `items` are the items that the iterator has left.
pub mod CatchUp
pub mod Ends
use plan_vault_libp2p.Prelude.{
  ℕ, List, [], ◌∷◌, ◌++◌, Bytes, bytes_of, Dict, Result, ok, err, panics, ◌>>=◌, leb, if◌then◌else◌,
}
use plan_vault_libp2p.Protos.{Msg}
use plan_vault_libp2p.Interfaces.{Badger, Proto}
use plan_vault_libp2p.Store.Options.{StreamOpts, keys_only}
use plan_vault_libp2p.Store.Channel.{Channel}
use plan_vault_libp2p.Store.Keys.{entry_id_from_index, entry_key_from_index}
use plan_vault_libp2p.Store.Entries.{value}
use plan_vault_libp2p.Store.Reading.{count_up, id_msg}

pub data Chosen : Type 0 where
  cancelled notified idle : Chosen

pub data Progress : Type 0 where
  reading : Dict Bytes Bytes → Progress
  ended : Result (Unit {0}) → Progress

pub record IndexReader : Type 0 where
  pub opts : StreamOpts
  pub count : ℕ
  pub progress : Progress
  pub published : List Msg

module _ (B : Badger) (P : Proto) where
  -- The message for an arrival key; the entry is read in the same transaction, and a missing one is
  -- badger's error.
  unfoldable pub index_message : Channel → StreamOpts → B.Db → Bytes → Result Msg
  index_message c opts db k =
      if keys_only opts
      then id_msg (entry_id_from_index k)
      else do key ← entry_key_from_index c k; v ← value B P db key; P.unmarshal v

  unfoldable start_index : Channel → StreamOpts → B.Db → IndexReader
  start_index c opts db = record {
    opts = opts;
    count = 0;
    progress = reading (B.seek db c.index_prefix (bytes_of opts.seek));
    published = [];
  }

  unfoldable pub publish_indexed : IndexReader → Dict Bytes Bytes → Result Msg → IndexReader
  publish_indexed r rest (ok m) = record r {
    count = count_up r.count;
    progress = reading rest;
    published = r.published ++ m ∷ [];
  }
  publish_indexed r rest (err e) = record r { progress = ended (err e) }
  publish_indexed r rest panics = record r { progress = ended panics }

  select_index : Channel → B.Db → IndexReader → Dict Bytes Bytes → Chosen → IndexReader
  unfolding publish_indexed index_message
  select_index c db r items cancelled = record r { progress = ended (ok tt) }
  select_index c db r items notified = r
  select_index c db r [] idle = record r { progress = ended (ok tt) }
  select_index c db r ((k, v) ∷ rest) idle = publish_indexed r rest (index_message c r.opts db k)

  step_index_at : Channel → B.Db → IndexReader → Progress → Chosen → IndexReader
  unfolding select_index
  step_index_at c db r (reading items) e =
      if leb r.opts.max r.count
      then record r { progress = ended (ok tt) }
      else select_index c db r items e
  step_index_at c db r (ended result) e = r

  unfoldable pub step_index : Channel → B.Db → IndexReader → Chosen → IndexReader
  unfolding step_index_at
  step_index c db r e = step_index_at c db r r.progress e

  unfoldable pub run_index : Channel → B.Db → IndexReader → List Chosen → IndexReader
  unfolding step_index
  run_index c db r [] = r
  run_index c db r (e ∷ es) = run_index c db (step_index c db r e) es
