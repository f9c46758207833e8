-- ===== src/Store/Entries.antt =====
-- Get, Upsert and Append of store/store.go over the database. Each write takes the content of the
-- database when its transaction begins and when it commits, which differ if another writer came in
-- between. badger's Update relays an error of its function and drops the transaction. The key that
-- Append returns beside an error is used by no caller and is left out.
pub mod Appends
pub mod AppendOnly
pub mod Reads
pub mod Made
use plan_vault_libp2p.Prelude.{
  ℕ, ◌≡◌, List, [], Option, none, some, Bytes, Error, Result, ok, err, panics, ◌>>=◌,
}
use plan_vault_libp2p.Prelude.Errors.{
  badger_key_not_found, key_not_found, key_exists, invalid_entry_id,
}
use plan_vault_libp2p.Protos.{Msg, empty_msg, get_entry_header, get_entry_id}
use plan_vault_libp2p.Interfaces.{Badger, Proto}
use plan_vault_libp2p.Store.Channel.{Channel}
use plan_vault_libp2p.Store.Keys.{entry_key, arrival_key}

-- badger's ErrKeyNotFound becomes the store's own error.
abbrev pub rename_missing : Result Bytes → Result Bytes
rename_missing (ok v) = ok v
rename_missing (err badger_key_not_found) = err key_not_found
rename_missing (err e) = err e
rename_missing panics = panics

abbrev pub id_or_invalid : Option Bytes → Result Bytes
id_or_invalid none = err invalid_entry_id
id_or_invalid (some id) = ok id

unfoldable pub entry_id : Option Msg → Result Bytes
entry_id entry = id_or_invalid (get_entry_id (get_entry_header entry))

-- The message behind a pointer; marshalling a nil message gives that of an empty one.
abbrev pub deref : Option Msg → Msg
deref none = empty_msg
deref (some m) = m

module _ (B : Badger) (P : Proto) where
  -- txn.Get of a read-only transaction.
  abbrev pub value : B.Db → Bytes → Result Bytes
  value d key = (B.get (B.begin d) key).0

  unfoldable pub get : Bytes → B.Db → Result Msg
  get key d = do val ← rename_missing (value d key); P.unmarshal val

  -- What a write leaves in the database: its own content, or that at the commit if it failed.
  abbrev pub settle {ℓ} : {A : Type ℓ} → B.Db → Result (A × B.Db) → B.Db × Result A
  settle now (ok (a, d)) = (d, ok a)
  settle now (err e) = (now, err e)
  settle now panics = (now, panics)

  unfoldable pub upsert : Bytes → Msg → B.Db → B.Db → B.Db × Result (Unit {0})
  upsert key entry d now =
      settle now (do
        m ← P.marshal entry
        t ← B.set_entry (B.begin d) key m
        d' ← B.commit now t
        ok (tt, d'))

  -- The append-only check: only badger's ErrKeyNotFound lets the write go on.
  abbrev pub if_absent : Result Bytes → Result B.Txn → Result B.Txn
  if_absent (ok v) write = err key_exists
  if_absent (err badger_key_not_found) write = write
  if_absent (err e) write = err e
  if_absent panics write = panics

  -- The function that Append runs in its transaction.
  unfoldable pub write_entry : Bytes → Bytes → Bytes → B.Txn → Result B.Txn
  write_entry key m arrival t =
      let (found, t') = B.get t key in
      if_absent found (do t'' ← B.set_entry t' key m; B.set_entry t'' arrival [])

  -- Append up to the commit of its transaction.
  unfoldable pub append_steps : Channel → ℕ → Option Msg → B.Db → B.Db → Result (Bytes × B.Db)
  unfolding write_entry entry_id
  append_steps c unix entry d now = do
    id ← entry_id entry
    m ← P.marshal (deref entry)
    let arrival = arrival_key c unix id
    t ← write_entry (entry_key c id) m arrival (B.begin d)
    d' ← B.commit now t
    ok (arrival, d')

  unfoldable pub append : Channel → ℕ → Option Msg → B.Db → B.Db → B.Db × Result Bytes
  unfolding append_steps
  append c unix entry d now = settle now (append_steps c unix entry d now)
