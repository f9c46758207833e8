-- ===== src/Store/Entries/Reads.antt =====
-- Get and Upsert: what they return and leave on each branch, and the branches on which Append
-- fails.
use plan_vault_libp2p.Prelude.{
  ℕ, ◌≡◌, ◌≢◌, refl, sym, ap, ◌∙◌, Option, none, some, Bytes, Bytes_eq, ◌==◌, Error, Result, ok,
  err, panics, arith, if◌then◌else◌, ◌>>=◌, >>=-eq-ok, ok-injective,
}
use plan_vault_libp2p.Prelude.ByteStrings.{bytes_beq_iff}
use plan_vault_libp2p.Prelude.Errors.{
  badger_key_not_found, invalid_entry_id, key_exists, key_not_found,
}
use plan_vault_libp2p.Prelude.Maps.{eq_self}
use plan_vault_libp2p.Protos.{Msg, get_entry_header, get_entry_id}
use plan_vault_libp2p.Interfaces.{Badger, Proto, wire, or_written}
use plan_vault_libp2p.Store.Channel.{Channel}
use plan_vault_libp2p.Store.Keys.{entry_key}
use plan_vault_libp2p.Store.Entries.{
  value, get, upsert, append, append_steps, write_entry, entry_id, if_absent, deref, settle,
  rename_missing, id_or_invalid,
}
use plan_vault_libp2p.Store.Entries.Appends.{settle-ok}

if_self : (key : Bytes) (a b : Result Bytes) → (if key == key then a else b) ≡ a
if_self key a b = rw (eq_self key) refl

module _ (B : Badger) (P : Proto) where
  settle-err :
      {A : Type 0} (now : B.Db) (r : Result (A × B.Db)) {d : B.Db} {e : Error}
      → settle B P now r ≡ (d, err e)
      → d ≡ now
  settle-err now r h = ground arith

  settle-panics :
      {A : Type 0} (now : B.Db) (r : Result (A × B.Db)) {d : B.Db}
      → settle B P now r ≡ (d, panics)
      → d ≡ now
  settle-panics now r h = ground arith

  -- A write that does not succeed leaves the database as it was.
  pub upsert_fails :
      (key : Bytes) (m : Msg) (d now after : B.Db) (e : Error)
      → upsert B P key m d now ≡ (after, err e)
      → after ≡ now
  unfolding upsert
  upsert_fails key m d now after e h =
      settle-err now
        (do v ← P.marshal m; t ← B.set_entry (B.begin d) key v; d' ← B.commit now t; ok (tt, d')) h

  pub upsert_panics :
      (key : Bytes) (m : Msg) (d now after : B.Db)
      → upsert B P key m d now ≡ (after, panics)
      → after ≡ now
  unfolding upsert
  upsert_panics key m d now after h =
      settle-panics now
        (do v ← P.marshal m; t ← B.set_entry (B.begin d) key v; d' ← B.commit now t; ok (tt, d')) h

  pub append_panics :
      (c : Channel) (unix : ℕ) (entry : Option Msg) (d now after : B.Db)
      → append B P c unix entry d now ≡ (after, panics)
      → after ≡ now
  unfolding append
  append_panics c unix entry d now after h =
      settle-panics now (append_steps B P c unix entry d now) h

  upsert-value :
      (key : Bytes) (m : Msg) (bytes : Bytes) (d now after : B.Db) (t : B.Txn) (j : Bytes)
      → B.set_entry (B.begin d) key bytes ≡ ok t
      → B.commit now t ≡ ok after
      → value B P after j ≡ (if key == j then ok bytes else value B P now j)
  upsert-value key m bytes d now after t j set done =
      B.get-commit now after t j done
      ∙ ap (λ (o : Option Bytes). or_written o (value B P now j))
          (B.pending-set (B.begin d) t key bytes j set)
      ∙ ground (arith, B.pending-begin d j)

  -- After an Upsert that succeeds, Get of its key returns the entry as it is read from the wire,
  -- and every other key has the value that it had when the Upsert committed: nothing goes into the
  -- index.
  pub get-upsert :
      (key : Bytes) (m : Msg) (d now after : B.Db)
      → upsert B P key m d now ≡ (after, ok tt)
      → (get B P key after ≡ ok (wire m))
        × ((j : Bytes) → key ≢ j → value B P after j ≡ value B P now j)
  unfolding upsert get
  get-upsert key m d now after h =
      let (bytes, packed, h₁) = >>=-eq-ok (P.marshal m) _ (settle-ok B P now _ h) in
      let (t, set, h₂) = >>=-eq-ok (B.set_entry (B.begin d) key bytes) _ h₁ in
      let (d', done, h₃) = >>=-eq-ok (B.commit now t) _ h₂ in
      let moved : d' ≡ after = ap (λ (p : Unit {0} × B.Db). p.1) (ok-injective h₃) in
      let values : (j : Bytes)
          → value B P after j ≡ (if key == j then ok bytes else value B P now j) =
        λ j.
          ap (λ (s : B.Db). value B P s j) (sym moved)
          ∙ upsert-value key m bytes d now d' t j set done in
      (
        ap (λ (r : Result Bytes). rename_missing r >>= λ (v : Bytes). P.unmarshal v)
              (values key ∙ if_self key (ok bytes) (value B P now key))
            ∙ P.unmarshal-marshal m bytes packed,
        λ j apart. values j ∙ ground (arith, bytes_beq_iff key j),
      )

  -- A read of a key that badger does not have is the store's own error.
  get_missing :
      (key : Bytes) (d : B.Db)
      → value B P d key ≡ err badger_key_not_found
      → get B P key d ≡ err key_not_found
  unfolding get
  get_missing key d h = rw h

  -- Only badger's ErrKeyNotFound is taken for a free key.
  if_absent-err :
      (e : Error) (write : Result B.Txn)
      → e ≢ badger_key_not_found
      → if_absent B P (err e) write ≡ err e
  if_absent-err badger_key_not_found write other = absurd (other refl)
  if_absent-err _ write other = refl

  if_absent-ok :
      (r : Result Bytes) (write : Result B.Txn) (t : B.Txn)
      → if_absent B P r write ≡ ok t
      → r ≡ err badger_key_not_found
  if_absent-ok (ok v) write t h = cc
  if_absent-ok (err badger_key_not_found) write t h = refl
  if_absent-ok (err _) write t h = cc
  if_absent-ok panics write t h = cc

  -- What a successful Append has found.
  pub record WasFree (c : Channel) (entry : Option Msg) (d : B.Db) : Type 0 where
    pub id : Bytes
    pub given : get_entry_id (get_entry_header entry) ≡ some id
    pub packed : Bytes
    pub packs : P.marshal (deref entry) ≡ ok packed
    pub free : value B P d (entry_key c id) ≡ err badger_key_not_found

  id_or_invalid-ok : (o : Option Bytes) (id : Bytes) → id_or_invalid o ≡ ok id → o ≡ some id
  id_or_invalid-ok none id h = cc
  id_or_invalid-ok (some i) id h = ap some (ok-injective h)

  append-WasFree :
      (c : Channel) (unix : ℕ) (entry : Option Msg) (d now after : B.Db) (arrival : Bytes)
      → append B P c unix entry d now ≡ (after, ok arrival)
      → WasFree c entry d
  unfolding append append_steps write_entry entry_id
  append-WasFree c unix entry d now after arrival h =
      let (id, given, h₁) =
        >>=-eq-ok (id_or_invalid (get_entry_id (get_entry_header entry))) _
          (settle-ok B P now _ h) in
      let (m, packs, h₂) = >>=-eq-ok (P.marshal (deref entry)) _ h₁ in
      let (t, wrote, h₃) = >>=-eq-ok _ _ h₂ in
      record {
        id = id;
        given = id_or_invalid-ok _ id given;
        packed = m;
        packs = packs;
        free = if_absent-ok (value B P d (entry_key c id)) _ t wrote;
      }

  -- When Append refuses, it leaves the database as it was: with no entry ID, with an entry that
  -- cannot be marshalled, with an entry that is there in its snapshot, and with every error of the
  -- read but badger's ErrKeyNotFound, whose error it returns; and whatever error it returns, the
  -- database stays. And it succeeds only when the ID is given and the read of its key in the
  -- snapshot gave just that error.
  pub append_fails :
      (c : Channel) (unix : ℕ) (entry : Option Msg) (d now : B.Db)
      → (get_entry_id (get_entry_header entry) ≡ none
          → append B P c unix entry d now ≡ (now, err invalid_entry_id))
        × ((id : Bytes) (e : Error)
            → get_entry_id (get_entry_header entry) ≡ some id
            → P.marshal (deref entry) ≡ err e
            → append B P c unix entry d now ≡ (now, err e))
        × ((id m v : Bytes)
            → get_entry_id (get_entry_header entry) ≡ some id
            → P.marshal (deref entry) ≡ ok m
            → value B P d (entry_key c id) ≡ ok v
            → append B P c unix entry d now ≡ (now, err key_exists))
        × ((id m : Bytes) (e : Error)
            → get_entry_id (get_entry_header entry) ≡ some id
            → P.marshal (deref entry) ≡ ok m
            → value B P d (entry_key c id) ≡ err e
            → e ≢ badger_key_not_found
            → append B P c unix entry d now ≡ (now, err e))
        × ((after : B.Db) (e : Error)
            → append B P c unix entry d now ≡ (after, err e)
            → after ≡ now)
        × ((after : B.Db) (arrival : Bytes)
            → append B P c unix entry d now ≡ (after, ok arrival)
            → WasFree c entry d)
  unfolding append append_steps write_entry entry_id
  append_fails c unix entry d now = (
    λ none_given. rw (none_given, id_or_invalid) refl,
    λ id e has packed. rw (has, id_or_invalid) (rw packed refl),
    λ id m v has packed found. rw (has, id_or_invalid) (rw packed (rw found refl)),
    λ id m e has packed found other.
        rw (has, id_or_invalid) (rw packed (rw found (rw (if_absent-err e _ other) refl))),
    λ after e h. settle-err now (append_steps B P c unix entry d now) h,
    λ after arrival h. append-WasFree c unix entry d now after arrival h,
  )
