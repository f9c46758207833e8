-- ===== src/Store/Entries/Appends.antt =====
-- What a successful Append has done, also when another writer committed in between.
use plan_vault_libp2p.Prelude.{
  ℕ, ◌≡◌, ◌≢◌, refl, ap, ◌∙◌, [], Option, some, Bytes, Bytes_eq, ◌==◌, length, true, Result, ok,
  err, panics, >>=-eq-ok, ok-injective, subst, arith, if◌then◌else◌, replicate, copy_at,
}
use plan_vault_libp2p.Prelude.ByteStrings.{length-copy_at}
use plan_vault_libp2p.Prelude.Errors.{badger_key_not_found}
use plan_vault_libp2p.Protos.{Msg, get_entry_header, get_entry_id}
use plan_vault_libp2p.Interfaces.{Badger, Proto, or_written}
use plan_vault_libp2p.Store.Channel.{Channel}
use plan_vault_libp2p.Store.Keys.{entry_key, arrival_key, time_bytes, shifted}
use plan_vault_libp2p.Store.Entries.{value, append, write_entry, if_absent, deref, entry_id, settle}

entry_id-ok :
    (entry : Option Msg) (id : Bytes)
    → entry_id entry ≡ ok id
    → get_entry_id (get_entry_header entry) ≡ some id
unfolding entry_id
entry_id-ok entry id h = ground arith

pub length-entry_key : (c : Channel) (id : Bytes) → length (entry_key c id) ≡ 63
unfolding entry_key
length-entry_key c id =
    length-copy_at 33 (copy_at 0 (replicate 63 0) c.prefix) id
    ∙ length-copy_at 0 (replicate 63 0) c.prefix

pub length-arrival_key : (c : Channel) (now : ℕ) (id : Bytes) → length (arrival_key c now id) ≡ 69
unfolding arrival_key
length-arrival_key c now id =
    length-copy_at 39 _ id
    ∙ length-copy_at 33 (copy_at 0 (replicate 69 0) c.index_prefix) (time_bytes (shifted now))
    ∙ length-copy_at 0 (replicate 69 0) c.index_prefix

pub entry_key-ne-arrival_key :
    (c : Channel) (now : ℕ) (a b : Bytes) → entry_key c a ≢ arrival_key c now b
entry_key-ne-arrival_key c now a b e =
    absurd (omega (arith, length-entry_key c a, length-arrival_key c now b, ap length e))

module _ (B : Badger) (P : Proto) where
  if_absent-ok :
      (r : Result Bytes) (w : Result B.Txn) {t : B.Txn}
      → if_absent B P r w ≡ ok t
      → (r ≡ err badger_key_not_found) × (w ≡ ok t)
  if_absent-ok (ok v) w h = cc
  if_absent-ok (err badger_key_not_found) w h = (refl, h)
  if_absent-ok (err _) w h = cc
  if_absent-ok panics w h = cc

  -- What is known of a transaction that wrote an entry.
  record Wrote (key m arrival : Bytes) (t t' : B.Txn) : Type 0 where
    absent : (B.get t key).0 ≡ err badger_key_not_found
    start : B.snapshot t' ≡ B.snapshot t
    reads : B.has_read t' key ≡ true
    writes :
        (j : Bytes)
        → B.pending t' j
          ≡ (if arrival == j then some [] else if key == j then some m else B.pending t j)

  write_entry-Wrote :
      (key m arrival : Bytes) (t t' : B.Txn)
      → write_entry B P key m arrival t ≡ ok t'
      → Wrote key m arrival t t'
  unfolding write_entry
  write_entry-Wrote key m arrival t t' h =
      let t₁ = (B.get t key).1 in
      let (absent, sets) = if_absent-ok _ _ h in
      let (t₂, first, second) =
        >>=-eq-ok (B.set_entry t₁ key m) (λ (u : B.Txn). B.set_entry u arrival []) sets in
      record {
        absent = absent;
        start =
            B.snapshot-set t₂ t' arrival [] second
            ∙ B.snapshot-set t₁ t₂ key m first
            ∙ B.snapshot-get t key;
        reads =
            B.has_read-set t₂ t' arrival [] key second
              (B.has_read-set t₁ t₂ key m key first (B.has_read-get t key));
        writes = λ j. ground (
          arith,
          B.pending-set t₂ t' arrival [] j second,
          B.pending-set t₁ t₂ key m j first,
          B.pending-get t key j,
        );
      }

  pub settle-ok :
      {A : Type 0} (now : B.Db) (r : Result (A × B.Db)) {d : B.Db} {a : A}
      → settle B P now r ≡ (d, ok a)
      → r ≡ ok (a, d)
  settle-ok now r h = ground arith

  -- What a successful Append has found and left.
  pub record Appended (c : Channel) (unix : ℕ) (entry : Option Msg) (now after : B.Db)
      (reply : Bytes) : Type 0 where
    pub id : Bytes
    pub bytes : Bytes
    pub has_id : get_entry_id (get_entry_header entry) ≡ some id
    pub marshalled : P.marshal (deref entry) ≡ ok bytes
    pub replied : reply ≡ arrival_key c unix id
    pub was_absent : value B P now (entry_key c id) ≡ err badger_key_not_found
    pub holds :
        (j : Bytes)
        → value B P after j ≡ (
            if arrival_key c unix id == j
            then ok []
            else if entry_key c id == j
            then ok bytes
            else value B P now j)

  commit-Appended :
      (c : Channel) (unix : ℕ) (entry : Option Msg) (d now after : B.Db) (id m : Bytes) (t : B.Txn)
      → get_entry_id (get_entry_header entry) ≡ some id
      → P.marshal (deref entry) ≡ ok m
      → Wrote (entry_key c id) m (arrival_key c unix id) (B.begin d) t
      → B.commit now t ≡ ok after
      → Appended c unix entry now after (arrival_key c unix id)
  commit-Appended c unix entry d now after id m t has packed w done = record {
    id = id;
    bytes = m;
    has_id = has;
    marshalled = packed;
    replied = refl;
    was_absent =
        B.conflict now after t (entry_key c id) done w.reads
        ∙ ap (λ (s : B.Db). value B P s (entry_key c id)) (w.start ∙ B.snapshot-begin d)
        ∙ w.absent;
    holds = λ j.
        B.get-commit now after t j done
        ∙ ap (λ (o : Option Bytes). or_written o (value B P now j)) (w.writes j)
        ∙ ground (arith, B.pending-begin d j);
  }

  pub append-Appended :
      (c : Channel) (unix : ℕ) (entry : Option Msg) (d now after : B.Db) (reply : Bytes)
      → append B P c unix entry d now ≡ (after, ok reply)
      → Appended c unix entry now after reply
  unfolding append
  append-Appended c unix entry d now after reply h =
      let (id, has, h₁) = >>=-eq-ok (entry_id entry) _ (settle-ok now _ h) in
      let (m, packed, h₂) = >>=-eq-ok (P.marshal (deref entry)) _ h₁ in
      let (t, wrote, h₃) =
        >>=-eq-ok (write_entry B P (entry_key c id) m (arrival_key c unix id) (B.begin d)) _ h₂ in
      let (d', done, h₄) = >>=-eq-ok (B.commit now t) _ h₃ in
      subst (λ (p : Bytes × B.Db). Appended c unix entry now p.1 p.0) (ok-injective h₄)
        (commit-Appended c unix entry d now d' id m t (entry_id-ok entry id has) packed
          (write_entry-Wrote (entry_key c id) m (arrival_key c unix id) (B.begin d) t wrote) done)
