-- ===== src/Store/Index/CatchUp.antt =====
-- What a client that reads the index catches up on.
use plan_vault_libp2p.Prelude.{
  ℕ, zero, suc, ◌-◌, ◌≤◌, ◌≡◌, refl, sym, ap, subst, ◌∙◌, List, [], ◌∷◌, ◌++◌, some, true, false,
  Bytes, Dict, Result, ok, ◌>>=◌, length, take, leb, eq_of_some, arith, append_assoc, append-nil,
  replicate, if◌then◌else◌, Bool-cases, inl, inr,
}
use plan_vault_libp2p.Protos.{Msg, get_entry_id}
use plan_vault_libp2p.Interfaces.{Badger, Proto, wire}
use plan_vault_libp2p.Store.Options.{StreamOpts, tail, keys_only}
use plan_vault_libp2p.Store.Channel.{Channel}
use plan_vault_libp2p.Store.Keys.{entry_key, arrival_key}
use plan_vault_libp2p.Store.Keys.Layout.{HasPrefixes, fit}
use plan_vault_libp2p.Store.Keys.Roundtrip.{
  entry_id_from_index-arrival_key, entry_key_from_index-arrival_key,
}
use plan_vault_libp2p.Store.Entries.{append, value}
use plan_vault_libp2p.Store.Entries.Appends.{Appended, append-Appended}
use plan_vault_libp2p.Store.Entries.AppendOnly.{value-Appended}
use plan_vault_libp2p.Store.Reading.{id_msg, count_up}
use plan_vault_libp2p.Store.Reading.Drain.{take-nil, take-zero, take-suc}
use plan_vault_libp2p.Store.Index.{
  idle, reading, ended, IndexReader, index_message, run_index, step_index, step_index_at,
  select_index, publish_indexed,
}

module _ (B : Badger) (P : Proto) where
  index_message-full :
      (c : Channel) (opts : StreamOpts) (db : B.Db) (unix : ℕ) (id v : Bytes) (m : Msg)
      → HasPrefixes c
      → value B P db (entry_key c id) ≡ ok v
      → P.unmarshal v ≡ ok m
      → index_message B P c opts db (arrival_key c unix id)
        ≡ (if keys_only opts then id_msg (ok (fit 30 id)) else ok m)
  unfolding index_message
  index_message-full c opts db unix id v m p there read = elim (Bool-cases (keys_only opts)) [
    | inl e ↦ rw e (ap id_msg (entry_id_from_index-arrival_key c unix id p))
    | inr e ↦ rw e (
        ap
          (λ (r : Result Bytes).
            r >>= λ (k : Bytes). value B P db k >>= λ (b : Bytes). P.unmarshal b)
          (entry_key_from_index-arrival_key c unix id p)
        ∙ ap (λ (r : Result Bytes). r >>= λ (b : Bytes). P.unmarshal b) there
        ∙ read)
  ]

  -- The arrival key that an Append gave as its reply, in a channel with 33-byte prefixes, leads the
  -- index reader to the entry as it is read from the wire, or with OptKeysOnly to its ID, cut or
  -- padded to thirty bytes.
  index_message-append :
      (c : Channel) (opts : StreamOpts) (unix : ℕ) (m : Msg) (id : Bytes) (d now after : B.Db)
      (reply : Bytes)
      → HasPrefixes c
      → get_entry_id m.entry_header ≡ some id
      → append B P c unix (some m) d now ≡ (after, ok reply)
      → index_message B P c opts after reply
        ≡ (if keys_only opts then id_msg (ok (fit 30 id)) else ok (wire m))
  index_message-append c opts unix m id d now after reply p has h =
      let a : Appended B P c unix (some m) now after reply =
        append-Appended B P c unix (some m) d now after reply h in
      let same : a.id ≡ id = eq_of_some (sym a.has_id ∙ has) in
      ap (index_message B P c opts after) a.replied
      ∙ index_message-full c opts after unix a.id a.bytes (wire m) p
          (value-Appended B P c unix (some m) now after reply a)
          (P.unmarshal-marshal m a.bytes a.marshalled)
      ∙ ap (λ (i : Bytes). if keys_only opts then id_msg (ok (fit 30 i)) else ok (wire m)) same

  -- The messages of index items, where each can be made.
  pub data Found (c : Channel) (opts : StreamOpts) (db : B.Db)
      : Dict Bytes Bytes → List Msg → Type 0 where
    none_left : Found c opts db [] []
    found :
        {k v : Bytes} {items : Dict Bytes Bytes} {m : Msg} {ms : List Msg}
        → index_message B P c opts db k ≡ ok m
        → Found c opts db items ms
        → Found c opts db ((k, v) ∷ items) (m ∷ ms)

  stays_ended :
      (c : Channel) (db : B.Db) (r : IndexReader) (n : ℕ)
      → run_index B P c db (record r { progress = ended (ok tt) }) (replicate n idle)
        ≡ record r { progress = ended (ok tt) }
  unfolding run_index step_index step_index_at
  stays_ended c db r zero = refl
  stays_ended c db r (suc n) = stays_ended c db r n

  abbrev at_items : IndexReader → Dict Bytes Bytes → IndexReader
  at_items r items = record r { progress = reading items }

  abbrev behind : IndexReader → Dict Bytes Bytes → Msg → IndexReader
  behind r items m = record r {
    count = count_up r.count;
    progress = reading items;
    published = r.published ++ m ∷ [];
  }

  step_full :
      (c : Channel) (db : B.Db) (r : IndexReader) (items : Dict Bytes Bytes)
      → leb r.opts.max r.count ≡ true
      → step_index B P c db (at_items r items) idle ≡ record r { progress = ended (ok tt) }
  unfolding step_index step_index_at
  step_full c db r items full = rw full refl

  step_end :
      (c : Channel) (db : B.Db) (r : IndexReader)
      → step_index B P c db (at_items r []) idle ≡ record r { progress = ended (ok tt) }
  unfolding step_index step_index_at select_index
  step_end c db r = ground arith

  step_found :
      (c : Channel) (db : B.Db) (r : IndexReader) (k v : Bytes) (items : Dict Bytes Bytes) (m : Msg)
      → leb r.opts.max r.count ≡ false
      → index_message B P c r.opts db k ≡ ok m
      → step_index B P c db (at_items r ((k, v) ∷ items)) idle ≡ behind r items m
  unfolding step_index step_index_at select_index publish_indexed
  step_found c db r k v items m room e = rw room (rw e refl)

  -- What the reader has published, and that it ended.
  pub record CaughtUp (r : IndexReader) (ms : List Msg) (q : IndexReader) : Type 0 where
    pub published : q.published ≡ r.published ++ take (r.opts.max - r.count) ms
    pub progress : q.progress ≡ ended (ok tt)

  one_more :
      (r : IndexReader) (items : Dict Bytes Bytes) (m : Msg) (ms : List Msg) (q : IndexReader)
      → leb r.opts.max r.count ≡ false
      → r.opts.max ≤ tail
      → CaughtUp (behind r items m) ms q
      → CaughtUp r (m ∷ ms) q
  one_more r items m ms q room small h = record {
    published =
        h.published
        ∙ append_assoc r.published (m ∷ []) (take (r.opts.max - count_up r.count) ms)
        ∙ ap (λ (xs : List Msg). r.published ++ xs)
            (sym (
              take-suc (r.opts.max - r.count) (r.opts.max - count_up r.count) m ms (ground arith)));
    progress = h.progress;
  }

  full-CaughtUp :
      (r : IndexReader) (ms : List Msg)
      → leb r.opts.max r.count ≡ true
      → CaughtUp r ms (record r { progress = ended (ok tt) })
  full-CaughtUp r ms full = record {
    published =
        sym (append-nil r.published)
        ∙ ap (λ (xs : List Msg). r.published ++ xs)
            (sym (take-zero (r.opts.max - r.count) ms (ground arith)));
    progress = refl;
  }

  -- A reader of the index whose count is within its limit, that within a uint64, and whose messages
  -- can all be made, publishes the messages of the arrival keys that its iterator has left, in
  -- their order, up to its limit, and then ends without an error. One event for each key, and one
  -- more, do.
  pub run_index-CaughtUp :
      (c : Channel) (db : B.Db) (items : Dict Bytes Bytes) (r : IndexReader) (ms : List Msg)
      → r.count ≤ r.opts.max
      → r.opts.max ≤ tail
      → Found c r.opts db items ms
      → CaughtUp r ms (
          run_index B P c db
            (record r { progress = reading items })
            (replicate (suc (length items)) idle))
  unfolding run_index
  run_index-CaughtUp c db [] r [] le small none_left =
      subst (CaughtUp r []) (sym (step_end c db r)) (record {
        published =
            sym (append-nil r.published)
            ∙ ap (λ (xs : List Msg). r.published ++ xs) (sym (take-nil (r.opts.max - r.count)));
        progress = refl;
      })
  run_index-CaughtUp c db [] r (m ∷ ms) le small es = elim es [ ]
  run_index-CaughtUp c db ((k, v) ∷ items) r [] le small es = elim es [ ]
  run_index-CaughtUp c db ((k, v) ∷ items) r (m ∷ ms) le small (found e es) =
      let later = λ (q : IndexReader). run_index B P c db q (replicate (suc (length items)) idle) in
      elim (Bool-cases (leb r.opts.max r.count)) [
        | inl full ↦
            subst (CaughtUp r (m ∷ ms))
              (sym (
                ap later (step_full c db r ((k, v) ∷ items) full)
                ∙ stays_ended c db r (suc (length items))))
              (full-CaughtUp r (m ∷ ms) full)
        | inr room ↦
            subst (CaughtUp r (m ∷ ms)) (sym (ap later (step_found c db r k v items m room e))) (
              one_more r items m ms _ room small
                (run_index-CaughtUp c db items (behind r items m) ms (ground arith) small es))
      ]
