-- ===== src/Store/Index/Ends.antt =====
-- readFromIndex ends.
use plan_vault_libp2p.Prelude.{
  ℕ, suc, ◌+◌, ◌-◌, ◌≤◌, ◌≡◌, refl, sym, subst, List, [], ◌∷◌, Bytes, Dict, Result, ok, err, panics,
  leb, length, arith, Bool-cases, inl, inr,
}
use plan_vault_libp2p.Protos.{Msg}
use plan_vault_libp2p.Interfaces.{Badger, Proto}
use plan_vault_libp2p.Store.Channel.{Channel}
use plan_vault_libp2p.Store.Index.{
  Chosen, cancelled, notified, idle, Progress, reading, ended, IndexReader, index_message,
  publish_indexed, select_index, step_index_at, step_index, run_index,
}

-- The rounds that the loop has at most: one for each item, and one that finds the end.
abbrev rounds_left : Progress → ℕ
rounds_left (reading items) = suc (length items)
rounds_left (ended result) = 0

-- A notification costs nothing.
abbrev cost : Chosen → ℕ
cost notified = 0
cost cancelled = 1
cost idle = 1

abbrev pub rounds : List Chosen → ℕ
rounds [] = 0
rounds (e ∷ es) = cost e + rounds es

of_none_left :
    (p : Progress) → rounds_left p ≡ 0 → (result : Result (Unit {0})) × (p ≡ ended result)
of_none_left (reading items) h = absurd (omega arith)
of_none_left (ended result) h = (result, refl)

module _ (B : Badger) (P : Proto) where
  publish_indexed-rounds :
      (r : IndexReader) (rest : Dict Bytes Bytes) (m : Result Msg)
      → rounds_left (publish_indexed B P r rest m).progress ≤ suc (length rest)
  unfolding publish_indexed
  publish_indexed-rounds r rest (ok m) = omega arith
  publish_indexed-rounds r rest (err e) = omega arith
  publish_indexed-rounds r rest panics = omega arith

  select_index-rounds :
      (c : Channel) (db : B.Db) (r : IndexReader) (items : Dict Bytes Bytes) (e : Chosen)
      → r.progress ≡ reading items
      → rounds_left (select_index B P c db r items e).progress ≤ suc (length items) - cost e
  unfolding select_index
  select_index-rounds c db r items cancelled h = omega arith
  select_index-rounds c db r items notified h =
      subst (λ (p : Progress). rounds_left p ≤ suc (length items) - 0) (sym h) (omega arith)
  select_index-rounds c db r [] idle h = omega arith
  select_index-rounds c db r ((k, v) ∷ rest) idle h =
      omega (arith, publish_indexed-rounds r rest (index_message B P c r.opts db k))

  step_index_at-rounds :
      (c : Channel) (db : B.Db) (r : IndexReader) (p : Progress) (e : Chosen)
      → r.progress ≡ p
      → rounds_left (step_index_at B P c db r p e).progress ≤ rounds_left p - cost e
  unfolding step_index_at
  step_index_at-rounds c db r (ended result) e h =
      subst (λ (p : Progress). rounds_left p ≤ 0 - cost e) (sym h) (omega arith)
  step_index_at-rounds c db r (reading items) e h = elim (Bool-cases (leb r.opts.max r.count)) [
    | inl full ↦ rw full (omega arith)
    | inr more ↦ rw more (select_index-rounds c db r items e h)
  ]

  run_index-rounds :
      (c : Channel) (db : B.Db) (r : IndexReader) (es : List Chosen)
      → rounds_left (run_index B P c db r es).progress ≤ rounds_left r.progress - rounds es
  unfolding run_index step_index
  run_index-rounds c db r [] = omega arith
  run_index-rounds c db r (e ∷ es) = omega (
    arith,
    run_index-rounds c db (step_index B P c db r e) es,
    step_index_at-rounds c db r r.progress e refl,
  )

  -- Whatever notifications come in between, a read of the index has ended after as many rounds of
  -- its loop as it has items left, and one more: with a result, an error or a panic.
  pub run_index_ends :
      (c : Channel) (db : B.Db) (r : IndexReader) (es : List Chosen)
      → rounds_left r.progress ≤ rounds es
      → (result : Result (Unit {0})) × ((run_index B P c db r es).progress ≡ ended result)
  run_index_ends c db r es enough =
      of_none_left (run_index B P c db r es).progress
        (omega (arith, run_index-rounds c db r es, enough))
