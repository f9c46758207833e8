-- ===== src/Store/Reading/Bounds.antt =====
-- What holds of the subscription loop over every sequence of events.
use plan_vault_libp2p.Prelude.{
  ℕ, ◌≤◌, ◌<◌, ◌≡◌, refl, List, [], ◌∷◌, Bytes, Dict, Result, ok, arith, length, length-append,
  Bool-cases, inl, inr, leb, ◌==◌, Bytes_eq, bytes_of,
}
use plan_vault_libp2p.Protos.{Msg}
use plan_vault_libp2p.Interfaces.{Badger, Proto}
use plan_vault_libp2p.Store.Options.{StreamOpts, tail}
use plan_vault_libp2p.Store.Channel.{Channel}
use plan_vault_libp2p.Store.Reading.{
  Phase, opening, waiting, iterating, Reader, Event, snapshot, cancelled, notified, idle, reset,
  step, step_at, select, next_item, publish, end_view, run, start, message,
}

-- The count is the number of entries that went to the target, and is in range with the limit.
pub record IsCounted (n : ℕ) (r : Reader) : Type 0 where
  pub counted : r.count ≡ length r.published
  pub within : r.count ≤ n
  pub limit : r.max ≡ n

end_view-IsCounted : (n : ℕ) (r : Reader) → IsCounted n r → IsCounted n (end_view r)
unfolding end_view
end_view-IsCounted n r h = ground arith

publish-IsCounted :
    (n : ℕ) (r : Reader) (k : Bytes) (rest : Dict Bytes Bytes) (m : Result Msg)
    → n ≤ tail
    → r.count < n
    → IsCounted n r
    → IsCounted n (publish r k rest m)
unfolding publish
publish-IsCounted n r k rest (ok msg) small lt h = record {
  counted = omega (arith, h.counted, length-append r.published (msg ∷ []));
  within = omega (arith, h.within);
  limit = h.limit;
}
publish-IsCounted n r k rest _ small lt h = record {
  counted = h.counted;
  within = h.within;
  limit = h.limit;
}

module _ (B : Badger) (P : Proto) where
  -- A reset brings another limit; the events here have none.
  abbrev pub NoReset : List (Event B P) → Type 0
  NoReset [] = Unit
  NoReset (snapshot d ∷ es) = NoReset es
  NoReset (cancelled ∷ es) = NoReset es
  NoReset (notified ∷ es) = NoReset es
  NoReset (idle ∷ es) = NoReset es
  NoReset (reset q d ∷ es) = ⊥

  next_item-IsCounted :
      (n : ℕ) (r : Reader) (items : Dict Bytes Bytes)
      → n ≤ tail
      → r.count < n
      → IsCounted n r
      → IsCounted n (next_item B P r items)
  unfolding next_item
  next_item-IsCounted n r [] small lt h = end_view-IsCounted n r h
  next_item-IsCounted n r ((k, v) ∷ rest) small lt h =
      elim (Bool-cases (k == bytes_of r.last_seen)) [
        | inl same ↦ rw same (record { counted = h.counted; within = h.within; limit = h.limit })
        | inr other ↦ rw other (publish-IsCounted n r k rest (message B P r.opts k v) small lt h)
      ]

  select-IsCounted :
      (n : ℕ) (c : Channel) (r : Reader) (items : Dict Bytes Bytes) (e : Event B P)
      → NoReset (e ∷ [])
      → n ≤ tail
      → r.count < n
      → IsCounted n r
      → IsCounted n (select B P c r items e)
  unfolding select
  select-IsCounted n c r items (snapshot d) no_reset small lt h = h
  select-IsCounted n c r items cancelled no_reset small lt h = end_view-IsCounted n r h
  select-IsCounted n c r items notified no_reset small lt h = record {
    counted = h.counted;
    within = h.within;
    limit = h.limit;
  }
  select-IsCounted n c r items idle no_reset small lt h = next_item-IsCounted n r items small lt h
  select-IsCounted n c r items (reset q d) no_reset small lt h = absurd no_reset

  step_at-IsCounted :
      (n : ℕ) (c : Channel) (r : Reader) (ph : Phase) (e : Event B P)
      → NoReset (e ∷ [])
      → n ≤ tail
      → IsCounted n r
      → IsCounted n (step_at B P c r ph e)
  unfolding step_at
  step_at-IsCounted n c r (iterating items) e no_reset small h =
      elim (Bool-cases (leb r.max r.count)) [
        | inl full ↦ rw full (record { counted = h.counted; within = h.within; limit = h.limit })
        | inr room ↦
            rw room (select-IsCounted n c r items e no_reset small (ground (arith, h.limit)) h)
      ]
  step_at-IsCounted n c r opening (snapshot d) no_reset small h = record {
    counted = h.counted;
    within = h.within;
    limit = h.limit;
  }
  step_at-IsCounted n c r waiting cancelled no_reset small h = record {
    counted = h.counted;
    within = h.within;
    limit = h.limit;
  }
  step_at-IsCounted n c r waiting notified no_reset small h = record {
    counted = h.counted;
    within = h.within;
    limit = h.limit;
  }
  step_at-IsCounted n c r _ _ no_reset small h = h

  pub NoReset-head : (e : Event B P) (es : List (Event B P)) → NoReset (e ∷ es) → NoReset (e ∷ [])
  NoReset-head (reset q d) es h = h
  NoReset-head _ es h = tt

  pub NoReset-tail : (e : Event B P) (es : List (Event B P)) → NoReset (e ∷ es) → NoReset es
  NoReset-tail (reset q d) es h = absurd h
  NoReset-tail (snapshot d) es h = h
  NoReset-tail cancelled es h = h
  NoReset-tail notified es h = h
  NoReset-tail idle es h = h

  run-IsCounted :
      (n : ℕ) (c : Channel) (r : Reader) (es : List (Event B P))
      → NoReset es
      → n ≤ tail
      → IsCounted n r
      → IsCounted n (run B P c r es)
  unfolding run step
  run-IsCounted n c r [] no_reset small h = h
  run-IsCounted n c r (e ∷ es) no_reset small h =
      run-IsCounted n c (step B P c r e) es (NoReset-tail e es no_reset) small
        (step_at-IsCounted n c r r.phase e (NoReset-head e es no_reset) small h)

  -- Whatever notifications, snapshots and cancellations come, in any order, a subscription that is
  -- not reset publishes at most as many entries as its options ask for, given that this is a
  -- uint64, and counts them exactly.
  pub published-le-max :
      (c : Channel) (opts : StreamOpts) (d : B.Db) (es : List (Event B P))
      → opts.max ≤ tail
      → NoReset es
      → let r = run B P c (start B P c opts d) es in
        (length r.published ≤ opts.max) × (r.count ≡ length r.published)
  published-le-max c opts d es small no_reset =
      let h =
        run-IsCounted opts.max c (start B P c opts d) es no_reset small
          (unfold start in record { counted = refl; within = omega arith; limit = refl }) in
      (omega (arith, h.counted, h.within), h.counted)
