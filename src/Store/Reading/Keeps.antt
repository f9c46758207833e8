-- ===== src/Store/Reading/Keeps.antt =====
-- What a subscription that is not reset never changes: its options and its limit.
use plan_vault_libp2p.Prelude.{
  ◌≡◌, refl, ◌∙◌, List, [], ◌∷◌, Bytes, Dict, Result, ok, err, panics, ◌==◌, Bytes_eq, bytes_of,
  Bool-cases, inl, inr, leb, ℕ, zero, suc, replicate,
}
use plan_vault_libp2p.Protos.{Msg}
use plan_vault_libp2p.Interfaces.{Badger, Proto}
use plan_vault_libp2p.Store.Channel.{Channel}
use plan_vault_libp2p.Store.Reading.{
  Phase, opening, waiting, iterating, Reader, Event, snapshot, cancelled, notified, idle, reset,
  step, step_at, select, next_item, publish, end_view, run, message,
}
use plan_vault_libp2p.Store.Reading.Bounds.{NoReset, NoReset-head, NoReset-tail}

pub record Keeps (r q : Reader) : Type 0 where
  pub opts : q.opts ≡ r.opts
  pub max : q.max ≡ r.max

Keeps-all : (r : Reader) → Keeps r r
Keeps-all r = record { opts = refl; max = refl }

end_view-Keeps : (r : Reader) → Keeps r (end_view r)
unfolding end_view
end_view-Keeps r = elim (Bool-cases (leb r.max r.count)) [
  | inl full ↦ rw full (record { opts = refl; max = refl })
  | inr room ↦ rw room (elim (Bool-cases r.dirty) [
    | inl d ↦ rw d (record { opts = refl; max = refl })
    | inr d ↦ rw d (record { opts = refl; max = refl })
  ])
]

publish-Keeps :
    (r : Reader) (k : Bytes) (rest : Dict Bytes Bytes) (m : Result Msg)
    → Keeps r (publish r k rest m)
unfolding publish
publish-Keeps r k rest (ok msg) = record { opts = refl; max = refl }
publish-Keeps r k rest (err e) = record { opts = refl; max = refl }
publish-Keeps r k rest panics = record { opts = refl; max = refl }

module _ (B : Badger) (P : Proto) where
  next_item-Keeps : (r : Reader) (items : Dict Bytes Bytes) → Keeps r (next_item B P r items)
  unfolding next_item
  next_item-Keeps r [] = end_view-Keeps r
  next_item-Keeps r ((k, v) ∷ rest) = elim (Bool-cases (k == bytes_of r.last_seen)) [
    | inl same ↦ rw same (record { opts = refl; max = refl })
    | inr other ↦ rw other (publish-Keeps r k rest (message B P r.opts k v))
  ]

  select-Keeps :
      (c : Channel) (r : Reader) (items : Dict Bytes Bytes) (e : Event B P)
      → NoReset B P (e ∷ [])
      → Keeps r (select B P c r items e)
  unfolding select
  select-Keeps c r items (snapshot d) h = Keeps-all r
  select-Keeps c r items cancelled h = end_view-Keeps r
  select-Keeps c r items notified h = record { opts = refl; max = refl }
  select-Keeps c r items idle h = next_item-Keeps r items
  select-Keeps c r items (reset q d) h = absurd h

  step_at-Keeps :
      (c : Channel) (r : Reader) (ph : Phase) (e : Event B P)
      → NoReset B P (e ∷ [])
      → Keeps r (step_at B P c r ph e)
  unfolding step_at
  step_at-Keeps c r (iterating items) e h = elim (Bool-cases (leb r.max r.count)) [
    | inl full ↦ rw full (record { opts = refl; max = refl })
    | inr room ↦ rw room (select-Keeps c r items e h)
  ]
  step_at-Keeps c r opening (snapshot d) h = record { opts = refl; max = refl }
  step_at-Keeps c r waiting cancelled h = record { opts = refl; max = refl }
  step_at-Keeps c r waiting notified h = record { opts = refl; max = refl }
  step_at-Keeps c r _ _ h = Keeps-all r

  pub run-Keeps :
      (c : Channel) (r : Reader) (es : List (Event B P)) → NoReset B P es → Keeps r (run B P c r es)
  unfolding run step
  run-Keeps c r [] h = Keeps-all r
  run-Keeps c r (e ∷ es) h =
      let k = step_at-Keeps c r r.phase e (NoReset-head B P e es h) in
      let l = run-Keeps c (step B P c r e) es (NoReset-tail B P e es h) in
      record { opts = l.opts ∙ k.opts; max = l.max ∙ k.max }

  pub NoReset-idles : (n : ℕ) → NoReset B P (replicate n idle)
  NoReset-idles zero = tt
  NoReset-idles (suc n) = NoReset-idles n

  -- A subscription that waits opens a snapshot when it is notified.
  pub notified-opens :
      (c : Channel) (r : Reader)
      → r.phase ≡ waiting
      → step B P c r notified ≡ record r { phase = opening }
  unfolding step
  notified-opens c r e = rw e refl
