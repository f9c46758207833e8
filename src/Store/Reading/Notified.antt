-- ===== src/Store/Reading/Notified.antt =====
-- A snapshot that is read to its end while notifications come.
use plan_vault_libp2p.Prelude.{
  suc, ◌≤◌, ◌≡◌, refl, sym, ap, subst, ◌∙◌, List, [], ◌∷◌, true, false, Bool, ◌||◌, Result, Bytes,
  Dict, ok, arith, length, Bytes_eq, Bool-cases, inl, inr, leb,
}
use plan_vault_libp2p.Protos.{Msg}
use plan_vault_libp2p.Interfaces.{Badger, Proto, IsRising}
use plan_vault_libp2p.Store.Options.{tail}
use plan_vault_libp2p.Store.Channel.{Channel}
use plan_vault_libp2p.Store.Reading.{
  iterating, finished, Reader, Event, idle, notified, step, end_view, run,
}
use plan_vault_libp2p.Store.Reading.Drain.{
  IsFresh, IsAbove-IsFresh, Drained, behind, end_view-Drained, ended_view, noted, leb-false,
  behind-Drained, Messages, nil, cons, step-behind, step-full, step-end, run-cons, run-nil,
}

module _ (B : Badger) (P : Proto) where
  -- The events while a snapshot is read: before each item, and before the end, a notification may
  -- come.
  abbrev pub events : List Bool → List (Event B P)
  events [] = []
  events (false ∷ bs) = idle ∷ events bs
  events (true ∷ bs) = notified ∷ idle ∷ events bs

  step-notified :
      (c : Channel) (r : Reader) (items : Dict Bytes Bytes)
      → leb r.max r.count ≡ false
      → step B P c (record r { phase = iterating items }) notified
        ≡ record r { phase = iterating items; dirty = true }
  unfolding step
  step-notified c r items room = rw room refl

  notified-full :
      (c : Channel) (r : Reader) (items : Dict Bytes Bytes)
      → leb r.max r.count ≡ true
      → step B P c (record r { phase = iterating items }) notified
        ≡ end_view (record r { phase = iterating items })
  unfolding step
  notified-full c r items full = rw full refl

  -- Nothing changes a subscription that has ended.
  finished-events :
      (c : Channel) (r : Reader) (x : Result (Unit {0})) (bs : List Bool)
      → run B P c (record r { phase = finished x }) (events bs) ≡ record r { phase = finished x }
  unfolding run step
  finished-events c r x [] = refl
  finished-events c r x (false ∷ bs) = finished-events c r x bs
  finished-events c r x (true ∷ bs) = finished-events c r x bs

  end_view-full :
      (r : Reader) → leb r.max r.count ≡ true → end_view r ≡ record r { phase = finished (ok tt) }
  unfolding end_view
  end_view-full r full = rw full refl

  ended-events :
      (c : Channel) (r : Reader) (bs : List Bool)
      → leb r.max r.count ≡ true
      → run B P c (end_view r) (events bs) ≡ end_view r
  ended-events c r bs full =
      ap (λ (q : Reader). run B P c q (events bs)) (end_view-full r full)
      ∙ finished-events c r (ok tt) bs
      ∙ sym (end_view-full r full)

  -- At the limit, the first event ends the view.
  pub full-events :
      (c : Channel) (r : Reader) (items : Dict Bytes Bytes) (b : Bool) (bs : List Bool)
      → leb r.max r.count ≡ true
      → run B P c (record r { phase = iterating items }) (events (b ∷ bs))
        ≡ end_view (record r { phase = iterating items })
  full-events c r items false bs full =
      run-cons B P c (record r { phase = iterating items }) idle (events bs)
      ∙ ap (λ (q : Reader). run B P c q (events bs)) (step-full B P c r items full)
      ∙ ended-events c (record r { phase = iterating items }) bs full
  full-events c r items true bs full =
      run-cons B P c (record r { phase = iterating items }) notified (events (false ∷ bs))
      ∙ ap (λ (q : Reader). run B P c q (events (false ∷ bs))) (notified-full c r items full)
      ∙ ended-events c (record r { phase = iterating items }) (false ∷ bs) full

  -- Below the limit, a notification is noted.
  pub room-events :
      (c : Channel) (r : Reader) (items : Dict Bytes Bytes) (b : Bool) (bs : List Bool)
      → leb r.max r.count ≡ false
      → run B P c (record r { phase = iterating items }) (events (b ∷ bs))
        ≡ run B P c
            (step B P c (record r { phase = iterating items; dirty = b || r.dirty }) idle)
            (events bs)
  room-events c r items false bs room =
      run-cons B P c (record r { phase = iterating items }) idle (events bs)
  room-events c r items true bs room =
      run-cons B P c (record r { phase = iterating items }) notified (events (false ∷ bs))
      ∙ ap (λ (q : Reader). run B P c q (events (false ∷ bs))) (step-notified c r items room)
      ∙ run-cons B P c (record r { phase = iterating items; dirty = true }) idle (events bs)

  pub drain :
      (c : Channel) (items : Dict Bytes Bytes) (r : Reader) (ms : List Msg) (bs : List Bool)
      → r.count ≤ r.max
      → r.max ≤ tail
      → IsFresh r.last_seen items
      → IsRising items
      → Messages B P r.opts items ms
      → length bs ≡ suc (length items)
      → Drained
          (record r { dirty = noted r.dirty bs })
          items
          ms
          (run B P c (record r { phase = iterating items }) (events bs))
  drain c items r ms [] le small fresh rising es n = absurd (omega (arith, n))
  drain c [] r ms (b ∷ b' ∷ bs) le small fresh rising es n = absurd (omega (arith, n))
  drain c [] r (m ∷ ms) (b ∷ []) le small fresh rising es n = elim es [ ]
  drain c [] r [] (b ∷ []) le small fresh rising nil n =
      let r' : Reader = record r { dirty = b || r.dirty } in
      elim (Bool-cases (leb r.max r.count)) [
        | inl full ↦
            subst (Drained r' [] []) (sym (full-events c r [] b [] full))
              (ended_view r [] [] [] (b || r.dirty) le full)
        | inr room ↦
            subst (Drained r' [] [])
              (sym (room-events c r [] b [] room ∙ run-nil B P c _ ∙ step-end B P c r'))
              (end_view-Drained r')
      ]
  drain c ((k, v) ∷ items) r [] bs le small fresh rising es n = elim es [ ]
  drain c ((k, v) ∷ items) r (m ∷ ms) (b ∷ bs) le small fresh rising (cons e es) n =
      let r' : Reader = record r { dirty = b || r.dirty } in
      let after : Reader = record r { dirty = noted (b || r.dirty) bs } in
      elim (Bool-cases (leb r.max r.count)) [
        | inl full ↦
            subst (Drained after ((k, v) ∷ items) (m ∷ ms))
              (sym (full-events c r ((k, v) ∷ items) b bs full))
              (ended_view r ((k, v) ∷ items) ((k, v) ∷ items) (m ∷ ms) after.dirty le full)
        | inr room ↦
            subst (Drained after ((k, v) ∷ items) (m ∷ ms))
              (sym (
                room-events c r ((k, v) ∷ items) b bs room
                ∙ ap (λ (q : Reader). run B P c q (events bs))
                    (step-behind B P c r' k v items m room fresh e)))
              (behind-Drained after k v items m ms _ small room (
                drain c items (behind r' k items m) ms bs
                  (omega (arith, leb-false r.max r.count room)) small
                  (IsAbove-IsFresh k items rising.0) rising.1 es (omega (arith, n))))
      ]
