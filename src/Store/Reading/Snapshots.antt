-- ===== src/Store/Reading/Snapshots.antt =====
-- A subscription over the snapshots that it opens one after the other.
use plan_vault_libp2p.Prelude.{
  ℕ, zero, Bool, ◌||◌, length-replicate, suc, ◌≤◌, ◌≡◌, refl, sym, ap, subst, ◌∙◌, List, [], ◌∷◌,
  true, false, Bytes, Slice, Dict, arith, length, replicate, bytes_of, ◌==◌, Bytes_eq, Bool-cases,
  inl, inr, leb,
}
use plan_vault_libp2p.Prelude.ByteStrings.{bytes_beq_iff}
use plan_vault_libp2p.Protos.{Msg}
use plan_vault_libp2p.Interfaces.{Badger, Proto, IsRising, IsAbove, seek_items}
use plan_vault_libp2p.Store.Options.{tail}
use plan_vault_libp2p.Store.Channel.{Channel}
use plan_vault_libp2p.Store.Reading.{opening, iterating, Reader, snapshot, Event, idle, step, run}
use plan_vault_libp2p.Store.Reading.Items.{seek_items-IsRising}
use plan_vault_libp2p.Store.Reading.Drain.{
  Messages, Drained, IsFresh, IsAbove-IsFresh, skip_seen, run-cons, noted, ended_view,
}
use plan_vault_libp2p.Store.Reading.Notified.{drain, events, full-events, room-events}

IsFresh-eq :
    (k : Bytes) (s : Slice) (items : Dict Bytes Bytes)
    → k ≡ bytes_of s
    → IsAbove k items
    → IsFresh s items
IsFresh-eq k s [] e h = tt
IsFresh-eq k s ((j, v) ∷ items) e h = rw (← e) (IsAbove-IsFresh k ((j, v) ∷ items) h)

module _ (B : Badger) (P : Proto) where
  step-seen :
      (c : Channel) (r : Reader) (k v : Bytes) (items : Dict Bytes Bytes)
      → leb r.max r.count ≡ false
      → (k == bytes_of r.last_seen) ≡ true
      → step B P c (record r { phase = iterating ((k, v) ∷ items) }) idle
        ≡ record r { phase = iterating items }
  unfolding step
  step-seen c r k v items room same = rw (room, same) refl

  step-snapshot :
      (c : Channel) (r : Reader) (d : B.Db)
      → r.phase ≡ opening
      → step B P c r (snapshot d) ≡ record r {
        dirty = false;
        phase = iterating (seek_items c.prefix (bytes_of r.key) (B.items d));
      }
  unfolding step
  step-snapshot c r d e = ground (arith, B.seek_lem d c.prefix (bytes_of r.key))

  drain_all :
      (c : Channel) (items : Dict Bytes Bytes) (r : Reader) (ms : List Msg) (bs : List Bool)
      → r.count ≤ r.max
      → r.max ≤ tail
      → IsRising items
      → Messages B P r.opts (skip_seen r.last_seen items) ms
      → length bs ≡ suc (length items)
      → Drained
          (record r { dirty = noted r.dirty bs })
          (skip_seen r.last_seen items)
          ms
          (run B P c (record r { phase = iterating items }) (events B P bs))
  drain_all c items r ms [] le small rising h n = absurd (omega (arith, n))
  drain_all c [] r ms (b ∷ bs) le small rising h n = drain B P c [] r ms (b ∷ bs) le small tt tt h n
  drain_all c ((k, v) ∷ items) r ms (b ∷ bs) le small rising h n =
      let r' : Reader = record r { dirty = b || r.dirty } in
      let after : Reader = record r { dirty = noted (b || r.dirty) bs } in
      elim (Bool-cases (k == bytes_of r.last_seen)) [
        | inr other ↦
            rw other
              (drain B P c ((k, v) ∷ items) r ms (b ∷ bs) le small other rising (rw other at h) n)
        | inl same ↦ elim (Bool-cases (leb r.max r.count)) [
          | inl full ↦
              subst (Drained after _ ms) (sym (full-events B P c r ((k, v) ∷ items) b bs full))
                (ended_view r _ ((k, v) ∷ items) ms after.dirty le full)
          | inr room ↦ rw same (
              subst (Drained after items ms)
                (sym (
                  room-events B P c r ((k, v) ∷ items) b bs room
                  ∙ ap (λ (q : Reader). run B P c q (events B P bs))
                      (step-seen c r' k v items room same)))
                (drain B P c items r' ms bs le small
                  (IsFresh-eq k r.last_seen items ((bytes_beq_iff k (bytes_of r.last_seen)).0 same)
                    rising.0)
                  rising.1 (rw same at h) (omega (arith, n))))
        ]
      ]

  -- The items that an iterator of the subscription passes.
  abbrev pub own_items : Channel → Slice → B.Db → Dict Bytes Bytes
  own_items c key d = seek_items c.prefix (bytes_of key) (B.items d)

  pub snapshot-Drained :
      (c : Channel) (r : Reader) (d : B.Db) (ms : List Msg) (notifications : List Bool)
      → r.phase ≡ opening
      → r.count ≤ r.max
      → r.max ≤ tail
      → Messages B P r.opts (skip_seen r.last_seen (own_items c r.key d)) ms
      → length notifications ≡ suc (length (own_items c r.key d))
      → Drained
          (record r { dirty = noted false notifications })
          (skip_seen r.last_seen (own_items c r.key d))
          ms
          (run B P c r (snapshot d ∷ events B P notifications))
  snapshot-Drained c r d ms bs at_start le small h n =
      let items = own_items c r.key d in
      let rising = seek_items-IsRising c.prefix (bytes_of r.key) (B.items d) (B.items-IsRising d) in
      subst (Drained (record r { dirty = noted false bs }) (skip_seen r.last_seen items) ms)
        (sym (
          run-cons B P c r (snapshot d) (events B P bs)
          ∙ ap (λ (q : Reader). run B P c q (events B P bs)) (step-snapshot c r d at_start)))
        (drain_all c items (record r { dirty = false }) ms bs le small rising h n)

  -- No notifications.
  quiet : (n : ℕ) → events B P (replicate n false) ≡ replicate n idle
  quiet zero = refl
  quiet (suc n) = ap (λ (es : List (Event B P)). idle ∷ es) (quiet n)

  quiet-noted : (n : ℕ) → noted false (replicate n false) ≡ false
  quiet-noted zero = refl
  quiet-noted (suc n) = quiet-noted n

  -- A snapshot during which nothing is written.
  pub quiet_snapshot-Drained :
      (c : Channel) (r : Reader) (d : B.Db) (ms : List Msg)
      → r.phase ≡ opening
      → r.count ≤ r.max
      → r.max ≤ tail
      → Messages B P r.opts (skip_seen r.last_seen (own_items c r.key d)) ms
      → Drained
          (record r { dirty = false })
          (skip_seen r.last_seen (own_items c r.key d))
          ms
          (run B P c r (snapshot d ∷ replicate (suc (length (own_items c r.key d))) idle))
  quiet_snapshot-Drained c r d ms at_start le small h =
      let n = suc (length (own_items c r.key d)) in
      subst
        (λ (es : List (Event B P)).
          Drained (record r { dirty = false }) (skip_seen r.last_seen (own_items c r.key d)) ms
            (run B P c r (snapshot d ∷ es)))
        (quiet n)
        (subst
          (λ (dirty : Bool).
            Drained (record r { dirty = dirty }) (skip_seen r.last_seen (own_items c r.key d)) ms
              (run B P c r (snapshot d ∷ events B P (replicate n false))))
          (quiet-noted n)
          (snapshot-Drained c r d ms (replicate n false) at_start le small h
            (length-replicate {A = Bool} n false)))
