-- ===== src/Store/Reading/Drain.antt =====
-- What the subscription loop publishes of one snapshot, against a plain description of it.
use plan_vault_libp2p.Prelude.{
  ℕ, zero, suc, ◌+◌, ◌-◌, ◌≤◌, ◌<◌, ◌≡◌, refl, sym, ap, ◌∙◌, List, [], ◌∷◌, ◌++◌, some, true, false,
  Bool, ◌||◌, Bytes, Slice, Dict, ok, arith, length, take, bytes_of, ◌==◌, Bytes_eq, if◌then◌else◌,
  append_assoc, append-nil, Bool-cases, inl, inr, leb, bytes_ltb,
}
use plan_vault_libp2p.Prelude.ByteStrings.{bytes_beq_iff, bytes_ltb_irrefl}
use plan_vault_libp2p.Protos.{Msg}
use plan_vault_libp2p.Interfaces.{Badger, Proto, IsAbove}
use plan_vault_libp2p.Store.Options.{StreamOpts, tail}
use plan_vault_libp2p.Store.Channel.{Channel}
use plan_vault_libp2p.Store.Reading.{
  opening, waiting, iterating, finished, Reader, Event, idle, step, count_up, end_view, run,
  message,
}

-- The last key of the items, or the one before them.
abbrev pub last_or : Slice → Dict Bytes Bytes → Slice
last_or s [] = s
last_or s ((k, v) ∷ items) = last_or (some k) items

-- The first item is not the one that was seen last.
abbrev pub IsFresh : Slice → Dict Bytes Bytes → Type 0
IsFresh s [] = Unit
IsFresh s ((k, v) ∷ items) = (k == bytes_of s) ≡ false

pub IsAbove-IsFresh :
    (k : Bytes) (items : Dict Bytes Bytes) → IsAbove k items → IsFresh (some k) items
IsAbove-IsFresh k [] h = tt
IsAbove-IsFresh k ((j, v) ∷ items) h = elim (Bool-cases (j == k)) [
  | inl same ↦ cc (h, ap (bytes_ltb k) ((bytes_beq_iff j k).0 same), bytes_ltb_irrefl k)
  | inr other ↦ other
]

-- The items without a first one that was seen last.
abbrev pub skip_seen : Slice → Dict Bytes Bytes → Dict Bytes Bytes
skip_seen s [] = []
skip_seen s ((k, v) ∷ items) = if k == bytes_of s then items else (k, v) ∷ items

-- What a drained snapshot leaves: the messages of the items up to the limit, in their order, and
-- the end, a new snapshot or the wait.
pub record Drained (r : Reader) (items : Dict Bytes Bytes) (ms : List Msg) (q : Reader)
    : Type 0 where
  pub published : q.published ≡ r.published ++ take (r.max - r.count) ms
  pub full : r.max ≤ r.count + length ms → q.phase ≡ finished (ok tt)
  pub open_end :
      r.count + length ms < r.max
      → (q.phase ≡ (if r.dirty then opening else waiting))
        × (q.key ≡ last_or r.key items)
        × (q.last_seen ≡ last_or r.last_seen items)
        × (q.count ≡ r.count + length ms)

-- The state after an item was published.
abbrev pub behind : Reader → Bytes → Dict Bytes Bytes → Msg → Reader
behind r k items m = record r {
  count = count_up r.count;
  last_seen = some k;
  key = some k;
  phase = iterating items;
  published = r.published ++ m ∷ [];
}

pub take-nil {ℓ} : {A : Type ℓ} (n : ℕ) → take {A = A} n [] ≡ []
take-nil zero = refl
take-nil (suc n) = refl

end_view-published : (r : Reader) → (end_view r).published ≡ r.published
unfolding end_view
end_view-published r = elim (Bool-cases (leb r.max r.count)) [
  | inl full ↦ rw full refl
  | inr room ↦ rw room (elim (Bool-cases r.dirty) [ inl d ↦ rw d refl | inr d ↦ rw d refl ])
]

pub take-zero {ℓ} : {A : Type ℓ} (n : ℕ) (xs : List A) → n ≡ 0 → take n xs ≡ []
take-zero n xs e = rw e refl

pub take-suc {ℓ} :
    {A : Type ℓ} (n k : ℕ) (x : A) (xs : List A) → n ≡ suc k → take n (x ∷ xs) ≡ x ∷ take k xs
take-suc n k x xs e = rw e refl

pub end_view-Drained : (r : Reader) → Drained r [] [] (end_view (record r { phase = iterating [] }))
unfolding end_view
end_view-Drained r = record {
  published =
      end_view-published (record r { phase = iterating [] })
      ∙ sym (append-nil r.published)
      ∙ ap (◌++◌ r.published) (sym (take-nil (r.max - r.count)));
  full = λ le. ground arith;
  open_end = λ lt. ground arith;
}

pub full-Drained :
    (r : Reader) (items all : Dict Bytes Bytes) (ms : List Msg)
    → r.count ≤ r.max
    → leb r.max r.count ≡ true
    → Drained r items ms (end_view (record r { phase = iterating all }))
unfolding end_view
full-Drained r items all ms le full = rw full (record {
  published =
      sym (append-nil r.published)
      ∙ ap (◌++◌ r.published) (sym (take-zero (r.max - r.count) ms (ground arith)));
  full = λ _. refl;
  open_end = λ lt. absurd (ground arith);
})

-- The same, whatever was noted meanwhile.
pub ended_view :
    (r : Reader) (items all : Dict Bytes Bytes) (ms : List Msg) (dirty : Bool)
    → r.count ≤ r.max
    → leb r.max r.count ≡ true
    → Drained (record r { dirty = dirty }) items ms (end_view (record r { phase = iterating all }))
ended_view r items all ms dirty le full =
    let h = full-Drained r items all ms le full in
    record {
      published = h.published;
      full = h.full;
      open_end = λ lt. absurd (ground (arith, full, le));
    }

-- Whether a subscription is dirty after some moments.
abbrev pub noted : Bool → List Bool → Bool
noted dirty [] = dirty
noted dirty (b ∷ bs) = noted (b || dirty) bs

pub leb-false : (a b : ℕ) → leb a b ≡ false → b < a
leb-false a b h = ground arith

pub behind-Drained :
    (r : Reader) (k v : Bytes) (items : Dict Bytes Bytes) (m : Msg) (ms : List Msg) (q : Reader)
    → r.max ≤ tail
    → leb r.max r.count ≡ false
    → Drained (behind r k items m) items ms q
    → Drained r ((k, v) ∷ items) (m ∷ ms) q
behind-Drained r k v items m ms q small room h =
    let below = leb-false r.max r.count room in
    let counts : count_up r.count ≡ r.count + 1 = omega arith in
    record {
      published =
          h.published
          ∙ append_assoc r.published (m ∷ []) _
          ∙ ap (◌++◌ r.published) (
              sym (
                take-suc (r.max - r.count) (r.max - count_up r.count) m ms (omega (arith, below))));
      full = λ le. h.full (omega (arith, below));
      open_end = λ lt.
          let (ph, ky, ls, ct) = h.open_end (omega (arith, below)) in
          (ph, ky, ls, ct ∙ omega (arith, below));
    }

module _ (B : Badger) (P : Proto) where
  -- The messages of items, where each can be made.
  pub data Messages (opts : StreamOpts) : Dict Bytes Bytes → List Msg → Type 0 where
    nil : Messages opts [] []
    cons :
        {k v : Bytes} {items : Dict Bytes Bytes} {m : Msg} {ms : List Msg}
        → message B P opts k v ≡ ok m
        → Messages opts items ms
        → Messages opts ((k, v) ∷ items) (m ∷ ms)

  pub step-behind :
      (c : Channel) (r : Reader) (k v : Bytes) (items : Dict Bytes Bytes) (m : Msg)
      → leb r.max r.count ≡ false
      → (k == bytes_of r.last_seen) ≡ false
      → message B P r.opts k v ≡ ok m
      → step B P c (record r { phase = iterating ((k, v) ∷ items) }) idle ≡ behind r k items m
  unfolding step
  step-behind c r k v items m room new made = rw (room, new) (rw made refl)

  pub step-full :
      (c : Channel) (r : Reader) (items : Dict Bytes Bytes)
      → leb r.max r.count ≡ true
      → step B P c (record r { phase = iterating items }) idle
        ≡ end_view (record r { phase = iterating items })
  unfolding step
  step-full c r items full = ground arith

  pub step-end :
      (c : Channel) (r : Reader)
      → step B P c (record r { phase = iterating [] }) idle
        ≡ end_view (record r { phase = iterating [] })
  unfolding step
  step-end c r = ground arith

  pub run-cons :
      (c : Channel) (r : Reader) (e : Event B P) (es : List (Event B P))
      → run B P c r (e ∷ es) ≡ run B P c (step B P c r e) es
  unfolding run
  run-cons c r e es = refl

  pub run-nil : (c : Channel) (r : Reader) → run B P c r [] ≡ r
  unfolding run
  run-nil c r = refl
