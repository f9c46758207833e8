-- ===== src/Store/Reading/Items.antt =====
-- What an iterator passes of the keys and values of a snapshot, which rise: the keys with its
-- prefix from a key on, and all of them.
use plan_vault_libp2p.Prelude.{
  ◌≡◌, refl, ap, ◌∙◌, [], ◌∷◌, some, true, false, Bool, Bytes, Dict, Bytes_eq, ◌==◌, lookup, All,
  All-map, take_while, drop_while, has_prefix, bytes_ltb, Bool-cases, inl, inr, arith,
}
use plan_vault_libp2p.Prelude.Maps.{eq_self}
use plan_vault_libp2p.Prelude.ByteStrings.{
  bytes_beq_iff, bytes_ltb_irrefl, bytes_ltb_trans, bytes_ltb_total,
}
use plan_vault_libp2p.Interfaces.{IsRising, IsAbove, seek_items, seek_from}

IsAbove-take_while :
    (p : Bytes × Bytes → Bool) (k : Bytes) (items : Dict Bytes Bytes)
    → IsAbove k items
    → IsAbove k (take_while p items)
IsAbove-take_while p k [] h = tt
IsAbove-take_while p k (it ∷ items) h = elim (Bool-cases (p it)) [
  | inl e ↦ rw e h
  | inr e ↦ rw e tt
]

take_while-IsRising :
    (p : Bytes × Bytes → Bool) (items : Dict Bytes Bytes)
    → IsRising items
    → IsRising (take_while p items)
take_while-IsRising p [] h = tt
take_while-IsRising p (it ∷ items) h = elim (Bool-cases (p it)) [
  | inl e ↦ rw e (IsAbove-take_while p it.0 items h.0, take_while-IsRising p items h.1)
  | inr e ↦ rw e tt
]

drop_while-IsRising :
    (p : Bytes × Bytes → Bool) (items : Dict Bytes Bytes)
    → IsRising items
    → IsRising (drop_while p items)
drop_while-IsRising p [] h = tt
drop_while-IsRising p (it ∷ items) h = elim (Bool-cases (p it)) [
  | inl e ↦ rw e (drop_while-IsRising p items h.1)
  | inr e ↦ rw e h
]

pub seek_items-IsRising :
    (p k : Bytes) (items : Dict Bytes Bytes) → IsRising items → IsRising (seek_items p k items)
seek_items-IsRising p k items h =
    take_while-IsRising (λ it. has_prefix p it.0)
      (drop_while (λ it. bytes_ltb it.0 (seek_from p k)) items)
      (drop_while-IsRising (λ it. bytes_ltb it.0 (seek_from p k)) items h)

-- A key between a prefix and a key that has it.
prefix_between :
    (p j k : Bytes)
    → has_prefix p k ≡ true
    → bytes_ltb j p ≡ false
    → bytes_ltb k j ≡ false
    → has_prefix p j ≡ true
prefix_between [] j k h l r = refl
prefix_between (x ∷ p) [] k h l r = cc
prefix_between (x ∷ p) (y ∷ j) [] h l r = cc
prefix_between (x ∷ p) (y ∷ j) (z ∷ k) h l r = ground (arith, prefix_between p j k)

not_below : (a p f : Bytes) → bytes_ltb a f ≡ false → bytes_ltb f p ≡ false → bytes_ltb a p ≡ false
not_below a p f h g = elim (Bool-cases (bytes_ltb a p)) [
  | inr e ↦ e
  | inl e ↦ ground (arith, bytes_ltb_total f p, bytes_beq_iff p f, bytes_ltb_trans a p f)
]

-- A key further on is above the first one.
IsAbove-lookup :
    (k j v : Bytes) (m : Dict Bytes Bytes)
    → IsAbove k m
    → IsRising m
    → lookup j m ≡ some v
    → bytes_ltb k j ≡ true
unfolding lookup
IsAbove-lookup k j v [] a r h = cc
IsAbove-lookup k j v ((i, w) ∷ m) a r h = elim (Bool-cases (i == j)) [
  | inl same ↦ cc (a, (bytes_beq_iff i j).0 same)
  | inr other ↦ bytes_ltb_trans k i j a (IsAbove-lookup i j v m r.0 r.1 (rw (other, lookup) at h))
]

-- Each item is what a lookup of its key finds.
pub lookup_self :
    (m : Dict Bytes Bytes) → IsRising m → All (λ (it : Bytes × Bytes). lookup it.0 m ≡ some it.1) m
unfolding lookup
lookup_self [] r = tt
lookup_self ((k, v) ∷ m) r = (
  rw (eq_self k) refl,
  All-map _ _
      (λ (it : Bytes × Bytes) (found : lookup it.0 m ≡ some it.1). elim (Bool-cases (k == it.0)) [
        | inr other ↦ rw (other, lookup) found
        | inl same ↦ absurd (
            cc (
              IsAbove-lookup k it.0 it.1 m r.0 r.1 found,
              ap (bytes_ltb k) ((bytes_beq_iff k it.0).0 same),
              bytes_ltb_irrefl k,
            ))
      ])
      m (lookup_self m r.1),
)

lookup-drop_while :
    (k v from : Bytes) (m : Dict Bytes Bytes)
    → bytes_ltb k from ≡ false
    → lookup k m ≡ some v
    → lookup k (drop_while (λ (it : Bytes × Bytes). bytes_ltb it.0 from) m) ≡ some v
unfolding lookup
lookup-drop_while k v from [] h found = found
lookup-drop_while k v from ((j, w) ∷ m) h found = elim (Bool-cases (bytes_ltb j from)) [
  | inr kept ↦ rw kept found
  | inl below ↦ elim (Bool-cases (j == k)) [
    | inl same ↦
        absurd (cc (below, h, ap (λ (b : Bytes). bytes_ltb b from) ((bytes_beq_iff j k).0 same)))
    | inr other ↦ rw below (lookup-drop_while k v from m h (rw (other, lookup) at found))
  ]
]

-- The first key is not below `p`.
abbrev pub Starts : Bytes → Dict Bytes Bytes → Type 0
Starts p [] = Unit
Starts p (it ∷ m) = bytes_ltb it.0 p ≡ false

Starts-above :
    (p k : Bytes) (m : Dict Bytes Bytes) → bytes_ltb k p ≡ false → IsAbove k m → Starts p m
Starts-above p k [] h a = tt
Starts-above p k ((j, w) ∷ m) h a = elim (Bool-cases (bytes_ltb j p)) [
  | inr e ↦ e
  | inl e ↦ absurd (cc (h, bytes_ltb_trans k j p a e))
]

Starts-drop_while :
    (p from : Bytes) (m : Dict Bytes Bytes)
    → bytes_ltb from p ≡ false
    → Starts p (drop_while (λ (it : Bytes × Bytes). bytes_ltb it.0 from) m)
Starts-drop_while p from [] h = tt
Starts-drop_while p from ((j, w) ∷ m) h = elim (Bool-cases (bytes_ltb j from)) [
  | inl below ↦ rw below (Starts-drop_while p from m h)
  | inr kept ↦ rw kept (not_below j p from kept h)
]

pub not_both_below : (a b : Bytes) → bytes_ltb b a ≡ true → bytes_ltb a b ≡ false
not_both_below a b h = elim (Bool-cases (bytes_ltb a b)) [
  | inr e ↦ e
  | inl e ↦ absurd (cc (bytes_ltb_trans a b a e h, bytes_ltb_irrefl a))
]

lookup-take_while :
    (p k v : Bytes) (m : Dict Bytes Bytes)
    → has_prefix p k ≡ true
    → Starts p m
    → IsRising m
    → lookup k m ≡ some v
    → lookup k (take_while (λ (it : Bytes × Bytes). has_prefix p it.0) m) ≡ some v
unfolding lookup
lookup-take_while p k v [] own s r found = found
lookup-take_while p k v ((j, w) ∷ m) own s r found = elim (Bool-cases (j == k)) [
  | inl same ↦
      let e = (bytes_beq_iff j k).0 same in
      rw (ap (has_prefix p) e ∙ own) (rw (same, lookup) (rw (same, lookup) at found))
  | inr other ↦
      let later : lookup k m ≡ some v = rw (other, lookup) at found in
      let above = IsAbove-lookup j k v m r.0 r.1 later in
      rw (prefix_between p j k own s (not_both_below k j above))
        (rw (other, lookup) (lookup-take_while p k v m own (Starts-above p j m s r.0) r.1 later))
]

All-drop_while :
    (p : Bytes × Bytes → Bool) (Q : Bytes × Bytes → Type 0) (m : Dict Bytes Bytes)
    → All Q m
    → All Q (drop_while p m)
All-drop_while p Q [] h = tt
All-drop_while p Q (it ∷ m) h = elim (Bool-cases (p it)) [
  | inl e ↦ rw e (All-drop_while p Q m h.1)
  | inr e ↦ rw e h
]

All-take_while :
    (p : Bytes × Bytes → Bool) (Q : Bytes × Bytes → Type 0) (m : Dict Bytes Bytes)
    → All Q m
    → All (λ (it : Bytes × Bytes). (p it ≡ true) × Q it) (take_while p m)
All-take_while p Q [] h = tt
All-take_while p Q (it ∷ m) h = elim (Bool-cases (p it)) [
  | inl e ↦ rw e ((e, h.0), All-take_while p Q m h.1)
  | inr e ↦ rw e tt
]

-- Nothing with the prefix from the key on is passed over.
pub lookup-seek_items :
    (p key k v : Bytes) (m : Dict Bytes Bytes)
    → IsRising m
    → bytes_ltb (seek_from p key) p ≡ false
    → has_prefix p k ≡ true
    → bytes_ltb k (seek_from p key) ≡ false
    → lookup k m ≡ some v
    → lookup k (seek_items p key m) ≡ some v
lookup-seek_items p key k v m r starts own reached found =
    let from : Bytes = seek_from p key in
    lookup-take_while p k v _ own (Starts-drop_while p from m starts)
      (drop_while-IsRising (λ (it : Bytes × Bytes). bytes_ltb it.0 from) m r)
      (lookup-drop_while k v from m reached found)

-- Only keys with the prefix are passed.
pub All-seek_items :
    (p key : Bytes) (Q : Bytes × Bytes → Type 0) (m : Dict Bytes Bytes)
    → All Q m
    → All (λ (it : Bytes × Bytes). (has_prefix p it.0 ≡ true) × Q it) (seek_items p key m)
All-seek_items p key Q m h = All-take_while _ Q _ (All-drop_while _ Q m h)

Starts-take_while :
    (f : Bytes) (p : Bytes × Bytes → Bool) (m : Dict Bytes Bytes)
    → Starts f m
    → Starts f (take_while p m)
Starts-take_while f p [] h = tt
Starts-take_while f p (it ∷ m) h = elim (Bool-cases (p it)) [ inl e ↦ rw e h | inr e ↦ rw e tt ]

-- The iterator starts at its key.
pub Starts-seek_items :
    (p key : Bytes) (m : Dict Bytes Bytes) → Starts (seek_from p key) (seek_items p key m)
Starts-seek_items p key m =
    Starts-take_while (seek_from p key) _ _
      (Starts-drop_while (seek_from p key) (seek_from p key) m (bytes_ltb_irrefl (seek_from p key)))

pub has_prefix-not_below : (p k : Bytes) → has_prefix p k ≡ true → bytes_ltb k p ≡ false
has_prefix-not_below [] [] h = refl
has_prefix-not_below [] (x ∷ k) h = refl
has_prefix-not_below (x ∷ p) [] h = cc
has_prefix-not_below (x ∷ p) (y ∷ k) h = ground (arith, has_prefix-not_below p k)
