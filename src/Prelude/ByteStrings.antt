-- ===== src/Prelude/ByteStrings.antt =====
-- Byte strings: Go's `string`, `[]byte` and `[n]byte`. A byte is a number below 256. `copy` and
-- slicing follow the Go specification, `has_prefix` and `bytes_ltb` are bytes.HasPrefix and the
-- order of bytes.Compare.
use Prim.Native.Nat.{ℕ}
use mathlib.Core.Path.{◌≡◌, refl, ap₂, ◌∙◌}
use mathlib.Core.Logic.{◌↔◌}
use mathlib.Core.Bool.{Bool, true, false, ◌&&◌, ◌||◌}
use mathlib.Core.Option.{Option, none, some}
use mathlib.Core.List.{List, [], ◌∷◌, ◌++◌, append-nil}
use native.Mathlib.Omega.{arith}
use plan_vault_libp2p.Prelude.Tests.{if◌then◌else◌, nat_beq, ltb, leb}
use plan_vault_libp2p.Prelude.Lists.{
  length, take, drop, length-append, length-take, length-drop, take_all, drop_all,
}

abbrev pub Bytes : Type 0
Bytes = List ℕ

-- A `[]byte` that may be nil.
abbrev pub Slice : Type 0
Slice = Option Bytes

-- What a nil slice reads as.
abbrev pub bytes_of : Slice → Bytes
bytes_of none = []
bytes_of (some b) = b

-- `copy(dst, src)`: the shorter length is copied, the rest of `dst` stays.
abbrev pub copy : Bytes → Bytes → Bytes
copy dst src = take (length dst) src ++ drop (length src) dst

-- `copy(dst[i:], src)`.
abbrev pub copy_at : ℕ → Bytes → Bytes → Bytes
copy_at i dst src = take i dst ++ copy (drop i dst) src

-- `s[i:]`; `none` is the run-time panic of an index past the end.
abbrev pub slice_from : ℕ → Bytes → Option Bytes
slice_from i s = if leb i (length s) then some (drop i s) else none

abbrev pub has_prefix : Bytes → Bytes → Bool
has_prefix [] s = true
has_prefix (p ∷ ps) [] = false
has_prefix (p ∷ ps) (b ∷ bs) = nat_beq p b && has_prefix ps bs

abbrev pub bytes_ltb : Bytes → Bytes → Bool
bytes_ltb [] [] = false
bytes_ltb [] (b ∷ bs) = true
bytes_ltb (a ∷ as') [] = false
bytes_ltb (a ∷ as') (b ∷ bs) = ltb a b || (nat_beq a b && bytes_ltb as' bs)

abbrev pub bytes_beq : Bytes → Bytes → Bool
bytes_beq [] [] = true
bytes_beq [] (b ∷ bs) = false
bytes_beq (a ∷ as') [] = false
bytes_beq (a ∷ as') (b ∷ bs) = nat_beq a b && bytes_beq as' bs

pub bytes_beq_iff : (a b : Bytes) → (bytes_beq a b ≡ true) ↔ (a ≡ b)
bytes_beq_iff [] [] = ground arith
bytes_beq_iff [] (b ∷ bs) = ground arith
bytes_beq_iff (a ∷ as') [] = ground arith
bytes_beq_iff (a ∷ as') (b ∷ bs) = ground (arith, bytes_beq_iff as' bs)

pub length-copy : (dst src : Bytes) → length (copy dst src) ≡ length dst
length-copy dst src = omega (
  arith,
  length-append (take (length dst) src) (drop (length src) dst),
  length-take (length dst) src,
  length-drop (length src) dst,
)

pub length-copy_at : (i : ℕ) (dst src : Bytes) → length (copy_at i dst src) ≡ length dst
length-copy_at i dst src = omega (
  arith,
  length-append (take i dst) (copy (drop i dst) src),
  length-copy (drop i dst) src,
  length-take i dst,
  length-drop i dst,
)

-- A copy that fills the destination leaves the source alone.
pub copy_full : (dst src : Bytes) → length src ≡ length dst → copy dst src ≡ src
copy_full dst src e =
    ap₂ ◌++◌ (take_all (length dst) src (omega arith)) (drop_all (length src) dst (omega arith))
    ∙ append-nil src

has_prefix-append : (p s : Bytes) → has_prefix p (p ++ s) ≡ true
has_prefix-append [] s = refl
has_prefix-append (p ∷ ps) s = ground (arith, has_prefix-append ps s)

-- The order is the lexicographic one: equal prefixes cancel.
pub bytes_ltb-append : (p a b : Bytes) → bytes_ltb (p ++ a) (p ++ b) ≡ bytes_ltb a b
bytes_ltb-append [] a b = refl
bytes_ltb-append (p ∷ ps) a b = ground (arith, bytes_ltb-append ps a b)

pub bytes_ltb_irrefl : (a : Bytes) → bytes_ltb a a ≡ false
bytes_ltb_irrefl [] = refl
bytes_ltb_irrefl (a ∷ as') = ground (arith, bytes_ltb_irrefl as')

pub bytes_ltb_trans :
    (a b c : Bytes) → bytes_ltb a b ≡ true → bytes_ltb b c ≡ true → bytes_ltb a c ≡ true
bytes_ltb_trans [] [] c h k = cc
bytes_ltb_trans [] (b ∷ bs) [] h k = cc
bytes_ltb_trans [] (b ∷ bs) (c ∷ cs) h k = refl
bytes_ltb_trans (a ∷ as') [] c h k = cc
bytes_ltb_trans (a ∷ as') (b ∷ bs) [] h k = cc
bytes_ltb_trans (a ∷ as') (b ∷ bs) (c ∷ cs) h k = ground (arith, bytes_ltb_trans as' bs cs)

-- Two byte strings of which neither is below the other are equal.
pub bytes_ltb_total :
    (a b : Bytes) → bytes_ltb a b ≡ false → bytes_beq b a ≡ false → bytes_ltb b a ≡ true
bytes_ltb_total [] [] h k = cc
bytes_ltb_total [] (b ∷ bs) h k = cc
bytes_ltb_total (a ∷ as') [] h k = refl
bytes_ltb_total (a ∷ as') (b ∷ bs) h k = ground (arith, bytes_ltb_total as' bs)
