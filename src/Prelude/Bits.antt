-- ===== src/Prelude/Bits.antt =====
-- The bitwise or of a shifted number and one that fits below it: what `x << n | y` is in Go.
use Prim.Native.Nat.{bit_or, digits, max, bit_or-bitwise}
use plan_vault_libp2p.Prelude.{
  ℕ, zero, suc, ◌+◌, ◌*◌, ◌/◌, ◌%◌, ◌≤◌, ◌<◌, ◌^◌, ◌≡◌, refl, sym, ap, ◌∙◌, arith,
}

-- The or of `a` and `b` when `n` digits are looked at, with all of `a` among them.
abbrev ored : ℕ → ℕ → ℕ → ℕ
ored n a b = digits (λ rest. rest) max n a b

ored-zero : (n b : ℕ) → ored n 0 b ≡ b
ored-zero zero b = refl
ored-zero (suc n) b = refl

ored-suc : (n a b : ℕ) → ored (suc n) a b ≡ ored n (a / 2) (b / 2) * 2 + max (a % 2) (b % 2)
ored-suc n zero b = omega (arith, ored-zero n (b / 2))
ored-suc n (suc a) b = refl

ored_nothing : (n a : ℕ) → a ≤ n → ored n a 0 ≡ a
ored_nothing zero a h = omega arith
ored_nothing (suc n) a h = omega (arith, ored-suc n a 0, ored_nothing n (a / 2) (omega arith))

-- `a << n`, one place after the other.
abbrev shift : ℕ → ℕ → ℕ
shift zero a = a
shift (suc n) a = shift n a * 2

ored-shift : (k n a b : ℕ) → shift k a ≤ n → b < shift k 1 → ored n (shift k a) b ≡ shift k a + b
ored-shift zero n a b h fits =
    let none_left : b ≡ 0 = omega arith in
    ap (ored n a) none_left ∙ ored_nothing n a h ∙ omega arith
ored-shift (suc k) zero a b h fits = omega arith
ored-shift (suc k) (suc n) a b h fits =
    let half : shift k a * 2 / 2 ≡ shift k a = omega arith in
    omega (
      arith,
      half,
      ored-suc n (shift k a * 2) b,
      ap (λ (x : ℕ). ored n x (b / 2)) half,
      ored-shift k n a (b / 2) (omega arith) (omega arith),
    )

-- Sixteen bits below a number that is shifted by sixteen.
pub bit_or_sixteen : (a b : ℕ) → b < 2 ^ 16 → bit_or (a * 2 ^ 16) b ≡ a * 2 ^ 16 + b
bit_or_sixteen a b h =
    let e : shift 16 a ≡ a * 2 ^ 16 = omega arith in
    ap (λ (x : ℕ). bit_or x b) (sym e)
    ∙ bit_or-bitwise (shift 16 a) b
    ∙ ored-shift 16 (shift 16 a) a b (omega arith) h
    ∙ ap (λ (x : ℕ). x + b) e
