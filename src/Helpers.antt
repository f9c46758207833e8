-- ===== src/Helpers.antt =====
-- helpers/func.go: entry IDs made from the clock and random bytes. The clock is given as its Unix
-- time in seconds and its nanoseconds, the random bytes as what crypto/rand read; a uint32 and an
-- int64 are patterns of 32 and 64 bits. The hash of a URI is `sum256` of the parameter Hash.
pub mod Order
use Prim.Native.Nat.{bit_or}
use plan_vault_libp2p.Prelude.{
  ℕ, ◌*◌, ◌/◌, ◌%◌, ◌^◌, ◌<◌, ◌≤◌, ◌≡◌, [], ◌∷◌, ◌++◌, some, Bytes, arith, length, replicate, copy,
}
use plan_vault_libp2p.Prelude.ByteStrings.{length-copy}
use plan_vault_libp2p.Protos.{Msg, empty_msg, empty_header}
use plan_vault_libp2p.Store.Keys.{shifted, byte_at}

-- `uint16((2199 * (uint32(t.Nanosecond()) >> 10)) >> 15)`: the fraction of a second in 65536ths.
unfoldable pub fraction : ℕ → ℕ
fraction ns = 2199 * (ns % 2 ^ 32 / 2 ^ 10) % 2 ^ 32 / 2 ^ 15 % 2 ^ 16

unfoldable pub timestamp : ℕ → ℕ → ℕ
unfolding fraction
timestamp unix ns = bit_or (shifted unix) (fraction ns)

unfoldable pub new_entry_id : ℕ → ℕ → Bytes → Bytes
unfolding timestamp
new_entry_id unix ns random =
    let t = timestamp unix ns in
    (byte_at t 56
      ∷ byte_at t 48
      ∷ byte_at t 40
      ∷ byte_at t 32
      ∷ byte_at t 24
      ∷ byte_at t 16
      ∷ byte_at t 8
      ∷ byte_at t 0
      ∷ [])
    ++ copy (replicate 22 0) random

unfoldable pub new_entry : ℕ → ℕ → Bytes → Bytes → Msg
unfolding new_entry_id
new_entry unix ns random text = record empty_msg {
  entry_header = some (record empty_header { entry_id = some (new_entry_id unix ns random) });
  body = some text;
}

-- For the nanoseconds of a clock, below 10 ^ 9, the fraction is exact: neither the product nor the
-- conversion wraps around, and a later moment of the same second has no lower fraction.
pub fraction-le :
    (m n : ℕ)
    → m ≤ n
    → n < 1000000000
    → (fraction n ≡ 2199 * (n / 1024) / 32768) × (fraction n < 65536) × (fraction m ≤ fraction n)
unfolding fraction
fraction-le m n le small = (omega arith, omega arith, omega arith)

-- A new entry ID has thirty bytes, however many random bytes were read.
pub length-new_entry_id : (unix ns : ℕ) (random : Bytes) → length (new_entry_id unix ns random) ≡ 30
unfolding new_entry_id
length-new_entry_id unix ns random =
    let e : length (copy (replicate 22 0) random) ≡ 22 = length-copy (replicate 22 0) random in
    omega (arith, e)
