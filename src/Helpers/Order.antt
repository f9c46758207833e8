-- ===== src/Helpers/Order.antt =====
-- The order of entry IDs that are made from the clock, and with it that of the entries in a feed.
use Prim.Native.Nat.{bit_or}
use plan_vault_libp2p.Prelude.{
  ℕ, ◌+◌, ◌*◌, ◌^◌, ◌<◌, ◌≤◌, ◌≡◌, ◌⊎◌, inl, inr, sym, ap, ap₂, ◌∙◌, Bytes, true, arith, replicate,
  bytes_ltb,
}
use plan_vault_libp2p.Prelude.Bits.{bit_or_sixteen}
use plan_vault_libp2p.Prelude.ByteStrings.{copy_full}
use plan_vault_libp2p.Store.Channel.{Channel}
use plan_vault_libp2p.Store.Keys.{entry_key, shifted}
use plan_vault_libp2p.Store.Keys.Layout.{fit, HasPrefixes, copy-replicate}
use plan_vault_libp2p.Store.Keys.Order.{Below, cons-Below, Same, bytes_ltb-entry_key}
use plan_vault_libp2p.Helpers.{fraction, timestamp, new_entry_id, fraction-le, length-new_entry_id}

-- Neither the shift nor the or loses anything of a time below 2 ^ 48 seconds.
timestamp_lem :
    (unix ns : ℕ) → unix < 2 ^ 48 → ns < 1000000000 → timestamp unix ns ≡ unix * 65536 + fraction ns
unfolding timestamp
timestamp_lem unix ns fits small =
    let e : shifted unix ≡ unix * 2 ^ 16 = omega arith in
    let (exact, below, same) = fraction-le ns ns (omega arith) small in
    ap (λ (x : ℕ). bit_or x (fraction ns)) e ∙ bit_or_sixteen unix (fraction ns) below

-- A later second, or a moment of the same second that is later by 2 ^ 14 nanoseconds.
abbrev pub IsBefore : ℕ → ℕ → ℕ → ℕ → Type 0
IsBefore s m t n = s < t ⊎ (s ≡ t) × (m + 16384 ≤ n)

timestamp-lt :
    (s m t n : ℕ)
    → t < 2 ^ 48
    → m < 1000000000
    → n < 1000000000
    → IsBefore s m t n
    → (timestamp s m < timestamp t n) × (timestamp t n < 2 ^ 64)
timestamp-lt s m t n fits small_m small_n before =
    let at_n = timestamp_lem t n fits small_n in
    let (exact_n, below_n, le_n) = fraction-le n n (omega arith) small_n in
    let (exact_m, below_m, le_m) = fraction-le m m (omega arith) small_m in
    elim before [
      | inl lt ↦
          let at_m = timestamp_lem s m (omega arith) small_m in
          (omega (arith, at_m, at_n, below_m), omega (arith, at_n, below_n, fits))
      | inr (same, apart) ↦
          let at_m = timestamp_lem s m (omega arith) small_m in
          (
            omega (arith, at_m, at_n, same, exact_m, exact_n, apart),
            omega (arith, at_n, below_n, fits),
          )
    ]

id-Below :
    (s m t n : ℕ) (x y : Bytes)
    → timestamp s m < timestamp t n
    → timestamp t n < 2 ^ 64
    → Below (new_entry_id s m x) (new_entry_id t n y)
unfolding new_entry_id
id-Below s m t n x y lt fits =
    let a = timestamp s m in
    let b = timestamp t n in
    cons-Below (omega arith) λ (e7 : Same 56 a b). cons-Below (omega arith) λ (e6 : Same 48 a b).
      cons-Below (omega arith) λ (e5 : Same 40 a b). cons-Below (omega arith) λ (e4 : Same 32 a b).
        cons-Below (omega arith) λ (e3 : Same 24 a b).
          cons-Below (omega arith) λ (e2 : Same 16 a b).
            cons-Below (omega arith) λ (e1 : Same 8 a b).
              cons-Below (omega arith) λ (e0 : Same 0 a b). absurd (omega arith)

fit-new_entry_id :
    (unix ns : ℕ) (random : Bytes)
    → fit 30 (new_entry_id unix ns random) ≡ new_entry_id unix ns random
fit-new_entry_id unix ns random =
    sym (copy-replicate 30 (new_entry_id unix ns random))
    ∙ copy_full (replicate 30 0) (new_entry_id unix ns random) (length-new_entry_id unix ns random)

-- Of two entries whose IDs are made from the clock, the one that is made in a later second, or in
-- the same second and at least 2 ^ 14 nanoseconds later, has the higher key, whatever the random
-- bytes are: so it comes later in the feed. Seconds are below 2 ^ 48, and nanoseconds below 10 ^ 9.
pub later_entry_follows :
    (c : Channel) (s m t n : ℕ) (x y : Bytes)
    → HasPrefixes c
    → t < 2 ^ 48
    → m < 1000000000
    → n < 1000000000
    → IsBefore s m t n
    → bytes_ltb (entry_key c (new_entry_id s m x)) (entry_key c (new_entry_id t n y)) ≡ true
later_entry_follows c s m t n x y h fits small_m small_n before =
    let (lt, top) = timestamp-lt s m t n fits small_m small_n before in
    bytes_ltb-entry_key c (new_entry_id s m x) (new_entry_id t n y) h
    ∙ ap₂ bytes_ltb (fit-new_entry_id s m x) (fit-new_entry_id t n y)
    ∙ (id-Below s m t n x y lt top).holds
