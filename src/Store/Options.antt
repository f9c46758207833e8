-- ===== src/Store/Options.antt =====
-- StreamOpts of store/store.go: where a subscription starts, how many entries it wants, and its
-- flags, a uint8 with a bit for each option.
use Prim.Native.Nat.{bit_and}
use plan_vault_libp2p.Prelude.{ℕ, ◌-◌, ◌^◌, Slice, Bool, not, nat_beq}

-- math.MaxUint64
abbrev pub tail : ℕ
tail = 2 ^ 64 - 1

abbrev pub opt_none : ℕ
opt_none = 0

abbrev pub opt_keys_only : ℕ
opt_keys_only = 2

abbrev pub opt_skip_first : ℕ
opt_skip_first = 4

abbrev pub opt_from_head : ℕ
opt_from_head = 8

abbrev pub opt_from_genesis : ℕ
opt_from_genesis = 16

abbrev pub opt_from_index : ℕ
opt_from_index = 32

pub record StreamOpts : Type 0 where
  pub seek : Slice
  pub max : ℕ
  pub flags : ℕ

abbrev has_flag : StreamOpts → ℕ → Bool
has_flag opts f = not (nat_beq (bit_and opts.flags f) 0)

unfoldable pub keys_only : StreamOpts → Bool
keys_only opts = has_flag opts opt_keys_only

unfoldable pub skip_first : StreamOpts → Bool
skip_first opts = has_flag opts opt_skip_first

unfoldable pub from_head : StreamOpts → Bool
from_head opts = has_flag opts opt_from_head

unfoldable pub from_genesis : StreamOpts → Bool
from_genesis opts = has_flag opts opt_from_genesis

unfoldable pub from_index : StreamOpts → Bool
from_index opts = has_flag opts opt_from_index
