-- ===== src/Store/Keys.antt =====
-- The keys of store/store.go: an entry's key is the channel's 33-byte prefix and the entry ID, its
-- arrival key is the index prefix, six bytes of Unix time and the entry ID. Arrays have the fixed
-- sizes of the source, and an ID of another length is cut or padded with zeros by `copy`.
pub mod Layout
pub mod Order
pub mod Roundtrip
use plan_vault_libp2p.Prelude.{
  ℕ, ◌*◌, ◌/◌, ◌%◌, ◌^◌, Bytes, List, [], ◌∷◌, replicate, copy_at, slice_from, Result, ok, panics,
  Option, none, some, ◌>>=◌,
}
use plan_vault_libp2p.Store.Channel.{Channel}

unfoldable pub entry_key : Channel → Bytes → Bytes
entry_key c entry_id = copy_at 33 (copy_at 0 (replicate 63 0) c.prefix) entry_id

-- `time.Now().Unix() << 16` as the 64-bit pattern of an int64.
abbrev pub shifted : ℕ → ℕ
shifted unix = unix * 2 ^ 16 % 2 ^ 64

-- `byte(ts >> n)`.
abbrev pub byte_at : ℕ → ℕ → ℕ
byte_at ts n = ts / 2 ^ n % 256

-- k[33] to k[38].
abbrev pub time_bytes : ℕ → Bytes
time_bytes ts =
    byte_at ts 56
    ∷ byte_at ts 48
    ∷ byte_at ts 40
    ∷ byte_at ts 32
    ∷ byte_at ts 24
    ∷ byte_at ts 16
    ∷ []

-- `now` is the Unix time in seconds at the call.
unfoldable pub arrival_key : Channel → ℕ → Bytes → Bytes
arrival_key c now entry_id =
    let k = copy_at 0 (replicate 69 0) c.index_prefix in
    let k' = copy_at 33 k (time_bytes (shifted now)) in copy_at 39 k' entry_id

-- A slice out of bounds panics.
abbrev pub or_panic : Option Bytes → Result Bytes
or_panic none = panics
or_panic (some b) = ok b

unfoldable pub entry_key_from_index : Channel → Bytes → Result Bytes
entry_key_from_index c index = do
  rest ← or_panic (slice_from 39 index)
  ok (copy_at 33 (copy_at 0 (replicate 63 0) c.prefix) rest)

unfoldable pub entry_id_from_index : Bytes → Result Bytes
entry_id_from_index index = do
  rest ← or_panic (slice_from 39 index)
  ok (copy_at 0 (replicate 30 0) rest)

unfoldable pub entry_id_from_key : Bytes → Result Bytes
entry_id_from_key key = or_panic (slice_from 33 key)

unfoldable first_key : Channel → Bytes
first_key c = copy_at 0 (replicate 30 0) c.prefix
