-- ===== src/Store/Keys/Order.antt =====
-- How keys compare, and which prefix they have: the order of the database and what an iterator with
-- a channel's prefix passes.
use native.Mathlib.Decide.{dec_lt}
use plan_vault_libp2p.Prelude.{
  ◌≤◌, ℕ, ◌/◌, ◌%◌, ◌^◌, ◌<◌, ◌≡◌, refl, sym, ap, ap₂, ◌∙◌, Bytes, [], ◌∷◌, ◌++◌, length, Bool,
  true, false, ◌&&◌, arith, has_prefix, bytes_ltb, append_assoc, nat_beq,
}
use plan_vault_libp2p.Prelude.ByteStrings.{bytes_beq, bytes_ltb-append}
use plan_vault_libp2p.Store.Channel.{Channel, make_prefix, new_channel}
use plan_vault_libp2p.Store.Keys.{entry_key, arrival_key, time_bytes, shifted}
use plan_vault_libp2p.Store.Keys.Layout.{
  fit, HasPrefixes, entry_key-fit, arrival_key-fit, make_prefix-append, new_channel-HasPrefixes,
}

-- In a channel with 33-byte prefixes, entry keys compare as their IDs do, once these are cut or
-- padded to thirty bytes.
pub bytes_ltb-entry_key :
    (c : Channel) (a b : Bytes)
    → HasPrefixes c
    → bytes_ltb (entry_key c a) (entry_key c b) ≡ bytes_ltb (fit 30 a) (fit 30 b)
bytes_ltb-entry_key c a b h =
    ap₂ bytes_ltb (entry_key-fit c a h) (entry_key-fit c b h)
    ∙ bytes_ltb-append c.prefix (fit 30 a) (fit 30 b)

pub record Below (x y : Bytes) : Type 0 where
  pub holds : bytes_ltb x y ≡ true

pub cons-Below : {d e : ℕ} {x y : Bytes} → d ≤ e → (d ≡ e → Below x y) → Below (d ∷ x) (e ∷ y)
cons-Below {d} {e} {x} {y} h rest = record {
  holds = elim (dec_lt d e) [
    | yes lt ↦ ground arith
    | no ge ↦ let same : d ≡ e = omega arith in ground (arith, (rest same).holds)
  ];
}

-- The six bytes of a time below 2 ^ 48, from the top.
abbrev big_endian : ℕ → Bytes
big_endian v =
    v / 2 ^ 40 % 256
    ∷ v / 2 ^ 32 % 256
    ∷ v / 2 ^ 24 % 256
    ∷ v / 2 ^ 16 % 256
    ∷ v / 2 ^ 8 % 256
    ∷ v % 256
    ∷ []

-- Two numbers have one byte at a place.
abbrev pub Same : ℕ → ℕ → ℕ → Type 0
Same n a b = a / 2 ^ n % 256 ≡ b / 2 ^ n % 256

byte-shifted : (v : ℕ) → v < 2 ^ 48 → time_bytes (shifted v) ≡ big_endian v
byte-shifted v h = ground arith

big_endian-Below :
    (a b : ℕ) (x y : Bytes) → a < b → b < 2 ^ 48 → Below (big_endian a ++ x) (big_endian b ++ y)
big_endian-Below a b x y h k = cons-Below (omega arith) λ (e5 : Same 40 a b).
    cons-Below (omega arith) λ (e4 : Same 32 a b). cons-Below (omega arith) λ (e3 : Same 24 a b).
      cons-Below (omega arith) λ (e2 : Same 16 a b). cons-Below (omega arith) λ (e1 : Same 8 a b).
        cons-Below (omega arith) λ (e0 : a % 256 ≡ b % 256). absurd (omega arith)

time_bytes-lt :
    (a b : ℕ) (x y : Bytes)
    → a < b
    → b < 2 ^ 48
    → bytes_ltb (time_bytes (shifted a) ++ x) (time_bytes (shifted b) ++ y) ≡ true
time_bytes-lt a b x y h k =
    ap₂ (λ (s t : Bytes). bytes_ltb (s ++ x) (t ++ y)) (byte-shifted a (omega arith))
      (byte-shifted b k)
    ∙ (big_endian-Below a b x y h k).holds

-- In a channel with 33-byte prefixes, of two arrival keys of different seconds, both below 2 ^ 48,
-- the earlier one is lower, whatever the entry IDs are.
bytes_ltb-arrival_key :
    (c : Channel) (a b : ℕ) (x y : Bytes)
    → HasPrefixes c
    → a < b
    → b < 2 ^ 48
    → bytes_ltb (arrival_key c a x) (arrival_key c b y) ≡ true
bytes_ltb-arrival_key c a b x y h lt fits =
    ap₂ bytes_ltb (arrival_key-fit c a x h ∙ append_assoc c.index_prefix _ _)
      (arrival_key-fit c b y h ∙ append_assoc c.index_prefix _ _)
    ∙ bytes_ltb-append c.index_prefix _ _
    ∙ time_bytes-lt a b (fit 30 x) (fit 30 y) lt fits

has_prefix-append_eq :
    (p q r s : Bytes)
    → length p ≡ length q
    → has_prefix (p ++ r) (q ++ s) ≡ bytes_beq p q && has_prefix r s
has_prefix-append_eq [] [] r s e = refl
has_prefix-append_eq [] (b ∷ q) r s e = absurd (omega arith)
has_prefix-append_eq (a ∷ p) [] r s e = absurd (omega arith)
has_prefix-append_eq (a ∷ p) (b ∷ q) r s e =
    ground (arith, has_prefix-append_eq p q r s (omega arith))

and-true : (b : Bool) → (b && true) ≡ b
and-true true = refl
and-true false = refl

and-false : (b : Bool) → (b && false) ≡ false
and-false true = refl
and-false false = refl

entry_prefix_lem :
    (id rest : Bytes) (space : ℕ)
    → length id ≡ 32
    → (j : Bytes) (s : ℕ) → length j ≡ 32
    → has_prefix (make_prefix j s) (make_prefix id space ++ rest)
      ≡ bytes_beq j id && nat_beq s space
entry_prefix_lem id rest space e j s f =
    ap₂ has_prefix (make_prefix-append j s f) (
      ap (λ (k : Bytes). k ++ rest) (make_prefix-append id space e)
      ∙ append_assoc id (space ∷ []) rest)
    ∙ has_prefix-append_eq j id (s ∷ []) (space ∷ rest) (f ∙ sym e)
    ∙ ground arith

-- For channels with 32-byte ids, an entry key has the entry prefix of a channel, and an arrival key
-- its index prefix, exactly if the key is of that channel; and no arrival key has an entry prefix
-- and no entry key an index prefix.
pub prefix_separates :
    (i j : Bytes) (now : ℕ) (id : Bytes)
    → length i ≡ 32
    → length j ≡ 32
    → (has_prefix (new_channel i).prefix (entry_key (new_channel j) id) ≡ bytes_beq i j)
      × (has_prefix (new_channel i).prefix (arrival_key (new_channel j) now id) ≡ false)
      × (has_prefix (new_channel i).index_prefix (entry_key (new_channel j) id) ≡ false)
      × (has_prefix (new_channel i).index_prefix (arrival_key (new_channel j) now id)
          ≡ bytes_beq i j)
unfolding new_channel
prefix_separates i j now id e f =
    let h = new_channel-HasPrefixes j in
    let at_entries : entry_key (new_channel j) id ≡ make_prefix j 1 ++ fit 30 id =
      entry_key-fit (new_channel j) id h in
    let at_arrival : arrival_key (new_channel j) now id
        ≡ make_prefix j 2 ++ (time_bytes (shifted now) ++ fit 30 id) =
      arrival_key-fit (new_channel j) now id h ∙ append_assoc (make_prefix j 2) _ _ in
    (
      ap (λ (k : Bytes). has_prefix (make_prefix i 1) k) at_entries
          ∙ entry_prefix_lem j _ 1 f i 1 e
          ∙ and-true _,
      ap (λ (k : Bytes). has_prefix (make_prefix i 1) k) at_arrival
          ∙ entry_prefix_lem j _ 2 f i 1 e
          ∙ and-false _,
      ap (λ (k : Bytes). has_prefix (make_prefix i 2) k) at_entries
          ∙ entry_prefix_lem j _ 1 f i 2 e
          ∙ and-false _,
      ap (λ (k : Bytes). has_prefix (make_prefix i 2) k) at_arrival
          ∙ entry_prefix_lem j _ 2 f i 2 e
          ∙ and-true _,
    )
