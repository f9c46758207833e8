-- ===== src/Store/Keys/Layout.antt =====
-- What the keys hold, and that IDs come back out of them.
use plan_vault_libp2p.Prelude.{
  ℕ, zero, suc, ◌-◌, ◌≤◌, ◌≡◌, refl, sym, ap, ap₂, take_all, drop_all, take-append_left,
  drop-append_left, append-nil, append_assoc, copy, ◌∙◌, Bytes, [], ◌∷◌, ◌++◌, replicate, length,
  take, drop, copy_at, slice_from, some, le→leb, arith, length-append, length-replicate,
  length-take, length-drop,
}
use plan_vault_libp2p.Prelude.ByteStrings.{length-copy_at}
use plan_vault_libp2p.Store.Channel.{Channel, make_prefix, new_channel}
use plan_vault_libp2p.Store.Keys.{entry_key, arrival_key, time_bytes, shifted}

-- An ID cut or padded to the thirty bytes of an entry ID.
abbrev pub fit : ℕ → Bytes → Bytes
fit n b = take n b ++ drop (length b) (replicate n 0)

-- The prefixes that a channel was made with.
pub record HasPrefixes (c : Channel) : Type 0 where
  pub entries : length c.prefix ≡ 33
  pub arrival : length c.index_prefix ≡ 33

drop-replicate : (n m : ℕ) (a : ℕ) → drop n (replicate m a) ≡ replicate (m - n) a
drop-replicate zero m a = let e : m ≡ m - 0 = omega arith in ap (λ k. replicate k a) e
drop-replicate (suc n) zero a = let e : 0 ≡ 0 - suc n = omega arith in ap (λ k. replicate k a) e
drop-replicate (suc n) (suc m) a =
    let e : m - n ≡ suc m - suc n = omega arith in drop-replicate n m a ∙ ap (λ k. replicate k a) e

pub length-fit : (n : ℕ) (b : Bytes) → length (fit n b) ≡ n
length-fit n b = omega (
  arith,
  length-append {A = ℕ} (take n b) (drop (length b) (replicate n 0)),
  length-take n b,
  length-drop {A = ℕ} (length b) (replicate n 0),
  length-replicate {A = ℕ} n 0,
)

-- Copying into zeros pads the source, if there is room for it.
copy-zeros :
    (m : ℕ) (p : Bytes)
    → length p ≤ m
    → copy_at 0 (replicate m 0) p ≡ p ++ replicate (m - length p) 0
copy-zeros m p h =
    ap₂ ◌++◌ (take_all (length (replicate m 0)) p (omega (arith, length-replicate {A = ℕ} m 0)))
      (drop-replicate (length p) m 0)

-- Copying behind a part that is there already keeps that part.
copy_at-append : (n : ℕ) (p q b : Bytes) → length p ≡ n → copy_at n (p ++ q) b ≡ p ++ copy q b
copy_at-append n p q b e = rw (take-append_left n p q e, drop-append_left n p q e) refl

pub copy-replicate : (n : ℕ) (b : Bytes) → copy (replicate n 0) b ≡ fit n b
copy-replicate n b = rw (length-replicate {A = ℕ} n 0) refl

-- The two copies that build a key.
pub build_lem :
    (m n : ℕ) (p b : Bytes)
    → length p ≡ n
    → n ≤ m
    → copy_at n (copy_at 0 (replicate m 0) p) b ≡ p ++ fit (m - n) b
build_lem m n p b e h =
    ap (λ (k : Bytes). copy_at n k b) (copy-zeros m p (omega arith))
    ∙ copy_at-append n p (replicate (m - length p) 0) b e
    ∙ ap (λ (k : Bytes). p ++ k)
        (copy-replicate (m - length p) b ∙ ap (λ (k : ℕ). fit k b) (omega arith))

-- A key is the prefix and the entry ID, cut or padded to thirty bytes.
pub entry_key-fit :
    (c : Channel) (id : Bytes) → HasPrefixes c → entry_key c id ≡ c.prefix ++ fit 30 id
unfolding entry_key
entry_key-fit c id h = build_lem 63 33 c.prefix id h.entries (omega arith)

-- An arrival key is the index prefix, the time and the entry ID.
pub arrival_key-fit :
    (c : Channel) (now : ℕ) (id : Bytes)
    → HasPrefixes c
    → arrival_key c now id ≡ (c.index_prefix ++ time_bytes (shifted now)) ++ fit 30 id
unfolding arrival_key
arrival_key-fit c now id h =
    ap (λ (k : Bytes). copy_at 39 k id)
      (build_lem 69 33 c.index_prefix (time_bytes (shifted now)) h.arrival (omega arith)
        ∙ sym (append_assoc c.index_prefix (time_bytes (shifted now)) (replicate 30 0)))
    ∙ copy_at-append 39 (c.index_prefix ++ time_bytes (shifted now)) (replicate 30 0) id
        (omega (arith, length-append c.index_prefix (time_bytes (shifted now)), h.arrival))
    ∙ ap (λ (k : Bytes). (c.index_prefix ++ time_bytes (shifted now)) ++ k) (copy-replicate 30 id)

pub fit_exact : (n : ℕ) (b : Bytes) → length b ≡ n → fit n b ≡ b
fit_exact n b e =
    ap₂ ◌++◌ (take_all n b (omega arith))
      (drop_all (length b) (replicate n 0) (omega (arith, length-replicate {A = ℕ} n 0)))
    ∙ append-nil b

pub fit-fit : (n : ℕ) (b : Bytes) → fit n (fit n b) ≡ fit n b
fit-fit n b = fit_exact n (fit n b) (length-fit n b)

-- A channel's prefix is its id and the byte of the key space.
pub make_prefix-append :
    (id : Bytes) (space : ℕ) → length id ≡ 32 → make_prefix id space ≡ id ++ space ∷ []
make_prefix-append id space e = build_lem 33 32 id (space ∷ []) e (omega arith)

pub new_channel-HasPrefixes : (id : Bytes) → HasPrefixes (new_channel id)
unfolding new_channel
new_channel-HasPrefixes id = record {
  entries =
      length-copy_at 32 (copy_at 0 (replicate 33 0) id) (1 ∷ [])
      ∙ length-copy_at 0 (replicate 33 0) id;
  arrival =
      length-copy_at 32 (copy_at 0 (replicate 33 0) id) (2 ∷ [])
      ∙ length-copy_at 0 (replicate 33 0) id;
}

pub slice_from-append : (n : ℕ) (p b : Bytes) → length p ≡ n → slice_from n (p ++ b) ≡ some b
slice_from-append n p b e =
    rw (le→leb n (length (p ++ b)) (omega (arith, length-append p b)))
      (ap some (drop-append_left n p b e))

pub slice_from-arrival_key :
    (c : Channel) (now : ℕ) (id : Bytes)
    → HasPrefixes c
    → slice_from 39 (arrival_key c now id) ≡ some (fit 30 id)
slice_from-arrival_key c now id h =
    ap (λ (k : Bytes). slice_from 39 k) (arrival_key-fit c now id h)
    ∙ slice_from-append 39 (c.index_prefix ++ time_bytes (shifted now)) (fit 30 id)
        (omega (arith, length-append c.index_prefix (time_bytes (shifted now)), h.arrival))
