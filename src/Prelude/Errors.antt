-- ===== src/Prelude/Errors.antt =====
-- The errors of the program (the `errors.New` values of each package, and `external` for an error
-- that a library returns), and the result of a call: a value, an error, or a run-time panic.
use mathlib.Core.Path.{◌≡◌, refl}
use plan_vault_libp2p.Prelude.ByteStrings.{Bytes}

pub data Error : Type 0 where
  invalid_entry_id key_exists key_not_found : Error
  invalid_request invalid_open_req invalid_feed_uri invalid_entry_body unsupported_op : Error
  decrypt_failed_sym invalid_signature unknown_channel unknown_key : Error
  stream_closed not_open no_discovery_channel unsupported_update : Error
  badger_key_not_found eof not_exist partial_write : Error
  external : Bytes → Error

-- `panics` is a run-time panic, which no caller recovers from.
pub data Result {ℓ} (X : Type ℓ) : Type ℓ where
  panics : Result X
  err : Error → Result X
  ok : X → Result X

infixl 5 ◌>>=◌ ◌>>◌
abbrev pub ◌>>=◌ {ℓ κ} : {X : Type ℓ} {Y : Type κ} → Result X → (X → Result Y) → Result Y
panics >>= next = panics
err e >>= next = err e
ok x >>= next = next x

abbrev pub ◌>>◌ {ℓ κ} : {X : Type ℓ} {Y : Type κ} → Result X → Result Y → Result Y
r >> next = r >>= λ _. next

-- A chain that returns a value got one from each step.
pub >>=-eq-ok {ℓ κ} :
    {X : Type ℓ} {Y : Type κ} (r : Result X) (next : X → Result Y) {y : Y}
    → (r >>= next) ≡ ok y
    → (x : X) × (r ≡ ok x) × (next x ≡ ok y)
>>=-eq-ok panics next e = cc
>>=-eq-ok (err _) next e = cc
>>=-eq-ok (ok x) next e = (x, refl, e)

pub ok-injective {ℓ} : {A : Type ℓ} {a b : A} → ok a ≡ ok b → a ≡ b
ok-injective h = cc
