-- ===== src/Keyring/File.antt =====
-- The key file of keyring/file.go: getKeys, loadKey, saveKey, encodeKey and decodeKey. What the
-- operating system does is given by arguments: the outcome of OpenFile, and for a text how many of
-- its bytes WriteString writes, with its error. The file keeps its place; a write does not cut it.
use plan_vault_libp2p.Prelude.{
  ℕ, ◌≡◌, ◌≢◌, refl, sym, ap, ap₂, subst, >>=-eq-ok, ok-injective, ◌∙◌, [], ◌∷◌, ◌++◌, Option, none,
  some, Bytes, Bytes_eq, ◌==◌, Error, Result, ok, err, panics, ◌>>=◌, length, take, drop, nat_beq,
  if◌then◌else◌, Bool-cases, inl, inr, arith, take_all,
}
use plan_vault_libp2p.Prelude.Errors.{not_exist, partial_write}
use plan_vault_libp2p.Interfaces.{KeyLib}

pub data File : Type 0 where
  absent : File
  present : Bytes → File
  unreadable : Error → File

abbrev pub read_file : File → Result Bytes
read_file absent = err not_exist
read_file (present b) = ok b
read_file (unreadable e) = err e

-- The first `n` bytes of the text are written over the start of the file.
abbrev pub overwritten : ℕ → Bytes → File → File
overwritten n s (present b) = present (take n s ++ drop n b)
overwritten n s _ = present (take n s)

abbrev write_result : Bytes → ℕ → Option Error → Result (Unit {0})
write_result s n (some e) = err e
write_result s n none = if nat_beq n (length s) then ok tt else err partial_write

-- ":memory:"
abbrev pub in_memory : Bytes
in_memory = 58 ∷ 109 ∷ 101 ∷ 109 ∷ 111 ∷ 114 ∷ 121 ∷ 58 ∷ []

-- What the system does with an attempt to write: OpenFile, and WriteString on a text.
pub record System : Type 0 where
  pub open_file : Result (Unit {0})
  pub write_string : Bytes → ℕ × Option Error

module _ (L : KeyLib) where
  unfoldable pub encode_key : L.PrivKey → Result Bytes
  encode_key key = do b ← L.marshal_private_key key; ok (L.config_encode_key b)

  unfoldable decode_key : Bytes → Result L.PrivKey
  decode_key s = do b ← L.config_decode_key s; L.unmarshal_private_key b

  unfoldable load_key : File → Result L.PrivKey
  unfolding decode_key
  load_key file = do b ← read_file file; decode_key b

  write_key : System → File → Result (Unit {0}) → Bytes → File × Result (Unit {0})
  write_key sys file (ok _) s =
      let (n, e) = sys.write_string s in (overwritten n s file, write_result s n e)
  write_key sys file (err e) s = (file, err e)
  write_key sys file panics s = (file, panics)

  save_encoded : System → File → Result Bytes → File × Result (Unit {0})
  unfolding write_key
  save_encoded sys file (ok s) = write_key sys file sys.open_file s
  save_encoded sys file (err e) = (file, err e)
  save_encoded sys file panics = (file, panics)

  unfoldable save_key : System → L.PrivKey → File → File × Result (Unit {0})
  unfolding save_encoded encode_key
  save_key sys key file = save_encoded sys file (encode_key key)

  -- A new key, once it is saved.
  after_save :
      L.PrivKey × L.PubKey → File × Result (Unit {0}) → File × Result (L.PrivKey × L.PubKey)
  after_save pair (file, saved) = (file, saved >>= λ _. ok pair)

  create_key : System → Result (L.PrivKey × L.PubKey) → File → File × Result (L.PrivKey × L.PubKey)
  unfolding after_save save_key
  create_key sys (ok pair) file = after_save pair (save_key sys pair.0 file)
  create_key sys (err e) file = (file, err e)
  create_key sys panics file = (file, panics)

  loaded_or_new :
      System
      → Result (L.PrivKey × L.PubKey)
      → File
      → Result L.PrivKey
      → File × Result (L.PrivKey × L.PubKey)
  unfolding create_key
  loaded_or_new sys generated file (ok key) = (file, ok (key, L.get_public key))
  loaded_or_new sys generated file (err not_exist) = create_key sys generated file
  loaded_or_new sys generated file (err e) = (file, err e)
  loaded_or_new sys generated file panics = (file, panics)

  -- `generated` is the result of generateKey.
  unfoldable pub get_keys :
      System → Result (L.PrivKey × L.PubKey) → Bytes → File → File × Result (L.PrivKey × L.PubKey)
  unfolding loaded_or_new load_key
  get_keys sys generated path file =
      if path == in_memory
      then (file, generated)
      else loaded_or_new sys generated file (load_key file)

  on_disk :
      (path : Bytes) {A : Type 0} (x y : A)
      → path ≢ in_memory
      → (if path == in_memory then x else y) ≡ y
  on_disk path x y apart = elim (Bool-cases (path == in_memory)) [
    | inl e ↦ absurd (apart ((Bytes_eq.beq_iff path in_memory).0 e))
    | inr e ↦ rw e refl
  ]

  load-present : (k : L.PrivKey) (s : Bytes) → encode_key k ≡ ok s → load_key (present s) ≡ ok k
  unfolding load_key encode_key decode_key
  load-present k s e =
      let (b, marshalled, coded) =
        >>=-eq-ok (L.marshal_private_key k) (λ (b : Bytes). ok (L.config_encode_key b)) e in
      ap (λ (t : Bytes). L.config_decode_key t >>= λ (b : Bytes). L.unmarshal_private_key b)
        (sym (ok-injective coded))
      ∙ ap (λ (r : Result Bytes). r >>= λ (b : Bytes). L.unmarshal_private_key b)
          (L.config_decode-config_encode b)
      ∙ L.unmarshal-marshal k b marshalled

  written :
      (sys : System) (s : Bytes)
      → sys.open_file ≡ ok tt
      → sys.write_string s ≡ (length s, none)
      → write_key sys absent sys.open_file s ≡ (present s, ok tt)
  unfolding write_key
  written sys s opens writes =
      ap (λ (r : Result (Unit {0})). write_key sys absent r s) opens
      ∙ ap (λ (w : ℕ × Option Error). (overwritten w.0 s absent, write_result s w.0 w.1)) writes
      ∙ ap₂ (λ (b : Bytes) (r : Result (Unit {0})). (present b, r))
          (take_all (length s) s (omega arith)) (ground arith)

  first_lem :
      (sys : System) (path s : Bytes) (k : L.PrivKey)
      → path ≢ in_memory
      → encode_key k ≡ ok s
      → sys.open_file ≡ ok tt
      → sys.write_string s ≡ (length s, none)
      → get_keys sys (ok (k, L.get_public k)) path absent ≡ (present s, ok (k, L.get_public k))
  unfolding get_keys load_key loaded_or_new create_key save_key save_encoded after_save
  first_lem sys path s k apart enc opens writes =
      on_disk path (absent, ok (k, L.get_public k)) _ apart
      ∙ ap (λ (r : Result Bytes). after_save (k, L.get_public k) (save_encoded sys absent r)) enc
      ∙ ap (after_save (k, L.get_public k)) (written sys s opens writes)

  second_lem :
      (later : System) (path s : Bytes) (k : L.PrivKey) (other : Result (L.PrivKey × L.PubKey))
      → path ≢ in_memory
      → encode_key k ≡ ok s
      → get_keys later other path (present s) ≡ (present s, ok (k, L.get_public k))
  unfolding get_keys loaded_or_new
  second_lem later path s k other apart enc =
      on_disk path (present s, other) _ apart
      ∙ ap (loaded_or_new later other (present s)) (load-present k s enc)

  -- On a path of the disk without a file, where the file can be opened and the whole text is
  -- written, getKeys gives the generated key and its public key, and leaves a file from which every
  -- later call, whatever it would generate, gives the same keys and which it leaves as it is.
  pub get_keys-get_keys :
      (sys later : System) (path s : Bytes) (k : L.PrivKey) (other : Result (L.PrivKey × L.PubKey))
      → path ≢ in_memory
      → encode_key k ≡ ok s
      → sys.open_file ≡ ok tt
      → sys.write_string s ≡ (length s, none)
      → let first = get_keys sys (ok (k, L.get_public k)) path absent in
        (first.1 ≡ ok (k, L.get_public k))
        × (get_keys later other path first.0 ≡ (first.0, ok (k, L.get_public k)))
  get_keys-get_keys sys later path s k other apart enc opens writes =
      let first = first_lem sys path s k apart enc opens writes in
      (
        ap (λ (p : File × Result (L.PrivKey × L.PubKey)). p.1) first,
        subst (λ (f : File). get_keys later other path f ≡ (f, ok (k, L.get_public k)))
            (sym (ap (λ (p : File × Result (L.PrivKey × L.PubKey)). p.0) first))
            (second_lem later path s k other apart enc),
      )
