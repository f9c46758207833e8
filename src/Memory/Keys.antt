-- ===== src/Memory/Keys.antt =====
-- Boxes, signatures and keys that hide nothing.
use plan_vault_libp2p.Prelude.{
  ◌≡◌, refl, sym, ap, some, Bytes, ok, length, drop, drop-append_left, ◌++◌,
}
use plan_vault_libp2p.Interfaces.{Crypto, KeyLib}

-- Boxes and signatures that put the keys in front.
abbrev pub plain : Crypto
plain = record {
  seal = λ n k m. m;
  open_box = λ n k b. some b;
  sign = λ k m. k ++ m;
  open_signed = λ k b. some (drop (length k) b);
  IsPair = λ public private. public ≡ private;
  open_box-seal = λ n k m. refl;
  open_signed-sign = λ public private m same.
      ap some (drop-append_left (length public) private m (ap length (sym same)));
}

-- Keys that are their own text.
abbrev pub plain_keys : KeyLib
plain_keys = record {
  PrivKey = Bytes;
  PubKey = Bytes;
  get_public = λ k. k;
  raw_public = λ k. ok k;
  raw_private = λ k. ok k;
  id_from_public_key = λ k. ok k;
  marshal_private_key = λ k. ok k;
  unmarshal_private_key = λ b. ok b;
  config_encode_key = λ b. b;
  config_decode_key = λ b. ok b;
  unmarshal-marshal = λ k b h. sym h;
  config_decode-config_encode = λ b. refl;
}
