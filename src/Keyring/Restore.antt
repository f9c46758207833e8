-- ===== src/Keyring/Restore.antt =====
-- The conversions from libp2p keys of keyring/types.go, restore of keyring/file.go and NewFromFile.
use plan_vault_libp2p.Prelude.{
  ◌≡◌, ◌≢◌, refl, ap, subst, ◌∙◌, none, some, Bytes, Bytes_eq, Slice, Result, ok, ◌>>=◌, >>=-eq-ok,
  ok-injective, length, lookup,
}
use plan_vault_libp2p.Prelude.Maps.{lookup-insert_self}
use plan_vault_libp2p.Interfaces.{KeyLib}
use plan_vault_libp2p.Keyring.{
  KeyRing, KeySet, new_key_ring, add_key_pair, update_keys, set_member_key, keyset,
  member_public_key_from_bytes, member_private_key_from_bytes, member_id_from_string,
}
use plan_vault_libp2p.Keyring.Members.{keyset-update_keys}
use plan_vault_libp2p.Keyring.File.{
  File, absent, System, in_memory, encode_key, get_keys, get_keys-get_keys,
}

module _ (L : KeyLib) where
  unfoldable member_public_key_from_p2p_key : L.PubKey → Result Slice
  member_public_key_from_p2p_key k = do b ← L.raw_public k; ok (member_public_key_from_bytes b)

  unfoldable member_private_key_from_p2p_key : L.PrivKey → Result Slice
  member_private_key_from_p2p_key k = do b ← L.raw_private k; ok (member_private_key_from_bytes b)

  unfoldable member_id_from_p2p_pub_key : L.PubKey → Result Bytes
  member_id_from_p2p_pub_key k = do id ← L.id_from_public_key k; ok (member_id_from_string id)

  unfoldable decode_p2p_priv_key : Bytes → Result L.PrivKey
  decode_p2p_priv_key encoded = do b ← L.config_decode_key encoded; L.unmarshal_private_key b

  -- `restore` from the keys on.
  unfoldable pub with_keys :
      KeyRing L.PrivKey → Bytes → L.PrivKey × L.PubKey → Result (KeyRing L.PrivKey)
  unfolding member_public_key_from_p2p_key member_private_key_from_p2p_key
      member_id_from_p2p_pub_key
  with_keys kr uri pair = do
    public ← member_public_key_from_p2p_key pair.1
    private ← member_private_key_from_p2p_key pair.0
    id ← member_id_from_p2p_pub_key pair.1
    ok (add_key_pair uri id public private (record kr { identity = some pair.0 }))

  unfoldable pub restore :
      System
      → Result (L.PrivKey × L.PubKey)
      → KeyRing L.PrivKey
      → Bytes
      → Bytes
      → File
      → File × Result (KeyRing L.PrivKey)
  unfolding with_keys
  restore sys generated kr uri path file =
      let (file', pair) = get_keys L sys generated path file in
      (file', pair >>= λ p. with_keys kr uri p)

  unfoldable pub new_from_file :
      System
      → Result (L.PrivKey × L.PubKey)
      → Bytes
      → Bytes
      → File
      → File × Result (KeyRing L.PrivKey)
  unfolding restore
  new_from_file sys generated uri path file = restore sys generated new_key_ring uri path file

  -- The ring of a vault with the private key `k`.
  pub record IsRingOf (uri : Bytes) (k : L.PrivKey) (kr : KeyRing L.PrivKey) : Type 0 where
    pub identity : kr.identity ≡ some k
    pub keys :
        (ks : KeySet) × (id : Bytes) × (keyset uri kr ≡ some ks)
        × (L.id_from_public_key (L.get_public k) ≡ ok id)
        × (ks.member_id ≡ member_id_from_string id)
        × (lookup ks.member_id ks.member_keys ≡ some ks.public_key)

  member_id-ok :
      (k : L.PubKey) (id : Bytes)
      → member_id_from_p2p_pub_key k ≡ ok id
      → (raw : Bytes) × (L.id_from_public_key k ≡ ok raw) × (member_id_from_string raw ≡ id)
  unfolding member_id_from_p2p_pub_key
  member_id-ok k id h =
      let (raw, e, cut) = >>=-eq-ok (L.id_from_public_key k) _ h in (raw, e, ok-injective cut)

  pair-IsRingOf :
      (kr : KeyRing L.PrivKey) (uri raw : Bytes) (k : L.PrivKey) (public private : Slice)
      → L.id_from_public_key (L.get_public k) ≡ ok raw
      → IsRingOf uri k (
          add_key_pair uri
            (member_id_from_string raw)
            public
            private
            (record kr { identity = some k }))
  unfolding add_key_pair update_keys set_member_key
  pair-IsRingOf kr uri raw k public private named = record {
    identity = refl;
    keys = (
      _,
      raw,
      keyset-update_keys uri
          (λ (ks : KeySet). set_member_key (member_id_from_string raw) public (record ks {
            private_key = private;
            public_key = public;
            member_id = member_id_from_string raw;
          }))
          (record kr { identity = some k }),
      named,
      refl,
      lookup-insert_self (member_id_from_string raw) public _,
    );
  }

  with_keys-IsRingOf :
      (kr ring : KeyRing L.PrivKey) (uri : Bytes) (k : L.PrivKey)
      → with_keys kr uri (k, L.get_public k) ≡ ok ring
      → IsRingOf uri k ring
  unfolding with_keys
  with_keys-IsRingOf kr ring uri k h =
      let (public, e₁, h₁) = >>=-eq-ok (member_public_key_from_p2p_key (L.get_public k)) _ h in
      let (private, e₂, h₂) = >>=-eq-ok (member_private_key_from_p2p_key k) _ h₁ in
      let (id, e₃, h₃) = >>=-eq-ok (member_id_from_p2p_pub_key (L.get_public k)) _ h₂ in
      let (raw, named, cut) = member_id-ok (L.get_public k) id e₃ in
      subst (IsRingOf uri k) (ok-injective h₃) (
        subst
          (λ (i : Bytes).
            IsRingOf uri k (add_key_pair uri i public private (record kr { identity = some k })))
          cut (pair-IsRingOf kr uri raw k public private named))

  -- On a path of the disk without a file, where the new key can be written, a vault that starts
  -- gets a ring with the generated key as its identity, with its own public key under its member
  -- ID; and a vault that starts again, whatever it would generate, gets the same ring and leaves
  -- the file as it is.
  pub new_from_file_twice :
      (sys later : System) (uri path s : Bytes) (k : L.PrivKey)
      (other : Result (L.PrivKey × L.PubKey)) (ring : KeyRing L.PrivKey)
      → path ≢ in_memory
      → encode_key L k ≡ ok s
      → sys.open_file ≡ ok tt
      → sys.write_string s ≡ (length s, none)
      → with_keys new_key_ring uri (k, L.get_public k) ≡ ok ring
      → let first = new_from_file sys (ok (k, L.get_public k)) uri path absent in
        (first.1 ≡ ok ring)
        × IsRingOf uri k ring
        × (new_from_file later other uri path first.0 ≡ (first.0, ok ring))
  unfolding new_from_file restore
  new_from_file_twice sys later uri path s k other ring apart enc opens writes made =
      let (first, again) = get_keys-get_keys L sys later path s k other apart enc opens writes in
      let ring_of : File × Result (L.PrivKey × L.PubKey) → File × Result (KeyRing L.PrivKey) =
        λ p. (p.0, p.1 >>= λ (pair : L.PrivKey × L.PubKey). with_keys new_key_ring uri pair) in
      let start : File = (get_keys L sys (ok (k, L.get_public k)) path absent).0 in
      (
        ap
              (λ (r : Result (L.PrivKey × L.PubKey)).
                r >>= λ (pair : L.PrivKey × L.PubKey). with_keys new_key_ring uri pair)
              first
            ∙ made,
        with_keys-IsRingOf new_key_ring ring uri k made,
        ap ring_of again ∙ ap (λ (r : Result (KeyRing L.PrivKey)). (start, r)) made,
      )
