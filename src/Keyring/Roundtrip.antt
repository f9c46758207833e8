-- ===== src/Keyring/Roundtrip.antt =====
-- What one member encodes for a channel another one decodes.
use plan_vault_libp2p.Prelude.{
  ◌≡◌, refl, ap, ◌∙◌, ◌++◌, Option, some, Bytes, Bytes_eq, ok, ◌>>=◌, lookup, take, slice_from,
  length, take-append_left,
}
use plan_vault_libp2p.Prelude.Errors.{decrypt_failed_sym}
use plan_vault_libp2p.Protos.{Msg, empty_header, empty_msg}
use plan_vault_libp2p.Interfaces.{Crypto}
use plan_vault_libp2p.Store.Keys.Layout.{slice_from-append, copy-replicate, fit_exact}
use plan_vault_libp2p.Keyring.{
  KeyRing, KeySet, salt_len, keyset, encode_entry, decode_entry, encrypt_entry, decrypt_entry,
  sign_entry, verify_entry, member_id_from_string, get_member_key, key_or_panic, known, opened,
}

-- Copying twenty bytes into twenty bytes.
member_id_from_string_exact : (id : Bytes) → length id ≡ 20 → member_id_from_string id ≡ id
unfolding member_id_from_string
member_id_from_string_exact id e = copy-replicate 20 id ∙ fit_exact 20 id e

module _ (C : Crypto) where
  decrypt_parts :
      (text salt box key body : Bytes)
      → slice_from 24 text ≡ some box
      → take 24 text ≡ salt
      → C.open_box salt key box ≡ some body
      → decrypt_entry C text (some key) ≡ ok body
  unfolding decrypt_entry
  decrypt_parts text salt box key body at_box at_salt opens =
      ap
        (λ (r : Option Bytes). key_or_panic r >>= λ (b : Bytes).
          opened decrypt_failed_sym (C.open_box (take 24 text) key b))
        at_box
      ∙ ap (λ (n : Bytes). opened decrypt_failed_sym (C.open_box n key box)) at_salt
      ∙ ap (opened decrypt_failed_sym) opens

  decrypt-seal :
      (key body salt : Bytes)
      → length salt ≡ 24
      → decrypt_entry C (salt ++ C.seal salt key body) (some key) ≡ ok body
  decrypt-seal key body salt e =
      decrypt_parts (salt ++ C.seal salt key body) salt (C.seal salt key body) key body
        (slice_from-append 24 salt (C.seal salt key body) e)
        (take-append_left 24 salt (C.seal salt key body) e) (C.open_box-seal salt key body)

  -- The entry that a member makes of a body.
  abbrev made_entry : KeySet → Bytes → Bytes → Bytes → Bytes → Bytes → Bytes → Msg
  made_entry mine uri key private salt new_id body = record empty_msg {
    entry_header = some (record empty_header {
      entry_id = some new_id;
      member_id = some mine.member_id;
      feed_uri = uri;
    });
    body = some (C.sign private (salt ++ C.seal salt key body));
  }

  encode-made :
      {K : Type 0} (sender : KeyRing K) (mine : KeySet) (uri key private salt new_id body : Bytes)
      → keyset uri sender ≡ some mine
      → mine.community_key ≡ some key
      → mine.private_key ≡ some private
      → encode_entry C (ok salt) new_id body uri sender
        ≡ ok (made_entry mine uri key private salt new_id body)
  unfolding encode_entry encrypt_entry sign_entry
  encode-made sender mine uri key private salt new_id body m k p = rw (m, known) (rw k (rw p refl))

  decode-made :
      {K : Type 0} (receiver : KeyRing K) (mine theirs : KeySet)
      (uri key private public salt new_id body : Bytes)
      → keyset uri receiver ≡ some theirs
      → theirs.community_key ≡ some key
      → get_member_key (member_id_from_string mine.member_id) theirs ≡ ok (some public)
      → C.IsPair public private
      → length salt ≡ 24
      → decode_entry C (made_entry mine uri key private salt new_id body) receiver ≡ ok body
  unfolding decode_entry verify_entry
  decode-made receiver mine theirs uri key private public salt new_id body t k found pair len =
      rw (t, known)
        (rw found (
          rw (C.open_signed-sign public private (salt ++ C.seal salt key body) pair)
            (rw k (decrypt-seal key body salt len))))

  member_lem :
      (theirs : KeySet) (id public : Bytes)
      → length id ≡ 20
      → lookup id theirs.member_keys ≡ some (some public)
      → get_member_key (member_id_from_string id) theirs ≡ ok (some public)
  unfolding get_member_key
  member_lem theirs id public len found =
      ap (λ (i : Bytes). get_member_key i theirs) (member_id_from_string_exact id len)
      ∙ rw (found, get_member_key) refl

  -- A member whose keys for the channel are set encodes a body, and a member with the same
  -- community key who knows the sender's public key under its member ID decodes the entry to that
  -- body.
  pub decode-encode :
      {K : Type 0} (sender receiver : KeyRing K) (mine theirs : KeySet)
      (uri key private public salt new_id body : Bytes)
      → keyset uri sender ≡ some mine
      → keyset uri receiver ≡ some theirs
      → mine.community_key ≡ some key
      → theirs.community_key ≡ some key
      → mine.private_key ≡ some private
      → lookup mine.member_id theirs.member_keys ≡ some (some public)
      → C.IsPair public private
      → length mine.member_id ≡ 20
      → length salt ≡ salt_len
      → (entry : Msg) × (encode_entry C (ok salt) new_id body uri sender ≡ ok entry)
        × (decode_entry C entry receiver ≡ ok body)
  decode-encode sender receiver mine theirs uri key private public salt new_id body m t k k' p l
        pair len len' =
      (
        made_entry mine uri key private salt new_id body,
        encode-made sender mine uri key private salt new_id body m k p,
        decode-made receiver mine theirs uri key private public salt new_id body t k'
            (member_lem theirs mine.member_id public len l) pair len',
      )
