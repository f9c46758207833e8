-- ===== src/Keyring.antt =====
-- The keyring of keyring/keyring.go and keyring/types.go. A pointer to a key is an `Option`, and a
-- library call on a nil one panics; a KeySet is reached only through its ring. Locks are left out.
-- The salt and the entry ID of an entry are what crypto/rand and the clock gave.
pub mod File
pub mod Members
pub mod Knows
pub mod Restore
pub mod Roundtrip
use plan_vault_libp2p.Prelude.{
  ℕ, List, [], ◌∷◌, ◌++◌, Option, none, some, Bytes, Slice, bytes_of, Bytes_eq, Dict, Error, Result,
  ok, err, panics, ◌>>=◌, lookup, insert, delete, copy_at, replicate, take, slice_from, length,
}
use plan_vault_libp2p.Prelude.Errors.{
  unknown_channel, unknown_key, invalid_signature, decrypt_failed_sym,
}
use plan_vault_libp2p.Protos.{Msg, empty_msg, empty_header, get_feed_uri, get_member_id}
use plan_vault_libp2p.Interfaces.{Crypto}

pub record KeySet : Type 0 where
  pub community_key : Slice
  pub member_id : Bytes
  pub private_key : Slice
  pub public_key : Slice
  pub member_keys : Dict Bytes Slice

-- `K` are the private keys of libp2p.
pub record KeyRing (K : Type 0) : Type 0 where
  pub identity : Option K
  pub channel_keys : Dict Bytes KeySet

abbrev pub salt_len : ℕ
salt_len = 24

unfoldable pub new_key_ring : {K : Type 0} → KeyRing K
new_key_ring = record { identity = none; channel_keys = [] }

unfoldable pub new_key_set : KeySet
new_key_set = record {
  community_key = none;
  member_id = replicate 20 0;
  private_key = none;
  public_key = none;
  member_keys = [];
}

unfoldable pub or_new : Option KeySet → KeySet
unfolding new_key_set
or_new none = new_key_set
or_new (some ks) = ks

-- The key set of a channel, made if there is none, after a change.
unfoldable pub update_keys : {K : Type 0} → Bytes → (KeySet → KeySet) → KeyRing K → KeyRing K
update_keys uri f kr = record kr {
  channel_keys = insert uri (f (or_new (lookup uri kr.channel_keys))) kr.channel_keys;
}

unfoldable pub set_member_key : Bytes → Slice → KeySet → KeySet
set_member_key id key ks = record ks { member_keys = insert id key ks.member_keys }

unfoldable pub get_member_key : Bytes → KeySet → Result Slice
get_member_key id ks = elim (lookup id ks.member_keys) [
  | none ↦ err unknown_key
  | some key ↦ ok key
]

unfoldable pub remove_from_set : Bytes → KeySet → KeySet × Result (Unit {0})
remove_from_set id ks = elim (lookup id ks.member_keys) [
  | none ↦ (ks, err unknown_key)
  | some key ↦ (record ks { member_keys = delete id ks.member_keys }, ok tt)
]

unfoldable pub add_community_key : {K : Type 0} → Bytes → Slice → KeyRing K → KeyRing K
unfolding update_keys
add_community_key uri key = update_keys uri λ ks. record ks { community_key = key }

unfoldable pub add_key_pair : {K : Type 0} → Bytes → Bytes → Slice → Slice → KeyRing K → KeyRing K
unfolding update_keys set_member_key
add_key_pair uri id public private = update_keys uri λ ks.
    set_member_key id public
      (record ks { private_key = private; public_key = public; member_id = id })

unfoldable pub add_member_key : {K : Type 0} → Bytes → Bytes → Slice → KeyRing K → KeyRing K
unfolding update_keys set_member_key
add_member_key uri id public = update_keys uri (set_member_key id public)

-- The error of the key set's own removal is dropped.
unfoldable pub remove_member_key :
    {K : Type 0} → Bytes → Bytes → KeyRing K → KeyRing K × Result (Unit {0})
unfolding remove_from_set
remove_member_key uri id kr = elim (lookup uri kr.channel_keys) [
  | none ↦ (kr, err unknown_key)
  | some ks ↦
      (record kr { channel_keys = insert uri (remove_from_set id ks).0 kr.channel_keys }, ok tt)
]

unfoldable pub keyset : {K : Type 0} → Bytes → KeyRing K → Option KeySet
keyset uri kr = lookup uri kr.channel_keys

-- Arrays of a fixed size, filled from a slice.
unfoldable pub member_public_key_from_bytes : Bytes → Slice
member_public_key_from_bytes b = some (copy_at 0 (replicate 32 0) b)

unfoldable pub member_private_key_from_bytes : Bytes → Slice
member_private_key_from_bytes b = some (copy_at 0 (replicate 64 0) b)

unfoldable pub member_id_from_string : Bytes → Bytes
member_id_from_string s = copy_at 0 (replicate 20 0) s

abbrev pub key_or_panic : Slice → Result Bytes
key_or_panic none = panics
key_or_panic (some key) = ok key

abbrev pub opened : Error → Option Bytes → Result Bytes
opened e none = err e
opened e (some b) = ok b

abbrev pub known : Option KeySet → Result KeySet
known none = err unknown_channel
known (some ks) = ok ks

-- A nil body has no signature.
abbrev signed_body : Slice → Result Bytes
signed_body none = err invalid_signature
signed_body (some b) = ok b

abbrev sender_or_invalid : Result Slice → Result Slice
sender_or_invalid (ok key) = ok key
sender_or_invalid _ = err invalid_signature

module _ (C : Crypto) where
  -- The result is the salt with the sealed box behind it.
  unfoldable pub encrypt_entry : Slice → Bytes → Result Bytes → Result Bytes
  encrypt_entry community body random = do
    salt ← random
    key ← key_or_panic community
    ok (salt ++ C.seal salt key body)

  -- A text shorter than the salt is a slice out of bounds.
  unfoldable pub decrypt_entry : Bytes → Slice → Result Bytes
  decrypt_entry encrypted community = do
    box ← key_or_panic (slice_from salt_len encrypted)
    key ← key_or_panic community
    opened decrypt_failed_sym (C.open_box (take salt_len encrypted) key box)

  unfoldable pub sign_entry : Slice → Bytes → Result Bytes
  sign_entry private m = do key ← key_or_panic private; ok (C.sign key m)

  unfoldable pub verify_entry : Bytes → Slice → Result Bytes
  verify_entry signed sender = do
    key ← key_or_panic sender
    opened invalid_signature (C.open_signed key signed)

  unfoldable pub encode_entry :
      {K : Type 0} → Result Bytes → Bytes → Bytes → Bytes → KeyRing K → Result Msg
  unfolding keyset encrypt_entry sign_entry
  encode_entry random new_id body uri kr = do
    ks ← known (keyset uri kr)
    text ← encrypt_entry ks.community_key body random
    signed ← sign_entry ks.private_key text
    ok (record empty_msg {
      entry_header = some (record empty_header {
        entry_id = some new_id;
        member_id = some ks.member_id;
        feed_uri = uri;
      });
      body = some signed;
    })

  unfoldable pub decode_entry : {K : Type 0} → Msg → KeyRing K → Result Bytes
  unfolding keyset get_member_key member_id_from_string verify_entry decrypt_entry
  decode_entry entry kr = do
    ks ← known (keyset (get_feed_uri entry.entry_header) kr)
    signed ← signed_body entry.body
    let id = member_id_from_string (bytes_of (get_member_id entry.entry_header))
    sender ← sender_or_invalid (get_member_key id ks)
    text ← verify_entry signed sender
    decrypt_entry text ks.community_key
