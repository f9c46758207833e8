-- ===== src/Keyring/Members.antt =====
-- What adding and removing keys means for the entries that a ring can decode.
use plan_vault_libp2p.Prelude.{
  ◌≡◌, refl, ap, ◌∙◌, Option, some, Bytes, bytes_of, Bytes_eq, ok, err, lookup, length,
  Option-cases, inl, inr,
}
use plan_vault_libp2p.Prelude.Errors.{invalid_signature, unknown_key}
use plan_vault_libp2p.Prelude.Maps.{lookup-insert_self, lookup-delete_self}
use plan_vault_libp2p.Protos.{Msg, get_feed_uri, get_member_id}
use plan_vault_libp2p.Interfaces.{Crypto}
use plan_vault_libp2p.Keyring.{
  KeyRing, KeySet, salt_len, keyset, encode_entry, decode_entry, member_id_from_string,
  get_member_key, known, add_community_key, add_key_pair, remove_member_key, remove_from_set,
  update_keys, set_member_key, or_new,
}
use plan_vault_libp2p.Keyring.Roundtrip.{decode-encode}

pub keyset-update_keys :
    {K : Type 0} (uri : Bytes) (f : KeySet → KeySet) (kr : KeyRing K)
    → keyset uri (update_keys uri f kr) ≡ some (f (or_new (keyset uri kr)))
unfolding keyset update_keys
keyset-update_keys uri f kr =
    lookup-insert_self uri (f (or_new (lookup uri kr.channel_keys))) kr.channel_keys

get_member_key-removed :
    (id : Bytes) (ks : KeySet) → get_member_key id (remove_from_set id ks).0 ≡ err unknown_key
unfolding get_member_key remove_from_set
get_member_key-removed id ks = elim (Option-cases (lookup id ks.member_keys)) [
  | inl e ↦ rw (e, remove_from_set) (rw (e, get_member_key) refl)
  | inr (key, e) ↦
      rw (e, remove_from_set) (rw (lookup-delete_self id ks.member_keys, get_member_key) refl)
]

keyset-removed :
    {K : Type 0} (uri id : Bytes) (kr : KeyRing K) (ks : KeySet)
    → keyset uri kr ≡ some ks
    → keyset uri (remove_member_key uri id kr).0 ≡ some (remove_from_set id ks).0
unfolding keyset remove_member_key
keyset-removed uri id kr ks e =
    rw (e, remove_member_key) (lookup-insert_self uri (remove_from_set id ks).0 kr.channel_keys)

module _ (C : Crypto) where
  decode_unknown :
      {K : Type 0} (entry : Msg) (kr : KeyRing K) (ks : KeySet)
      → keyset (get_feed_uri entry.entry_header) kr ≡ some ks
      → get_member_key (member_id_from_string (bytes_of (get_member_id entry.entry_header))) ks
        ≡ err unknown_key
      → decode_entry C entry kr ≡ err invalid_signature
  unfolding decode_entry
  decode_unknown entry kr ks e f = elim (Option-cases entry.body) [
    | inl none_given ↦ rw (e, known) (rw none_given refl)
    | inr (body, given) ↦ rw (e, known) (rw given (rw f refl))
  ]

  -- Once a member's key is removed from a channel that the ring knows, no entry of that channel
  -- with the member's ID decodes: each is refused for its signature.
  pub decode-removed :
      {K : Type 0} (entry : Msg) (kr : KeyRing K) (ks : KeySet)
      → keyset (get_feed_uri entry.entry_header) kr ≡ some ks
      → let id = member_id_from_string (bytes_of (get_member_id entry.entry_header)) in
        decode_entry C entry (remove_member_key (get_feed_uri entry.entry_header) id kr).0
        ≡ err invalid_signature
  decode-removed entry kr ks e =
      let uri = get_feed_uri entry.entry_header in
      let id = member_id_from_string (bytes_of (get_member_id entry.entry_header)) in
      decode_unknown entry (remove_member_key uri id kr).0 (remove_from_set id ks).0
        (keyset-removed uri id kr ks e) (get_member_key-removed id ks)

  -- A ring to which a community key and then a key pair were added for a channel decodes its own
  -- entries of that channel, whatever the ring held before.
  decode_own :
      {K : Type 0} (kr : KeyRing K) (uri id key public private salt new_id body : Bytes)
      → C.IsPair public private
      → length id ≡ 20
      → length salt ≡ salt_len
      → let ring =
          add_key_pair uri id (some public) (some private) (add_community_key uri (some key) kr) in
        (entry : Msg) × (encode_entry C (ok salt) new_id body uri ring ≡ ok entry)
        × (decode_entry C entry ring ≡ ok body)
  unfolding add_key_pair add_community_key set_member_key or_new keyset
  decode_own kr uri id key public private salt new_id body pair len len' =
      let first = update_keys uri (λ ks. record ks { community_key = some key }) kr in
      let old : KeySet = or_new (keyset uri kr) in
      let add = λ (ks : KeySet).
        set_member_key id (some public)
          (record ks { private_key = some private; public_key = some public; member_id = id }) in
      let held : keyset uri (update_keys uri add first)
          ≡ some (add (record old { community_key = some key })) =
        keyset-update_keys uri add first
        ∙ ap (λ (o : Option KeySet). some (add (or_new o)))
            (keyset-update_keys uri (λ ks. record ks { community_key = some key }) kr) in
      decode-encode C (update_keys uri add first) (update_keys uri add first)
        (add (record old { community_key = some key }))
        (add (record old { community_key = some key })) uri key private public salt new_id body held
        held refl refl refl (lookup-insert_self id (some public) old.member_keys) pair len len'
