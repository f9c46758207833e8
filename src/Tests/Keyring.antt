-- ===== src/Tests/Keyring.antt =====
-- Keyrings and clients at concrete values.
use plan_vault_libp2p.Prelude.{
  ◌≡◌, refl, false, [], ◌∷◌, some, none, Bytes, Bytes_eq, ok, err, length, lookup, insert,
  replicate,
}
use plan_vault_libp2p.Prelude.Errors.{invalid_signature}
use plan_vault_libp2p.Protos.{Msg, FeedReq, ReqOp, get_feed_uri}
use plan_vault_libp2p.Keyring.{
  KeyRing, KeySet, new_key_ring, new_key_set, or_new, keyset, add_community_key, add_key_pair,
  add_member_key, remove_member_key, encode_entry, decode_entry, member_id_from_string,
}
use plan_vault_libp2p.Keyring.Roundtrip.{decode-encode}
use plan_vault_libp2p.Keyring.Members.{decode-removed}
use plan_vault_libp2p.Keyring.File.{System, absent, encode_key}
use plan_vault_libp2p.Keyring.{member_public_key_from_bytes, member_private_key_from_bytes}
use plan_vault_libp2p.Keyring.Restore.{with_keys, new_from_file, IsRingOf, new_from_file_twice}
use plan_vault_libp2p.Client.{Client, open_uri, close_uri}
use plan_vault_libp2p.Client.Requests.{opens, after, close_uri-open_uri}
use plan_vault_libp2p.Memory.Keys.{plain, plain_keys}
use plan_vault_libp2p.Tests.{entry_1, id_1}

abbrev pub member : Bytes
member = replicate 20 4

abbrev pub ring : KeyRing Bytes
ring =
    add_key_pair (1 ∷ []) member (some (8 ∷ [])) (some (8 ∷ []))
      (add_community_key (1 ∷ []) (some (5 ∷ [])) new_key_ring)

abbrev pub receiver : KeyRing Bytes
receiver =
    add_member_key (1 ∷ []) member (some (8 ∷ []))
      (add_community_key (1 ∷ []) (some (5 ∷ [])) new_key_ring)

abbrev pub mine : KeySet
mine = record {
  community_key = some (5 ∷ []);
  member_id = member;
  private_key = some (8 ∷ []);
  public_key = some (8 ∷ []);
  member_keys = (member, some (8 ∷ [])) ∷ [];
}

abbrev pub theirs : KeySet
theirs = record {
  community_key = some (5 ∷ []);
  member_id = replicate 20 0;
  private_key = none;
  public_key = none;
  member_keys = (member, some (8 ∷ [])) ∷ [];
}

pub ring_lem : keyset (1 ∷ []) ring ≡ some mine
unfolding keyset add_key_pair add_community_key new_key_ring new_key_set or_new lookup insert
ring_lem = refl

pub receiver_lem : keyset (1 ∷ []) receiver ≡ some theirs
unfolding keyset add_member_key add_community_key new_key_ring new_key_set or_new lookup insert
receiver_lem = refl

pub their_key : lookup member theirs.member_keys ≡ some (some (8 ∷ []))
unfolding lookup
their_key = refl

decode-encode_example :
    (entry : Msg) × (encode_entry plain (ok (replicate 24 3)) id_1 (6 ∷ []) (1 ∷ []) ring
      ≡ ok entry)
    × (decode_entry plain entry receiver ≡ ok (6 ∷ []))
decode-encode_example =
    decode-encode plain ring receiver mine theirs (1 ∷ []) (5 ∷ []) (8 ∷ []) (8 ∷ [])
      (replicate 24 3) id_1 (6 ∷ []) ring_lem receiver_lem refl refl refl their_key refl refl refl

receiver_entry_1 : keyset (get_feed_uri entry_1.entry_header) receiver ≡ some theirs
receiver_entry_1 = receiver_lem

decode-removed_example :
    decode_entry plain entry_1 (remove_member_key (1 ∷ []) (member_id_from_string []) receiver).0
    ≡ err invalid_signature
decode-removed_example = decode-removed plain entry_1 receiver theirs receiver_entry_1

abbrev disk : System
disk = record { open_file = ok tt; write_string = λ s. (length s, none) }

encoded : encode_key plain_keys member ≡ ok member
unfolding encode_key
encoded = refl

abbrev own_ring : KeyRing Bytes
own_ring =
    add_key_pair (1 ∷ []) (member_id_from_string member) (member_public_key_from_bytes member)
      (member_private_key_from_bytes member) (record new_key_ring { identity = some member })

own_ring_lem : with_keys plain_keys new_key_ring (1 ∷ []) (member, member) ≡ ok own_ring
unfolding with_keys
own_ring_lem = refl

new_from_file_twice_example :
    let first = new_from_file plain_keys disk (ok (member, member)) (1 ∷ []) (47 ∷ []) absent in
    (first.1 ≡ ok own_ring)
    × IsRingOf plain_keys (1 ∷ []) member own_ring
    × (new_from_file plain_keys disk (err invalid_signature) (1 ∷ []) (47 ∷ []) first.0
        ≡ (first.0, ok own_ring))
new_from_file_twice_example =
    new_from_file_twice plain_keys disk disk (1 ∷ []) (47 ∷ []) member member
      (err invalid_signature) own_ring (λ e. cc) encoded refl refl own_ring_lem

-- A client whose counter is about to wrap.
abbrev client : Client
client = record { cancelled = false; sends_closed = false; req_mapping = []; counter = 4294967295 }

abbrev req : FeedReq
req = record { req_op = ReqOp.append_entry; req_id = 0; open_feed = none; new_entry = none }

close_uri-open_uri_example :
    close_uri (1 ∷ []) (after (opens (2 ∷ []) ∷ []) (open_uri (1 ∷ []) client).0)
    ≡ ok (record {
      req_op = ReqOp.cancel_req;
      req_id = (open_uri (1 ∷ []) client).1.req_id;
      open_feed = none;
      new_entry = none;
    })
close_uri-open_uri_example =
    close_uri-open_uri (1 ∷ []) client (opens (2 ∷ []) ∷ []) ((λ e. cc), tt)
