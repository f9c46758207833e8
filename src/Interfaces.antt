-- ===== src/Interfaces.antt =====
-- What the vault uses of code that is not in the repository, each library as a record of its
-- operations with the documented laws that the vault relies on.
pub mod Network
use mathlib.Core.List.{reverse}
use plan_vault_libp2p.Prelude.{
  ◌≡◌, Option, none, some, Bool, true, Bytes, Slice, Dict, Bytes_eq, lookup, Result, ok, ◌==◌,
  length, has_prefix, bytes_ltb, take_while, drop_while, if◌then◌else◌, [], ◌∷◌,
}
use plan_vault_libp2p.Protos.{Msg, EntryHeader}

-- What a transaction reads at a key that it has written or not.
abbrev pub or_written : Option Bytes → Result Bytes → Result Bytes
or_written none r = r
or_written (some v) r = ok v

-- Seek puts the iterator at the least key that is not below `key`; with an empty key it starts at
-- the prefix. Valid fails at the first key without the prefix.
abbrev pub seek_from : Bytes → Bytes → Bytes
seek_from prefix [] = prefix
seek_from prefix (b ∷ bs) = b ∷ bs

abbrev pub seek_items : Bytes → Bytes → Dict Bytes Bytes → Dict Bytes Bytes
seek_items prefix key items =
    take_while (λ it. has_prefix prefix it.0)
      (drop_while (λ it. bytes_ltb it.0 (seek_from prefix key)) items)

-- The first key is above `k`.
abbrev pub IsAbove : Bytes → Dict Bytes Bytes → Type 0
IsAbove k [] = Unit
IsAbove k (it ∷ items) = bytes_ltb k it.0 ≡ true

-- Keys rise strictly along the items.
abbrev pub IsRising : Dict Bytes Bytes → Type 0
IsRising [] = Unit
IsRising (it ∷ items) = IsAbove it.0 items × IsRising items

-- github.com/dgraph-io/badger/v2. `Db` is the content of the database at a moment, on which
-- `begin` opens a transaction: each transaction sees the snapshot on which it was begun and its
-- own writes, and is refused at its commit if another wrote a key that it has read.
-- `items` are the keys and values that an iterator over the snapshot passes, in key order.
pub record Badger : Type 1 where
  pub Db : Type 0
  pub Txn : Type 0
  pub begin : Db → Txn
  pub get : Txn → Bytes → Result Bytes × Txn
  pub set_entry : Txn → Bytes → Bytes → Result Txn
  pub commit : Db → Txn → Result Db
  pub items : Db → Dict Bytes Bytes
  pub seek : Db → Bytes → Bytes → Dict Bytes Bytes
  pub rewind_reverse : Db → Dict Bytes Bytes
  -- what the laws speak of: the snapshot, the writes and the keys read of a transaction
  pub snapshot : Txn → Db
  pub pending : Txn → Bytes → Option Bytes
  pub has_read : Txn → Bytes → Bool
  pub snapshot-begin : (d : Db) → snapshot (begin d) ≡ d
  pub pending-begin : (d : Db) (k : Bytes) → pending (begin d) k ≡ none
  pub snapshot-get : (t : Txn) (k : Bytes) → snapshot (get t k).1 ≡ snapshot t
  pub pending-get : (t : Txn) (k j : Bytes) → pending (get t k).1 j ≡ pending t j
  pub has_read-get : (t : Txn) (k : Bytes) → has_read (get t k).1 k ≡ true
  pub snapshot-set : (t t' : Txn) (k v : Bytes) → set_entry t k v ≡ ok t' → snapshot t' ≡ snapshot t
  pub pending-set :
      (t t' : Txn) (k v j : Bytes)
      → set_entry t k v ≡ ok t'
      → pending t' j ≡ (if k == j then some v else pending t j)
  pub has_read-set :
      (t t' : Txn) (k v j : Bytes)
      → set_entry t k v ≡ ok t'
      → has_read t j ≡ true
      → has_read t' j ≡ true
  pub get-or_written :
      (t : Txn) (k : Bytes) → (get t k).0 ≡ or_written (pending t k) (get (begin (snapshot t)) k).0
  pub get-commit :
      (d d' : Db) (t : Txn) (k : Bytes)
      → commit d t ≡ ok d'
      → (get (begin d') k).0 ≡ or_written (pending t k) (get (begin d) k).0
  pub conflict :
      (d d' : Db) (t : Txn) (k : Bytes)
      → commit d t ≡ ok d'
      → has_read t k ≡ true
      → (get (begin d) k).0 ≡ (get (begin (snapshot t)) k).0
  pub items-IsRising : (d : Db) → IsRising (items d)
  pub items-get : (d : Db) (k v : Bytes) → lookup k (items d) ≡ some v → (get (begin d) k).0 ≡ ok v
  pub get-items : (d : Db) (k v : Bytes) → (get (begin d) k).0 ≡ ok v → lookup k (items d) ≡ some v
  pub seek_lem : (d : Db) (p k : Bytes) → seek d p k ≡ seek_items p k (items d)
  pub rewind_reverse_lem : (d : Db) → rewind_reverse d ≡ reverse (items d)

-- proto3 has one encoding for an empty and for an absent `bytes` field.
abbrev pub wire_slice : Slice → Slice
wire_slice none = none
wire_slice (some []) = none
wire_slice (some (b ∷ bs)) = some (b ∷ bs)

abbrev wire_header : Option EntryHeader → Option EntryHeader
wire_header none = none
wire_header (some h) = some (record h {
  entry_id = wire_slice h.entry_id;
  member_id = wire_slice h.member_id;
  parent_id = wire_slice h.parent_id;
})

abbrev pub wire : Msg → Msg
wire m = record m { entry_header = wire_header m.entry_header; body = wire_slice m.body }

-- google.golang.org/protobuf: what is marshalled can be read back.
pub record Proto : Type 1 where
  pub marshal : Msg → Result Bytes
  pub unmarshal : Bytes → Result Msg
  pub unmarshal-marshal : (m : Msg) (b : Bytes) → marshal m ≡ ok b → unmarshal b ≡ ok (wire m)

-- crypto/sha256.
pub record Hash : Type 0 where
  pub sum256 : Bytes → Bytes
  pub length-sum256 : (b : Bytes) → length (sum256 b) ≡ 32

-- golang.org/x/crypto/nacl: secretbox and sign. A box opens with the nonce and the key that sealed
-- it, and a signed message with the public key that goes with the private one.
pub record Crypto : Type 1 where
  pub seal : Bytes → Bytes → Bytes → Bytes
  pub open_box : Bytes → Bytes → Bytes → Option Bytes
  pub sign : Bytes → Bytes → Bytes
  pub open_signed : Bytes → Bytes → Option Bytes
  pub IsPair : Bytes → Bytes → Type 0
  pub open_box-seal : (n k m : Bytes) → open_box n k (seal n k m) ≡ some m
  pub open_signed-sign :
      (public private m : Bytes)
      → IsPair public private
      → open_signed public (sign private m) ≡ some m

-- github.com/libp2p/go-libp2p-core/crypto: keys, their encodings, and the public key of a private
-- one.
pub record KeyLib : Type 1 where
  pub PrivKey : Type 0
  pub PubKey : Type 0
  pub get_public : PrivKey → PubKey
  pub raw_public : PubKey → Result Bytes
  pub raw_private : PrivKey → Result Bytes
  pub id_from_public_key : PubKey → Result Bytes
  pub marshal_private_key : PrivKey → Result Bytes
  pub unmarshal_private_key : Bytes → Result PrivKey
  pub config_encode_key : Bytes → Bytes
  pub config_decode_key : Bytes → Result Bytes
  pub unmarshal-marshal :
      (k : PrivKey) (b : Bytes) → marshal_private_key k ≡ ok b → unmarshal_private_key b ≡ ok k
  pub config_decode-config_encode : (b : Bytes) → config_decode_key (config_encode_key b) ≡ ok b
