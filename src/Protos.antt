-- ===== src/Protos.antt =====
-- The messages of protos/vault.proto and protos/internal.proto, as protos/vault.pb.go and
-- protos/internal.pb.go declare them. A pointer to a message is an `Option`, a `bytes` field a
-- slice that may be nil, a string its bytes, an int32 its 32-bit pattern. proto3 enums are open:
-- where the program switches on one, `other` stands for every value with no name.
use plan_vault_libp2p.Prelude.{ℕ, List, [], Option, none, some, Bytes, Slice, Bool, Error}

pub data ReqOp : Type 0 where
  invalid_entry append_entry channel_genesis cancel_req open_feed : ReqOp
  other : ℕ → ReqOp

pub data MsgOp : Type 0 where
  feed_entry req_complete req_discarded feed_req_status : MsgOp

pub data StreamMode : Type 0 where
  dont_stream from_genesis at_entry after_entry after_head from_index : StreamMode
  other : ℕ → StreamMode

pub data StatusCode : Type 0 where
  info_msg warning_msg working finding_peers connecting_to_peers searching_for_feed : StatusCode
  transferring_feed stalled : StatusCode

pub data ErrCode : Type 0 where
  no_err unnamed_err req_canceled insufficient_permissions req_not_found req_in_use : ErrCode
  invalid_feed_uri feed_not_found feed_already_exists unrecognized_vault_ctx : ErrCode
  invalid_request database_error : ErrCode

pub data PeerUpdateOp : Type 0 where
  nothing upsert remove_permanently : PeerUpdateOp
  other : ℕ → PeerUpdateOp

pub record EntryHeader : Type 0 where
  pub entry_id : Slice
  pub member_id : Slice
  pub parent_id : Slice
  pub entry_codec : Bytes
  pub feed_uri : Bytes

-- The client and the server only set `code`.
pub record ReqStatus : Type 0 where
  pub code : StatusCode

-- `msg` is the text of an error, kept as the error itself.
pub record ReqErr : Type 0 where
  pub code : ErrCode
  pub msg : Error

pub record Msg : Type 0 where
  pub op : MsgOp
  pub req_id : ℕ
  pub entry_header : Option EntryHeader
  pub body : Slice
  pub status : Option ReqStatus
  pub req_err : Option ReqErr

pub record OpenFeedReq : Type 0 where
  pub feed_uri : Bytes
  pub stream_mode : StreamMode
  pub seek_entry_id : Slice
  pub max_entries_to_send : ℕ
  pub send_entry_ids_only : Bool

pub record FeedReq : Type 0 where
  pub req_op : ReqOp
  pub req_id : ℕ
  pub open_feed : Option OpenFeedReq
  pub new_entry : Option Msg

pub record Peer : Type 0 where
  pub op : PeerUpdateOp
  pub id : Bytes
  pub key : Slice
  pub multiaddrs : List Bytes

pub record TopicPointer : Type 0 where
  pub id : Bytes
  pub last_entry_published : Slice

pub record PubsubState : Type 0 where
  pub topics : List TopicPointer
  pub peers : List Peer

-- `&pb.Msg{}` and `&pb.EntryHeader{}`.
abbrev pub empty_msg : Msg
empty_msg = record {
  op = MsgOp.feed_entry;
  req_id = 0;
  entry_header = none;
  body = none;
  status = none;
  req_err = none;
}

abbrev pub empty_header : EntryHeader
empty_header = record {
  entry_id = none;
  member_id = none;
  parent_id = none;
  entry_codec = [];
  feed_uri = [];
}

-- The getters, which read a nil pointer as the zero value.
abbrev pub get_entry_header : Option Msg → Option EntryHeader
get_entry_header none = none
get_entry_header (some m) = m.entry_header

abbrev pub get_body : Option Msg → Slice
get_body none = none
get_body (some m) = m.body

abbrev pub get_entry_id : Option EntryHeader → Slice
get_entry_id none = none
get_entry_id (some h) = h.entry_id

abbrev pub get_member_id : Option EntryHeader → Slice
get_member_id none = none
get_member_id (some h) = h.member_id

abbrev pub get_feed_uri : Option EntryHeader → Bytes
get_feed_uri none = []
get_feed_uri (some h) = h.feed_uri
