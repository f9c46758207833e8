-- ===== src/Server/Session.antt =====
-- The handlers and the session loop of server/server.go. A connection is the session of one
-- client: its streams, and the contexts that were made for it, numbered, with those that were
-- cancelled one by one; the end of a session, which cancels all of them, is its status. Requests
-- are handled one after the other; `subscriptions` are the calls of Channel.Subscribe, oldest
-- first, with the channel's id. Locks, logs and metrics are left out, and what other connections
-- do shows in the store that a request finds.
pub mod Commits
pub mod Durability
pub mod Growth
pub mod Logged
pub mod Served
pub mod Opening
pub mod Replies
pub mod Streams
use plan_vault_libp2p.Prelude.{
  ℕ, suc, List, [], ◌∷◌, ◌++◌, Option, none, some, Bool, true, false, ◌||◌, Bytes, bytes_of, Dict,
  Bytes_eq, ℕ_eq, ◌==◌, Error, Result, ok, err, panics, ◌>>=◌, lookup, insert, delete, length, leb,
  ltb, if◌then◌else◌,
}
use plan_vault_libp2p.Prelude.Errors.{invalid_open_req, invalid_entry_body, unsupported_op}
use plan_vault_libp2p.Protos.{
  Msg, MsgOp, ReqOp, FeedReq, OpenFeedReq, EntryHeader, ReqErr, ReqStatus, ErrCode, StatusCode,
  empty_msg, empty_header, get_entry_header, get_feed_uri, get_body,
}
use plan_vault_libp2p.Interfaces.{Badger, Proto, Hash}
use plan_vault_libp2p.Store.Channel.{Channel, Subscriber, Target, stream}
use plan_vault_libp2p.Store.Channels.{Store, Subscribed, channel, put_channel, subscribe}
use plan_vault_libp2p.Store.Entries
use plan_vault_libp2p.Server.Options.{new_stream_opts}

abbrev pub max_body_size : ℕ
max_body_size = 10000000

-- `cancel` cancels the context `ctx`.
pub record Stream : Type 0 where
  pub id : ℕ
  pub ctx : ℕ

pub record Connection : Type 0 where
  pub id : Bytes
  pub streams : Dict ℕ Stream
  pub next_ctx : ℕ
  pub cancelled : List ℕ

unfoldable pub new_connection : Bytes → Connection
new_connection uuid = record { id = uuid; streams = []; next_ctx = 0; cancelled = [] }

-- Done of a stream.
unfoldable pub done : Stream → Connection → Connection
done s conn = record conn {
  cancelled = conn.cancelled ++ s.ctx ∷ [];
  streams = delete s.id conn.streams;
}

-- Publish of a stream: what it sends to the client.
unfoldable pub publish : ℕ → Msg → Msg
publish req_id msg = record msg { req_id = req_id }

unfoldable pub error_response : ℕ → ErrCode → Error → Msg
error_response req_id code e = record empty_msg {
  op = MsgOp.req_discarded;
  req_id = req_id;
  req_err = some (record { code = code; msg = e });
}

unfoldable pub unsupported : FeedReq → Msg
unfolding error_response
unsupported req = error_response req.req_id ErrCode.invalid_request unsupported_op

-- What the session reads next: the end of its context, a request with the Unix time of its
-- handling, the end of the stream, or an error.
pub data Received : Type 0 where
  ctx_done end_of_stream : Received
  request : ℕ → FeedReq → Received
  failed : Error → Received

module _ (B : Badger) (P : Proto) (H : Hash) where
  pub record Vault : Type 0 where
    pub store : Store B
    pub conn : Connection
    pub subscriptions : List (Bytes × Subscribed)

  -- The reply to an Append.
  unfoldable pub append_reply : ℕ → Result Bytes → Result Msg
  append_reply req_id (ok key) = ok (record empty_msg {
    op = MsgOp.req_complete;
    req_id = req_id;
    entry_header = some (record empty_header { entry_id = some key });
  })
  append_reply req_id (err e) = ok (error_response req_id ErrCode.database_error e)
  append_reply req_id panics = panics

  -- From the channel on.
  append_to : ℕ → FeedReq → Bytes → Store B → Store B × Result Msg
  unfolding append_reply error_response
  append_to unix req uri s =
      let (t, c) = channel B (H.sum256 uri) s in
      let (db, key) = Entries.append B P c unix req.new_entry t.db t.db in
      (record t { db = db }, append_reply req.req_id key)

  abbrev pub bad_body : Bytes → Bool
  bad_body body = leb (length body) 0 || ltb max_body_size (length body)

  unfoldable pub append : ℕ → FeedReq → Store B → Store B × Result Msg
  unfolding append_to error_response
  append unix req s =
      let uri = get_feed_uri (get_entry_header req.new_entry) in
      let body = bytes_of (get_body req.new_entry) in
      if uri == []
      then (s, ok (error_response req.req_id ErrCode.invalid_feed_uri Error.invalid_feed_uri))
      else if bad_body body
      then (s, ok (error_response req.req_id ErrCode.invalid_request invalid_entry_body))
      else append_to unix req uri s

  abbrev append_in : ℕ → FeedReq → Vault → Vault × Result Msg
  append_in unix req v = let (s, reply) = append unix req v.store in (record v { store = s }, reply)

  -- `new` is `append`.
  unfoldable pub new : ℕ → FeedReq → Vault → Vault × Result Msg
  unfolding append
  new unix req v = append_in unix req v

  abbrev working_reply : ℕ → Msg
  working_reply req_id = record empty_msg {
    op = MsgOp.req_complete;
    req_id = req_id;
    status = some (record { code = StatusCode.working });
  }

  -- A panic of Subscribe is one of the handler.
  subscribed : ℕ → Bytes → Vault → Result (Channel × Subscribed) → Vault × Result Msg
  subscribed req_id id v (ok (c, what)) = (
    record v {
      store = put_channel B c v.store;
      subscriptions = v.subscriptions ++ (id, what) ∷ [];
    },
    ok (working_reply req_id),
  )
  subscribed req_id id v (err e) = (v, err e)
  subscribed req_id id v panics = (v, panics)

  -- From the channel on: a context and a stream for the request, and the subscription.
  open_at : ℕ → OpenFeedReq → Vault → Vault × Result Msg
  unfolding subscribed
  open_at req_id open_req v =
      let id = H.sum256 open_req.feed_uri in
      let (t, c) = channel B id v.store in
      let ctx = v.conn.next_ctx in
      let conn' : Connection = record v.conn {
        streams = insert req_id (record { id = req_id; ctx = ctx }) v.conn.streams;
        next_ctx = suc ctx;
      } in
      subscribed req_id id (record v { store = t; conn = conn' })
        (subscribe c ctx (stream v.conn.id req_id) (new_stream_opts open_req))

  open_checked : ℕ → Option OpenFeedReq → Vault → Vault × Result Msg
  unfolding open_at error_response
  open_checked req_id none v =
      (v, ok (error_response req_id ErrCode.invalid_request invalid_open_req))
  open_checked req_id (some open_req) v =
      if open_req.feed_uri == []
      then (v, ok (error_response req_id ErrCode.invalid_feed_uri Error.invalid_feed_uri))
      else open_at req_id open_req v

  unfoldable pub open_feed : FeedReq → Vault → Vault × Result Msg
  unfolding open_checked
  open_feed req v = open_checked req.req_id req.open_feed v

  close_stream : Option Stream → Connection → Connection
  unfolding done
  close_stream none conn = conn
  close_stream (some s) conn = done s conn

  unfoldable pub close : FeedReq → Vault → Vault × Result Msg
  unfolding close_stream
  close req v = (
    record v { conn = close_stream (lookup req.req_id v.conn.streams) v.conn },
    ok (record empty_msg { op = MsgOp.req_discarded; req_id = req.req_id }),
  )

  -- The switch of VaultSession.
  dispatch : ReqOp → ℕ → FeedReq → Vault → Vault × Result Msg
  unfolding new append open_feed close unsupported
  dispatch ReqOp.channel_genesis unix req v = new unix req v
  dispatch ReqOp.open_feed unix req v = open_feed req v
  dispatch ReqOp.cancel_req unix req v = close req v
  dispatch ReqOp.append_entry unix req v = append_in unix req v
  dispatch _ unix req v = (v, ok (unsupported req))

  unfoldable pub handle : ℕ → FeedReq → Vault → Vault × Result Msg
  unfolding dispatch
  handle unix req v = dispatch req.req_op unix req v

  -- How a session stands: it waits for more, or it has returned.
  pub data Status : Type 0 where
    open' : Status
    returned : Result (Unit {0}) → Status

  -- What a session leaves: the vault, the messages that it sent, and its status.
  pub record Outcome : Type 0 where
    pub vault : Vault
    pub sent : List Msg
    pub status : Status

  -- A send that fails is logged, and the session goes on.
  replied : Vault → Result Msg → (Vault → Outcome) → Outcome
  replied v (ok m) rest = let o = rest v in record o { sent = m ∷ o.sent }
  replied v (err e) rest = record { vault = v; sent = []; status = returned (err e) }
  replied v panics rest = record { vault = v; sent = []; status = returned panics }

  unfoldable pub session : List Received → Vault → Outcome
  unfolding replied handle
  session [] v = record { vault = v; sent = []; status = open' }
  session (ctx_done ∷ rs) v = record { vault = v; sent = []; status = returned (ok tt) }
  session (end_of_stream ∷ rs) v = record { vault = v; sent = []; status = returned (ok tt) }
  session (failed e ∷ rs) v = record { vault = v; sent = []; status = returned (err e) }
  session (request unix req ∷ rs) v =
      let (v', reply) = handle unix req v in replied v' reply (session rs)
