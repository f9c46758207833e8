-- ===== src/Tests/Server.antt =====
-- A session on the database in memory.
use plan_vault_libp2p.Prelude.{
  Result, Bytes, ◌≡◌, ◌⊎◌, refl, [], ◌∷◌, ◌^◌, ◌-◌, List, some, none, Bytes_eq, ok, false, lookup,
}
use plan_vault_libp2p.Protos.{Msg, MsgOp, ReqOp, FeedReq, OpenFeedReq, StreamMode, empty_msg}
use plan_vault_libp2p.Store.Options.{StreamOpts}
use plan_vault_libp2p.Store.Channel.{new_channel}
use plan_vault_libp2p.Store.Channels.{Store, channel}
use plan_vault_libp2p.Store.Channels.Registry.{IsRegistry}
use plan_vault_libp2p.Store.Keys.{entry_key, arrival_key}
use plan_vault_libp2p.Store.Entries
use plan_vault_libp2p.Server.Serving
use plan_vault_libp2p.Config.{GrpcSection}
use plan_vault_libp2p.Server.Options.{new_stream_opts}
use plan_vault_libp2p.Server.Modes.{Fits, new_stream_opts_lem}
use plan_vault_libp2p.Server.Session.{
  Vault, Received, request, end_of_stream, append, session, close, open_feed, new_connection,
}
use plan_vault_libp2p.Server.Session.Commits.{channel_of, Committed, append-Committed}
use plan_vault_libp2p.Server.Session.Opening.{Opens, open_feed-Opens}
use plan_vault_libp2p.Server.Session.Replies.{AllAnswered, requests, session_answers}
use plan_vault_libp2p.Server.Session.Streams.{
  IsConnection, Closes, close-Closes, session-IsConnection, new_connection-IsConnection,
}
use plan_vault_libp2p.Memory.Database.{memory}
use plan_vault_libp2p.Memory.Encoding.{encoding, cut_hash}
use plan_vault_libp2p.Tests.{empty_db, id_1, entry_1}

abbrev empty_store : Store memory
empty_store = record {
  db = empty_db;
  has_update_ch = false;
  channels = [];
  announced = [];
  watched = [];
}

empty_store-IsRegistry : IsRegistry memory empty_store
unfolding lookup
empty_store-IsRegistry = record { made = λ id c h. cc }

abbrev pub append_1 : FeedReq
append_1 = record {
  req_op = ReqOp.append_entry;
  req_id = 1;
  open_feed = none;
  new_entry = some entry_1;
}

abbrev genesis : OpenFeedReq
genesis = record {
  feed_uri = 1 ∷ [];
  stream_mode = StreamMode.from_genesis;
  seek_entry_id = none;
  max_entries_to_send = 2 ^ 32 - 1;
  send_entry_ids_only = false;
}

abbrev open_2 : FeedReq
open_2 = record { req_op = ReqOp.open_feed; req_id = 2; open_feed = some genesis; new_entry = none }

abbrev close_2 : FeedReq
close_2 = record { req_op = ReqOp.cancel_req; req_id = 2; open_feed = none; new_entry = none }

abbrev vault_0 : Vault memory encoding cut_hash
vault_0 = record { store = empty_store; conn = new_connection (9 ∷ []); subscriptions = [] }

abbrev vault_1 : Vault memory encoding cut_hash
vault_1 = record vault_0 { store = (append memory encoding cut_hash 1000 append_1 empty_store).0 }

abbrev vault_2 : Vault memory encoding cut_hash
vault_2 = (session memory encoding cut_hash (request 1001 open_2 ∷ []) vault_1).vault

abbrev reply_1 : Msg
reply_1 = record empty_msg {
  op = MsgOp.req_complete;
  req_id = 1;
  entry_header = some (record {
    entry_id =
        some (arrival_key (channel_of memory encoding cut_hash entry_1 empty_store) 1000 id_1);
    member_id = none;
    parent_id = none;
    entry_codec = [];
    feed_uri = [];
  });
}

appended : append memory encoding cut_hash 1000 append_1 empty_store ≡ (vault_1.store, ok reply_1)
unfolding append channel Entries.append memory encoding cut_hash arrival_key entry_key new_channel
appended = refl

abbrev rest_of_session : List Received
rest_of_session =
    request 1001 open_2 ∷ request 1002 append_1 ∷ request 1003 close_2 ∷ end_of_stream ∷ []

append-Committed_example :
    Committed memory encoding cut_hash 1000 entry_1 id_1 empty_store vault_1.store reply_1
append-Committed_example =
    append-Committed memory encoding cut_hash 1000 append_1 entry_1 id_1 empty_store vault_1.store
      reply_1 empty_store-IsRegistry refl refl appended refl

session_answers_example :
    AllAnswered memory encoding cut_hash
      ((1000, append_1) ∷ (1001, open_2) ∷ (1002, close_2) ∷ [])
      (session memory encoding cut_hash
        (requests memory encoding cut_hash
          ((1000, append_1) ∷ (1001, open_2) ∷ (1002, close_2) ∷ []))
        vault_0)
session_answers_example =
    session_answers memory encoding cut_hash
      ((1000, append_1) ∷ (1001, open_2) ∷ (1002, close_2) ∷ []) vault_0

new_stream_opts_lem_example :
    ((StreamMode.from_genesis ≡ StreamMode.dont_stream) × (new_stream_opts genesis ≡ none))
    ⊎ ((opts : StreamOpts) × (new_stream_opts genesis ≡ some opts) × Fits genesis opts)
new_stream_opts_lem_example = new_stream_opts_lem genesis

vault_1-IsRegistry : IsRegistry memory vault_1.store
vault_1-IsRegistry =
    (append-Committed memory encoding cut_hash 1000 append_1 entry_1 id_1 empty_store vault_1.store
      reply_1 empty_store-IsRegistry refl refl appended refl).registry

open_feed-Opens_example :
    Opens memory encoding cut_hash 2 genesis vault_1
      (open_feed memory encoding cut_hash open_2 vault_1).0
      (open_feed memory encoding cut_hash open_2 vault_1).1
open_feed-Opens_example =
    open_feed-Opens memory encoding cut_hash open_2 genesis vault_1 vault_1-IsRegistry refl
      (λ h. cc)

vault_2-IsConnection : IsConnection vault_2.conn
vault_2-IsConnection =
    session-IsConnection memory encoding cut_hash (request 1001 open_2 ∷ []) vault_1
      (new_connection-IsConnection (9 ∷ []))

close-Closes_example :
    Closes 2 vault_2.conn (close memory encoding cut_hash close_2 vault_2).0.conn
    × ((close memory encoding cut_hash close_2 vault_2).0.store ≡ vault_2.store)
    × ((close memory encoding cut_hash close_2 vault_2).0.subscriptions ≡ vault_2.subscriptions)
    × ((close memory encoding cut_hash close_2 vault_2).1
        ≡ ok (record empty_msg { op = MsgOp.req_discarded; req_id = 2 }))
    × (close memory encoding cut_hash close_2 (close memory encoding cut_hash close_2 vault_2).0
        ≡ close memory encoding cut_hash close_2 vault_2)
close-Closes_example = close-Closes memory encoding cut_hash close_2 vault_2 vault_2-IsConnection

session-IsConnection_example :
    IsConnection (session memory encoding cut_hash rest_of_session vault_0).vault.conn
session-IsConnection_example =
    session-IsConnection memory encoding cut_hash rest_of_session vault_0
      (new_connection-IsConnection (9 ∷ []))

-- A certificate without a key: nothing is read, and the connections are in the clear.
abbrev cert_only : GrpcSection
cert_only = record {
  bind_addr = [];
  port = 9090;
  insecure = false;
  tls_cert = 47 ∷ [];
  tls_key = [];
}

abbrev reads_pair : Bytes → Bytes → Result (Bytes × Bytes)
reads_pair cert key = ok (cert, key)

serves_in_the_clear : Serving.serve reads_pair (ok tt) cert_only ≡ ok none
unfolding Serving.serve
serves_in_the_clear = refl

serves_with_tls :
    Serving.serve reads_pair (ok tt) (record cert_only { tls_key = 46 ∷ [] })
    ≡ ok (some (47 ∷ [], 46 ∷ []))
unfolding Serving.serve
serves_with_tls = refl
