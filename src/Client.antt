-- ===== src/Client.antt =====
-- The client of client/client.go. Its counter is an int32, kept as its 32-bit pattern. The calls
-- that send return the request that they hand to the session, whose result is theirs; what the
-- session gives to Recv, and what dialing and opening the session give to New, are arguments.
pub mod Requests
use plan_vault_libp2p.Prelude.{
  ℕ, ◌+◌, ◌%◌, ◌^◌, List, [], ◌∷◌, Option, none, some, Bool, true, false, Bytes, Bytes_eq, Dict,
  Error, Result, ok, err, panics, lookup, insert, ◌>>◌,
}
use plan_vault_libp2p.Prelude.Errors.{eof, stream_closed, not_open}
use plan_vault_libp2p.Protos.{Msg, FeedReq, OpenFeedReq, ReqOp, StreamMode}

pub record Client : Type 0 where
  pub cancelled : Bool
  pub sends_closed : Bool
  pub req_mapping : Dict Bytes ℕ
  pub counter : ℕ

-- A client without a session is not returned, and what was dialed for it is closed.
unfoldable pub new : Result (Unit {0}) → Result (Unit {0}) → Result Client
new dialed opened = do
  dialed
  opened
  ok (record { cancelled = false; sends_closed = false; req_mapping = []; counter = 0 })

unfoldable pub close : Client → Client
close c = record c { cancelled = true; sends_closed = true }

-- -1 as an int32.
abbrev no_limit : ℕ
no_limit = 4294967295

unfoldable pub count : Client → Client
count c = record c { counter = (c.counter + 1) % 2 ^ 32 }

unfoldable pub send : FeedReq → Client → Client × FeedReq
unfolding count
send req c = let c' = count c in (c', record req { req_id = c'.counter })

unfoldable pub open_uri : Bytes → Client → Client × FeedReq
unfolding count
open_uri uri c =
    let c' = count c in
    (
      record c' { req_mapping = insert uri c'.counter c'.req_mapping },
      record {
        req_op = ReqOp.open_feed;
        req_id = c'.counter;
        open_feed = some (record {
          feed_uri = uri;
          stream_mode = StreamMode.after_head;
          seek_entry_id = none;
          max_entries_to_send = no_limit;
          send_entry_ids_only = false;
        });
        new_entry = none;
      },
    )

unfoldable pub close_uri : Bytes → Client → Result FeedReq
close_uri uri c = elim (lookup uri c.req_mapping) [
  | none ↦ err not_open
  | some req_id ↦
      ok (record { req_op = ReqOp.cancel_req; req_id = req_id; open_feed = none; new_entry = none })
]

-- The end of the stream cancels the client's context.
unfoldable recv : Result Msg → Client → Client × Result Msg
recv (ok m) c = (c, ok m)
recv (err eof) c = (record c { cancelled = true }, err stream_closed)
recv (err e) c = (c, err e)
recv panics c = (c, panics)
