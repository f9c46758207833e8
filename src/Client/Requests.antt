-- ===== src/Client/Requests.antt =====
-- The request ids of a client, and its calls together with the server that serves them.
use plan_vault_libp2p.Prelude.{
  ℕ, ◌+◌, ◌-◌, ◌%◌, ◌^◌, ◌<◌, ◌≡◌, ◌≢◌, refl, ◌∙◌, List, [], ◌∷◌, none, some, Bytes, Bytes_eq, ℕ_eq,
  ok, lookup, arith,
}
use plan_vault_libp2p.Prelude.Maps.{lookup-insert_self, lookup-insert_other}
use plan_vault_libp2p.Protos.{FeedReq, ReqOp}
use plan_vault_libp2p.Client.{Client, count, send, open_uri, close_uri}

-- The calls of a program on its client.
pub data Call : Type 0 where
  sends : FeedReq → Call
  opens closes : Bytes → Call

abbrev pub after : List Call → Client → Client
after [] c = c
after (sends req ∷ cs) c = after cs (send req c).0
after (opens uri ∷ cs) c = after cs (open_uri uri c).0
after (closes uri ∷ cs) c = after cs c

-- The calls that take a new id.
abbrev pub counted : List Call → ℕ
counted [] = 0
counted (closes uri ∷ cs) = counted cs
counted (_ ∷ cs) = 1 + counted cs

counter-after :
    (cs : List Call) (c : Client)
    → c.counter < 2 ^ 32
    → (after cs c).counter ≡ (c.counter + counted cs) % 2 ^ 32
unfolding send open_uri count
counter-after [] c h = omega arith
counter-after (sends req ∷ cs) c h =
    let rest : (after cs (send req c).0).counter
        ≡ ((c.counter + 1) % 2 ^ 32 + counted cs) % 2 ^ 32 =
      counter-after cs (send req c).0 (omega arith) in
    omega (arith, rest)
counter-after (opens uri ∷ cs) c h =
    let rest : (after cs (open_uri uri c).0).counter
        ≡ ((c.counter + 1) % 2 ^ 32 + counted cs) % 2 ^ 32 =
      counter-after cs (open_uri uri c).0 (omega arith) in
    omega (arith, rest)
counter-after (closes uri ∷ cs) c h = counter-after cs c h

-- Two requests of a client whose counter is an int32 have different ids, as long as fewer than
-- 2 ^ 32 - 1 others take an id between them, although the counter wraps.
send-ne :
    (c : Client) (q r : FeedReq) (cs : List Call)
    → c.counter < 2 ^ 32
    → counted cs < 2 ^ 32 - 1
    → (send q c).1.req_id ≢ (send r (after cs (send q c).0)).1.req_id
unfolding send count
send-ne c q r cs small few e =
    let at_end : (after cs (send q c).0).counter
        ≡ ((c.counter + 1) % 2 ^ 32 + counted cs) % 2 ^ 32 =
      counter-after cs (send q c).0 (omega arith) in
    omega (arith, at_end, e, small, few)

-- No call of the list opens the URI.
abbrev Leaves : Bytes → List Call → Type 0
Leaves uri [] = Unit
Leaves uri (opens u ∷ cs) = (u ≢ uri) × Leaves uri cs
Leaves uri (_ ∷ cs) = Leaves uri cs

mapping-after :
    (uri : Bytes) (cs : List Call) (c : Client)
    → Leaves uri cs
    → lookup uri (after cs c).req_mapping ≡ lookup uri c.req_mapping
unfolding send open_uri count
mapping-after uri [] c h = refl
mapping-after uri (sends req ∷ cs) c h = mapping-after uri cs (send req c).0 h
mapping-after uri (opens u ∷ cs) c h =
    mapping-after uri cs (open_uri u c).0 h.1
    ∙ lookup-insert_other u uri ((c.counter + 1) % 2 ^ 32) c.req_mapping h.0
mapping-after uri (closes u ∷ cs) c h = mapping-after uri cs c h

close_uri-found :
    (uri : Bytes) (c : Client) (n : ℕ)
    → lookup uri c.req_mapping ≡ some n
    → close_uri uri c
      ≡ ok (record { req_op = ReqOp.cancel_req; req_id = n; open_feed = none; new_entry = none })
unfolding close_uri
close_uri-found uri c n e = rw (e, close_uri) refl

-- After a URI was opened, and calls that do not open it again, closing it sends the cancellation of
-- exactly the request that opened it.
pub close_uri-open_uri :
    (uri : Bytes) (c : Client) (cs : List Call)
    → Leaves uri cs
    → close_uri uri (after cs (open_uri uri c).0)
      ≡ ok (record {
        req_op = ReqOp.cancel_req;
        req_id = (open_uri uri c).1.req_id;
        open_feed = none;
        new_entry = none;
      })
unfolding open_uri count
close_uri-open_uri uri c cs h =
    close_uri-found uri (after cs (open_uri uri c).0) ((c.counter + 1) % 2 ^ 32) (
      mapping-after uri cs (open_uri uri c).0 h
      ∙ lookup-insert_self uri ((c.counter + 1) % 2 ^ 32) c.req_mapping)
