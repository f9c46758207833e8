-- ===== src/Server/Session/Streams.antt =====
-- The streams of a connection: what opening and closing one do to it.
use plan_vault_libp2p.Prelude.{
  ℕ, suc, ◌<◌, ◌≡◌, ◌≢◌, refl, sym, ap, subst, ◌∙◌, inl, inr, List, [], ◌∷◌, ◌++◌, Option, none,
  some, ℕ_eq, Bytes, Bytes_eq, ◌==◌, Result, ok, err, panics, lookup, insert, delete, arith,
  Bool-cases, Option-cases, eq_of_some,
}
use plan_vault_libp2p.Prelude.Maps.{
  lookup-insert, lookup-delete_self, lookup-delete_other, lookup-delete_back,
}
use plan_vault_libp2p.Protos.{Msg, MsgOp, ReqOp, FeedReq, OpenFeedReq, empty_msg}
use plan_vault_libp2p.Interfaces.{Badger, Proto, Hash}
use plan_vault_libp2p.Store.Channel.{Channel}
use plan_vault_libp2p.Store.Channels.{Subscribed}
use plan_vault_libp2p.Server.Session.{
  Stream, Connection, Vault, Received, request, Outcome, ctx_done, end_of_stream, failed, session,
  handle, dispatch, done, close, close_stream, open_feed, open_at, open_checked, subscribed,
  replied, new, new_connection,
}

-- A stream stands under its own id, and its context is one that was made.
pub record IsConnection (conn : Connection) : Type 0 where
  pub numbered :
      (n : ℕ) (s : Stream) → lookup n conn.streams ≡ some s → (s.id ≡ n) × (s.ctx < conn.next_ctx)

pub new_connection-IsConnection : (uuid : Bytes) → IsConnection (new_connection uuid)
unfolding new_connection lookup
new_connection-IsConnection uuid = record { numbered = λ n s h. cc }

-- What closing request `n` makes of a connection.
pub record Closes (n : ℕ) (a b : Connection) : Type 0 where
  pub gone : lookup n b.streams ≡ none
  pub others : (j : ℕ) → n ≢ j → lookup j b.streams ≡ lookup j a.streams
  pub cancels : (s : Stream) → lookup n a.streams ≡ some s → b.cancelled ≡ a.cancelled ++ s.ctx ∷ []
  pub silent : lookup n a.streams ≡ none → b ≡ a

close_stream-Closes :
    (B : Badger) (P : Proto) (H : Hash) (n : ℕ) (conn : Connection)
    → IsConnection conn
    → Closes n conn (close_stream B P H (lookup n conn.streams) conn)
unfolding close_stream done
close_stream-Closes B P H n conn w = elim (Option-cases (lookup n conn.streams)) [
  | inl e ↦
      subst (λ (o : Option Stream). Closes n conn (close_stream B P H o conn)) (sym e)
        (record {
          gone = e;
          others = λ j _. refl;
          cancels = λ s e'. absurd (cc (e, e'));
          silent = λ _. refl;
        })
  | inr (s, e) ↦
      subst (λ (o : Option Stream). Closes n conn (close_stream B P H o conn)) (sym e)
        (record {
          gone =
              subst (λ (i : ℕ). lookup n (delete i conn.streams) ≡ none) (sym (w.numbered n s e).0)
                (lookup-delete_self n conn.streams);
          others = λ j apart.
              lookup-delete_other s.id j conn.streams
                (subst (λ (i : ℕ). i ≢ j) (sym (w.numbered n s e).0) apart);
          cancels =
              λ s' e'. ap (λ (u : Stream). conn.cancelled ++ u.ctx ∷ []) (eq_of_some (sym e ∙ e'));
          silent = λ e'. absurd (cc (e, e'));
        })
]

module _ (B : Badger) (P : Proto) (H : Hash) where
  close_eq :
      (req : FeedReq) (v : Vault B P H)
      → lookup req.req_id v.conn.streams ≡ none
      → close B P H req v
        ≡ (v, ok (record empty_msg { op = MsgOp.req_discarded; req_id = req.req_id }))
  unfolding close close_stream
  close_eq req v e = rw e refl

  -- On a connection whose streams stand under their own ids, closing a request takes its stream out
  -- of the connection and leaves every other stream; the
  -- context of the stream is cancelled, if there was one, and the connection stays as it is, if
  -- not. The store and the subscriptions are left alone, the reply is ReqDiscarded with the
  -- request's id, and closing again changes nothing and gives the same reply.
  pub close-Closes :
      (req : FeedReq) (v : Vault B P H)
      → IsConnection v.conn
      → Closes req.req_id v.conn (close B P H req v).0.conn
        × ((close B P H req v).0.store ≡ v.store)
        × ((close B P H req v).0.subscriptions ≡ v.subscriptions)
        × ((close B P H req v).1
            ≡ ok (record empty_msg { op = MsgOp.req_discarded; req_id = req.req_id }))
        × (close B P H req (close B P H req v).0 ≡ close B P H req v)
  unfolding close
  close-Closes req v w =
      let closes = close_stream-Closes B P H req.req_id v.conn w in
      (closes, refl, refl, refl, close_eq req (close B P H req v).0 closes.gone)

  close_stream-IsConnection :
      (o : Option Stream) (conn : Connection)
      → IsConnection conn
      → IsConnection (close_stream B P H o conn)
  unfolding close_stream done
  close_stream-IsConnection none conn w = w
  close_stream-IsConnection (some s) conn w = record {
    numbered = λ j u h. w.numbered j u (lookup-delete_back s.id j conn.streams h);
  }

  -- Opening request `n` with the next context.
  open_conn-IsConnection :
      (n : ℕ) (conn : Connection)
      → IsConnection conn
      → IsConnection (record conn {
        streams = insert n (record { id = n; ctx = conn.next_ctx }) conn.streams;
        next_ctx = suc conn.next_ctx;
      })
  open_conn-IsConnection n conn w = record {
    numbered = λ j s h. elim (Bool-cases (n == j)) [
      | inl same ↦
          let found : ◌≡◌ {A = Option Stream} (some (record { id = n; ctx = conn.next_ctx }))
              (some s) =
            rw (lookup-insert n j (record { id = n; ctx = conn.next_ctx }) conn.streams, same) at
              h in
          let e = eq_of_some found in
          (
            sym (ap (λ (u : Stream). u.id) e) ∙ (ℕ_eq.beq_iff n j).0 same,
            subst (λ (u : Stream). u.ctx < suc conn.next_ctx) e (omega arith),
          )
      | inr apart ↦
          let old = w.numbered j s (
            rw (lookup-insert n j (record { id = n; ctx = conn.next_ctx }) conn.streams, apart) at
              h) in
          (old.0, let lt = old.1 in omega arith)
    ];
  }

  subscribed-conn :
      (n : ℕ) (id : Bytes) (v : Vault B P H) (r : Result (Channel × Subscribed))
      → (subscribed B P H n id v r).0.conn ≡ v.conn
  unfolding subscribed
  subscribed-conn n id v (ok (c, what)) = refl
  subscribed-conn n id v (err e) = refl
  subscribed-conn n id v panics = refl

  open_checked-IsConnection :
      (n : ℕ) (o : Option OpenFeedReq) (v : Vault B P H)
      → IsConnection v.conn
      → IsConnection (open_checked B P H n o v).0.conn
  unfolding open_checked open_at
  open_checked-IsConnection n none v w = w
  open_checked-IsConnection n (some q) v w = elim (Bool-cases (q.feed_uri == [])) [
    | inl e ↦ rw e w
    | inr e ↦
        rw e
          (subst IsConnection (sym (subscribed-conn n _ _ _)) (open_conn-IsConnection n v.conn w))
  ]

  dispatch-IsConnection :
      (op : ReqOp) (unix : ℕ) (req : FeedReq) (v : Vault B P H)
      → IsConnection v.conn
      → IsConnection (dispatch B P H op unix req v).0.conn
  unfolding dispatch new open_feed close
  dispatch-IsConnection ReqOp.channel_genesis unix req v w = w
  dispatch-IsConnection ReqOp.open_feed unix req v w =
      open_checked-IsConnection req.req_id req.open_feed v w
  dispatch-IsConnection ReqOp.cancel_req unix req v w =
      close_stream-IsConnection (lookup req.req_id v.conn.streams) v.conn w
  dispatch-IsConnection ReqOp.append_entry unix req v w = w
  dispatch-IsConnection _ unix req v w = w

  replied-conn :
      (v : Vault B P H) (r : Result Msg) (rest : Vault B P H → Outcome B P H)
      → IsConnection v.conn
      → IsConnection (rest v).vault.conn
      → IsConnection (replied B P H v r rest).vault.conn
  unfolding replied
  replied-conn v (ok m) rest w h = h
  replied-conn v (err e) rest w h = w
  replied-conn v panics rest w h = w

  -- Whatever a session receives, each stream of its connection stands under its own request id and
  -- has a context that was made for this connection, if that was so before.
  pub session-IsConnection :
      (rs : List Received) (v : Vault B P H)
      → IsConnection v.conn
      → IsConnection (session B P H rs v).vault.conn
  unfolding session handle
  session-IsConnection [] v w = w
  session-IsConnection (ctx_done ∷ rs) v w = w
  session-IsConnection (end_of_stream ∷ rs) v w = w
  session-IsConnection (failed e ∷ rs) v w = w
  session-IsConnection (request unix req ∷ rs) v w =
      let (v', reply) = handle B P H unix req v in
      let kept = dispatch-IsConnection req.req_op unix req v w in
      replied-conn v' reply (session B P H rs) kept (session-IsConnection rs v' kept)
