-- ===== src/Server/Session/Replies.antt =====
-- What the server answers.
use plan_vault_libp2p.Prelude.{
  ℕ, ◌≡◌, ◌≢◌, refl, ap₂, ◌⊎◌, inl, inr, List, [], ◌∷◌, ◌++◌, map, Option, none, some, Bytes,
  bytes_of, Bytes_eq, ℕ_eq, ◌==◌, Error, Result, ok, err, panics, lookup, Bool-cases, Option-cases,
}
use plan_vault_libp2p.Protos.{
  Msg, OpenFeedReq, ReqOp, FeedReq, get_entry_header, get_feed_uri, get_body,
}
use plan_vault_libp2p.Interfaces.{Badger, Proto, Hash}
use plan_vault_libp2p.Store.Channel.{Channel, Target, target_id}
use plan_vault_libp2p.Store.Options.{StreamOpts}
use plan_vault_libp2p.Store.Channels.{Store, Subscribed, subscribe}
use plan_vault_libp2p.Server.Session.{
  Vault, Received, request, Outcome, open', returned, session, handle, append, append_to,
  append_reply, bad_body, error_response, dispatch, open_feed, close, unsupported, new, replied,
  subscribed, open_at, open_checked,
}

module _ (B : Badger) (P : Proto) (H : Hash) where
  -- The requests of a session.
  abbrev pub requests : List (ℕ × FeedReq) → List Received
  requests = map λ (p : ℕ × FeedReq). request p.0 p.1

  -- A reply carries the id of its request.
  abbrev Answers : ℕ → Result Msg → Type 0
  Answers n (ok m) = m.req_id ≡ n
  Answers n (err e) = ⊥
  Answers n panics = Unit

  append_reply-Answers : (n : ℕ) (r : Result Bytes) → Answers n (append_reply B P H n r)
  unfolding append_reply error_response
  append_reply-Answers n (ok key) = refl
  append_reply-Answers n (err e) = refl
  append_reply-Answers n panics = tt

  append-Answers :
      (unix : ℕ) (req : FeedReq) (s : Store B) → Answers req.req_id (append B P H unix req s).1
  unfolding append error_response append_to
  append-Answers unix req s =
      elim (Bool-cases (get_feed_uri (get_entry_header req.new_entry) == [])) [
        | inl e ↦ rw e refl
        | inr e ↦ rw e (elim (Bool-cases (bad_body B P H (bytes_of (get_body req.new_entry)))) [
          | inl f ↦ rw f refl
          | inr f ↦ rw f (append_reply-Answers req.req_id _)
        ])
      ]

  -- Subscribe returns no error.
  not-err-subscribe :
      (c : Channel) (ctx : ℕ) (t : Target) (opts : Option StreamOpts) (e : Error)
      → subscribe c ctx t opts ≢ err e
  unfolding subscribe
  not-err-subscribe c ctx t none e h = elim (Option-cases (lookup (target_id t) c.subscribers)) [
    | inl new_one ↦ cc (rw (new_one, subscribe) at h)
    | inr (old, known) ↦ cc (rw (known, subscribe) at h)
  ]
  not-err-subscribe c ctx t (some opts) e h =
      elim (Option-cases (lookup (target_id t) c.subscribers)) [
        | inl new_one ↦ cc (rw (new_one, subscribe) at h)
        | inr (old, known) ↦ cc (rw (known, subscribe) at h)
      ]

  subscribed-Answers :
      (n : ℕ) (id : Bytes) (v : Vault B P H) (r : Result (Channel × Subscribed))
      → ((e : Error) → r ≢ err e)
      → Answers n (subscribed B P H n id v r).1
  unfolding subscribed
  subscribed-Answers n id v (ok (c, what)) h = refl
  subscribed-Answers n id v (err e) h = h e refl
  subscribed-Answers n id v panics h = tt

  open_checked-Answers :
      (n : ℕ) (o : Option OpenFeedReq) (v : Vault B P H) → Answers n (open_checked B P H n o v).1
  unfolding open_checked error_response open_at
  open_checked-Answers n none v = refl
  open_checked-Answers n (some q) v = elim (Bool-cases (q.feed_uri == [])) [
    | inl e ↦ rw e refl
    | inr e ↦ rw e (subscribed-Answers n _ _ _ (not-err-subscribe _ _ _ _))
  ]

  dispatch-Answers :
      (op : ReqOp) (unix : ℕ) (req : FeedReq) (v : Vault B P H)
      → Answers req.req_id (dispatch B P H op unix req v).1
  unfolding dispatch new open_feed close unsupported error_response
  dispatch-Answers ReqOp.channel_genesis unix req v = append-Answers unix req v.store
  dispatch-Answers ReqOp.open_feed unix req v = open_checked-Answers req.req_id req.open_feed v
  dispatch-Answers ReqOp.cancel_req unix req v = refl
  dispatch-Answers ReqOp.append_entry unix req v = append-Answers unix req v.store
  dispatch-Answers _ unix req v = refl

  -- How a session stands that got requests only: it waits for more and has answered all, or a
  -- handler panicked and the ids of what it sent are those of the first requests.
  abbrev pub AllAnswered : List (ℕ × FeedReq) → Outcome B P H → Type 0
  AllAnswered rs o =
      ((o.status ≡ open')
        × (map (λ (m : Msg). m.req_id) o.sent ≡ map (λ (p : ℕ × FeedReq). p.1.req_id) rs))
      ⊎ ((rest : List ℕ) × (o.status ≡ returned panics)
          × (map (λ (m : Msg). m.req_id) o.sent ++ rest ≡ map (λ (p : ℕ × FeedReq). p.1.req_id) rs))

  replied-AllAnswered :
      (unix : ℕ) (req : FeedReq) (rs : List (ℕ × FeedReq)) (v : Vault B P H) (r : Result Msg)
      → Answers req.req_id r
      → AllAnswered rs (session B P H (requests rs) v)
      → AllAnswered ((unix, req) ∷ rs) (replied B P H v r (session B P H (requests rs)))
  unfolding replied
  replied-AllAnswered unix req rs v (ok m) a (inl (st, ids)) = inl (st, ap₂ ◌∷◌ a ids)
  replied-AllAnswered unix req rs v (ok m) a (inr (rest, st, ids)) = inr (rest, st, ap₂ ◌∷◌ a ids)
  replied-AllAnswered unix req rs v (err e) a h = absurd a
  replied-AllAnswered unix req rs v panics a h = inr (_, refl, refl)

  -- A session answers every request, an OpenFeed that succeeds included, with exactly one message,
  -- which carries the request's id, in the order of the requests, as long as no handler panics; and
  -- a request never ends it otherwise.
  pub session_answers :
      (rs : List (ℕ × FeedReq)) (v : Vault B P H) → AllAnswered rs (session B P H (requests rs) v)
  unfolding session handle
  session_answers [] v = inl (refl, refl)
  session_answers ((unix, req) ∷ rs) v =
      let (v', reply) = handle B P H unix req v in
      replied-AllAnswered unix req rs v' reply (dispatch-Answers req.req_op unix req v)
        (session_answers rs v')
