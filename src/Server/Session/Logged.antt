-- ===== src/Server/Session/Logged.antt =====
-- The requests of a client and the log: what the handlers of server/server.go make of the entries
-- of a store, and what they reply.
use plan_vault_libp2p.Prelude.{
  ℕ, ◌≡◌, refl, sym, ap, subst, ◌∙◌, inl, inr, List, [], Option, none, some, Bytes, Bytes_eq,
  bytes_of, not, ◌&&◌, true, false, Bool, ok-injective, arith, ◌==◌, Error, Result, ok, err, panics,
  Bool-cases,
}
use plan_vault_libp2p.Protos.{
  Msg, ReqOp, FeedReq, OpenFeedReq, ErrCode, get_entry_header, get_feed_uri, get_body,
}
use plan_vault_libp2p.Interfaces.{Badger, Proto, Hash}
use plan_vault_libp2p.Store.Channel.{Channel, new_channel}
use plan_vault_libp2p.Store.Channels.{Store, Subscribed, channel, put_channel}
use plan_vault_libp2p.Store.Channels.Registry.{IsRegistry, channel-Gives}
use plan_vault_libp2p.Store.Entries.Made.{append_made}
use plan_vault_libp2p.Store.Entries
use plan_vault_libp2p.Store.Entries.{deref}
use plan_vault_libp2p.Log.{Request, Posted, Label, quiet, answered, read, stays}
use plan_vault_libp2p.Log.Writers.{Flying, append_of}
use plan_vault_libp2p.Log.Refinement.{Represents, Follows, append-Follows}
use plan_vault_libp2p.Server.Session.{
  Vault, append, append_to, append_reply, bad_body, error_response, dispatch, new, open_feed,
  open_checked, open_at, subscribed, close, unsupported, handle, working_reply,
}
use plan_vault_libp2p.Server.Session.Growth.{handle-Grows}

-- The operations that write an entry.
unfoldable pub writes : ReqOp → Bool
writes ReqOp.append_entry = true
writes ReqOp.channel_genesis = true
writes _ = false

module _ (B : Badger) (P : Proto) (H : Hash) where
  abbrev pub entry_uri : FeedReq → Bytes
  entry_uri req = get_feed_uri (get_entry_header req.new_entry)

  -- What a request must have for its entry to reach the store.
  abbrev fit_entry : FeedReq → Bool
  fit_entry req =
      not (entry_uri req == []) && not (bad_body B P H (bytes_of (get_body req.new_entry)))

  -- The post that a request asks for.
  abbrev pub asked : ℕ → FeedReq → Request
  asked unix req = record { uri = entry_uri req; unix = unix; entry = deref req.new_entry }

  -- How a request and its reply go with what is seen of the log: the reply of a request that writes
  -- a fit entry is made from the log's, and a reply to any other carries no entry header.
  abbrev pub Shows : ℕ → FeedReq → Result Msg → Label → Type 0
  Shows unix req reply quiet =
      ((writes req.req_op && fit_entry req) ≡ false)
      × ((m : Msg) → reply ≡ ok m → m.entry_header ≡ none)
  Shows unix req reply (answered q r) =
      ((writes req.req_op && fit_entry req) ≡ true)
      × (q ≡ asked unix req)
      × (reply ≡ append_reply B P H req.req_id r)
  Shows unix req reply (read uri id r) = ⊥

  -- The log does one step, which the reply shows, and the store holds the log that it leads to.
  abbrev pub Serves : List Posted → ℕ → FeedReq → Store B → Result Msg → Type 0
  Serves log unix req t reply = (l : Label) × Shows unix req reply l × Follows B P H log l t.db

  -- The entries stay as they are, and the reply carries no entry header.
  abbrev Unseen : Store B → Store B → Result Msg → Type 0
  Unseen s t reply = (t.db ≡ s.db) × ((m : Msg) → reply ≡ ok m → m.entry_header ≡ none)

  no_header :
      (reply m n : Msg)
      → reply.entry_header ≡ none
      → ◌≡◌ {A = Result Msg} (ok reply) (ok m)
      → m.entry_header ≡ none
  no_header reply m n h e = ap (λ (k : Msg). k.entry_header) (sym (ok-injective e)) ∙ h

  error_response-Unseen :
      (s : Store B) (n : ℕ) (code : ErrCode) (e : Error) → Unseen s s (ok (error_response n code e))
  unfolding error_response
  error_response-Unseen s n code e = (refl, λ m h. no_header _ m m refl h)

  -- A request that is not passed on to the store.
  Unseen-Serves :
      (log : List Posted) (unix : ℕ) (req : FeedReq) (s t : Store B) (reply : Result Msg)
      → (writes req.req_op && fit_entry req) ≡ false
      → Represents B P H log s.db
      → Unseen s t reply
      → Serves log unix req t reply
  Unseen-Serves log unix req s t reply off rep (same, bare) =
      (quiet, (off, bare), (log, stays, subst (Represents B P H log) (sym same) rep))

  append_to-Serves :
      (log : List Posted) (unix : ℕ) (req : FeedReq) (m : Msg) (s : Store B)
      → req.new_entry ≡ some m
      → (writes req.req_op && fit_entry req) ≡ true
      → IsRegistry B s
      → Represents B P H log s.db
      → let q = append_to B P H unix req (entry_uri req) s in Serves log unix req q.0 q.1
  unfolding append_to
  append_to-Serves log unix req m s has on made rep =
      let id : Bytes = H.sum256 (entry_uri req) in
      let gives = channel-Gives B id s made in
      let t : Store B = (channel B id s).0 in
      let c : Channel = (channel B id s).1 in
      let p : B.Db × Result Bytes = Entries.append B P c unix req.new_entry t.db t.db in
      let f : Flying B P H = record { request = asked unix req; from = t.db } in
      let same : append_of B P H f t.db ≡ p =
        ap (λ (e : Option Msg). Entries.append B P (new_channel id) unix e t.db t.db)
          (ap (λ (o : Option Msg). some (deref o)) has ∙ sym has)
        ∙ sym (append_made B P id c unix req.new_entry t.db t.db gives.made) in
      (
        answered (asked unix req) p.1,
        (on, refl, refl),
        append-Follows B P H log t.db p.0 f p.1
            (subst (Represents B P H log) (sym gives.same_db) rep) same,
      )

  -- A fit entry is one.
  entry_there :
      (o : Option Msg)
      → (get_feed_uri (get_entry_header o) == []) ≡ false
      → (m : Msg) × (o ≡ some m)
  entry_there none h = absurd (ground arith)
  entry_there (some m) h = (m, refl)

  append-Serves :
      (log : List Posted) (unix : ℕ) (req : FeedReq) (s : Store B)
      → writes req.req_op ≡ true
      → IsRegistry B s
      → Represents B P H log s.db
      → let q = append B P H unix req s in Serves log unix req q.0 q.1
  unfolding append
  append-Serves log unix req s w made rep = elim (Bool-cases (entry_uri req == [])) [
    | inl e ↦
        rw e (Unseen-Serves log unix req s s _ (rw (w, e) refl) rep (error_response-Unseen s _ _ _))
    | inr e ↦ elim (Bool-cases (bad_body B P H (bytes_of (get_body req.new_entry)))) [
      | inl f ↦
          rw (e, f)
            (Unseen-Serves log unix req s s _ (rw (w, e, f) refl) rep
              (error_response-Unseen s _ _ _))
      | inr f ↦
          let (m, has) = entry_there req.new_entry e in
          rw (e, f) (append_to-Serves log unix req m s has (rw (w, e, f) refl) made rep)
    ]
  ]

  subscribed-Unseen :
      (n : ℕ) (id : Bytes) (v : Vault B P H) (r : Result (Channel × Subscribed))
      → let q = subscribed B P H n id v r in Unseen v.store q.0.store q.1
  unfolding subscribed put_channel
  subscribed-Unseen n id v (ok (c, what)) =
      (refl, λ m h. no_header (working_reply B P H n) m m refl h)
  subscribed-Unseen n id v (err e) = (refl, λ m h. cc)
  subscribed-Unseen n id v panics = (refl, λ m h. cc)

  open_checked-Unseen :
      (n : ℕ) (o : Option OpenFeedReq) (v : Vault B P H)
      → IsRegistry B v.store
      → let q = open_checked B P H n o v in Unseen v.store q.0.store q.1
  unfolding open_checked open_at
  open_checked-Unseen n none v made = error_response-Unseen v.store _ _ _
  open_checked-Unseen n (some q) v made = elim (Bool-cases (q.feed_uri == [])) [
    | inl e ↦ rw e (error_response-Unseen v.store _ _ _)
    | inr e ↦
        let (same, bare) = subscribed-Unseen n (H.sum256 q.feed_uri) _ _ in
        rw e (same ∙ (channel-Gives B (H.sum256 q.feed_uri) v.store made).same_db, bare)
  ]

  dispatch-Serves :
      (op : ReqOp) (log : List Posted) (unix : ℕ) (req : FeedReq) (v : Vault B P H)
      → req.req_op ≡ op
      → IsRegistry B v.store
      → Represents B P H log v.store.db
      → let q = dispatch B P H op unix req v in Serves log unix req q.0.store q.1
  unfolding dispatch new open_feed close unsupported writes
  dispatch-Serves ReqOp.channel_genesis log unix req v is made rep =
      append-Serves log unix req v.store (ap writes is) made rep
  dispatch-Serves ReqOp.append_entry log unix req v is made rep =
      append-Serves log unix req v.store (ap writes is) made rep
  dispatch-Serves ReqOp.open_feed log unix req v is made rep =
      Unseen-Serves log unix req v.store (open_checked B P H req.req_id req.open_feed v).0.store _
        (rw is refl) rep (open_checked-Unseen req.req_id req.open_feed v made)
  dispatch-Serves ReqOp.cancel_req log unix req v is made rep =
      Unseen-Serves log unix req v.store v.store _ (rw is refl) rep
        (refl, λ m h. no_header _ m m refl h)
  dispatch-Serves ReqOp.invalid_entry log unix req v is made rep =
      Unseen-Serves log unix req v.store v.store _ (rw is refl) rep
        (error_response-Unseen v.store _ _ _)
  dispatch-Serves (ReqOp.other n) log unix req v is made rep =
      Unseen-Serves log unix req v.store v.store _ (rw is refl) rep
        (error_response-Unseen v.store _ _ _)

  -- Whatever the request of a client is, on a store with a well-formed registry that holds a log,
  -- the log does one step. If the request writes an entry with a feed URI and a body of 1 to
  -- maxBodySize bytes, that step is the post of this entry or its refusal, and the reply is made
  -- from the log's; for any other request the log stays, and the reply carries no entry header. The
  -- store then holds the log that the step leads to, and its registry is still well-formed.
  pub handle-Serves :
      (log : List Posted) (unix : ℕ) (req : FeedReq) (v : Vault B P H)
      → IsRegistry B v.store
      → Represents B P H log v.store.db
      → let q = handle B P H unix req v in
        Serves log unix req q.0.store q.1 × IsRegistry B q.0.store
  unfolding handle
  handle-Serves log unix req v made rep = (
    dispatch-Serves req.req_op log unix req v refl made rep,
    (handle-Grows B P H [] unix req v (λ e. absurd (omega (arith, e))) made).registry,
  )
