-- ===== src/Server/Session/Commits.antt =====
-- What an append of the server has done to the store when it answers.
use plan_vault_libp2p.Prelude.{
  ℕ, ◌≤◌, ◌<◌, ◌≡◌, ◌≢◌, refl, sym, ap, subst, ◌∙◌, inl, inr, [], Option, some, false, Bytes,
  bytes_of, Bytes_eq, ◌==◌, Error, Result, ok, err, panics, length, arith, Bool-cases,
}
use plan_vault_libp2p.Prelude.Errors.{invalid_entry_body}
use plan_vault_libp2p.Protos.{
  Msg, MsgOp, FeedReq, ErrCode, empty_header, get_entry_header, get_feed_uri, get_body,
  get_entry_id,
}
use plan_vault_libp2p.Interfaces.{Badger, Proto, Hash, wire}
use plan_vault_libp2p.Store.Channel.{Channel, new_channel}
use plan_vault_libp2p.Store.Channels.{Store, channel}
use plan_vault_libp2p.Store.Channels.Registry.{IsRegistry, IsMade, channel-Gives}
use plan_vault_libp2p.Store.Keys.{entry_key, arrival_key}
use plan_vault_libp2p.Store.Keys.Layout.{HasPrefixes, new_channel-HasPrefixes}
use plan_vault_libp2p.Store.Entries
use plan_vault_libp2p.Store.Entries.AppendOnly.{get-append}
use plan_vault_libp2p.Server.Session.{
  append, append_to, append_reply, max_body_size, bad_body, error_response,
}

IsMade-HasPrefixes : (id : Bytes) (c : Channel) → IsMade id c → HasPrefixes c
unfolding new_channel
IsMade-HasPrefixes id c m = record {
  entries = ap length m.entries ∙ (new_channel-HasPrefixes id).entries;
  arrival = ap length m.arrival ∙ (new_channel-HasPrefixes id).arrival;
}

module _ (B : Badger) (P : Proto) (H : Hash) where
  -- The channel of an entry, as the store gives it out.
  abbrev pub channel_of : Msg → Store B → Channel
  channel_of m s = (channel B (H.sum256 (get_feed_uri m.entry_header)) s).1

  pub with_db : (s : Store B) (db : B.Db) → IsRegistry B s → IsRegistry B (record s { db = db })
  with_db s db r = record { made = r.made }

  reply-committed :
      (n : ℕ) (s t : Store B) (db : B.Db) (r : Result Bytes) (reply : Msg)
      → ◌≡◌ {A = Store B × Result Msg} (record s { db = db }, append_reply B P H n r) (t, ok reply)
      → reply.op ≡ MsgOp.req_complete
      → (key : Bytes) × (r ≡ ok key)
        × (t ≡ record s { db = db })
        × (reply.entry_header ≡ some (record empty_header { entry_id = some key }))
  unfolding append_reply error_response
  reply-committed n s t db (ok key) reply h op = (key, refl, cc, ground arith)
  reply-committed n s t db (err e) reply h op = ground arith
  reply-committed n s t db panics reply h op = cc

  -- What an append that was answered with ReqComplete has done.
  pub record Committed (unix : ℕ) (m : Msg) (id : Bytes) (s t : Store B) (reply : Msg)
      : Type 0 where
    pub has_uri : get_feed_uri m.entry_header ≢ []
    pub has_body : 0 < length (bytes_of m.body)
    pub fits : length (bytes_of m.body) ≤ max_body_size
    pub stored : Entries.get B P (entry_key (channel_of m s) id) t.db ≡ ok (wire m)
    pub bookmark :
        reply.entry_header
        ≡ some (record empty_header { entry_id = some (arrival_key (channel_of m s) unix id) })
    pub registry : IsRegistry B t

  append_to-Committed :
      (unix : ℕ) (req : FeedReq) (m : Msg) (id : Bytes) (s t : Store B) (reply : Msg)
      → IsRegistry B s
      → req.new_entry ≡ some m
      → get_entry_id m.entry_header ≡ some id
      → append_to B P H unix req (get_feed_uri m.entry_header) s ≡ (t, ok reply)
      → reply.op ≡ MsgOp.req_complete
      → (Entries.get B P (entry_key (channel_of m s) id) t.db ≡ ok (wire m))
        × (reply.entry_header
            ≡ some (record empty_header { entry_id = some (arrival_key (channel_of m s) unix id) }))
        × IsRegistry B t
  unfolding append_to
  append_to-Committed unix req m id s t reply r new_entry has h op =
      let gives = channel-Gives B (H.sum256 (get_feed_uri m.entry_header)) s r in
      let s' : Store B = (channel B (H.sum256 (get_feed_uri m.entry_header)) s).0 in
      let c = channel_of m s in
      let p : B.Db × Result Bytes = Entries.append B P c unix req.new_entry s'.db s'.db in
      let (key, answered, store, header) = reply-committed req.req_id s' t p.0 p.1 reply h op in
      let appended : Entries.append B P c unix (some m) s'.db s'.db ≡ (p.0, ok key) =
        ap (λ (e : Option Msg). Entries.append B P c unix e s'.db s'.db) (sym new_entry)
        ∙ ap (λ (k : Result Bytes). (p.0, k)) answered in
      let (held, bookmark, back) =
        get-append B P c unix m id s'.db s'.db p.0 key
          (IsMade-HasPrefixes (H.sum256 (get_feed_uri m.entry_header)) c gives.made) has appended in
      (
        subst (λ (u : Store B). Entries.get B P (entry_key c id) u.db ≡ ok (wire m)) (sym store)
            held,
        header ∙ ap (λ (k : Bytes). some (record empty_header { entry_id = some k })) bookmark,
        subst (λ (u : Store B). IsRegistry B u) (sym store) (with_db s' p.0 gives.registry),
      )

  not-complete-error :
      (n : ℕ) (code : ErrCode) (e : Error) (s t : Store B) (reply : Msg)
      → ◌≡◌ {A = Store B × Result Msg} (s, ok (error_response n code e)) (t, ok reply)
      → reply.op ≢ MsgOp.req_complete
  unfolding error_response
  not-complete-error n code e s t reply h op = ground arith

  -- An append that was answered with ReqComplete has passed both guards.
  append-passed :
      (unix : ℕ) (req : FeedReq) (s t : Store B) (reply : Msg)
      → append B P H unix req s ≡ (t, ok reply)
      → reply.op ≡ MsgOp.req_complete
      → ((get_feed_uri (get_entry_header req.new_entry) == []) ≡ false)
        × (bad_body B P H (bytes_of (get_body req.new_entry)) ≡ false)
        × (append_to B P H unix req (get_feed_uri (get_entry_header req.new_entry)) s
            ≡ (t, ok reply))
  unfolding append
  append-passed unix req s t reply h op =
      elim (Bool-cases (get_feed_uri (get_entry_header req.new_entry) == [])) [
        | inl e ↦ absurd (
            not-complete-error req.req_id ErrCode.invalid_feed_uri Error.invalid_feed_uri s t reply
              (rw (e, append) at h) op)
        | inr e ↦ elim (Bool-cases (bad_body B P H (bytes_of (get_body req.new_entry)))) [
          | inl f ↦ absurd (
              not-complete-error req.req_id ErrCode.invalid_request invalid_entry_body s t reply
                (rw (e, f, append) at h) op)
          | inr f ↦ (e, f, rw (e, f, append) at h)
        ]
      ]

  good_body : (b : Bytes) → bad_body B P H b ≡ false → (0 < length b) × (length b ≤ max_body_size)
  good_body b e = (ground arith, ground arith)

  -- When the server, on a store with a well-formed registry, answers an append with ReqComplete,
  -- for an entry with an id, then the entry has a feed URI and a body of 1 to maxBodySize bytes;
  -- Get of the entry's key in its channel returns the entry as it is read from the wire; the
  -- reply's entry id is the arrival key of the entry at the Unix time of the request; and the
  -- registry of channels is still well-formed.
  pub append-Committed :
      (unix : ℕ) (req : FeedReq) (m : Msg) (id : Bytes) (s t : Store B) (reply : Msg)
      → IsRegistry B s
      → req.new_entry ≡ some m
      → get_entry_id m.entry_header ≡ some id
      → append B P H unix req s ≡ (t, ok reply)
      → reply.op ≡ MsgOp.req_complete
      → Committed unix m id s t reply
  append-Committed unix req m id s t reply r new_entry has h op =
      let (uri, body, rest) =
        subst
          (λ (e : Option Msg).
            ((get_feed_uri (get_entry_header e) == []) ≡ false)
            × (bad_body B P H (bytes_of (get_body e)) ≡ false)
            × (append_to B P H unix req (get_feed_uri (get_entry_header e)) s ≡ (t, ok reply)))
          new_entry (append-passed unix req s t reply h op) in
      let (pos, small) = good_body (bytes_of m.body) body in
      let (stored, bookmark, registry) =
        append_to-Committed unix req m id s t reply r new_entry has rest op in
      record {
        has_uri = λ e. cc (uri, e);
        has_body = pos;
        fits = small;
        stored = stored;
        bookmark = bookmark;
        registry = registry;
      }
