-- ===== src/Server/Session/Growth.antt =====
-- What each operation of the server makes of the store: its registry and its values.
use plan_vault_libp2p.Prelude.{
  ℕ, ◌≡◌, ◌≢◌, refl, sym, ap, subst, ◌∙◌, inl, inr, [], Option, none, some, Bytes, Bytes_eq,
  bytes_of, ◌==◌, Result, ok, err, panics, length, Bool-cases,
}
use plan_vault_libp2p.Protos.{
  Msg, ReqOp, FeedReq, OpenFeedReq, get_entry_header, get_feed_uri, get_body,
}
use plan_vault_libp2p.Interfaces.{Badger, Proto, Hash}
use plan_vault_libp2p.Store.Channel.{Channel, stream}
use plan_vault_libp2p.Store.Channels.{Store, Subscribed, channel, put_channel}
use plan_vault_libp2p.Store.Channels.Registry.{IsRegistry, IsMade, channel-Gives, insert-IsMade}
use plan_vault_libp2p.Store.Channels.Subscriptions.{subscribe-IsMade}
use plan_vault_libp2p.Store.Entries
use plan_vault_libp2p.Store.Entries.{value, get, rename_missing}
use plan_vault_libp2p.Store.Entries.Appends.{append-Appended, length-arrival_key}
use plan_vault_libp2p.Store.Entries.AppendOnly.{append_keeps}
use plan_vault_libp2p.Server.Options.{new_stream_opts}
use plan_vault_libp2p.Server.Session.{
  Vault, handle, dispatch, append, append_to, bad_body, open_feed, open_at, open_checked,
  subscribed, close, new,
}
use plan_vault_libp2p.Server.Session.Commits.{with_db}

module _ (B : Badger) (P : Proto) (H : Hash) where
  -- What stands at the key `k` is still there.
  abbrev pub Keeps : Bytes → B.Db → B.Db → Type 0
  Keeps k d e = (b : Bytes) → value B P d k ≡ ok b → value B P e k ≡ ok b

  settle-Keeps :
      (k : Bytes) (d : B.Db) (r : Result (Bytes × B.Db))
      → ((a : Bytes) (e : B.Db) → r ≡ ok (a, e) → Keeps k d e)
      → Keeps k d (Entries.settle B P d r).0
  settle-Keeps k d (ok (a, e)) h = h a e refl
  settle-Keeps k d (err e) h = λ b here. here
  settle-Keeps k d panics h = λ b here. here

  append-Keeps :
      (k : Bytes) (c : Channel) (unix : ℕ) (entry : Option Msg) (d : B.Db)
      → length k ≢ 69
      → Keeps k d (Entries.append B P c unix entry d d).0
  unfolding Entries.append
  append-Keeps k c unix entry d len =
      settle-Keeps k d (Entries.append_steps B P c unix entry d d) λ reply after steps b here.
        let done : Entries.append B P c unix entry d d ≡ (after, ok reply) =
          ap (λ (r : Result (Bytes × B.Db)). Entries.settle B P d r) steps in
        let a = append-Appended B P c unix entry d d after reply done in
        append_keeps B P c unix entry d d after reply k b done here
          λ (same : k ≡ reply). len (ap length (same ∙ a.replied) ∙ length-arrival_key c unix a.id)

  -- What an operation makes of a store with a registry.
  pub record Grows (k : Bytes) (s t : Store B) : Type 0 where
    pub registry : IsRegistry B t
    pub keeps : Keeps k s.db t.db

  pub Grows-Grows : (k : Bytes) (s t u : Store B) → Grows k s t → Grows k t u → Grows k s u
  Grows-Grows k s t u g h = record {
    registry = h.registry;
    keeps = λ b here. h.keeps b (g.keeps b here);
  }

  append_to-Grows :
      (k : Bytes) (unix : ℕ) (req : FeedReq) (uri : Bytes) (s : Store B)
      → length k ≢ 69
      → IsRegistry B s
      → Grows k s (append_to B P H unix req uri s).0
  unfolding append_to
  append_to-Grows k unix req uri s len r =
      let gives = channel-Gives B (H.sum256 uri) s r in
      let t : Store B = (channel B (H.sum256 uri) s).0 in
      let c : Channel = (channel B (H.sum256 uri) s).1 in
      record {
        registry =
            with_db B P H t (Entries.append B P c unix req.new_entry t.db t.db).0 gives.registry;
        keeps = λ b here.
            append-Keeps k c unix req.new_entry t.db len b
              (ap (λ (d : B.Db). value B P d k) gives.same_db ∙ here);
      }

  pub stays-Grows : (k : Bytes) (s : Store B) → IsRegistry B s → Grows k s s
  stays-Grows k s r = record { registry = r; keeps = λ b here. here }

  append-Grows :
      (k : Bytes) (unix : ℕ) (req : FeedReq) (s : Store B)
      → length k ≢ 69
      → IsRegistry B s
      → Grows k s (append B P H unix req s).0
  unfolding append
  append-Grows k unix req s len r =
      elim (Bool-cases (get_feed_uri (get_entry_header req.new_entry) == [])) [
        | inl e ↦ rw e (stays-Grows k s r)
        | inr e ↦ elim (Bool-cases (bad_body B P H (bytes_of (get_body req.new_entry)))) [
          | inl f ↦ rw (e, f) (stays-Grows k s r)
          | inr f ↦ rw (e, f) (append_to-Grows k unix req _ s len r)
        ]
      ]

  put_channel-Grows :
      (k id : Bytes) (c : Channel) (s : Store B)
      → IsMade id c
      → IsRegistry B s
      → Grows k s (put_channel B c s)
  unfolding put_channel
  put_channel-Grows k id c s m r = record {
    registry = record {
      made = insert-IsMade B s c.id c (subst (λ (i : Bytes). IsMade i c) (sym m.at_id) m) r;
    };
    keeps = λ b here. here;
  }

  subscribed-Grows :
      (k : Bytes) (n : ℕ) (id i : Bytes) (v : Vault B P H) (r : Result (Channel × Subscribed))
      → IsRegistry B v.store
      → ((c : Channel) (what : Subscribed) → r ≡ ok (c, what) → IsMade i c)
      → Grows k v.store (subscribed B P H n id v r).0.store
  unfolding subscribed
  subscribed-Grows k n id i v (ok (c, what)) r h = put_channel-Grows k i c v.store (h c what refl) r
  subscribed-Grows k n id i v (err e) r h = stays-Grows k v.store r
  subscribed-Grows k n id i v panics r h = stays-Grows k v.store r

  open_at-Grows :
      (k : Bytes) (n : ℕ) (q : OpenFeedReq) (v : Vault B P H)
      → IsRegistry B v.store
      → Grows k v.store (open_at B P H n q v).0.store
  unfolding open_at
  open_at-Grows k n q v r =
      let id : Bytes = H.sum256 q.feed_uri in
      let gives = channel-Gives B id v.store r in
      let c : Channel = (channel B id v.store).1 in
      Grows-Grows k v.store (channel B id v.store).0 _
        (record {
          registry = gives.registry;
          keeps = λ b here. ap (λ (d : B.Db). value B P d k) gives.same_db ∙ here;
        })
        (subscribed-Grows k n id id _ _ gives.registry (
          subscribe-IsMade id c v.conn.next_ctx (stream v.conn.id n) (new_stream_opts q)
            gives.made))

  open_checked-Grows :
      (k : Bytes) (n : ℕ) (o : Option OpenFeedReq) (v : Vault B P H)
      → IsRegistry B v.store
      → Grows k v.store (open_checked B P H n o v).0.store
  unfolding open_checked
  open_checked-Grows k n none v r = stays-Grows k v.store r
  open_checked-Grows k n (some q) v r = elim (Bool-cases (q.feed_uri == [])) [
    | inl e ↦ rw e (stays-Grows k v.store r)
    | inr e ↦ rw e (open_at-Grows k n q v r)
  ]

  dispatch-Grows :
      (k : Bytes) (op : ReqOp) (unix : ℕ) (req : FeedReq) (v : Vault B P H)
      → length k ≢ 69
      → IsRegistry B v.store
      → Grows k v.store (dispatch B P H op unix req v).0.store
  unfolding dispatch new open_feed close
  dispatch-Grows k ReqOp.channel_genesis unix req v len r = append-Grows k unix req v.store len r
  dispatch-Grows k ReqOp.open_feed unix req v len r =
      open_checked-Grows k req.req_id req.open_feed v r
  dispatch-Grows k ReqOp.cancel_req unix req v len r = stays-Grows k v.store r
  dispatch-Grows k ReqOp.append_entry unix req v len r = append-Grows k unix req v.store len r
  dispatch-Grows k _ unix req v len r = stays-Grows k v.store r

  pub handle-Grows :
      (k : Bytes) (unix : ℕ) (req : FeedReq) (v : Vault B P H)
      → length k ≢ 69
      → IsRegistry B v.store
      → Grows k v.store (handle B P H unix req v).0.store
  unfolding handle
  handle-Grows k unix req v = dispatch-Grows k req.req_op unix req v
