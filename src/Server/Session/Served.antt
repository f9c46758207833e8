-- ===== src/Server/Session/Served.antt =====
-- The ids of the channels that the server asks for.
use plan_vault_libp2p.Prelude.{
  ℕ, ◌≡◌, refl, inl, inr, [], Option, none, some, Bytes, Bytes_eq, bytes_of, ◌==◌, Result, ok, err,
  panics, Bool-cases,
}
use plan_vault_libp2p.Protos.{ReqOp, FeedReq, OpenFeedReq, get_entry_header, get_feed_uri, get_body}
use plan_vault_libp2p.Interfaces.{Badger, Proto, Hash}
use plan_vault_libp2p.Store.Channel.{Channel, stream}
use plan_vault_libp2p.Store.Channels.{Store, Subscribed, channel}
use plan_vault_libp2p.Store.Channels.Registry.{IsMade, channel-Gives}
use plan_vault_libp2p.Store.Channels.Hashed.{
  IsStore, Hashed, with_db-IsStore, channel-IsStore, put_channel-IsStore,
}
use plan_vault_libp2p.Server.Options.{new_stream_opts}
use plan_vault_libp2p.Server.Session.{
  Vault, append, append_to, bad_body, dispatch, new, open_feed, open_checked, open_at, subscribed,
  close, handle,
}
use plan_vault_libp2p.Store.Channels.Subscriptions.{subscribe-IsMade}

module _ (B : Badger) (P : Proto) (H : Hash) where
  append-IsStore :
      (unix : ℕ) (req : FeedReq) (s : Store B)
      → IsStore B H s
      → IsStore B H (append B P H unix req s).0
  unfolding append append_to
  append-IsStore unix req s w =
      let uri : Bytes = get_feed_uri (get_entry_header req.new_entry) in
      elim (Bool-cases (uri == [])) [
        | inl e ↦ rw e w
        | inr e ↦ elim (Bool-cases (bad_body B P H (bytes_of (get_body req.new_entry)))) [
          | inl f ↦ rw (e, f) w
          | inr f ↦
              rw (e, f)
                (with_db-IsStore B H (channel B (H.sum256 uri) s).0 _
                  (channel-IsStore B H (H.sum256 uri) s (uri, refl) w))
        ]
      ]

  subscribed-IsStore :
      (n : ℕ) (id i : Bytes) (v : Vault B P H) (r : Result (Channel × Subscribed))
      → Hashed B H i
      → ((c : Channel) (what : Subscribed) → r ≡ ok (c, what) → IsMade i c)
      → IsStore B H v.store
      → IsStore B H (subscribed B P H n id v r).0.store
  unfolding subscribed
  subscribed-IsStore n id i v (ok (c, what)) of h w =
      put_channel-IsStore B H i c v.store (h c what refl) of w
  subscribed-IsStore n id i v (err e) of h w = w
  subscribed-IsStore n id i v panics of h w = w

  open_checked-IsStore :
      (n : ℕ) (o : Option OpenFeedReq) (v : Vault B P H)
      → IsStore B H v.store
      → IsStore B H (open_checked B P H n o v).0.store
  unfolding open_checked open_at
  open_checked-IsStore n none v w = w
  open_checked-IsStore n (some q) v w = elim (Bool-cases (q.feed_uri == [])) [
    | inl e ↦ rw e w
    | inr e ↦
        let id : Bytes = H.sum256 q.feed_uri in
        let gives = channel-Gives B id v.store w.registry in
        rw e (
          subscribed-IsStore n id id _ _ (q.feed_uri, refl)
            (subscribe-IsMade id (channel B id v.store).1 v.conn.next_ctx (stream v.conn.id n)
              (new_stream_opts q) gives.made)
            (channel-IsStore B H id v.store (q.feed_uri, refl) w))
  ]

  dispatch-IsStore :
      (op : ReqOp) (unix : ℕ) (req : FeedReq) (v : Vault B P H)
      → IsStore B H v.store
      → IsStore B H (dispatch B P H op unix req v).0.store
  unfolding dispatch new open_feed close
  dispatch-IsStore ReqOp.channel_genesis unix req v w = append-IsStore unix req v.store w
  dispatch-IsStore ReqOp.open_feed unix req v w = open_checked-IsStore req.req_id req.open_feed v w
  dispatch-IsStore ReqOp.cancel_req unix req v w = w
  dispatch-IsStore ReqOp.append_entry unix req v w = append-IsStore unix req v.store w
  dispatch-IsStore _ unix req v w = w

  -- The channels that a request has the store make stand for feeds, as those before it.
  pub handle-IsStore :
      (unix : ℕ) (req : FeedReq) (v : Vault B P H)
      → IsStore B H v.store
      → IsStore B H (handle B P H unix req v).0.store
  unfolding handle
  handle-IsStore unix req v = dispatch-IsStore req.req_op unix req v
