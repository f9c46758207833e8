-- ===== src/Server/Session/Durability.antt =====
-- What holds of the store however long a session runs.
use plan_vault_libp2p.Prelude.{
  ℕ, ◌≡◌, ◌≢◌, ap, ◌∙◌, List, [], ◌∷◌, some, Bytes, Bytes_eq, Result, ok, err, panics, ◌>>=◌,
  >>=-eq-ok, length, arith,
}
use plan_vault_libp2p.Prelude.Errors.{badger_key_not_found}
use plan_vault_libp2p.Protos.{Msg, MsgOp, FeedReq, get_entry_id}
use plan_vault_libp2p.Interfaces.{Badger, Proto, Hash, wire}
use plan_vault_libp2p.Store.Channel.{Channel}
use plan_vault_libp2p.Store.Channels.{Store}
use plan_vault_libp2p.Store.Channels.Registry.{IsRegistry}
use plan_vault_libp2p.Store.Keys.{entry_key}
use plan_vault_libp2p.Store.Entries.{value, get, rename_missing}
use plan_vault_libp2p.Store.Entries.Appends.{length-entry_key}
use plan_vault_libp2p.Server.Session.{
  Vault, Received, request, ctx_done, end_of_stream, failed, Outcome, session, handle, append,
  replied,
}
use plan_vault_libp2p.Server.Session.Commits.{channel_of, append-Committed}
use plan_vault_libp2p.Server.Session.Growth.{handle-Grows, stays-Grows, Grows-Grows, Grows}

module _ (B : Badger) (P : Proto) (H : Hash) where
  replied-Grows :
      (k : Bytes) (s : Store B) (v : Vault B P H) (r : Result Msg)
      (rest : Vault B P H → Outcome B P H)
      → Grows B P H k s v.store
      → Grows B P H k s (rest v).vault.store
      → Grows B P H k s (replied B P H v r rest).vault.store
  unfolding replied
  replied-Grows k s v (ok m) rest g h = h
  replied-Grows k s v (err e) rest g h = g
  replied-Grows k s v panics rest g h = g

  -- Whatever a session receives, on a store with a well-formed registry, the registry stays
  -- well-formed, and a value at a key that does not have the 69 bytes of an arrival key is never
  -- changed or removed.
  session-Grows :
      (rs : List Received) (v : Vault B P H) (k : Bytes)
      → length k ≢ 69
      → IsRegistry B v.store
      → Grows B P H k v.store (session B P H rs v).vault.store
  unfolding session handle
  session-Grows [] v k len r = stays-Grows B P H k v.store r
  session-Grows (ctx_done ∷ rs) v k len r = stays-Grows B P H k v.store r
  session-Grows (end_of_stream ∷ rs) v k len r = stays-Grows B P H k v.store r
  session-Grows (failed e ∷ rs) v k len r = stays-Grows B P H k v.store r
  session-Grows (request unix req ∷ rs) v k len r =
      let (v', reply) = handle B P H unix req v in
      let g = handle-Grows B P H k unix req v len r in
      replied-Grows k v.store v' reply (session B P H rs) g
        (Grows-Grows B P H k v.store v'.store _ g (session-Grows rs v' k len g.registry))

  rename_missing-ok : (r : Result Bytes) (b : Bytes) → rename_missing r ≡ ok b → r ≡ ok b
  rename_missing-ok (ok v) b h = h
  rename_missing-ok (err badger_key_not_found) b h = cc
  rename_missing-ok (err e) b h = h
  rename_missing-ok panics b h = h

  long_key : (c : Channel) (id : Bytes) → length (entry_key c id) ≢ 69
  long_key c id e = absurd (omega (arith, length-entry_key c id, e))

  -- On a store with a well-formed registry, an entry with an ID whose append the server answered
  -- with ReqComplete can be read, as it is read from the wire, whatever the session that comes
  -- after the reply receives.
  committed_for_good :
      (unix : ℕ) (req : FeedReq) (m : Msg) (id : Bytes) (s : Store B) (v : Vault B P H)
      (reply : Msg) (rs : List Received)
      → IsRegistry B s
      → req.new_entry ≡ some m
      → get_entry_id m.entry_header ≡ some id
      → append B P H unix req s ≡ (v.store, ok reply)
      → reply.op ≡ MsgOp.req_complete
      → get B P (entry_key (channel_of B P H m s) id) (session B P H rs v).vault.store.db
        ≡ ok (wire m)
  unfolding get
  committed_for_good unix req m id s v reply rs r new_entry has h op =
      let key = entry_key (channel_of B P H m s) id in
      let done = append-Committed B P H unix req m id s v.store reply r new_entry has h op in
      let (bytes, there, read) =
        >>=-eq-ok (rename_missing (value B P v.store.db key)) _ done.stored in
      let kept =
        (session-Grows rs v key (long_key (channel_of B P H m s) id) done.registry).keeps bytes
          (rename_missing-ok _ bytes there) in
      ap (λ (r : Result Bytes). rename_missing r >>= λ (b : Bytes). P.unmarshal b) kept ∙ read
