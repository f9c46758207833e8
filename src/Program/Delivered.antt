-- ===== src/Program/Delivered.antt =====
-- From one client to another: what becomes of an acknowledged entry when somebody reads the feed.
use plan_vault_libp2p.Prelude.{
  ℕ, suc, ◌-◌, ◌≤◌, ◌≡◌, refl, sym, ap, ap₂, ◌∙◌, inl, inr, List, [], ◌∷◌, ◌++◌, none, some, false,
  Bytes, Slice, bytes_of, Dict, Bytes_eq, ◌==◌, ok, ok-injective, lookup, length, take_all,
  replicate, bytes_ltb, Bool-cases, eq_of_some, arith,
}
use plan_vault_libp2p.Prelude.ByteStrings.{bytes_beq_iff, bytes_ltb_irrefl}
use plan_vault_libp2p.Protos.{Msg, FeedReq, get_entry_id}
use plan_vault_libp2p.Interfaces.{Badger, Proto, Hash, seek_from, wire}
use plan_vault_libp2p.Interfaces.Network.{Libraries}
use plan_vault_libp2p.Store.Channel.{Channel}
use plan_vault_libp2p.Store.Options.{StreamOpts, keys_only, from_head, skip_first, tail}
use plan_vault_libp2p.Store.Keys.{entry_key}
use plan_vault_libp2p.Store.Entries.{deref}
use plan_vault_libp2p.Store.Reading.{
  opening, Reader, snapshot, idle, run, message, start, start_key,
}
use plan_vault_libp2p.Store.Reading.Items.{has_prefix-not_below}
use plan_vault_libp2p.Store.Reading.Chains.{length-Messages, length-skip_seen, lookup-skip_seen}
use plan_vault_libp2p.Store.Reading.Drain.{Messages, nil, cons, skip_seen}
use plan_vault_libp2p.Store.Reading.Snapshots.{own_items}
use plan_vault_libp2p.Log.{Posted, find, done, later}
use plan_vault_libp2p.Log.Refinement.{Represents}
use plan_vault_libp2p.Log.Once.{find-append_old}
use plan_vault_libp2p.Log.Feeds.Standing.{own_prefix, not_empty}
use plan_vault_libp2p.Log.Writers.{channel_of}
use plan_vault_libp2p.Log.Feeds.Published.{Readable, published-IsFeed, Runs-Readable}
use plan_vault_libp2p.Server.Session.Logged.{entry_uri}
use plan_vault_libp2p.P2P.Logged.{Holds}
use plan_vault_libp2p.Program.{Program, Seen, replied, Step, Reach}
use plan_vault_libp2p.Program.Refinement.{program_refines}
use plan_vault_libp2p.Program.Acknowledged.{Acks, Acked, Step-Acked, Runs-longer}

module _ (B : Badger) (P : Proto) where
  -- What is made of an item stands among the messages.
  among :
      (opts : StreamOpts) (items : Dict Bytes Bytes) (ms : List Msg) (k v : Bytes) (m : Msg)
      → Messages B P opts items ms
      → lookup k items ≡ some v
      → message B P opts k v ≡ ok m
      → (before after : List Msg) × (ms ≡ before ++ m ∷ after)
  unfolding lookup
  among opts [] [] k v m nil found made = cc
  among opts [] (n ∷ ms) k v m h found made = elim h [ ]
  among opts ((j, w) ∷ items) [] k v m h found made = elim h [ ]
  among opts ((j, w) ∷ items) (n ∷ ms) k v m (cons e es) found made = elim (Bool-cases (j == k)) [
    | inl same ↦
        let key = (bytes_beq_iff j k).0 same in
        let val = eq_of_some (rw (same, lookup) at found) in
        let equal : n ≡ m = ok-injective (sym e ∙ ap₂ (message B P opts) key val ∙ made) in
        ([], ms, ap (λ (a : Msg). a ∷ ms) equal)
    | inr other ↦
        let (before, after, e') = among opts items ms k v m es (rw (other, lookup) at found) made in
        (n ∷ before, after, ap (λ (l : List Msg). n ∷ l) e')
  ]

  message-entry :
      (opts : StreamOpts) (k v : Bytes)
      → keys_only opts ≡ false
      → message B P opts k v ≡ P.unmarshal v
  unfolding message
  message-entry opts k v entries = rw (entries, message) refl

module _ (B : Badger) (P : Proto) (H : Hash) where
  -- A subscription that starts at the beginning of a feed, with room for all of it, publishes an
  -- entry that the log has there.
  reads_posted :
      (log : List Posted) (d : B.Db) (uri id b : Bytes) (m : Msg) (r : Reader)
      → Represents B P H log d
      → Readable B P H log
      → find (H.sum256 uri) id log ≡ some b
      → P.unmarshal b ≡ ok m
      → r.phase ≡ opening
      → r.count ≡ 0
      → r.published ≡ []
      → r.last_seen ≡ none
      → r.key ≡ some []
      → keys_only r.opts ≡ false
      → r.max ≤ tail
      → let c = channel_of B P H uri in
        length (own_items B P c r.key d) ≤ r.max
        → (before after : List Msg) × ((run B P c r
              (snapshot d ∷ replicate (suc (length (own_items B P c r.key d))) idle)).published
            ≡ before ++ m ∷ after)
  reads_posted log d uri id b m r rep h there decodes opens zero nothing fresh key entries small
        room =
      let c : Channel = channel_of B P H uri in
      let items : Dict Bytes Bytes = own_items B P c r.key d in
      let from : seek_from c.prefix (bytes_of r.key) ≡ c.prefix =
        ap (λ (k : Slice). seek_from c.prefix (bytes_of k)) key in
      let above : bytes_ltb (entry_key c id) (seek_from c.prefix (bytes_of r.key)) ≡ false =
        ap (bytes_ltb (entry_key c id)) from
        ∙ has_prefix-not_below c.prefix (entry_key c id) (own_prefix B P H uri id) in
      let (f, (ms, made, drained)) =
        published-IsFeed B P H log d uri r rep h opens (omega (arith, zero)) small
          (ap (λ (k : Bytes). bytes_ltb k c.prefix) from ∙ bytes_ltb_irrefl c.prefix) in
      let found : lookup (entry_key c id) (skip_seen r.last_seen items) ≡ some b =
        lookup-skip_seen r.last_seen (entry_key c id) b items
          (ap (λ (s : Slice). entry_key c id == bytes_of s) fresh ∙ not_empty B P H c id)
          (f.whole id b there above) in
      let (before, after, e) =
        among B P r.opts (skip_seen r.last_seen items) ms (entry_key c id) b m made found
          (message-entry B P r.opts (entry_key c id) b entries ∙ decodes) in
      let fits : length ms ≤ r.max - r.count = omega (
        arith,
        zero,
        room,
        length-Messages B P r.opts (skip_seen r.last_seen items) ms made,
        length-skip_seen r.last_seen items,
      ) in
      (before, after, drained.published ∙ ap₂ ◌++◌ nothing (take_all (r.max - r.count) ms fits) ∙ e)

module _ (X : Libraries) where
  -- When the server has answered a client's request with an entry ID, then whoever later opens the
  -- feed from its beginning, with entries and not only their IDs asked for and a limit that leaves
  -- room for all of it, gets the client's entry, as it is read from the wire, from the first
  -- snapshot on: whatever the program did in between, with any clients and peers, and however often
  -- it was started again.
  pub acknowledged_entry_is_delivered :
      (log : List Posted) (w t u : Program X) (seen : List (Seen X)) (unix : ℕ) (req : FeedReq)
      (m : Msg) (key id : Bytes) (opts : StreamOpts) (d : X.badger.Db)
      → Holds X log w.loop.host
      → Readable X.badger X.proto X.hash log
      → Step X w (replied unix req (ok m)) t
      → Acks X m key
      → get_entry_id (deref req.new_entry).entry_header ≡ some id
      → Reach X t seen u
      → opts.seek ≡ some []
      → from_head opts ≡ false
      → skip_first opts ≡ false
      → keys_only opts ≡ false
      → opts.max ≤ tail
      → let c = channel_of X.badger X.proto X.hash (entry_uri X.badger X.proto X.hash req) in
        let r = start X.badger X.proto c opts d in
        let now = u.loop.host.store.db in
        let items = own_items X.badger X.proto c r.key now in
        length items ≤ opts.max
        → (before after : List Msg) × ((run X.badger X.proto c r
              (snapshot now ∷ replicate (suc (length items)) idle)).published
            ≡ before ++ wire (deref req.new_entry) ∷ after)
  unfolding Acked start start_key
  acknowledged_entry_is_delivered log w t u seen unix req m key id opts d h readable step acks has
        run seek head skip entries small room =
      let uri : Bytes = entry_uri X.badger X.proto X.hash req in
      let (now, bytes, h', packs, absent, there, is, did) =
        Step-Acked X log w t unix req m key id h step acks has in
      let (last, ls, runs, shown, h2) = program_refines X now t u seen h' run in
      let (new, grown) = Runs-longer X.proto X.hash now last ls runs in
      let readable' =
        Runs-Readable X.badger X.proto X.hash now last ls
          (Runs-Readable X.badger X.proto X.hash log now _ readable (later done did)) runs in
      reads_posted X.badger X.proto X.hash last u.loop.host.store.db uri id bytes
        (wire (deref req.new_entry))
        (start X.badger X.proto (channel_of X.badger X.proto X.hash uri) opts d) h2.entries
        readable'
        (ap (find (X.hash.sum256 uri) id) grown
          ∙ find-append_old (X.hash.sum256 uri) id bytes now new there)
        (X.proto.unmarshal-marshal (deref req.new_entry) bytes packs) refl refl refl (rw skip refl)
        (rw head seek) entries small room
