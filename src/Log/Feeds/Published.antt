-- ===== src/Log/Feeds/Published.antt =====
-- What a subscription publishes of one snapshot, as the log has it.
use plan_vault_libp2p.Prelude.{
  suc, ◌≤◌, ◌≡◌, ap, subst, ◌∙◌, inl, inr, List, [], ◌∷◌, some, false, Bytes, Slice, bytes_of, Dict,
  Bytes_eq, ◌==◌, ok, eq_of_some, length, replicate, All, All-append_one, bytes_ltb, Bool-cases,
}
use plan_vault_libp2p.Protos.{Msg, empty_msg, empty_header}
use plan_vault_libp2p.Interfaces.{Badger, Proto, Hash, seek_from, wire}
use plan_vault_libp2p.Store.Channel.{Channel}
use plan_vault_libp2p.Store.Options.{StreamOpts, keys_only, tail}
use plan_vault_libp2p.Store.Keys.{entry_key, entry_id_from_key}
use plan_vault_libp2p.Store.Keys.Layout.{new_channel-HasPrefixes, fit}
use plan_vault_libp2p.Store.Keys.Roundtrip.{entry_id_from_key-entry_key}
use plan_vault_libp2p.Store.Reading.{opening, Reader, snapshot, idle, run, message, id_msg}
use plan_vault_libp2p.Store.Reading.Drain.{Messages, nil, cons, Drained, skip_seen}
use plan_vault_libp2p.Store.Reading.Snapshots.{own_items, quiet_snapshot-Drained}
use plan_vault_libp2p.Log.{
  Posted, is_at, find, Label, Does, stays, posts, refuses, breaks, reads, Runs,
}
use plan_vault_libp2p.Log.Writers.{channel_of}
use plan_vault_libp2p.Log.Refinement.{Represents}
use plan_vault_libp2p.Log.Feeds.{IsFeed, own_items-IsFeed, Posteds}

module _ (B : Badger) (P : Proto) (H : Hash) where
  -- Each entry of the log is a message on the wire.
  unfoldable pub Readable : List Posted → Type 0
  Readable log = All (λ (p : Posted). (m : Msg) × (P.marshal m ≡ ok p.bytes)) log

  find-Readable :
      (c id b : Bytes) (log : List Posted)
      → Readable log
      → find c id log ≡ some b
      → (m : Msg) × (P.marshal m ≡ ok b)
  unfolding find Readable
  find-Readable c id b [] h found = cc
  find-Readable c id b (p ∷ log) h found = elim (Bool-cases (is_at c id p)) [
    | inl at ↦
        subst (λ (v : Bytes). (m : Msg) × (P.marshal m ≡ ok v))
          (eq_of_some (rw (at, find) at found)) h.0
    | inr other ↦ find-Readable c id b log h.1 (rw (other, find) at found)
  ]

  -- The message that a subscription makes of an item of a feed.
  message-posted :
      (log : List Posted) (uri k v id : Bytes) (opts : StreamOpts)
      → Readable log
      → k ≡ entry_key (channel_of B P H uri) id
      → find (H.sum256 uri) id log ≡ some v
      → (m : Msg) × (message B P opts k v ≡ ok m)
  unfolding message
  message-posted log uri k v id opts h at found = elim (Bool-cases (keys_only opts)) [
    | inl ids ↦ (
      record empty_msg {
        entry_header = some (record empty_header { entry_id = some (fit 30 id) });
      },
      rw (ids, message)
          (ap id_msg (
            ap entry_id_from_key at
            ∙ entry_id_from_key-entry_key (channel_of B P H uri) id
                (new_channel-HasPrefixes (H.sum256 uri)))),
    )
    | inr entries ↦
        let (m, packed) = find-Readable (H.sum256 uri) id v log h found in
        (wire m, rw (entries, message) (P.unmarshal-marshal m v packed))
  ]

  -- Every entry of a feed can be published.
  posted-Messages :
      (log : List Posted) (uri : Bytes) (opts : StreamOpts) (items : Dict Bytes Bytes)
      → Readable log
      → Posteds B P H log uri items
      → (ms : List Msg) × Messages B P opts items ms
  posted-Messages log uri opts [] h p = ([], nil)
  posted-Messages log uri opts ((k, v) ∷ items) h ((id, at, found), p) =
      let (m, made) = message-posted log uri k v id opts h at found in
      let (ms, rest) = posted-Messages log uri opts items h p in (m ∷ ms, cons made rest)

  pub skip_seen-All :
      (Q : Bytes × Bytes → Type 0) (s : Slice) (items : Dict Bytes Bytes)
      → All Q items
      → All Q (skip_seen s items)
  skip_seen-All Q s [] h = tt
  skip_seen-All Q s ((k, v) ∷ items) h = elim (Bool-cases (k == bytes_of s)) [
    | inl e ↦ rw e h.1
    | inr e ↦ rw e h
  ]

  -- On a snapshot of a store that holds a log of messages, a subscription that starts at the
  -- beginning of its feed or behind it, with its count within its limit and that within a uint64,
  -- publishes the feed: from its key on, the entries that the log has of this feed, all of them,
  -- each once and in the order of their keys, without the one that it saw last, up to its limit;
  -- no entry ends it.
  pub published-IsFeed :
      (log : List Posted) (d : B.Db) (uri : Bytes) (r : Reader)
      → Represents B P H log d
      → Readable log
      → r.phase ≡ opening
      → r.count ≤ r.max
      → r.max ≤ tail
      → let c = channel_of B P H uri in
        bytes_ltb (seek_from c.prefix (bytes_of r.key)) c.prefix ≡ false
        → let items = own_items B P c r.key d in
          IsFeed B P H log uri (seek_from c.prefix (bytes_of r.key)) items
          × ((ms : List Msg) × Messages B P r.opts (skip_seen r.last_seen items) ms
              × Drained
                  (record r { dirty = false })
                  (skip_seen r.last_seen items)
                  ms
                  (run B P c r (snapshot d ∷ replicate (suc (length items)) idle)))
  published-IsFeed log d uri r rep h at_start le small starts =
      let c : Channel = channel_of B P H uri in
      let f = own_items-IsFeed B P H log d uri r.key rep starts in
      let (ms, made) =
        posted-Messages log uri r.opts (skip_seen r.last_seen (own_items B P c r.key d)) h
          (skip_seen-All _ r.last_seen (own_items B P c r.key d) f.posted) in
      (f, (ms, made, quiet_snapshot-Drained B P c r d ms at_start le small made))

  Does-Readable :
      (log now : List Posted) (l : Label) → Readable log → Does P H log l now → Readable now
  unfolding Readable
  Does-Readable log now l h stays = h
  Does-Readable log now l h (posts q id bytes has packs absent) =
      All-append_one _ log _ h (q.entry, packs)
  Does-Readable log now l h (refuses q e) = h
  Does-Readable log now l h (breaks q) = h
  Does-Readable log now l h (reads uri id) = h

  pub Runs-Readable :
      (log now : List Posted) (ls : List Label) → Readable log → Runs P H log ls now → Readable now
  Runs-Readable log now ls h Runs.done = h
  Runs-Readable log now ls h (Runs.later before last) =
      Does-Readable _ now _ (Runs-Readable log _ _ h before) last
