-- ===== src/Log/Feeds/Rounds.antt =====
-- One snapshot of a subscription that stays open, and the notification after it.
use plan_vault_libp2p.Prelude.{
  suc, ◌+◌, ◌-◌, take, take_all, length-append, ◌≤◌, ◌<◌, ◌≡◌, refl, sym, ap, ap₂, subst, ◌∙◌, inl,
  inr, List, [], ◌∷◌, ◌++◌, none, some, Bytes, Slice, bytes_of, Dict, Bytes_eq, lookup, length,
  replicate, All-map, Option-cases, arith,
}
use plan_vault_libp2p.Protos.{Msg}
use plan_vault_libp2p.Interfaces.{Badger, Proto, Hash, seek_from}
use plan_vault_libp2p.Store.Channel.{Channel}
use plan_vault_libp2p.Store.Options.{StreamOpts, tail}
use plan_vault_libp2p.Store.Keys.{entry_key}
use plan_vault_libp2p.Store.Keys.Layout.{new_channel-HasPrefixes, fit}
use plan_vault_libp2p.Store.Keys.Roundtrip.{entry_key-eq_iff}
use plan_vault_libp2p.Store.Reading.{opening, Reader, snapshot, notified, idle, run, step}
use plan_vault_libp2p.Store.Reading.Chains.{
  last_or-append, append-IsRising, lookup-append_left, lookup-append_right, All-lookup, All-append,
  skip_seen-IsRising, lookup-skip_seen, append-Messages, length-Messages, length-skip_seen,
}
use plan_vault_libp2p.Store.Reading.Keeps.{Keeps, run-Keeps, NoReset-idles, notified-opens}
use plan_vault_libp2p.Store.Reading.Drain.{Messages, last_or, skip_seen}
use plan_vault_libp2p.Store.Reading.Snapshots.{own_items}
use plan_vault_libp2p.Log.{Posted, find}
use plan_vault_libp2p.Log.Places.{find-same}
use plan_vault_libp2p.Log.Once.{find-append_old}
use plan_vault_libp2p.Log.Writers.{channel_of}
use plan_vault_libp2p.Log.Refinement.{Represents}
use plan_vault_libp2p.Log.Feeds.{IsFeed, Posteds}
use plan_vault_libp2p.Log.Feeds.Published.{Readable, published-IsFeed, skip_seen-All}
use plan_vault_libp2p.Log.Feeds.Standing.{Later, Stands, Stands-last}

module _ (B : Badger) (P : Proto) (H : Hash) where
  -- A subscription that started at the beginning of a feed and has published all of it.
  pub record Watching (log : List Posted) (uri : Bytes) (r : Reader) (items : Dict Bytes Bytes)
      (ms : List Msg) : Type 0 where
    pub whole_feed : IsFeed B P H log uri (channel_of B P H uri).prefix items
    pub made : Messages B P r.opts items ms
    pub published : r.published ≡ ms
    pub counted : r.count ≡ length ms
    pub key : r.key ≡ last_or (some []) items
    pub seen : r.last_seen ≡ last_or none items
    pub opens : r.phase ≡ opening
    pub limit : r.max ≤ tail

  Posteds-grown :
      (log now new : List Posted) (uri : Bytes) (items : Dict Bytes Bytes)
      → now ≡ log ++ new
      → Posteds B P H log uri items
      → Posteds B P H now uri items
  Posteds-grown log now new uri items e h =
      All-map _ _
        (λ (it : Bytes × Bytes)
            (p : (id : Bytes) × (it.0 ≡ entry_key (channel_of B P H uri) id)
              × (find (H.sum256 uri) id log ≡ some it.1)).
          let (id, at, found) = p in
          (
            id,
            at,
            ap (find (H.sum256 uri) id) e ∙ find-append_old (H.sum256 uri) id it.1 log new found,
          ))
        items h

  -- A key of an entry that the log lacks is not among the items of the log.
  absent_key :
      (log : List Posted) (uri id : Bytes) (items : Dict Bytes Bytes)
      → Posteds B P H log uri items
      → find (H.sum256 uri) id log ≡ none
      → lookup (entry_key (channel_of B P H uri) id) items ≡ none
  absent_key log uri id items h missing =
      let c : Channel = channel_of B P H uri in
      elim (Option-cases (lookup (entry_key c id) items)) [
        | inl e ↦ e
        | inr (v, e) ↦
            let (it, at, (j, is, found)) = All-lookup _ (entry_key c id) v items h e in
            let same : fit 30 j ≡ fit 30 id =
              (entry_key-eq_iff c j id (new_channel-HasPrefixes (H.sum256 uri))).0 (sym is ∙ at) in
            absurd (cc (found, find-same (H.sum256 uri) j id log same, missing))
      ]

  gained :
      (log now new : List Posted) (uri : Bytes) (items : Dict Bytes Bytes) (key seen : Slice)
      (d : B.Db)
      → now ≡ log ++ new
      → IsFeed B P H log uri (channel_of B P H uri).prefix items
      → Stands B P H log now uri (last_or none items) key seen d
      → IsFeed B P H now uri
          (seek_from (channel_of B P H uri).prefix (bytes_of key))
          (own_items B P (channel_of B P H uri) key d)
      → IsFeed B P H now uri
          (channel_of B P H uri).prefix
          (items ++ skip_seen seen (own_items B P (channel_of B P H uri) key d))
  gained log now new uri items key seen d grown f st own =
      let c : Channel = channel_of B P H uri in
      let fresh : Dict Bytes Bytes = skip_seen seen (own_items B P c key d) in
      record {
        rising =
            append-IsRising items fresh f.rising st.above
              (skip_seen-IsRising seen (own_items B P c key d) own.rising);
        posted =
            All-append _ items fresh (Posteds-grown log now new uri items grown f.posted)
              (skip_seen-All B P H _ seen (own_items B P c key d) own.posted);
        whole = λ id b there reached. elim (Option-cases (find (H.sum256 uri) id log)) [
          | inr (a, old) ↦
              lookup-append_left (entry_key c id) b items fresh
                (f.whole id b (same_entry log now new uri id a b grown old there) reached)
          | inl missing ↦
              let (from, apart) = st.reaches id b missing there in
              lookup-append_right (entry_key c id) items fresh
                (absent_key log uri id items f.posted missing)
              ∙ lookup-skip_seen seen (entry_key c id) b (own_items B P c key d) apart
                  (own.whole id b there from)
        ];
      }
    where
      same_entry :
          (log now new : List Posted) (uri id a b : Bytes)
          → now ≡ log ++ new
          → find (H.sum256 uri) id log ≡ some a
          → find (H.sum256 uri) id now ≡ some b
          → find (H.sum256 uri) id log ≡ some b
      same_entry log now new uri id a b grown old there =
          old
          ∙ sym
              (ap (find (H.sum256 uri) id) grown ∙ find-append_old (H.sum256 uri) id a log new old)
          ∙ there

  renewed :
      (log now : List Posted) (uri : Bytes) (r q : Reader) (items fresh : Dict Bytes Bytes)
      (ms ns : List Msg)
      → Watching log uri r items ms
      → IsFeed B P H now uri (channel_of B P H uri).prefix (items ++ fresh)
      → Keeps r q
      → Messages B P r.opts fresh ns
      → length ns ≤ r.max - r.count
      → q.published ≡ r.published ++ take (r.max - r.count) ns
      → q.key ≡ last_or r.key fresh
      → q.last_seen ≡ last_or r.last_seen fresh
      → q.count ≡ r.count + length ns
      → Watching now uri (record q { phase = opening }) (items ++ fresh) (ms ++ ns)
  renewed log now uri r q items fresh ms ns w f keeps made fits published key seen counts = record {
    whole_feed = f;
    made =
        subst (λ (o : StreamOpts). Messages B P o (items ++ fresh) (ms ++ ns)) (sym keeps.opts)
          (append-Messages B P r.opts items fresh ms ns w.made made);
    published = published ∙ ap₂ ◌++◌ w.published (take_all (r.max - r.count) ns fits);
    counted = omega (arith, counts, w.counted, length-append ms ns);
    key =
        key
        ∙ ap (λ (k : Slice). last_or k fresh) w.key
        ∙ sym (last_or-append (some []) items fresh);
    seen =
        seen ∙ ap (λ (k : Slice). last_or k fresh) w.seen ∙ sym (last_or-append none items fresh);
    opens = refl;
    limit = omega (arith, keeps.max, w.limit);
  }

  -- The events of a snapshot that is read to its end, and of the notification after it.
  abbrev pub round : Channel → Reader → B.Db → Reader
  round c r d =
      step B P c
        (run B P c r (snapshot d ∷ replicate (suc (length (own_items B P c r.key d))) idle))
        notified

  pub round-Watching :
      (log now new : List Posted) (uri : Bytes) (r : Reader) (items : Dict Bytes Bytes)
      (ms : List Msg) (d : B.Db)
      → Watching log uri r items ms
      → now ≡ log ++ new
      → Later B P H uri log now
      → Represents B P H now d
      → Readable B P H now
      → let c = channel_of B P H uri in
        r.count + length (own_items B P c r.key d) < r.max
        → (fresh : Dict Bytes Bytes) × (ns : List Msg) × Watching now uri
            (round c r d)
            (items ++ fresh)
            (ms ++ ns)
  round-Watching log now new uri r items ms d w grown later rep h room =
      let c : Channel = channel_of B P H uri in
      let own : Dict Bytes Bytes = own_items B P c r.key d in
      let fresh : Dict Bytes Bytes = skip_seen r.last_seen own in
      let st : Stands B P H log now uri (last_or none items) r.key r.last_seen d =
        subst (λ (k : Slice). Stands B P H log now uri (last_or none items) r.key k d) (sym w.seen)
          (subst
            (λ (k : Slice). Stands B P H log now uri (last_or none items) k (last_or none items) d)
            (sym w.key) (Stands-last B P H log now uri items d later w.whole_feed.posted)) in
      let (f, (ns, made, drained)) =
        published-IsFeed B P H now d uri r rep h w.opens (omega (arith, room)) w.limit st.starts in
      let n : length ns ≡ length fresh = length-Messages B P r.opts fresh ns made in
      let short : length fresh ≤ length own = length-skip_seen r.last_seen own in
      let q : Reader = run B P c r (snapshot d ∷ replicate (suc (length own)) idle) in
      let (waits, key, seen, counts) = drained.open_end (omega (arith, n, short, room)) in
      (
        fresh,
        ns,
        subst (λ (t : Reader). Watching now uri t (items ++ fresh) (ms ++ ns))
            (sym (notified-opens B P c q waits))
            (renewed log now uri r q items fresh ms ns w
              (gained log now new uri items r.key r.last_seen d grown w.whole_feed st f)
              (run-Keeps B P c r (snapshot d ∷ replicate (suc (length own)) idle)
                (NoReset-idles B P (suc (length own))))
              made (omega (arith, n, short, room)) drained.published key seen counts),
      )
