-- ===== src/P2P/Topics/Gossip.antt =====
-- Entries of a feed that come from peers.
use plan_vault_libp2p.Prelude.{
  ℕ, ◌≡◌, refl, sym, ap, ◌∙◌, some, false, Bytes, Bytes_eq, ◌==◌, Result, ok, Bool-cases, inl, inr,
  eq_of_some,
}
use plan_vault_libp2p.Protos.{Msg, get_entry_id}
use plan_vault_libp2p.Interfaces.{wire}
use plan_vault_libp2p.Interfaces.Network.{Libraries}
use plan_vault_libp2p.Store.Keys.{entry_key}
use plan_vault_libp2p.Store.Keys.Layout.{HasPrefixes, fit}
use plan_vault_libp2p.Store.Keys.Roundtrip.{entry_key-eq_iff}
use plan_vault_libp2p.Store.Entries
use plan_vault_libp2p.Store.Entries.Appends.{append-Appended}
use plan_vault_libp2p.Store.Entries.AppendOnly.{get-append, value-Appended}
use plan_vault_libp2p.Store.Entries.Reads.{append_fails}
use plan_vault_libp2p.P2P.{Host, TopicHandler, Acts, feed}
use plan_vault_libp2p.P2P.Topics.{message, receive, decoded, on_receive, dropped, appended}

module _ (X : Libraries) where
  abbrev with_db : Host X → X.badger.Db → Host X
  with_db h db = record h { store = record h.store { db = db } }

  receive_feed :
      (th : TopicHandler) (h : Host X) (sender body : Bytes) (unix : ℕ) (m : Msg)
      → th.acts ≡ feed
      → (sender == h.self) ≡ false
      → X.proto.unmarshal body ≡ ok m
      → receive X th (message sender body unix) h
        ≡ dropped X (
            appended X h
              (Entries.append X.badger X.proto th.channel unix (some m) h.store.db h.store.db))
  unfolding receive decoded on_receive
  receive_feed th h sender body unix m is other decodes =
      rw (other, receive)
        (ap (decoded X th unix h) decodes
          ∙ ap (λ (acts : Acts). dropped X (on_receive X th acts unix m h)) is)

  -- A message with an entry that the store has changes nothing.
  receive_stored :
      (th : TopicHandler) (h : Host X) (sender body id packed v : Bytes) (unix : ℕ) (m : Msg)
      → th.acts ≡ feed
      → X.proto.unmarshal body ≡ ok m
      → get_entry_id m.entry_header ≡ some id
      → X.proto.marshal m ≡ ok packed
      → Entries.value X.badger X.proto h.store.db (entry_key th.channel id) ≡ ok v
      → receive X th (message sender body unix) h ≡ ok h
  unfolding receive appended
  receive_stored th h sender body id packed v unix m is decodes has packs found =
      elim (Bool-cases (sender == h.self)) [
        | inl own ↦ rw (own, receive) refl
        | inr other ↦
            receive_feed th h sender body unix m is other decodes
            ∙ ap (λ (p : X.badger.Db × Result Bytes). dropped X (appended X h p))
                ((append_fails X.badger X.proto th.channel unix (some m) h.store.db h.store.db).2 id
                  packed v has packs found)
      ]

  -- When a feed's handler gets an entry from a peer and its Append succeeds, then the entry can be
  -- read, and of every later message on that topic, from whomever and whenever, that carries an
  -- entry with the same ID, cut or padded to thirty bytes, and whatever else in it, the host stays
  -- as it is.
  first_entry_stays :
      (th : TopicHandler) (h : Host X) (sender body id reply : Bytes) (unix : ℕ) (m : Msg)
      (db : X.badger.Db)
      → HasPrefixes th.channel
      → th.acts ≡ feed
      → (sender == h.self) ≡ false
      → X.proto.unmarshal body ≡ ok m
      → get_entry_id m.entry_header ≡ some id
      → Entries.append X.badger X.proto th.channel unix (some m) h.store.db h.store.db
        ≡ (db, ok reply)
      → (receive X th (message sender body unix) h ≡ ok (with_db h db))
        × (Entries.get X.badger X.proto (entry_key th.channel id) db ≡ ok (wire m))
        × ((peer again j packed : Bytes) (later : ℕ) (n : Msg)
            → X.proto.unmarshal again ≡ ok n
            → get_entry_id n.entry_header ≡ some j
            → fit 30 j ≡ fit 30 id
            → X.proto.marshal n ≡ ok packed
            → receive X th (message peer again later) (with_db h db) ≡ ok (with_db h db))
  unfolding appended
  first_entry_stays th h sender body id reply unix m db p is other decodes has appends =
      let (reads, _, _) =
        get-append X.badger X.proto th.channel unix m id h.store.db h.store.db db reply p has
          appends in
      let a =
        append-Appended X.badger X.proto th.channel unix (some m) h.store.db h.store.db db reply
          appends in
      let same : a.id ≡ id = eq_of_some (sym a.has_id ∙ has) in
      (
        receive_feed th h sender body unix m is other decodes
            ∙ ap (λ (q : X.badger.Db × Result Bytes). dropped X (appended X h q)) appends,
        reads,
        λ peer again j packed later n decodes' has' fits packs.
            receive_stored th (with_db h db) peer again j packed a.bytes later n is decodes' has'
              packs
              (ap (Entries.value X.badger X.proto db)
                  ((entry_key-eq_iff th.channel j a.id p).1 (fits ∙ ap (fit 30) (sym same)))
                ∙ value-Appended X.badger X.proto th.channel unix (some m) h.store.db db reply a),
      )
