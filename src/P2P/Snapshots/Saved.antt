-- ===== src/P2P/Snapshots/Saved.antt =====
-- The snapshot that was written is the one that is read.
use plan_vault_libp2p.Prelude.{
  ◌≡◌, ◌≢◌, refl, ap, ◌∙◌, some, Bytes, Bytes_eq, Result, ok, err, panics, true,
}
use plan_vault_libp2p.Protos.{PubsubState, empty_msg}
use plan_vault_libp2p.Interfaces.Network.{Libraries, wire_state}
use plan_vault_libp2p.Store.Entries
use plan_vault_libp2p.Store.Entries.{rename_missing}
use plan_vault_libp2p.Store.Entries.Reads.{get-upsert}
use plan_vault_libp2p.P2P.{Host}
use plan_vault_libp2p.P2P.Peers.{bytes_of-wire_slice}
use plan_vault_libp2p.P2P.Snapshots.{
  snapshot_key, take_snapshot, written, put_snapshot, write_snapshot, write_taken, snapshot,
  read_state, read_snapshot,
}

module _ (X : Libraries) where
  abbrev pub stored : Host X → Bytes → Result Bytes
  stored h = Entries.value X.badger X.proto h.store.db

  written-db :
      (h h' : Host X) (p : X.badger.Db × Result (Unit {0}))
      → written X h p ≡ (h', ok tt)
      → p ≡ (h'.store.db, ok tt)
  unfolding written
  written-db h h' (db, r) e = ap (λ (q : Host X × Result (Unit {0})). (q.0.store.db, q.1)) e

  put_snapshot-db :
      (h h' : Host X) (r : Result Bytes)
      → put_snapshot X h r ≡ (h', ok tt)
      → (body : Bytes) × (r ≡ ok body)
        × (Entries.upsert X.badger X.proto snapshot_key
              (record empty_msg { body = some body })
              h.store.db
              h.store.db
            ≡ (h'.store.db, ok tt))
  unfolding put_snapshot
  put_snapshot-db h h' (ok body) e = (body, refl, written-db h h' _ e)
  put_snapshot-db h h' (err x) e = cc
  put_snapshot-db h h' panics e = cc

  write_taken-ok :
      (h h' : Host X) (r : Result PubsubState)
      → write_taken X h r ≡ (h', ok tt)
      → (s : PubsubState) × (r ≡ ok s) × (write_snapshot X h s ≡ (h', ok tt))
  unfolding write_taken
  write_taken-ok h h' (ok s) e = (s, refl, e)
  write_taken-ok h h' (err x) e = cc
  write_taken-ok h h' panics e = cc

  -- When a dirty host takes its snapshot without an error, then readSnapshot gives the host's
  -- handlers and peers as they are read from the wire, and every key but that of the snapshot has
  -- the value that it had.
  pub read_snapshot-snapshot :
      (h h' : Host X)
      → snapshot X true h ≡ (h', ok tt)
      → (s : PubsubState) × (take_snapshot X h ≡ ok s)
        × (read_snapshot X h' ≡ ok (wire_state s))
        × ((j : Bytes) → snapshot_key ≢ j → stored h' j ≡ stored h j)
  unfolding snapshot write_snapshot read_snapshot read_state
  read_snapshot-snapshot h h' e =
      let (s, taken, wrote) = write_taken-ok h h' (take_snapshot X h) e in
      let (body, packed, up) = put_snapshot-db h h' (X.state_proto.marshal_state s) wrote in
      let (reads, others) =
        get-upsert X.badger X.proto snapshot_key (record empty_msg { body = some body }) h.store.db
          h.store.db h'.store.db up in
      (
        s,
        taken,
        ap (read_state X) reads
            ∙ ap X.state_proto.unmarshal_state (bytes_of-wire_slice body)
            ∙ X.state_proto.unmarshal-marshal_state s body packed,
        others,
      )
