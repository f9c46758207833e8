-- ===== src/P2P/Snapshots.antt =====
-- The snapshot of the host's topics and peers, kept in the store: snapshot, takeSnapshot,
-- writeSnapshot, restore and readSnapshot of p2p/host.go. The order in which Go passes over a map
-- is that of the association list.
pub mod Saved
pub mod Encoded
pub mod Relearned
pub mod Restoring
use plan_vault_libp2p.Prelude.{
  ℕ, List, [], ◌∷◌, map, Option, none, some, Bool, true, false, Bytes, bytes_of, Bytes_eq, Dict,
  Result, ok, err, panics, ◌>>=◌, lookup,
}
use plan_vault_libp2p.Prelude.Errors.{key_not_found, no_discovery_channel}
use plan_vault_libp2p.Protos.{Msg, Peer, TopicPointer, PubsubState, empty_msg}
use plan_vault_libp2p.Interfaces.Network.{Libraries}
use plan_vault_libp2p.Store.Entries
use plan_vault_libp2p.P2P.{Host, TopicHandler}
use plan_vault_libp2p.P2P.Peers.{encode_peer}
use plan_vault_libp2p.P2P.Discovery.{handle_discovery_upsert}

abbrev pub snapshot_key : Bytes
snapshot_key = 0x51 ∷ 0x90 ∷ []

abbrev empty_state : PubsubState
empty_state = record { topics = []; peers = [] }

abbrev topic_pointer : Bytes × TopicHandler → TopicPointer
topic_pointer p = record { id = p.0; last_entry_published = p.1.last_entry_id }

module _ (X : Libraries) where
  -- The loop over the peers of the peerstore.
  unfoldable pub encode_peers : X.network.Net → List Bytes → Result (List Peer)
  encode_peers net [] = ok []
  encode_peers net (id ∷ ids) = do
    p ← encode_peer X id (X.network.pub_key net id) (X.network.addrs net id)
    ps ← encode_peers net ids
    ok (p ∷ ps)

  unfoldable pub take_snapshot : Host X → Result PubsubState
  unfolding encode_peers
  take_snapshot h = do
    ps ← encode_peers h.net (X.network.peers h.net)
    ok (record { topics = map topic_pointer h.handlers; peers = ps })

  unfoldable pub written : Host X → X.badger.Db × Result (Unit {0}) → Host X × Result (Unit {0})
  written h (db, r) = (record h { store = record h.store { db = db } }, r)

  -- Upsert of the marshalled state.
  unfoldable pub put_snapshot : Host X → Result Bytes → Host X × Result (Unit {0})
  unfolding written
  put_snapshot h (ok body) = written h (
      Entries.upsert X.badger X.proto snapshot_key (record empty_msg { body = some body })
        h.store.db h.store.db)
  put_snapshot h (err e) = (h, err e)
  put_snapshot h panics = (h, panics)

  unfoldable pub write_snapshot : Host X → PubsubState → Host X × Result (Unit {0})
  unfolding put_snapshot
  write_snapshot h snap = put_snapshot h (X.state_proto.marshal_state snap)

  unfoldable pub write_taken : Host X → Result PubsubState → Host X × Result (Unit {0})
  unfolding write_snapshot
  write_taken h (ok snap) = write_snapshot h snap
  write_taken h (err e) = (h, err e)
  write_taken h panics = (h, panics)

  unfoldable pub snapshot : Bool → Host X → Host X × Result (Unit {0})
  unfolding take_snapshot write_taken
  snapshot false h = (h, ok tt)
  snapshot true h = write_taken h (take_snapshot h)

  -- A missing snapshot is an empty one.
  unfoldable pub read_state : Result Msg → Result PubsubState
  read_state (ok entry) = X.state_proto.unmarshal_state (bytes_of entry.body)
  read_state (err key_not_found) = ok empty_state
  read_state (err e) = err e
  read_state panics = panics

  unfoldable pub read_snapshot : Host X → Result PubsubState
  unfolding read_state
  read_snapshot h = read_state (Entries.get X.badger X.proto snapshot_key h.store.db)

  -- The loop over the peers of the snapshot: the first error ends it.
  unfoldable pub restore_peers : List Peer → Host X × Result (Unit {0}) → Host X × Result (Unit {0})
  restore_peers [] (h, r) = (h, r)
  restore_peers (p ∷ ps) (h, ok _) = restore_peers ps (handle_discovery_upsert X h p)
  restore_peers (p ∷ ps) (h, err e) = (h, err e)
  restore_peers (p ∷ ps) (h, panics) = (h, panics)

  unfoldable pub restore_from :
      Host X → Option TopicHandler → Result PubsubState → Host X × Result (Unit {0})
  unfolding restore_peers
  restore_from h (some disc) (ok snap) = restore_peers snap.peers (h, ok tt)
  restore_from h none (ok snap) = (h, err no_discovery_channel)
  restore_from h disc (err e) = (h, err e)
  restore_from h disc panics = (h, panics)

  unfoldable pub restore : Host X → Host X × Result (Unit {0})
  unfolding restore_from read_snapshot
  restore h = restore_from h (lookup h.discovery_uri h.handlers) (read_snapshot h)
