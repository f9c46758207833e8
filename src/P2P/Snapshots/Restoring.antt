-- ===== src/P2P/Snapshots/Restoring.antt =====
-- A host that restores a snapshot has the keys of its peers.
use plan_vault_libp2p.Prelude.{
  ◌≡◌, ◌≢◌, sym, ap, subst, ◌∙◌, List, map, some, Bytes, Bytes_eq, Result, ok, ◌>>=◌, >>=-eq-ok,
  ok-injective, All, All-map, lookup, true, Slice,
}
use plan_vault_libp2p.Protos.{Peer, PubsubState}
use mathlib.Core.List.{Memᴰ}
use plan_vault_libp2p.Store.Keys.Layout.{fit}
use plan_vault_libp2p.Interfaces.Network.{Libraries, wire_state, wire_peer}
use plan_vault_libp2p.Store.Entries
use plan_vault_libp2p.Store.Entries.{rename_missing}
use plan_vault_libp2p.Keyring.{KeyRing, member_id_from_string}
use plan_vault_libp2p.Keyring.Knows.{Knows}
use plan_vault_libp2p.P2P.{Host}
use plan_vault_libp2p.P2P.Snapshots.{
  snapshot_key, encode_peers, take_snapshot, snapshot, read_state, read_snapshot, restore_from,
  restore,
}
use plan_vault_libp2p.P2P.Snapshots.Saved.{stored, read_snapshot-snapshot}
use plan_vault_libp2p.P2P.Snapshots.Encoded.{encode_peers-All, IsEncoded, encode_peers-IsEncoded}
use plan_vault_libp2p.P2P.Snapshots.Relearned.{IsNamed, KnowsAll, All-at, restore_from-KnowsAll}

module _ (X : Libraries) where
  get_same :
      (k h' : Host X)
      → stored X k snapshot_key ≡ stored X h' snapshot_key
      → read_snapshot X k ≡ read_snapshot X h'
  unfolding read_snapshot Entries.get
  get_same k h' same =
      ap
        (λ (v : Result Bytes).
          read_state X (rename_missing v >>= λ (b : Bytes). X.proto.unmarshal b))
        same

  -- The ring has the key of a peer of the peerstore with the member's id: the first thirty-two
  -- bytes of its encoding.
  pub record IsKnown (net : X.network.Net) (uri : Bytes) (ring : KeyRing X.keys.PrivKey)
      (member : Bytes) : Type 0 where
    pub peer : Bytes
    pub stored_there : Memᴰ peer (X.network.peers net)
    pub same_member : member_id_from_string peer ≡ member
    pub encoded : Bytes
    pub marshalled : X.network.marshal_public_key (X.network.pub_key net peer) ≡ ok encoded
    pub known : Knows uri member (some (fit 32 encoded)) ring

  IsNamed-IsKnown :
      (net : X.network.Net) (uri : Bytes) (ring : KeyRing X.keys.PrivKey) (ps : List Peer)
      (i : Bytes)
      → encode_peers X net (X.network.peers net) ≡ ok ps
      → IsNamed X uri (map wire_peer ps) ring i
      → IsKnown net uri ring i
  IsNamed-IsKnown net uri ring ps i encoded (p, at, is, known) =
      let (there, b, marshalled, key) =
        All-at X (IsEncoded X net (X.network.peers net)) p (map wire_peer ps) at
          (encode_peers-IsEncoded X net (X.network.peers net) ps encoded) in
      record {
        peer = p.id;
        stored_there = there;
        same_member = is;
        encoded = b;
        marshalled = marshalled;
        known = subst (λ (c : Bytes). Knows uri i (some (fit 32 c)) ring) key known;
      }

  -- When a dirty host has written its snapshot, and a host starts later on a database that still
  -- has the value of the snapshot's key, and restores it without an error, then its ring has, for
  -- the discovery channel and the member id of every peer that was in the peerstore of the first
  -- one, a key: the first thirty-two bytes, padded with zeros, of the encoding by MarshalPublicKey
  -- of that peer's public key, or of that of a peer with the same twenty bytes of member id. And
  -- every other member has the key that it had in the ring before.
  pub peers_survive :
      (h h' k k' : Host X)
      → snapshot X true h ≡ (h', ok tt)
      → stored X k snapshot_key ≡ stored X h' snapshot_key
      → restore X k ≡ (k', ok tt)
      → All
          (λ (id : Bytes). IsKnown h.net k.discovery_uri k'.key_ring (member_id_from_string id))
          (X.network.peers h.net)
        × ((i : Bytes) (key : Slice)
            → All (λ (id : Bytes). member_id_from_string id ≢ i) (X.network.peers h.net)
            → Knows k.discovery_uri i key k.key_ring
            → Knows k.discovery_uri i key k'.key_ring)
  unfolding restore read_snapshot take_snapshot
  peers_survive h h' k k' snap same back =
      let (s, taken, reads, others) = read_snapshot-snapshot X h h' snap in
      let reads_too : read_snapshot X k ≡ ok (wire_state s) = get_same k h' same ∙ reads in
      let (ps, encoded, made) = >>=-eq-ok (encode_peers X h.net (X.network.peers h.net)) _ taken in
      let known =
        restore_from-KnowsAll X k k' (lookup k.discovery_uri k.handlers) (wire_state s)
          (ap (restore_from X k (lookup k.discovery_uri k.handlers)) (sym reads_too) ∙ back) in
      let (all, keeps) =
        subst (λ (t : PubsubState). KnowsAll X (map wire_peer t.peers) k k')
          (sym (ok-injective made)) known in
      let IsThere : Bytes → Type 0 =
        λ (id : Bytes). IsKnown h.net k.discovery_uri k'.key_ring (member_id_from_string id) in
      (
        (encode_peers-All X IsThere h.net (X.network.peers h.net) ps encoded).0 (
            All-map _ (λ (p : Peer). IsThere p.id)
              (λ (p : Peer).
                IsNamed-IsKnown h.net k.discovery_uri k'.key_ring ps (member_id_from_string p.id)
                  encoded)
              (map wire_peer ps) all),
        λ i key apart. keeps i key (
            (encode_peers-All X (λ (id : Bytes). member_id_from_string id ≢ i) h.net
                (X.network.peers h.net) ps encoded).1
              apart),
      )
