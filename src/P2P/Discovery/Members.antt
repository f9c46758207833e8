-- ===== src/P2P/Discovery/Members.antt =====
-- What the entries of the discovery channel do to the keyring.
use plan_vault_libp2p.Prelude.{
  ◌≡◌, ◌≢◌, refl, sym, ap, subst, ◌∙◌, Slice, some, Bytes, bytes_of, Bytes_eq, Result, ok, err,
  panics, >>=-eq-ok, ok-injective, ◌⊎◌,
}
use plan_vault_libp2p.Protos.{Msg, Peer, PeerUpdateOp}
use plan_vault_libp2p.Interfaces.Network.{Libraries, AddrInfo}
use plan_vault_libp2p.Keyring.{
  decode_entry, add_member_key, member_id_from_string, member_public_key_from_bytes,
}
use plan_vault_libp2p.Store.Keys.Layout.{fit}
use plan_vault_libp2p.Keyring.Knows.{
  Knows, add_member_key-Knows, add_member_key-Knows_other, member_public_key_from_bytes-fit,
}
use plan_vault_libp2p.P2P.{Host}
use plan_vault_libp2p.P2P.Peers.{decode_peer_addr, decode_addrs}
use plan_vault_libp2p.P2P.Discovery.{add_peer, upsert_decoded, handle_discovery_upsert}

module _ (X : Libraries) where
  -- What a handled upsert of `p` leaves.
  pub record Learns (p : Peer) (h h' : Host X) : Type 0 where
    pub uri : h'.discovery_uri ≡ h.discovery_uri
    pub named :
        Knows h.discovery_uri
          (member_id_from_string p.id)
          (some (fit 32 (bytes_of p.key)))
          h'.key_ring
    pub keeps :
        (i : Bytes) (k : Slice)
        → member_id_from_string p.id ≢ i
        → Knows h.discovery_uri i k h.key_ring
        → Knows h.discovery_uri i k h'.key_ring

  decode_peer_addr-id :
      (p : Peer) (info : AddrInfo X.network.Multiaddr)
      → decode_peer_addr X p ≡ ok info
      → info.id ≡ p.id
  unfolding decode_peer_addr
  decode_peer_addr-id p info e =
      let (addrs, decoded, last) = >>=-eq-ok (decode_addrs X p.multiaddrs) _ e in
      sym (ap (λ (i : AddrInfo X.network.Multiaddr). i.id) (ok-injective last))

  add_peer-Learns :
      (p : Peer) (info : AddrInfo X.network.Multiaddr) (h h' : Host X)
      (r : X.network.Net × Result (Unit {0}))
      → info.id ≡ p.id
      → add_peer X p info h r ≡ (h', ok tt)
      → Learns p h h'
  unfolding add_peer
  add_peer-Learns p info h h' (net, ok _) same e =
      let key = member_public_key_from_bytes (bytes_of p.key) in
      let id = member_id_from_string in
      subst (λ (q : Host X × Result (Unit {0})). Learns p h q.0) e
        (record {
          uri = refl;
          named =
              subst
                (λ (i : Bytes).
                  Knows h.discovery_uri (id i) (some (fit 32 (bytes_of p.key)))
                    (add_member_key h.discovery_uri (id info.id) key h.key_ring))
                same
                (subst
                  (λ (k : Slice).
                    Knows h.discovery_uri (id info.id) k
                      (add_member_key h.discovery_uri (id info.id) key h.key_ring))
                  (member_public_key_from_bytes-fit (bytes_of p.key))
                  (add_member_key-Knows h.key_ring h.discovery_uri (id info.id) key));
          keeps = λ i k apart.
              add_member_key-Knows_other h.key_ring h.discovery_uri (id info.id) i key k
                (λ e'. apart (ap id (sym same) ∙ e'));
        })
  add_peer-Learns p info h h' (net, err x) same e = cc
  add_peer-Learns p info h h' (net, panics) same e = cc

  upsert_decoded-Learns :
      (p : Peer) (h h' : Host X) (r : Result (AddrInfo X.network.Multiaddr))
      → decode_peer_addr X p ≡ r
      → upsert_decoded X p h r ≡ (h', ok tt)
      → Learns p h h'
  unfolding upsert_decoded
  upsert_decoded-Learns p h h' (ok info) decoded e =
      add_peer-Learns p info h h' (X.network.connect info h.net)
        (decode_peer_addr-id p info decoded) e
  upsert_decoded-Learns p h h' (err x) decoded e = cc
  upsert_decoded-Learns p h h' panics decoded e = cc

  pub handle_discovery_upsert-Learns :
      (p : Peer) (h h' : Host X) → handle_discovery_upsert X h p ≡ (h', ok tt) → Learns p h h'
  unfolding handle_discovery_upsert
  handle_discovery_upsert-Learns p h h' e = upsert_decoded-Learns p h h' _ refl e

  -- What the body of a decoded entry is, when it is an update `p` that puts its key in the ring.
  pub record Admitted (entry : Msg) (h h' : Host X) : Type 0 where
    pub body : Bytes
    pub decoded : decode_entry X.crypto entry h.key_ring ≡ ok body
    pub peer : Peer
    pub unmarshalled : X.state_proto.unmarshal_peer body ≡ ok peer
    pub upserts : peer.op ≡ PeerUpdateOp.upsert
    pub ring :
        h'.key_ring
        ≡ add_member_key h.discovery_uri
            (member_id_from_string peer.id)
            (member_public_key_from_bytes (bytes_of peer.key))
            h.key_ring

  -- The ring is the old one, or that with the key of `p`.
  abbrev AddsOnly : Peer → Host X → Host X × Result (Unit {0}) → Type 0
  AddsOnly p h q =
      (q.0.store ≡ h.store)
      × ((q.0.key_ring ≡ h.key_ring)
          ⊎ ((q.1 ≡ ok tt)
              × (q.0.key_ring
                  ≡ add_member_key h.discovery_uri (member_id_from_string p.id)
                      (member_public_key_from_bytes (bytes_of p.key)) h.key_ring)))

  -- How the switch on the operation changes a host.
  abbrev Updates : Peer → Host X → Host X × Result (Unit {0}) → Type 0
  Updates p h q =
      (q.0.store ≡ h.store)
      × ((q.0.key_ring ≡ h.key_ring)
          ⊎ ((p.op ≡ PeerUpdateOp.upsert)
              × (q.1 ≡ ok tt)
              × (q.0.key_ring
                  ≡ add_member_key h.discovery_uri (member_id_from_string p.id)
                      (member_public_key_from_bytes (bytes_of p.key)) h.key_ring)))
