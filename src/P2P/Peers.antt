-- ===== src/P2P/Peers.antt =====
-- encodePeer and decodePeerAddr of p2p/host.go.
use plan_vault_libp2p.Prelude.{
  ◌≡◌, refl, List, [], ◌∷◌, map, Option, some, Bytes, bytes_of, Result, ok, ◌>>=◌, >>=-eq-ok,
  ok-injective, subst,
}
use plan_vault_libp2p.Protos.{Peer, PeerUpdateOp}
use plan_vault_libp2p.Interfaces.{wire_slice}
use plan_vault_libp2p.Interfaces.Network.{Libraries, AddrInfo}

pub bytes_of-wire_slice : (b : Bytes) → bytes_of (wire_slice (some b)) ≡ b
bytes_of-wire_slice [] = refl
bytes_of-wire_slice (x ∷ xs) = refl

module _ (X : Libraries) where
  unfoldable pub encode_peer : Bytes → Option X.keys.PubKey → List X.network.Multiaddr → Result Peer
  encode_peer id key addrs = do
    b ← X.network.marshal_public_key key
    ok (record {
      op = PeerUpdateOp.upsert;
      id = id;
      key = some b;
      multiaddrs = map X.network.multiaddr_bytes addrs;
    })

  -- The loop over the encoded addresses.
  unfoldable pub decode_addrs : List Bytes → Result (List X.network.Multiaddr)
  decode_addrs [] = ok []
  decode_addrs (b ∷ bs) = do m ← X.network.new_multiaddr_bytes b; ms ← decode_addrs bs; ok (m ∷ ms)

  unfoldable pub decode_peer_addr : Peer → Result (AddrInfo X.network.Multiaddr)
  unfolding decode_addrs
  decode_peer_addr p = do
    addrs ← decode_addrs p.multiaddrs
    ok (record { id = p.id; addrs = addrs })

  decode_addrs-map :
      (addrs : List X.network.Multiaddr)
      → decode_addrs (map X.network.multiaddr_bytes addrs) ≡ ok addrs
  unfolding decode_addrs
  decode_addrs-map [] = refl
  decode_addrs-map (m ∷ ms) =
      rw (X.network.new_multiaddr_bytes-multiaddr_bytes m) (rw (decode_addrs-map ms) refl)

  -- Whoever can be encoded as a peer is decoded with the same id and the same addresses in order.
  pub decode_peer_addr-encode_peer :
      (id : Bytes) (key : Option X.keys.PubKey) (addrs : List X.network.Multiaddr) (p : Peer)
      → encode_peer id key addrs ≡ ok p
      → decode_peer_addr p ≡ ok (record { id = id; addrs = addrs })
  unfolding encode_peer decode_peer_addr
  decode_peer_addr-encode_peer id key addrs p h =
      let (b, marshalled, made) = >>=-eq-ok (X.network.marshal_public_key key) _ h in
      subst (λ (q : Peer). decode_peer_addr q ≡ ok (record { id = id; addrs = addrs }))
        (ok-injective made) (rw (decode_addrs-map addrs) refl)
