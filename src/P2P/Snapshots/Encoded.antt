-- ===== src/P2P/Snapshots/Encoded.antt =====
-- The peers of a snapshot, against the peerstore that they are taken from.
use plan_vault_libp2p.Prelude.{
  ◌≡◌, refl, sym, ap, subst, List, [], ◌∷◌, map, Bytes, bytes_of, Bytes_eq, ok, >>=-eq-ok,
  ok-injective, All, All-map, ◌↔◌,
}
use plan_vault_libp2p.Protos.{Peer}
use mathlib.Core.List.{Memᴰ}
use plan_vault_libp2p.Interfaces.Network.{Libraries, wire_peer}
use plan_vault_libp2p.P2P.Peers.{encode_peer, bytes_of-wire_slice}
use plan_vault_libp2p.P2P.Snapshots.{encode_peers}

module _ (X : Libraries) where
  -- The encoded peers have the ids of the peerstore, in its order.
  pub encode_peers-All :
      (P : Bytes → Type 0) (net : X.network.Net) (ids : List Bytes) (ps : List Peer)
      → encode_peers X net ids ≡ ok ps
      → All (λ (p : Peer). P p.id) (map wire_peer ps) ↔ All P ids
  unfolding encode_peers encode_peer
  encode_peers-All P net [] ps e =
      subst (λ (rs : List Peer). All (λ (p : Peer). P p.id) (map wire_peer rs) ↔ Unit {0})
        (ok-injective e) ((λ all. tt), λ all. tt)
  encode_peers-All P net (id ∷ ids) ps e =
      let (p, one, k) =
        >>=-eq-ok (encode_peer X id (X.network.pub_key net id) (X.network.addrs net id)) _ e in
      let (b, key, made) =
        >>=-eq-ok (X.network.marshal_public_key (X.network.pub_key net id)) _ one in
      let (qs, more, last) = >>=-eq-ok (encode_peers X net ids) _ k in
      let is : id ≡ p.id = ap (λ (p : Peer). p.id) (ok-injective made) in
      let rest = encode_peers-All P net ids qs more in
      subst (λ (rs : List Peer). All (λ (p : Peer). P p.id) (map wire_peer rs) ↔ (P id × All P ids))
        (ok-injective last)
        (
          (λ (all : P p.id × All (λ (p : Peer). P p.id) (map wire_peer qs)).
              (subst P (sym is) all.0, rest.0 all.1)),
          λ (all : P id × All P ids). (subst P is all.0, rest.1 all.1),
        )

  -- Each of them is a peer of the peerstore with its marshalled key.
  abbrev pub IsEncoded : X.network.Net → List Bytes → Peer → Type 0
  IsEncoded net ids p =
      Memᴰ p.id ids
      × (b : Bytes) × (X.network.marshal_public_key (X.network.pub_key net p.id) ≡ ok b)
      × (bytes_of p.key ≡ b)

  pub encode_peers-IsEncoded :
      (net : X.network.Net) (ids : List Bytes) (ps : List Peer)
      → encode_peers X net ids ≡ ok ps
      → All (IsEncoded net ids) (map wire_peer ps)
  unfolding encode_peers encode_peer
  encode_peers-IsEncoded net [] ps e =
      subst (λ (rs : List Peer). All (IsEncoded net []) (map wire_peer rs)) (ok-injective e) tt
  encode_peers-IsEncoded net (id ∷ ids) ps e =
      let (p, one, k) =
        >>=-eq-ok (encode_peer X id (X.network.pub_key net id) (X.network.addrs net id)) _ e in
      let (b, key, made) =
        >>=-eq-ok (X.network.marshal_public_key (X.network.pub_key net id)) _ one in
      let (qs, more, last) = >>=-eq-ok (encode_peers X net ids) _ k in
      subst (λ (rs : List Peer). All (IsEncoded net (id ∷ ids)) (map wire_peer rs))
        (ok-injective last)
        (
          subst (λ (r : Peer). IsEncoded net (id ∷ ids) (wire_peer r)) (ok-injective made)
              (Memᴰ.head refl, b, key, bytes_of-wire_slice b),
          All-map (IsEncoded net ids) (IsEncoded net (id ∷ ids))
              (λ (r : Peer) (is : IsEncoded net ids r).
                let (at, b, made, same) = is in (Memᴰ.tail at, b, made, same))
              (map wire_peer qs) (encode_peers-IsEncoded net ids qs more),
        )
