-- ===== src/P2P/Discovery/Announcements.antt =====
-- A member's announcement of a peer, from its encoding to the connection of the receiving host.
use plan_vault_libp2p.Prelude.{
  ◌≡◌, ◌≢◌, refl, sym, ap, subst, ◌∙◌, List, Option, some, Bytes, Slice, bytes_of, Bytes_eq, Result,
  ok, err, panics, ◌>>=◌, >>=-eq-ok, ok-injective, lookup, length,
}
use plan_vault_libp2p.Protos.{Msg, Peer, PeerUpdateOp}
use plan_vault_libp2p.Interfaces.Network.{Libraries, AddrInfo, wire_peer}
use plan_vault_libp2p.Interfaces.{wire_slice}
use plan_vault_libp2p.P2P.Peers.{bytes_of-wire_slice}
use plan_vault_libp2p.Store.Keys.Layout.{fit}
use plan_vault_libp2p.Keyring.Knows.{
  Knows, add_member_key-Knows, add_member_key-Knows_other, member_public_key_from_bytes-fit,
}
use plan_vault_libp2p.Keyring.{
  KeyRing, KeySet, salt_len, encode_entry, keyset, add_member_key, member_id_from_string,
  member_public_key_from_bytes,
}
use plan_vault_libp2p.Keyring.Roundtrip.{decode-encode}
use plan_vault_libp2p.P2P.{Host}
use plan_vault_libp2p.P2P.Peers.{encode_peer, decode_peer_addr, decode_peer_addr-encode_peer}
use plan_vault_libp2p.P2P.Discovery.{
  add_peer, upsert_decoded, handle_discovery_upsert, handle_update, handle_decoded,
  handle_discovery_entry,
}

module _ (X : Libraries) where
  handle_decoded-upsert :
      (h : Host X) (p : Peer)
      → p.op ≡ PeerUpdateOp.upsert
      → handle_decoded X h (ok p) ≡ handle_discovery_upsert X h p
  unfolding handle_decoded handle_update
  handle_decoded-upsert h p is = ap (λ (op : PeerUpdateOp). handle_update X op h p) is

  encode_peer-op :
      (id : Bytes) (pub_key : Option X.keys.PubKey) (addrs : List X.network.Multiaddr) (p : Peer)
      → encode_peer X id pub_key addrs ≡ ok p
      → p.op ≡ PeerUpdateOp.upsert
  unfolding encode_peer
  encode_peer-op id pub_key addrs p h =
      let (b, key, made) = >>=-eq-ok (X.network.marshal_public_key pub_key) _ h in
      sym (ap (λ (q : Peer). q.op) (ok-injective made))

  -- The id and the addresses are sent as they are.
  decode-wire_peer : (p : Peer) → decode_peer_addr X (wire_peer p) ≡ decode_peer_addr X p
  unfolding decode_peer_addr
  decode-wire_peer p = refl

  handle_discovery_upsert-encode_peer :
      (h : Host X) (id : Bytes) (pub_key : Option X.keys.PubKey) (addrs : List X.network.Multiaddr)
      (p : Peer)
      → encode_peer X id pub_key addrs ≡ ok p
      → let info : AddrInfo X.network.Multiaddr = record { id = id; addrs = addrs } in
        handle_discovery_upsert X h (wire_peer p)
        ≡ add_peer X (wire_peer p) info h (X.network.connect info h.net)
  unfolding handle_discovery_upsert upsert_decoded
  handle_discovery_upsert-encode_peer h id pub_key addrs p e =
      ap (upsert_decoded X (wire_peer p) h)
        (decode-wire_peer p ∙ decode_peer_addr-encode_peer X id pub_key addrs p e)

  -- What a host `h` makes of a peer at `info` with this encoded key: `q` is the host afterwards and
  -- the handler's result.
  pub record Connects (info : AddrInfo X.network.Multiaddr) (key : Bytes) (h : Host X)
      (q : Host X × Result (Unit {0})) : Type 0 where
    pub net : q.0.net ≡ (X.network.connect info h.net).0
    pub result : q.1 ≡ (X.network.connect info h.net).1
    pub store : q.0.store ≡ h.store
    pub added :
        q.1 ≡ ok tt
        → Knows h.discovery_uri (member_id_from_string info.id) (some (fit 32 key)) q.0.key_ring
    pub others :
        (i : Bytes) (k : Slice)
        → member_id_from_string info.id ≢ i
        → Knows h.discovery_uri i k h.key_ring
        → Knows h.discovery_uri i k q.0.key_ring
    pub refused : q.1 ≢ ok tt → q.0.key_ring ≡ h.key_ring

  add_peer-Connects :
      (p : Peer) (info : AddrInfo X.network.Multiaddr) (h : Host X)
      (r : X.network.Net × Result (Unit {0}))
      → r ≡ X.network.connect info h.net
      → Connects info (bytes_of p.key) h (add_peer X p info h r)
  unfolding add_peer
  add_peer-Connects p info h (net, ok _) e =
      let key = member_public_key_from_bytes (bytes_of p.key) in
      let id = member_id_from_string info.id in
      record {
        net = ap (λ (r : X.network.Net × Result (Unit {0})). r.0) e;
        result = ap (λ (r : X.network.Net × Result (Unit {0})). r.1) e;
        store = refl;
        added = λ _.
            subst
              (λ (k : Slice).
                Knows h.discovery_uri id k (add_member_key h.discovery_uri id key h.key_ring))
              (member_public_key_from_bytes-fit (bytes_of p.key))
              (add_member_key-Knows h.key_ring h.discovery_uri id key);
        others = λ i k. add_member_key-Knows_other h.key_ring h.discovery_uri id i key k;
        refused = λ not_ok. absurd (not_ok refl);
      }
  add_peer-Connects p info h (net, err x) e = record {
    net = ap (λ (r : X.network.Net × Result (Unit {0})). r.0) e;
    result = ap (λ (r : X.network.Net × Result (Unit {0})). r.1) e;
    store = refl;
    added = λ done. cc done;
    others = λ i k apart has. has;
    refused = λ _. refl;
  }
  add_peer-Connects p info h (net, panics) e = record {
    net = ap (λ (r : X.network.Net × Result (Unit {0})). r.0) e;
    result = ap (λ (r : X.network.Net × Result (Unit {0})). r.1) e;
    store = refl;
    added = λ done. cc done;
    others = λ i k apart has. has;
    refused = λ _. refl;
  }

  -- The bytes that are announced as the key.
  encode_peer-key :
      (id : Bytes) (pub_key : Option X.keys.PubKey) (addrs : List X.network.Multiaddr) (p : Peer)
      → encode_peer X id pub_key addrs ≡ ok p
      → (b : Bytes) × (X.network.marshal_public_key pub_key ≡ ok b)
        × (bytes_of (wire_peer p).key ≡ b)
  unfolding encode_peer
  encode_peer-key id pub_key addrs p h =
      let (b, key, made) = >>=-eq-ok (X.network.marshal_public_key pub_key) _ h in
      (
        b,
        key,
        ap (λ (q : Peer). bytes_of (wire_slice q.key)) (sym (ok-injective made))
            ∙ bytes_of-wire_slice b,
      )

  -- When a member encodes a peer with its addresses, and the marshalled update as an entry of a
  -- channel, then a host whose ring has the community's key and the member's public key for the
  -- channel handles the entry by connecting to that peer at those addresses, in their order, with
  -- the result of the connection, and leaves its store as it is. If it has connected, then its ring
  -- has for that peer, in the discovery channel, the first thirty-two bytes of the encoding of the
  -- peer's public key by MarshalPublicKey, padded with zeros; and it keeps every other member's key
  -- there. If not, the ring stays as it is.
  pub handle_announcement :
      (h : Host X) (sender : KeyRing X.keys.PrivKey) (mine theirs : KeySet) (id : Bytes)
      (pub_key : Option X.keys.PubKey) (addrs : List X.network.Multiaddr) (p : Peer)
      (uri key private public salt new_id body : Bytes)
      → encode_peer X id pub_key addrs ≡ ok p
      → X.state_proto.marshal_peer p ≡ ok body
      → keyset uri sender ≡ some mine
      → keyset uri h.key_ring ≡ some theirs
      → mine.community_key ≡ some key
      → theirs.community_key ≡ some key
      → mine.private_key ≡ some private
      → lookup mine.member_id theirs.member_keys ≡ some (some public)
      → X.crypto.IsPair public private
      → length mine.member_id ≡ 20
      → length salt ≡ salt_len
      → (entry : Msg) × (encoded : Bytes) × (encode_entry X.crypto (ok salt) new_id body uri sender
          ≡ ok entry)
        × (X.network.marshal_public_key pub_key ≡ ok encoded)
        × Connects (record { id = id; addrs = addrs }) encoded h (handle_discovery_entry X h entry)
  unfolding handle_discovery_entry
  handle_announcement h sender mine theirs id pub_key addrs p uri key private public salt new_id
        body made packed m t k k' s l pair len len' =
      let info : AddrInfo X.network.Multiaddr = record { id = id; addrs = addrs } in
      let (entry, sent, decoded) =
        decode-encode X.crypto sender h.key_ring mine theirs uri key private public salt new_id body
          m t k k' s l pair len len' in
      let (b, marshalled, is) = encode_peer-key id pub_key addrs p made in
      let handled : handle_discovery_entry X h entry
          ≡ add_peer X (wire_peer p) info h (X.network.connect info h.net) =
        ap
          (λ (r : Result Bytes).
            handle_decoded X h (r >>= λ (b : Bytes). X.state_proto.unmarshal_peer b))
          decoded
        ∙ ap (handle_decoded X h) (X.state_proto.unmarshal-marshal_peer p body packed)
        ∙ handle_decoded-upsert h (wire_peer p) (encode_peer-op id pub_key addrs p made)
        ∙ handle_discovery_upsert-encode_peer h id pub_key addrs p made in
      (
        entry,
        b,
        sent,
        marshalled,
        subst (λ (q : Host X × Result (Unit {0})). Connects info b h q) (sym handled)
            (subst
              (λ (c : Bytes).
                Connects info c h (add_peer X (wire_peer p) info h (X.network.connect info h.net)))
              is (add_peer-Connects (wire_peer p) info h (X.network.connect info h.net) refl)),
      )
