-- ===== src/P2P/Discovery.antt =====
-- handleDiscoveryEntry and handleDiscoveryUpsert of p2p/discovery_channel.go.
pub mod Announcements
pub mod Members
use plan_vault_libp2p.Prelude.{
  List, [], ◌∷◌, Bytes, Slice, bytes_of, Result, ok, err, panics, ◌>>=◌, ◌>>◌,
}
use plan_vault_libp2p.Prelude.Errors.{unsupported_update}
use plan_vault_libp2p.Protos.{Msg, Peer, PeerUpdateOp}
use plan_vault_libp2p.Interfaces.Network.{Libraries, AddrInfo}
use plan_vault_libp2p.Keyring.{
  add_member_key, decode_entry, member_id_from_string, member_public_key_from_bytes,
}
use plan_vault_libp2p.P2P.{Host}
use plan_vault_libp2p.P2P.Peers.{decode_peer_addr}

module _ (X : Libraries) where
  -- Once the peer is connected its key goes into the ring.
  unfoldable pub add_peer :
      Peer
      → AddrInfo X.network.Multiaddr
      → Host X
      → X.network.Net × Result (Unit {0})
      → Host X × Result (Unit {0})
  add_peer update info h (net, ok _) = (
    record h {
      net = net;
      key_ring =
          add_member_key h.discovery_uri (member_id_from_string info.id)
            (member_public_key_from_bytes (bytes_of update.key)) h.key_ring;
    },
    ok tt,
  )
  add_peer update info h (net, err e) = (record h { net = net }, err e)
  add_peer update info h (net, panics) = (record h { net = net }, panics)

  unfoldable pub upsert_decoded :
      Peer → Host X → Result (AddrInfo X.network.Multiaddr) → Host X × Result (Unit {0})
  unfolding add_peer
  upsert_decoded update h (ok info) = add_peer update info h (X.network.connect info h.net)
  upsert_decoded update h (err e) = (h, err e)
  upsert_decoded update h panics = (h, panics)

  unfoldable pub handle_discovery_upsert : Host X → Peer → Host X × Result (Unit {0})
  unfolding upsert_decoded
  handle_discovery_upsert h update = upsert_decoded update h (decode_peer_addr X update)

  -- The switch on the operation.
  unfoldable pub handle_update : PeerUpdateOp → Host X → Peer → Host X × Result (Unit {0})
  unfolding handle_discovery_upsert
  handle_update PeerUpdateOp.upsert h update = handle_discovery_upsert h update
  handle_update PeerUpdateOp.remove_permanently h update = (h, do decode_peer_addr X update; ok tt)
  handle_update _ h update = (h, err unsupported_update)

  unfoldable pub handle_decoded : Host X → Result Peer → Host X × Result (Unit {0})
  unfolding handle_update
  handle_decoded h (ok update) = handle_update update.op h update
  handle_decoded h (err e) = (h, err e)
  handle_decoded h panics = (h, panics)

  unfoldable pub handle_discovery_entry : Host X → Msg → Host X × Result (Unit {0})
  unfolding handle_decoded
  handle_discovery_entry h entry =
      handle_decoded h
        (do body ← decode_entry X.crypto entry h.key_ring; X.state_proto.unmarshal_peer body)
