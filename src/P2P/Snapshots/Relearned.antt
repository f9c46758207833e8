-- ===== src/P2P/Snapshots/Relearned.antt =====
-- Which keys a ring has after the peers of a snapshot were restored into it.
use plan_vault_libp2p.Prelude.{
  ◌≡◌, ◌≢◌, refl, sym, ap, subst, ◌∙◌, List, [], ◌∷◌, Option, none, some, Bytes, bytes_of, Bytes_eq,
  Result, ok, err, panics, All, All-map, ◌⊎◌, inl, inr, ◌==◌, Bool-cases, Slice,
}
use plan_vault_libp2p.Protos.{Peer, PubsubState}
use mathlib.Core.List.{Memᴰ}
use plan_vault_libp2p.Prelude.ByteStrings.{bytes_beq_iff}
use plan_vault_libp2p.Store.Keys.Layout.{fit}
use plan_vault_libp2p.Interfaces.Network.{Libraries}
use plan_vault_libp2p.Keyring.{KeyRing, member_id_from_string}
use plan_vault_libp2p.Keyring.Knows.{Knows}
use plan_vault_libp2p.P2P.{Host, TopicHandler}
use plan_vault_libp2p.P2P.Discovery.{handle_discovery_upsert}
use plan_vault_libp2p.P2P.Discovery.Members.{Learns, handle_discovery_upsert-Learns}
use plan_vault_libp2p.P2P.Snapshots.{restore_peers, restore_from}

module _ (X : Libraries) where
  restore_peers-done :
      (ps : List Peer) (q : Host X × Result (Unit {0})) (h' : Host X)
      → restore_peers X ps q ≡ (h', ok tt)
      → q ≡ (q.0, ok tt)
  unfolding restore_peers
  restore_peers-done ps (h, ok _) h' e = refl
  restore_peers-done [] (h, err x) h' e = cc
  restore_peers-done (p ∷ ps) (h, err x) h' e = cc
  restore_peers-done [] (h, panics) h' e = cc
  restore_peers-done (p ∷ ps) (h, panics) h' e = cc

  -- The ring has, for the member, the key of a peer of the list with the member's id.
  abbrev pub IsNamed : Bytes → List Peer → KeyRing X.keys.PrivKey → Bytes → Type 0
  IsNamed uri ps ring i =
      (p : Peer) × Memᴰ p ps
      × (member_id_from_string p.id ≡ i)
      × Knows uri i (some (fit 32 (bytes_of p.key))) ring

  abbrev pub Apart : Bytes → List Peer → Type 0
  Apart i ps = All (λ (p : Peer). member_id_from_string p.id ≢ i) ps

  -- So for every peer of the list, and whoever is not on it has the key from before.
  abbrev pub KnowsAll : List Peer → Host X → Host X → Type 0
  KnowsAll ps h h' =
      All (λ (p : Peer). IsNamed h.discovery_uri ps h'.key_ring (member_id_from_string p.id)) ps
      × ((i : Bytes) (k : Slice)
          → Apart i ps
          → Knows h.discovery_uri i k h.key_ring
          → Knows h.discovery_uri i k h'.key_ring)

  find_member :
      (i : Bytes) (ps : List Peer)
      → ((p : Peer) × Memᴰ p ps × (member_id_from_string p.id ≡ i)) ⊎ Apart i ps
  find_member i [] = inr tt
  find_member i (p ∷ ps) = elim (Bool-cases (member_id_from_string p.id == i)) [
    | inl same ↦ inl (p, Memᴰ.head refl, (bytes_beq_iff (member_id_from_string p.id) i).0 same)
    | inr other ↦ elim (find_member i ps) [
      | inl (q, at, is) ↦ inl (q, Memᴰ.tail at, is)
      | inr apart ↦
          inr ((λ e. cc (other, (bytes_beq_iff (member_id_from_string p.id) i).1 e)), apart)
    ]
  ]

  pub All-at : (P : Peer → Type 0) (p : Peer) (ps : List Peer) → Memᴰ p ps → All P ps → P p
  All-at P p [] at all = elim at [ ]
  All-at P p (q ∷ ps) (Memᴰ.head e) all = subst P (sym e) all.0
  All-at P p (q ∷ ps) (Memᴰ.tail at) all = All-at P p ps at all.1

  IsNamed-cons :
      (uri : Bytes) (p : Peer) (ps : List Peer) (ring : KeyRing X.keys.PrivKey) (i : Bytes)
      → IsNamed uri ps ring i
      → IsNamed uri (p ∷ ps) ring i
  IsNamed-cons uri p ps ring i (q, at, is, known) = (q, Memᴰ.tail at, is, known)

  -- The peer at the head, and then the others.
  KnowsAll-cons :
      (p : Peer) (ps : List Peer) (h q h' : Host X)
      → Learns X p h q
      → KnowsAll ps q h'
      → KnowsAll (p ∷ ps) h h'
  KnowsAll-cons p ps h q h' l rest =
      let uri = h.discovery_uri in
      let (later, keeps) =
        subst
          (λ (u : Bytes).
            All (λ (p : Peer). IsNamed u ps h'.key_ring (member_id_from_string p.id)) ps
            × ((i : Bytes) (k : Slice)
                → Apart i ps
                → Knows u i k q.key_ring
                → Knows u i k h'.key_ring))
          l.uri rest in
      let first : IsNamed uri (p ∷ ps) h'.key_ring (member_id_from_string p.id) =
        elim (find_member (member_id_from_string p.id) ps) [
          | inl (r, at, is) ↦ subst (IsNamed uri (p ∷ ps) h'.key_ring) is (
              IsNamed-cons uri p ps h'.key_ring (member_id_from_string r.id) (
                All-at (λ (p : Peer). IsNamed uri ps h'.key_ring (member_id_from_string p.id)) r ps
                  at later))
          | inr apart ↦ (p, Memᴰ.head refl, refl, keeps _ _ apart l.named)
        ] in
      (
        (
          first,
          All-map _ _ (λ (r : Peer). IsNamed-cons uri p ps h'.key_ring (member_id_from_string r.id))
              ps later,
        ),
        λ i k apart has. keeps i k apart.1 (l.keeps i k apart.0 has),
      )

  restore_peers-KnowsAll :
      (ps : List Peer) (h h' : Host X)
      → restore_peers X ps (h, ok tt) ≡ (h', ok tt)
      → KnowsAll ps h h'
  unfolding restore_peers
  restore_peers-KnowsAll [] h h' e =
      subst (λ (q : Host X × Result (Unit {0})). KnowsAll [] h q.0) e (tt, λ i k apart has. has)
  restore_peers-KnowsAll (p ∷ ps) h h' e =
      let q = handle_discovery_upsert X h p in
      let done = restore_peers-done ps q h' e in
      KnowsAll-cons p ps h q.0 h' (handle_discovery_upsert-Learns X p h q.0 done)
        (restore_peers-KnowsAll ps q.0 h' (ap (restore_peers X ps) (sym done) ∙ e))

  pub restore_from-KnowsAll :
      (k k' : Host X) (disc : Option TopicHandler) (snap : PubsubState)
      → restore_from X k disc (ok snap) ≡ (k', ok tt)
      → KnowsAll snap.peers k k'
  unfolding restore_from
  restore_from-KnowsAll k k' (some disc) snap e = restore_peers-KnowsAll snap.peers k k' e
  restore_from-KnowsAll k k' none snap e = cc
