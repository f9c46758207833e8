-- ===== src/Log/Feeds.antt =====
-- What a subscription reads of a store that holds a log.
pub mod Published
pub mod Standing
pub mod Rounds
pub mod Live
use plan_vault_libp2p.Prelude.{
  ℕ, suc, ◌≤◌, ◌≡◌, refl, sym, ap, subst, ◌∙◌, inl, inr, List, [], ◌∷◌, ◌++◌, Option, none, some,
  Bool, true, false, Bytes, Slice, bytes_of, Dict, Bytes_eq, ◌==◌, Result, ok, err, panics,
  ok-injective, eq_of_some, lookup, length, replicate, All, All-map, All-append_one, has_prefix,
  bytes_ltb, Bool-cases, if◌then◌else◌, arith,
}
use plan_vault_libp2p.Prelude.ByteStrings.{bytes_beq_iff, bytes_beq}
use plan_vault_libp2p.Prelude.Maps.{eq_self}
use plan_vault_libp2p.Protos.{Msg, empty_msg, empty_header}
use plan_vault_libp2p.Interfaces.{Badger, Proto, Hash, IsRising, seek_from, seek_items, wire}
use plan_vault_libp2p.Store.Channel.{Channel, new_channel}
use plan_vault_libp2p.Store.Options.{StreamOpts, keys_only, tail}
use plan_vault_libp2p.Store.Keys.{entry_key, arrival_key, entry_id_from_key}
use plan_vault_libp2p.Store.Keys.Layout.{new_channel-HasPrefixes, fit}
use plan_vault_libp2p.Store.Keys.Order.{prefix_separates}
use plan_vault_libp2p.Store.Keys.Roundtrip.{entry_id_from_key-entry_key}
use plan_vault_libp2p.Store.Entries.{value}
use plan_vault_libp2p.Store.Reading.{opening, Reader, snapshot, idle, run, message, id_msg}
use plan_vault_libp2p.Store.Reading.Items.{
  lookup_self, lookup-seek_items, All-seek_items, seek_items-IsRising,
}
use plan_vault_libp2p.Store.Reading.Drain.{Messages, nil, cons, Drained, skip_seen}
use plan_vault_libp2p.Store.Reading.Snapshots.{own_items, quiet_snapshot-Drained}
use plan_vault_libp2p.P2P.Snapshots.{snapshot_key}
use plan_vault_libp2p.Log.{
  Posted, is_at, find, Label, Does, stays, posts, refuses, breaks, reads, Runs,
}
use plan_vault_libp2p.Log.Places.{IsPlace, at_snapshot, at_entry, at_arrival, or_missing}
use plan_vault_libp2p.Log.Writers.{channel_of}
use plan_vault_libp2p.Log.Refinement.{Represents}

has_prefix-length : (p k : Bytes) → has_prefix p k ≡ true → length p ≤ length k
has_prefix-length [] k h = omega arith
has_prefix-length (x ∷ p) [] h = cc
has_prefix-length (x ∷ p) (y ∷ k) h = ground (arith, has_prefix-length p k)

or_missing-ok : (o : Option Bytes) (v : Bytes) → or_missing o ≡ ok v → o ≡ some v
or_missing-ok none v h = cc
or_missing-ok (some w) v h = ap some (ok-injective h)

module _ (B : Badger) (P : Proto) (H : Hash) where
  -- The items are those of the feed's entries in the log: each is one of them, the keys rise, and
  -- none whose key is not below `from` is missing.
  pub record IsFeed (log : List Posted) (uri from : Bytes) (items : Dict Bytes Bytes) : Type 0 where
    pub rising : IsRising items
    pub posted :
        All
          (λ (it : Bytes × Bytes).
            (id : Bytes) × (it.0 ≡ entry_key (channel_of B P H uri) id)
            × (find (H.sum256 uri) id log ≡ some it.1))
          items
    pub whole :
        (id b : Bytes)
        → find (H.sum256 uri) id log ≡ some b
        → bytes_ltb (entry_key (channel_of B P H uri) id) from ≡ false
        → lookup (entry_key (channel_of B P H uri) id) items ≡ some b

  -- A key with the prefix of a feed is that of an entry.
  own_place :
      (log : List Posted) (d : B.Db) (uri k v : Bytes)
      → Represents B P H log d
      → has_prefix (channel_of B P H uri).prefix k ≡ true
      → value B P d k ≡ ok v
      → IsPlace H k
      → (id : Bytes) × (k ≡ entry_key (channel_of B P H uri) id)
        × (find (H.sum256 uri) id log ≡ some v)
  own_place log d uri k v rep own there (at_snapshot e) = absurd (
      omega (
        arith,
        has_prefix-length (channel_of B P H uri).prefix k own,
        (new_channel-HasPrefixes (H.sum256 uri)).entries,
        ap length e,
      ))
  own_place log d uri k v rep own there (at_entry uri' id e) =
      let i : Bytes = H.sum256 uri in
      let j : Bytes = H.sum256 uri' in
      let separates = prefix_separates i j 0 id (H.length-sum256 uri) (H.length-sum256 uri') in
      let same : i ≡ j =
        (bytes_beq_iff i j).0 (sym separates.0 ∙ ap (has_prefix (new_channel i).prefix) e ∙ own) in
      let at : k ≡ entry_key (new_channel i) id =
        sym e ∙ ap (λ (h : Bytes). entry_key (new_channel h) id) (sym same) in
      (id, at, or_missing-ok _ v (sym (rep.holds uri id) ∙ ap (value B P d) (sym at) ∙ there))
  own_place log d uri k v rep own there (at_arrival uri' id unix e) =
      let i : Bytes = H.sum256 uri in
      let j : Bytes = H.sum256 uri' in
      let separates = prefix_separates i j unix id (H.length-sum256 uri) (H.length-sum256 uri') in
      absurd (cc (separates.1, ap (has_prefix (new_channel i).prefix) e, own))

  pub own_items-IsFeed :
      (log : List Posted) (d : B.Db) (uri : Bytes) (key : Slice)
      → Represents B P H log d
      → let c = channel_of B P H uri in
        bytes_ltb (seek_from c.prefix (bytes_of key)) c.prefix ≡ false
        → IsFeed log uri (seek_from c.prefix (bytes_of key)) (own_items B P c key d)
  own_items-IsFeed log d uri key rep starts =
      let c : Channel = channel_of B P H uri in
      record {
        rising = seek_items-IsRising c.prefix (bytes_of key) (B.items d) (B.items-IsRising d);
        posted =
            All-map _ _
              (λ (it : Bytes × Bytes)
                  (h : (has_prefix c.prefix it.0 ≡ true) × (lookup it.0 (B.items d) ≡ some it.1)).
                let there = B.items-get d it.0 it.1 h.1 in
                own_place log d uri it.0 it.1 rep h.0 there (rep.placed it.0 it.1 there))
              (own_items B P c key d)
              (All-seek_items c.prefix (bytes_of key)
                (λ (it : Bytes × Bytes). lookup it.0 (B.items d) ≡ some it.1) (B.items d)
                (lookup_self (B.items d) (B.items-IsRising d)));
        whole = λ id b posted reached.
            lookup-seek_items c.prefix (bytes_of key) (entry_key c id) b (B.items d)
              (B.items-IsRising d) starts
              ((prefix_separates (H.sum256 uri) (H.sum256 uri) 0 id (H.length-sum256 uri)
                  (H.length-sum256 uri)).0
                ∙ eq_self (H.sum256 uri))
              reached (B.get-items d (entry_key c id) b (rep.holds uri id ∙ ap or_missing posted));
      }

  abbrev pub Posteds : List Posted → Bytes → Dict Bytes Bytes → Type 0
  Posteds log uri items =
      All
        (λ (it : Bytes × Bytes).
          (id : Bytes) × (it.0 ≡ entry_key (channel_of B P H uri) id)
          × (find (H.sum256 uri) id log ≡ some it.1))
        items
