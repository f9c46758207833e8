-- ===== src/Log/Feeds/Standing.antt =====
-- Where a subscription stands in its feed, between two snapshots.
use plan_vault_libp2p.Prelude.{
  ◌≡◌, refl, sym, ap, subst, ◌∙◌, inl, inr, List, [], ◌∷◌, none, some, true, false, Bytes, Slice,
  bytes_of, Dict, Bytes_eq, ◌==◌, length, has_prefix, bytes_ltb, Bool-cases, arith,
}
use plan_vault_libp2p.Prelude.ByteStrings.{bytes_beq_iff, bytes_ltb_irrefl}
use plan_vault_libp2p.Prelude.Maps.{eq_self}
use plan_vault_libp2p.Interfaces.{Badger, Proto, Hash, seek_from}
use plan_vault_libp2p.Store.Channel.{Channel}
use plan_vault_libp2p.Store.Keys.{entry_key}
use plan_vault_libp2p.Store.Keys.Layout.{new_channel-HasPrefixes, fit}
use plan_vault_libp2p.Store.Keys.Order.{prefix_separates, bytes_ltb-entry_key}
use plan_vault_libp2p.Store.Entries.Appends.{length-entry_key}
use plan_vault_libp2p.Store.Reading.Items.{
  seek_items-IsRising, Starts, Starts-seek_items, has_prefix-not_below, not_both_below,
}
use plan_vault_libp2p.Store.Reading.Chains.{AboveLast, last_of, skip_seen-IsAbove}
use plan_vault_libp2p.Store.Reading.Drain.{last_or, skip_seen}
use plan_vault_libp2p.Store.Reading.Snapshots.{own_items}
use plan_vault_libp2p.Log.{Posted, find}
use plan_vault_libp2p.Log.Writers.{channel_of}
use plan_vault_libp2p.Log.Feeds.{Posteds}

module _ (B : Badger) (P : Proto) (H : Hash) where
  -- Every entry that the feed has gained has an ID above those it had.
  unfoldable pub Later : Bytes → List Posted → List Posted → Type 0
  Later uri log now =
      (i j a b : Bytes)
      → find (H.sum256 uri) i log ≡ some a
      → find (H.sum256 uri) j log ≡ none
      → find (H.sum256 uri) j now ≡ some b
      → bytes_ltb (fit 30 i) (fit 30 j) ≡ true

  -- What the next snapshot needs of the place at which the subscription stands.
  pub record Stands (log now : List Posted) (uri : Bytes) (last key seen : Slice) (d : B.Db)
      : Type 0 where
    pub starts :
        bytes_ltb
          (seek_from (channel_of B P H uri).prefix (bytes_of key))
          (channel_of B P H uri).prefix
        ≡ false
    pub above : AboveLast last (skip_seen seen (own_items B P (channel_of B P H uri) key d))
    pub reaches :
        (id b : Bytes)
        → find (H.sum256 uri) id log ≡ none
        → find (H.sum256 uri) id now ≡ some b
        → (bytes_ltb
              (entry_key (channel_of B P H uri) id)
              (seek_from (channel_of B P H uri).prefix (bytes_of key))
            ≡ false)
          × ((entry_key (channel_of B P H uri) id == bytes_of seen) ≡ false)

  pub own_prefix :
      (uri id : Bytes)
      → has_prefix (channel_of B P H uri).prefix (entry_key (channel_of B P H uri) id) ≡ true
  own_prefix uri id =
      (prefix_separates (H.sum256 uri) (H.sum256 uri) 0 id (H.length-sum256 uri)
        (H.length-sum256 uri)).0
      ∙ eq_self (H.sum256 uri)

  pub not_empty : (c : Channel) (id : Bytes) → (entry_key c id == []) ≡ false
  not_empty c id = elim (Bool-cases (entry_key c id == [])) [
    | inr e ↦ e
    | inl e ↦
        absurd (
          omega (arith, length-entry_key c id, ap length ((bytes_beq_iff (entry_key c id) []).0 e)))
  ]

  seek_from-entry_key :
      (p : Bytes) (c : Channel) (id k : Bytes) → k ≡ entry_key c id → seek_from p k ≡ k
  seek_from-entry_key p c id [] e = absurd (omega (arith, length-entry_key c id, ap length e))
  seek_from-entry_key p c id (b ∷ k) e = refl

  Stands-nil :
      (log now : List Posted) (uri : Bytes) (d : B.Db) → Stands log now uri none (some []) none d
  Stands-nil log now uri d = record {
    starts = bytes_ltb_irrefl (channel_of B P H uri).prefix;
    above = tt;
    reaches = λ id b _ _. (
      has_prefix-not_below (channel_of B P H uri).prefix (entry_key (channel_of B P H uri) id)
          (own_prefix uri id),
      not_empty (channel_of B P H uri) id,
    );
  }

  beq-above : (a b : Bytes) → bytes_ltb a b ≡ true → (b == a) ≡ false
  beq-above a b h = elim (Bool-cases (b == a)) [
    | inr e ↦ e
    | inl e ↦ absurd (cc (h, ap (bytes_ltb a) ((bytes_beq_iff b a).0 e), bytes_ltb_irrefl a))
  ]

  Stands-at :
      (log now : List Posted) (uri l i a : Bytes) (d : B.Db)
      → Later uri log now
      → l ≡ entry_key (channel_of B P H uri) i
      → find (H.sum256 uri) i log ≡ some a
      → Stands log now uri (some l) (some l) (some l) d
  unfolding Later
  Stands-at log now uri l i a d later at found =
      let c : Channel = channel_of B P H uri in
      let from : seek_from c.prefix l ≡ l = seek_from-entry_key c.prefix c i l at in
      let beyond : (id b : Bytes)
          → find (H.sum256 uri) id log ≡ none
          → find (H.sum256 uri) id now ≡ some b
          → bytes_ltb l (entry_key c id) ≡ true =
        λ id b missing there.
          ap (λ (k : Bytes). bytes_ltb k (entry_key c id)) at
          ∙ bytes_ltb-entry_key c i id (new_channel-HasPrefixes (H.sum256 uri))
          ∙ later i id a b found missing there in
      record {
        starts =
            ap (λ (f : Bytes). bytes_ltb f c.prefix) from
            ∙ has_prefix-not_below c.prefix l (ap (has_prefix c.prefix) at ∙ own_prefix uri i);
        above =
            skip_seen-IsAbove l (own_items B P c (some l) d)
              (seek_items-IsRising c.prefix l (B.items d) (B.items-IsRising d))
              (subst (λ (f : Bytes). Starts f (own_items B P c (some l) d)) from
                (Starts-seek_items c.prefix l (B.items d)));
        reaches = λ id b missing there. (
          ap (λ (f : Bytes). bytes_ltb (entry_key c id) f) from
              ∙ not_both_below (entry_key c id) l (beyond id b missing there),
          beq-above l (entry_key c id) (beyond id b missing there),
        );
      }

  -- Behind the items that were published.
  pub Stands-last :
      (log now : List Posted) (uri : Bytes) (items : Dict Bytes Bytes) (d : B.Db)
      → Later uri log now
      → Posteds B P H log uri items
      → Stands log now uri (last_or none items) (last_or (some []) items) (last_or none items) d
  Stands-last log now uri [] d later h = Stands-nil log now uri d
  Stands-last log now uri ((k, v) ∷ items) d later h =
      let (it, last, (i, at, found)) = last_of _ k v items h in
      subst (λ (s : Slice). Stands log now uri s s s d) (sym last)
        (Stands-at log now uri it.0 i it.1 d later at found)
