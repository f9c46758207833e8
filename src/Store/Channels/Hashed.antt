-- ===== src/Store/Channels/Hashed.antt =====
-- The ids of the channels of a store: every caller of Store.Channel passes the hash of a feed's
-- URI, as ChannelURItoChannelID of helpers/func.go makes it.
use plan_vault_libp2p.Prelude.{
  ◌≡◌, sym, subst, ◌∙◌, inl, inr, some, Bytes, Bytes_eq, ◌==◌, lookup, Bool-cases,
}
use plan_vault_libp2p.Prelude.ByteStrings.{bytes_beq_iff}
use plan_vault_libp2p.Prelude.Maps.{lookup-insert}
use plan_vault_libp2p.Interfaces.{Badger, Hash}
use plan_vault_libp2p.Store.Channel.{Channel}
use plan_vault_libp2p.Store.Channels.{Store, channel, put_channel}
use plan_vault_libp2p.Store.Channels.Registry.{IsRegistry, IsMade, channel-Gives, insert-IsMade}

module _ (B : Badger) (H : Hash) where
  -- An id that stands for a feed.
  abbrev pub Hashed : Bytes → Type 0
  Hashed id = (uri : Bytes) × (id ≡ H.sum256 uri)

  -- A channel that was made for a feed.
  abbrev pub OfFeed : Channel → Type 0
  OfFeed c = (uri : Bytes) × IsMade (H.sum256 uri) c

  pub record IsStore (s : Store B) : Type 0 where
    pub registry : IsRegistry B s
    pub hashed : (id : Bytes) (c : Channel) → lookup id s.channels ≡ some c → Hashed id

  pub with_db-IsStore : (s : Store B) (db : B.Db) → IsStore s → IsStore (record s { db = db })
  with_db-IsStore s db w = record {
    registry = record { made = w.registry.made };
    hashed = w.hashed;
  }

  pub channel-IsStore :
      (id : Bytes) (s : Store B) → Hashed id → IsStore s → IsStore (channel B id s).0
  channel-IsStore id s of w =
      let gives = channel-Gives B id s w.registry in
      record {
        registry = gives.registry;
        hashed = λ j c found. elim (Bool-cases (id == j)) [
          | inl same ↦ subst Hashed ((bytes_beq_iff id j).0 same) of
          | inr apart ↦
              w.hashed j c
                (sym (gives.others j (λ e. cc (apart, (bytes_beq_iff id j).1 e))) ∙ found)
        ];
      }

  pub put_channel-IsStore :
      (id : Bytes) (c : Channel) (s : Store B)
      → IsMade id c
      → Hashed id
      → IsStore s
      → IsStore (put_channel B c s)
  unfolding put_channel
  put_channel-IsStore id c s m of w =
      let own = subst (λ (i : Bytes). IsMade i c) (sym m.at_id) m in
      record {
        registry = record { made = insert-IsMade B s c.id c own w.registry };
        hashed = λ j d found. elim (Bool-cases (c.id == j)) [
          | inl same ↦ subst Hashed (sym m.at_id ∙ (bytes_beq_iff c.id j).0 same) of
          | inr apart ↦ w.hashed j d (rw (lookup-insert c.id j c s.channels, apart) at found)
        ];
      }

  pub OfFeed-Hashed : (c : Channel) → OfFeed c → Hashed c.id
  OfFeed-Hashed c (uri, m) = (uri, m.at_id)

  -- A channel that the store has.
  pub registered-OfFeed :
      (s : Store B) (id : Bytes) (c : Channel)
      → IsStore s
      → lookup id s.channels ≡ some c
      → OfFeed c
  registered-OfFeed s id c w found =
      let (uri, e) = w.hashed id c found in
      (uri, subst (λ (i : Bytes). IsMade i c) e (w.registry.made id c found))
