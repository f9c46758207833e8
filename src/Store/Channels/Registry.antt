-- ===== src/Store/Channels/Registry.antt =====
-- The registry of channels.
use mathlib.Core.Path.{subst₂}
use plan_vault_libp2p.Prelude.{
  ◌≡◌, ◌≢◌, refl, sym, ap, ◌∙◌, [], ◌∷◌, ◌++◌, none, some, Bytes, Bytes_eq, ◌==◌, subst, lookup,
  insert, if◌then◌else◌, Option-cases, eq_of_some, Bool-cases, inl, inr,
}
use plan_vault_libp2p.Prelude.ByteStrings.{bytes_beq_iff}
use plan_vault_libp2p.Prelude.Maps.{lookup-insert, lookup-insert_self, lookup-insert_other}
use plan_vault_libp2p.Interfaces.{Badger}
use plan_vault_libp2p.Store.Channel.{Channel, make_prefix, new_channel}
use plan_vault_libp2p.Store.Channels.{Store, channel, register}

-- What Store.Channel sets up and no other operation changes.
pub record IsMade (id : Bytes) (c : Channel) : Type 0 where
  pub at_id : c.id ≡ id
  pub no_uri : c.uri ≡ []
  pub entries : c.prefix ≡ make_prefix id 1
  pub arrival : c.index_prefix ≡ make_prefix id 2

pub new_channel-IsMade : (id : Bytes) → IsMade id (new_channel id)
unfolding new_channel
new_channel-IsMade id = record { at_id = refl; no_uri = refl; entries = refl; arrival = refl }

module _ (B : Badger) where
  -- Every channel of the store was made for the id at which it is registered.
  pub record IsRegistry (s : Store B) : Type 0 where
    pub made : (id : Bytes) (c : Channel) → lookup id s.channels ≡ some c → IsMade id c

  pub insert-IsMade :
      (s : Store B) (i : Bytes) (n : Channel)
      → IsMade i n
      → IsRegistry s
      → (id : Bytes) (c : Channel) → lookup id (insert i n s.channels) ≡ some c
      → IsMade id c
  insert-IsMade s i n new_made r id c h = elim (Bool-cases (i == id)) [
    | inl same ↦
        let found : some n ≡ some c = rw (lookup-insert i id n s.channels, same) at h in
        subst₂ IsMade ((bytes_beq_iff i id).0 same) (eq_of_some found) new_made
    | inr other ↦ r.made id c (rw (lookup-insert i id n s.channels, other) at h)
  ]

  -- What a call of Store.Channel for an id leaves and returns.
  pub record Gives (id : Bytes) (s t : Store B) (c : Channel) : Type 0 where
    pub registry : IsRegistry t
    pub made : IsMade id c
    pub registered : lookup id t.channels ≡ some c
    pub others : (j : Bytes) → id ≢ j → lookup j t.channels ≡ lookup j s.channels
    pub same_db : t.db ≡ s.db
    pub old :
        (b : Channel)
        → lookup id s.channels ≡ some b
        → (c ≡ b) × (t.announced ≡ s.announced) × (t.watched ≡ s.watched)
    pub fresh :
        lookup id s.channels ≡ none
        → (t.announced ≡ (if s.has_update_ch then s.announced ++ id ∷ [] else s.announced))
          × (t.watched ≡ s.watched ++ make_prefix id 1 ∷ [])

  pub channel-old :
      (id : Bytes) (s : Store B) (c : Channel)
      → lookup id s.channels ≡ some c
      → channel B id s ≡ (s, c)
  unfolding channel
  channel-old id s c e = rw (e, channel) refl

  pub channel-new :
      (id : Bytes) (s : Store B)
      → lookup id s.channels ≡ none
      → channel B id s ≡ (register B id s, new_channel id)
  unfolding channel
  channel-new id s e = rw (e, channel) refl

  register-Gives :
      (id : Bytes) (s : Store B)
      → IsRegistry s
      → lookup id s.channels ≡ none
      → Gives id s (register B id s) (new_channel id)
  unfolding register
  register-Gives id s r e = record {
    registry = record { made = insert-IsMade s id (new_channel id) (new_channel-IsMade id) r };
    made = new_channel-IsMade id;
    registered = lookup-insert_self id (new_channel id) s.channels;
    others = λ j apart. lookup-insert_other id j (new_channel id) s.channels apart;
    same_db = refl;
    old = λ b e'. absurd (cc (e, e'));
    fresh = λ _. (refl, ap (λ (p : Bytes). s.watched ++ p ∷ []) (new_channel-IsMade id).entries);
  }

  -- On a store whose registry is well-formed, Store.Channel gives out a channel made for the id,
  -- keeps the registry, registers the channel and leaves every other one alone. If there was one,
  -- it returns that one and causes nothing; if not, it announces the new one once, given an update
  -- channel, and has its prefix watched once.
  pub channel-Gives :
      (id : Bytes) (s : Store B) → IsRegistry s → Gives id s (channel B id s).0 (channel B id s).1
  channel-Gives id s r = elim (Option-cases (lookup id s.channels)) [
    | inr (c, e) ↦
        subst (λ (p : Store B × Channel). Gives id s p.0 p.1) (sym (channel-old id s c e))
          (record {
            registry = r;
            made = r.made id c e;
            registered = e;
            others = λ j _. refl;
            same_db = refl;
            old = λ b e'. (eq_of_some (sym e ∙ e'), refl, refl);
            fresh = λ e'. absurd (cc (e, e'));
          })
    | inl e ↦
        subst (λ (p : Store B × Channel). Gives id s p.0 p.1) (sym (channel-new id s e))
          (register-Gives id s r e)
  ]

  -- Asked again for an id, a store whose registry is well-formed gives out the same channel and
  -- stays as it is.
  channel-channel :
      (id : Bytes) (s : Store B) → IsRegistry s → channel B id (channel B id s).0 ≡ channel B id s
  channel-channel id s r =
      channel-old id (channel B id s).0 (channel B id s).1 (channel-Gives id s r).registered
