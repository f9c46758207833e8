-- ===== src/Keyring/Knows.antt =====
-- The members' keys that a ring holds for a channel.
use plan_vault_libp2p.Prelude.{
  ◌≡◌, ◌≢◌, refl, ap, ◌∙◌, Option, some, Bytes, Slice, Bytes_eq, lookup,
}
use plan_vault_libp2p.Prelude.Maps.{lookup-insert_self, lookup-insert_other}
use plan_vault_libp2p.Store.Keys.Layout.{fit}
use plan_vault_libp2p.Keyring.{
  KeyRing, KeySet, keyset, add_member_key, or_new, set_member_key, member_public_key_from_bytes,
}
use plan_vault_libp2p.Keyring.Members.{keyset-update_keys}

-- For the channel of this URI, the ring holds this key for the member with this id.
pub record Knows {K : Type 0} (uri id : Bytes) (key : Slice) (kr : KeyRing K) : Type 0 where
  pub keys : KeySet
  pub held : keyset uri kr ≡ some keys
  pub named : lookup id keys.member_keys ≡ some key

-- Thirty-two bytes of `b`, from its start, with zeros where it is shorter.
pub member_public_key_from_bytes-fit :
    (b : Bytes) → member_public_key_from_bytes b ≡ some (fit 32 b)
unfolding member_public_key_from_bytes
member_public_key_from_bytes-fit b = refl

module _ {K : Type 0} (kr : KeyRing K) where
  pub add_member_key-Knows :
      (uri id : Bytes) (key : Slice) → Knows uri id key (add_member_key uri id key kr)
  unfolding add_member_key set_member_key
  add_member_key-Knows uri id key = record {
    keys = set_member_key id key (or_new (keyset uri kr));
    held = keyset-update_keys uri (set_member_key id key) kr;
    named = lookup-insert_self id key _;
  }

  -- A key that is added leaves every other member's as it is.
  pub add_member_key-Knows_other :
      (uri id i : Bytes) (key k : Slice)
      → id ≢ i
      → Knows uri i k kr
      → Knows uri i k (add_member_key uri id key kr)
  unfolding add_member_key set_member_key or_new
  add_member_key-Knows_other uri id i key k apart has = record {
    keys = set_member_key id key has.keys;
    held =
        keyset-update_keys uri (set_member_key id key) kr
        ∙ ap (λ (o : Option KeySet). some (set_member_key id key (or_new o))) has.held;
    named = lookup-insert_other id i key has.keys.member_keys apart ∙ has.named;
  }
