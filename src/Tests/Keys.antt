-- ===== src/Tests/Keys.antt =====
-- Keys, channels and subscribers at concrete values.
use plan_vault_libp2p.Prelude.{
  ◌≡◌, ◌↔◌, inr, arith, bytes_ltb, refl, [], ◌∷◌, Bytes_eq, true, false, lookup, replicate,
  has_prefix,
}
use plan_vault_libp2p.Prelude.ByteStrings.{bytes_beq}
use plan_vault_libp2p.Store.Channel.{new_channel}
use plan_vault_libp2p.Store.Channels.{Store, channel}
use plan_vault_libp2p.Store.Channels.Registry.{IsRegistry, Gives, channel-Gives}
use plan_vault_libp2p.Helpers.{new_entry_id}
use plan_vault_libp2p.Helpers.Order.{later_entry_follows}
use plan_vault_libp2p.Store.Keys.{entry_key, arrival_key}
use plan_vault_libp2p.Store.Keys.Layout.{new_channel-HasPrefixes, fit}
use plan_vault_libp2p.Store.Keys.Order.{prefix_separates}
use plan_vault_libp2p.Store.Keys.Roundtrip.{entry_key-eq_iff}
use plan_vault_libp2p.Memory.Database.{memory}
use plan_vault_libp2p.Tests.{empty_db, channel_1, id_1, id_2}

prefix_separates_example :
    (has_prefix
        (new_channel (replicate 32 1)).prefix
        (entry_key (new_channel (replicate 32 2)) id_1)
      ≡ bytes_beq (replicate 32 1) (replicate 32 2))
    × (has_prefix
          (new_channel (replicate 32 1)).prefix
          (arrival_key (new_channel (replicate 32 2)) 1000 id_1)
        ≡ false)
    × (has_prefix
          (new_channel (replicate 32 1)).index_prefix
          (entry_key (new_channel (replicate 32 2)) id_1)
        ≡ false)
    × (has_prefix
          (new_channel (replicate 32 1)).index_prefix
          (arrival_key (new_channel (replicate 32 2)) 1000 id_1)
        ≡ bytes_beq (replicate 32 1) (replicate 32 2))
prefix_separates_example = prefix_separates (replicate 32 1) (replicate 32 2) 1000 id_1 refl refl

entry_key-eq_iff_example :
    (entry_key channel_1 id_1 ≡ entry_key channel_1 id_2) ↔ (fit 30 id_1 ≡ fit 30 id_2)
entry_key-eq_iff_example = entry_key-eq_iff channel_1 id_1 id_2 (new_channel-HasPrefixes (1 ∷ []))

abbrev empty_store : Store memory
empty_store = record {
  db = empty_db;
  has_update_ch = true;
  channels = [];
  announced = [];
  watched = [];
}

empty_store-IsRegistry : IsRegistry memory empty_store
unfolding lookup
empty_store-IsRegistry = record { made = λ id c h. cc }

channel-Gives_example :
    Gives memory id_1 empty_store
      (channel memory id_1 empty_store).0
      (channel memory id_1 empty_store).1
channel-Gives_example = channel-Gives memory id_1 empty_store empty_store-IsRegistry

-- The same second, 20,000 nanoseconds later.
later_entry_follows_example :
    bytes_ltb
      (entry_key channel_1 (new_entry_id 1000 999970000 (255 ∷ [])))
      (entry_key channel_1 (new_entry_id 1000 999990000 []))
    ≡ true
later_entry_follows_example =
    later_entry_follows channel_1 1000 999970000 1000 999990000 (255 ∷ []) []
      (new_channel-HasPrefixes (1 ∷ [])) (omega arith) (omega arith) (omega arith)
      (inr (refl, omega arith))
