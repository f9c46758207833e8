-- ===== src/Store/Entries/Made.antt =====
-- Append on a channel of the store, and on the channel that is made for its id.
use plan_vault_libp2p.Prelude.{ℕ, ◌≡◌, sym, ap₂, ◌∙◌, Option, Bytes}
use plan_vault_libp2p.Protos.{Msg}
use plan_vault_libp2p.Interfaces.{Badger, Proto}
use plan_vault_libp2p.Store.Channel.{Channel, new_channel}
use plan_vault_libp2p.Store.Channels.Registry.{IsMade, new_channel-IsMade}
use plan_vault_libp2p.Store.Keys.{entry_key, arrival_key}
use plan_vault_libp2p.Store.Entries

module _ (B : Badger) (P : Proto) where
  -- Append uses nothing of its channel but the two prefixes.
  append_prefixes :
      (c d : Channel) (unix : ℕ) (entry : Option Msg) (from now : B.Db)
      → c.prefix ≡ d.prefix
      → c.index_prefix ≡ d.index_prefix
      → Entries.append B P c unix entry from now ≡ Entries.append B P d unix entry from now
  unfolding Entries.append Entries.append_steps entry_key arrival_key
  append_prefixes c d unix entry from now p i =
      ap₂
        (λ (q : Bytes) (j : Bytes).
          Entries.append B P (record c { prefix = q; index_prefix = j }) unix entry from now)
        p i

  pub append_made :
      (id : Bytes) (c : Channel) (unix : ℕ) (entry : Option Msg) (from now : B.Db)
      → IsMade id c
      → Entries.append B P c unix entry from now
        ≡ Entries.append B P (new_channel id) unix entry from now
  append_made id c unix entry from now m =
      let n = new_channel-IsMade id in
      append_prefixes c (new_channel id) unix entry from now (m.entries ∙ sym n.entries)
        (m.arrival ∙ sym n.arrival)
