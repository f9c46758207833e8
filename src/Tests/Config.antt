-- ===== src/Tests/Config.antt =====
-- A configuration without a file, and the parts that it starts.
use plan_vault_libp2p.Prelude.{
  ◌≡◌, ◌≢◌, ◌↔◌, ◌⊎◌, refl, List, [], ◌∷◌, ◌++◌, none, some, true, false, Bytes, lookup, insert,
  Bytes_eq, ℕ_eq, ◌==◌, if◌then◌else◌, Result, ok, err,
}
use plan_vault_libp2p.Prelude.Errors.{not_exist}
use plan_vault_libp2p.Store.Channel.{new_channel}
use plan_vault_libp2p.Store.Channels
use plan_vault_libp2p.Store.Channels.{Store, channel, put_channel, subscribe}
use plan_vault_libp2p.Store.Entries.{get}
use plan_vault_libp2p.P2P.Run
use plan_vault_libp2p.P2P.Topics.{new_topic_handler, watch_topic}
use plan_vault_libp2p.P2P.Snapshots.{restore}
use plan_vault_libp2p.Config.{
  Environment, Flags, Outcome, new_config, goes_on, config_file_path, default_etc_dir, plan_vault,
  vault_json,
}
use plan_vault_libp2p.Config.Paths.{Finds, defaults, config_file_path_lem}
use plan_vault_libp2p.Config.Start.{Parts, is_some, main, announces_iff_host}
use plan_vault_libp2p.Memory.Database.{memory, has_key}
use plan_vault_libp2p.Memory.Encoding.{cut_hash}
use plan_vault_libp2p.Memory.Peers.{libraries, join}
use plan_vault_libp2p.Tests.{empty_db}
use plan_vault_libp2p.Tests.Host.{cfg, store}

concat : List Bytes → Bytes
concat [] = []
concat (b ∷ bs) = b ++ 47 ∷ concat bs

-- The user's file is there.
stat_user : Bytes → Result (Unit {0})
stat_user [] = err not_exist
stat_user (b ∷ bs) = if b == 117 then ok tt else err not_exist

abbrev environment : Environment
environment = record {
  expand = λ p. ok p;
  stat = stat_user;
  user_config_dir = some (117 ∷ []);
  join = concat;
  read_file = λ p. ok (123 ∷ []);
  unmarshal_config = λ b src. ok src;
  is_tty = true;
}

abbrev flags : Flags
flags = record {
  config_path = [];
  log_level = [];
  data_dir = 100 ∷ [];
  keyring_dir = default_etc_dir;
  print_config = false;
}

abbrev no_path : Bytes
no_path = []

abbrev user_file : Bytes
user_file = concat ((117 ∷ []) ∷ plan_vault ∷ vault_json ∷ [])

config_file_path_lem_example : (config_file_path environment flags ≡ ok user_file) ↔ (
    ((no_path ≢ []) × (no_path ≡ user_file) × (stat_user no_path ≡ ok tt))
    ⊎ ((no_path ≡ []) × Finds environment (defaults environment (some (117 ∷ []))) user_file))
config_file_path_lem_example = config_file_path_lem environment flags [] user_file refl

abbrev opens_empty : Bytes → Result memory.Db
opens_empty dir = ok empty_db

abbrev parts_or :
    Parts libraries environment
    → Result (Outcome (Parts libraries environment))
    → Parts libraries environment
parts_or d (ok (goes_on parts)) = parts
parts_or d r = d

abbrev parts : Parts libraries environment
parts = parts_or (store, none) (main libraries environment opens_empty cfg (4 ∷ []) flags)

main_lem : main libraries environment opens_empty cfg (4 ∷ []) flags ≡ ok (goes_on parts)
unfolding main new_config stat_user concat Channels.new Run.new new_topic_handler join has_key
    watch_topic subscribe lookup channel insert cut_hash new_channel restore get memory put_channel
main_lem = refl

announces_iff_host_example : parts.0.has_update_ch ≡ is_some parts.1
announces_iff_host_example =
    announces_iff_host libraries environment opens_empty cfg (4 ∷ []) flags parts.0 parts.1 main_lem
