-- ===== src/Tests.antt =====
-- Concrete data for the tests: an empty and a filled database in memory, two channels, entries.
pub mod Config
pub mod Entries
pub mod Feeds
pub mod Host
pub mod Log
pub mod Keyring
pub mod Keys
pub mod Peers
pub mod Program
pub mod Reading
pub mod Server
use plan_vault_libp2p.Prelude.{ℕ, [], ◌∷◌, some, Bytes}
use plan_vault_libp2p.Protos.{Msg}
use plan_vault_libp2p.Interfaces.{Badger}
use plan_vault_libp2p.Store.Channel.{Channel, new_channel}
use plan_vault_libp2p.Memory.Database.{memory}
use plan_vault_libp2p.Memory.Encoding.{plain_entry, encoding}
use plan_vault_libp2p.Store.Entries.{append}

abbrev pub empty_db : memory.Db
unfolding memory
empty_db = ([], tt)

abbrev pub channel_1 : Channel
channel_1 = new_channel (1 ∷ [])

abbrev pub id_1 : Bytes
id_1 = 7 ∷ 1 ∷ []

abbrev pub id_2 : Bytes
id_2 = 7 ∷ 2 ∷ []

abbrev pub entry_1 : Msg
entry_1 = plain_entry (some id_1) (1 ∷ []) (some (104 ∷ 105 ∷ []))

abbrev pub entry_2 : Msg
entry_2 = plain_entry (some id_2) (1 ∷ []) (some (104 ∷ 111 ∷ []))

abbrev pub db_1 : memory.Db
db_1 = (append memory encoding channel_1 1000 (some entry_1) empty_db empty_db).0

abbrev pub db_2 : memory.Db
db_2 = (append memory encoding channel_1 1001 (some entry_2) db_1 db_1).0
