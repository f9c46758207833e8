-- ===== src/Tests/Entries.antt =====
-- Append, Get and Upsert on the database in memory.
use plan_vault_libp2p.Prelude.{◌≡◌, ◌≢◌, refl, [], ◌∷◌, some, none, Bytes, ok, err}
use plan_vault_libp2p.Prelude.Errors.{Error, badger_key_not_found, key_exists, invalid_entry_id}
use plan_vault_libp2p.Protos.{get_entry_id, get_entry_header}
use plan_vault_libp2p.Interfaces.{wire}
use plan_vault_libp2p.Store.Channel.{new_channel}
use plan_vault_libp2p.Store.Keys.{entry_key, arrival_key, entry_key_from_index}
use plan_vault_libp2p.Store.Keys.Layout.{new_channel-HasPrefixes}
use plan_vault_libp2p.Store.Entries.{append, get, value, upsert, deref}
use plan_vault_libp2p.Store.Entries.AppendOnly.{get-append}
use plan_vault_libp2p.Store.Entries.Appends.{entry_key-ne-arrival_key}
use plan_vault_libp2p.Store.Entries.Reads.{WasFree, append_fails}
use plan_vault_libp2p.Memory.Database.{memory}
use plan_vault_libp2p.Memory.Encoding.{encoding}
use plan_vault_libp2p.Tests.{empty_db, channel_1, id_1, id_2, entry_1, entry_2, db_1, db_2}

first_append :
    append memory encoding channel_1 1000 (some entry_1) empty_db empty_db
    ≡ (db_1, ok (arrival_key channel_1 1000 id_1))
unfolding append memory encoding arrival_key entry_key new_channel
first_append = refl

again_refused :
    append memory encoding channel_1 1002 (some entry_1) db_1 db_1 ≡ (db_1, err key_exists)
unfolding append memory encoding arrival_key entry_key new_channel
again_refused = refl

get-append_example :
    (get memory encoding (entry_key channel_1 id_1) db_1 ≡ ok (wire entry_1))
    × (arrival_key channel_1 1000 id_1 ≡ arrival_key channel_1 1000 id_1)
    × (entry_key_from_index channel_1 (arrival_key channel_1 1000 id_1)
        ≡ ok (entry_key channel_1 id_1))
get-append_example =
    get-append memory encoding channel_1 1000 entry_1 id_1 empty_db empty_db db_1
      (arrival_key channel_1 1000 id_1) (new_channel-HasPrefixes (1 ∷ [])) refl first_append

second_append :
    append memory encoding channel_1 1001 (some entry_2) db_1 db_1
    ≡ (db_2, ok (arrival_key channel_1 1001 id_2))
unfolding append memory encoding arrival_key entry_key new_channel
second_append = refl

apart : entry_key channel_1 id_1 ≢ arrival_key channel_1 1001 id_2
apart = entry_key-ne-arrival_key channel_1 1001 id_1 id_2

abbrev packed_1 : Bytes
packed_1 = 2 ∷ 7 ∷ 1 ∷ 1 ∷ 1 ∷ 104 ∷ 105 ∷ []

stands : value memory encoding db_1 (entry_key channel_1 id_1) ≡ ok packed_1
unfolding append memory encoding arrival_key entry_key new_channel
stands = refl

abbrev db_up : memory.Db
db_up = (upsert memory encoding id_2 entry_1 db_1 db_1).0

upserted : upsert memory encoding id_2 entry_1 db_1 db_1 ≡ (db_up, ok tt)
unfolding upsert append memory encoding arrival_key entry_key new_channel
upserted = refl

append_fails_example :
    let result = append memory encoding channel_1 1000 (some entry_1) db_1 db_1 in
    let given = get_entry_id (get_entry_header (some entry_1)) in
    let packs = encoding.marshal (deref (some entry_1)) in
    let reads = λ (id : Bytes). value memory encoding db_1 (entry_key channel_1 id) in
    (given ≡ none → result ≡ (db_1, err invalid_entry_id))
    × ((id : Bytes) (e : Error) → given ≡ some id → packs ≡ err e → result ≡ (db_1, err e))
    × ((id m v : Bytes)
        → given ≡ some id
        → packs ≡ ok m
        → reads id ≡ ok v
        → result ≡ (db_1, err key_exists))
    × ((id m : Bytes) (e : Error)
        → given ≡ some id
        → packs ≡ ok m
        → reads id ≡ err e
        → e ≢ badger_key_not_found
        → result ≡ (db_1, err e))
    × ((after : memory.Db) (e : Error) → result ≡ (after, err e) → after ≡ db_1)
    × ((after : memory.Db) (arrival : Bytes)
        → result ≡ (after, ok arrival)
        → WasFree memory encoding channel_1 (some entry_1) db_1)
append_fails_example = append_fails memory encoding channel_1 1000 (some entry_1) db_1 db_1
