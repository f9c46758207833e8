-- ===== src/Tests/Reading.antt =====
-- A subscription on the database in memory.
use plan_vault_libp2p.Prelude.{Bool, true, false, Result}
use plan_vault_libp2p.Store.Index.Ends.{run_index_ends}
use plan_vault_libp2p.Prelude.{◌≡◌, ◌≤◌, refl, [], ◌∷◌, List, some, false, length, replicate, arith}
use plan_vault_libp2p.Protos.{Msg}
use plan_vault_libp2p.Store.Options.{StreamOpts, keys_only}
use plan_vault_libp2p.Store.Channel.{new_channel}
use plan_vault_libp2p.Store.Keys.{entry_key, arrival_key}
use plan_vault_libp2p.Store.Entries.{append}
use plan_vault_libp2p.Store.Reading.{Reader, snapshot, notified, idle, cancelled, start, run}
use plan_vault_libp2p.Store.Reading.Bounds.{published-le-max}
use plan_vault_libp2p.Memory.Database.{memory}
use plan_vault_libp2p.Memory.Encoding.{encoding}
use plan_vault_libp2p.Tests.{db_1, db_2, channel_1, entry_1, entry_2}
use plan_vault_libp2p.Prelude.{ok, Bytes, Dict}
use plan_vault_libp2p.Store.Keys.{entry_key_from_index}
use plan_vault_libp2p.Store.Index
use plan_vault_libp2p.Store.Index.{IndexReader, Progress, reading, ended, index_message, run_index}
use plan_vault_libp2p.Store.Index.CatchUp.{Found, none_left, found, CaughtUp, run_index-CaughtUp}
use plan_vault_libp2p.Tests.{empty_db, id_1, id_2}

abbrev genesis : StreamOpts
genesis = record { seek = some []; max = 5; flags = 16 }

abbrev reader : Reader
reader = start memory encoding channel_1 genesis db_2

abbrev two_entries : List Msg
two_entries = entry_1 ∷ entry_2 ∷ []

-- A write is notified before the second entry is read.
abbrev notifications : List Bool
notifications = false ∷ true ∷ false ∷ []

published-le-max_example :
    let r =
      run memory encoding channel_1
        (start memory encoding channel_1 genesis db_1)
        (snapshot db_1 ∷ idle ∷ idle ∷ notified ∷ snapshot db_2 ∷ idle ∷ idle ∷ cancelled ∷ []) in
    (length r.published ≤ 5) × (r.count ≡ length r.published)
published-le-max_example =
    published-le-max memory encoding channel_1 genesis db_1
      (snapshot db_1 ∷ idle ∷ idle ∷ notified ∷ snapshot db_2 ∷ idle ∷ idle ∷ cancelled ∷ [])
      (omega arith) tt

indexed :
    append memory encoding channel_1 1000 (some entry_1) empty_db empty_db
    ≡ (db_1, ok (arrival_key channel_1 1000 id_1))
unfolding append memory encoding arrival_key entry_key new_channel
indexed = refl

abbrev index_reader : IndexReader
index_reader = record { opts = genesis; count = 0; progress = ended (ok tt); published = [] }

abbrev two_keys : Dict Bytes Bytes
two_keys = (arrival_key channel_1 1000 id_1, []) ∷ (arrival_key channel_1 1001 id_2, []) ∷ []

two_found : Found memory encoding channel_1 genesis db_2 two_keys (entry_1 ∷ entry_2 ∷ [])
unfolding index_message keys_only append memory encoding arrival_key entry_key entry_key_from_index
    new_channel
two_found = found refl (found refl none_left)

run_index-CaughtUp_example : CaughtUp memory encoding index_reader (entry_1 ∷ entry_2 ∷ []) (
    run_index memory encoding channel_1 db_2
      (record index_reader { progress = reading two_keys })
      (replicate 3 Index.idle))
run_index-CaughtUp_example =
    run_index-CaughtUp memory encoding channel_1 db_2 two_keys index_reader (entry_1 ∷ entry_2 ∷ [])
      (omega arith) (omega arith) two_found

run_index_ends_example :
    (result : Result (Unit {0})) × ((run_index memory encoding channel_1 db_2
        (record index_reader { progress = reading two_keys })
        (Index.notified ∷ replicate 3 Index.idle)).progress
      ≡ ended result)
run_index_ends_example =
    run_index_ends memory encoding channel_1 db_2
      (record index_reader { progress = reading two_keys })
      (Index.notified ∷ replicate 3 Index.idle) (omega arith)
