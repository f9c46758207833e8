-- ===== src/Tests/Feeds.antt =====
-- A subscription over two snapshots of a store in memory that gains an entry in between.
use plan_vault_libp2p.Prelude.{
  suc, ◌≡◌, refl, List, [], ◌∷◌, ◌++◌, some, Bytes, Bytes_eq, Result, ok, false, length, replicate,
  bytes_ltb, arith, bytes_of,
}
use plan_vault_libp2p.Protos.{Msg}
use plan_vault_libp2p.Interfaces.{seek_from}
use plan_vault_libp2p.Store.Channel.{Channel, new_channel}
use plan_vault_libp2p.Store.Options.{StreamOpts, from_head}
use plan_vault_libp2p.Store.Reading.{Reader, snapshot, idle, run, start, start_key}
use plan_vault_libp2p.Store.Reading.Drain.{Messages, Drained, skip_seen}
use plan_vault_libp2p.Store.Reading.Snapshots.{own_items}
use plan_vault_libp2p.Store.Entries
use plan_vault_libp2p.Store.Keys.{entry_key, arrival_key}
use plan_vault_libp2p.Log.{Posted}
use plan_vault_libp2p.Log.Writers.{channel_of, Flying, append_of}
use plan_vault_libp2p.Log.Refinement.{Represents, posted, append-Represents_with}
use plan_vault_libp2p.Log.Feeds.{IsFeed}
use plan_vault_libp2p.Log.Feeds.Published.{Readable, published-IsFeed}
use plan_vault_libp2p.Log.Feeds.Rounds.{round}
use plan_vault_libp2p.Log.Feeds.Live.{Moments}
use plan_vault_libp2p.Memory.Database.{memory}
use plan_vault_libp2p.Memory.Encoding.{encoding, cut_hash}
use plan_vault_libp2p.Tests.{empty_db, id_1, id_2, entry_1, entry_2}
use plan_vault_libp2p.Tests.Log.{flying_1, state_3, empty-Represents}

abbrev c : Channel
c = channel_of memory encoding cut_hash (1 ∷ [])

abbrev or_empty : Result Bytes → Bytes
or_empty (ok b) = b
or_empty r = []

abbrev packed_1 : Bytes
packed_1 = or_empty (encoding.marshal entry_1)

abbrev packed_2 : Bytes
packed_2 = or_empty (encoding.marshal entry_2)

abbrev log_1 : List Posted
log_1 = posted memory encoding cut_hash flying_1 id_1 packed_1 ∷ []

abbrev next : Flying memory encoding cut_hash
next = record { request = record { uri = 1 ∷ []; unix = 1002; entry = entry_2 }; from = state_3.db }

abbrev db_2 : memory.Db
db_2 = (append_of memory encoding cut_hash next state_3.db).0

abbrev log_2 : List Posted
log_2 = log_1 ++ posted memory encoding cut_hash next id_2 packed_2 ∷ []

packs_1 : encoding.marshal entry_1 ≡ ok packed_1
unfolding encoding
packs_1 = refl

packs_2 : encoding.marshal entry_2 ≡ ok packed_2
unfolding encoding
packs_2 = refl

appends_1 :
    append_of memory encoding cut_hash flying_1 empty_db
    ≡ (state_3.db, ok (or_empty (append_of memory encoding cut_hash flying_1 empty_db).1))
unfolding Entries.append encoding memory
appends_1 = refl

log_1-Represents : Represents memory encoding cut_hash log_1 state_3.db
log_1-Represents =
    append-Represents_with memory encoding cut_hash [] empty_db state_3.db flying_1 id_1 packed_1 _
      empty-Represents appends_1 refl packs_1

appends_2 :
    append_of memory encoding cut_hash next state_3.db
    ≡ (db_2, ok (or_empty (append_of memory encoding cut_hash next state_3.db).1))
unfolding Entries.append encoding memory entry_key new_channel cut_hash arrival_key
appends_2 = refl

log_2-Represents : Represents memory encoding cut_hash log_2 db_2
log_2-Represents =
    append-Represents_with memory encoding cut_hash log_1 state_3.db db_2 next id_2 packed_2 _
      log_1-Represents appends_2 refl packs_2

log_2-Readable : Readable memory encoding cut_hash log_2
unfolding Readable
log_2-Readable = ((entry_1, packs_1), ((entry_2, packs_2), tt))

abbrev from_genesis : StreamOpts
from_genesis = record { seek = some []; max = 5; flags = 16 }

abbrev moments : Moments memory encoding cut_hash
moments = (state_3.db, log_1) ∷ (db_2, log_2) ∷ []

abbrev reader : Reader
reader = start memory encoding c from_genesis empty_db

abbrev reader_1 : Reader
reader_1 = round memory encoding cut_hash c reader state_3.db

from_start : bytes_ltb (seek_from c.prefix (bytes_of reader.key)) c.prefix ≡ false
unfolding start start_key from_head new_channel cut_hash
from_start = refl

published-IsFeed_example :
    let items = own_items memory encoding c reader.key db_2 in
    IsFeed memory encoding cut_hash log_2 (1 ∷ []) (seek_from c.prefix (bytes_of reader.key)) items
    × ((ms : List Msg) × Messages memory encoding reader.opts (skip_seen reader.last_seen items) ms
        × Drained
            (record reader { dirty = false })
            (skip_seen reader.last_seen items)
            ms
            (run memory encoding c reader (snapshot db_2 ∷ replicate (suc (length items)) idle)))
unfolding start
published-IsFeed_example =
    published-IsFeed memory encoding cut_hash log_2 db_2 (1 ∷ []) reader log_2-Represents
      log_2-Readable refl (omega arith) (omega arith) from_start
