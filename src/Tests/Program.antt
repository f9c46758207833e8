-- ===== src/Tests/Program.antt =====
-- A client that appends an entry to a running program, a restart, and the same entry again.
use plan_vault_libp2p.Prelude.{
  ◌≡◌, ◌≢◌, refl, List, [], ◌∷◌, some, none, Bytes, Bytes_eq, Result, ok, true, lookup, subst,
  bytes_of, Option,
}
use plan_vault_libp2p.Protos.{Msg, empty_msg, EntryHeader, FeedReq}
use plan_vault_libp2p.Interfaces.{wire}
use plan_vault_libp2p.Prelude.Maps.{insert, lookup-insert_self}
use plan_vault_libp2p.Store.Channel.{new_channel}
use plan_vault_libp2p.Store.Channels
use plan_vault_libp2p.Store.Channels.{Store, channel, subscribe, put_channel}
use plan_vault_libp2p.Store.Channels.Hashed.{IsStore}
use plan_vault_libp2p.Store.Keys.{entry_key, arrival_key}
use plan_vault_libp2p.Store.Keys.Layout.{fit}
use plan_vault_libp2p.Store.Entries.{get, append}
use plan_vault_libp2p.Log.{Posted, Label, Runs, find}
use plan_vault_libp2p.Log.Writers.{channel_of}
use plan_vault_libp2p.Log.Refinement.{Represents}
use plan_vault_libp2p.Server.Session.{Connection, Vault, new_connection, handle}
use plan_vault_libp2p.P2P.{Host, TopicHandler}
use plan_vault_libp2p.P2P.Logged.Hearing.{Heard, receive-Heard}
use plan_vault_libp2p.Store.Channels.Registry.{IsRegistry, new_channel-IsMade}
use plan_vault_libp2p.Server.Session.Logged.{Serves, handle-Serves}
use plan_vault_libp2p.Tests.Peers.{handler, body}
use plan_vault_libp2p.P2P.Topics.{new_topic_handler, watch_topic, Incoming, message, receive}
use plan_vault_libp2p.P2P.Snapshots.{restore}
use plan_vault_libp2p.P2P.Run.{start_host}
use plan_vault_libp2p.P2P.Logged.{Holds}
use plan_vault_libp2p.P2P.Logged.Starting.{start_host-Holds}
use plan_vault_libp2p.Store.Options.{StreamOpts, from_head, skip_first, keys_only}
use plan_vault_libp2p.Store.Channel.{Channel}
use plan_vault_libp2p.Store.Reading
use plan_vault_libp2p.Store.Reading.{Reader, snapshot, idle, run}
use plan_vault_libp2p.Store.Reading.Snapshots.{own_items}
use plan_vault_libp2p.Log.Feeds.Published.{Readable}
use plan_vault_libp2p.Program.Delivered.{acknowledged_entry_is_delivered}
use plan_vault_libp2p.Prelude.{suc, ◌++◌, length, replicate, arith}
use plan_vault_libp2p.Program.{
  Program, program, vault_of, with_vault, Seen, nothing, replied, Step, connects, requests,
  restarts, Reach, start, later,
}
use plan_vault_libp2p.Program.Refinement.{AllShown, program_refines}
use plan_vault_libp2p.Program.Acknowledged.{Acks, acknowledged_for_good, acknowledged_once}
use plan_vault_libp2p.Memory.Database.{memory, has_key}
use plan_vault_libp2p.Memory.Encoding.{cut_hash}
use plan_vault_libp2p.Memory.Peers.{libraries, join, any_encoding}
use plan_vault_libp2p.Tests.{empty_db, id_1, id_2, entry_1, entry_2}
use plan_vault_libp2p.Tests.Host.{store, cfg, host_1, starts, or_else}
use plan_vault_libp2p.Tests.Server.{append_1}

store-IsStore : IsStore memory cut_hash store
unfolding lookup
store-IsStore = record { registry = record { made = λ id c h. cc h }; hashed = λ id c h. cc h }

empty-Represents : Represents memory any_encoding cut_hash [] empty_db
unfolding memory find lookup
empty-Represents = record { holds = λ uri id. refl; indexed = tt; placed = λ k v h. cc h }

abbrev at_start : Program libraries
at_start = program libraries host_1

starts-Holds : Holds libraries [] at_start.loop.host
starts-Holds =
    start_host-Holds libraries [] cfg store (4 ∷ []) host_1 store-IsStore empty-Represents starts

abbrev conn : Connection
conn = new_connection (2 ∷ [])

abbrev connected : Program libraries
connected = record at_start { conns = (2 ∷ [], conn) ∷ [] }

abbrev served_1 : Vault memory any_encoding cut_hash × Result Msg
served_1 = handle memory any_encoding cut_hash 1000 append_1 (vault_of libraries conn connected)

abbrev answered_1 : Program libraries
answered_1 = with_vault libraries served_1.0 connected

restarts_1 : Step libraries at_start nothing at_start
unfolding Channels.new new_topic_handler join has_key watch_topic subscribe lookup channel insert
    cut_hash new_channel restore get memory put_channel start_host
restarts_1 = restarts cfg true store (4 ∷ []) host_1 refl refl

connects_1 : Step libraries at_start nothing connected
unfolding insert
connects_1 = connects (2 ∷ [])

answers_1 : Step libraries connected (replied 1000 append_1 served_1.1) answered_1
unfolding lookup new_connection
answers_1 = requests conn 1000 append_1 refl

abbrev replies : List (Seen libraries)
replies = nothing ∷ nothing ∷ replied 1000 append_1 served_1.1 ∷ []

run_1 : Reach libraries at_start replies answered_1
run_1 = later (later (later start restarts_1) connects_1) answers_1

program_refines_example :
    (log : List Posted) × (ls : List Label) × Runs any_encoding cut_hash [] ls log
    × AllShown libraries replies ls
    × Holds libraries log answered_1.loop.host
program_refines_example =
    program_refines libraries [] at_start answered_1 replies starts-Holds run_1

abbrev or_empty : Result Msg → Msg
or_empty (ok m) = m
or_empty r = empty_msg

abbrev reply_1 : Msg
reply_1 = or_empty served_1.1

replied_1 : served_1.1 ≡ ok reply_1
unfolding start_host handle append any_encoding memory channel new_topic_handler join watch_topic
    subscribe cut_hash new_channel restore get put_channel
replied_1 = refl

abbrev key_of : Option EntryHeader → Bytes
key_of (some h) = bytes_of h.entry_id
key_of none = []

replies_key_1 : Acks libraries reply_1 (key_of reply_1.entry_header)
unfolding start_host handle append any_encoding memory channel new_topic_handler join watch_topic
    subscribe cut_hash new_channel restore get put_channel
replies_key_1 = refl

acknowledges_1 : Step libraries connected (replied 1000 append_1 (ok reply_1)) answered_1
acknowledges_1 =
    subst (λ (r : Result Msg). Step libraries connected (replied 1000 append_1 r) answered_1)
      replied_1 answers_1

-- Another client, with another entry of the feed.
abbrev conn_2 : Connection
conn_2 = new_connection (6 ∷ [])

abbrev connected_2 : Program libraries
connected_2 = record answered_1 { conns = insert (6 ∷ []) conn_2 answered_1.conns }

connects_2 : Step libraries answered_1 nothing connected_2
connects_2 = connects (6 ∷ [])

run_2 : Reach libraries answered_1 (nothing ∷ []) connected_2
run_2 = later start connects_2

acknowledged_for_good_example :
    let c = channel_of memory any_encoding cut_hash (1 ∷ []) in
    (key_of reply_1.entry_header ≡ arrival_key c 1000 id_1)
    × (get memory any_encoding (entry_key c id_1) connected_2.loop.host.store.db
        ≡ ok (wire entry_1))
acknowledged_for_good_example =
    acknowledged_for_good libraries [] connected answered_1 connected_2 (nothing ∷ []) 1000 append_1
      reply_1 (key_of reply_1.entry_header) id_1 starts-Holds acknowledges_1 replies_key_1 refl
      run_2

abbrev append_2 : FeedReq
append_2 = record append_1 { new_entry = some entry_2 }

abbrev served_2 : Vault memory any_encoding cut_hash × Result Msg
served_2 = handle memory any_encoding cut_hash 1001 append_2 (vault_of libraries conn_2 connected_2)

abbrev answered_2 : Program libraries
answered_2 = with_vault libraries served_2.0 connected_2

abbrev reply_2 : Msg
reply_2 = or_empty served_2.1

found_2 : lookup (6 ∷ []) connected_2.conns ≡ some conn_2
found_2 = lookup-insert_self (6 ∷ []) conn_2 answered_1.conns

replied_2 : served_2.1 ≡ ok reply_2
unfolding start_host handle append any_encoding memory channel new_topic_handler join watch_topic
    subscribe cut_hash new_channel restore get put_channel entry_key arrival_key
replied_2 = refl

replies_key_2 : Acks libraries reply_2 (key_of reply_2.entry_header)
unfolding start_host handle append any_encoding memory channel new_topic_handler join watch_topic
    subscribe cut_hash new_channel restore get put_channel entry_key arrival_key
replies_key_2 = refl

acknowledges_2 : Step libraries connected_2 (replied 1001 append_2 (ok reply_2)) answered_2
unfolding new_connection
acknowledges_2 =
    subst (λ (r : Result Msg). Step libraries connected_2 (replied 1001 append_2 r) answered_2)
      replied_2 (requests conn_2 1001 append_2 found_2)

acknowledged_once_example : fit 30 id_1 ≢ fit 30 id_2
acknowledged_once_example =
    acknowledged_once libraries [] connected answered_1 connected_2 answered_2 (nothing ∷ []) 1000
      1001 append_1 append_2 reply_1 reply_2 (key_of reply_1.entry_header)
      (key_of reply_2.entry_header) id_1 id_2 starts-Holds acknowledges_1 replies_key_1 refl run_2
      acknowledges_2 replies_key_2 refl refl

handle-Serves_example :
    let v = vault_of libraries conn connected in
    let q = handle memory any_encoding cut_hash 1000 append_1 v in
    Serves memory any_encoding cut_hash [] 1000 append_1 q.0.store q.1 × IsRegistry memory q.0.store
handle-Serves_example =
    handle-Serves memory any_encoding cut_hash [] 1000 append_1 (vault_of libraries conn connected)
      starts-Holds.host.store.registry starts-Holds.entries

-- A peer sends an entry of the feed.
abbrev feed_handler : TopicHandler
feed_handler = record handler { channel = new_channel (cut_hash.sum256 (1 ∷ [])) }

abbrev sent : Incoming
sent = message (7 ∷ []) body 1000

abbrev host_3 : Host libraries
host_3 = or_else host_1 (receive libraries feed_handler sent host_1)

receives : receive libraries feed_handler sent host_1 ≡ ok host_3
unfolding receive start_host append any_encoding memory channel new_topic_handler join watch_topic
    subscribe cut_hash new_channel restore get put_channel
receives = refl

receive-Heard_example : Heard libraries [] host_1 feed_handler sent host_3
receive-Heard_example =
    receive-Heard libraries [] host_1 host_3 feed_handler sent
      (1 ∷ [], new_channel-IsMade (cut_hash.sum256 (1 ∷ []))) starts-Holds receives

abbrev from_genesis : StreamOpts
from_genesis = record { seek = some []; max = 5; flags = 16 }

abbrev feed_1 : Channel
feed_1 = channel_of memory any_encoding cut_hash (1 ∷ [])

abbrev reader : Reader
reader = Reading.start memory any_encoding feed_1 from_genesis empty_db

abbrev db_now : memory.Db
db_now = connected_2.loop.host.store.db

one_item : length (own_items memory any_encoding feed_1 reader.key db_now) ≡ 1
unfolding Reading.start memory handle append any_encoding channel start_host new_topic_handler join
    watch_topic subscribe cut_hash new_channel restore get put_channel entry_key arrival_key
    Reading.start_key from_head
one_item = refl

nothing_unreadable : Readable memory any_encoding cut_hash []
unfolding Readable
nothing_unreadable = tt

acknowledged_entry_is_delivered_example :
    (before after : List Msg) × ((run memory any_encoding feed_1 reader (
        snapshot db_now
        ∷ replicate
            (suc (length (own_items memory any_encoding feed_1 reader.key db_now)))
            idle)).published
      ≡ before ++ wire entry_1 ∷ after)
acknowledged_entry_is_delivered_example =
    acknowledged_entry_is_delivered libraries [] connected answered_1 connected_2 (nothing ∷ [])
      1000 append_1 reply_1 (key_of reply_1.entry_header) id_1 from_genesis empty_db starts-Holds
      nothing_unreadable acknowledges_1 replies_key_1 refl run_2 refl (unfold from_head in refl)
      (unfold skip_first in refl) (unfold keys_only in refl) (omega arith) (omega (arith, one_item))
