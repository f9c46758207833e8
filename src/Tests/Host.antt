-- ===== src/Tests/Host.antt =====
-- A host on the libraries in memory, from its start on.
use plan_vault_libp2p.Prelude.{
  ◌≡◌, ◌≢◌, refl, List, [], ◌∷◌, some, none, Bytes, Bytes_eq, Result, ok, false, true, lookup,
  insert,
}
use plan_vault_libp2p.Store.Channel.{new_channel}
use plan_vault_libp2p.Store.Channels.{Store, channel, put_channel, subscribe}
use plan_vault_libp2p.Store.Entries.{get, upsert}
use plan_vault_libp2p.P2P.Topics.{new_topic_handler, watch_topic}
use plan_vault_libp2p.P2P.Snapshots.{restore, snapshot}
use plan_vault_libp2p.Store.Channels.Registry.{IsRegistry, new_channel-IsMade}
use plan_vault_libp2p.Keyring.{new_key_ring}
use plan_vault_libp2p.P2P.{Host}
use plan_vault_libp2p.P2P.Run.{
  Event, update, signalled, tick, ctx_done, Setup, Loop, start_host, started_host, run_loop,
}
use plan_vault_libp2p.P2P.Run.Blocked.{Same, FromStore}
use plan_vault_libp2p.P2P.Run.Started.{joins_no_channel}
use plan_vault_libp2p.Memory.Database.{memory, has_key}
use plan_vault_libp2p.Memory.Encoding.{cut_hash}
use plan_vault_libp2p.Memory.Peers.{libraries, join, keys_of, any_encoding, state_encoding}
use plan_vault_libp2p.Tests.{empty_db}

abbrev pub store : Store memory
store = record { db = empty_db; has_update_ch = true; channels = []; announced = []; watched = [] }

store-IsRegistry : IsRegistry memory store
unfolding lookup
store-IsRegistry = record { made = λ id c h. cc }

abbrev pub cfg : Setup libraries
cfg = record {
  uri = 9 ∷ [];
  mdns = false;
  key_ring = ok new_key_ring;
  node = ok (3 ∷ [], []);
  gossip = ok [];
  mdns_service = ok tt;
}

abbrev pub or_else : Host libraries → Result (Host libraries) → Host libraries
or_else d (ok h) = h
or_else d r = d

abbrev events : List Event
events =
    update (some (new_channel (1 ∷ []))) (5 ∷ [])
    ∷ signalled
    ∷ tick
    ∷ update (some (new_channel (2 ∷ []))) (6 ∷ [])
    ∷ ctx_done
    ∷ []

abbrev host_0 : Host libraries
host_0 = started_host libraries cfg store new_key_ring (3 ∷ [], []) []

abbrev pub host_1 : Host libraries
host_1 = or_else host_0 (start_host libraries cfg store (4 ∷ []))

pub starts : start_host libraries cfg store (4 ∷ []) ≡ ok host_1
unfolding start_host new_topic_handler join has_key watch_topic subscribe lookup channel insert
    cut_hash new_channel restore get memory put_channel
starts = refl

abbrev at_start : Loop libraries
at_start = record { host = host_1; dirty = false; running = true }

abbrev loop_or : Loop libraries → Result (Loop libraries) → Loop libraries
loop_or d (ok l) = l
loop_or d r = d

abbrev at_end : Loop libraries
at_end = loop_or at_start (run_loop libraries events at_start)

runs : run_loop libraries events at_start ≡ ok at_end
unfolding run_loop start_host new_topic_handler join has_key watch_topic subscribe lookup channel
    insert cut_hash new_channel restore get memory put_channel snapshot keys_of state_encoding
    upsert any_encoding
runs = refl

from_store : FromStore libraries events
unfolding new_channel
from_store = (new_channel-IsMade (1 ∷ []), (new_channel-IsMade (2 ∷ []), tt))

joins_no_channel_example :
    Same libraries host_1 at_end.host
    × ((uri : Bytes) → (9 ∷ []) ≢ uri → lookup uri at_end.host.handlers ≡ none)
joins_no_channel_example =
    joins_no_channel libraries cfg store (4 ∷ []) host_1 events at_end store-IsRegistry starts
      from_store runs
