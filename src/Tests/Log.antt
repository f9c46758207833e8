-- ===== src/Tests/Log.antt =====
-- Two writers of one entry that begin on the same content, a snapshot between them, and a read.
use plan_vault_libp2p.Prelude.{◌≡◌, refl, List, [], ◌∷◌, ok, lookup}
use plan_vault_libp2p.Interfaces.{wire}
use plan_vault_libp2p.Store.Channel.{new_channel}
use plan_vault_libp2p.Store.Keys.{entry_key, arrival_key}
use plan_vault_libp2p.Store.Entries.{get, append}
use plan_vault_libp2p.Log.{Request, Posted, Label, quiet, answered, read, Runs, find}
use plan_vault_libp2p.Log.Writers.{
  Flying, System, Reach, start, later, begins, commits, looks, append_of, channel_of,
}
use plan_vault_libp2p.Log.Refinement.{Represents, writers_refine}
use plan_vault_libp2p.Log.Once.{Grown, one_entry_each, reads_are_stable}
use plan_vault_libp2p.Memory.Database.{memory}
use plan_vault_libp2p.Memory.Encoding.{encoding, cut_hash}
use plan_vault_libp2p.Tests.{empty_db, id_1, entry_1}

abbrev Vault : Type 0
Vault = System memory encoding cut_hash

abbrev pub first : Request
first = record { uri = 1 ∷ []; unix = 1000; entry = entry_1 }

abbrev second : Request
second = record { uri = 1 ∷ []; unix = 1001; entry = entry_1 }

abbrev pub flying_1 : Flying memory encoding cut_hash
flying_1 = record { request = first; from = empty_db }

abbrev flying_2 : Flying memory encoding cut_hash
flying_2 = record { request = second; from = empty_db }

abbrev state_0 : Vault
state_0 = record { db = empty_db; flying = [] }

abbrev state_2 : Vault
state_2 = record { db = empty_db; flying = flying_1 ∷ flying_2 ∷ [] }

abbrev pub state_3 : Vault
state_3 = record {
  db = (append_of memory encoding cut_hash flying_1 empty_db).0;
  flying = flying_2 ∷ [];
}

abbrev state_4 : Vault
state_4 = record { db = (append_of memory encoding cut_hash flying_2 state_3.db).0; flying = [] }

abbrev replies : List Label
replies =
    quiet
    ∷ quiet
    ∷ answered first (append_of memory encoding cut_hash flying_1 empty_db).1
    ∷ answered second (append_of memory encoding cut_hash flying_2 state_3.db).1
    ∷ read (1 ∷ []) id_1 (
        get memory encoding (entry_key (channel_of memory encoding cut_hash (1 ∷ [])) id_1)
          state_4.db)
    ∷ []

runs : Reach memory encoding cut_hash state_0 replies state_4
runs =
    later
      (later
        (later (later (later start (begins first)) (begins second))
          (commits [] (flying_2 ∷ []) flying_1 refl))
        (commits [] [] flying_2 refl))
      (looks (1 ∷ []) id_1)

pub empty-Represents : Represents memory encoding cut_hash [] empty_db
unfolding memory find lookup
empty-Represents = record { holds = λ uri id. refl; indexed = tt; placed = λ k v h. cc h }

writers_refine_example :
    (log : List Posted) × Runs encoding cut_hash [] replies log
    × Represents memory encoding cut_hash log state_4.db
writers_refine_example =
    writers_refine memory encoding cut_hash [] state_0 state_4 replies empty-Represents runs

one_entry_each_example :
    (log : List Posted) × Represents memory encoding cut_hash log state_4.db
    × Grown encoding cut_hash [] replies log
one_entry_each_example =
    one_entry_each memory encoding cut_hash [] state_0 state_4 replies empty-Represents tt runs

abbrev first_replies : List Label
first_replies =
    quiet ∷ quiet ∷ answered first (append_of memory encoding cut_hash flying_1 empty_db).1 ∷ []

first_run : Reach memory encoding cut_hash state_0 first_replies state_3
first_run =
    later (later (later start (begins first)) (begins second))
      (commits [] (flying_2 ∷ []) flying_1 refl)

held :
    (log : List Posted) × Represents memory encoding cut_hash log state_3.db
    × Grown encoding cut_hash [] first_replies log
held =
    one_entry_each memory encoding cut_hash [] state_0 state_3 first_replies empty-Represents tt
      first_run

stands :
    get memory encoding (entry_key (channel_of memory encoding cut_hash (1 ∷ [])) id_1) state_3.db
    ≡ ok (wire entry_1)
unfolding get append memory encoding arrival_key entry_key new_channel cut_hash
stands = refl

reads_are_stable_example :
    get memory encoding (entry_key (channel_of memory encoding cut_hash (1 ∷ [])) id_1) state_4.db
    ≡ ok (wire entry_1)
reads_are_stable_example =
    reads_are_stable memory encoding cut_hash held.0 state_3 state_4
      (answered second (append_of memory encoding cut_hash flying_2 state_3.db).1 ∷ []) (1 ∷ [])
      id_1 (wire entry_1) held.1 held.2.distinct (later start (commits [] [] flying_2 refl)) stands
