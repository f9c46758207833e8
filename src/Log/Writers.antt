-- ===== src/Log/Writers.antt =====
-- The writers of one store, interleaved in any order: Append of store/store.go for any feed, begun
-- at one moment and committed at a later one, the snapshots of p2p/host.go, and reads.
use plan_vault_libp2p.Prelude.{◌≡◌, List, [], ◌∷◌, ◌++◌, some, Bytes, Result}
use plan_vault_libp2p.Protos.{empty_msg}
use plan_vault_libp2p.Interfaces.{Badger, Proto, Hash}
use plan_vault_libp2p.Store.Channel.{Channel, new_channel}
use plan_vault_libp2p.Store.Keys.{entry_key}
use plan_vault_libp2p.Store.Entries
use plan_vault_libp2p.P2P.Snapshots.{snapshot_key}
use plan_vault_libp2p.Log.{Request, Label, quiet, answered, read}

module _ (B : Badger) (P : Proto) (H : Hash) where
  -- The channel of a feed: its id and its prefixes are all that Append and Get use of it.
  abbrev pub channel_of : Bytes → Channel
  channel_of uri = new_channel (H.sum256 uri)

  -- A call of Append whose transaction began on the content `from`.
  pub record Flying : Type 0 where
    pub request : Request
    pub from : B.Db

  pub record System : Type 0 where
    pub db : B.Db
    pub flying : List Flying

  abbrev pub append_of : Flying → B.Db → B.Db × Result Bytes
  append_of f now =
      Entries.append B P (channel_of f.request.uri) f.request.unix (some f.request.entry) f.from now

  pub data Step (s : System) : Label → System → Type 0 where
    begins :
        (q : Request)
        → Step s quiet (record s { flying = s.flying ++ record { request = q; from = s.db } ∷ [] })
    commits :
        (before after : List Flying) (f : Flying)
        → s.flying ≡ before ++ f ∷ after
        → Step s
            (answered f.request (append_of f s.db).1)
            (record { db = (append_of f s.db).0; flying = before ++ after })
    snapshots :
        (from : B.Db) (body : Bytes)
        → Step s quiet (record s {
          db =
              (Entries.upsert B P snapshot_key (record empty_msg { body = some body }) from s.db).0;
        })
    looks :
        (uri id : Bytes)
        → Step s (read uri id (Entries.get B P (entry_key (channel_of uri) id) s.db)) s

  pub data Reach (s : System) : List Label → System → Type 0 where
    start : Reach s [] s
    later :
        {mid last : System} {l : Label} {ls : List Label}
        → Reach s ls mid
        → Step mid l last
        → Reach s (ls ++ l ∷ []) last
