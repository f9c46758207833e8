-- ===== src/Log.antt =====
-- What the vault promises of its entries, as a log without keys, transactions or a database: an
-- entry is posted at the end of the log if its channel has no entry with its ID yet, and stays
-- there. An ID counts as its first thirty bytes, padded with zeros.
pub mod Writers
pub mod Places
pub mod Refinement
pub mod Once
pub mod Feeds
use plan_vault_libp2p.Prelude.{
  ℕ, ◌≡◌, List, [], ◌∷◌, ◌++◌, Option, none, some, Bool, ◌&&◌, Bytes, Bytes_eq, ◌==◌, Error, Result,
  ok, err, panics, if◌then◌else◌,
}
use plan_vault_libp2p.Prelude.Errors.{key_not_found}
use plan_vault_libp2p.Protos.{Msg, get_entry_id}
use plan_vault_libp2p.Interfaces.{Proto, Hash}
use plan_vault_libp2p.Store.Channel.{new_channel}
use plan_vault_libp2p.Store.Keys.{arrival_key}
use plan_vault_libp2p.Store.Keys.Layout.{fit}

-- A message for a feed, and the Unix time at which the store takes it.
pub record Request : Type 0 where
  pub uri : Bytes
  pub unix : ℕ
  pub entry : Msg

pub record Posted : Type 0 where
  pub channel : Bytes
  pub id : Bytes
  pub unix : ℕ
  pub bytes : Bytes

-- Entry IDs that stand for one key.
unfoldable pub same_id : Bytes → Bytes → Bool
same_id a b = fit 30 a == fit 30 b

abbrev pub is_at : Bytes → Bytes → Posted → Bool
is_at channel id p = (p.channel == channel) && same_id p.id id

unfoldable pub find : Bytes → Bytes → List Posted → Option Bytes
find channel id [] = none
find channel id (p ∷ log) =
    let rest = find channel id log in if is_at channel id p then some p.bytes else rest

-- What a client sees: the reply to a request, and what it reads of a feed at an ID.
pub data Label : Type 0 where
  quiet : Label
  answered : Request → Result Bytes → Label
  read : Bytes → Bytes → Result Msg → Label

module _ (P : Proto) (H : Hash) where
  abbrev pub view : List Posted → Bytes → Bytes → Result Msg
  view log uri id = elim (find (H.sum256 uri) id log) [
    | none ↦ err key_not_found
    | some bytes ↦ P.unmarshal bytes
  ]

  -- The steps that the log allows, each with what is seen of it.
  pub data Does (log : List Posted) : Label → List Posted → Type 0 where
    stays : Does log quiet log
    posts :
        (q : Request) (id bytes : Bytes)
        → get_entry_id q.entry.entry_header ≡ some id
        → P.marshal q.entry ≡ ok bytes
        → find (H.sum256 q.uri) id log ≡ none
        → Does log
            (answered q (ok (arrival_key (new_channel (H.sum256 q.uri)) q.unix id)))
            (log ++ record { channel = H.sum256 q.uri; id = id; unix = q.unix; bytes = bytes } ∷ [])
    refuses : (q : Request) (e : Error) → Does log (answered q (err e)) log
    breaks : (q : Request) → Does log (answered q panics) log
    reads : (uri id : Bytes) → Does log (read uri id (view log uri id)) log

  pub data Runs (log : List Posted) : List Label → List Posted → Type 0 where
    done : Runs log [] log
    later :
        {mid last : List Posted} {l : Label} {ls : List Label}
        → Runs log ls mid
        → Does mid l last
        → Runs log (ls ++ l ∷ []) last
