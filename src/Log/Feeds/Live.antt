-- ===== src/Log/Feeds/Live.antt =====
-- A subscription that stays open while entries arrive: snapshot after snapshot.
use plan_vault_libp2p.Prelude.{◌+◌, ◌<◌, ◌≡◌, List, [], ◌∷◌, ◌++◌, Bytes, Bytes_eq, length}
use plan_vault_libp2p.Interfaces.{Badger, Proto, Hash}
use plan_vault_libp2p.Store.Channel.{Channel}
use plan_vault_libp2p.Store.Reading.{Reader}
use plan_vault_libp2p.Store.Reading.Snapshots.{own_items}
use plan_vault_libp2p.Log.{Posted}
use plan_vault_libp2p.Log.Refinement.{Represents}
use plan_vault_libp2p.Log.Feeds.Published.{Readable}
use plan_vault_libp2p.Log.Feeds.Standing.{Later}
use plan_vault_libp2p.Log.Feeds.Rounds.{round}

module _ (B : Badger) (P : Proto) (H : Hash) where
  -- Snapshots, each with the log that the store holds then.
  abbrev pub Moments : Type 0
  Moments = List (B.Db × List Posted)

  -- The log grows from snapshot to snapshot, in the feed by entries with higher IDs.
  abbrev pub Rises : Bytes → List Posted → Moments → Type 0
  Rises uri log [] = Unit
  Rises uri log ((d, now) ∷ later) =
      ((new : List Posted) × (now ≡ log ++ new))
      × Later B P H uri log now
      × Represents B P H now d
      × Readable B P H now
      × Rises uri now later

  abbrev last_log : List Posted → Moments → List Posted
  last_log log [] = log
  last_log log ((d, now) ∷ later) = last_log now later

  -- The subscription over these snapshots, with a notification after each.
  abbrev pub watch : Channel → Reader → Moments → Reader
  watch c r [] = r
  watch c r ((d, now) ∷ later) = watch c (round B P H c r d) later

  -- The limit leaves room for what each snapshot adds.
  abbrev pub Room : Channel → Reader → Moments → Type 0
  Room c r [] = Unit
  Room c r ((d, now) ∷ later) =
      (r.count + length (own_items B P c r.key d) < r.max) × Room c (round B P H c r d) later
