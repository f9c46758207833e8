-- ===== src/Store/Locks.antt =====
-- The lock `sLock` of a channel in store/store.go, its goroutine `watch`, one subscriber with its
-- unbuffered channels rx and resetRx, and the Subscribe of a target that has that subscriber. A
-- send is one step with the receive that takes it; who waits for a send or for the lock does not
-- move.
pub mod Deadlocks
use plan_vault_libp2p.Prelude.{◌≢◌}

-- The goroutine `read`: in the loop of `iterate`, in the last select, or returned and about to
-- unsubscribe, for which it needs the lock.
pub data ReaderAt : Type 0 where
  iterating waiting leaving gone : ReaderAt

-- `watch`: between two updates, or holding the read lock with a notification to send.
pub data WatcherAt : Type 0 where
  resting notifying : WatcherAt

-- Subscribe: not called, or holding the lock with a reset to send.
pub data CallerAt : Type 0 where
  absent resetting : CallerAt

pub record Locks : Type 0 where
  pub reader : ReaderAt
  pub watcher : WatcherAt
  pub caller : CallerAt

-- A move of one of the three.
pub data Move : ReaderAt → WatcherAt → CallerAt → ReaderAt → WatcherAt → CallerAt → Type 0 where
  -- The end of a snapshot, with no notification since it was opened.
  drains : (w : WatcherAt) (c : CallerAt) → Move iterating w c waiting w c
  -- The limit, an error, or the end of the context.
  finishes : (w : WatcherAt) (c : CallerAt) → Move iterating w c leaving w c
  cancelled : (w : WatcherAt) (c : CallerAt) → Move waiting w c leaving w c
  unsubscribes : Move leaving resting absent gone resting absent
  -- An update of the database takes the read lock, and finds the subscriber.
  updates : (r : ReaderAt) → r ≢ gone → Move r resting absent r notifying absent
  notifies_loop : (c : CallerAt) → Move iterating notifying c iterating resting c
  notifies_select : (c : CallerAt) → Move waiting notifying c iterating resting c
  subscribes : (r : ReaderAt) → r ≢ gone → Move r resting absent r resting resetting
  -- Only the loop of `iterate` receives from resetRx; the reader then opens a new snapshot.
  resets : (w : WatcherAt) → Move iterating w resetting iterating w absent

pub data Reach (s : Locks) : Locks → Type 0 where
  here : Reach s s
  later :
      {t u : Locks}
      → Reach s t
      → Move t.reader t.watcher t.caller u.reader u.watcher u.caller
      → Reach s u

-- After the first Subscribe has started its goroutine.
abbrev pub begun : Locks
begun = record { reader = iterating; watcher = resting; caller = absent }
