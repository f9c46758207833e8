-- ===== src/P2P/Lock.antt =====
-- The host's lock in p2p/host.go with the unbuffered snapshotUpdateCh: the loop of watchTopics and
-- one joinChannel. A send on the channel is one step with the receive that takes it, and who waits
-- does not move.
pub mod Blocking

-- The loop: at its select, in `snapshot` before it has the read lock, with the read lock, or ended
-- with the host's context.
pub data LoopAt : Type 0 where
  selecting asking saving ended : LoopAt

-- joinChannel: not called, with the lock, or with the lock and a signal to send for its handler.
pub data JoinAt : Type 0 where
  idle joining signalling : JoinAt

pub record Joint : Type 0 where
  pub loop : LoopAt
  pub join : JoinAt

pub data Turn : LoopAt → JoinAt → LoopAt → JoinAt → Type 0 where
  -- The ticker, with the flag set.
  ticks : (j : JoinAt) → Turn selecting j asking j
  reads : Turn asking idle saving idle
  saves : (j : JoinAt) → Turn saving j selecting j
  ends : (j : JoinAt) → Turn selecting j ended j
  locks_free : Turn selecting idle selecting joining
  locks_asking : Turn asking idle asking joining
  locks_ended : Turn ended idle ended joining
  -- The URI has a handler, or there is no new one.
  gives_up : (l : LoopAt) → Turn l joining l idle
  registers : (l : LoopAt) → Turn l joining l signalling
  signals : Turn selecting signalling selecting idle

pub data Goes (s : Joint) : Joint → Type 0 where
  stays : Goes s s
  then_turns : {t u : Joint} → Goes s t → Turn t.loop t.join u.loop u.join → Goes s u

abbrev pub started : Joint
started = record { loop = selecting; join = idle }
