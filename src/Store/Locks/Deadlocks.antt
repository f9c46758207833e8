-- ===== src/Store/Locks/Deadlocks.antt =====
-- Which states of the lock free it again.
use plan_vault_libp2p.Prelude.{◌≡◌, ◌↔◌, refl, subst}
use plan_vault_libp2p.Store.Locks.{
  ReaderAt, iterating, waiting, leaving, gone, WatcherAt, resting, notifying, CallerAt, absent,
  resetting, Locks, Move, drains, finishes, cancelled, updates, notifies_loop, notifies_select,
  subscribes, resets, Reach, here, later, begun,
}

-- Nobody holds the lock.
pub record IsFree (s : Locks) : Type 0 where
  pub no_watcher : s.watcher ≡ resting
  pub no_caller : s.caller ≡ absent

-- A reset is sent to a subscriber that does not receive one, or a notification to one that has
-- returned.
abbrev IsDeadlocked : ReaderAt → WatcherAt → CallerAt → Type 0
IsDeadlocked waiting resting resetting = Unit
IsDeadlocked leaving resting resetting = Unit
IsDeadlocked leaving notifying absent = Unit
IsDeadlocked _ _ _ = ⊥

abbrev Deadlocked : Locks → Type 0
Deadlocked s = IsDeadlocked s.reader s.watcher s.caller

-- What a run keeps: the lock has one kind of holder, and who holds it has found the subscriber.
abbrev IsSound : ReaderAt → WatcherAt → CallerAt → Type 0
IsSound _ notifying resetting = ⊥
IsSound gone notifying _ = ⊥
IsSound gone _ resetting = ⊥
IsSound _ _ _ = Unit

abbrev Sound : Locks → Type 0
Sound s = IsSound s.reader s.watcher s.caller

Move-IsDeadlocked :
    {r r' : ReaderAt} {w w' : WatcherAt} {c c' : CallerAt}
    → Move r w c r' w' c'
    → IsDeadlocked r w c
    → IsDeadlocked r' w' c'
Move-IsDeadlocked (cancelled resting resetting) d = tt
Move-IsDeadlocked (updates leaving _) d = elim d [ ]
Move-IsDeadlocked (updates waiting _) d = elim d [ ]
Move-IsDeadlocked (subscribes leaving _) d = elim d [ ]
Move-IsDeadlocked (subscribes waiting _) d = elim d [ ]
Move-IsDeadlocked _ d = elim d [ ]

Move-IsSound :
    {r r' : ReaderAt} {w w' : WatcherAt} {c c' : CallerAt}
    → Move r w c r' w' c'
    → IsSound r w c
    → IsSound r' w' c'
Move-IsSound (drains notifying resetting) d = elim d [ ]
Move-IsSound (finishes notifying resetting) d = elim d [ ]
Move-IsSound (cancelled notifying resetting) d = elim d [ ]
Move-IsSound (updates gone apart) d = absurd (apart refl)
Move-IsSound (subscribes gone apart) d = absurd (apart refl)
Move-IsSound (resets resting) d = tt
Move-IsSound (resets notifying) d = elim d [ ]
Move-IsSound _ d = tt

Reach-Deadlocked : (s u : Locks) → Reach s u → Deadlocked s → Deadlocked u
Reach-Deadlocked s u here d = d
Reach-Deadlocked s u (later run move) d = Move-IsDeadlocked move (Reach-Deadlocked s _ run d)

Reach-Sound : (u : Locks) → Reach begun u → Sound u
Reach-Sound u here = tt
Reach-Sound u (later run move) = Move-IsSound move (Reach-Sound _ run)

abbrev Frees : Locks → Type 0
Frees s = (u : Locks) × Reach s u × IsFree u

free-IsDeadlocked : (r : ReaderAt) → ¬ IsDeadlocked r resting absent
free-IsDeadlocked iterating d = elim d [ ]
free-IsDeadlocked waiting d = elim d [ ]
free-IsDeadlocked leaving d = elim d [ ]
free-IsDeadlocked gone d = elim d [ ]

Frees-Deadlocked : (s : Locks) → Frees s → ¬ Deadlocked s
Frees-Deadlocked s (u, run, free) d = free-IsDeadlocked u.reader (
    subst (λ (c : CallerAt). IsDeadlocked u.reader resting c) free.no_caller
      (subst (λ (w : WatcherAt). IsDeadlocked u.reader w u.caller) free.no_watcher
        (Reach-Deadlocked s u run d)))

abbrev at : ReaderAt → WatcherAt → CallerAt → Locks
at r w c = record { reader = r; watcher = w; caller = c }

-- One move that gives the lock back.
Frees-next :
    (s : Locks) (r : ReaderAt) → Move s.reader s.watcher s.caller r resting absent → Frees s
Frees-next s r move =
    (at r resting absent, later here move, record { no_watcher = refl; no_caller = refl })

frees :
    (r : ReaderAt) (w : WatcherAt) (c : CallerAt)
    → IsSound r w c
    → ¬ IsDeadlocked r w c
    → Frees (at r w c)
frees r resting absent sound alive =
    (at r resting absent, here, record { no_watcher = refl; no_caller = refl })
frees iterating notifying absent sound alive = Frees-next _ iterating (notifies_loop absent)
frees waiting notifying absent sound alive = Frees-next _ iterating (notifies_select absent)
frees leaving notifying absent sound alive = absurd (alive tt)
frees iterating resting resetting sound alive = Frees-next _ iterating (resets resting)
frees waiting resting resetting sound alive = absurd (alive tt)
frees leaving resting resetting sound alive = absurd (alive tt)
frees gone notifying absent sound alive = elim sound [ ]
frees gone resting resetting sound alive = elim sound [ ]
frees _ notifying resetting sound alive = elim sound [ ]

-- From the first Subscribe on, a reset can meet a subscriber that has read everything and waits,
-- and a notification one that has returned. Whatever state is reached, the lock can become free
-- again exactly if the state is not one of these, the reader's end by its context included: from
-- these no run frees the lock.
pub deadlocks :
    Reach begun (record { reader = waiting; watcher = resting; caller = resetting })
    × Reach begun (record { reader = leaving; watcher = notifying; caller = absent })
    × ((s : Locks) → Reach begun s → ((u : Locks) × Reach s u × IsFree u) ↔ (¬ Deadlocked s))
deadlocks = (
  later (later here (drains resting absent)) (subscribes waiting λ e. cc),
  later (later here (finishes resting absent)) (updates leaving λ e. cc),
  λ s run.
      (Frees-Deadlocked s, λ alive. frees s.reader s.watcher s.caller (Reach-Sound s run) alive),
)
