-- ===== src/P2P/Lock/Blocking.antt =====
-- When joinChannel gives the host's lock back.
use plan_vault_libp2p.Prelude.{◌≡◌, ◌↔◌, refl, subst}
use plan_vault_libp2p.P2P.Lock.{
  LoopAt, selecting, asking, saving, ended, JoinAt, idle, joining, signalling, Joint, Turn, ticks,
  locks_free, gives_up, registers, signals, Goes, stays, then_turns, started,
}

-- A signal waits for a loop that waits for the lock, or that has ended.
abbrev IsStuck : LoopAt → JoinAt → Type 0
IsStuck asking signalling = Unit
IsStuck ended signalling = Unit
IsStuck _ _ = ⊥

abbrev Stuck : Joint → Type 0
Stuck s = IsStuck s.loop s.join

-- The lock has one holder.
abbrev IsExclusive : LoopAt → JoinAt → Type 0
IsExclusive saving joining = ⊥
IsExclusive saving signalling = ⊥
IsExclusive _ _ = Unit

Turn-IsStuck : {l l' : LoopAt} {j j' : JoinAt} → Turn l j l' j' → IsStuck l j → IsStuck l' j'
Turn-IsStuck (gives_up selecting) d = elim d [ ]
Turn-IsStuck (gives_up asking) d = elim d [ ]
Turn-IsStuck (gives_up saving) d = elim d [ ]
Turn-IsStuck (gives_up ended) d = elim d [ ]
Turn-IsStuck (registers selecting) d = elim d [ ]
Turn-IsStuck (registers asking) d = elim d [ ]
Turn-IsStuck (registers saving) d = elim d [ ]
Turn-IsStuck (registers ended) d = elim d [ ]
Turn-IsStuck _ d = elim d [ ]

Turn-IsExclusive :
    {l l' : LoopAt} {j j' : JoinAt} → Turn l j l' j' → IsExclusive l j → IsExclusive l' j'
Turn-IsExclusive (gives_up l) d = exclusive_idle l
  where
    exclusive_idle : (l : LoopAt) → IsExclusive l idle
    exclusive_idle selecting = tt
    exclusive_idle asking = tt
    exclusive_idle saving = tt
    exclusive_idle ended = tt
Turn-IsExclusive (registers saving) d = elim d [ ]
Turn-IsExclusive _ d = tt

Goes-Stuck : (s u : Joint) → Goes s u → Stuck s → Stuck u
Goes-Stuck s u stays d = d
Goes-Stuck s u (then_turns run turn) d = Turn-IsStuck turn (Goes-Stuck s _ run d)

Goes-IsExclusive : (u : Joint) → Goes started u → IsExclusive u.loop u.join
Goes-IsExclusive u stays = tt
Goes-IsExclusive u (then_turns run turn) = Turn-IsExclusive turn (Goes-IsExclusive _ run)

-- joinChannel does not have the lock.
abbrev Returns : Joint → Type 0
Returns s = (u : Joint) × Goes s u × (u.join ≡ idle)

idle-IsStuck : (l : LoopAt) → ¬ IsStuck l idle
idle-IsStuck selecting d = elim d [ ]
idle-IsStuck asking d = elim d [ ]
idle-IsStuck saving d = elim d [ ]
idle-IsStuck ended d = elim d [ ]

Returns-Stuck : (s : Joint) → Returns s → ¬ Stuck s
Returns-Stuck s (u, run, free) d =
    idle-IsStuck u.loop (subst (λ (j : JoinAt). IsStuck u.loop j) free (Goes-Stuck s u run d))

abbrev at : LoopAt → JoinAt → Joint
at l j = record { loop = l; join = j }

returns : (l : LoopAt) (j : JoinAt) → IsExclusive l j → ¬ IsStuck l j → Returns (at l j)
returns l idle sound alive = (at l idle, stays, refl)
returns l joining sound alive = (at l idle, then_turns stays (gives_up l), refl)
returns selecting signalling sound alive = (at selecting idle, then_turns stays signals, refl)
returns asking signalling sound alive = absurd (alive tt)
returns saving signalling sound alive = elim sound [ ]
returns ended signalling sound alive = absurd (alive tt)

-- A joinChannel that has registered its handler can meet a loop that waits for the host's lock to
-- take a snapshot. Whatever state is reached from the start of the loop, joinChannel can return
-- exactly if it is not about to signal such a loop, or one that has ended: from these states no run
-- lets it return.
pub joins_return :
    Goes started (record { loop = asking; join = signalling })
    × ((s : Joint) → Goes started s → ((u : Joint) × Goes s u × (u.join ≡ idle)) ↔ (¬ Stuck s))
joins_return = (
  then_turns (then_turns (then_turns stays locks_free) (registers selecting)) (ticks signalling),
  λ s run. (Returns-Stuck s, λ alive. returns s.loop s.join (Goes-IsExclusive s run) alive),
)
