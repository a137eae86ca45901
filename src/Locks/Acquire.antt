-- ===== src/Locks/Acquire.antt =====
-- What a call of `acquire` answers: tugas-3/src/nodes/lock_manager.py.
use sistem_paralel_terdistri.Common.{
  Bool, List, Option, [], contains, false, some, true, ℕ, ◌++◌, ◌<◌, ◌∷◌, ◌≡◌, ◌≤◌, ◌⊎◌,
}
use sistem_paralel_terdistri.Locks.Leader.{Attempt, Submitted, answered, submitted, unanswered}
use sistem_paralel_terdistri.Locks.Manager.{Command, LockManager, apply_all, apply_command, lock_at}
use sistem_paralel_terdistri.Locks.State.{LockMode, lock_mode, shared}

-- The client is among the holders of the resource.
abbrev HasLock : ℕ → ℕ → LockManager → Type 0
HasLock client r m = contains client (lock_at m.locks r).holders ≡ true

-- The resource is free, or a shared request meets shared holders.
abbrev pub CanEnter : ℕ → LockMode → LockManager → Type 0
CanEnter r mode m =
    let s = lock_at m.locks r in (s.holders ≡ []) ⊎ ((mode ≡ shared) × (lock_mode s ≡ some shared))

-- The command of a round is answered in time, and it meets the resource as it must be.
abbrev pub Enters : ℕ → LockMode → LockManager → Submitted → Type 0
Enters r mode m (answered before now uuid after) = CanEnter r mode (apply_all before m)
Enters r mode m (unanswered others) = ⊥

-- The client holds the resource when its command has been applied.
abbrev pub Obtains : ℕ → ℕ → Command → LockManager → Submitted → Type 0
Obtains client r c m (answered before now uuid after) =
    HasLock client r (apply_command now uuid c (apply_all before m)).0
Obtains client r c m (unanswered others) = ⊥

-- The state after the rounds.
abbrev pub after_rounds : Command → List Attempt → LockManager → LockManager
after_rounds c [] m = m
after_rounds c (a ∷ rounds) m =
    after_rounds c rounds (apply_all a.asleep (submitted a.outcome c m).0)

-- The rounds begin before the deadline, and none gets the lock.
abbrev pub InVain : ℕ → ℕ → LockMode → Command → List Attempt → LockManager → Type 0
InVain deadline r mode c [] m = Unit
InVain deadline r mode c (a ∷ rounds) m =
    (a.reading < deadline)
    × (¬ (Enters r mode m a.outcome))
    × InVain deadline r mode c rounds (apply_all a.asleep (submitted a.outcome c m).0)

-- `acquire` returned `True` after a round.
abbrev pub IsGranted :
    ℕ → ℕ → ℕ → LockMode → Command → List Attempt → LockManager → LockManager × Option Bool → Type 0
IsGranted deadline client r mode c rounds m (m', answer) =
    (answer ≡ some true)
    × ((vain : List Attempt) × (a : Attempt) × (rest : List Attempt) × (rounds ≡ vain ++ a ∷ rest)
        × InVain deadline r mode c vain m
        × (a.reading < deadline)
        × Enters r mode (after_rounds c vain m) a.outcome
        × Obtains client r c (after_rounds c vain m) a.outcome
        × (m' ≡ (submitted a.outcome c (after_rounds c vain m)).0))

-- `acquire` returned `False` at a round that is too late.
abbrev pub IsTimedOut :
    ℕ → ℕ → LockMode → Command → List Attempt → LockManager → LockManager × Option Bool → Type 0
IsTimedOut deadline r mode c rounds m (m', answer) =
    (answer ≡ some false)
    × ((vain : List Attempt) × (a : Attempt) × (rest : List Attempt) × (rounds ≡ vain ++ a ∷ rest)
        × InVain deadline r mode c vain m
        × (deadline ≤ a.reading)
        × (m' ≡ after_rounds c vain m))
