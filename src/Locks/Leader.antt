-- ===== src/Locks/Leader.antt =====
-- The loops and the client calls of the leader in tugas-3/src/nodes/lock_manager.py:
-- `_lease_expiry_loop`, `_deadlock_detection_loop`, `acquire`, `release` and `release_all`. `submit`
-- stands for `self.raft.submit`: what a submitted command does to the replica, and its result. In
-- `acquire`, which submits again and again, other commands are applied before, after and between.
use sistem_paralel_terdistri.Common.{
  Bool, List, Option, [], false, get_or, if◌then◌else◌, keys, ltb, none, some, true, values, ℕ, ◌+◌,
  ◌∷◌, ◌≡◌, ◌≤◌,
}
use sistem_paralel_terdistri.Locks.Detector.{select_victim}
use sistem_paralel_terdistri.Locks.Manager.{
  Command, LockManager, Reply, abort, acquire, apply_all, apply_command, count, granted, lock_at,
  nothing, release, release_all, released,
}
use sistem_paralel_terdistri.Locks.Search.{Verdict, clear, detect_cycle, found, out_of_fuel}
use sistem_paralel_terdistri.Locks.State.{LockHolder, LockMode}

abbrev pub Submit : Type 0
Submit = Command → LockManager → LockManager × Reply

-- `[h.client_id for h in state.holders.values() if h.lease_until < now]`
unfoldable pub expired_clients : ℕ → List LockHolder → List ℕ
expired_clients now [] = []
expired_clients now (h ∷ hs) =
    let rest = expired_clients now hs in if ltb h.lease_until now then h.client_id ∷ rest else rest

-- The loop over the expired clients of a resource.
unfoldable pub release_expired : Submit → ℕ → List ℕ → LockManager → LockManager
release_expired submit r [] m = m
release_expired submit r (c ∷ cs) m = release_expired submit r cs (submit (release c r) m).0

-- The loop over a snapshot of the resources.
unfoldable pub expire_each : Submit → ℕ → List ℕ → LockManager → LockManager
expire_each submit now [] m = m
expire_each submit now (r ∷ rs) m =
    expire_each submit now rs
      (release_expired submit r (expired_clients now (values (lock_at m.locks r).holders)) m)

-- One round of `_lease_expiry_loop`.
unfoldable pub lease_expiry_round : Bool → Submit → ℕ → LockManager → LockManager
lease_expiry_round is_leader submit now m =
    if is_leader then expire_each submit now (keys m.locks) m else m

-- `if cycle:`, and the submission of the victim. Python raises `ValueError` on an empty cycle.
unfoldable pub abort_victim : Submit → List ℕ → LockManager → LockManager
abort_victim submit cycle m = elim (select_victim m.deadlock_detector cycle) [
  | none ↦ m
  | some victim ↦ (submit (abort victim) m).0
]

abbrev pub on_verdict : Submit → Verdict → LockManager → LockManager
on_verdict submit (found cycle) m = abort_victim submit cycle m
on_verdict submit clear m = m
on_verdict submit out_of_fuel m = m

-- One round of `_deadlock_detection_loop`.
unfoldable pub deadlock_round : Bool → Submit → LockManager → LockManager
deadlock_round is_leader submit m =
    if is_leader then on_verdict submit (detect_cycle m.deadlock_detector) m else m

-- The truth value of a result.
abbrev pub truthy : Reply → Bool
truthy (granted b) = b
truthy (released b) = b
truthy (count n) = ltb 0 n
truthy nothing = false

-- How `submit` ends for the command of a client that waits, and the commands that the replica
-- applies meanwhile: its own command is applied among others and the result comes in time, or the
-- answer is `None`, after the timeout or on a replica that no longer leads.
pub data Submitted : Type 0 where
  answered :
      (before : List (ℕ × ℕ × Command)) (now uuid : ℕ) (after : List (ℕ × ℕ × Command)) → Submitted
  unanswered : (others : List (ℕ × ℕ × Command)) → Submitted

-- A round of `acquire`: the clock's reading, its `submit`, and the commands applied in its sleep.
pub record Attempt : Type 0 where
  pub reading : ℕ
  pub outcome : Submitted
  pub asleep : List (ℕ × ℕ × Command)

abbrev pub submitted : Submitted → Command → LockManager → LockManager × Reply
submitted (answered before now uuid after) c m =
    let (m', reply) = apply_command now uuid c (apply_all before m) in (apply_all after m', reply)
submitted (unanswered others) c m = (apply_all others m, nothing)

-- The `while` loop of `acquire`; `none` when the rounds end before the loop does.
unfoldable pub acquire_loop : ℕ → Command → List Attempt → LockManager → LockManager × Option Bool
acquire_loop deadline c [] m = (m, none)
acquire_loop deadline c (a ∷ rounds) m =
    let tried = submitted a.outcome c m in
    let again = acquire_loop deadline c rounds (apply_all a.asleep tried.0) in
    if ltb a.reading deadline
    then if truthy tried.1 then (tried.0, some true) else again
    else (m, some false)

-- `start` is the reading that sets the deadline.
unfoldable pub client_acquire :
    Bool
    → ℕ
    → ℕ
    → LockMode
    → ℕ
    → Option ℕ
    → ℕ
    → List Attempt
    → LockManager
    → LockManager × Option Bool
client_acquire is_leader client r mode timeout lease start rounds m =
    if is_leader
    then acquire_loop (start + timeout)
        (acquire client r mode (some (get_or lease m.default_lease))) rounds m
    else (m, some false)

unfoldable pub client_release : Bool → Submit → ℕ → ℕ → LockManager → LockManager × Bool
client_release is_leader submit client r m =
    if is_leader
    then (let (m', result) = submit (release client r) m in (m', truthy result))
    else (m, false)

-- `result or 0`
abbrev pub number : Reply → ℕ
number (count n) = n
number (granted b) = 0
number (released b) = 0
number nothing = 0

unfoldable pub client_release_all : Bool → Submit → ℕ → LockManager → LockManager × ℕ
client_release_all is_leader submit client m =
    if is_leader
    then (let (m', result) = submit (release_all client) m in (m', number result))
    else (m, 0)

-- What a background loop relies on when the replica leads a majority: the command is committed and
-- applied, not before the time `from`, and no other command between those of the round.
abbrev pub IsApplied : ℕ → Submit → Type 0
IsApplied from submit =
    (c : Command) (m : LockManager)
    → (now : ℕ) × (uuid : ℕ) × (from ≤ now) × (submit c m ≡ apply_command now uuid c m)
