-- ===== src/Locks/Tests.antt =====
-- Two clients at one resource.
use sistem_paralel_terdistri.Common.{
  All, List, [], arith, drop, erase, false, lookup, member, none, refl, some, take, true, ℕ, ◌∷◌,
  ◌≡◌, ◌≤◌, ◌⊎◌,
}
use sistem_paralel_terdistri.Locks.Agreement.{replicas_agree}
use sistem_paralel_terdistri.Locks.Cycles.{detect_cycle_decides}
use sistem_paralel_terdistri.Locks.Detector.{
  DeadlockDetector, add_wait, age, drop_target, max_by_age, remove_client, select_victim,
  set_client_age,
}
use sistem_paralel_terdistri.Locks.Handover.{
  Blocked, Grantable, Hold, do_release_in_order, granted_all,
}
use sistem_paralel_terdistri.Locks.Index.{IsIndexed, client_locks_agree}
use sistem_paralel_terdistri.Locks.Leader.{
  IsApplied, Submit, deadlock_round, expire_each, expired_clients, lease_expiry_round,
  release_expired,
}
use sistem_paralel_terdistri.Locks.Leases.{lease_expiry_round_expires}
use sistem_paralel_terdistri.Locks.Manager.{
  Command, LockManager, acquire, apply_all, apply_command, do_acquire, do_release, do_release_all,
  grant, init, is_waiting, lock_at, new_holder, promote, promote_waiters, refuse, release,
  release_each, release_held, wait_on,
}
use sistem_paralel_terdistri.Locks.Rounds.{deadlock_round_breaks}
use sistem_paralel_terdistri.Locks.Safety.{
  do_acquire-exclusive_holder, exclusive_holder_alone, free_lock_has_no_waiters,
}
use sistem_paralel_terdistri.Locks.Search.{
  clear, climb, detect_cycle, dfs, found, scan, search_from,
}
use sistem_paralel_terdistri.Locks.State.{
  LockHolder, LockMode, LockRequest, LockState, empty_lock, exclusive, is_held, lock_mode, shared,
  strongest,
}
use sistem_paralel_terdistri.Locks.Timeless.{timeless}
use sistem_paralel_terdistri.Locks.Trace.{IsCycle, Walk}
use sistem_paralel_terdistri.Locks.WaitFor.{waits}

-- What runs.
program : Unit {0}
unfolding is_held strongest lock_mode add_wait drop_target remove_client set_client_age max_by_age
    select_victim grant is_waiting wait_on refuse do_acquire promote promote_waiters release_held
    do_release release_each do_release_all apply_command apply_all
program = tt

-- Client 1 takes resource 7 exclusively; clients 2 and 3 ask for it and wait.
abbrev history : List (ℕ × ℕ × Command)
history =
    (10, 100, acquire 1 7 exclusive none)
    ∷ (11, 101, acquire 2 7 exclusive none)
    ∷ (12, 102, acquire 3 7 shared none)
    ∷ []

abbrev contended : LockManager
contended = apply_all history (init 30)

abbrev held_by_one : LockHolder
held_by_one = new_holder 10 1 exclusive 30

abbrev asked : ℕ → ℕ → ℕ → LockMode → LockRequest
asked now uuid client mode = record {
  request_id = uuid;
  client_id = client;
  resource = 7;
  mode = mode;
  timestamp = now;
}

abbrev busy : LockState
busy = record {
  resource = 7;
  holders = (1, held_by_one) ∷ [];
  waiters = asked 11 101 2 exclusive ∷ asked 12 102 3 shared ∷ [];
}

contended_busy : lookup 7 contended.locks ≡ some busy
unfolding program
contended_busy = refl

-- Both waiters wait for the holder.
contended_waits : waits contended.deadlock_detector 2 1 ≡ true
unfolding program
contended_waits = refl

exclusive_holder_alone_example : ◌≡◌ {A = ℕ} 1 1
exclusive_holder_alone_example =
    exclusive_holder_alone 30 history 7 1 1 busy held_by_one held_by_one contended_busy refl refl
      refl

-- Client 1 has released: the queue is served until the lock is free again.
abbrev emptied : List (ℕ × ℕ × Command)
emptied = (10, 100, acquire 1 7 exclusive none) ∷ (20, 101, release 1 7) ∷ []

free_lock_has_no_waiters_example : ◌≡◌ {A = List LockRequest} [] []
unfolding program
free_lock_has_no_waiters_example = free_lock_has_no_waiters 30 emptied 7 (empty_lock 7) refl refl

client_locks_agree_example : IsIndexed contended
client_locks_agree_example = client_locks_agree 30 history

do_acquire-exclusive_holder_example :
    ((do_acquire 13 103 1 7 exclusive 30 contended).1 ≡ false)
    × (is_waiting 1 (lock_at (do_acquire 13 103 1 7 exclusive 30 contended).0.locks 7).waiters
        ≡ true)
do_acquire-exclusive_holder_example =
    do_acquire-exclusive_holder 13 103 1 7 exclusive 30 contended busy held_by_one contended_busy
      refl refl

do_release_in_order_example :
    let (m', done) = do_release 20 1 7 contended in
    let s' = lock_at m'.locks 7 in
    let left : LockState = record busy { holders = erase 1 busy.holders } in
    (done ≡ true)
    × ((n : ℕ) × (s'.waiters ≡ drop n busy.waiters)
        × (s'.holders ≡ granted_all 20 contended.default_lease (take n busy.waiters) left.holders)
        × Grantable left (take n busy.waiters)
        × Hold s'.holders (take n busy.waiters)
        × Blocked s' s'.waiters)
do_release_in_order_example = do_release_in_order 20 1 7 contended busy contended_busy refl

abbrev triangle : DeadlockDetector
triangle = record {
  wait_for = (1, 2 ∷ []) ∷ (2, 3 ∷ []) ∷ (3, 1 ∷ []) ∷ [];
  client_age = (1, 100) ∷ (2, 200) ∷ (3, 150) ∷ [];
}

-- tugas-3/tests/unit/test_deadlock_detector.py, `test_victim_selection_picks_youngest`
youngest : select_victim triangle (1 ∷ 2 ∷ 3 ∷ []) ≡ some 2
unfolding program
youngest = refl

-- tugas-3/tests/unit/test_deadlock_detector.py, `test_simple_cycle`
triangle_cycle : detect_cycle triangle ≡ found (1 ∷ 2 ∷ 3 ∷ 1 ∷ [])
unfolding detect_cycle search_from dfs scan climb
triangle_cycle = refl

chain_clear : detect_cycle (remove_client 2 triangle) ≡ clear
unfolding program detect_cycle search_from dfs scan climb
chain_clear = refl

detect_cycle_decides_example :
    ((c : List ℕ) × (detect_cycle triangle ≡ found c) × IsCycle triangle.wait_for c)
    ⊎ ((detect_cycle triangle ≡ clear)
        × ((x : ℕ) (body : List ℕ) → ¬ (Walk triangle.wait_for x body x)))
detect_cycle_decides_example = detect_cycle_decides triangle

-- Every command is applied at once, at time 50.
abbrev submit_at_50 : Submit
submit_at_50 c m = apply_command 50 9 c m

submit_at_50-IsApplied : IsApplied 45 submit_at_50
submit_at_50-IsApplied c m = (50, 9, omega arith, refl)

-- The lease of client 1 ends at 40, so that client 2 gets the resource.
expired : LockManager
expired = lease_expiry_round true submit_at_50 45 contended

expired_state :
    lookup 7 expired.locks
    ≡ some (record {
      resource = 7;
      holders = (2, new_holder 50 2 exclusive 30) ∷ [];
      waiters = asked 12 102 3 shared ∷ [];
    })
unfolding program expired lease_expiry_round expire_each release_expired expired_clients
expired_state = refl

lease_expiry_round_expires_example : 45 ≤ (new_holder 50 2 exclusive 30).lease_until
unfolding expired
lease_expiry_round_expires_example =
    lease_expiry_round_expires 30 history 45 submit_at_50 submit_at_50-IsApplied 7 _ 2
      (new_holder 50 2 exclusive 30) expired_state refl

-- Clients 1 and 2 hold a resource each and ask for the other's.
abbrev crossed : LockManager
crossed =
    apply_all
      ((10, 100, acquire 1 7 exclusive none)
        ∷ (11, 101, acquire 2 8 exclusive none)
        ∷ (12, 102, acquire 1 8 exclusive none)
        ∷ (13, 103, acquire 2 7 exclusive none)
        ∷ [])
      (init 30)

deadlock_round_breaks_example :
    let d = crossed.deadlock_detector in
    let m' = deadlock_round true submit_at_50 crossed in
    ((m' ≡ crossed) × ((x : ℕ) (body : List ℕ) → ¬ (Walk d.wait_for x body x)))
    ⊎ ((c : List ℕ) × (v : ℕ) × IsCycle d.wait_for c
        × (member v c ≡ true)
        × All (λ x. age d x ≤ age d v) c
        × ((u : ℕ)
            → (waits m'.deadlock_detector u v ≡ false) × (waits m'.deadlock_detector v u ≡ false)))
deadlock_round_breaks_example = deadlock_round_breaks 45 submit_at_50 crossed submit_at_50-IsApplied

-- The same commands with other readings, ids and another default lease.
abbrev elsewhere : List (ℕ × ℕ × Command)
elsewhere =
    (13, 200, acquire 1 7 exclusive none)
    ∷ (15, 201, acquire 2 7 exclusive none)
    ∷ (16, 202, acquire 3 7 shared none)
    ∷ []

replicas_agree_example :
    timeless (apply_all history (init 30)) ≡ timeless (apply_all elsewhere (init 60))
replicas_agree_example = replicas_agree 30 60 history elsewhere refl
