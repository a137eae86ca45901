-- ===== src/Locks/AcquireTests.antt =====
-- Calls of `acquire` for a resource that its holder releases meanwhile.
use sistem_paralel_terdistri.Common.{List, [], contains, false, none, refl, some, true, ◌∷◌, ◌≡◌}
use sistem_paralel_terdistri.Locks.Detector.{add_wait, drop_target, remove_client, set_client_age}
use sistem_paralel_terdistri.Locks.Leader.{
  Attempt, acquire_loop, answered, client_acquire, unanswered,
}
use sistem_paralel_terdistri.Locks.Manager.{
  LockManager, acquire, apply_all, apply_command, do_acquire, do_release, do_release_all, grant,
  init, is_waiting, lock_at, promote, promote_waiters, refuse, release, release_each, release_held,
  wait_on,
}
use sistem_paralel_terdistri.Locks.State.{exclusive, is_held, lock_mode, shared, strongest}

-- What runs.
program : Unit {0}
unfolding is_held strongest lock_mode add_wait drop_target remove_client set_client_age grant
    is_waiting wait_on refuse do_acquire promote promote_waiters release_held do_release
    release_each do_release_all apply_command apply_all acquire_loop client_acquire
program = tt

-- Client 1 holds the resource.
abbrev taken : LockManager
taken = apply_all ((10, 100, acquire 1 7 exclusive none) ∷ []) (init 30)

-- The clock passes the deadline.
abbrev late : Attempt
late = record { reading = 60; outcome = unanswered []; asleep = [] }

-- The first command is refused, client 1 releases the resource, a command times out, and one more is
-- applied.
abbrev rounds : List Attempt
rounds =
    record { reading = 46; outcome = answered [] 46 9 []; asleep = (47, 0, release 1 7) ∷ [] }
    ∷ record { reading = 48; outcome = unanswered []; asleep = [] }
    ∷ record { reading = 50; outcome = answered [] 51 10 []; asleep = [] }
    ∷ late
    ∷ []

-- A shared request waits, is served by the release, and is granted again.
shared_granted : (client_acquire true 4 7 shared 10 none 45 rounds taken).1 ≡ some true
unfolding program
shared_granted = refl

-- An exclusive request is served by the release and refused as it is tried again: the call returns
-- `False`, and the client holds the resource.
exclusive_refused :
    let (m', answer) = client_acquire true 4 7 exclusive 10 none 45 rounds taken in
    (answer ≡ some false) × (contains 4 (lock_at m'.locks 7).holders ≡ true)
unfolding program
exclusive_refused = (refl, refl)
