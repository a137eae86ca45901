-- ===== src/Locks/Rounds.antt =====
-- What a round of `_deadlock_detection_loop` achieves:
-- tugas-3/src/nodes/lock_manager.py.
use sistem_paralel_terdistri.Common.{
  All, List, [], arith, false, inl, inr, member, refl, some, subst, sym, true, ℕ, ◌++◌, ◌∷◌, ◌≡◌,
  ◌≤◌, ◌⊎◌,
}
use sistem_paralel_terdistri.Locks.Cycles.{detect_cycle_decides}
use sistem_paralel_terdistri.Locks.Detector.{DeadlockDetector, age, select_victim}
use sistem_paralel_terdistri.Locks.Leader.{IsApplied, Submit, abort_victim, deadlock_round}
use sistem_paralel_terdistri.Locks.Manager.{
  LockManager, abort, apply_command, do_release_all, locks_of, release_each,
}
use sistem_paralel_terdistri.Locks.Trace.{IsCycle, Walk}
use sistem_paralel_terdistri.Locks.WaitFor.{select_victim_youngest, waits, waits-remove_client}

-- No client waits for `v`, and `v` waits for none.
abbrev IsOut : ℕ → DeadlockDetector → Type 0
IsOut v d = (u : ℕ) → (waits d u v ≡ false) × (waits d v u ≡ false)

do_release_all-IsOut :
    (now client : ℕ) (m : LockManager)
    → IsOut client (do_release_all now client m).0.deadlock_detector
unfolding do_release_all
do_release_all-IsOut now client m u =
    let d = (release_each now client (locks_of m.client_locks client) m 0).0.deadlock_detector in
    (
      ground (arith, waits-remove_client u client client d),
      ground (arith, waits-remove_client client u client d),
    )

abort_victim-IsOut :
    (from : ℕ) (submit : Submit) (cycle : List ℕ) (v : ℕ) (m : LockManager)
    → IsApplied from submit
    → select_victim m.deadlock_detector cycle ≡ some v
    → IsOut v (abort_victim submit cycle m).deadlock_detector
unfolding abort_victim apply_command
abort_victim-IsOut from submit cycle v m applied e =
    let (now, uuid, late, g) = applied (abort v) m in
    rw (abort_victim, e, g) (do_release_all-IsOut now v m)

-- A round of `_deadlock_detection_loop` on a leader whose commands are applied: either no client
-- waits for itself over any number of others, and nothing changes, or a client of a cycle is chosen
-- with none of the cycle younger, and afterwards it waits for no client and none waits for it.
pub deadlock_round_breaks :
    (from : ℕ) (submit : Submit) (m : LockManager)
    → IsApplied from submit
    → let d = m.deadlock_detector in
      let m' = deadlock_round true submit m in
      ((m' ≡ m) × ((x : ℕ) (body : List ℕ) → ¬ (Walk d.wait_for x body x)))
      ⊎ ((c : List ℕ) × (v : ℕ) × IsCycle d.wait_for c
          × (member v c ≡ true)
          × All (λ x. age d x ≤ age d v) c
          × ((u : ℕ)
              → (waits m'.deadlock_detector u v ≡ false)
                × (waits m'.deadlock_detector v u ≡ false)))
unfolding deadlock_round
deadlock_round_breaks from submit m applied = elim (detect_cycle_decides m.deadlock_detector) [
  | inl (c, e, (x, body, p, w)) ↦
      let d = m.deadlock_detector in
      let (v, f, chosen, oldest) = select_victim_youngest d x (body ++ x ∷ []) in
      inr (
        c,
        v,
        (x, body, p, w),
        subst (λ l. member v l ≡ true) (sym p) chosen,
        subst (λ l. All (λ y. age d y ≤ age d v) l) (sym p) oldest,
        rw (e, p) (abort_victim-IsOut from submit (x ∷ (body ++ x ∷ [])) v m applied f),
      )
  | inr (e, none_waits) ↦ inl (rw e refl, none_waits)
]
