-- ===== src/Locks/Agreement.antt =====
-- Replicas that apply one log agree, up to the times that they read: tugas-3/src/nodes/lock_manager.py.
use sistem_paralel_terdistri.Common.{
  Bool, List, [], ap, get_or, if◌then◌else◌, refl, sym, ℕ, ◌+◌, ◌∙◌, ◌∷◌, ◌≡◌,
}
use sistem_paralel_terdistri.Locks.Detector.{remove_client}
use sistem_paralel_terdistri.Locks.Manager.{
  Command, LockManager, Reply, abort, acquire, apply_all, apply_command, count, do_release,
  do_release_all, granted, init, locks_of, other, release, release_all, release_each, released,
}
use sistem_paralel_terdistri.Locks.Still.{do_acquire-still, do_release-still, still_result}
use sistem_paralel_terdistri.Locks.Timeless.{leaseless, remove_client-still, timeless}

release_each-still :
    (now client : ℕ) (rs : List ℕ) (m : LockManager) (n : ℕ)
    → still_result (release_each now client rs m n) ≡ release_each 0 client rs (timeless m) n
unfolding release_each
release_each-still now client [] m n = refl
release_each-still now client (r ∷ rs) m n =
    let o = do_release now client r m in
    release_each-still now client rs o.0 (if o.1 then n + 1 else n)
    ∙ ap (λ (x : LockManager × Bool). release_each 0 client rs x.0 (if x.1 then n + 1 else n))
        (do_release-still now client r m)

do_release_all-still :
    (now client : ℕ) (m : LockManager)
    → still_result (do_release_all now client m) ≡ do_release_all 0 client (timeless m)
unfolding do_release_all
do_release_all-still now client m =
    let rs = locks_of m.client_locks client in
    let o = release_each now client rs m 0 in
    ap (λ d. (record (timeless o.0) { deadlock_detector = d }, o.1))
      (remove_client-still client o.0.deadlock_detector)
    ∙ ap
        (λ (x : LockManager × ℕ).
          (record x.0 { deadlock_detector = remove_client client x.0.deadlock_detector }, x.1))
        (release_each-still now client rs m 0)

apply_command-still :
    (now uuid : ℕ) (c : Command) (m : LockManager)
    → still_result (apply_command now uuid c m) ≡ apply_command 0 0 (leaseless c) (timeless m)
unfolding apply_command
apply_command-still now uuid (acquire client r mode lease) m =
    ap (λ (x : LockManager × Bool). (x.0, granted x.1))
      (do_acquire-still now uuid client r mode (get_or lease m.default_lease) m)
apply_command-still now uuid (release client r) m =
    ap (λ (x : LockManager × Bool). (x.0, released x.1)) (do_release-still now client r m)
apply_command-still now uuid (release_all client) m =
    ap (λ (x : LockManager × ℕ). (x.0, count x.1)) (do_release_all-still now client m)
apply_command-still now uuid (abort client) m =
    ap (λ (x : LockManager × ℕ). (x.0, count x.1)) (do_release_all-still now client m)
apply_command-still now uuid other m = refl

-- The log without the readings, and the run of it at time zero.
abbrev pub commands : List (ℕ × ℕ × Command) → List Command
commands [] = []
commands ((now, uuid, c) ∷ cs) = c ∷ commands cs

abbrev still_run : List Command → LockManager → LockManager
still_run [] m = m
still_run (c ∷ cs) m = still_run cs (apply_command 0 0 (leaseless c) m).0

apply_all-still :
    (cs : List (ℕ × ℕ × Command)) (m : LockManager)
    → timeless (apply_all cs m) ≡ still_run (commands cs) (timeless m)
unfolding apply_all
apply_all-still [] m = refl
apply_all-still ((now, uuid, c) ∷ cs) m =
    apply_all-still cs (apply_command now uuid c m).0
    ∙ ap (λ (x : LockManager × Reply). still_run (commands cs) x.0)
        (apply_command-still now uuid c m)

-- Two replicas that apply the same committed commands, each with clock readings, request ids and a
-- default lease of its own, agree on who holds and who waits for what, in which mode and order, on the
-- locks of each client and on who waits for whom: their states differ at most in times, leases and
-- request ids.
pub replicas_agree :
    (lease lease' : ℕ) (cs ds : List (ℕ × ℕ × Command))
    → commands cs ≡ commands ds
    → timeless (apply_all cs (init lease)) ≡ timeless (apply_all ds (init lease'))
replicas_agree lease lease' cs ds same =
    apply_all-still cs (init lease)
    ∙ ap (λ l. still_run l (timeless (init lease))) same
    ∙ sym (apply_all-still ds (init lease'))
