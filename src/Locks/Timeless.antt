-- ===== src/Locks/Timeless.antt =====
-- The lock manager without clocks, leases and request ids: what the replicas of
-- tugas-3/src/nodes/lock_manager.py have in common.
use sistem_paralel_terdistri.Common.{
  Bool-cases, Dict, List, [], ap, arith, contains, contains-map_values, erase, if◌then◌else◌, inl,
  inr, insert, is_empty-map_values, keys-map_values, map, map-append, map_values, map_values-erase,
  map_values-insert, none, not, refl, sym, values, ℕ, ◌&&◌, ◌==◌, ◌∙◌, ◌∷◌, ◌≡◌,
}
use sistem_paralel_terdistri.Locks.Detector.{
  DeadlockDetector, add_wait, drop_target, remove_client, set_client_age,
}
use sistem_paralel_terdistri.Locks.Exclusion.{can_share}
use sistem_paralel_terdistri.Locks.Manager.{
  Command, LockManager, abort, acquire, grant, is_waiting, lock_at, new_holder, note_lock, other,
  promote, refuse, release, release_all, wait_on,
}
use sistem_paralel_terdistri.Locks.State.{
  LockHolder, LockMode, LockRequest, LockState, is_held, lock_mode, mode_is, same_mode, shared,
  strongest,
}

abbrev pub still_holder : LockHolder → LockHolder
still_holder h = record { client_id = h.client_id; mode = h.mode; acquired_at = 0; lease_until = 0 }

abbrev pub still_request : LockRequest → LockRequest
still_request w = record {
  request_id = 0;
  client_id = w.client_id;
  resource = w.resource;
  mode = w.mode;
  timestamp = 0;
}

abbrev pub still_state : LockState → LockState
still_state s = record {
  resource = s.resource;
  holders = map_values still_holder s.holders;
  waiters = map still_request s.waiters;
}

abbrev pub still_detector : DeadlockDetector → DeadlockDetector
still_detector d = record { wait_for = d.wait_for; client_age = map_values (λ t. 0) d.client_age }

-- The state with every time, lease and request id set to zero.
abbrev pub timeless : LockManager → LockManager
timeless m = record {
  default_lease = 0;
  locks = map_values still_state m.locks;
  client_locks = m.client_locks;
  deadlock_detector = still_detector m.deadlock_detector;
}

-- The command without its lease.
abbrev pub leaseless : Command → Command
leaseless (acquire client r mode lease) = acquire client r mode none
leaseless (release client r) = release client r
leaseless (release_all client) = release_all client
leaseless (abort client) = abort client
leaseless other = other

pub is_held-still : (s : LockState) → is_held (still_state s) ≡ is_held s
unfolding is_held
is_held-still s = ap not (is_empty-map_values still_holder s.holders)

strongest-still :
    (d : Dict LockHolder) → strongest (values (map_values still_holder d)) ≡ strongest (values d)
unfolding strongest
strongest-still [] = refl
strongest-still ((j, h) ∷ d) = ground (arith, strongest-still d)

pub lock_mode-still : (s : LockState) → lock_mode (still_state s) ≡ lock_mode s
unfolding lock_mode
lock_mode-still s = rw (is_empty-map_values, strongest-still) refl

is_waiting-still :
    (client : ℕ) (ws : List LockRequest)
    → is_waiting client (map still_request ws) ≡ is_waiting client ws
unfolding is_waiting
is_waiting-still client [] = refl
is_waiting-still client (w ∷ ws) = ground (arith, is_waiting-still client ws)

pub lock_at-still :
    (r : ℕ) (d : Dict LockState) → lock_at (map_values still_state d) r ≡ still_state (lock_at d r)
lock_at-still r [] = refl
lock_at-still r ((j, s) ∷ d) = elim (Bool-cases (j == r)) [
  | inl e ↦ rw e refl
  | inr e ↦ rw e (lock_at-still r d)
]

pub set_client_age-still :
    (client now : ℕ) (d : DeadlockDetector)
    → still_detector (set_client_age client now d) ≡ set_client_age client 0 (still_detector d)
unfolding set_client_age
set_client_age-still client now d = elim (Bool-cases (contains client d.client_age)) [
  | inl e ↦ rw (contains-map_values, e) refl
  | inr e ↦
      rw (contains-map_values, e)
        (ap (λ a. record { wait_for = d.wait_for; client_age = a })
          (map_values-insert (λ t. 0) client now d.client_age))
]

pub remove_client-still :
    (client : ℕ) (d : DeadlockDetector)
    → still_detector (remove_client client d) ≡ remove_client client (still_detector d)
unfolding remove_client
remove_client-still client d =
    ap (λ a. record { wait_for = drop_target client (erase client d.wait_for); client_age = a })
      (map_values-erase (λ t. 0) client d.client_age)

add_wait-still :
    (client h : ℕ) (d : DeadlockDetector)
    → still_detector (add_wait client h d) ≡ add_wait client h (still_detector d)
unfolding add_wait
add_wait-still client h d = elim (Bool-cases (client == h)) [
  | inl e ↦ rw e refl
  | inr e ↦ rw e refl
]

wait_on-still :
    (client : ℕ) (hs : List ℕ) (d : DeadlockDetector)
    → still_detector (wait_on client hs d) ≡ wait_on client hs (still_detector d)
unfolding wait_on
wait_on-still client [] d = refl
wait_on-still client (h ∷ hs) d =
    let d1 = if h == client then d else add_wait client h d in
    wait_on-still client hs d1
    ∙ ap (wait_on client hs) (elim (Bool-cases (h == client)) [
      | inl e ↦ rw e refl
      | inr e ↦ rw e (add_wait-still client h d)
    ])

pub grant-still :
    (now client r : ℕ) (mode : LockMode) (lease : ℕ) (s : LockState) (m : LockManager)
    → timeless (grant now client r mode lease s m)
      ≡ grant 0 client r mode 0 (still_state s) (timeless m)
unfolding grant
grant-still now client r mode lease s m = rw (map_values-insert, map_values-insert) refl

pub refuse-still :
    (now uuid client r : ℕ) (mode : LockMode) (s : LockState) (m : LockManager)
    → timeless (refuse now uuid client r mode s m)
      ≡ refuse 0 0 client r mode (still_state s) (timeless m)
unfolding refuse
refuse-still now uuid client r mode s m = elim (Bool-cases (is_waiting client s.waiters)) [
  | inl e ↦ rw (map_values-insert, keys-map_values, is_waiting-still, e, wait_on-still) refl
  | inr e ↦
      rw (map_values-insert, keys-map_values, is_waiting-still, e, wait_on-still, map-append) refl
]

pub promote-still :
    (now lease r : ℕ) (ws : List LockRequest) (hs : Dict LockHolder) (cl : Dict (List ℕ))
    → promote 0 0 r (map still_request ws) (map_values still_holder hs) cl ≡ (
      map still_request (promote now lease r ws hs cl).0,
      map_values still_holder (promote now lease r ws hs cl).1,
      (promote now lease r ws hs cl).2,
    )
unfolding promote
promote-still now lease r [] hs cl = refl
promote-still now lease r (req ∷ ws) hs cl =
    let s : LockState = record { resource = r; holders = hs; waiters = req ∷ ws } in
    let v = new_holder now req.client_id req.mode lease in
    let cl1 = note_lock req.client_id r cl in
    let next =
      ap (λ x. promote 0 0 r (map still_request ws) x cl1)
        (sym (map_values-insert still_holder req.client_id v hs))
      ∙ promote-still now lease r ws (insert req.client_id v hs) cl1 in
    elim (Bool-cases (is_held s)) [
      | inl e ↦
          let e' = is_held-still s ∙ e in
          elim (Bool-cases (can_share req.mode s)) [
            | inl f ↦
                let f' =
                  ap (λ o. same_mode req.mode shared && mode_is o shared) (lock_mode-still s) ∙ f in
                rw (e, e', f, f') next
            | inr f ↦
                let f' =
                  ap (λ o. same_mode req.mode shared && mode_is o shared) (lock_mode-still s) ∙ f in
                rw (e, e', f, f') refl
          ]
      | inr e ↦ let e' = is_held-still s ∙ e in rw (e, e') next
    ]
