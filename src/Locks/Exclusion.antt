-- ===== src/Locks/Exclusion.antt =====
-- Mutual exclusion of the lock table, and that nobody waits for a free lock:
-- tugas-3/src/nodes/lock_manager.py.
use sistem_paralel_terdistri.Common.{
  AllEntries, AllEntries-insert, AllEntries-lookup, Bool, Bool-cases, Dict, List, Option-cases, [],
  arith, contains, erase, false, get_or, inl, inr, insert, length, length-erase-le, lookup, refl,
  some, true, values, ℕ, ◌&&◌, ◌∷◌, ◌≡◌, ◌≤◌, ◌⊎◌,
}
use sistem_paralel_terdistri.Locks.Detector.{set_client_age}
use sistem_paralel_terdistri.Locks.Manager.{
  Command, LockManager, abort, acquire, apply_all, apply_command, do_acquire, do_release,
  do_release_all, forget_lock, grant, is_waiting, lock_at, locks_of, new_holder, note_lock, other,
  promote, promote_waiters, refuse, release, release_all, release_each, release_held,
}
use sistem_paralel_terdistri.Locks.State.{
  LockHolder, LockMode, LockRequest, LockState, is_held, lock_mode, mode_is, same_mode, shared,
  strongest,
}

-- At most one holder, or only shared ones.
abbrev pub Compatible : Dict LockHolder → Type 0
Compatible hs = (strongest (values hs) ≡ shared) ⊎ (length hs ≤ 1)

pub record IsValidLock (r : ℕ) (s : LockState) : Type 0 where
  pub named : s.resource ≡ r
  pub compatible : Compatible s.holders
  pub served : s.holders ≡ [] → s.waiters ≡ []

abbrev pub IsExclusive : LockManager → Type 0
IsExclusive m = AllEntries IsValidLock m.locks

strongest-insert :
    (k : ℕ) (v : LockHolder) (d : Dict LockHolder)
    → strongest (values d) ≡ shared
    → v.mode ≡ shared
    → strongest (values (insert k v d)) ≡ shared
unfolding strongest
strongest-insert k v [] h p = ground arith
strongest-insert k v ((j, w) ∷ d) h p = ground (arith, strongest-insert k v d)

strongest-erase :
    (k : ℕ) (d : Dict LockHolder)
    → strongest (values d) ≡ shared
    → strongest (values (erase k d)) ≡ shared
unfolding strongest
strongest-erase k [] h = refl
strongest-erase k ((j, w) ∷ d) h = ground (arith, strongest-erase k d)

Compatible-erase : (k : ℕ) (d : Dict LockHolder) → Compatible d → Compatible (erase k d)
Compatible-erase k d (inl h) = inl (strongest-erase k d h)
Compatible-erase k d (inr h) = inr (omega (arith, length-erase-le k d))

insert-ne-nil : (k : ℕ) (v : LockHolder) (d : Dict LockHolder) → ¬ (insert k v d ≡ [])
insert-ne-nil k v [] e = cc
insert-ne-nil k v ((j, w) ∷ d) e = ground arith

-- A lock is granted where it is free, or shared and asked for shared.
grant-Compatible :
    (s : LockState) (now client : ℕ) (mode : LockMode) (lease : ℕ)
    → (s.holders ≡ []) ⊎ ((mode ≡ shared) × (lock_mode s ≡ some shared))
    → Compatible (insert client (new_holder now client mode lease) s.holders)
unfolding lock_mode
grant-Compatible s now client mode lease (inl e) = rw e (inr (omega arith))
grant-Compatible s now client mode lease (inr (e, p)) =
    inl (strongest-insert client (new_holder now client mode lease) s.holders (ground arith) e)

lock_at-IsValidLock :
    (r : ℕ) (locks : Dict LockState)
    → AllEntries IsValidLock locks
    → IsValidLock r (lock_at locks r)
lock_at-IsValidLock r locks h = elim (Option-cases (lookup r locks)) [
  | inl e ↦ rw e (record { named = refl; compatible = inr (omega arith); served = λ _. refl })
  | inr (s, e) ↦ rw e (AllEntries-lookup IsValidLock r s locks h e)
]

grant-IsExclusive :
    (now client r : ℕ) (mode : LockMode) (lease : ℕ) (s : LockState) (m : LockManager)
    → IsExclusive m
    → IsValidLock r s
    → (s.holders ≡ []) ⊎ ((mode ≡ shared) × (lock_mode s ≡ some shared))
    → IsExclusive (grant now client r mode lease s m)
unfolding grant
grant-IsExclusive now client r mode lease s m h v free =
    AllEntries-insert IsValidLock r
      (record s { holders = insert client (new_holder now client mode lease) s.holders }) m.locks
      (record {
        named = v.named;
        compatible = grant-Compatible s now client mode lease free;
        served = λ e. absurd (insert-ne-nil client _ s.holders e);
      })
      h

refuse-IsExclusive :
    (now uuid client r : ℕ) (mode : LockMode) (s : LockState) (m : LockManager)
    → IsExclusive m
    → IsValidLock r s
    → ¬ (s.holders ≡ [])
    → IsExclusive (refuse now uuid client r mode s m)
unfolding refuse
refuse-IsExclusive now uuid client r mode s m h v held =
    elim (Bool-cases (is_waiting client s.waiters)) [
      | inl e ↦ rw e (AllEntries-insert IsValidLock r _ m.locks v h)
      | inr e ↦ rw e (
          AllEntries-insert IsValidLock r _ m.locks
            (record { named = v.named; compatible = v.compatible; served = λ e. absurd (held e) })
            h)
    ]

pub not_held : (s : LockState) → is_held s ≡ false → s.holders ≡ []
unfolding is_held
not_held s e = ground arith

pub held : (s : LockState) → is_held s ≡ true → ¬ (s.holders ≡ [])
unfolding is_held
held s e = λ p. ground arith

-- `mode == SHARED and state.mode == SHARED`
abbrev pub can_share : LockMode → LockState → Bool
can_share mode s = same_mode mode shared && mode_is (lock_mode s) shared

pub can_share→shared :
    (mode : LockMode) (s : LockState)
    → can_share mode s ≡ true
    → (mode ≡ shared) × (lock_mode s ≡ some shared)
can_share→shared mode s e = ground arith

pub cannot_share :
    (mode : LockMode) (s : LockState)
    → can_share mode s ≡ false
    → mode ≡ shared
    → ¬ (lock_mode s ≡ some shared)
cannot_share mode s e p q = ground arith

-- The three outcomes of `_do_acquire`, by the tests of the code.
pub do_acquire_cases {ℓ} :
    (P : LockManager × Bool → Type ℓ) (now uuid client r : ℕ) (mode : LockMode) (lease : ℕ)
    (m : LockManager)
    → let s = lock_at m.locks r in
      let m' = record m { deadlock_detector = set_client_age client now m.deadlock_detector } in
      ((s.holders ≡ []) ⊎ ((mode ≡ shared) × (lock_mode s ≡ some shared))
        → P (grant now client r mode lease s m', true))
      → (¬ (s.holders ≡ [])
          → (mode ≡ shared → ¬ (lock_mode s ≡ some shared))
          → P (refuse now uuid client r mode s m', false))
      → P (do_acquire now uuid client r mode lease m)
unfolding do_acquire
do_acquire_cases P now uuid client r mode lease m free busy =
    let s = lock_at m.locks r in
    elim (Bool-cases (is_held s)) [
      | inl e ↦ elim (Bool-cases (can_share mode s)) [
        | inl p ↦ rw (e, p) (free (inr (can_share→shared mode s p)))
        | inr p ↦ rw (e, p) (busy (held s e) (cannot_share mode s p))
      ]
      | inr e ↦ rw e (free (inl (not_held s e)))
    ]

pub do_acquire-IsExclusive :
    (now uuid client r : ℕ) (mode : LockMode) (lease : ℕ) (m : LockManager)
    → IsExclusive m
    → IsExclusive (do_acquire now uuid client r mode lease m).0
do_acquire-IsExclusive now uuid client r mode lease m h =
    let v = lock_at-IsValidLock r m.locks h in
    do_acquire_cases (λ res. IsExclusive res.0) now uuid client r mode lease m
      (λ free. grant-IsExclusive now client r mode lease _ _ h v free)
      (λ busy _. refuse-IsExclusive now uuid client r mode _ _ h v busy)

-- The loop of `_promote_waiters` leaves the holders compatible and no waiter on a free lock.
promote-Compatible :
    (now lease r : ℕ) (ws : List LockRequest) (hs : Dict LockHolder) (cl : Dict (List ℕ))
    → Compatible hs
    → let (ws', hs', _) = promote now lease r ws hs cl in Compatible hs' × (hs' ≡ [] → ws' ≡ [])
unfolding promote
promote-Compatible now lease r [] hs cl h = (h, λ _. refl)
promote-Compatible now lease r (req ∷ ws) hs cl h =
    let s : LockState = record { resource = r; holders = hs; waiters = req ∷ ws } in
    let next = λ (f : (hs ≡ []) ⊎ ((req.mode ≡ shared) × (lock_mode s ≡ some shared))).
      promote-Compatible now lease r ws
        (insert req.client_id (new_holder now req.client_id req.mode lease) hs)
        (note_lock req.client_id r cl) (grant-Compatible s now req.client_id req.mode lease f) in
    elim (Bool-cases (is_held s)) [
      | inl e ↦ elim (Bool-cases (can_share req.mode s)) [
        | inl p ↦ rw (e, p) (next (inr (can_share→shared req.mode s p)))
        | inr p ↦ rw (e, p) (h, λ q. absurd (held s e q))
      ]
      | inr e ↦ rw e (next (inl (not_held s e)))
    ]

release_held-IsExclusive :
    (now client r : ℕ) (s : LockState) (m : LockManager)
    → IsExclusive m
    → IsValidLock r s
    → IsExclusive (release_held now client r s m)
unfolding release_held promote_waiters
release_held-IsExclusive now client r s m h v =
    let after =
      promote-Compatible now m.default_lease s.resource s.waiters (erase client s.holders)
        (forget_lock client r m.client_locks) (Compatible-erase client s.holders v.compatible) in
    AllEntries-insert IsValidLock r _ m.locks
      (record { named = v.named; compatible = after.0; served = after.1 }) h

pub do_release-IsExclusive :
    (now client r : ℕ) (m : LockManager) → IsExclusive m → IsExclusive (do_release now client r m).0
unfolding do_release
do_release-IsExclusive now client r m h = elim (Option-cases (lookup r m.locks)) [
  | inl e ↦ rw (e, do_release) h
  | inr (s, e) ↦ elim (Bool-cases (contains client s.holders)) [
    | inl c ↦
        rw (e, do_release, c)
          (release_held-IsExclusive now client r s m h
            (AllEntries-lookup IsValidLock r s m.locks h e))
    | inr c ↦ rw (e, do_release, c) h
  ]
]

release_each-IsExclusive :
    (now client : ℕ) (rs : List ℕ) (m : LockManager) (n : ℕ)
    → IsExclusive m
    → IsExclusive (release_each now client rs m n).0
unfolding release_each
release_each-IsExclusive now client [] m n h = h
release_each-IsExclusive now client (r ∷ rs) m n h =
    release_each-IsExclusive now client rs _ _ (do_release-IsExclusive now client r m h)

do_release_all-IsExclusive :
    (now client : ℕ) (m : LockManager) → IsExclusive m → IsExclusive (do_release_all now client m).0
unfolding do_release_all
do_release_all-IsExclusive now client m h =
    release_each-IsExclusive now client (locks_of m.client_locks client) m 0 h

pub apply_command-IsExclusive :
    (now uuid : ℕ) (c : Command) (m : LockManager)
    → IsExclusive m
    → IsExclusive (apply_command now uuid c m).0
unfolding apply_command
apply_command-IsExclusive now uuid (acquire client r mode lease) m h =
    do_acquire-IsExclusive now uuid client r mode (get_or lease m.default_lease) m h
apply_command-IsExclusive now uuid (release client r) m h = do_release-IsExclusive now client r m h
apply_command-IsExclusive now uuid (release_all client) m h =
    do_release_all-IsExclusive now client m h
apply_command-IsExclusive now uuid (abort client) m h = do_release_all-IsExclusive now client m h
apply_command-IsExclusive now uuid other m h = h

pub apply_all-IsExclusive :
    (cs : List (ℕ × ℕ × Command)) (m : LockManager) → IsExclusive m → IsExclusive (apply_all cs m)
unfolding apply_all
apply_all-IsExclusive [] m h = h
apply_all-IsExclusive ((now, uuid, c) ∷ cs) m h =
    apply_all-IsExclusive cs _ (apply_command-IsExclusive now uuid c m h)
