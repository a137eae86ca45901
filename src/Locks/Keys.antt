-- ===== src/Locks/Keys.antt =====
-- A holder is entered under its own client: tugas-3/src/nodes/lock_manager.py.
use sistem_paralel_terdistri.Common.{
  AllEntries, AllEntries-erase, AllEntries-insert, AllEntries-lookup, Bool-cases, Dict, List,
  Option-cases, [], arith, contains, erase, inl, inr, insert, lookup, refl, ℕ, ◌==◌, ◌∷◌, ◌≡◌,
}
use sistem_paralel_terdistri.Locks.Exclusion.{do_acquire_cases}
use sistem_paralel_terdistri.Locks.Manager.{
  Command, LockManager, abort, acquire, apply_all, apply_command, do_acquire, do_release,
  do_release_all, grant, lock_at, new_holder, note_lock, other, promote, promote_waiters, refuse,
  release, release_all, release_each, release_held,
}
use sistem_paralel_terdistri.Locks.State.{LockHolder, LockMode, LockRequest, LockState}

abbrev pub IsKeyed : Dict LockHolder → Type 0
IsKeyed hs = AllEntries (λ c h. h.client_id ≡ c) hs

abbrev pub AreKeyed : LockManager → Type 0
AreKeyed m = AllEntries (λ r s. IsKeyed s.holders) m.locks

pub lock_at-IsKeyed :
    (r : ℕ) (d : Dict LockState)
    → AllEntries (λ r s. IsKeyed s.holders) d
    → IsKeyed (lock_at d r).holders
lock_at-IsKeyed r [] h = tt
lock_at-IsKeyed r ((j, s) ∷ d) h = elim (Bool-cases (j == r)) [
  | inl e ↦ rw e h.0
  | inr e ↦ rw e (lock_at-IsKeyed r d h.1)
]

promote-IsKeyed :
    (now lease r : ℕ) (ws : List LockRequest) (hs : Dict LockHolder) (cl : Dict (List ℕ))
    → IsKeyed hs
    → IsKeyed (promote now lease r ws hs cl).1
unfolding promote
promote-IsKeyed now lease r [] hs cl h = h
promote-IsKeyed now lease r (req ∷ ws) hs cl h =
    let v = new_holder now req.client_id req.mode lease in
    let next =
      promote-IsKeyed now lease r ws (insert req.client_id v hs) (note_lock req.client_id r cl)
        (AllEntries-insert (λ c k. k.client_id ≡ c) req.client_id v hs refl h) in
    ground (arith, h, next)

do_acquire-AreKeyed :
    (now uuid client r : ℕ) (mode : LockMode) (lease : ℕ) (m : LockManager)
    → AreKeyed m
    → AreKeyed (do_acquire now uuid client r mode lease m).0
unfolding grant refuse
do_acquire-AreKeyed now uuid client r mode lease m h =
    let k = lock_at-IsKeyed r m.locks h in
    do_acquire_cases (λ res. AreKeyed res.0) now uuid client r mode lease m
      (λ free.
        AllEntries-insert (λ r s. IsKeyed s.holders) r _ m.locks
          (AllEntries-insert (λ c k. k.client_id ≡ c) client _ _ refl k) h)
      (λ busy alone. AllEntries-insert (λ r s. IsKeyed s.holders) r _ m.locks (ground (arith, k)) h)

do_release-AreKeyed :
    (now client r : ℕ) (m : LockManager) → AreKeyed m → AreKeyed (do_release now client r m).0
unfolding do_release release_held promote_waiters
do_release-AreKeyed now client r m h = elim (Option-cases (lookup r m.locks)) [
  | inl e ↦ rw (do_release, e) h
  | inr (s, e) ↦
      let k : IsKeyed s.holders = AllEntries-lookup (λ r s. IsKeyed s.holders) r s m.locks h e in
      elim (Bool-cases (contains client s.holders)) [
        | inl f ↦
            rw (do_release, e, f)
              (AllEntries-insert (λ r s. IsKeyed s.holders) r _ m.locks
                (promote-IsKeyed now _ s.resource s.waiters (erase client s.holders) _
                  (AllEntries-erase (λ c k. k.client_id ≡ c) client s.holders k))
                h)
        | inr f ↦ rw (do_release, e, f) h
      ]
]

release_each-AreKeyed :
    (now client : ℕ) (rs : List ℕ) (m : LockManager) (n : ℕ)
    → AreKeyed m
    → AreKeyed (release_each now client rs m n).0
unfolding release_each
release_each-AreKeyed now client [] m n h = h
release_each-AreKeyed now client (r ∷ rs) m n h =
    release_each-AreKeyed now client rs _ _ (do_release-AreKeyed now client r m h)

pub apply_command-AreKeyed :
    (now uuid : ℕ) (c : Command) (m : LockManager)
    → AreKeyed m
    → AreKeyed (apply_command now uuid c m).0
unfolding apply_command do_release_all
apply_command-AreKeyed now uuid (acquire client r mode lease) m h =
    do_acquire-AreKeyed now uuid client r mode _ m h
apply_command-AreKeyed now uuid (release client r) m h = do_release-AreKeyed now client r m h
apply_command-AreKeyed now uuid (release_all client) m h = release_each-AreKeyed now client _ m 0 h
apply_command-AreKeyed now uuid (abort client) m h = release_each-AreKeyed now client _ m 0 h
apply_command-AreKeyed now uuid other m h = h

pub apply_all-AreKeyed :
    (cs : List (ℕ × ℕ × Command)) (m : LockManager) → AreKeyed m → AreKeyed (apply_all cs m)
unfolding apply_all
apply_all-AreKeyed [] m h = h
apply_all-AreKeyed ((now, uuid, c) ∷ cs) m h =
    apply_all-AreKeyed cs _ (apply_command-AreKeyed now uuid c m h)
