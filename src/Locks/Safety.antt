-- ===== src/Locks/Safety.antt =====
-- What the lock table guarantees after any sequence of committed commands, and what an exclusive
-- holder meets when it asks again: tugas-3/src/nodes/lock_manager.py.
use sistem_paralel_terdistri.Common.{
  AllEntries-lookup, Bool-cases, Dict, List, [], arith, false, inl, inr, length, lookup,
  lookup-insert_self, refl, some, true, values, ℕ, ◌++◌, ◌∷◌, ◌≡◌, ◌≤◌, ◌⊎◌,
}
use sistem_paralel_terdistri.Locks.Exclusion.{
  Compatible, IsExclusive, IsValidLock, apply_all-IsExclusive, do_acquire_cases,
}
use sistem_paralel_terdistri.Locks.Manager.{
  Command, LockManager, apply_all, do_acquire, init, is_waiting, lock_at, refuse,
}
use sistem_paralel_terdistri.Locks.State.{
  LockHolder, LockMode, LockRequest, LockState, exclusive, lock_mode, shared, strongest,
}

strongest-exclusive :
    (c : ℕ) (h : LockHolder) (d : Dict LockHolder)
    → lookup c d ≡ some h
    → h.mode ≡ exclusive
    → strongest (values d) ≡ exclusive
unfolding strongest
strongest-exclusive c h [] e x = cc
strongest-exclusive c h ((j, w) ∷ d) e x = ground (arith, strongest-exclusive c h d)

same_key :
    (c e : ℕ) (h k : LockHolder) (d : Dict LockHolder)
    → length d ≤ 1
    → lookup c d ≡ some h
    → lookup e d ≡ some k
    → c ≡ e
same_key c e h k [] l p q = cc
same_key c e h k ((j, w) ∷ []) l p q = ground arith
same_key c e h k (x ∷ y ∷ d) l p q = absurd (omega arith)

Compatible-alone :
    (c e : ℕ) (h k : LockHolder) (d : Dict LockHolder)
    → Compatible d
    → lookup c d ≡ some h
    → h.mode ≡ exclusive
    → lookup e d ≡ some k
    → c ≡ e
Compatible-alone c e h k d (inl all) p x q = absurd (ground (arith, strongest-exclusive c h d p x))
Compatible-alone c e h k d (inr one) p x q = same_key c e h k d one p q

init-IsExclusive :
    (lease : ℕ) (cs : List (ℕ × ℕ × Command)) → IsExclusive (apply_all cs (init lease))
init-IsExclusive lease cs = apply_all-IsExclusive cs (init lease) tt

-- After any sequence of committed commands, a client that holds a resource exclusively is its
-- only holder.
pub exclusive_holder_alone :
    (lease : ℕ) (cs : List (ℕ × ℕ × Command)) (r c e : ℕ) (s : LockState) (h k : LockHolder)
    → lookup r (apply_all cs (init lease)).locks ≡ some s
    → lookup c s.holders ≡ some h
    → h.mode ≡ exclusive
    → lookup e s.holders ≡ some k
    → c ≡ e
exclusive_holder_alone lease cs r c e s h k p q x z =
    let v = AllEntries-lookup IsValidLock r s _ (init-IsExclusive lease cs) p in
    Compatible-alone c e h k s.holders v.compatible q x z

-- After any sequence of committed commands, a resource without holders has no waiters: no grant
-- is forgotten when a lock comes free.
pub free_lock_has_no_waiters :
    (lease : ℕ) (cs : List (ℕ × ℕ × Command)) (r : ℕ) (s : LockState)
    → lookup r (apply_all cs (init lease)).locks ≡ some s
    → s.holders ≡ []
    → s.waiters ≡ []
free_lock_has_no_waiters lease cs r s p =
    (AllEntries-lookup IsValidLock r s _ (init-IsExclusive lease cs) p).served

not-empty_of_lookup :
    (c : ℕ) (h : LockHolder) (d : Dict LockHolder) → lookup c d ≡ some h → ¬ (d ≡ [])
not-empty_of_lookup c h d p e = ground arith

exclusive_not_free :
    (client : ℕ) (mode : LockMode) (s : LockState) (h : LockHolder)
    → lookup client s.holders ≡ some h
    → h.mode ≡ exclusive
    → ¬ ((s.holders ≡ []) ⊎ ((mode ≡ shared) × (lock_mode s ≡ some shared)))
unfolding lock_mode
exclusive_not_free client mode s h q x (inl e) = not-empty_of_lookup client h s.holders q e
exclusive_not_free client mode s h q x (inr (e, f)) =
    ground (arith, strongest-exclusive client h s.holders q x)

is_waiting-append :
    (client : ℕ) (ws : List LockRequest) (w : LockRequest)
    → w.client_id ≡ client
    → is_waiting client (ws ++ w ∷ []) ≡ true
unfolding is_waiting
is_waiting-append client [] w e = ground arith
is_waiting-append client (v ∷ ws) w e = ground (arith, is_waiting-append client ws w e)

-- A refused client is among the waiters.
refuse-is_waiting :
    (now uuid client r : ℕ) (mode : LockMode) (s : LockState) (m : LockManager)
    → is_waiting client (lock_at (refuse now uuid client r mode s m).locks r).waiters ≡ true
unfolding refuse
refuse-is_waiting now uuid client r mode s m =
    rw lookup-insert_self (elim (Bool-cases (is_waiting client s.waiters)) [
      | inl e ↦ rw (e) e
      | inr e ↦ rw e (is_waiting-append client s.waiters _ refl)
    ])

-- A client that already holds a resource exclusively is refused when it asks again, in either
-- mode and with any lease, and the table then has it wait on that resource. So the retries of
-- `acquire` never see the grant that `_promote_waiters` made for them.
pub do_acquire-exclusive_holder :
    (now uuid client r : ℕ) (mode : LockMode) (lease : ℕ) (m : LockManager) (s : LockState)
    (h : LockHolder)
    → lookup r m.locks ≡ some s
    → lookup client s.holders ≡ some h
    → h.mode ≡ exclusive
    → ((do_acquire now uuid client r mode lease m).1 ≡ false)
      × (is_waiting client (lock_at (do_acquire now uuid client r mode lease m).0.locks r).waiters
          ≡ true)
do_acquire-exclusive_holder now uuid client r mode lease m s h p q x =
    do_acquire_cases
      (λ res. (res.1 ≡ false) × (is_waiting client (lock_at res.0.locks r).waiters ≡ true)) now uuid
      client r mode lease m (λ free. absurd (exclusive_not_free client mode s h q x (rw p at free)))
      (λ _ _. (refl, refuse-is_waiting now uuid client r mode _ _))
