-- ===== src/Locks/Still.antt =====
-- `_do_release` and `_do_acquire` of tugas-3/src/nodes/lock_manager.py do not depend on the times.
use sistem_paralel_terdistri.Common.{
  Bool-cases, Dict, List, Option-cases, ap, ap₂, contains, contains-map_values, erase, false,
  if◌then◌else◌, inl, inr, insert, is_empty, is_empty-map_values, lookup, lookup-map_values, map,
  map_some, map_values, map_values-erase, map_values-insert, none, not, refl, some, sym, true, ℕ,
  ◌&&◌, ◌∙◌, ◌≡◌,
}
use sistem_paralel_terdistri.Locks.Detector.{DeadlockDetector, remove_client, set_client_age}
use sistem_paralel_terdistri.Locks.Exclusion.{can_share}
use sistem_paralel_terdistri.Locks.Manager.{
  LockManager, do_acquire, do_release, forget_lock, grant, lock_at, promote, promote_waiters,
  refuse, release_held,
}
use sistem_paralel_terdistri.Locks.State.{
  LockHolder, LockMode, LockRequest, LockState, is_held, lock_mode, mode_is, same_mode, shared,
}
use sistem_paralel_terdistri.Locks.Timeless.{
  grant-still, is_held-still, lock_at-still, lock_mode-still, promote-still, refuse-still,
  remove_client-still, set_client_age-still, still_detector, still_holder, still_request,
  still_state, timeless,
}

freed-still :
    (client : ℕ) (s : LockState) (d : DeadlockDetector)
    → let freed : LockState = record s { holders = erase client s.holders } in
      let calm : LockState = record (still_state s) {
        holders = erase client (map_values still_holder s.holders);
      } in
      still_detector (if not (is_held freed) then remove_client client d else d)
      ≡ (if not (is_held calm) then remove_client client (still_detector d) else still_detector d)
unfolding is_held
freed-still client s d = elim (Bool-cases (is_empty (erase client s.holders))) [
  | inl e ↦
      let f : is_empty (erase client (map_values still_holder s.holders)) ≡ true =
        sym (ap is_empty (map_values-erase still_holder client s.holders))
        ∙ is_empty-map_values still_holder _
        ∙ e in
      rw (e, f) (remove_client-still client d)
  | inr e ↦
      let f : is_empty (erase client (map_values still_holder s.holders)) ≡ false =
        sym (ap is_empty (map_values-erase still_holder client s.holders))
        ∙ is_empty-map_values still_holder _
        ∙ e in
      rw (e, f) refl
]

release_held-still :
    (now client r : ℕ) (s : LockState) (m : LockManager)
    → timeless (release_held now client r s m)
      ≡ release_held 0 client r (still_state s) (timeless m)
unfolding release_held promote_waiters
release_held-still now client r s m =
    let hs = erase client s.holders in
    let cl = forget_lock client r m.client_locks in
    let after : List LockRequest × Dict LockHolder × Dict (List ℕ)
        → DeadlockDetector
        → LockManager =
      λ p d. record {
        default_lease = 0;
        locks =
            insert r (record { resource = s.resource; holders = p.1; waiters = p.0 })
              (map_values still_state m.locks);
        client_locks = p.2;
        deadlock_detector = d;
      } in
    let same : promote 0 0 s.resource (map still_request s.waiters)
          (erase client (map_values still_holder s.holders)) cl
        ≡ (
          map still_request (promote now m.default_lease s.resource s.waiters hs cl).0,
          map_values still_holder (promote now m.default_lease s.resource s.waiters hs cl).1,
          (promote now m.default_lease s.resource s.waiters hs cl).2,
        ) =
      ap (λ x. promote 0 0 s.resource (map still_request s.waiters) x cl)
        (sym (map_values-erase still_holder client s.holders))
      ∙ promote-still now m.default_lease s.resource s.waiters hs cl in
    rw map_values-insert (ap₂ after (sym same) (freed-still client s m.deadlock_detector))

-- The new state without its times, and the reply.
abbrev pub still_result : {A : Type 0} → LockManager × A → LockManager × A
still_result (m, a) = (timeless m, a)

pub do_release-still :
    (now client r : ℕ) (m : LockManager)
    → still_result (do_release now client r m) ≡ do_release 0 client r (timeless m)
unfolding do_release
do_release-still now client r m = elim (Option-cases (lookup r m.locks)) [
  | inl e ↦
      let f : lookup r (map_values still_state m.locks) ≡ none =
        lookup-map_values still_state r m.locks ∙ ap (map_some still_state) e in
      rw (do_release, e, f) refl
  | inr (s, e) ↦
      let f : lookup r (map_values still_state m.locks) ≡ some (still_state s) =
        lookup-map_values still_state r m.locks ∙ ap (map_some still_state) e in
      elim (Bool-cases (contains client s.holders)) [
        | inl c ↦
            let c' = contains-map_values still_holder client s.holders ∙ c in
            rw (do_release, e, f, c, c') (ap (λ x. (x, true)) (release_held-still now client r s m))
        | inr c ↦
            let c' = contains-map_values still_holder client s.holders ∙ c in
            rw (do_release, e, f, c, c') refl
      ]
]

pub do_acquire-still :
    (now uuid client r : ℕ) (mode : LockMode) (lease : ℕ) (m : LockManager)
    → still_result (do_acquire now uuid client r mode lease m)
      ≡ do_acquire 0 0 client r mode 0 (timeless m)
unfolding do_acquire
do_acquire-still now uuid client r mode lease m =
    let s = lock_at m.locks r in
    let m1 = record m { deadlock_detector = set_client_age client now m.deadlock_detector } in
    let aged : timeless m1 ≡ record (timeless m) {
      deadlock_detector = set_client_age client 0 (still_detector m.deadlock_detector);
    } =
      ap (λ d. record (timeless m) { deadlock_detector = d })
        (set_client_age-still client now m.deadlock_detector) in
    let at = lock_at-still r m.locks in
    elim (Bool-cases (is_held s)) [
      | inl e ↦
          let e' = ap is_held at ∙ is_held-still s ∙ e in
          elim (Bool-cases (can_share mode s)) [
            | inl f ↦
                let f' =
                  ap (λ o. same_mode mode shared && mode_is o shared)
                    (ap lock_mode at ∙ lock_mode-still s)
                  ∙ f in
                rw (e, e', f, f')
                  (ap (λ x. (x, true))
                    (grant-still now client r mode lease s m1
                      ∙ ap₂ (grant 0 client r mode 0) (sym at) aged))
            | inr f ↦
                let f' =
                  ap (λ o. same_mode mode shared && mode_is o shared)
                    (ap lock_mode at ∙ lock_mode-still s)
                  ∙ f in
                rw (e, e', f, f')
                  (ap (λ x. (x, false))
                    (refuse-still now uuid client r mode s m1
                      ∙ ap₂ (refuse 0 0 client r mode) (sym at) aged))
          ]
      | inr e ↦
          let e' = ap is_held at ∙ is_held-still s ∙ e in
          rw (e, e')
            (ap (λ x. (x, true))
              (grant-still now client r mode lease s m1
                ∙ ap₂ (grant 0 client r mode 0) (sym at) aged))
    ]
