-- ===== src/Locks/Handover.antt =====
-- Who gets a released lock: `_promote_waiters` and `_do_release` of
-- tugas-3/src/nodes/lock_manager.py.
use sistem_paralel_terdistri.Common.{
  All, Bool-cases, Dict, List, [], ap, arith, contains, contains-insert, drop, erase, false,
  if◌then◌else◌, inl, inr, insert, length, lookup, lookup-insert_self, refl, some, subst, suc, sym,
  take, true, ℕ, ◌∙◌, ◌∷◌, ◌≡◌, ◌⊎◌,
}
use sistem_paralel_terdistri.Locks.Exclusion.{can_share, can_share→shared, not_held}
use sistem_paralel_terdistri.Locks.Manager.{
  LockManager, do_release, forget_lock, lock_at, new_holder, note_lock, promote, promote_waiters,
  release_held,
}
use sistem_paralel_terdistri.Locks.State.{
  LockHolder, LockMode, LockRequest, LockState, exclusive, is_held, lock_mode, same_mode, shared,
  strongest,
}

-- The clients of the requests all hold the lock.
abbrev pub Hold : Dict LockHolder → List LockRequest → Type 0
Hold hs ws = All (λ w. contains w.client_id hs ≡ true) ws

-- The head of the queue cannot be granted.
abbrev pub Blocked : LockState → List LockRequest → Type 0
Blocked s [] = Unit
Blocked s (w ∷ ws) = (is_held s ≡ true) × (can_share w.mode s ≡ false)

-- The holders after the requests are granted one after the other.
abbrev pub granted_all : ℕ → ℕ → List LockRequest → Dict LockHolder → Dict LockHolder
granted_all now lease [] hs = hs
granted_all now lease (w ∷ ws) hs =
    granted_all now lease ws (insert w.client_id (new_holder now w.client_id w.mode lease) hs)

-- Which requests a lock can take at once: none, one where it is free, or shared ones only, where it
-- is free or held in shared mode.
abbrev pub Grantable : LockState → List LockRequest → Type 0
Grantable s ws =
    (ws ≡ [])
    ⊎ ((s.holders ≡ []) × (length ws ≡ 1))
    ⊎ (All (λ w. w.mode ≡ shared) ws × ((s.holders ≡ []) ⊎ (lock_mode s ≡ some shared)))

insert_not_empty : (k : ℕ) (v : LockHolder) (d : Dict LockHolder) → ¬ (insert k v d ≡ [])
insert_not_empty k v d e = absurd (ground (arith, contains-insert k k v d, ap (contains k) e))

insert-mode :
    (k r : ℕ) (v : LockHolder) (q : List LockRequest) (hs : Dict LockHolder)
    → hs ≡ []
    → lock_mode (record { resource = r; holders = insert k v hs; waiters = q }) ≡ some v.mode
unfolding lock_mode strongest
insert-mode k r v q (h ∷ hs) e = absurd (ground (arith, e))
insert-mode k r v q [] e = strongest_alone v.mode
  where
    strongest_alone :
        (mode : LockMode)
        → some (if same_mode mode exclusive then exclusive else shared) ≡ some mode
    strongest_alone shared = refl
    strongest_alone exclusive = refl

-- One more request before those that the lock can take.
one_more_free :
    (now lease r : ℕ) (w : LockRequest) (q ws rest : List LockRequest) (hs : Dict LockHolder)
    → hs ≡ []
    → let hs1 = insert w.client_id (new_holder now w.client_id w.mode lease) hs in
      Grantable (record { resource = r; holders = hs1; waiters = rest }) ws
      → Grantable (record { resource = r; holders = hs; waiters = q }) (w ∷ ws)
one_more_free now lease r w q ws rest hs e g = elim g [
  | inl none_more ↦ inr (inl (e, ap (λ l. suc (length l)) none_more))
  | inr (inl (free, _)) ↦ absurd (insert_not_empty _ _ hs free)
  | inr (inr (all, inl free)) ↦ absurd (insert_not_empty _ _ hs free)
  | inr (inr (all, inr m)) ↦
      let v = new_holder now w.client_id w.mode lease in
      let mode : some w.mode ≡ some shared = sym (insert-mode w.client_id r v rest hs e) ∙ m in
      inr (inr ((ground (arith, mode), all), inl e))
]

one_more_shared :
    (now lease r : ℕ) (w : LockRequest) (q ws rest : List LockRequest) (hs : Dict LockHolder)
    → w.mode ≡ shared
    → lock_mode (record { resource = r; holders = hs; waiters = q }) ≡ some shared
    → let hs1 = insert w.client_id (new_holder now w.client_id w.mode lease) hs in
      Grantable (record { resource = r; holders = hs1; waiters = rest }) ws
      → Grantable (record { resource = r; holders = hs; waiters = q }) (w ∷ ws)
one_more_shared now lease r w q ws rest hs p m g = elim g [
  | inl none_more ↦ inr (inr ((p, subst (All (λ v. v.mode ≡ shared)) (sym none_more) tt), inr m))
  | inr (inl (free, _)) ↦ absurd (insert_not_empty _ _ hs free)
  | inr (inr (all, _)) ↦ inr (inr ((p, all), inr m))
]

-- Whoever holds the lock still holds it after the loop.
promote_keeps :
    (c now lease r : ℕ) (ws : List LockRequest) (hs : Dict LockHolder) (cl : Dict (List ℕ))
    → contains c hs ≡ true
    → contains c (promote now lease r ws hs cl).1 ≡ true
unfolding promote
promote_keeps c now lease r [] hs cl h = h
promote_keeps c now lease r (req ∷ ws) hs cl h =
    let v = new_holder now req.client_id req.mode lease in
    ground (
      arith,
      promote_keeps c now lease r ws (insert req.client_id v hs) (note_lock req.client_id r cl),
      contains-insert c req.client_id v hs,
    )

-- The loop grants a prefix of the queue, only what it may, and stops where it must.
promote_prefix :
    (now lease r : ℕ) (q ws : List LockRequest) (hs : Dict LockHolder) (cl : Dict (List ℕ))
    → let (ws', hs', _) = promote now lease r ws hs cl in
      (n : ℕ) × (ws' ≡ drop n ws)
      × (hs' ≡ granted_all now lease (take n ws) hs)
      × Grantable (record { resource = r; holders = hs; waiters = q }) (take n ws)
      × Hold hs' (take n ws)
      × Blocked (record { resource = r; holders = hs'; waiters = ws' }) ws'
unfolding promote is_held lock_mode
promote_prefix now lease r q [] hs cl = (0, refl, refl, inl refl, tt, tt)
promote_prefix now lease r q (req ∷ ws) hs cl =
    let s : LockState = record { resource = r; holders = hs; waiters = req ∷ ws } in
    let v = new_holder now req.client_id req.mode lease in
    let hs1 = insert req.client_id v hs in
    let cl1 = note_lock req.client_id r cl in
    let (n, e, given, able, all, stop) = promote_prefix now lease r q ws hs1 cl1 in
    let first =
      promote_keeps req.client_id now lease r ws hs1 cl1
        (ground (arith, contains-insert req.client_id req.client_id v hs)) in
    elim (Bool-cases (is_held s)) [
      | inl h ↦ elim (Bool-cases (can_share req.mode s)) [
        | inl p ↦
            let (a, b) = can_share→shared req.mode s p in
            rw (h, p)
              (
                suc n,
                e,
                given,
                one_more_shared now lease r req q (take n ws) q hs a b able,
                (first, all),
                stop,
              )
        | inr p ↦ rw (h, p) (0, refl, refl, inl refl, tt, (h, p))
      ]
      | inr h ↦ rw h (
        suc n,
        e,
        given,
        one_more_free now lease r req q (take n ws) q hs (not_held s h) able,
        (first, all),
        stop,
      )
    ]

-- A release by a holder succeeds, takes the client out of the holders and serves the queue in order:
-- a prefix of the waiters now holds the lock beside the holders that are left, the others wait as
-- before, and the first of them cannot be granted. The prefix is empty, or one request where no
-- holder is left, or shared requests only where no holder is left or those left are shared.
pub do_release_in_order :
    (now client r : ℕ) (m : LockManager) (s : LockState)
    → lookup r m.locks ≡ some s
    → contains client s.holders ≡ true
    → let (m', done) = do_release now client r m in
      let s' = lock_at m'.locks r in
      let left : LockState = record s { holders = erase client s.holders } in
      (done ≡ true)
      × ((n : ℕ) × (s'.waiters ≡ drop n s.waiters)
          × (s'.holders ≡ granted_all now m.default_lease (take n s.waiters) left.holders)
          × Grantable left (take n s.waiters)
          × Hold s'.holders (take n s.waiters)
          × Blocked s' s'.waiters)
unfolding do_release release_held promote_waiters
do_release_in_order now client r m s e h =
    rw (e, do_release, h, lookup-insert_self)
      (
        refl,
        promote_prefix now m.default_lease s.resource s.waiters s.waiters (erase client s.holders)
            (forget_lock client r m.client_locks),
      )
