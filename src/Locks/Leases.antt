-- ===== src/Locks/Leases.antt =====
-- What a round of `_lease_expiry_loop` of tugas-3/src/nodes/lock_manager.py leaves.
use sistem_paralel_terdistri.Common.{
  Bool, Bool-cases, Dict, List, Option-cases, [], ap, arith, contains, contains-keys, erase, false,
  if◌then◌else◌, inl, inr, insert, keys, lookup, lookup-erase, lookup-insert, member, refl, some,
  subst, sym, true, values, ℕ, ◌==◌, ◌∙◌, ◌∷◌, ◌≡◌, ◌≢◌, ◌≤◌, ◌⊎◌,
}
use sistem_paralel_terdistri.Locks.Keys.{
  AreKeyed, IsKeyed, apply_all-AreKeyed, apply_command-AreKeyed, lock_at-IsKeyed,
}
use sistem_paralel_terdistri.Locks.Leader.{
  IsApplied, Submit, expire_each, expired_clients, lease_expiry_round, release_expired,
}
use sistem_paralel_terdistri.Locks.Manager.{
  Command, LockManager, apply_all, apply_command, do_release, forget_lock, init, lock_at,
  new_holder, note_lock, promote, promote_waiters, release, release_held,
}
use sistem_paralel_terdistri.Locks.State.{LockHolder, LockRequest, LockState}

-- The holders of a resource.
abbrev holders_at : LockManager → ℕ → Dict LockHolder
holders_at m r = (lock_at m.locks r).holders

promote_later :
    (now lease r c : ℕ) (k : LockHolder) (ws : List LockRequest) (hs : Dict LockHolder)
    (cl : Dict (List ℕ))
    → lookup c (promote now lease r ws hs cl).1 ≡ some k
    → (now ≤ k.lease_until) ⊎ (lookup c hs ≡ some k)
unfolding promote
promote_later now lease r c k [] hs cl e = inr e
promote_later now lease r c k (req ∷ ws) hs cl e =
    let v = new_holder now req.client_id req.mode lease in
    let late : now ≤ v.lease_until = omega arith in
    let next =
      promote_later now lease r c k ws (insert req.client_id v hs) (note_lock req.client_id r cl) in
    ground (arith, e, next, lookup-insert c req.client_id v hs, late)

not_holding :
    (client c : ℕ) (k : LockHolder) (hs : Dict LockHolder)
    → contains client hs ≡ false
    → lookup c hs ≡ some k
    → client ≢ c
not_holding client c k [] f e = absurd (ground (arith, e))
not_holding client c k ((j, w) ∷ hs) f e = λ q. ground (arith, f, e, q, not_holding client c k hs)

lock_at-insert :
    (q r : ℕ) (s : LockState) (d : Dict LockState)
    → lock_at (insert r s d) q ≡ (if r == q then s else lock_at d q)
lock_at-insert q r s d = ground (arith, lookup-insert q r s d)

-- The table after a release that did something.
release_held-holders :
    (now client r q : ℕ) (s : LockState) (m : LockManager)
    → holders_at (release_held now client r s m) q ≡ (
        if r == q
        then (promote now m.default_lease s.resource s.waiters
            (erase client s.holders)
            (forget_lock client r m.client_locks)).1
        else holders_at m q)
unfolding release_held promote_waiters
release_held-holders now client r q s m = elim (Bool-cases (r == q)) [
  | inl e ↦ ap (λ (x : LockState). x.holders) (lock_at-insert q r _ m.locks) ∙ rw e refl
  | inr e ↦ ap (λ (x : LockState). x.holders) (lock_at-insert q r _ m.locks) ∙ rw e refl
]

-- The two outcomes of `_do_release`.
do_release_cases :
    (now client r : ℕ) (m : LockManager)
    → ((do_release now client r m ≡ (m, false))
        × ((c : ℕ) (k : LockHolder) → lookup c (holders_at m r) ≡ some k → client ≢ c))
      ⊎ ((s : LockState) × (lookup r m.locks ≡ some s)
          × (do_release now client r m ≡ (release_held now client r s m, true)))
unfolding do_release
do_release_cases now client r m = elim (Option-cases (lookup r m.locks)) [
  | inl e ↦ inl (rw (do_release, e) refl, λ c k f. absurd (ground (arith, e, f)))
  | inr (s, e) ↦ elim (Bool-cases (contains client s.holders)) [
    | inl f ↦ inr (s, e, rw (do_release, e, f) refl)
    | inr f ↦ inl (
      rw (do_release, e, f) refl,
      λ c k g. not_holding client c k s.holders f (ground (arith, e, g)),
    )
  ]
]

-- After a release, a holder is another client that held before, or was granted at that time.
do_release-holders :
    (now client r c : ℕ) (k : LockHolder) (m : LockManager)
    → lookup c (holders_at (do_release now client r m).0 r) ≡ some k
    → (now ≤ k.lease_until) ⊎ ((lookup c (holders_at m r) ≡ some k) × (client ≢ c))
do_release-holders now client r c k m e = elim (do_release_cases now client r m) [
  | inl (f, n) ↦
      let g : lookup c (holders_at m r) ≡ some k =
        subst (λ (o : LockManager × Bool). lookup c (holders_at o.0 r) ≡ some k) f e in
      inr (g, n c k g)
  | inr (s, f, o) ↦
      let g : lookup c (holders_at (release_held now client r s m) r) ≡ some k =
        subst (λ (o : LockManager × Bool). lookup c (holders_at o.0 r) ≡ some k) o e in
      let h =
        promote_later now m.default_lease s.resource c k s.waiters (erase client s.holders)
          (forget_lock client r m.client_locks) in
      ground
        (arith, release_held-holders now client r r s m, g, h, f, lookup-erase c client s.holders)
]

-- A release leaves the other resources alone.
do_release-elsewhere :
    (now client r q : ℕ) (m : LockManager)
    → r ≢ q
    → holders_at (do_release now client r m).0 q ≡ holders_at m q
do_release-elsewhere now client r q m n = elim (do_release_cases now client r m) [
  | inl (f, _) ↦ rw f refl
  | inr (s, _, o) ↦ rw o (ground (arith, n, release_held-holders now client r q s m))
]

-- No holder of the resource has a lease that ended before `now`.
abbrev IsFresh : ℕ → LockManager → ℕ → Type 0
IsFresh now m r =
    (c : ℕ) (k : LockHolder) → lookup c (holders_at m r) ≡ some k → now ≤ k.lease_until

-- Whoever's lease ended before `now` is in the list.
abbrev AreListed : ℕ → LockManager → ℕ → List ℕ → Type 0
AreListed now m r cs =
    (c : ℕ) (k : LockHolder)
    → lookup c (holders_at m r) ≡ some k
    → (now ≤ k.lease_until) ⊎ (member c cs ≡ true)

expired_clients_lists :
    (now c : ℕ) (k : LockHolder) (hs : Dict LockHolder)
    → IsKeyed hs
    → lookup c hs ≡ some k
    → (now ≤ k.lease_until) ⊎ (member c (expired_clients now (values hs)) ≡ true)
unfolding expired_clients
expired_clients_lists now c k [] h e = absurd (ground (arith, e))
expired_clients_lists now c k ((j, w) ∷ hs) h e =
    ground (arith, h.0, e, expired_clients_lists now c k hs h.1)

expired-AreListed :
    (now r : ℕ) (m : LockManager)
    → AreKeyed m
    → AreListed now m r (expired_clients now (values (holders_at m r)))
expired-AreListed now r m h c k e =
    expired_clients_lists now c k (holders_at m r) (lock_at-IsKeyed r m.locks h) e

lock_at_absent : (q : ℕ) (d : Dict LockState) → contains q d ≡ false → (lock_at d q).holders ≡ []
lock_at_absent q [] e = refl
lock_at_absent q ((j, s) ∷ d) e = ground (arith, e, lock_at_absent q d)

module _ (from : ℕ) (submit : Submit) (applied : IsApplied from submit) where
  step-IsListed :
      (r c : ℕ) (cs : List ℕ) (m : LockManager)
      → AreListed from m r (c ∷ cs)
      → AreListed from (submit (release c r) m).0 r cs
  unfolding apply_command
  step-IsListed r c cs m h =
      let (now, uuid, late, e) = applied (release c r) m in
      rw e (λ x k f. let l = h x k in ground (arith, do_release-holders now c r x k m f, l, late))

  step-elsewhere :
      (r q c : ℕ) (m : LockManager)
      → r ≢ q
      → holders_at (submit (release c r) m).0 q ≡ holders_at m q
  unfolding apply_command
  step-elsewhere r q c m n =
      let (now, uuid, late, e) = applied (release c r) m in
      rw e (do_release-elsewhere now c r q m n)

  release_expired-IsFresh :
      (r : ℕ) (cs : List ℕ) (m : LockManager)
      → AreListed from m r cs
      → IsFresh from (release_expired submit r cs m) r
  unfolding release_expired
  release_expired-IsFresh r [] m h = λ c k e. ground (arith, h c k e)
  release_expired-IsFresh r (c ∷ cs) m h = release_expired-IsFresh r cs _ (step-IsListed r c cs m h)

  release_expired-elsewhere :
      (r q : ℕ) (cs : List ℕ) (m : LockManager)
      → r ≢ q
      → holders_at (release_expired submit r cs m) q ≡ holders_at m q
  unfolding release_expired
  release_expired-elsewhere r q [] m n = refl
  release_expired-elsewhere r q (c ∷ cs) m n =
      release_expired-elsewhere r q cs _ n ∙ step-elsewhere r q c m n

  step-AreKeyed : (r c : ℕ) (m : LockManager) → AreKeyed m → AreKeyed (submit (release c r) m).0
  step-AreKeyed r c m h =
      let (now, uuid, late, e) = applied (release c r) m in
      rw e (apply_command-AreKeyed now uuid (release c r) m h)

  release_expired-AreKeyed :
      (r : ℕ) (cs : List ℕ) (m : LockManager)
      → AreKeyed m
      → AreKeyed (release_expired submit r cs m)
  unfolding release_expired
  release_expired-AreKeyed r [] m h = h
  release_expired-AreKeyed r (c ∷ cs) m h = release_expired-AreKeyed r cs _ (step-AreKeyed r c m h)

  expire_each-IsFresh :
      (q : ℕ) (rs : List ℕ) (m : LockManager)
      → AreKeyed m
      → (member q rs ≡ true) ⊎ IsFresh from m q
      → IsFresh from (expire_each submit from rs m) q
  unfolding expire_each
  expire_each-IsFresh q [] m h (inl e) = absurd (ground (arith, e))
  expire_each-IsFresh q [] m h (inr f) = f
  expire_each-IsFresh q (r ∷ rs) m h f =
      let cs = expired_clients from (values (holders_at m r)) in
      let m' = release_expired submit r cs m in
      expire_each-IsFresh q rs m' (release_expired-AreKeyed r cs m h) (elim (Bool-cases (r == q)) [
        | inl e ↦
            let same : r ≡ q = ground arith in
            inr (
              subst (IsFresh from m') same
                (release_expired-IsFresh r cs m (expired-AreListed from r m h)))
        | inr e ↦
            let apart : r ≢ q = ground (arith, e) in
            elim f [
              | inl g ↦ inl (ground (arith, g, e))
              | inr g ↦ inr (λ c k p.
                  g c k (
                    subst (λ hs. lookup c hs ≡ some k) (release_expired-elsewhere r q cs m apart)
                      p))
            ]
      ])

absent-IsFresh : (now : ℕ) (q : ℕ) (m : LockManager) → contains q m.locks ≡ false → IsFresh now m q
absent-IsFresh now q m e c k f = absurd (ground (arith, lock_at_absent q m.locks e, f))

-- A round of `_lease_expiry_loop` on a replica that has applied any committed commands: if it leads
-- and each command that it submits is applied, then no holder of any resource is left whose lease
-- ended before the round began; the clients that the releases let in have newer leases.
pub lease_expiry_round_expires :
    (lease : ℕ) (cs : List (ℕ × ℕ × Command)) (from : ℕ) (submit : Submit)
    → IsApplied from submit
    → (r : ℕ) (s : LockState) (c : ℕ) (h : LockHolder)
    → lookup r (lease_expiry_round true submit from (apply_all cs (init lease))).locks ≡ some s
    → lookup c s.holders ≡ some h
    → from ≤ h.lease_until
unfolding lease_expiry_round
lease_expiry_round_expires lease cs from submit applied r s c h e f =
    let m = apply_all cs (init lease) in
    let start : (member r (keys m.locks) ≡ true) ⊎ IsFresh from m r =
      elim (Bool-cases (contains r m.locks)) [
        | inl g ↦ inl (sym (contains-keys r m.locks) ∙ g)
        | inr g ↦ inr (absent-IsFresh from r m g)
      ] in
    expire_each-IsFresh from submit applied r (keys m.locks) m
      (apply_all-AreKeyed cs (init lease) tt) start c h (ground (arith, e, f))
