-- ===== src/Locks/Index.antt =====
-- The index `client_locks` against the lock table: tugas-3/src/nodes/lock_manager.py.
use sistem_paralel_terdistri.Common.{
  AllEntries-lookup, Bool-cases, Dict, List, Option-cases, [], add, arith, contains, contains-erase,
  contains-insert, discard, erase, false, get_or, if◌then◌else◌, inl, inr, insert, lookup,
  lookup-insert, member, member-add, member-discard, refl, some, true, ℕ, ◌==◌, ◌∙◌, ◌∷◌, ◌≡◌,
}
use sistem_paralel_terdistri.Locks.Detector.{set_client_age}
use sistem_paralel_terdistri.Locks.Exclusion.{
  IsExclusive, IsValidLock, apply_command-IsExclusive, can_share, do_acquire_cases,
  do_release-IsExclusive,
}
use sistem_paralel_terdistri.Locks.Manager.{
  Command, LockManager, abort, acquire, apply_all, apply_command, do_acquire, do_release,
  do_release_all, forget_lock, grant, init, is_waiting, lock_at, locks_of, new_holder, note_lock,
  other, promote, promote_waiters, refuse, release, release_all, release_each, release_held,
}
use sistem_paralel_terdistri.Locks.State.{LockHolder, LockMode, LockRequest, LockState, is_held}

-- `client_locks` lists a resource for a client exactly if the table lists the client as a holder.
abbrev pub IsIndexed : LockManager → Type 0
IsIndexed m =
    (c r : ℕ) → member r (locks_of m.client_locks c) ≡ contains c (lock_at m.locks r).holders

member-note_lock :
    (q d c r : ℕ) (cl : Dict (List ℕ))
    → member q (locks_of (note_lock c r cl) d) ≡ (
        if c == d
        then if r == q then true else member q (locks_of cl d)
        else member q (locks_of cl d))
member-note_lock q d c r cl =
    ground (arith, lookup-insert d c (add r (locks_of cl c)) cl, member-add q r (locks_of cl c))

member-forget_lock :
    (q d c r : ℕ) (cl : Dict (List ℕ))
    → member q (locks_of (forget_lock c r cl) d) ≡ (
        if c == d
        then if r == q then false else member q (locks_of cl d)
        else member q (locks_of cl d))
member-forget_lock q d c r cl =
    ground
      (arith, lookup-insert d c (discard r (locks_of cl c)) cl, member-discard q r (locks_of cl c))

holders-insert :
    (q c r : ℕ) (s : LockState) (locks : Dict LockState)
    → contains c (lock_at (insert r s locks) q).holders
      ≡ (if r == q then contains c s.holders else contains c (lock_at locks q).holders)
holders-insert q c r s locks = ground (arith, lookup-insert q r s locks)

grant-IsIndexed :
    (now client r : ℕ) (mode : LockMode) (lease : ℕ) (m : LockManager)
    → IsIndexed m
    → IsIndexed (grant now client r mode lease (lock_at m.locks r) m)
unfolding grant
grant-IsIndexed now client r mode lease m h c q = ground (
  arith,
  h c q,
  member-note_lock q c client r m.client_locks,
  holders-insert q c r
      (record (lock_at m.locks r) {
        holders = insert client (new_holder now client mode lease) (lock_at m.locks r).holders;
      })
      m.locks,
  contains-insert c client (new_holder now client mode lease) (lock_at m.locks r).holders,
)

refuse-IsIndexed :
    (now uuid client r : ℕ) (mode : LockMode) (m : LockManager)
    → IsIndexed m
    → IsIndexed (refuse now uuid client r mode (lock_at m.locks r) m)
unfolding refuse
refuse-IsIndexed now uuid client r mode m h c q =
    rw (holders-insert q c r _ m.locks)
      (ground (arith, h c q, Bool-cases (is_waiting client (lock_at m.locks r).waiters)))

do_acquire-IsIndexed :
    (now uuid client r : ℕ) (mode : LockMode) (lease : ℕ) (m : LockManager)
    → IsIndexed m
    → IsIndexed (do_acquire now uuid client r mode lease m).0
do_acquire-IsIndexed now uuid client r mode lease m h =
    let m' : LockManager = record m {
      deadlock_detector = set_client_age client now m.deadlock_detector;
    } in
    do_acquire_cases (λ res. IsIndexed res.0) now uuid client r mode lease m
      (λ _. grant-IsIndexed now client r mode lease m' h)
      (λ _ _. refuse-IsIndexed now uuid client r mode m' h)

-- The loop of `_promote_waiters` keeps the index right at its resource, and leaves the others.
promote-indexed :
    (now lease r : ℕ) (ws : List LockRequest) (hs : Dict LockHolder) (cl : Dict (List ℕ))
    → ((c : ℕ) → member r (locks_of cl c) ≡ contains c hs)
    → let (_, hs', cl') = promote now lease r ws hs cl in
      ((c : ℕ) → member r (locks_of cl' c) ≡ contains c hs')
      × ((c q : ℕ) → ¬ (r ≡ q) → member q (locks_of cl' c) ≡ member q (locks_of cl c))
unfolding promote
promote-indexed now lease r [] hs cl h = (h, λ c q ne. refl)
promote-indexed now lease r (req ∷ ws) hs cl h =
    let s : LockState = record { resource = r; holders = hs; waiters = req ∷ ws } in
    let v = new_holder now req.client_id req.mode lease in
    let rest =
      promote-indexed now lease r ws (insert req.client_id v hs) (note_lock req.client_id r cl)
        (λ c. ground (
          arith,
          h c,
          member-note_lock r c req.client_id r cl,
          contains-insert c req.client_id v hs,
        )) in
    let others = λ (c q : ℕ) (ne : ¬ (r ≡ q)).
      rest.1 c q ne ∙ ground (arith, member-note_lock q c req.client_id r cl) in
    elim (Bool-cases (is_held s)) [
      | inl e ↦ elim (Bool-cases (can_share req.mode s)) [
        | inl p ↦ rw (e, p) (rest.0, others)
        | inr p ↦ rw (e, p) (h, λ c q ne. refl)
      ]
      | inr e ↦ rw e (rest.0, others)
    ]

-- The index at the released resource, before the waiters are promoted.
freed-indexed :
    (client r : ℕ) (s : LockState) (m : LockManager)
    → IsIndexed m
    → lookup r m.locks ≡ some s
    → s.resource ≡ r
    → (c : ℕ)
    → member s.resource (locks_of (forget_lock client r m.client_locks) c)
      ≡ contains c (erase client s.holders)
freed-indexed client r s m h e n c = ground (
  arith,
  h c r,
  member-forget_lock s.resource c client r m.client_locks,
  contains-erase c client s.holders,
)

release_held-IsIndexed :
    (now client r : ℕ) (s : LockState) (m : LockManager)
    → IsIndexed m
    → lookup r m.locks ≡ some s
    → s.resource ≡ r
    → IsIndexed (release_held now client r s m)
unfolding release_held promote_waiters
release_held-IsIndexed now client r s m h e n c q =
    let after =
      promote-indexed now m.default_lease s.resource s.waiters (erase client s.holders)
        (forget_lock client r m.client_locks) (freed-indexed client r s m h e n) in
    rw (holders-insert q c r _ m.locks) (elim (Bool-cases (r == q)) [
      | inl p ↦ rw p (ground (arith, after.0 c))
      | inr p ↦ rw p (
          after.1 c q (λ o. ground arith)
          ∙ ground (arith, h c q, member-forget_lock q c client r m.client_locks))
    ])

do_release-IsIndexed :
    (now client r : ℕ) (m : LockManager)
    → IsExclusive m
    → IsIndexed m
    → IsIndexed (do_release now client r m).0
unfolding do_release
do_release-IsIndexed now client r m v h = elim (Option-cases (lookup r m.locks)) [
  | inl e ↦ rw (e, do_release) h
  | inr (s, e) ↦ elim (Bool-cases (contains client s.holders)) [
    | inl p ↦
        rw (e, do_release, p)
          (release_held-IsIndexed now client r s m h e
            (AllEntries-lookup IsValidLock r s m.locks v e).named)
    | inr p ↦ rw (e, do_release, p) h
  ]
]

release_each-IsIndexed :
    (now client : ℕ) (rs : List ℕ) (m : LockManager) (n : ℕ)
    → IsExclusive m
    → IsIndexed m
    → IsIndexed (release_each now client rs m n).0
unfolding release_each
release_each-IsIndexed now client [] m n v h = h
release_each-IsIndexed now client (r ∷ rs) m n v h =
    release_each-IsIndexed now client rs _ _ (do_release-IsExclusive now client r m v)
      (do_release-IsIndexed now client r m v h)

do_release_all-IsIndexed :
    (now client : ℕ) (m : LockManager)
    → IsExclusive m
    → IsIndexed m
    → IsIndexed (do_release_all now client m).0
unfolding do_release_all
do_release_all-IsIndexed now client m v h =
    release_each-IsIndexed now client (locks_of m.client_locks client) m 0 v h

apply_command-IsIndexed :
    (now uuid : ℕ) (c : Command) (m : LockManager)
    → IsExclusive m
    → IsIndexed m
    → IsIndexed (apply_command now uuid c m).0
unfolding apply_command
apply_command-IsIndexed now uuid (acquire client r mode lease) m v h =
    do_acquire-IsIndexed now uuid client r mode (get_or lease m.default_lease) m h
apply_command-IsIndexed now uuid (release client r) m v h = do_release-IsIndexed now client r m v h
apply_command-IsIndexed now uuid (release_all client) m v h =
    do_release_all-IsIndexed now client m v h
apply_command-IsIndexed now uuid (abort client) m v h = do_release_all-IsIndexed now client m v h
apply_command-IsIndexed now uuid other m v h = h

apply_all-IsIndexed :
    (cs : List (ℕ × ℕ × Command)) (m : LockManager)
    → IsExclusive m
    → IsIndexed m
    → IsIndexed (apply_all cs m)
unfolding apply_all
apply_all-IsIndexed [] m v h = h
apply_all-IsIndexed ((now, uuid, c) ∷ cs) m v h =
    apply_all-IsIndexed cs _ (apply_command-IsExclusive now uuid c m v)
      (apply_command-IsIndexed now uuid c m v h)

-- After any sequence of committed commands, `client_locks` lists a resource for a client exactly
-- if the lock table lists the client among the resource's holders.
pub client_locks_agree :
    (lease : ℕ) (cs : List (ℕ × ℕ × Command)) → IsIndexed (apply_all cs (init lease))
client_locks_agree lease cs = apply_all-IsIndexed cs (init lease) tt (λ c r. refl)
