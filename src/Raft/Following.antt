-- ===== src/Raft/Following.antt =====
-- How a follower keeps and extends what is committed: `_handle_append_entries` of
-- tugas-3/src/consensus/raft.py.
use sistem_paralel_terdistri.Common.{
  Bool-cases, List, [], ap, arith, false, inl, inr, length, length-append, length-take, ltb, ltb→lt,
  min, refl, some, subst, suc, sym, take, zero, ℕ, ◌++◌, ◌+◌, ◌<◌, ◌==◌, ◌∙◌, ◌∷◌, ◌≡◌, ◌≤◌, ◌⊎◌,
}
use sistem_paralel_terdistri.Raft.Apply.{raised}
use sistem_paralel_terdistri.Raft.Commit.{IsBounded, apply_committed-Commits}
use sistem_paralel_terdistri.Raft.Handlers.{
  accept_entries, before_error, follow_commit, handle_append_entries, prev_ok, put_entries,
  put_entry, see_term,
}
use sistem_paralel_terdistri.Raft.Node.{become_follower, last_log_index, term_at}
use sistem_paralel_terdistri.Raft.State.{
  Effect, LogEntry, Outcome, RaftNode, call, follower, index_error, resolve, send,
}

differs : {a b : ℕ} → a ≡ b → (a == b) ≡ false → ⊥
differs e q = ground arith

above_of : (k pos : ℕ) → (pos < k → ⊥) → k ≤ pos
above_of k pos h = elim (Bool-cases (ltb pos k)) [
  | inl e ↦ absurd (h (ltb→lt pos k e))
  | inr e ↦ ground arith
]

module _ {C : Type 0} where
  -- The entries of a message, put from `pos` on, have the terms of the log below position `k`.
  abbrev pub Agrees : ℕ → ℕ → List (LogEntry C) → List (LogEntry C) → Type 0
  Agrees k pos [] log = Unit
  Agrees k pos (e ∷ es) log = (pos < k → term_at pos log ≡ e.term) × Agrees k (pos + 1) es log

  Agrees-beyond : (k pos : ℕ) (es log : List (LogEntry C)) → k ≤ pos → Agrees k pos es log
  Agrees-beyond k pos [] log h = tt
  Agrees-beyond k pos (e ∷ es) log h =
      (λ p. absurd (omega arith), Agrees-beyond k (pos + 1) es log (omega arith))

  take-take_put :
      (k pos : ℕ) (e : LogEntry C) (log : List (LogEntry C))
      → k ≤ pos
      → pos ≤ length log
      → take k (take pos log ++ e ∷ []) ≡ take k log
  take-take_put zero pos e log h l = refl
  take-take_put (suc k) zero e log h l = absurd (omega arith)
  take-take_put (suc k) (suc pos) e [] h l = absurd (omega arith)
  take-take_put (suc k) (suc pos) e (x ∷ log) h l =
      ap (◌∷◌ x) (take-take_put k pos e log (omega arith) (omega arith))

  take-append_le :
      (k : ℕ) (log es : List (LogEntry C)) → k ≤ length log → take k (log ++ es) ≡ take k log
  take-append_le zero log es h = refl
  take-append_le (suc k) [] es h = absurd (omega arith)
  take-append_le (suc k) (x ∷ log) es h = ap (◌∷◌ x) (take-append_le k log es (omega arith))

  -- One round either leaves the log, or changes nothing below the committed position.
  put_entry_keeps :
      (k pos : ℕ) (e : LogEntry C) (log : List (LogEntry C))
      → k ≤ length log
      → (pos < k → term_at pos log ≡ e.term)
      → (put_entry pos e log ≡ log)
        ⊎ ((k ≤ pos)
            × (take k (put_entry pos e log) ≡ take k log)
            × (k ≤ length (put_entry pos e log)))
  unfolding put_entry
  put_entry_keeps k pos e log h agree = elim (Bool-cases (ltb pos (length log))) [
    | inr p ↦ rw p (
        inr (
          ground arith,
          take-append_le k log (e ∷ []) h,
          omega (arith, length-append log (e ∷ [])),
        ))
    | inl p ↦ elim (Bool-cases (term_at pos log == e.term)) [
      | inl q ↦ rw (p, q) (inl refl)
      | inr q ↦
          let inside : pos < length log = ltb→lt pos (length log) p in
          let above : k ≤ pos = above_of k pos (λ l. differs (agree l) q) in
          rw (p, q)
            (inr (
              above,
              take-take_put k pos e log above (omega arith),
              omega
                  (arith, length-append (take pos log) (e ∷ []), length-take pos log (omega arith)),
            ))
    ]
  ]

  -- A message that agrees with the committed entries leaves them as they are.
  put_entries_keeps :
      (k pos : ℕ) (es log : List (LogEntry C))
      → k ≤ length log
      → Agrees k pos es log
      → (take k (put_entries pos es log) ≡ take k log) × (k ≤ length (put_entries pos es log))
  unfolding put_entries
  put_entries_keeps k pos [] log h a = (refl, h)
  put_entries_keeps k pos (e ∷ es) log h a = elim (put_entry_keeps k pos e log h a.0) [
    | inl same ↦ rw same (put_entries_keeps k (pos + 1) es log h a.1)
    | inr (above, kept, le) ↦
        let (t, l) =
          put_entries_keeps k (pos + 1) es (put_entry pos e log) le
            (Agrees-beyond k (pos + 1) es (put_entry pos e log) (omega arith)) in
        (t ∙ kept, l)
  ]

  raised-before_error :
      (es fs : List (Effect C))
      → raised es ≡ false
      → raised fs ≡ false
      → raised (before_error es fs) ≡ false
  unfolding raised before_error
  raised-before_error [] fs h g = g
  raised-before_error (send to m ∷ es) fs h g = raised-before_error es fs h g
  raised-before_error (call c ∷ es) fs h g = raised-before_error es fs h g
  raised-before_error (resolve i ∷ es) fs h g = raised-before_error es fs h g
  raised-before_error (index_error ∷ es) fs h g = cc

  -- An outcome that keeps the indices in order, the committed entries as they are, and raises
  -- nothing.
  pub record IsSafe (n : RaftNode C) (o : Outcome C) : Type 0 where
    pub bounded : IsBounded o.0
    pub kept : take n.commit_index o.0.log ≡ take n.commit_index n.log
    pub forward : n.commit_index ≤ o.0.commit_index
    pub fine : raised o.1 ≡ false

  follow_commit-IsSafe : (c : ℕ) (n : RaftNode C) → IsBounded n → IsSafe n (follow_commit c n)
  unfolding follow_commit raised
  follow_commit-IsSafe c n b = elim (Bool-cases (ltb n.commit_index c)) [
    | inr e ↦ rw e (record { bounded = b; kept = refl; forward = omega arith; fine = refl })
    | inl e ↦
        let up : n.commit_index < c = ltb→lt n.commit_index c e in
        let i = min c (last_log_index n) in
        let (d, same) =
          apply_committed-Commits n i (omega (arith, b.applied, b.stored)) (omega arith) in
        rw e (record {
          bounded = d.bounded;
          kept = ap (take n.commit_index) d.kept;
          forward = omega (arith, b.stored, same);
          fine = d.fine;
        })
  ]

  pub see_term_lem :
      (d t : ℕ) (n : RaftNode C)
      → ((see_term d t n).log ≡ n.log)
        × ((see_term d t n).commit_index ≡ n.commit_index)
        × ((see_term d t n).last_applied ≡ n.last_applied)
  unfolding see_term become_follower
  see_term_lem d t n = ground arith

  accept_entries-IsSafe :
      (prev pt : ℕ) (es : List (LogEntry C)) (c : ℕ) (n : RaftNode C)
      → IsBounded n
      → Agrees n.commit_index prev es n.log
      → IsSafe n (accept_entries prev pt es c n).0
  unfolding accept_entries raised
  accept_entries-IsSafe prev pt es c n b a = elim (Bool-cases (prev_ok n prev pt)) [
    | inr e ↦ rw e (record { bounded = b; kept = refl; forward = omega arith; fine = refl })
    | inl e ↦
        let (kept, le) = put_entries_keeps n.commit_index prev es n.log b.stored a in
        let s =
          follow_commit-IsSafe c (record n { log = put_entries prev es n.log })
            (record { applied = b.applied; stored = le }) in
        rw e
          (record { bounded = s.bounded; kept = s.kept ∙ kept; forward = s.forward; fine = s.fine })
  ]

  -- A message whose entries agree with what the node has committed keeps
  -- `last_applied <= commit_index <= last log index`, changes no committed entry, never moves the
  -- commit index back, and is answered: no log read raises.
  pub handle_append_entries-IsSafe :
      (d t l prev pt : ℕ) (es : List (LogEntry C)) (c : ℕ) (n : RaftNode C)
      → IsBounded n
      → Agrees n.commit_index prev es n.log
      → IsSafe n (handle_append_entries d t l prev pt es c n)
  unfolding handle_append_entries raised
  handle_append_entries-IsSafe d t l prev pt es c n b a = elim (Bool-cases (ltb t n.current_term)) [
    | inl e ↦
        rw (handle_append_entries, e)
          (record {
            bounded = b;
            kept = refl;
            forward = omega arith;
            fine = raised-before_error [] _ refl refl;
          })
    | inr e ↦
        let n1 = see_term d t n in
        let (lg, ci, la) = see_term_lem d t n in
        let n2 : RaftNode C = record n1 {
          state = follower;
          leader_id = some l;
          election_deadline = d;
        } in
        let b2 : IsBounded n2 = record {
          applied = omega (arith, b.applied, ci, la);
          stored = omega (arith, b.stored, ci, ap length lg);
        } in
        let a2 : Agrees n2.commit_index prev es n2.log =
          subst (λ k. Agrees k prev es n1.log) (sym ci)
            (subst (Agrees n.commit_index prev es) (sym lg) a) in
        let s = accept_entries-IsSafe prev pt es c n2 b2 a2 in
        rw (handle_append_entries, e)
          (record {
            bounded = record { applied = s.bounded.applied; stored = s.bounded.stored };
            kept =
                subst (λ k. take k (accept_entries prev pt es c n2).0.0.log ≡ take k n.log) ci
                  (s.kept ∙ ap (take n1.commit_index) lg);
            forward = omega (arith, s.forward, ci);
            fine = raised-before_error _ _ s.fine refl;
          })
  ]
