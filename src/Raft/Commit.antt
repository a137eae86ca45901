-- ===== src/Raft/Commit.antt =====
-- The commit index of a Raft node, and what reaches the state machine: tugas-3/src/consensus/raft.py.
use sistem_paralel_terdistri.Common.{
  Bool, Bool-cases, Option, Option-cases, [], ap, arith, drop, false, inl, inr, leb, length, none,
  refl, some, subst, suc, sym, take, true, zero, ℕ, ◌&&◌, ◌+◌, ◌-◌, ◌<◌, ◌==◌, ◌≡◌, ◌≤◌, ◌⊎◌,
}
use sistem_paralel_terdistri.Raft.Apply.{apply_loop-log, apply_loop_lem, calls, commands, raised}
use sistem_paralel_terdistri.Raft.Handlers.{commit_target, count_matching, update_commit_index}
use sistem_paralel_terdistri.Raft.Node.{apply_committed, majority, term_at}
use sistem_paralel_terdistri.Raft.State.{Outcome, RaftNode}

before : (a k : ℕ) → a + suc k - 1 ≡ a + k
before a k = omega arith

not_last : (a k j : ℕ) → j ≤ a + suc k → ¬ (j ≡ a + suc k) → j ≤ a + k
not_last a k j h ne = omega arith

module _ {C : Type 0} where
  -- What is applied is committed, and what is committed is in the log.
  pub record IsBounded (n : RaftNode C) : Type 0 where
    pub applied : n.last_applied ≤ n.commit_index
    pub stored : n.commit_index ≤ length n.log

  -- An outcome that committed and applied the entries from `n` up to its own commit index, in order
  -- and each once.
  pub record Commits (n : RaftNode C) (o : Outcome C) : Type 0 where
    pub kept : o.0.log ≡ n.log
    pub reached : o.0.last_applied ≡ o.0.commit_index
    pub bounded : IsBounded o.0
    pub applied_next :
        calls o.1 ≡ commands (take (o.0.commit_index - n.last_applied) (drop n.last_applied n.log))
    pub fine : raised o.1 ≡ false

  pub apply_committed-Commits :
      (n : RaftNode C) (i : ℕ)
      → n.last_applied ≤ i
      → i ≤ length n.log
      → Commits n (apply_committed (record n { commit_index = i }))
        × ((apply_committed (record n { commit_index = i })).0.commit_index ≡ i)
  apply_committed-Commits n i low high =
      let n' : RaftNode C = record n { commit_index = i } in
      let (lg, ci, _, _) = apply_loop-log (i - n.last_applied) n' in
      let (last, called, fine) = apply_loop_lem (i - n.last_applied) n' (omega arith) in
      (
        record {
          kept = lg;
          reached = omega (arith, last, ci);
          bounded = record {
            applied = omega (arith, last, ci);
            stored = omega (arith, ci, ap length lg);
          };
          applied_next = rw ci called;
          fine = fine;
        },
        ci,
      )

  -- What `_update_commit_index` requires of the new commit index: it is beyond the old one and in
  -- the log, its entry has the current term, and a majority of the cluster stores it.
  pub record IsCommittable (n : RaftNode C) (i : ℕ) : Type 0 where
    pub beyond : n.commit_index < i
    pub current : term_at (i - 1) n.log ≡ n.current_term
    pub stored_by_majority : majority n ≤ 1 + count_matching i n.peers n.match_index

  -- The test of the loop.
  abbrev can_commit : RaftNode C → ℕ → Bool
  can_commit n k =
      term_at (n.commit_index + k) n.log == n.current_term
      && leb (majority n) (1 + count_matching (n.commit_index + suc k) n.peers n.match_index)

  can_commit→IsCommittable :
      (n : RaftNode C) (k : ℕ) → can_commit n k ≡ true → IsCommittable n (n.commit_index + suc k)
  can_commit→IsCommittable n k e = record {
    beyond = omega arith;
    current = rw (before n.commit_index k) (ground arith);
    stored_by_majority = ground arith;
  }

  IsCommittable→can_commit :
      (n : RaftNode C) (k : ℕ) → IsCommittable n (n.commit_index + suc k) → can_commit n k ≡ true
  IsCommittable→can_commit n k c =
      let t : term_at (n.commit_index + k) n.log ≡ n.current_term =
        rw (← before n.commit_index k) c.current in
      let m = c.stored_by_majority in ground arith

  commit_target-IsCommittable :
      (k : ℕ) (n : RaftNode C) (i : ℕ)
      → commit_target k n ≡ some i
      → IsCommittable n i × (i ≤ n.commit_index + k)
  unfolding commit_target
  commit_target-IsCommittable zero n i h = cc
  commit_target-IsCommittable (suc k) n i h = elim (Bool-cases (can_commit n k)) [
    | inl e ↦
        let same : n.commit_index + suc k ≡ i = ground arith in
        (subst (IsCommittable n) same (can_commit→IsCommittable n k e), omega (arith, same))
    | inr e ↦
        let (c, le) = commit_target-IsCommittable k n i (ground arith) in (c, omega (arith, le))
  ]

  cannot :
      (k : ℕ) (n : RaftNode C) (j : ℕ)
      → can_commit n k ≡ false
      → j ≡ n.commit_index + suc k
      → ¬ IsCommittable n j
  cannot k n j e p c =
      let t = IsCommittable→can_commit n k (subst (IsCommittable n) p c) in ground arith

  -- No position of the last `k` above the chosen one could be committed.
  commit_target_highest :
      (k : ℕ) (n : RaftNode C) (j : ℕ)
      → IsCommittable n j
      → j ≤ n.commit_index + k
      → (i : ℕ) × (commit_target k n ≡ some i) × (j ≤ i)
  unfolding commit_target
  commit_target_highest zero n j c h = absurd (omega (arith, c.beyond))
  commit_target_highest (suc k) n j c h = elim (Bool-cases (can_commit n k)) [
    | inl e ↦ rw e (n.commit_index + suc k, refl, h)
    | inr e ↦
        rw e
          (commit_target_highest k n j c (not_last n.commit_index k j h (λ p. cannot k n j e p c)))
  ]

  update_at :
      (n : RaftNode C) (o : Option ℕ)
      → commit_target (length n.log - n.commit_index) n ≡ o
      → update_commit_index n
        ≡ elim o [ none ↦ (n, []) | some i ↦ apply_committed (record n { commit_index = i }) ]
  unfolding update_commit_index
  update_at n none e = rw (e, update_commit_index)
  update_at n (some i) e = rw (e, update_commit_index)

  -- On a node whose indices are in order, `_update_commit_index` moves the commit index to the
  -- highest position that a majority stores and whose entry has the current term, and applies every
  -- entry up to it, in order and each once; where there is no such position it does nothing.
  pub update_commit_index_lem :
      (n : RaftNode C)
      → IsBounded n
      → let o = update_commit_index n in
        ((o ≡ (n, [])) × ((j : ℕ) → j ≤ length n.log → ¬ IsCommittable n j))
        ⊎ (IsCommittable n o.0.commit_index
            × ((j : ℕ) → j ≤ length n.log → IsCommittable n j → j ≤ o.0.commit_index)
            × Commits n o)
  update_commit_index_lem n b =
      let k = length n.log - n.commit_index in
      elim (Option-cases (commit_target k n)) [
        | inl e ↦ inl (
          update_at n none e,
          λ j le c.
              let (i, p, _) = commit_target_highest k n j c (omega (arith, b.stored)) in
              ground arith,
        )
        | inr (i, e) ↦
            let (c, le) = commit_target-IsCommittable k n i e in
            let (d, same) =
              apply_committed-Commits n i (omega (arith, b.applied, c.beyond))
                (omega (arith, b.stored, le)) in
            inr (
              subst
                (λ o.
                  IsCommittable n o.0.commit_index
                  × ((j : ℕ) → j ≤ length n.log → IsCommittable n j → j ≤ o.0.commit_index)
                  × Commits n o)
                (sym (update_at n (some i) e))
                (
                  subst (IsCommittable n) (sym same) c,
                  λ j lj cj.
                      let (x, p, h) = commit_target_highest k n j cj (omega (arith, b.stored)) in
                      ground (arith, same),
                  d,
                ))
      ]
