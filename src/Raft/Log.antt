-- ===== src/Raft/Log.antt =====
-- The log replication of `_handle_append_entries`: tugas-3/src/consensus/raft.py.
use sistem_paralel_terdistri.Common.{
  Bool-cases, List, [], ap, append-nil, append_assoc, arith, false, inl, inr, length, length-append,
  length-take, ltb, ltb→lt, min, refl, some, subst, suc, take, true, zero, ℕ, ◌&&◌, ◌++◌, ◌+◌, ◌-◌,
  ◌<◌, ◌==◌, ◌∙◌, ◌∷◌, ◌≡◌, ◌≤◌,
}
use sistem_paralel_terdistri.Raft.Apply.{apply_loop-log}
use sistem_paralel_terdistri.Raft.Handlers.{
  accept_entries, follow_commit, handle_append_entries, prev_ok, put_entries, put_entry, see_term,
}
use sistem_paralel_terdistri.Raft.Node.{become_follower, last_log_index, term_at}
use sistem_paralel_terdistri.Raft.State.{LogEntry, RaftNode, follower}

module _ {C : Type 0} where
  abbrev pub terms : List (LogEntry C) → List ℕ
  terms [] = []
  terms (e ∷ log) = e.term ∷ terms log

  length-terms : (log : List (LogEntry C)) → length (terms log) ≡ length log
  length-terms [] = refl
  length-terms (e ∷ log) = ap suc (length-terms log)

  take-terms : (k : ℕ) (log : List (LogEntry C)) → take k (terms log) ≡ terms (take k log)
  take-terms zero log = refl
  take-terms (suc k) [] = refl
  take-terms (suc k) (e ∷ log) = ap (◌∷◌ e.term) (take-terms k log)

  -- The terms up to and with a position.
  take-term_at :
      (pos : ℕ) (log : List (LogEntry C))
      → pos < length log
      → take (suc pos) (terms log) ≡ take pos (terms log) ++ term_at pos log ∷ []
  take-term_at zero (e ∷ log) h = refl
  take-term_at (suc pos) (e ∷ log) h = ap (◌∷◌ e.term) (take-term_at pos log (omega arith))
  take-term_at pos [] h = absurd (omega arith)

  -- What replaces or follows the first `pos` entries.
  take-terms_put :
      (pos : ℕ) (e : LogEntry C) (log : List (LogEntry C))
      → pos ≤ length log
      → take (suc pos) (terms (take pos log ++ e ∷ [])) ≡ take pos (terms log) ++ e.term ∷ []
  take-terms_put zero e log h = refl
  take-terms_put (suc pos) e [] h = absurd (omega arith)
  take-terms_put (suc pos) e (x ∷ log) h = ap (◌∷◌ x.term) (take-terms_put pos e log (omega arith))

  take_all : (log : List (LogEntry C)) → take (length log) log ≡ log
  take_all [] = refl
  take_all (e ∷ log) = ap (◌∷◌ e) (take_all log)

  put_entry-terms :
      (pos : ℕ) (e : LogEntry C) (log : List (LogEntry C))
      → pos ≤ length log
      → take (suc pos) (terms (put_entry pos e log)) ≡ take pos (terms log) ++ e.term ∷ []
  unfolding put_entry
  put_entry-terms pos e log h = elim (Bool-cases (ltb pos (length log))) [
    | inl p ↦ elim (Bool-cases (term_at pos log == e.term)) [
      | inl q ↦
          let same : term_at pos log ≡ e.term = ground arith in
          rw (p, q)
            (take-term_at pos log (ltb→lt _ _ p) ∙ ap (λ t. take pos (terms log) ++ t ∷ []) same)
      | inr q ↦ rw (p, q) (take-terms_put pos e log h)
    ]
    | inr p ↦
        let full : length log ≡ pos = ground arith in
        let whole : take pos log ≡ log = subst (λ k. take k log ≡ log) full (take_all log) in
        rw p (
          subst (λ l. take (suc pos) (terms (l ++ e ∷ [])) ≡ take pos (terms log) ++ e.term ∷ [])
            whole (take-terms_put pos e log h))
  ]

  length-take_put :
      (pos : ℕ) (e : LogEntry C) (log : List (LogEntry C))
      → pos ≤ length log
      → length (take pos log ++ e ∷ []) ≡ suc pos
  length-take_put pos e log h =
      omega (arith, length-append (take pos log) (e ∷ []), length-take pos log h)

  put_entry-length :
      (pos : ℕ) (e : LogEntry C) (log : List (LogEntry C))
      → pos ≤ length log
      → suc pos ≤ length (put_entry pos e log)
  unfolding put_entry
  put_entry-length pos e log h =
      ground (arith, length-take_put pos e log h, length-append log (e ∷ []))

  pub put_entries-length :
      (pos : ℕ) (es log : List (LogEntry C))
      → pos ≤ length log
      → pos + length es ≤ length (put_entries pos es log)
  unfolding put_entries
  put_entries-length pos [] log h = omega arith
  put_entries-length pos (e ∷ es) log h =
      let p = put_entry-length pos e log h in
      omega (arith, put_entries-length (pos + 1) es (put_entry pos e log) (omega (arith, p)))

  -- The loop leaves the terms before its start as they are, and the message's terms follow them.
  put_entries-terms :
      (pos : ℕ) (es log : List (LogEntry C))
      → pos ≤ length log
      → take (pos + length es) (terms (put_entries pos es log)) ≡ take pos (terms log) ++ terms es
  unfolding put_entries
  put_entries-terms pos [] log h = let z : pos + 0 ≡ pos = omega arith in rw (z, append-nil)
  put_entries-terms pos (e ∷ es) log h =
      let p = put_entry-length pos e log h in
      let r = put_entries-terms (pos + 1) es (put_entry pos e log) (omega (arith, p)) in
      let s : pos + suc (length es) ≡ pos + 1 + length es = omega arith in
      let one : pos + 1 ≡ suc pos = omega arith in
      let first : take (pos + 1) (terms (put_entry pos e log))
          ≡ take pos (terms log) ++ e.term ∷ [] =
        rw one (put_entry-terms pos e log h) in
      rw s (
        r
        ∙ ap (λ l. l ++ terms es) first
        ∙ append_assoc (take pos (terms log)) (e.term ∷ []) (terms es))

  pub prev_ok-le : (n : RaftNode C) (prev pt : ℕ) → prev_ok n prev pt ≡ true → prev ≤ length n.log
  prev_ok-le n zero pt h = omega arith
  prev_ok-le n (suc i) pt h = ground arith

  pub see_term-log : (d t : ℕ) (n : RaftNode C) → (see_term d t n).log ≡ n.log
  unfolding see_term become_follower
  see_term-log d t n = ground arith

  pub follow_commit-log : (c : ℕ) (n : RaftNode C) → (follow_commit c n).0.log ≡ n.log
  unfolding follow_commit
  follow_commit-log c n = elim (Bool-cases (ltb n.commit_index c)) [
    | inl e ↦
        let n' : RaftNode C = record n { commit_index = min c (last_log_index n) } in
        rw e (apply_loop-log (n'.commit_index - n'.last_applied) n').0
    | inr e ↦ rw e
  ]

  pub prev_ok-same :
      (n n' : RaftNode C) (prev pt : ℕ) → n'.log ≡ n.log → prev_ok n' prev pt ≡ prev_ok n prev pt
  prev_ok-same n n' zero pt e = refl
  prev_ok-same n n' (suc i) pt e = ap (λ log. ltb i (length log) && term_at i log == pt) e

  -- The log after a message that is not stale and whose previous entry matches.
  pub log-handle_append_entries :
      (d t l prev pt : ℕ) (es : List (LogEntry C)) (c : ℕ) (n : RaftNode C)
      → n.current_term ≤ t
      → prev_ok n prev pt ≡ true
      → (handle_append_entries d t l prev pt es c n).0.log ≡ put_entries prev es n.log
  unfolding handle_append_entries accept_entries
  log-handle_append_entries d t l prev pt es c n h ok =
      let n1 = see_term d t n in
      let n2 : RaftNode C = record n1 {
        state = follower;
        leader_id = some l;
        election_deadline = d;
      } in
      let fresh : ltb t n.current_term ≡ false = ground arith in
      let same = see_term-log d t n in
      let ok2 : prev_ok n2 prev pt ≡ true = prev_ok-same n n2 prev pt same ∙ ok in
      rw (handle_append_entries, fresh, accept_entries, ok2)
        (follow_commit-log c (record n2 { log = put_entries prev es n2.log })
          ∙ ap (put_entries prev es) same)

  -- An accepted message leaves the terms of the entries before it as they are, and directly behind
  -- them stand the terms of the message's entries, in order.
  pub handle_append_entries-terms :
      (d t l prev pt : ℕ) (es : List (LogEntry C)) (c : ℕ) (n : RaftNode C)
      → n.current_term ≤ t
      → prev_ok n prev pt ≡ true
      → take (prev + length es) (terms (handle_append_entries d t l prev pt es c n).0.log)
        ≡ take prev (terms n.log) ++ terms es
  handle_append_entries-terms d t l prev pt es c n h ok =
      ap (λ log. take (prev + length es) (terms log))
        (log-handle_append_entries d t l prev pt es c n h ok)
      ∙ put_entries-terms prev es n.log (prev_ok-le n prev pt ok)
