-- ===== src/Raft/Apply.antt =====
-- `_apply_committed` of tugas-3/src/consensus/raft.py: which commands reach the state machine.
use sistem_paralel_terdistri.Common.{
  Bool, List, Option-cases, [], ap, ap₂, arith, drop, false, get_elem?, inl, inr, length, refl,
  some, suc, take, true, zero, ℕ, ◌++◌, ◌+◌, ◌<◌, ◌∙◌, ◌∷◌, ◌≡◌, ◌≤◌,
}
use sistem_paralel_terdistri.Raft.Node.{apply_loop, resolve_pending}
use sistem_paralel_terdistri.Raft.State.{
  Effect, LogEntry, RaftNode, call, index_error, resolve, send,
}

module _ {C : Type 0} where
  -- The commands of a handler's calls of `apply_callback`, in order.
  unfoldable pub calls : List (Effect C) → List C
  calls [] = []
  calls (call c ∷ es) = c ∷ calls es
  calls (send to m ∷ es) = calls es
  calls (resolve i ∷ es) = calls es
  calls (index_error ∷ es) = calls es

  -- Whether some log read raised.
  unfoldable pub raised : List (Effect C) → Bool
  raised [] = false
  raised (index_error ∷ es) = true
  raised (call c ∷ es) = raised es
  raised (send to m ∷ es) = raised es
  raised (resolve i ∷ es) = raised es

  abbrev pub commands : List (LogEntry C) → List C
  commands [] = []
  commands (e ∷ log) = e.command ∷ commands log

  pub resolve_pending_lem :
      (i : ℕ) (n : RaftNode C)
      → let (n', es) = resolve_pending i n in
        (n'.log ≡ n.log)
        × (n'.commit_index ≡ n.commit_index)
        × (n'.last_applied ≡ n.last_applied)
        × (n'.current_term ≡ n.current_term)
        × (n'.node_id ≡ n.node_id)
        × (calls es ≡ [])
        × (raised es ≡ false)
  unfolding resolve_pending calls raised
  resolve_pending_lem i n = ground arith

  calls-append : (es fs : List (Effect C)) → calls (es ++ fs) ≡ calls es ++ calls fs
  unfolding calls
  calls-append [] fs = refl
  calls-append (call c ∷ es) fs = ap (◌∷◌ c) (calls-append es fs)
  calls-append (send to m ∷ es) fs = calls-append es fs
  calls-append (resolve i ∷ es) fs = calls-append es fs
  calls-append (index_error ∷ es) fs = calls-append es fs

  raised-append : (es fs : List (Effect C)) → raised es ≡ false → raised (es ++ fs) ≡ raised fs
  unfolding raised
  raised-append [] fs h = refl
  raised-append (call c ∷ es) fs h = raised-append es fs h
  raised-append (send to m ∷ es) fs h = raised-append es fs h
  raised-append (resolve i ∷ es) fs h = raised-append es fs h
  raised-append (index_error ∷ es) fs h = cc

  -- The loop leaves the log and the commit index alone.
  pub apply_loop-log :
      (k : ℕ) (n : RaftNode C)
      → let n' = (apply_loop k n).0 in
        (n'.log ≡ n.log)
        × (n'.commit_index ≡ n.commit_index)
        × (n'.current_term ≡ n.current_term)
        × (n'.node_id ≡ n.node_id)
  unfolding apply_loop
  apply_loop-log zero n = (refl, refl, refl, refl)
  apply_loop-log (suc k) n = elim (Option-cases (get_elem? n.log n.last_applied)) [
    | inl e ↦ rw (e, apply_loop) (refl, refl, refl, refl)
    | inr (x, e) ↦
        let n' : RaftNode C = record n { last_applied = n.last_applied + 1 } in
        rw (e, apply_loop)
          (ground (
            arith,
            resolve_pending_lem x.index n',
            apply_loop-log k (resolve_pending x.index n').0,
          ))
  ]

  drop-get_elem? :
      (i : ℕ) (log : List (LogEntry C))
      → i < length log
      → (e : LogEntry C) × (get_elem? log i ≡ some e) × (drop i log ≡ e ∷ drop (i + 1) log)
  drop-get_elem? i [] h = absurd (omega arith)
  drop-get_elem? zero (e ∷ log) h = (e, refl, refl)
  drop-get_elem? (suc i) (e ∷ log) h =
      let (x, p, q) = drop-get_elem? i log (omega arith) in (x, p, ground (arith, q))

  -- `k` rounds from a node apply its next `k` commands in order, each once, and raise nothing.
  abbrev AppliesNext : ℕ → RaftNode C → Type 0
  AppliesNext k n =
      ((apply_loop k n).0.last_applied ≡ n.last_applied + k)
      × (calls (apply_loop k n).1 ≡ commands (take k (drop n.last_applied n.log)))
      × (raised (apply_loop k n).1 ≡ false)

  apply_step :
      (k : ℕ) (n : RaftNode C) (e : LogEntry C)
      → get_elem? n.log n.last_applied ≡ some e
      → drop n.last_applied n.log ≡ e ∷ drop (n.last_applied + 1) n.log
      → AppliesNext k (resolve_pending e.index (record n { last_applied = n.last_applied + 1 })).0
      → AppliesNext (suc k) n
  unfolding apply_loop calls raised
  apply_step k n e at split (last, called, fine) =
      let n' : RaftNode C = record n { last_applied = n.last_applied + 1 } in
      let (lg, ci, la, ct, id, no_calls, quiet) = resolve_pending_lem e.index n' in
      let done = (resolve_pending e.index n').1 in
      let rest = (apply_loop k (resolve_pending e.index n').0).1 in
      let same = ap₂ (λ (i : ℕ) (l : List (LogEntry C)). commands (take k (drop i l))) la lg in
      let heard : calls (done ++ rest) ≡ commands (take k (drop (n.last_applied + 1) n.log)) =
        calls-append done rest ∙ ap (λ (l : List C). l ++ calls rest) no_calls ∙ called ∙ same in
      rw (at, apply_loop, split)
        (omega (arith, last, la), ap (◌∷◌ e.command) heard, raised-append done rest quiet ∙ fine)

  pub apply_loop_lem :
      (k : ℕ) (n : RaftNode C) → n.last_applied + k ≤ length n.log → AppliesNext k n
  unfolding apply_loop calls raised
  apply_loop_lem zero n h = (omega arith, refl, refl)
  apply_loop_lem (suc k) n h =
      let (e, at, split) = drop-get_elem? n.last_applied n.log (omega arith) in
      let n' : RaftNode C = record n { last_applied = n.last_applied + 1 } in
      let r = resolve_pending_lem e.index n' in
      apply_step k n e at split
        (apply_loop_lem k (resolve_pending e.index n').0 (omega (arith, ap length r.0, r.2)))
