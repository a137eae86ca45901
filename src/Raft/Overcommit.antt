-- ===== src/Raft/Overcommit.antt =====
-- The commit index that a follower takes over from its leader: `_handle_append_entries` of
-- tugas-3/src/consensus/raft.py bounds it by the last log index, not by the last entry of the message.
use sistem_paralel_terdistri.Common.{
  List, ap, arith, false, length, ltb, min, some, true, ℕ, ◌+◌, ◌-◌, ◌<◌, ◌∙◌, ◌≡◌, ◌≤◌,
}
use sistem_paralel_terdistri.Raft.Apply.{apply_loop-log}
use sistem_paralel_terdistri.Raft.Following.{see_term_lem}
use sistem_paralel_terdistri.Raft.Handlers.{
  accept_entries, follow_commit, handle_append_entries, prev_ok, put_entries, see_term,
}
use sistem_paralel_terdistri.Raft.Log.{prev_ok-same}
use sistem_paralel_terdistri.Raft.Node.{last_log_index}
use sistem_paralel_terdistri.Raft.State.{LogEntry, RaftNode, follower}

module _ {C : Type 0} where
  follow_commit-commit :
      (c : ℕ) (n : RaftNode C)
      → n.commit_index < c
      → (follow_commit c n).0.commit_index ≡ min c (length n.log)
  unfolding follow_commit
  follow_commit-commit c n h =
      let up : ltb n.commit_index c ≡ true = ground arith in
      let n' : RaftNode C = record n { commit_index = min c (last_log_index n) } in
      rw (follow_commit, up) (apply_loop-log (n'.commit_index - n'.last_applied) n').1

  commit-handle_append_entries :
      (d t l prev pt : ℕ) (es : List (LogEntry C)) (c : ℕ) (n : RaftNode C)
      → n.current_term ≤ t
      → prev_ok n prev pt ≡ true
      → n.commit_index < c
      → (handle_append_entries d t l prev pt es c n).0.commit_index
        ≡ min c (length (put_entries prev es n.log))
  unfolding handle_append_entries accept_entries
  commit-handle_append_entries d t l prev pt es c n h ok up =
      let n1 = see_term d t n in
      let n2 : RaftNode C = record n1 {
        state = follower;
        leader_id = some l;
        election_deadline = d;
      } in
      let fresh : ltb t n.current_term ≡ false = ground arith in
      let (lg, ci, _) = see_term_lem d t n in
      let ok2 : prev_ok n2 prev pt ≡ true = prev_ok-same n n2 prev pt lg ∙ ok in
      rw (handle_append_entries, fresh, accept_entries, ok2)
        (follow_commit-commit c (record n2 { log = put_entries prev es n2.log }) (omega (arith, ci))
          ∙ ap (λ log. min c (length (put_entries prev es log))) lg)

  -- Take an accepted message, of a term that is not older and with a matching previous entry, whose
  -- leader commit is beyond its own last entry and beyond the receiver's commit index, and let the
  -- receiver's log, with the message's entries in it, go on behind both. Then the receiver commits
  -- entries that it had not committed and that the message did not compare with the leader's: its
  -- commit index rises and passes the position of the message's last entry.
  pub handle_append_entries_overcommits :
      (d t l prev pt : ℕ) (es : List (LogEntry C)) (c : ℕ) (n : RaftNode C)
      → n.current_term ≤ t
      → prev_ok n prev pt ≡ true
      → n.commit_index < c
      → prev + length es < c
      → n.commit_index < length (put_entries prev es n.log)
      → prev + length es < length (put_entries prev es n.log)
      → let n' = (handle_append_entries d t l prev pt es c n).0 in
        (n.commit_index < n'.commit_index) × (prev + length es < n'.commit_index)
  handle_append_entries_overcommits d t l prev pt es c n h ok up beyond more longer =
      let e = commit-handle_append_entries d t l prev pt es c n h ok up in
      (omega (arith, e), omega (arith, e))
