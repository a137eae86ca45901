-- ===== src/Raft/Node.antt =====
-- The local operations of a Raft node: tugas-3/src/consensus/raft.py. `deadline` is the clock's
-- reading plus the random timeout that `_reset_election_timeout` would draw.
use sistem_paralel_terdistri.Common.{
  Dict, List, [], discard, drop, get_elem?, get_or, if◌then◌else◌, insert, leb, length, lookup, ltb,
  member, none, some, suc, take, zero, ℕ, ◌&&◌, ◌++◌, ◌+◌, ◌-◌, ◌/◌, ◌∷◌,
}
use sistem_paralel_terdistri.Raft.State.{
  Effect, LogEntry, Message, Outcome, RaftNode, append_entries, call, candidate, follower,
  index_error, leader, request_vote, resolve, send,
}

-- The loop of `_become_leader` over the peers.
unfoldable pub set_all : List ℕ → ℕ → Dict ℕ → Dict ℕ
set_all [] v d = d
set_all (p ∷ ps) v d = set_all ps v (insert p v d)

module _ {C : Type 0} where
  abbrev pub last_log_index : RaftNode C → ℕ
  last_log_index n = length n.log

  -- The term of the entry at a position, 0 where there is none.
  abbrev pub term_at : ℕ → List (LogEntry C) → ℕ
  term_at i [] = 0
  term_at zero (e ∷ log) = e.term
  term_at (suc i) (e ∷ log) = term_at i log

  -- `log[-1].term`, or 0
  abbrev pub last_term : List (LogEntry C) → ℕ
  last_term [] = 0
  last_term (e ∷ []) = e.term
  last_term (e ∷ f ∷ log) = last_term (f ∷ log)

  abbrev pub last_log_term : RaftNode C → ℕ
  last_log_term n = last_term n.log

  unfoldable pub become_follower : ℕ → ℕ → RaftNode C → RaftNode C
  become_follower deadline term n =
      if ltb n.current_term term
      then record n {
        current_term = term;
        voted_for = none;
        state = follower;
        election_deadline = deadline;
      }
      else record n { state = follower; election_deadline = deadline }

  unfoldable pub become_candidate : ℕ → RaftNode C → RaftNode C
  become_candidate deadline n = record n {
    state = candidate;
    current_term = n.current_term + 1;
    voted_for = some n.node_id;
    votes_received = n.node_id ∷ [];
    election_deadline = deadline;
  }

  unfoldable pub become_leader : RaftNode C → RaftNode C
  become_leader n = record n {
    state = leader;
    leader_id = some n.node_id;
    next_index = set_all n.peers (last_log_index n) n.next_index;
    match_index = set_all n.peers 0 n.match_index;
  }

  -- `(len(self.peers) + 1) // 2 + 1`
  abbrev pub majority : RaftNode C → ℕ
  majority n = (length n.peers + 1) / 2 + 1

  unfoldable pub request_votes : RaftNode C → List ℕ → List (Effect C)
  request_votes n [] = []
  request_votes n (p ∷ ps) =
      send p (request_vote n.current_term n.node_id (last_log_index n) (last_log_term n))
      ∷ request_votes n ps

  -- The messages of `_start_election`.
  abbrev pub start_election : RaftNode C → List (Effect C)
  start_election n = request_votes n n.peers

  -- `_send_append_entries`: at most fifty entries from the peer's next position.
  unfoldable pub append_message : RaftNode C → ℕ → Message C
  append_message n peer =
      let next = get_or (lookup peer n.next_index) 0 in
      append_entries n.current_term n.node_id next
        (if leb 1 next && leb next (length n.log) then term_at (next - 1) n.log else 0)
        (if ltb next (length n.log) then take 50 (drop next n.log) else []) n.commit_index

  unfoldable pub send_appends : RaftNode C → List ℕ → List (Effect C)
  send_appends n [] = []
  send_appends n (p ∷ ps) = send p (append_message n p) ∷ send_appends n ps

  abbrev pub broadcast_heartbeat : RaftNode C → List (Effect C)
  broadcast_heartbeat n = send_appends n n.peers

  -- `entry.index in self._pending_commands`, and its removal.
  unfoldable pub resolve_pending : ℕ → RaftNode C → Outcome C
  resolve_pending index n =
      if member index n.pending_commands
      then (record n { pending_commands = discard index n.pending_commands }, resolve index ∷ [])
      else (n, [])

  -- The loop of `_apply_committed`, `k` rounds of which are left.
  unfoldable pub apply_loop : ℕ → RaftNode C → Outcome C
  apply_loop zero n = (n, [])
  apply_loop (suc k) n =
      let n' : RaftNode C = record n { last_applied = n.last_applied + 1 } in
      elim (get_elem? n.log n.last_applied) [
        | none ↦ (n', index_error ∷ [])
        | some e ↦
            let (n'', done) = resolve_pending e.index n' in
            let (r, rest) = apply_loop k n'' in (r, (call e.command ∷ done) ++ rest)
      ]

  abbrev pub apply_committed : RaftNode C → Outcome C
  apply_committed n = apply_loop (n.commit_index - n.last_applied) n
