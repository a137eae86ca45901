-- ===== src/Raft/Handlers.antt =====
-- The message handlers, the ticks and `submit` of a Raft node: tugas-3/src/consensus/raft.py.
-- A handler returns the new node and its effects in order.
use sistem_paralel_terdistri.Common.{
  Bool, Dict, List, Option, [], add, false, get_or, if◌then◌else◌, insert, leb, length, lookup, ltb,
  min, none, not, some, suc, take, true, zero, ℕ, ◌&&◌, ◌++◌, ◌+◌, ◌-◌, ◌==◌, ◌||◌, ◌∷◌,
}
use sistem_paralel_terdistri.Raft.Node.{
  apply_committed, become_candidate, become_follower, become_leader, broadcast_heartbeat,
  last_log_index, last_log_term, majority, start_election, term_at,
}
use sistem_paralel_terdistri.Raft.State.{
  Effect, LogEntry, Message, Outcome, RaftNode, RaftState, append_entries, append_response,
  candidate, follower, index_error, leader, request_vote, send, vote_response,
}

abbrev pub is_state : RaftState → RaftState → Bool
is_state follower follower = true
is_state candidate candidate = true
is_state leader leader = true
is_state a b = false

-- `1 + ` the peers whose match index reaches a position.
unfoldable pub count_matching : ℕ → List ℕ → Dict ℕ → ℕ
count_matching i [] d = 0
count_matching i (p ∷ ps) d =
    (if leb i (get_or (lookup p d) 0) then 1 else 0) + count_matching i ps d

module _ {C : Type 0} where
  -- One round of the loop that truncates conflicting entries and appends new ones.
  unfoldable pub put_entry : ℕ → LogEntry C → List (LogEntry C) → List (LogEntry C)
  put_entry pos e log =
      if ltb pos (length log)
      then if term_at pos log == e.term then log else take pos log ++ e ∷ []
      else log ++ e ∷ []

  unfoldable pub put_entries : ℕ → List (LogEntry C) → List (LogEntry C) → List (LogEntry C)
  put_entries pos [] log = log
  put_entries pos (e ∷ es) log = put_entries (pos + 1) es (put_entry pos e log)

  abbrev pub log_ok : RaftNode C → ℕ → ℕ → Bool
  log_ok n last_log_index' last_log_term' =
      ltb (last_log_term n) last_log_term'
      || (last_log_term' == last_log_term n && leb (last_log_index n) last_log_index')

  -- `voted_for is not None and voted_for != candidate_id`
  abbrev pub already_voted : RaftNode C → ℕ → Bool
  already_voted n candidate_id = elim n.voted_for [
    | none ↦ false
    | some v ↦ not (v == candidate_id)
  ]

  -- The part of `_handle_request_vote` for a term that is not stale.
  unfoldable pub consider_vote : ℕ → ℕ → ℕ → ℕ → RaftNode C → RaftNode C × Bool
  consider_vote deadline candidate_id last_index last_term' n =
      if log_ok n last_index last_term' && not (already_voted n candidate_id)
      then (record n { voted_for = some candidate_id; election_deadline = deadline }, true)
      else (n, false)

  -- `if term > self.persistent.current_term: self._become_follower(term)`
  unfoldable pub see_term : ℕ → ℕ → RaftNode C → RaftNode C
  see_term deadline term n = if ltb n.current_term term then become_follower deadline term n else n

  unfoldable pub handle_request_vote : ℕ → ℕ → ℕ → ℕ → ℕ → RaftNode C → Outcome C
  handle_request_vote deadline term candidate_id last_index last_term' n =
      let (n', granted) =
        if ltb term n.current_term
        then (n, false)
        else consider_vote deadline candidate_id last_index last_term' (see_term deadline term n) in
      (n', send candidate_id (vote_response n'.current_term granted n'.node_id) ∷ [])

  unfoldable pub count_vote : ℕ → RaftNode C → Outcome C
  count_vote voter n =
      let n' : RaftNode C = record n { votes_received = add voter n.votes_received } in
      if leb (majority n') (length n'.votes_received)
      then (become_leader n', broadcast_heartbeat (become_leader n'))
      else (n', [])

  unfoldable pub handle_vote_response : ℕ → ℕ → Bool → ℕ → RaftNode C → Outcome C
  handle_vote_response deadline term vote_granted voter n =
      if not (is_state n.state candidate)
      then (n, [])
      else if ltb n.current_term term
      then (become_follower deadline term n, [])
      else if ltb term n.current_term
      then (n, [])
      else if vote_granted
      then count_vote voter n
      else (n, [])

  -- `prev_log_index == -1 or (prev_log_index < len(log) and log[prev_log_index].term == …)`
  abbrev pub prev_ok : RaftNode C → ℕ → ℕ → Bool
  prev_ok n zero prev_term = true
  prev_ok n (suc i) prev_term = ltb i (length n.log) && term_at i n.log == prev_term

  -- The end of the successful branch of `_handle_append_entries`.
  unfoldable pub follow_commit : ℕ → RaftNode C → Outcome C
  follow_commit leader_commit n =
      if ltb n.commit_index leader_commit
      then apply_committed (record n { commit_index = min leader_commit (last_log_index n) })
      else (n, [])

  -- What follows a call is left out if the call raised.
  unfoldable pub before_error : List (Effect C) → List (Effect C) → List (Effect C)
  before_error [] rest = rest
  before_error (index_error ∷ es) rest = index_error ∷ es
  before_error (e ∷ es) rest = e ∷ before_error es rest

  unfoldable pub accept_entries : ℕ → ℕ → List (LogEntry C) → ℕ → RaftNode C → Outcome C × Bool × ℕ
  accept_entries prev prev_term entries leader_commit n =
      if prev_ok n prev prev_term
      then (
        follow_commit leader_commit (record n { log = put_entries prev entries n.log }),
        true,
        prev + length entries,
      )
      else ((n, []), false, 0)

  unfoldable pub handle_append_entries :
      ℕ → ℕ → ℕ → ℕ → ℕ → List (LogEntry C) → ℕ → RaftNode C → Outcome C
  handle_append_entries deadline term leader_id prev prev_term entries leader_commit n =
      let ((n', effects), success, matched) =
        if ltb term n.current_term
        then ((n, []), false, 0)
        else accept_entries prev prev_term entries leader_commit
            (record (see_term deadline term n) {
              state = follower;
              leader_id = some leader_id;
              election_deadline = deadline;
            }) in
      (
        n',
        before_error effects
            (send leader_id (append_response n'.current_term success matched n'.node_id) ∷ []),
      )

  -- The loop of `_update_commit_index`: `k` positions above `commit_index` are left, from the top.
  unfoldable pub commit_target : ℕ → RaftNode C → Option ℕ
  commit_target zero n = none
  commit_target (suc k) n =
      let rest = commit_target k n in
      if term_at (n.commit_index + k) n.log == n.current_term
        && leb (majority n) (1 + count_matching (n.commit_index + suc k) n.peers n.match_index)
      then some (n.commit_index + suc k)
      else rest

  unfoldable pub update_commit_index : RaftNode C → Outcome C
  update_commit_index n = elim (commit_target (last_log_index n - n.commit_index) n) [
    | none ↦ (n, [])
    | some i ↦ apply_committed (record n { commit_index = i })
  ]

  unfoldable pub handle_append_response : ℕ → ℕ → Bool → ℕ → ℕ → RaftNode C → Outcome C
  handle_append_response deadline term success matched follower_id n =
      if not (is_state n.state leader)
      then (n, [])
      else if ltb n.current_term term
      then (become_follower deadline term n, [])
      else if success
      then update_commit_index (record n {
        match_index = insert follower_id matched n.match_index;
        next_index = insert follower_id matched n.next_index;
      })
      else (
        record n {
          next_index =
              insert follower_id (get_or (lookup follower_id n.next_index) 0 - 1) n.next_index;
        },
        [],
      )

  -- The handlers as `__init__` registers them.
  unfoldable pub handle : ℕ → Message C → RaftNode C → Outcome C
  handle deadline (request_vote term c i t) n = handle_request_vote deadline term c i t n
  handle deadline (vote_response term g v) n = handle_vote_response deadline term g v n
  handle deadline (append_entries term l p t es c) n =
      handle_append_entries deadline term l p t es c n
  handle deadline (append_response term s i f) n = handle_append_response deadline term s i f n

  -- `_follower_tick` and `_candidate_tick`.
  unfoldable pub election_tick : ℕ → ℕ → RaftNode C → Outcome C
  election_tick now deadline n =
      if leb n.election_deadline now
      then (become_candidate deadline n, start_election (become_candidate deadline n))
      else (n, [])

  -- One round of `_main_loop`, by the node's state.
  unfoldable pub tick_as : ℕ → ℕ → RaftState → RaftNode C → Outcome C
  tick_as now deadline follower n = election_tick now deadline n
  tick_as now deadline candidate n = election_tick now deadline n
  tick_as now deadline leader n = (n, broadcast_heartbeat n)

  unfoldable pub tick : ℕ → ℕ → RaftNode C → Outcome C
  tick now deadline n = tick_as now deadline n.state n

  -- The new entry of `submit`, and the future that waits for it.
  unfoldable pub append_command : C → RaftNode C → RaftNode C
  append_command command n = record n {
    log = n.log ++ record { term = n.current_term; index = length n.log; command = command } ∷ [];
    pending_commands = add (length n.log) n.pending_commands;
  }

  -- `submit` up to its wait: `none` where the node is not the leader.
  unfoldable pub submit : C → RaftNode C → Option (Outcome C)
  submit command n =
      if is_state n.state leader
      then some (append_command command n, broadcast_heartbeat (append_command command n))
      else none
