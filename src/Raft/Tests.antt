-- ===== src/Raft/Tests.antt =====
-- Three Raft nodes that elect node 0, and the logs of a leader and a follower at work.
use sistem_paralel_terdistri.Common.{
  Elem, List, [], arith, discard, inl, refl, take, true, ℕ, ◌+◌, ◌<◌, ◌∷◌, ◌≡◌, ◌≤◌, ◌⊎◌,
}
use sistem_paralel_terdistri.Raft.Cluster.{
  Cluster, IsInitial, Reach, after, deliver, here, messages, next, ticks,
}
use sistem_paralel_terdistri.Raft.Commit.{
  Commits, IsBounded, IsCommittable, update_commit_index_lem,
}
use sistem_paralel_terdistri.Raft.Election.{one_leader_per_term, one_sender_per_term}
use sistem_paralel_terdistri.Raft.Following.{IsSafe, handle_append_entries-IsSafe}
use sistem_paralel_terdistri.Raft.Handlers.{
  accept_entries, append_command, before_error, commit_target, consider_vote, count_matching,
  count_vote, election_tick, follow_commit, handle, handle_append_entries, handle_append_response,
  handle_request_vote, handle_vote_response, put_entries, put_entry, see_term, submit, tick,
  tick_as, update_commit_index,
}
use sistem_paralel_terdistri.Raft.Log.{handle_append_entries-terms, terms}
use sistem_paralel_terdistri.Raft.Node.{
  append_message, apply_loop, become_candidate, become_follower, become_leader, request_votes,
  resolve_pending, send_appends, set_all,
}
use sistem_paralel_terdistri.Raft.Overcommit.{handle_append_entries_overcommits}
use sistem_paralel_terdistri.Raft.State.{
  LogEntry, Message, RaftNode, append_entries, init, leader, request_vote, vote_response,
}

abbrev trio : List ℕ
trio = 0 ∷ 1 ∷ 2 ∷ []

abbrev start : Cluster ℕ
start = record { nodes = λ i. init i (discard i trio) 0; sent = [] }

start-IsInitial : IsInitial trio start
start-IsInitial = record { quiet = refl; fresh = λ i m. (discard i trio, 0, refl, ground arith) }

-- What runs.
program : Unit {0}
unfolding become_candidate become_follower become_leader set_all request_votes append_message
    send_appends resolve_pending apply_loop put_entry put_entries consider_vote see_term
    handle_request_vote count_vote handle_vote_response follow_commit accept_entries
    handle_append_entries count_matching commit_target update_commit_index handle_append_response
    handle election_tick tick_as tick append_command submit before_error messages
program = tt

-- Node 0 times out, node 1 grants its vote, and node 0 counts it.
abbrev campaign : Cluster ℕ
campaign = after start 0 (tick 5 20 (start.nodes 0))

abbrev ballot : Message ℕ
ballot = request_vote 1 0 0 0

abbrev polled : Cluster ℕ
polled = after campaign 1 (handle 30 ballot (campaign.nodes 1))

abbrev answer : Message ℕ
answer = vote_response 1 true 1

abbrev elected : Cluster ℕ
elected = after polled 0 (handle 40 answer (polled.nodes 0))

start-Reach-elected : Reach trio start elected
unfolding program
start-Reach-elected =
    next (next (next here (ticks 0 5 20 refl)) (deliver 1 30 ballot refl (inl refl)))
      (deliver 0 40 answer refl (inl refl))

elected_leader : ((elected.nodes 0).state ≡ leader) × ((elected.nodes 0).current_term ≡ 1)
unfolding program
elected_leader = (refl, refl)

one_leader_per_term_example : ◌≡◌ {A = ℕ} 0 0
one_leader_per_term_example =
    one_leader_per_term trio start elected 0 0 start-IsInitial start-Reach-elected refl refl
      elected_leader.0 elected_leader.0 refl

heartbeat_sent : Elem (1, append_entries 1 0 0 0 [] 0) elected.sent
unfolding program
heartbeat_sent = inl refl

one_sender_per_term_example : ◌≡◌ {A = ℕ} 0 0
one_sender_per_term_example =
    one_sender_per_term trio start elected 1 1 1 0 0 0 0 0 0 0 0 [] [] start-IsInitial
      start-Reach-elected heartbeat_sent heartbeat_sent

abbrev entry : ℕ → ℕ → LogEntry ℕ
entry t i = record { term = t; index = i; command = 100 + i }

-- A follower in term 2 with three entries of term 1, the first of which is committed and applied.
abbrev lagging : RaftNode ℕ
lagging = record (init {C = ℕ} 1 (0 ∷ 2 ∷ []) 0) {
  current_term = 2;
  log = entry 1 0 ∷ entry 1 1 ∷ entry 1 2 ∷ [];
  commit_index = 1;
  last_applied = 1;
}

lagging-IsBounded : IsBounded lagging
lagging-IsBounded = record { applied = omega arith; stored = omega arith }

handle_append_entries-terms_example :
    take 2 (terms (handle_append_entries 9 2 0 1 1 (entry 2 1 ∷ []) 2 lagging).0.log) ≡ 1 ∷ 2 ∷ []
handle_append_entries-terms_example =
    handle_append_entries-terms 9 2 0 1 1 (entry 2 1 ∷ []) 2 lagging (omega arith) refl

handle_append_entries-IsSafe_example :
    IsSafe lagging (handle_append_entries 9 2 0 1 1 (entry 2 1 ∷ []) 2 lagging)
handle_append_entries-IsSafe_example =
    handle_append_entries-IsSafe 9 2 0 1 1 (entry 2 1 ∷ []) 2 lagging lagging-IsBounded
      ((λ p. absurd (omega arith)), tt)

-- The leader's log is 1, 2, 2; the heartbeat compares the first entry only, and the follower commits
-- its own entries 1, 1 of the old term.
handle_append_entries_overcommits_example :
    let n' = (handle_append_entries 9 2 0 1 1 [] 3 lagging).0 in
    (lagging.commit_index < n'.commit_index) × (1 < n'.commit_index)
unfolding program
handle_append_entries_overcommits_example =
    handle_append_entries_overcommits 9 2 0 1 1 [] 3 lagging (omega arith) refl (omega arith)
      (omega arith) (omega arith) (omega arith)

-- A leader of three with one entry that a peer stores.
abbrev leading : RaftNode ℕ
leading = record (init {C = ℕ} 0 (1 ∷ 2 ∷ []) 0) {
  current_term = 1;
  state = leader;
  log = entry 1 0 ∷ [];
  match_index = (1, 1) ∷ [];
}

leading_commits : (update_commit_index leading).0.commit_index ≡ 1
unfolding program
leading_commits = refl

update_commit_index_lem_example :
    let o = update_commit_index leading in
    ((o ≡ (leading, [])) × ((j : ℕ) → j ≤ 1 → ¬ IsCommittable leading j))
    ⊎ (IsCommittable leading o.0.commit_index
        × ((j : ℕ) → j ≤ 1 → IsCommittable leading j → j ≤ o.0.commit_index)
        × Commits leading o)
update_commit_index_lem_example =
    update_commit_index_lem leading (record { applied = omega arith; stored = omega arith })
