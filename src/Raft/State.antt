-- ===== src/Raft/State.antt =====
-- The state and the messages of a Raft node: tugas-3/src/consensus/raft.py. The source counts log
-- positions from 0 and uses -1 for none; `last_log_index`, `commit_index`, `last_applied`,
-- `match_index` and `prev_log_index` stand here for the source's value plus one, which is never
-- negative. `next_index` and the positions in the log are the source's.
use sistem_paralel_terdistri.Common.{Bool, Dict, List, Option, [], none, ℕ}

pub data RaftState : Type 0 where
  follower candidate leader : RaftState

pub record LogEntry (C : Type 0) : Type 0 where
  pub term : ℕ
  pub index : ℕ
  pub command : C

-- `RaftNode` with its `RaftPersistentState`. The pending commands are the log positions that a
-- caller of `submit` still waits for.
pub record RaftNode (C : Type 0) : Type 0 where
  pub node_id : ℕ
  pub peers : List ℕ
  pub current_term : ℕ
  pub voted_for : Option ℕ
  pub log : List (LogEntry C)
  pub state : RaftState
  pub commit_index : ℕ
  pub last_applied : ℕ
  pub leader_id : Option ℕ
  pub next_index : Dict ℕ
  pub match_index : Dict ℕ
  pub votes_received : List ℕ
  pub election_deadline : ℕ
  pub pending_commands : List ℕ

-- The payloads of the four message types, with the message's term first.
pub data Message (C : Type 0) : Type 0 where
  request_vote : (term candidate_id last_log_index last_log_term : ℕ) → Message C
  vote_response : (term : ℕ) (vote_granted : Bool) (voter_id : ℕ) → Message C
  append_entries :
      (term leader_id prev_log_index prev_log_term : ℕ) (entries : List (LogEntry C))
      (leader_commit : ℕ)
      → Message C
  append_response : (term : ℕ) (success : Bool) (match_index follower_id : ℕ) → Message C

-- What a handler does besides changing the node: a message to a receiver, a call of
-- `apply_callback`, the result of a pending command, and the `IndexError` of a log read.
pub data Effect (C : Type 0) : Type 0 where
  send : ℕ → Message C → Effect C
  call : C → Effect C
  resolve : ℕ → Effect C
  index_error : Effect C

abbrev pub Outcome : Type 0 → Type 0
Outcome C = RaftNode C × List (Effect C)

-- `RaftNode.__init__`
abbrev pub init : {C : Type 0} → ℕ → List ℕ → ℕ → RaftNode C
init node_id peers deadline = record {
  node_id = node_id;
  peers = peers;
  current_term = 0;
  voted_for = none;
  log = [];
  state = follower;
  commit_index = 0;
  last_applied = 0;
  leader_id = none;
  next_index = [];
  match_index = [];
  votes_received = [];
  election_deadline = deadline;
  pending_commands = [];
}
