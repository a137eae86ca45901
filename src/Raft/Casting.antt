-- ===== src/Raft/Casting.antt =====
-- The two places of tugas-3/src/consensus/raft.py where a node casts a vote: for itself, when an
-- election starts, and in `_handle_request_vote`.
use sistem_paralel_terdistri.Common.{
  All, Bool-cases, List, [], ap, arith, false, inl, inr, leb, ltb, member, refl, some, sym, true, ℕ,
  ◌+◌, ◌∷◌, ◌≡◌, ◌⊎◌,
}
use sistem_paralel_terdistri.Raft.Accepts.{handle_append_entries-IsQuiet, see_term-Keeps}
use sistem_paralel_terdistri.Raft.Ballots.{Backed, Ballot, IsStanding, Keeps, Stands-mono, weaken}
use sistem_paralel_terdistri.Raft.Cluster.{messages}
use sistem_paralel_terdistri.Raft.Elected.{handle_vote_response-IsQuiet, leader-IsQuiet}
use sistem_paralel_terdistri.Raft.Handlers.{
  already_voted, consider_vote, election_tick, handle, handle_request_vote, log_ok, see_term, tick,
  tick_as,
}
use sistem_paralel_terdistri.Raft.Node.{become_candidate, request_votes, start_election}
use sistem_paralel_terdistri.Raft.Quiet.{
  Stands-same, follow-IsQuiet, handle_append_response-IsQuiet, same, unchanged-IsQuiet,
}
use sistem_paralel_terdistri.Raft.State.{
  Message, Outcome, RaftNode, RaftState, append_entries, append_response, candidate, follower,
  leader, request_vote, send, vote_response,
}
use sistem_paralel_terdistri.Raft.Votes.{IsQuiet, Keeps-SameVote}

module _ {C : Type 0} (members : List ℕ) (bs : List Ballot) (i : ℕ) where
  -- An outcome in which the node votes for `c` in its new term; it had not voted for another.
  pub record IsCast (n : RaftNode C) (o : Outcome C) (c : ℕ) : Type 0 where
    pub keeps : Keeps n o.0
    pub voted : o.0.voted_for ≡ some c
    pub free : (d : ℕ) → n.current_term ≡ o.0.current_term → n.voted_for ≡ some d → d ≡ c
    pub standing : IsStanding members ((i, o.0.current_term, c) ∷ bs) i o.0
    pub backed : All (Backed members ((i, o.0.current_term, c) ∷ bs)) (messages o.1)

  -- What a handler does to the ballots: nothing, or one more.
  abbrev pub Votes : RaftNode C → Outcome C → Type 0
  Votes n o = IsQuiet members bs i n o ⊎ ((c : ℕ) × IsCast n o c)

  request_votes-Backed :
      (cs : List Ballot) (n : RaftNode C) (ps : List ℕ)
      → All (Backed members cs) (messages (request_votes n ps))
  unfolding request_votes messages
  request_votes-Backed cs n [] = tt
  request_votes-Backed cs n (p ∷ ps) = (tt, request_votes-Backed cs n ps)

  start-IsCast :
      (deadline : ℕ) (n : RaftNode C)
      → IsStanding members bs i n
      → IsCast n (become_candidate deadline n, start_election (become_candidate deadline n)) i
  unfolding become_candidate
  start-IsCast deadline n h = record {
    keeps = record {
      same_id = refl;
      same_peers = refl;
      grows = omega arith;
      vote_stays = λ c e v. absurd (omega arith);
    };
    voted = ap some h.named;
    free = λ d e v. absurd (omega arith);
    standing = record {
      named = h.named;
      sized = h.sized;
      stands = ((refl, tt), (inl (rw h.named refl), tt));
    };
    backed = request_votes-Backed ((i, n.current_term + 1, i) ∷ bs) _ n.peers;
  }

  election_tick-Votes :
      (now deadline : ℕ) (n : RaftNode C)
      → IsStanding members bs i n
      → Votes n (election_tick now deadline n)
  unfolding election_tick
  election_tick-Votes now deadline n h = elim (Bool-cases (leb n.election_deadline now)) [
    | inl e ↦ rw e (inr (i, start-IsCast deadline n h))
    | inr e ↦ rw e (inl (unchanged-IsQuiet members bs i n h))
  ]

  tick_as-Votes :
      (now deadline : ℕ) (s : RaftState) (n : RaftNode C)
      → n.state ≡ s
      → IsStanding members bs i n
      → Votes n (tick_as now deadline s n)
  unfolding tick_as
  tick_as-Votes now deadline follower n e h = election_tick-Votes now deadline n h
  tick_as-Votes now deadline candidate n e h = election_tick-Votes now deadline n h
  tick_as-Votes now deadline leader n e h =
      inl (leader-IsQuiet members bs i n n h (same members bs i n) e)

  pub tick-Votes :
      (now deadline : ℕ) (n : RaftNode C)
      → IsStanding members bs i n
      → Votes n (tick now deadline n)
  unfolding tick
  tick-Votes now deadline n h = tick_as-Votes now deadline n.state n refl h

  see_term-IsStanding :
      (d t : ℕ) (n : RaftNode C)
      → IsStanding members bs i n
      → IsStanding members bs i (see_term d t n)
  unfolding see_term
  see_term-IsStanding d t n h = elim (Bool-cases (ltb n.current_term t)) [
    | inl e ↦ rw e (follow-IsQuiet members bs i d t n h).standing
    | inr e ↦ rw e h
  ]

  refusal-IsQuiet :
      (c : ℕ) (n n' : RaftNode C)
      → Keeps n n'
      → IsStanding members bs i n'
      → IsQuiet members bs i n (n', send c (vote_response n'.current_term false n'.node_id) ∷ [])
  unfolding messages
  refusal-IsQuiet c n n' k h = record { keeps = k; standing = h; backed = (tt, tt) }

  -- Who has voted for another candidate in this term does not vote again.
  not_voted : (n : RaftNode C) (c d : ℕ) → already_voted n c ≡ false → n.voted_for ≡ some d → d ≡ c
  not_voted n c d e v = ground arith

  grant-IsCast :
      (d c : ℕ) (n n1 : RaftNode C)
      → Keeps n n1
      → IsStanding members bs i n1
      → already_voted n1 c ≡ false
      → let n' : RaftNode C = record n1 { voted_for = some c; election_deadline = d } in
        IsCast n (n', send c (vote_response n'.current_term true n'.node_id) ∷ []) c
  unfolding messages
  grant-IsCast d c n n1 k h e =
      let n' : RaftNode C = record n1 { voted_for = some c; election_deadline = d } in
      record {
        keeps = record {
          same_id = k.same_id;
          same_peers = k.same_peers;
          grows = k.grows;
          vote_stays = λ x q v. ap some (sym (not_voted n1 c x e (k.vote_stays x q v)));
        };
        voted = refl;
        free = λ x q v. not_voted n1 c x e (k.vote_stays x q v);
        standing = record {
          named = h.named;
          sized = h.sized;
          stands = Stands-same members ((i, n1.current_term, c) ∷ bs) i n1 n' n1.state refl refl (
              Stands-mono members bs ((i, n1.current_term, c) ∷ bs) i n1 n1.state
                (weaken (i, n1.current_term, c) bs) h.stands);
        };
        backed = (inl (rw h.named refl), tt);
      }

  pub handle_request_vote-Votes :
      (d t c li lt : ℕ) (n : RaftNode C)
      → IsStanding members bs i n
      → Votes n (handle_request_vote d t c li lt n)
  unfolding handle_request_vote consider_vote
  handle_request_vote-Votes d t c li lt n h = elim (Bool-cases (ltb t n.current_term)) [
    | inl e ↦ rw e (inl (refusal-IsQuiet c n n (Keeps-SameVote n n (same members bs i n)) h))
    | inr e ↦
        let n1 = see_term d t n in
        let k = see_term-Keeps members bs i d t n in
        let h1 = see_term-IsStanding d t n h in
        elim (Bool-cases (log_ok n1 li lt)) [
          | inr p ↦ rw (e, p) (inl (refusal-IsQuiet c n n1 k h1))
          | inl p ↦ elim (Bool-cases (already_voted n1 c)) [
            | inl q ↦ rw (e, p, q) (inl (refusal-IsQuiet c n n1 k h1))
            | inr q ↦ rw (e, p, q) (inr (c, grant-IsCast d c n n1 k h1 q))
          ]
        ]
  ]

  -- Every delivered message.
  pub handle-Votes :
      (d : ℕ) (m : Message C) (n : RaftNode C)
      → IsStanding members bs i n
      → All (λ b. member b.0 members ≡ true) bs
      → Backed members bs (i, m)
      → Votes n (handle d m n)
  unfolding handle
  handle-Votes d (request_vote t c li lt) n h inside b = handle_request_vote-Votes d t c li lt n h
  handle-Votes d (vote_response t g v) n h inside b =
      inl (handle_vote_response-IsQuiet members bs i d t g v n h inside b)
  handle-Votes d (append_entries t l p pt es c) n h inside b =
      inl (handle_append_entries-IsQuiet members bs i d t l p pt es c n h)
  handle-Votes d (append_response t s m f) n h inside b =
      inl (handle_append_response-IsQuiet members bs i d t s m f n h)
