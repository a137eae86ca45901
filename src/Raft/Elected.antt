-- ===== src/Raft/Elected.antt =====
-- Vote responses, heartbeats and `submit` of tugas-3/src/consensus/raft.py keep the node's
-- standing, and back what they send.
use sistem_paralel_terdistri.Common.{
  All, All-Elem, All-map, Bool, Bool-cases, Elem, List, add, add-All, add-Distinct, arith, false,
  get_or, inl, inr, leb, leb→le, length, ltb, member, refl, some, subst, sym, true, ℕ, ◌∙◌, ◌≡◌,
}
use sistem_paralel_terdistri.Raft.Ballots.{Backed, Ballot, IsStanding, Quorum, Stands}
use sistem_paralel_terdistri.Raft.Cluster.{messages}
use sistem_paralel_terdistri.Raft.Handlers.{
  append_command, count_vote, handle_vote_response, is_state, submit,
}
use sistem_paralel_terdistri.Raft.Node.{become_leader, broadcast_heartbeat, majority}
use sistem_paralel_terdistri.Raft.Quiet.{
  SameVote-IsStanding, follow-IsQuiet, send_appends-Backed, unchanged-IsQuiet,
}
use sistem_paralel_terdistri.Raft.State.{
  Outcome, RaftNode, RaftState, candidate, leader, vote_response,
}
use sistem_paralel_terdistri.Raft.Votes.{IsQuiet, Keeps-SameVote, SameVote}

is_state→candidate : (s : RaftState) → is_state s candidate ≡ true → s ≡ candidate
is_state→candidate s e = ground arith

pub is_state→leader : (s : RaftState) → is_state s leader ≡ true → s ≡ leader
is_state→leader s e = ground arith

module _ {C : Type 0} (members : List ℕ) (bs : List Ballot) (i : ℕ) where
  -- A leader's heartbeat is backed by its quorum.
  pub leader-IsQuiet :
      (n n' : RaftNode C)
      → IsStanding members bs i n
      → SameVote n n'
      → n.state ≡ leader
      → IsQuiet members bs i n (n', broadcast_heartbeat n')
  leader-IsQuiet n n' h s e =
      let st = SameVote-IsStanding members bs i n n' s h in
      record {
        keeps = Keeps-SameVote n n' s;
        standing = st;
        backed = send_appends-Backed members bs i n' n'.peers (
            subst (Quorum members bs n'.current_term) (sym st.named)
              (subst (Stands members bs i n') (s.same_state ∙ e) st.stands));
      }

  -- A candidate that counts a vote with a ballot keeps its standing, and wins by a quorum.
  count_vote-IsQuiet :
      (voter : ℕ) (n : RaftNode C)
      → IsStanding members bs i n
      → n.state ≡ candidate
      → All (λ b. member b.0 members ≡ true) bs
      → Elem (voter, n.current_term, i) bs
      → IsQuiet members bs i n (count_vote voter n)
  unfolding count_vote become_leader messages
  count_vote-IsQuiet voter n h e inside b =
      let (d, all) = subst (Stands members bs i n) e h.stands in
      let ws = add voter n.votes_received in
      let d' = add-Distinct voter n.votes_received d in
      let all' = add-All (λ w. Elem (w, n.current_term, i) bs) voter n.votes_received b all in
      let n' : RaftNode C = record n { votes_received = ws } in
      elim (Bool-cases (leb (majority n') (length ws))) [
        | inl p ↦
            let q : Quorum members bs n.current_term i = (
              ws,
              d',
              All-map (λ w. Elem (w, n.current_term, i) bs) _ ws
                  (λ w m. All-Elem _ (w, n.current_term, i) bs inside m) all',
              all',
              omega (arith, h.sized, leb→le _ _ p),
            ) in
            rw p (record {
              keeps = record {
                same_id = refl;
                same_peers = refl;
                grows = omega arith;
                vote_stays = λ c p v. v;
              };
              standing = record { named = h.named; sized = h.sized; stands = q };
              backed =
                  send_appends-Backed members bs i (become_leader n') n.peers
                    (subst (Quorum members bs n.current_term) (sym h.named) q);
            })
        | inr p ↦ rw p (record {
          keeps = record {
            same_id = refl;
            same_peers = refl;
            grows = omega arith;
            vote_stays = λ c p v. v;
          };
          standing = record { named = h.named; sized = h.sized; stands = rw e (d', all') };
          backed = tt;
        })
      ]

  respond-IsQuiet :
      (d term : ℕ) (granted : Bool) (voter : ℕ) (n : RaftNode C)
      → IsStanding members bs i n
      → All (λ b. member b.0 members ≡ true) bs
      → (granted ≡ true → Elem (voter, term, i) bs)
      → IsQuiet members bs i n (handle_vote_response d term granted voter n)
  unfolding handle_vote_response
  respond-IsQuiet d term granted voter n h inside b =
      let quiet = unchanged-IsQuiet members bs i n h in
      elim (Bool-cases (is_state n.state candidate)) [
        | inr e ↦ rw e quiet
        | inl e ↦ elim (Bool-cases (ltb n.current_term term)) [
          | inl p ↦ rw (e, p) (follow-IsQuiet members bs i d term n h)
          | inr p ↦ elim (Bool-cases (ltb term n.current_term)) [
            | inl q ↦ rw (e, p, q) quiet
            | inr q ↦ elim (Bool-cases granted) [
              | inr r ↦ rw (e, p, q, r) quiet
              | inl r ↦
                  let same_term : term ≡ n.current_term = ground arith in
                  rw (e, p, q, r)
                    (count_vote-IsQuiet voter n h (is_state→candidate n.state e) inside
                      (subst (λ t. Elem (voter, t, i) bs) same_term (b r)))
            ]
          ]
        ]
      ]

  -- A candidate counts only votes that were granted in its term.
  pub handle_vote_response-IsQuiet :
      (d term : ℕ) (granted : Bool) (voter : ℕ) (n : RaftNode C)
      → IsStanding members bs i n
      → All (λ b. member b.0 members ≡ true) bs
      → Backed {C = C} members bs (i, vote_response term granted voter)
      → IsQuiet members bs i n (handle_vote_response d term granted voter n)
  handle_vote_response-IsQuiet d term false voter n h inside b =
      respond-IsQuiet d term false voter n h inside (λ e. cc)
  handle_vote_response-IsQuiet d term true voter n h inside b =
      respond-IsQuiet d term true voter n h inside (λ _. b)

  appended : (command : C) (n : RaftNode C) → SameVote n (append_command command n)
  unfolding append_command
  appended command n = ground arith

  -- `submit` on a leader, and a tick of a leader, only send entries.
  pub submit-IsQuiet :
      (command : C) (n : RaftNode C) (o : Outcome C)
      → IsStanding members bs i n
      → submit command n ≡ some o
      → IsQuiet members bs i n o
  unfolding submit
  submit-IsQuiet command n o h e = elim (Bool-cases (is_state n.state leader)) [
    | inr p ↦ absurd (ground arith)
    | inl p ↦
        let n' = append_command command n in
        let step : submit command n ≡ some (n', broadcast_heartbeat n') = rw p in
        subst (λ x. IsQuiet members bs i n (get_or x o)) (sym step ∙ e)
          (leader-IsQuiet n n' h (appended command n) (is_state→leader n.state p))
  ]
