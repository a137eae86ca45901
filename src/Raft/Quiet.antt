-- ===== src/Raft/Quiet.antt =====
-- The handlers of tugas-3/src/consensus/raft.py that cast no vote: each keeps the node's standing,
-- and backs what it sends.
use sistem_paralel_terdistri.Common.{
  All, Bool, Bool-cases, Distinct, Elem, List, Option-cases, [], ap, arith, false, get_or,
  if◌then◌else◌, inl, inr, insert, length, lookup, ltb, refl, subst, sym, true, ℕ, ◌-◌, ◌∙◌, ◌∷◌,
  ◌≡◌,
}
use sistem_paralel_terdistri.Raft.Ballots.{Backed, Ballot, IsStanding, Quorum, Stands}
use sistem_paralel_terdistri.Raft.Cluster.{messages}
use sistem_paralel_terdistri.Raft.Handlers.{
  commit_target, handle_append_response, is_state, update_commit_index,
}
use sistem_paralel_terdistri.Raft.Node.{
  append_message, apply_committed, become_follower, last_log_index, send_appends,
}
use sistem_paralel_terdistri.Raft.State.{Outcome, RaftNode, RaftState, candidate, follower, leader}
use sistem_paralel_terdistri.Raft.Votes.{
  IsQuiet, Keeps-SameVote, SameVote, apply_loop-SameVote, become_follower-Keeps,
  become_follower-state, follower-IsStanding,
}

module _ {C : Type 0} (members : List ℕ) (bs : List Ballot) (i : ℕ) where
  pub Stands-same :
      (n n' : RaftNode C) (s : RaftState)
      → n'.current_term ≡ n.current_term
      → n'.votes_received ≡ n.votes_received
      → Stands members bs i n s
      → Stands members bs i n' s
  Stands-same n n' follower t v h = tt
  Stands-same n n' candidate t v h =
      subst (λ ws. Distinct ws × All (λ w. Elem (w, n'.current_term, i) bs) ws) (sym v)
        (subst (λ u. Distinct n.votes_received × All (λ w. Elem (w, u, i) bs) n.votes_received)
          (sym t) h)
  Stands-same n n' leader t v h = subst (λ u. Quorum members bs u i) (sym t) h

  pub SameVote-IsStanding :
      (n n' : RaftNode C) → SameVote n n' → IsStanding members bs i n → IsStanding members bs i n'
  SameVote-IsStanding n n' s h = record {
    named = s.same_id ∙ h.named;
    sized = omega (arith, h.sized, ap length s.same_peers);
    stands =
        subst (Stands members bs i n') (sym s.same_state)
          (Stands-same n n' n.state s.same_term s.same_votes h.stands);
  }

  -- Nothing to prove of an outcome that elections do not see.
  pub SameVote-IsQuiet :
      (n : RaftNode C) (o : Outcome C)
      → IsStanding members bs i n
      → SameVote n o.0
      → messages o.1 ≡ []
      → IsQuiet members bs i n o
  SameVote-IsQuiet n o h s e = record {
    keeps = Keeps-SameVote n o.0 s;
    standing = SameVote-IsStanding n o.0 s h;
    backed = rw e tt;
  }

  pub same : (n : RaftNode C) → SameVote n n
  same n = record {
    same_id = refl;
    same_peers = refl;
    same_term = refl;
    same_vote = refl;
    same_state = refl;
    same_votes = refl;
  }

  pub unchanged-IsQuiet :
      (n : RaftNode C) → IsStanding members bs i n → IsQuiet members bs i n (n, [])
  unfolding messages
  unchanged-IsQuiet n h = SameVote-IsQuiet n (n, []) h (same n) refl

  pub follow-IsQuiet :
      (d t : ℕ) (n : RaftNode C)
      → IsStanding members bs i n
      → IsQuiet members bs i n (become_follower d t n, [])
  unfolding messages
  follow-IsQuiet d t n h = record {
    keeps = become_follower-Keeps d t n;
    standing =
        follower-IsStanding members bs i n _ h (become_follower-Keeps d t n)
          (become_follower-state d t n);
    backed = tt;
  }

  -- Entries are sent under the sender's own quorum.
  pub send_appends-Backed :
      (n : RaftNode C) (ps : List ℕ)
      → Quorum members bs n.current_term n.node_id
      → All (Backed members bs) (messages (send_appends n ps))
  unfolding send_appends messages append_message
  send_appends-Backed n [] q = tt
  send_appends-Backed n (p ∷ ps) q = (q, send_appends-Backed n ps q)

  apply_committed-IsQuiet :
      (n n' : RaftNode C)
      → IsStanding members bs i n
      → SameVote n n'
      → IsQuiet members bs i n (apply_committed n')
  apply_committed-IsQuiet n n' h s =
      let (t, e) = apply_loop-SameVote (n'.commit_index - n'.last_applied) n' in
      SameVote-IsQuiet n (apply_committed n') h (ground (arith, s, t)) e

  update_commit_index-IsQuiet :
      (n n' : RaftNode C)
      → IsStanding members bs i n
      → SameVote n n'
      → IsQuiet members bs i n (update_commit_index n')
  unfolding update_commit_index messages
  update_commit_index-IsQuiet n n' h s =
      elim (Option-cases (commit_target (last_log_index n' - n'.commit_index) n')) [
        | inl e ↦ rw (e, update_commit_index) (SameVote-IsQuiet n (n', []) h s refl)
        | inr (k, e) ↦
            rw (e, update_commit_index)
              (apply_committed-IsQuiet n (record n' { commit_index = k }) h (ground (arith, s)))
      ]

  pub handle_append_response-IsQuiet :
      (d term : ℕ) (success : Bool) (matched f : ℕ) (n : RaftNode C)
      → IsStanding members bs i n
      → IsQuiet members bs i n (handle_append_response d term success matched f n)
  unfolding handle_append_response messages
  handle_append_response-IsQuiet d term success matched f n h =
      elim (Bool-cases (is_state n.state leader)) [
        | inr e ↦ rw e (unchanged-IsQuiet n h)
        | inl e ↦ elim (Bool-cases (ltb n.current_term term)) [
          | inl p ↦ rw (e, p) (follow-IsQuiet d term n h)
          | inr p ↦
              rw (e, p)
                (elim success
                  as (λ b. IsQuiet members bs i n (
                    if b
                    then update_commit_index (record n {
                      match_index = insert f matched n.match_index;
                      next_index = insert f matched n.next_index;
                    })
                    else (
                      record n {
                        next_index = insert f (get_or (lookup f n.next_index) 0 - 1) n.next_index;
                      },
                      [],
                    ))) [
                      | true ↦ update_commit_index-IsQuiet n _ h (ground arith)
                      | false ↦ SameVote-IsQuiet n _ h (ground arith) refl
                    ])
        ]
      ]
