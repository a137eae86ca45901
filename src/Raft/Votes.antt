-- ===== src/Raft/Votes.antt =====
-- What each handler of tugas-3/src/consensus/raft.py does to a node's term, vote and standing.
use sistem_paralel_terdistri.Common.{
  All, Bool-cases, List, Option-cases, [], ap, arith, get_elem?, inl, inr, length, ltb, refl, suc,
  zero, ℕ, ◌++◌, ◌+◌, ◌∙◌, ◌∷◌, ◌≡◌, ◌⊎◌,
}
use sistem_paralel_terdistri.Raft.Ballots.{Backed, Ballot, IsStanding, Keeps}
use sistem_paralel_terdistri.Raft.Cluster.{messages}
use sistem_paralel_terdistri.Raft.Handlers.{before_error}
use sistem_paralel_terdistri.Raft.Node.{apply_loop, become_follower, resolve_pending}
use sistem_paralel_terdistri.Raft.State.{
  Effect, Outcome, RaftNode, call, follower, index_error, resolve, send,
}

module _ {C : Type 0} where
  -- A change that elections do not see.
  pub record SameVote (n n' : RaftNode C) : Type 0 where
    pub same_id : n'.node_id ≡ n.node_id
    pub same_peers : n'.peers ≡ n.peers
    pub same_term : n'.current_term ≡ n.current_term
    pub same_vote : n'.voted_for ≡ n.voted_for
    pub same_state : n'.state ≡ n.state
    pub same_votes : n'.votes_received ≡ n.votes_received

  pub messages-append : (es fs : List (Effect C)) → messages (es ++ fs) ≡ messages es ++ messages fs
  unfolding messages
  messages-append [] fs = refl
  messages-append (send to m ∷ es) fs = ap (◌∷◌ (to, m)) (messages-append es fs)
  messages-append (call c ∷ es) fs = messages-append es fs
  messages-append (resolve i ∷ es) fs = messages-append es fs
  messages-append (index_error ∷ es) fs = messages-append es fs

  resolve_pending-SameVote :
      (i : ℕ) (n : RaftNode C)
      → SameVote n (resolve_pending i n).0 × (messages (resolve_pending i n).1 ≡ [])
  unfolding resolve_pending messages
  resolve_pending-SameVote i n = ground arith

  pub apply_loop-SameVote :
      (k : ℕ) (n : RaftNode C) → SameVote n (apply_loop k n).0 × (messages (apply_loop k n).1 ≡ [])
  unfolding apply_loop messages
  apply_loop-SameVote zero n = ground arith
  apply_loop-SameVote (suc k) n = elim (Option-cases (get_elem? n.log n.last_applied)) [
    | inl e ↦ rw (e, apply_loop) (ground arith)
    | inr (e, p) ↦
        let n' : RaftNode C = record n { last_applied = n.last_applied + 1 } in
        let r = resolve_pending-SameVote e.index n' in
        let s = apply_loop-SameVote k (resolve_pending e.index n').0 in
        rw (p, apply_loop) (ground (arith, r, s), rw messages-append (ground (arith, r, s)))
  ]

  pub before_error-messages :
      (es fs : List (Effect C))
      → messages es ≡ []
      → (messages (before_error es fs) ≡ []) ⊎ (messages (before_error es fs) ≡ messages fs)
  unfolding before_error messages
  before_error-messages [] fs h = inr refl
  before_error-messages (send to m ∷ es) fs h = cc
  before_error-messages (call c ∷ es) fs h = before_error-messages es fs h
  before_error-messages (resolve i ∷ es) fs h = before_error-messages es fs h
  before_error-messages (index_error ∷ es) fs h = inl h

  pub Keeps-SameVote : (n n' : RaftNode C) → SameVote n n' → Keeps n n'
  Keeps-SameVote n n' s = record {
    same_id = s.same_id;
    same_peers = s.same_peers;
    grows = omega (arith, s.same_term);
    vote_stays = λ c e v. s.same_vote ∙ v;
  }

  pub become_follower-Keeps : (d t : ℕ) (n : RaftNode C) → Keeps n (become_follower d t n)
  unfolding become_follower
  become_follower-Keeps d t n = elim (Bool-cases (ltb n.current_term t)) [
    | inl e ↦ rw e (record {
      same_id = refl;
      same_peers = refl;
      grows = ground arith;
      vote_stays = λ c p v. absurd (ground arith);
    })
    | inr e ↦
        rw e (record {
          same_id = refl;
          same_peers = refl;
          grows = omega arith;
          vote_stays = λ c p v. v;
        })
  ]

  pub become_follower-state : (d t : ℕ) (n : RaftNode C) → (become_follower d t n).state ≡ follower
  unfolding become_follower
  become_follower-state d t n = ground arith

module _ {C : Type 0} (members : List ℕ) (bs : List Ballot) (i : ℕ) where
  -- A handler's outcome that needs no new ballot.
  pub record IsQuiet (n : RaftNode C) (o : Outcome C) : Type 0 where
    pub keeps : Keeps n o.0
    pub standing : IsStanding members bs i o.0
    pub backed : All (Backed members bs) (messages o.1)

  pub follower-IsStanding :
      (n n' : RaftNode C)
      → IsStanding members bs i n
      → Keeps n n'
      → n'.state ≡ follower
      → IsStanding members bs i n'
  follower-IsStanding n n' h k e = record {
    named = k.same_id ∙ h.named;
    sized = omega (arith, h.sized, ap length k.same_peers);
    stands = rw e tt;
  }
