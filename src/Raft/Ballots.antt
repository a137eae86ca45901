-- ===== src/Raft/Ballots.antt =====
-- The ballots behind an election, and what each handler does with them:
-- tugas-3/src/consensus/raft.py.
use sistem_paralel_terdistri.Common.{
  All, All-map, Distinct, Elem, List, arith, false, inr, length, member, member-All, quorums_meet,
  some, true, ℕ, ◌+◌, ◌<◌, ◌∷◌, ◌≡◌, ◌≤◌,
}
use sistem_paralel_terdistri.Raft.State.{
  Message, RaftNode, RaftState, append_entries, append_response, candidate, follower, leader,
  request_vote, vote_response,
}

-- A vote: the voter, the term and the candidate.
abbrev pub Ballot : Type 0
Ballot = ℕ × ℕ × ℕ

-- A candidate with the votes of more than half of the members in a term.
abbrev pub Quorum : List ℕ → List Ballot → ℕ → ℕ → Type 0
Quorum members bs term c =
    (ws : List ℕ) × Distinct ws
    × All (λ w. member w members ≡ true) ws
    × All (λ w. Elem (w, term, c) bs) ws
    × (length members < length ws + length ws)

-- Every ballot of `bs` is in `cs`.
abbrev pub Extends : List Ballot → List Ballot → Type 0
Extends bs cs = (b : Ballot) → Elem b bs → Elem b cs

pub weaken : (b : Ballot) (bs : List Ballot) → Extends bs (b ∷ bs)
weaken b bs x e = inr e

pub Quorum-mono :
    (members : List ℕ) (bs cs : List Ballot) (term c : ℕ)
    → Extends bs cs
    → Quorum members bs term c
    → Quorum members cs term c
Quorum-mono members bs cs term c ext (ws, d, m, b, h) =
    (ws, d, m, All-map _ _ ws (λ w. ext (w, term, c)) b, h)

-- No voter has two ballots in a term.
abbrev pub IsSingle : List Ballot → Type 0
IsSingle bs = (v t c d : ℕ) → Elem (v, t, c) bs → Elem (v, t, d) bs → c ≡ d

-- Two candidates with quorums in one term are the same.
pub Quorum-unique :
    (members : List ℕ) (bs : List Ballot) (term c d : ℕ)
    → IsSingle bs
    → Quorum members bs term c
    → Quorum members bs term d
    → c ≡ d
Quorum-unique members bs term c d single (ws, dw, mw, bw, hw) (us, du, mu, bu, hu) =
    let (x, inw, inu) = quorums_meet ws us members dw du mw mu (omega arith) in
    single x term c d (member-All (λ w. Elem (w, term, c) bs) x ws bw inw)
      (member-All (λ w. Elem (w, term, d) bs) x us bu inu)

module _ {C : Type 0} where
  -- The voter's node bears a ballot out.
  abbrev pub Recorded : RaftNode C → ℕ → ℕ → Type 0
  Recorded n term c = (term ≤ n.current_term) × (term ≡ n.current_term → n.voted_for ≡ some c)

  -- What stands behind a node's claim to votes, by its state.
  abbrev pub Stands : List ℕ → List Ballot → ℕ → RaftNode C → RaftState → Type 0
  Stands members bs i n follower = Unit {0}
  Stands members bs i n candidate =
      Distinct n.votes_received × All (λ w. Elem (w, n.current_term, i) bs) n.votes_received
  Stands members bs i n leader = Quorum members bs n.current_term i

  pub record IsStanding (members : List ℕ) (bs : List Ballot) (i : ℕ) (n : RaftNode C)
      : Type 0 where
    pub named : n.node_id ≡ i
    pub sized : length n.peers + 1 ≡ length members
    pub stands : Stands members bs i n n.state

  pub Stands-mono :
      (members : List ℕ) (bs cs : List Ballot) (i : ℕ) (n : RaftNode C) (s : RaftState)
      → Extends bs cs
      → Stands members bs i n s
      → Stands members cs i n s
  Stands-mono members bs cs i n follower ext h = tt
  Stands-mono members bs cs i n candidate ext (d, b) =
      (d, All-map _ _ n.votes_received (λ w. ext (w, n.current_term, i)) b)
  Stands-mono members bs cs i n leader ext q = Quorum-mono members bs cs n.current_term i ext q

  -- A granted vote has its ballot, and who sends entries has a quorum.
  abbrev pub Backed : List ℕ → List Ballot → ℕ × Message C → Type 0
  Backed members bs (to, request_vote t c i l) = Unit {0}
  Backed members bs (to, vote_response t true v) = Elem (v, t, to) bs
  Backed members bs (to, vote_response t false v) = Unit {0}
  Backed members bs (to, append_entries t l p pt es c) = Quorum members bs t l
  Backed members bs (to, append_response t s i f) = Unit {0}

  pub Backed-mono :
      (members : List ℕ) (bs cs : List Ballot) (e : ℕ × Message C)
      → Extends bs cs
      → Backed members bs e
      → Backed members cs e
  Backed-mono members bs cs (to, request_vote t c i l) ext h = tt
  Backed-mono members bs cs (to, vote_response t true v) ext h = ext (v, t, to) h
  Backed-mono members bs cs (to, vote_response t false v) ext h = tt
  Backed-mono members bs cs (to, append_entries t l p pt es c) ext h =
      Quorum-mono members bs cs t l ext h
  Backed-mono members bs cs (to, append_response t s i f) ext h = tt

  -- A step of a node that keeps its recorded vote: the term does not fall, and within a term a
  -- vote stays.
  pub record Keeps (n n' : RaftNode C) : Type 0 where
    pub same_id : n'.node_id ≡ n.node_id
    pub same_peers : n'.peers ≡ n.peers
    pub grows : n.current_term ≤ n'.current_term
    pub vote_stays :
        (c : ℕ) → n.current_term ≡ n'.current_term → n.voted_for ≡ some c → n'.voted_for ≡ some c

  pub Recorded-Keeps : (n n' : RaftNode C) (t c : ℕ) → Keeps n n' → Recorded n t c → Recorded n' t c
  Recorded-Keeps n n' t c k (le, same) = (
    omega (arith, k.grows),
    λ e. k.vote_stays c (omega (arith, k.grows)) (same (omega (arith, k.grows))),
  )
