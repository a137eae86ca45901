-- ===== src/Raft/Election.antt =====
-- Election safety of a Raft cluster: tugas-3/src/consensus/raft.py on the bus of
-- tugas-3/src/communication/message_passing.py.
use sistem_paralel_terdistri.Common.{
  All, All-Elem, All-append, All-map, Bool-cases, Elem, List, [], ap, arith, inl, inr, member, refl,
  subst, sym, true, ℕ, ◌==◌, ◌∙◌, ◌∷◌, ◌≡◌,
}
use sistem_paralel_terdistri.Raft.Ballots.{
  Backed, Backed-mono, Ballot, Extends, IsSingle, IsStanding, Keeps, Quorum, Quorum-unique,
  Recorded, Recorded-Keeps, Stands, Stands-mono, weaken,
}
use sistem_paralel_terdistri.Raft.Casting.{IsCast, Votes, handle-Votes, tick-Votes}
use sistem_paralel_terdistri.Raft.Cluster.{
  Cluster, IsInitial, Reach, Step, after, deliver, here, messages, next, submits, ticks, update,
}
use sistem_paralel_terdistri.Raft.Elected.{submit-IsQuiet}
use sistem_paralel_terdistri.Raft.State.{LogEntry, Outcome, RaftNode, append_entries, init, leader}
use sistem_paralel_terdistri.Raft.Votes.{IsQuiet}

IsSingle-cons :
    (bs : List Ballot) (i t c : ℕ)
    → IsSingle bs
    → ((d : ℕ) → Elem (i, t, d) bs → d ≡ c)
    → IsSingle ((i, t, c) ∷ bs)
IsSingle-cons bs i t c h agree v u x y (inl e) (inl f) = cc
IsSingle-cons bs i t c h agree v u x y (inl e) (inr f) =
    ap (λ (b : Ballot). b.2) e
    ∙ sym (
        agree y
          (subst (λ (b : ℕ × ℕ). Elem (b.0, b.1, y) bs) (ap (λ (b : Ballot). (b.0, b.1)) e) f))
IsSingle-cons bs i t c h agree v u x y (inr e) (inl f) =
    agree x (subst (λ (b : ℕ × ℕ). Elem (b.0, b.1, x) bs) (ap (λ (b : Ballot). (b.0, b.1)) f) e)
    ∙ sym (ap (λ (b : Ballot). b.2) f)
IsSingle-cons bs i t c h agree v u x y (inr e) (inr f) = h v u x y e f

module _ {C : Type 0} (members : List ℕ) where
  -- The ballots `bs` account for every vote, candidate, leader and sent message of the cluster.
  pub record Accounts (s : Cluster C) (bs : List Ballot) : Type 0 where
    pub recorded : All (λ b. Recorded (s.nodes b.0) b.1 b.2) bs
    pub single : IsSingle bs
    pub inside : All (λ b. member b.0 members ≡ true) bs
    pub backed : All (Backed members bs) s.sent
    pub standing : (i : ℕ) → member i members ≡ true → IsStanding members bs i (s.nodes i)

  Recorded-update :
      (nodes : ℕ → RaftNode C) (i : ℕ) (n : RaftNode C) (bs : List Ballot)
      → Keeps (nodes i) n
      → All (λ b. Recorded (nodes b.0) b.1 b.2) bs
      → All (λ b. Recorded (update nodes i n b.0) b.1 b.2) bs
  Recorded-update nodes i n [] k h = tt
  Recorded-update nodes i n ((v, t, c) ∷ bs) k h = elim (Bool-cases (i == v)) [
    | inl e ↦
        let same : i ≡ v = ground arith in
        (rw e (Recorded-Keeps (nodes i) n t c k (rw same h.0)), Recorded-update nodes i n bs k h.1)
    | inr e ↦ (rw e h.0, Recorded-update nodes i n bs k h.1)
  ]

  IsStanding-update :
      (s : Cluster C) (i : ℕ) (n : RaftNode C) (bs cs : List Ballot)
      → Extends bs cs
      → Accounts s bs
      → IsStanding members cs i n
      → (j : ℕ) → member j members ≡ true
      → IsStanding members cs j (update s.nodes i n j)
  IsStanding-update s i n bs cs ext a h j m = elim (Bool-cases (i == j)) [
    | inl e ↦
        let same : i ≡ j = ground arith in rw e (subst (λ k. IsStanding members cs k n) same h)
    | inr e ↦
        let old = a.standing j m in
        rw e (record {
          named = old.named;
          sized = old.sized;
          stands = Stands-mono members bs cs j (s.nodes j) (s.nodes j).state ext old.stands;
        })
  ]

  quiet-Accounts :
      (s : Cluster C) (i : ℕ) (o : Outcome C) (bs : List Ballot)
      → Accounts s bs
      → IsQuiet members bs i (s.nodes i) o
      → Accounts (after s i o) bs
  quiet-Accounts s i o bs a q = record {
    recorded = Recorded-update s.nodes i o.0 bs q.keeps a.recorded;
    single = a.single;
    inside = a.inside;
    backed = All-append (Backed members bs) (messages o.1) s.sent q.backed a.backed;
    standing = IsStanding-update s i o.0 bs bs (λ b e. e) a q.standing;
  }

  -- A node that casts a vote had cast none for another candidate in that term.
  cast_once :
      (s : Cluster C) (i : ℕ) (o : Outcome C) (c d : ℕ) (bs : List Ballot)
      → Accounts s bs
      → IsCast members bs i (s.nodes i) o c
      → Elem (i, o.0.current_term, d) bs
      → d ≡ c
  cast_once s i o c d bs a q e =
      let (le, vote) = All-Elem (λ b. Recorded (s.nodes b.0) b.1 b.2) _ bs a.recorded e in
      let same : (s.nodes i).current_term ≡ o.0.current_term = omega (arith, q.keeps.grows, le) in
      q.free d same (vote (sym same))

  cast-Accounts :
      (s : Cluster C) (i : ℕ) (o : Outcome C) (c : ℕ) (bs : List Ballot)
      → Accounts s bs
      → member i members ≡ true
      → IsCast members bs i (s.nodes i) o c
      → Accounts (after s i o) ((i, o.0.current_term, c) ∷ bs)
  cast-Accounts s i o c bs a m q =
      let b : Ballot = (i, o.0.current_term, c) in
      record {
        recorded = (ground (arith, q.voted), Recorded-update s.nodes i o.0 bs q.keeps a.recorded);
        single =
            IsSingle-cons bs i o.0.current_term c a.single (λ d e. cast_once s i o c d bs a q e);
        inside = (m, a.inside);
        backed = All-append (Backed members (b ∷ bs)) (messages o.1) s.sent q.backed (
            All-map (Backed members bs) (Backed members (b ∷ bs)) s.sent
              (λ e. Backed-mono members bs (b ∷ bs) e (weaken b bs)) a.backed);
        standing = IsStanding-update s i o.0 bs (b ∷ bs) (weaken b bs) a q.standing;
      }

  Votes-Accounts :
      (s : Cluster C) (i : ℕ) (o : Outcome C) (bs : List Ballot)
      → Accounts s bs
      → member i members ≡ true
      → Votes members bs i (s.nodes i) o
      → (cs : List Ballot) × Accounts (after s i o) cs
  Votes-Accounts s i o bs a m (inl q) = (bs, quiet-Accounts s i o bs a q)
  Votes-Accounts s i o bs a m (inr (c, q)) = (_, cast-Accounts s i o c bs a m q)

  Step-Accounts :
      {s t : Cluster C} (bs : List Ballot)
      → Step members s t
      → Accounts s bs
      → (cs : List Ballot) × Accounts t cs
  Step-Accounts {s} bs (deliver i deadline m inside e) a = Votes-Accounts s i _ bs a inside (
      handle-Votes members bs i deadline m (s.nodes i) (a.standing i inside) a.inside
        (All-Elem (Backed members bs) (i, m) s.sent a.backed e))
  Step-Accounts {s} bs (ticks i now deadline inside) a =
      Votes-Accounts s i _ bs a inside
        (tick-Votes members bs i now deadline (s.nodes i) (a.standing i inside))
  Step-Accounts {s} bs (submits i command o inside e) a =
      Votes-Accounts s i o bs a inside
        (inl (submit-IsQuiet members bs i command (s.nodes i) o (a.standing i inside) e))

  Reach-Accounts :
      {s t : Cluster C} (bs : List Ballot)
      → Accounts s bs
      → Reach members s t
      → (cs : List Ballot) × Accounts t cs
  Reach-Accounts bs a here = (bs, a)
  Reach-Accounts bs a (next r st) = let (cs, b) = Reach-Accounts bs a r in Step-Accounts cs st b

  initial-Accounts : (s : Cluster C) → IsInitial members s → Accounts s []
  initial-Accounts s h = record {
    recorded = tt;
    single = λ v t c d e f. absurd e;
    inside = tt;
    backed = rw h.quiet tt;
    standing = λ i m.
        let (peers, deadline, e, size) = h.fresh i m in
        rw e (record { named = refl; sized = size; stands = tt });
  }

  -- In every state that the cluster reaches, under any loss, repetition and reordering of messages
  -- and any clocks, two members that lead in the same term are the same.
  pub one_leader_per_term :
      (s t : Cluster C) (i j : ℕ)
      → IsInitial members s
      → Reach members s t
      → member i members ≡ true
      → member j members ≡ true
      → (t.nodes i).state ≡ leader
      → (t.nodes j).state ≡ leader
      → (t.nodes i).current_term ≡ (t.nodes j).current_term
      → i ≡ j
  one_leader_per_term s t i j init r mi mj li lj e =
      let (bs, a) = Reach-Accounts [] (initial-Accounts s init) r in
      let qi = subst (Stands members bs i (t.nodes i)) li (a.standing i mi).stands in
      let qj = subst (Stands members bs j (t.nodes j)) lj (a.standing j mj).stands in
      Quorum-unique members bs (t.nodes i).current_term i j a.single qi
        (subst (λ k. Quorum members bs k j) (sym e) qj)

  -- Over the whole history of such a run, all entries sent in one term name one leader.
  pub one_sender_per_term :
      (s t : Cluster C) (to to' term l l' p p' pt pt' c c' : ℕ) (es es' : List (LogEntry C))
      → IsInitial members s
      → Reach members s t
      → Elem (to, append_entries term l p pt es c) t.sent
      → Elem (to', append_entries term l' p' pt' es' c') t.sent
      → l ≡ l'
  one_sender_per_term s t to to' term l l' p p' pt pt' c c' es es' init r e f =
      let (bs, a) = Reach-Accounts [] (initial-Accounts s init) r in
      Quorum-unique members bs term l l' a.single (All-Elem (Backed members bs) _ t.sent a.backed e)
        (All-Elem (Backed members bs) _ t.sent a.backed f)
