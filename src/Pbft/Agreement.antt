-- ===== src/Pbft/Agreement.antt =====
-- Honest PBFT nodes apply the same operation under a sequence number:
-- tugas-3/src/consensus/pbft.py.
use mathlib.Core.Option.{some-injective}
use sistem_paralel_terdistri.Common.{
  All, All-Elem, All-append, All-map, Elem, List, [], arith, false, inl, inr, length, member,
  member-All, refl, some, subst, sym, true, ℕ, ◌*◌, ◌+◌, ◌-◌, ◌/◌, ◌∙◌, ◌∷◌, ◌≡◌, ◌≢◌, ◌≤◌,
}
use sistem_paralel_terdistri.Pbft.Applied.{Event, react, react_all, receives, submits, switches}
use sistem_paralel_terdistri.Pbft.Certificates.{init-IsSound, react-IsProper}
use sistem_paralel_terdistri.Pbft.Certified.{HasVoted, IsCertifiedAt, IsSound, Tells, digest_at}
use sistem_paralel_terdistri.Pbft.Node.{
  Effect, Outcome, PbftNode, PbftRequest, call, commit, init, pre_prepare, prepare, send,
}
use sistem_paralel_terdistri.Pbft.Quorums.{quorums_share_honest}
use sistem_paralel_terdistri.Pbft.Steady.{IsCounted, IsForeign, Keeps, react-IsSteady}

module _ {O : Type 0} (compute_digest : PbftRequest O → ℕ) (me : ℕ) (all : List ℕ)
    (history : List (Event O)) where
  lift-Tells :
      (n n' : PbftNode O) (x : Effect O)
      → Keeps n n'
      → Tells compute_digest me all history n x
      → Tells compute_digest me all history n' x
  lift-Tells n n' (send p (pre_prepare v s d r)) k h = tt
  lift-Tells n n' (send p (prepare v s d)) k h = tt
  lift-Tells n n' (send p (commit v s d)) k h = k s d h
  lift-Tells n n' (call s op) k (r, ws, e, d, votes, many, logged) =
      (r, ws, e, d, votes, many, k s (compute_digest r) logged)

  -- What a node said in a run is as its log is in the end.
  react_all-Tells :
      (malicious : ℕ → ℕ) (es : List (Event O)) (n : PbftNode O)
      → ((ev : Event O) → Elem ev es → Elem ev history)
      → All (IsForeign me) es
      → IsSound compute_digest me all history n
      → IsCounted n
      → let o = react_all compute_digest malicious es n in
        Keeps n o.0 × All (Tells compute_digest me all history o.0) o.1
  unfolding react_all
  react_all-Tells malicious [] n within foreign h c = ((λ s d k. k), tt)
  react_all-Tells malicious (ev ∷ es) n within (f, fs) h c =
      let r = react compute_digest malicious ev n in
      let a =
        react-IsProper compute_digest me all history malicious ev n (within ev (inl refl)) h in
      let b =
        react-IsSteady compute_digest malicious ev n
          (subst (λ i. IsForeign i ev) (sym h.identity) f) c in
      let (keeps, tells) =
        react_all-Tells malicious es r.0 (λ x at. within x (inr at)) fs a.sound b.counted in
      let final = (react_all compute_digest malicious es r.0).0 in
      (
        (λ s d k. keeps s d (b.keeps s d k)),
        All-append (Tells compute_digest me all history final) r.1 _
            (All-map _ (Tells compute_digest me all history final) r.1
              (λ x t. lift-Tells r.0 final x keeps t) a.tells)
            tells,
      )

-- A cluster: what each node hears, whom it sends to, and what it sends instead when it is malicious.
module _ {O : Type 0} (compute_digest : PbftRequest O → ℕ) (malicious : ℕ → ℕ → ℕ)
    (peers : ℕ → List ℕ) (all bad : List ℕ) (events : ℕ → List (Event O)) where
  -- The run of a node.
  abbrev pub run_of : ℕ → Outcome O
  run_of i = react_all compute_digest (malicious i) (events i) (init i (peers i) all)

  -- What the network promises to a node about a message: it comes from a node of the cluster, a COMMIT
  -- that seems to come from a node that is not bad was sent by it, and a PRE-PREPARE does not come from
  -- the node itself.
  abbrev pub IsAuthentic : ℕ → Event O → Type 0
  IsAuthentic i (submits r) = Unit
  IsAuthentic i (switches b) = Unit
  IsAuthentic i (receives w (pre_prepare v s d r)) = w ≢ i
  IsAuthentic i (receives w (prepare v s d)) = Unit
  IsAuthentic i (receives w (commit v s d)) =
      (member w all ≡ true)
      × (member w bad ≡ false → (p : ℕ) × Elem (send p (commit v s d)) (run_of w).1)

  authentic-IsForeign : (i : ℕ) (x : Event O) → IsAuthentic i x → IsForeign i x
  authentic-IsForeign i (submits r) h = tt
  authentic-IsForeign i (switches b) h = tt
  authentic-IsForeign i (receives w (pre_prepare v s d r)) h = h
  authentic-IsForeign i (receives w (prepare v s d)) h = tt
  authentic-IsForeign i (receives w (commit v s d)) h = tt

  run_of-Tells :
      (i : ℕ)
      → All (IsAuthentic i) (events i)
      → All (Tells compute_digest i all (events i) (run_of i).0) (run_of i).1
  run_of-Tells i h =
      (react_all-Tells compute_digest i all (events i) (malicious i) (events i)
        (init i (peers i) all) (λ x at. at)
        (All-map _ (IsForeign i) (events i) (authentic-IsForeign i) h)
        (init-IsSound compute_digest i all (events i) (peers i))
        (λ p s d e. absurd (ground (arith, e)))).1

  module _ (authentic : (i : ℕ) → member i bad ≡ false → All (IsAuthentic i) (events i)) where
    -- The voters of a node are of the cluster.
    voter-member :
        (i s d w : ℕ)
        → member i all ≡ true
        → member i bad ≡ false
        → HasVoted compute_digest i all (events i) s d w
        → member w all ≡ true
    voter-member i s d w here good (inl e) = subst (λ x. member x all ≡ true) (sym e) here
    voter-member i s d w here good (inr (v, at)) =
        (All-Elem (IsAuthentic i) (receives w (commit v s d)) (events i) (authentic i good) at).0

    -- A voter that is not bad has the digest in its log.
    voter-digest :
        (i s d w : ℕ)
        → member i bad ≡ false
        → member w bad ≡ false
        → digest_at (run_of i).0 s ≡ some d
        → HasVoted compute_digest i all (events i) s d w
        → digest_at (run_of w).0 s ≡ some d
    voter-digest i s d w good honest logged (inl e) =
        subst (λ x. digest_at (run_of x).0 s ≡ some d) (sym e) logged
    voter-digest i s d w good honest logged (inr (v, at)) =
        let (from_all, sent) =
          All-Elem (IsAuthentic i) (receives w (commit v s d)) (events i) (authentic i good) at in
        let (p, there) = sent honest in
        All-Elem (Tells compute_digest w all (events w) (run_of w).0) (send p (commit v s d))
          (run_of w).1 (run_of-Tells w (authentic w honest)) there

    called-certified :
        (i seq : ℕ) (op : O)
        → member i bad ≡ false
        → Elem (call seq op) (run_of i).1
        → IsCertifiedAt compute_digest i all (events i) (run_of i).0 seq op
    called-certified i seq op good called =
        All-Elem (Tells compute_digest i all (events i) (run_of i).0) (call seq op) (run_of i).1
          (run_of-Tells i (authentic i good)) called

    -- The digests of two certificates agree.
    one_digest :
        (i j seq : ℕ) (op op' : O)
        → length all ≡ 3 * ((length all - 1) / 3) + 1
        → length bad ≤ (length all - 1) / 3
        → (member i all ≡ true) × (member i bad ≡ false)
        → (member j all ≡ true) × (member j bad ≡ false)
        → (c : IsCertifiedAt compute_digest i all (events i) (run_of i).0 seq op)
        → (c' : IsCertifiedAt compute_digest j all (events j) (run_of j).0 seq op')
        → compute_digest c.0 ≡ compute_digest c'.0
    one_digest i j seq op op' size few (here, good) (here', good')
          (r, ws, e, d, votes, many, logged) (r', ws', e', d', votes', many', logged') =
        let voter = λ (x : ℕ) (m : member x ws ≡ true).
          member-All (HasVoted compute_digest i all (events i) seq (compute_digest r)) x ws votes
            m in
        let voter' = λ (x : ℕ) (m : member x ws' ≡ true).
          member-All (HasVoted compute_digest j all (events j) seq (compute_digest r')) x ws' votes'
            m in
        let (x, m, m', honest) =
          quorums_share_honest (init {O = O} i (peers i) all) ws ws' bad size d d'
            (λ x m. voter-member i seq (compute_digest r) x here good (voter x m))
            (λ x m. voter-member j seq (compute_digest r') x here' good' (voter' x m)) many many'
            few in
        let p = voter-digest i seq (compute_digest r) x good honest logged (voter x m) in
        let q = voter-digest j seq (compute_digest r') x good' honest logged' (voter' x m') in
        some-injective (compute_digest r) (compute_digest r') (sym p ∙ q)

-- Agreement. In a cluster of 3f + 1 nodes, at most f of which are bad, where the network is authentic
-- for the other nodes and requests for different operations have different digests: two nodes that are not bad and apply
-- operations under the same sequence number apply the same operation, whatever requests, losses,
-- delays and repetitions there are and whatever the bad nodes send.
pub honest_nodes_agree :
    {O : Type 0} (compute_digest : PbftRequest O → ℕ) (malicious : ℕ → ℕ → ℕ) (peers : ℕ → List ℕ)
    (all bad : List ℕ) (events : ℕ → List (Event O))
    → ((i : ℕ)
        → member i bad ≡ false
        → All (IsAuthentic compute_digest malicious peers all bad events i) (events i))
    → ((r r' : PbftRequest O) → compute_digest r ≡ compute_digest r' → r.operation ≡ r'.operation)
    → length all ≡ 3 * ((length all - 1) / 3) + 1
    → length bad ≤ (length all - 1) / 3
    → (i j seq : ℕ) (op op' : O) → (member i all ≡ true) × (member i bad ≡ false)
    → (member j all ≡ true) × (member j bad ≡ false)
    → Elem (call seq op) (run_of compute_digest malicious peers all bad events i).1
    → Elem (call seq op') (run_of compute_digest malicious peers all bad events j).1
    → op ≡ op'
honest_nodes_agree compute_digest malicious peers all bad events authentic one_to_one size few i j
      seq op op' hi hj called called' =
    let c =
      called-certified compute_digest malicious peers all bad events authentic i seq op hi.1
        called in
    let c' =
      called-certified compute_digest malicious peers all bad events authentic j seq op' hj.1
        called' in
    let same =
      one_digest compute_digest malicious peers all bad events authentic i j seq op op' size few hi
        hj c c' in
    sym c.2 ∙ one_to_one c.0 c'.0 same ∙ c'.2
