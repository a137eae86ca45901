-- ===== src/Pbft/Certificates.antt =====
-- Every operation that a PBFT node applies is certified: tugas-3/src/consensus/pbft.py.
use sistem_paralel_terdistri.Common.{
  All, All-Elem, All-append, All-map, AllEntries-lookup, Bool-cases, Elem, List, Option-cases, [],
  arith, inl, inr, lookup, refl, subst, ℕ, ◌==◌, ◌∷◌, ◌≡◌,
}
use sistem_paralel_terdistri.Pbft.Applied.{Event, react, react_all, receives, submits, switches}
use sistem_paralel_terdistri.Pbft.Certified.{
  IsCertified, IsProper, IsSound, Tells, count_commit-IsProper, count_prepare-IsProper,
  on_pre_prepare-IsProper, same-IsProper, submit-IsProper,
}
use sistem_paralel_terdistri.Pbft.Node.{
  Effect, PbftNode, PbftRequest, call, commit, handle, init, on_commit, on_prepare, pre_prepare,
  prepare, send, set_byzantine,
}

module _ {O : Type 0} (compute_digest : PbftRequest O → ℕ) (me : ℕ) (all : List ℕ)
    (history : List (Event O)) where
  on_prepare-IsProper :
      (sender seq digest : ℕ) (n : PbftNode O)
      → IsSound compute_digest me all history n
      → IsProper compute_digest me all history (on_prepare sender seq digest n)
  unfolding on_prepare
  on_prepare-IsProper sender seq digest n h = elim (Option-cases (lookup seq n.log)) [
    | inl p ↦ rw (on_prepare, p) (same-IsProper compute_digest me all history n h)
    | inr (e, p) ↦ elim (Bool-cases (e.digest == digest)) [
      | inl q ↦
          rw (on_prepare, p, q)
            (count_prepare-IsProper compute_digest me all history sender seq e n
              (AllEntries-lookup _ seq e n.log h.entries p) h)
      | inr q ↦ rw (on_prepare, p, q) (same-IsProper compute_digest me all history n h)
    ]
  ]

  on_commit-IsProper :
      (sender view seq digest : ℕ) (n : PbftNode O)
      → Elem (receives sender (commit view seq digest)) history
      → IsSound compute_digest me all history n
      → IsProper compute_digest me all history (on_commit sender seq digest n)
  unfolding on_commit
  on_commit-IsProper sender view seq digest n heard h = elim (Option-cases (lookup seq n.log)) [
    | inl p ↦ rw (on_commit, p) (same-IsProper compute_digest me all history n h)
    | inr (e, p) ↦ elim (Bool-cases (e.digest == digest)) [
      | inl q ↦
          let same : digest ≡ e.digest = ground arith in
          rw (on_commit, p, q)
            (count_commit-IsProper compute_digest me all history sender view seq e n
              (subst (λ d. Elem (receives sender (commit view seq d)) history) same heard)
              (AllEntries-lookup _ seq e n.log h.entries p) h)
      | inr q ↦ rw (on_commit, p, q) (same-IsProper compute_digest me all history n h)
    ]
  ]

  pub react-IsProper :
      (malicious : ℕ → ℕ) (ev : Event O) (n : PbftNode O)
      → Elem ev history
      → IsSound compute_digest me all history n
      → IsProper compute_digest me all history (react compute_digest malicious ev n)
  unfolding react handle set_byzantine
  react-IsProper malicious (submits r) n here h =
      submit-IsProper compute_digest me all history malicious r n h
  react-IsProper malicious (switches b) n here h = record {
    sound = record { identity = h.identity; nodes = h.nodes; entries = h.entries };
    tells = tt;
  }
  react-IsProper malicious (receives s (pre_prepare v q d r)) n here h =
      on_pre_prepare-IsProper compute_digest me all history s v q d r n h
  react-IsProper malicious (receives s (prepare v q d)) n here h = on_prepare-IsProper s q d n h
  react-IsProper malicious (receives s (commit v q d)) n here h =
      on_commit-IsProper s v q d n here h

  -- The calls among the effects are certified.
  abbrev CallsCertified : Effect O → Type 0
  CallsCertified (send p m) = Unit
  CallsCertified (call seq op) = IsCertified compute_digest me all history seq op

  Tells-certified :
      (n : PbftNode O) (x : Effect O) → Tells compute_digest me all history n x → CallsCertified x
  Tells-certified n (send p m) h = tt
  Tells-certified n (call seq op) (r, ws, e, d, votes, many, logged) = (r, ws, e, d, votes, many)

  react_all-certified :
      (malicious : ℕ → ℕ) (es : List (Event O)) (n : PbftNode O)
      → ((ev : Event O) → Elem ev es → Elem ev history)
      → IsSound compute_digest me all history n
      → All CallsCertified (react_all compute_digest malicious es n).1
  unfolding react_all
  react_all-certified malicious [] n within h = tt
  react_all-certified malicious (ev ∷ es) n within h =
      let r = react compute_digest malicious ev n in
      let a = react-IsProper malicious ev n (within ev (inl refl)) h in
      All-append CallsCertified r.1 _ (All-map _ CallsCertified r.1 (Tells-certified r.0) a.tells)
        (react_all-certified malicious es r.0 (λ x at. within x (inr at)) a.sound)

  pub init-IsSound : (peers : List ℕ) → IsSound compute_digest me all history (init me peers all)
  init-IsSound peers = record { identity = refl; nodes = refl; entries = tt }

-- Over any run of events on a node of a cluster, whenever it calls the callback with an operation, at
-- least 2f + 1 different nodes have voted to commit one digest under that sequence number, that of a
-- request with this operation: each is the node itself, or the sender of a COMMIT message with that
-- number and digest that the node has received.
pub applied_with_certificate :
    {O : Type 0} (compute_digest : PbftRequest O → ℕ) (malicious : ℕ → ℕ) (me : ℕ)
    (peers all : List ℕ) (es : List (Event O)) (seq : ℕ) (op : O)
    → Elem (call seq op) (react_all compute_digest malicious es (init me peers all)).1
    → IsCertified compute_digest me all es seq op
applied_with_certificate compute_digest malicious me peers all es seq op called =
    All-Elem (CallsCertified compute_digest me all es) (call seq op) _
      (react_all-certified compute_digest me all es malicious es (init me peers all) (λ x at. at)
        (init-IsSound compute_digest me all es peers))
      called
