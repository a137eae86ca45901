-- ===== src/Pbft/Applied.antt =====
-- What a PBFT node (tugas-3/src/consensus/pbft.py) applies.
use sistem_paralel_terdistri.Common.{
  Bool, Bool-cases, Distinct, List, Option-cases, [], add, add-Distinct, ap, append-nil,
  append_assoc, arith, false, inl, inr, leb, length, lookup, member, not, refl, subst, sym, ℕ, ◌&&◌,
  ◌*◌, ◌++◌, ◌+◌, ◌==◌, ◌||◌, ◌∙◌, ◌∷◌, ◌≡◌,
}
use sistem_paralel_terdistri.Pbft.Node.{
  Effect, Message, Outcome, PbftLogEntry, PbftNode, PbftRequest, apply, call, commit, count_commit,
  count_prepare, faults, handle, init, is_primary, on_commit, on_pre_prepare, on_prepare,
  pre_prepare, prepare, primary, send, send_all, set_byzantine, submit,
}

-- What happens to a node: a request of a client, a message of a sender, a switch of its mode.
pub data Event (O : Type 0) : Type 0 where
  submits : PbftRequest O → Event O
  receives : ℕ → Message O → Event O
  switches : Bool → Event O

add_absent : (s : ℕ) (l : List ℕ) → member s l ≡ false → add s l ≡ l ++ s ∷ []
add_absent s [] h = refl
add_absent s (x ∷ l) h = ground (arith, h, add_absent s l)

module _ {O : Type 0} where
  unfoldable pub react : (PbftRequest O → ℕ) → (ℕ → ℕ) → Event O → PbftNode O → Outcome O
  react compute_digest malicious (submits r) n = (submit compute_digest malicious r n).0
  react compute_digest malicious (receives s m) n = handle compute_digest s m n
  react compute_digest malicious (switches b) n = (set_byzantine b n, [])

  -- The node after the events, and all effects in order.
  unfoldable pub react_all : (PbftRequest O → ℕ) → (ℕ → ℕ) → List (Event O) → PbftNode O → Outcome O
  react_all compute_digest malicious [] n = (n, [])
  react_all compute_digest malicious (e ∷ es) n =
      let (n1, sent1) = react compute_digest malicious e n in
      let (n2, sent2) = react_all compute_digest malicious es n1 in (n2, sent1 ++ sent2)

  -- The sequence numbers whose operations were applied, in order.
  abbrev pub seqs : List (Effect O) → List ℕ
  seqs [] = []
  seqs (send p m ∷ es) = seqs es
  seqs (call s o ∷ es) = s ∷ seqs es

  seqs-append : (es fs : List (Effect O)) → seqs (es ++ fs) ≡ seqs es ++ seqs fs
  seqs-append [] fs = refl
  seqs-append (send p m ∷ es) fs = seqs-append es fs
  seqs-append (call s o ∷ es) fs = ap (◌∷◌ s) (seqs-append es fs)

  seqs-send_all : (make : ℕ → Message O) (ps : List ℕ) → seqs (send_all make ps) ≡ []
  seqs-send_all make [] = refl
  seqs-send_all make (p ∷ ps) = seqs-send_all make ps

  -- The applied numbers grow by those of the calls, and none is repeated.
  record Grows (n : PbftNode O) (o : Outcome O) : Type 0 where
    grown : o.0.applied ≡ n.applied ++ seqs o.1
    fresh : Distinct n.applied → Distinct o.0.applied

  quiet-Grows :
      (n : PbftNode O) (o : Outcome O) → o.0.applied ≡ n.applied → seqs o.1 ≡ [] → Grows n o
  quiet-Grows n o same none_called = record {
    grown = same ∙ sym (append-nil n.applied) ∙ ap (λ l. n.applied ++ l) (sym none_called);
    fresh = λ d. subst Distinct (sym same) d;
  }

  apply-Grows : (e : PbftLogEntry O) (n : PbftNode O) → Grows n (apply e n)
  unfolding apply
  apply-Grows e n = elim (Bool-cases (member e.seq_num n.applied)) [
    | inl old ↦ rw (old, apply) (quiet-Grows n _ refl refl)
    | inr new ↦
        rw (new, apply)
          (record {
            grown = add_absent e.seq_num n.applied new;
            fresh = λ d. add-Distinct e.seq_num n.applied d;
          })
  ]

  -- The node may have changed its log before it applies.
  carry : (e : PbftLogEntry O) (n n' : PbftNode O) → n'.applied ≡ n.applied → Grows n (apply e n')
  carry e n n' same =
      let g = apply-Grows e n' in
      record {
        grown = g.grown ∙ ap (λ l. l ++ seqs (apply e n').1) same;
        fresh = λ d. g.fresh (subst Distinct (sym same) d);
      }

  on_commit-Grows :
      (sender seq digest : ℕ) (n : PbftNode O) → Grows n (on_commit sender seq digest n)
  unfolding on_commit count_commit
  on_commit-Grows sender seq digest n = elim (Option-cases (lookup seq n.log)) [
    | inl e ↦ rw (e, on_commit) (quiet-Grows n _ refl refl)
    | inr (x, e) ↦ elim (Bool-cases (x.digest == digest)) [
      | inr d ↦ rw (e, on_commit, d) (quiet-Grows n _ refl refl)
      | inl d ↦
          let x' : PbftLogEntry O = record x { commits = add sender x.commits } in
          elim (Bool-cases (leb (2 * faults n + 1) (length x'.commits) && not x.committed)) [
            | inl q ↦ rw (e, on_commit, d, count_commit, q) (carry x' n _ refl)
            | inr q ↦ rw (e, on_commit, d, count_commit, q) (quiet-Grows n _ refl refl)
          ]
    ]
  ]

  on_prepare-Grows :
      (sender seq digest : ℕ) (n : PbftNode O) → Grows n (on_prepare sender seq digest n)
  unfolding on_prepare count_prepare
  on_prepare-Grows sender seq digest n = elim (Option-cases (lookup seq n.log)) [
    | inl e ↦ rw (e, on_prepare) (quiet-Grows n _ refl refl)
    | inr (x, e) ↦ elim (Bool-cases (x.digest == digest)) [
      | inr d ↦ rw (e, on_prepare, d) (quiet-Grows n _ refl refl)
      | inl d ↦
          let ps = add sender x.prepares in
          elim (Bool-cases (
            x.pre_prepare_received
            && (leb (2 * faults n) (length ps) && not (member sender x.commits)))) [
              | inl q ↦
                  rw (e, on_prepare, d, count_prepare, q)
                    (quiet-Grows n _ refl (seqs-send_all (λ p. commit n.view seq x.digest) n.peers))
              | inr q ↦ rw (e, on_prepare, d, count_prepare, q) (quiet-Grows n _ refl refl)
            ]
    ]
  ]

  submit-Grows :
      (compute_digest : PbftRequest O → ℕ) (malicious : ℕ → ℕ) (r : PbftRequest O) (n : PbftNode O)
      → Grows n (submit compute_digest malicious r n).0
  unfolding submit
  submit-Grows compute_digest malicious r n = elim (Bool-cases (is_primary n)) [
    | inl e ↦ rw (e, submit) (quiet-Grows n _ refl (seqs-send_all _ n.peers))
    | inr e ↦ rw (e, submit) (quiet-Grows n _ refl refl)
  ]

  on_pre_prepare-Grows :
      (compute_digest : PbftRequest O → ℕ) (s v q d : ℕ) (r : PbftRequest O) (n : PbftNode O)
      → Grows n (on_pre_prepare compute_digest s v q d r n)
  unfolding on_pre_prepare
  on_pre_prepare-Grows compute_digest s v q d r n =
      elim (Bool-cases
        (not (v == n.view) || (not (s == primary n) || not (d == compute_digest r)))) [
          | inl e ↦ rw (e, on_pre_prepare) (quiet-Grows n _ refl refl)
          | inr e ↦
              rw (e, on_pre_prepare)
                (quiet-Grows n _ refl (seqs-send_all (λ p. prepare v q d) n.peers))
        ]

  react-Grows :
      (compute_digest : PbftRequest O → ℕ) (malicious : ℕ → ℕ) (ev : Event O) (n : PbftNode O)
      → Grows n (react compute_digest malicious ev n)
  unfolding react handle set_byzantine
  react-Grows compute_digest malicious (submits r) n = submit-Grows compute_digest malicious r n
  react-Grows compute_digest malicious (switches b) n = quiet-Grows n _ refl refl
  react-Grows compute_digest malicious (receives s (prepare v q d)) n = on_prepare-Grows s q d n
  react-Grows compute_digest malicious (receives s (commit v q d)) n = on_commit-Grows s q d n
  react-Grows compute_digest malicious (receives s (pre_prepare v q d r)) n =
      on_pre_prepare-Grows compute_digest s v q d r n

  react_all-Grows :
      (compute_digest : PbftRequest O → ℕ) (malicious : ℕ → ℕ) (es : List (Event O))
      (n : PbftNode O)
      → Grows n (react_all compute_digest malicious es n)
  unfolding react_all
  react_all-Grows compute_digest malicious [] n = quiet-Grows n _ refl refl
  react_all-Grows compute_digest malicious (e ∷ es) n =
      let r = react compute_digest malicious e n in
      let rest = react_all compute_digest malicious es r.0 in
      let a = react-Grows compute_digest malicious e n in
      let b = react_all-Grows compute_digest malicious es r.0 in
      record {
        grown =
            b.grown
            ∙ ap (λ l. l ++ seqs rest.1) a.grown
            ∙ append_assoc n.applied (seqs r.1) (seqs rest.1)
            ∙ ap (λ l. n.applied ++ l) (sym (seqs-append r.1 rest.1));
        fresh = λ h. b.fresh (a.fresh h);
      }

  -- Over any run of events, a node calls the callback at most once for a sequence number, and the set
  -- `applied` has the numbers of the calls; the model's list of it keeps their order.
  pub applied_at_most_once :
      (compute_digest : PbftRequest O → ℕ) (malicious : ℕ → ℕ) (node_id : ℕ) (peers all : List ℕ)
      (es : List (Event O))
      → let (n, effects) = react_all compute_digest malicious es (init node_id peers all) in
        (n.applied ≡ seqs effects) × Distinct (seqs effects)
  applied_at_most_once compute_digest malicious node_id peers all es =
      let g = react_all-Grows compute_digest malicious es (init node_id peers all) in
      (g.grown, subst Distinct g.grown (g.fresh tt))
