-- ===== src/Pbft/Steady.antt =====
-- The log of a PBFT node keeps the digest of every sequence number: tugas-3/src/consensus/pbft.py.
use sistem_paralel_terdistri.Common.{
  Bool-cases, Dict, Option-cases, add, ap, arith, false, if◌then◌else◌, inl, inr, insert, leb,
  length, lookup, lookup-insert, map_some, member, not, refl, some, subst, sym, true, ℕ, ◌&&◌, ◌*◌,
  ◌+◌, ◌==◌, ◌||◌, ◌∙◌, ◌≡◌, ◌≢◌, ◌≤◌,
}
use sistem_paralel_terdistri.Pbft.Applied.{Event, react, receives, submits, switches}
use sistem_paralel_terdistri.Pbft.Certified.{digest_at}
use sistem_paralel_terdistri.Pbft.Node.{
  PbftLogEntry, PbftNode, PbftRequest, apply, commit, count_commit, count_prepare, entry_for,
  faults, handle, is_primary, on_commit, on_pre_prepare, on_prepare, pre_prepare, prepare, primary,
  set_byzantine, submit,
}

module _ {O : Type 0} where
  -- What the log says of a number, it says later.
  abbrev pub Keeps : PbftNode O → PbftNode O → Type 0
  Keeps n n' = (s d : ℕ) → digest_at n s ≡ some d → digest_at n' s ≡ some d

  -- The log of the primary ends at its counter.
  abbrev pub IsCounted : PbftNode O → Type 0
  IsCounted n = is_primary n ≡ true → (s d : ℕ) → digest_at n s ≡ some d → s ≤ n.seq_num

  pub record IsSteady (n n' : PbftNode O) : Type 0 where
    pub keeps : Keeps n n'
    pub counted : IsCounted n'

  digest_at-insert :
      (s seq : ℕ) (e : PbftLogEntry O) (d : Dict (PbftLogEntry O))
      → map_some (λ (x : PbftLogEntry O). x.digest) (lookup s (insert seq e d)) ≡ (
          if seq == s
          then some e.digest
          else map_some (λ (x : PbftLogEntry O). x.digest) (lookup s d))
  digest_at-insert s seq e d = ground (arith, lookup-insert s seq e d)

  same-IsSteady : (n : PbftNode O) → IsCounted n → IsSteady n n
  same-IsSteady n c = record { keeps = λ s d h. h; counted = c }

  -- An entry is replaced by one with its digest.
  replace-IsSteady :
      (seq : ℕ) (e : PbftLogEntry O) (n : PbftNode O)
      → digest_at n seq ≡ some e.digest
      → IsCounted n
      → IsSteady n (record n { log = insert seq e n.log })
  replace-IsSteady seq e n there c = record {
    keeps = λ s d h. elim (Bool-cases (seq == s)) [
      | inl q ↦
          let same : seq ≡ s = ground arith in
          digest_at-insert s seq e n.log ∙ rw q (sym there ∙ ap (digest_at n) same ∙ h)
      | inr q ↦ digest_at-insert s seq e n.log ∙ rw q h
    ];
    counted = λ p s d h. elim (Bool-cases (seq == s)) [
      | inl q ↦
          let same : seq ≡ s = ground arith in
          subst (λ x. x ≤ n.seq_num) same (c p seq e.digest there)
      | inr q ↦ c p s d (sym (digest_at-insert s seq e n.log ∙ rw q refl) ∙ h)
    ];
  }

  submit-IsSteady :
      (compute_digest : PbftRequest O → ℕ) (malicious : ℕ → ℕ) (r : PbftRequest O) (n : PbftNode O)
      → IsCounted n
      → IsSteady n (submit compute_digest malicious r n).0.0
  unfolding submit
  submit-IsSteady compute_digest malicious r n c = elim (Bool-cases (is_primary n)) [
    | inl e ↦
        rw (e, submit)
          (record {
            keeps = λ s d h.
                let low : s ≤ n.seq_num = c e s d h in
                let apart : (n.seq_num + 1 == s) ≡ false = ground (arith, low) in
                digest_at-insert s (n.seq_num + 1) _ n.log ∙ rw apart h;
            counted = λ p s d h. elim (Bool-cases (n.seq_num + 1 == s)) [
              | inl q ↦ ground (arith, q)
              | inr q ↦
                  let low : s ≤ n.seq_num =
                    c e s d (sym (digest_at-insert s (n.seq_num + 1) _ n.log ∙ rw q refl) ∙ h) in
                  omega (arith, low)
            ];
          })
    | inr e ↦ rw (e, submit) (same-IsSteady n c)
  ]

  -- The entry of a number that is in the log is the one there.
  known-digest :
      (view seq digest d : ℕ) (r : PbftRequest O) (n : PbftNode O)
      → digest_at n seq ≡ some d
      → some (entry_for view seq digest r n).digest ≡ some d
  known-digest view seq digest d r n h = elim (Option-cases (lookup seq n.log)) [
    | inl e ↦ absurd (ground (arith, e, h))
    | inr (x, e) ↦ rw e (sym (ap (map_some (λ (y : PbftLogEntry O). y.digest)) e) ∙ h)
  ]

  on_pre_prepare-IsSteady :
      (compute_digest : PbftRequest O → ℕ) (sender view seq digest : ℕ) (r : PbftRequest O)
      (n : PbftNode O)
      → sender ≢ n.node_id
      → IsCounted n
      → IsSteady n (on_pre_prepare compute_digest sender view seq digest r n).0
  unfolding on_pre_prepare
  on_pre_prepare-IsSteady compute_digest sender view seq digest r n other c =
      elim (Bool-cases
        (not (view == n.view) || (not (sender == primary n) || not (digest == compute_digest r)))) [
          | inl e ↦ rw (e, on_pre_prepare) (same-IsSteady n c)
          | inr e ↦
              let from_primary : sender ≡ primary n = ground (arith, e) in
              rw (e, on_pre_prepare)
                (record {
                  keeps = λ s d h. elim (Bool-cases (seq == s)) [
                    | inl q ↦
                        let same : seq ≡ s = ground arith in
                        let h' : digest_at n seq ≡ some d = ap (digest_at n) same ∙ h in
                        digest_at-insert s seq _ n.log
                        ∙ rw q (known-digest view seq digest d r n h')
                    | inr q ↦ digest_at-insert s seq _ n.log ∙ rw q h
                  ];
                  counted = λ p s d h.
                      let self : primary n ≡ n.node_id = ground (arith, p) in
                      absurd (other (from_primary ∙ self));
                })
        ]

  count_prepare-IsSteady :
      (sender seq : ℕ) (e : PbftLogEntry O) (n : PbftNode O)
      → lookup seq n.log ≡ some e
      → IsCounted n
      → IsSteady n (count_prepare sender seq e n).0
  unfolding count_prepare
  count_prepare-IsSteady sender seq e n there c =
      let logged = ap (map_some (λ (x : PbftLogEntry O). x.digest)) there in
      elim (Bool-cases (
        e.pre_prepare_received
        && (leb (2 * faults n) (length (add sender e.prepares))
            && not (member sender e.commits)))) [
              | inl t ↦ rw (t, count_prepare) (replace-IsSteady seq _ n logged c)
              | inr t ↦ rw (t, count_prepare) (replace-IsSteady seq _ n logged c)
            ]

  apply-log : (e : PbftLogEntry O) (n m : PbftNode O) → IsSteady m n → IsSteady m (apply e n).0
  unfolding apply
  apply-log e n m h = elim (Bool-cases (member e.seq_num n.applied)) [
    | inl t ↦ rw (t, apply) h
    | inr t ↦ rw (t, apply) (record { keeps = h.keeps; counted = h.counted })
  ]

  count_commit-IsSteady :
      (sender seq : ℕ) (e : PbftLogEntry O) (n : PbftNode O)
      → lookup seq n.log ≡ some e
      → IsCounted n
      → IsSteady n (count_commit sender seq e n).0
  unfolding count_commit
  count_commit-IsSteady sender seq e n there c =
      let logged = ap (map_some (λ (x : PbftLogEntry O). x.digest)) there in
      elim (Bool-cases
        (leb (2 * faults n + 1) (length (add sender e.commits)) && not e.committed)) [
          | inl t ↦ rw (t, count_commit) (apply-log _ _ n (replace-IsSteady seq _ n logged c))
          | inr t ↦ rw (t, count_commit) (replace-IsSteady seq _ n logged c)
        ]

  -- A PRE-PREPARE does not come from the node itself.
  abbrev pub IsForeign : ℕ → Event O → Type 0
  IsForeign me (submits r) = Unit
  IsForeign me (switches b) = Unit
  IsForeign me (receives w (pre_prepare v s d r)) = w ≢ me
  IsForeign me (receives w (prepare v s d)) = Unit
  IsForeign me (receives w (commit v s d)) = Unit

  pub react-IsSteady :
      (compute_digest : PbftRequest O → ℕ) (malicious : ℕ → ℕ) (ev : Event O) (n : PbftNode O)
      → IsForeign n.node_id ev
      → IsCounted n
      → IsSteady n (react compute_digest malicious ev n).0
  unfolding react handle set_byzantine on_prepare on_commit
  react-IsSteady compute_digest malicious (submits r) n f c =
      submit-IsSteady compute_digest malicious r n c
  react-IsSteady compute_digest malicious (switches b) n f c = record {
    keeps = λ s d h. h;
    counted = c;
  }
  react-IsSteady compute_digest malicious (receives w (pre_prepare v s d r)) n f c =
      on_pre_prepare-IsSteady compute_digest w v s d r n f c
  react-IsSteady compute_digest malicious (receives w (prepare v s d)) n f c =
      elim (Option-cases (lookup s n.log)) [
        | inl p ↦ rw (on_prepare, p) (same-IsSteady n c)
        | inr (e, p) ↦ elim (Bool-cases (e.digest == d)) [
          | inl q ↦ rw (on_prepare, p, q) (count_prepare-IsSteady w s e n p c)
          | inr q ↦ rw (on_prepare, p, q) (same-IsSteady n c)
        ]
      ]
  react-IsSteady compute_digest malicious (receives w (commit v s d)) n f c =
      elim (Option-cases (lookup s n.log)) [
        | inl p ↦ rw (on_commit, p) (same-IsSteady n c)
        | inr (e, p) ↦ elim (Bool-cases (e.digest == d)) [
          | inl q ↦ rw (on_commit, p, q) (count_commit-IsSteady w s e n p c)
          | inr q ↦ rw (on_commit, p, q) (same-IsSteady n c)
        ]
      ]
