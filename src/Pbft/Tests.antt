-- ===== src/Pbft/Tests.antt =====
-- A replica in a cluster of four that prepares, commits and applies one request.
use sistem_paralel_terdistri.Common.{
  All, Bool-cases, Distinct, List, [], arith, discard, false, if◌then◌else◌, inl, inr, member, refl,
  subst, ℕ, ◌*◌, ◌+◌, ◌==◌, ◌∷◌, ◌≡◌,
}
use sistem_paralel_terdistri.Pbft.Agreement.{IsAuthentic, honest_nodes_agree}
use sistem_paralel_terdistri.Pbft.Applied.{
  Event, applied_at_most_once, react, react_all, receives, seqs, submits,
}
use sistem_paralel_terdistri.Pbft.Certificates.{applied_with_certificate}
use sistem_paralel_terdistri.Pbft.Certified.{IsCertified}
use sistem_paralel_terdistri.Pbft.Node.{
  Outcome, PbftNode, PbftRequest, apply, commit, count_commit, count_prepare, handle, init,
  on_commit, on_pre_prepare, on_prepare, pre_prepare, prepare, set_byzantine, submit,
}

-- What runs.
program : Unit {0}
unfolding set_byzantine submit on_pre_prepare count_prepare on_prepare apply count_commit on_commit
    handle react react_all
program = tt

abbrev compute_digest : PbftRequest ℕ → ℕ
compute_digest r = 10 * r.request_id

abbrev malicious : ℕ → ℕ
malicious p = 1 + p

abbrev request : PbftRequest ℕ
request = record { request_id = 7; client_id = 1; operation = 500; timestamp = 0 }

abbrev four : List ℕ
four = 1 ∷ 2 ∷ 3 ∷ 4 ∷ []

abbrev events : List (Event ℕ)
events =
    receives 1 (pre_prepare 0 1 70 request)
    ∷ receives 3 (prepare 0 1 70)
    ∷ receives 3 (commit 0 1 70)
    ∷ receives 4 (commit 0 1 70)
    ∷ receives 1 (commit 0 1 70)
    ∷ []

abbrev outcome : Outcome ℕ
outcome = react_all compute_digest malicious events (init 2 (1 ∷ 3 ∷ 4 ∷ []) four)

applied_once : seqs outcome.1 ≡ 1 ∷ []
unfolding program
applied_once = refl

applied_at_most_once_example : (outcome.0.applied ≡ seqs outcome.1) × Distinct (seqs outcome.1)
applied_at_most_once_example =
    applied_at_most_once compute_digest malicious 2 (1 ∷ 3 ∷ 4 ∷ []) four events

abbrev replica : PbftNode ℕ
replica = init 2 (1 ∷ 3 ∷ 4 ∷ []) four

applied_with_certificate_example : IsCertified compute_digest 2 four events 1 500
unfolding program
applied_with_certificate_example =
    applied_with_certificate compute_digest malicious 2 (1 ∷ 3 ∷ 4 ∷ []) four events 1 500
      (inr (inr (inr (inr (inr (inr (inl refl)))))))

-- The same cluster with all its nodes: node 1 leads, node 4 is bad and silent, and nodes 2 and 3 apply.
abbrev operation_of : PbftRequest ℕ → ℕ
operation_of r = r.operation

abbrev heard : ℕ → List (Event ℕ)
heard i =
    if i == 1
    then submits request ∷ receives 2 (prepare 0 1 500) ∷ receives 3 (prepare 0 1 500) ∷ []
    else if i == 2
    then receives 1 (pre_prepare 0 1 500 request)
      ∷ receives 3 (prepare 0 1 500)
      ∷ receives 3 (commit 0 1 500)
      ∷ receives 1 (commit 0 1 500)
      ∷ []
    else if i == 3
    then receives 1 (pre_prepare 0 1 500 request)
      ∷ receives 2 (prepare 0 1 500)
      ∷ receives 2 (commit 0 1 500)
      ∷ receives 1 (commit 0 1 500)
      ∷ []
    else []

abbrev others : ℕ → List ℕ
others i = discard i four

abbrev IsHeard : ℕ → Type 0
IsHeard i = All (IsAuthentic operation_of (λ k p. p) others four (4 ∷ []) heard i) (heard i)

authentic-two : IsHeard 2
unfolding program
authentic-two = (
  (λ e. absurd (omega (arith, e))),
  (
    tt,
    (
      (refl, λ h. (1, inr (inr (inr (inl refl))))),
      ((refl, λ h. (2, inr (inr (inr (inl refl))))), tt),
    ),
  ),
)

authentic-three : IsHeard 3
unfolding program
authentic-three = (
  (λ e. absurd (omega (arith, e))),
  (
    tt,
    (
      (refl, λ h. (1, inr (inr (inr (inl refl))))),
      ((refl, λ h. (2, inr (inr (inr (inl refl))))), tt),
    ),
  ),
)

all_authentic : (i : ℕ) → member i (4 ∷ []) ≡ false → IsHeard i
all_authentic i good = elim (Bool-cases (i == 1)) [
  | inl e ↦ rw e (tt, (tt, (tt, tt)))
  | inr e ↦ elim (Bool-cases (i == 2)) [
    | inl f ↦ let same : 2 ≡ i = ground arith in subst IsHeard same authentic-two
    | inr f ↦ elim (Bool-cases (i == 3)) [
      | inl g ↦ let same : 3 ≡ i = ground arith in subst IsHeard same authentic-three
      | inr g ↦ rw (e, f, g) tt
    ]
  ]
]

honest_nodes_agree_example : request.operation ≡ request.operation
unfolding program
honest_nodes_agree_example =
    honest_nodes_agree operation_of (λ k p. p) others four (4 ∷ []) heard all_authentic (λ r s e. e)
      (omega arith) (omega arith) 2 3 1 500 500 (refl, refl) (refl, refl)
      (inr (inr (inr (inr (inr (inr (inl refl))))))) (inr (inr (inr (inr (inr (inr (inl refl)))))))
