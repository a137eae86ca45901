-- ===== src/Pbft/Quorums.antt =====
-- The quorums of 2f + 1 nodes of tugas-3/src/consensus/pbft.py.
use sistem_paralel_terdistri.Common.{
  All-member, Bool-cases, Distinct, List, [], arith, discard, discard-Distinct, false, inl, inr,
  length, member, member-discard, quorums_meet, refl, suc, true, ℕ, ◌*◌, ◌+◌, ◌==◌, ◌∷◌, ◌≡◌, ◌≤◌,
}
use sistem_paralel_terdistri.Pbft.Node.{PbftNode, faults}

-- The list without the faulty nodes.
honest : List ℕ → List ℕ → List ℕ
honest [] l = l
honest (b ∷ bad) l = honest bad (discard b l)

discard_absent : (x : ℕ) (l : List ℕ) → member x l ≡ false → discard x l ≡ l
discard_absent x [] h = refl
discard_absent x (y ∷ l) h = ground (arith, h, discard_absent x l)

length-discard-high : (x : ℕ) (l : List ℕ) → Distinct l → length l ≤ suc (length (discard x l))
length-discard-high x [] d = omega arith
length-discard-high x (y ∷ l) d = elim (Bool-cases (y == x)) [
  | inr e ↦ rw e (omega (arith, length-discard-high x l d.1))
  | inl e ↦ rw e (ground (arith, discard_absent y l d.0, e))
]

honest_lem :
    (bad l : List ℕ)
    → Distinct l
    → Distinct (honest bad l) × (length l ≤ length (honest bad l) + length bad)
unfolding honest
honest_lem [] l d = (d, omega arith)
honest_lem (b ∷ bad) l d =
    let (e, le) = honest_lem bad (discard b l) (discard-Distinct b l d) in
    (e, omega (arith, le, length-discard-high b l d))

member-honest :
    (x : ℕ) (bad l : List ℕ)
    → member x (honest bad l) ≡ true
    → (member x l ≡ true) × (member x bad ≡ false)
unfolding honest
member-honest x [] l h = (h, refl)
member-honest x (b ∷ bad) l h =
    let (a, c) = member-honest x bad (discard b l) h in
    (ground (arith, a, member-discard x b l), ground (arith, a, c, member-discard x b l))

-- In a cluster of 3f + 1 nodes, at most f of which are faulty, two quorums of 2f + 1 nodes have a
-- node in common that is not faulty.
pub quorums_share_honest :
    {O : Type 0} (n : PbftNode O) (l m bad : List ℕ)
    → length n.all_nodes ≡ 3 * faults n + 1
    → Distinct l
    → Distinct m
    → ((x : ℕ) → member x l ≡ true → member x n.all_nodes ≡ true)
    → ((x : ℕ) → member x m ≡ true → member x n.all_nodes ≡ true)
    → 2 * faults n + 1 ≤ length l
    → 2 * faults n + 1 ≤ length m
    → length bad ≤ faults n
    → (x : ℕ) × (member x l ≡ true) × (member x m ≡ true) × (member x bad ≡ false)
quorums_share_honest n l m bad size d e p q big big' few =
    let (d', less) = honest_lem bad l d in
    let all = n.all_nodes in
    let (x, a, b) =
      quorums_meet (honest bad l) m all d' e
        (All-member (λ y. member y all ≡ true) (honest bad l)
          (λ x h. p x (member-honest x bad l h).0))
        (All-member (λ y. member y all ≡ true) m q) (omega (arith, size, less, big, big', few)) in
    let (c, f) = member-honest x bad l a in (x, c, b, f)
