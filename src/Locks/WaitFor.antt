-- ===== src/Locks/WaitFor.antt =====
-- The wait-for graph and the victim of `DeadlockDetector`: tugas-3/src/nodes/lock_manager.py.
use sistem_paralel_terdistri.Common.{
  All, Bool, Bool-cases, Dict, List, [], add, arith, discard, erase, false, if◌then◌else◌, inl, inr,
  is_empty, lookup-erase, lookup-insert, ltb, member, member-add, member-discard, refl, some, subst,
  sym, true, ℕ, ◌==◌, ◌∷◌, ◌≡◌, ◌≤◌, ◌⊎◌,
}
use sistem_paralel_terdistri.Locks.Detector.{
  DeadlockDetector, add_wait, age, drop_target, max_by_age, remove_client, select_victim, targets,
}
use sistem_paralel_terdistri.Locks.Manager.{wait_on}

-- `v in self.wait_for.get(u, set())`
abbrev pub waits : DeadlockDetector → ℕ → ℕ → Bool
waits d u v = member v (targets d.wait_for u)

-- `add_wait` adds one edge and keeps the others; an edge from a client to itself is not added.
pub waits-add_wait :
    (u v waiter holder : ℕ) (d : DeadlockDetector)
    → waits (add_wait waiter holder d) u v ≡ (
        if waiter == holder
        then waits d u v
        else if waiter == u
        then if holder == v then true else waits d u v
        else waits d u v)
unfolding add_wait
waits-add_wait u v waiter holder d = ground (
  arith,
  lookup-insert u waiter (add holder (targets d.wait_for waiter)) d.wait_for,
  member-add v holder (targets d.wait_for waiter),
)

member-empty : (v : ℕ) (s : List ℕ) → is_empty s ≡ true → member v s ≡ false
member-empty v [] e = refl
member-empty v (x ∷ s) e = cc

member-drop_target :
    (u v c : ℕ) (g : Dict (List ℕ))
    → member v (targets (drop_target c g) u) ≡ (if c == v then false else member v (targets g u))
unfolding drop_target
member-drop_target u v c [] = ground arith
member-drop_target u v c ((w, hs) ∷ g) = ground (
  arith,
  member-drop_target u v c g,
  lookup-erase u w (drop_target c g),
  member-discard v c hs,
  member-empty v (discard c hs),
)

-- `remove_client` removes every edge from the client and every edge to it, and no other edge.
pub waits-remove_client :
    (u v c : ℕ) (d : DeadlockDetector)
    → waits (remove_client c d) u v
      ≡ (if c == u then false else if c == v then false else waits d u v)
unfolding remove_client
waits-remove_client u v c d =
    ground (arith, member-drop_target u v c (erase c d.wait_for), lookup-erase u c d.wait_for)

-- After a refusal the client waits for every other holder, and every other edge is as before.
pub waits-wait_on :
    (u v client : ℕ) (hs : List ℕ) (d : DeadlockDetector)
    → waits (wait_on client hs d) u v ≡ (
        if client == u
        then if client == v then waits d u v else if member v hs then true else waits d u v
        else waits d u v)
unfolding wait_on
waits-wait_on u v client [] d = ground arith
waits-wait_on u v client (h ∷ hs) d = ground (
  arith,
  waits-wait_on u v client hs (if h == client then d else add_wait client h d),
  waits-add_wait u v client h d,
)

module _ (d : DeadlockDetector) where
  max_by_age-cons :
      (best c : ℕ) (cs : List ℕ)
      → (max_by_age d best (c ∷ cs) ≡ max_by_age d c cs) × (age d best ≤ age d c)
        ⊎ (max_by_age d best (c ∷ cs) ≡ max_by_age d best cs) × (age d c ≤ age d best)
  unfolding max_by_age
  max_by_age-cons best c cs = elim (Bool-cases (ltb (age d best) (age d c))) [
    | inl e ↦ inl (rw e, ground arith)
    | inr e ↦ inr (rw e, ground arith)
  ]

  max_by_age-nil : (best : ℕ) → max_by_age d best [] ≡ best
  unfolding max_by_age
  max_by_age-nil best = refl

  -- `r` is one of `best` and `cs`, and none of these is younger.
  abbrev IsYoungest : ℕ → List ℕ → ℕ → Type 0
  IsYoungest best cs r =
      (age d best ≤ age d r) × All (λ c. age d c ≤ age d r) cs × (member r (best ∷ cs) ≡ true)

  max_by_age_lem : (best : ℕ) (cs : List ℕ) → IsYoungest best cs (max_by_age d best cs)
  max_by_age_lem best [] = rw max_by_age-nil (omega arith, tt, ground arith)
  max_by_age_lem best (c ∷ cs) = elim (max_by_age-cons best c cs) [
    | inl (e, le) ↦
        let (high, all, found) = max_by_age_lem c cs in
        subst (IsYoungest best (c ∷ cs)) (sym e)
          (omega (arith, high, le), (high, all), ground (arith, found))
    | inr (e, le) ↦
        let (high, all, found) = max_by_age_lem best cs in
        subst (IsYoungest best (c ∷ cs)) (sym e)
          (high, (omega (arith, high, le), all), ground (arith, found))
  ]

  -- The victim is a client of the cycle, and no client of the cycle is younger, that is, has a
  -- later first request; a cycle that is not empty has a victim.
  pub select_victim_youngest :
      (c : ℕ) (cs : List ℕ)
      → (v : ℕ) × (select_victim d (c ∷ cs) ≡ some v)
        × (member v (c ∷ cs) ≡ true)
        × All (λ x. age d x ≤ age d v) (c ∷ cs)
  unfolding select_victim
  select_victim_youngest c cs =
      let (high, all, found) = max_by_age_lem c cs in (max_by_age d c cs, refl, found, (high, all))
