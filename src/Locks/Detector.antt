-- ===== src/Locks/Detector.antt =====
-- `DeadlockDetector` of tugas-3/src/nodes/lock_manager.py: the wait-for graph, and the choice
-- of a victim.
use sistem_paralel_terdistri.Common.{
  ℕ, List, [], ◌∷◌, Option, none, some, Dict, lookup, contains, insert, erase, is_empty, add,
  discard, get_or, ◌==◌, ltb, if◌then◌else◌,
}

pub record DeadlockDetector : Type 0 where
  pub wait_for : Dict (List ℕ)
  pub client_age : Dict ℕ

abbrev pub no_waits : DeadlockDetector
no_waits = record { wait_for = []; client_age = [] }

-- `self.wait_for.get(u, set())`
abbrev pub targets : Dict (List ℕ) → ℕ → List ℕ
targets wait_for u = get_or (lookup u wait_for) []

unfoldable pub add_wait : ℕ → ℕ → DeadlockDetector → DeadlockDetector
add_wait waiter holder d =
    if waiter == holder
    then d
    else record d { wait_for = insert waiter (add holder (targets d.wait_for waiter)) d.wait_for }

-- The loop of `remove_client` over the remaining waiters.
unfoldable pub drop_target : ℕ → Dict (List ℕ) → Dict (List ℕ)
drop_target client [] = []
drop_target client ((w, hs) ∷ d) =
    let rest = drop_target client d in
    if is_empty (discard client hs) then erase w rest else (w, discard client hs) ∷ rest

unfoldable pub remove_client : ℕ → DeadlockDetector → DeadlockDetector
remove_client client d = record {
  wait_for = drop_target client (erase client d.wait_for);
  client_age = erase client d.client_age;
}

unfoldable pub set_client_age : ℕ → ℕ → DeadlockDetector → DeadlockDetector
set_client_age client ts d =
    if contains client d.client_age
    then d
    else record d { client_age = insert client ts d.client_age }

-- `self.client_age.get(c, 0.0)`
abbrev pub age : DeadlockDetector → ℕ → ℕ
age d c = get_or (lookup c d.client_age) 0

-- `max(cycle, key=age)`: the first of the greatest.
unfoldable pub max_by_age : DeadlockDetector → ℕ → List ℕ → ℕ
max_by_age d best [] = best
max_by_age d best (c ∷ cs) = max_by_age d (if ltb (age d best) (age d c) then c else best) cs

-- Python raises `ValueError` on an empty list.
unfoldable pub select_victim : DeadlockDetector → List ℕ → Option ℕ
select_victim d [] = none
select_victim d (c ∷ cs) = some (max_by_age d c cs)
