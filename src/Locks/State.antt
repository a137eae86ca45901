-- ===== src/Locks/State.antt =====
-- The lock table entries of tugas-3/src/nodes/lock_manager.py: `LockMode`, `LockHolder`,
-- `LockRequest` and `LockState`. Clients, resources and request ids are identifiers; times and
-- leases are counted in clock ticks.
use sistem_paralel_terdistri.Common.{
  ℕ, Bool, true, false, not, List, [], ◌∷◌, Option, none, some, Dict, values, is_empty,
  if◌then◌else◌,
}

pub data LockMode : Type 0 where
  shared exclusive : LockMode

-- `a == b` on modes.
abbrev pub same_mode : LockMode → LockMode → Bool
same_mode shared shared = true
same_mode exclusive exclusive = true
same_mode a b = false

pub record LockHolder : Type 0 where
  pub client_id : ℕ
  pub mode : LockMode
  pub acquired_at : ℕ
  pub lease_until : ℕ

pub record LockRequest : Type 0 where
  pub request_id : ℕ
  pub client_id : ℕ
  pub resource : ℕ
  pub mode : LockMode
  pub timestamp : ℕ

pub record LockState : Type 0 where
  pub resource : ℕ
  pub holders : Dict LockHolder
  pub waiters : List LockRequest

-- `LockState(resource=resource)`
abbrev pub empty_lock : ℕ → LockState
empty_lock resource = record { resource = resource; holders = []; waiters = [] }

unfoldable pub is_held : LockState → Bool
is_held s = not (is_empty s.holders)

-- The loop of `mode`: exclusive if any holder is.
unfoldable pub strongest : List LockHolder → LockMode
strongest [] = shared
strongest (h ∷ hs) = if same_mode h.mode exclusive then exclusive else strongest hs

unfoldable pub lock_mode : LockState → Option LockMode
lock_mode s = if is_empty s.holders then none else some (strongest (values s.holders))

-- `state.mode == m`
abbrev pub mode_is : Option LockMode → LockMode → Bool
mode_is none m = false
mode_is (some k) m = same_mode k m
