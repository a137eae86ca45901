-- ===== src/Raft/Cluster.antt =====
-- A cluster of Raft nodes on the message bus (tugas-3/src/consensus/raft.py with
-- tugas-3/src/communication/message_passing.py). The bus may lose, repeat and reorder: every
-- message that was ever sent can be delivered to its receiver at any time, or never.
use sistem_paralel_terdistri.Common.{
  Elem, List, [], if◌then◌else◌, length, member, some, true, ℕ, ◌++◌, ◌+◌, ◌==◌, ◌∷◌, ◌≡◌,
}
use sistem_paralel_terdistri.Raft.Handlers.{handle, submit, tick}
use sistem_paralel_terdistri.Raft.State.{
  Effect, Message, Outcome, RaftNode, call, index_error, init, resolve, send,
}

module _ {C : Type 0} where
  -- The messages among a handler's effects, with their receivers.
  unfoldable pub messages : List (Effect C) → List (ℕ × Message C)
  messages [] = []
  messages (send to m ∷ es) = (to, m) ∷ messages es
  messages (call c ∷ es) = messages es
  messages (resolve i ∷ es) = messages es
  messages (index_error ∷ es) = messages es

pub record Cluster (C : Type 0) : Type 0 where
  pub nodes : ℕ → RaftNode C
  pub sent : List (ℕ × Message C)

module _ {C : Type 0} where
  abbrev pub update : (ℕ → RaftNode C) → ℕ → RaftNode C → ℕ → RaftNode C
  update nodes i n j = if i == j then n else nodes j

  -- The cluster after node `i` has run a handler.
  abbrev pub after : Cluster C → ℕ → Outcome C → Cluster C
  after s i (n, effects) = record { nodes = update s.nodes i n; sent = messages effects ++ s.sent }

  pub data Step (members : List ℕ) (s : Cluster C) : Cluster C → Type 0 where
    deliver :
        (i deadline : ℕ) (m : Message C)
        → member i members ≡ true
        → Elem (i, m) s.sent
        → Step members s (after s i (handle deadline m (s.nodes i)))
    ticks :
        (i now deadline : ℕ)
        → member i members ≡ true
        → Step members s (after s i (tick now deadline (s.nodes i)))
    submits :
        (i : ℕ) (command : C) (o : Outcome C)
        → member i members ≡ true
        → submit command (s.nodes i) ≡ some o
        → Step members s (after s i o)

  pub data Reach (members : List ℕ) (s : Cluster C) : Cluster C → Type 0 where
    here : Reach members s s
    next : {t u : Cluster C} → Reach members s t → Step members t u → Reach members s u

  -- Every node as `__init__` leaves it, and nothing sent. A node's peers are the other members.
  pub record IsInitial (members : List ℕ) (s : Cluster C) : Type 0 where
    pub quiet : s.sent ≡ []
    pub fresh :
        (i : ℕ)
        → member i members ≡ true
        → (peers : List ℕ) × (deadline : ℕ) × (s.nodes i ≡ init i peers deadline)
          × (length peers + 1 ≡ length members)
