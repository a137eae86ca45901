-- ===== src/Cache/State.antt =====
-- The state of `CacheNode` and its messages: tugas-3/src/nodes/cache_node.py.
use sistem_paralel_terdistri.Common.{Bool, Dict, List, [], false, true, ℕ}
use sistem_paralel_terdistri.Cache.Policy.{Policy}

pub data MesiState : Type 0 where
  modified exclusive shared invalid : MesiState

-- `a == b` on states.
abbrev pub is_mesi : MesiState → MesiState → Bool
is_mesi modified modified = true
is_mesi exclusive exclusive = true
is_mesi shared shared = true
is_mesi invalid invalid = true
is_mesi a b = false

pub record CacheLine (V : Type 0) : Type 0 where
  pub key : ℕ
  pub value : V
  pub state : MesiState
  pub version : ℕ
  pub last_access : ℕ
  pub access_count : ℕ

-- The counters of the node.
pub record Metrics : Type 0 where
  pub hits : ℕ
  pub misses : ℕ
  pub invalidations : ℕ
  pub evictions : ℕ
  pub writebacks : ℕ

pub record CacheNode (V : Type 0) : Type 0 where
  pub node_id : ℕ
  pub peers : List ℕ
  pub max_size : ℕ
  pub cache : Dict (CacheLine V)
  pub policy : Policy
  pub pending_reads : List ℕ
  pub metrics : Metrics

-- The payloads on the bus.
pub data Message (V : Type 0) : Type 0 where
  cache_fetch cache_invalidate : ℕ → Message V
  cache_response : (key : ℕ) (value : V) (version : ℕ) (shared : Bool) → Message V

-- `CacheNode.__init__` with the policy that it chooses.
abbrev pub init : {V : Type 0} → ℕ → List ℕ → ℕ → Policy → CacheNode V
init node_id peers max_size policy = record {
  node_id = node_id;
  peers = peers;
  max_size = max_size;
  cache = [];
  policy = policy;
  pending_reads = [];
  metrics = record { hits = 0; misses = 0; invalidations = 0; evictions = 0; writebacks = 0 };
}
