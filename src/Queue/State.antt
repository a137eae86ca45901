-- ===== src/Queue/State.antt =====
-- The state of a queue node and its messages on the bus: tugas-3/src/nodes/queue_node.py. Message
-- ids, queue names, partition keys and nodes are identifiers, times are clock ticks, and payloads
-- have a type of their own.
use sistem_paralel_terdistri.Common.{Dict, List, [], ℕ}

pub record QueueMessage (P : Type 0) : Type 0 where
  pub msg_id : ℕ
  pub queue : ℕ
  pub partition_key : ℕ
  pub payload : P
  pub timestamp : ℕ
  pub delivery_count : ℕ
  pub visibility_timeout_until : ℕ
  pub primary_node : ℕ
  pub replicas : List ℕ

-- The records of `PersistentLog`.
pub data Record (P : Type 0) : Type 0 where
  enqueued replicated : QueueMessage P → Record P
  acked : ℕ → Record P

-- The `stats` counters, in the source's order.
pub record Stats : Type 0 where
  pub enqueued : ℕ
  pub dequeued : ℕ
  pub acked : ℕ
  pub redelivered : ℕ
  pub replicated : ℕ

pub record QueueNode (P : Type 0) : Type 0 where
  pub node_id : ℕ
  pub peers : List ℕ
  pub replication_factor : ℕ
  pub visibility_timeout : ℕ
  pub queues : Dict (List (QueueMessage P))
  pub inflight : Dict (QueueMessage P)
  pub replicas : Dict (QueueMessage P)
  pub log : List (Record P)
  pub stats : Stats

-- The payloads on the bus, with the message types' names.
pub data Message (P : Type 0) : Type 0 where
  queue_enqueue queue_replicate : QueueMessage P → Message P
  queue_dequeue queue_ack : ℕ → Message P

-- A message with its receiver.
abbrev pub Sent : Type 0 → Type 0
Sent P = List (ℕ × Message P)

abbrev pub no_stats : Stats
no_stats = record { enqueued = 0; dequeued = 0; acked = 0; redelivered = 0; replicated = 0 }

-- `__init__`, without the ring.
abbrev pub init : {P : Type 0} → ℕ → List ℕ → ℕ → ℕ → QueueNode P
init node_id peers replication_factor visibility_timeout = record {
  node_id = node_id;
  peers = peers;
  replication_factor = replication_factor;
  visibility_timeout = visibility_timeout;
  queues = [];
  inflight = [];
  replicas = [];
  log = [];
  stats = no_stats;
}
