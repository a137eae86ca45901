-- ===== src/Queue/Node.antt =====
-- The operations of `QueueNode`: tugas-3/src/nodes/queue_node.py. `now` is the clock's reading.
use sistem_paralel_terdistri.Common.{
  Bool, Dict, List, Option, [], erase, false, get_or, if◌then◌else◌, insert, is_empty, length,
  lookup, ltb, none, some, true, ℕ, ◌++◌, ◌+◌, ◌==◌, ◌∷◌,
}
use sistem_paralel_terdistri.Queue.Ring.{ConsistentHashRing, get_n_nodes}
use sistem_paralel_terdistri.Queue.State.{
  QueueMessage, QueueNode, Record, Sent, Stats, acked, enqueued, queue_ack, queue_dequeue,
  queue_enqueue, queue_replicate, replicated,
}

abbrev pub count_enqueued : ℕ → Stats → Stats
count_enqueued k s = record s { enqueued = s.enqueued + 1; replicated = s.replicated + k }

module _ {P : Type 0} where
  -- `self.queues.setdefault(q, deque())`
  abbrev pub queue_at : Dict (List (QueueMessage P)) → ℕ → List (QueueMessage P)
  queue_at queues q = get_or (lookup q queues) []

  -- `queue.append(msg)` on the message's own queue.
  unfoldable pub push : QueueMessage P → Dict (List (QueueMessage P)) → Dict (List (QueueMessage P))
  push msg queues = insert msg.queue (queue_at queues msg.queue ++ msg ∷ []) queues

  unfoldable pub apply_log_record : Record P → QueueNode P → QueueNode P
  apply_log_record (enqueued msg) n = record n { queues = push msg n.queues }
  apply_log_record (acked msg_id) n = record n { inflight = erase msg_id n.inflight }
  apply_log_record (replicated msg) n = record n { replicas = insert msg.msg_id msg n.replicas }

  -- The loop of `_on_start` over the records.
  unfoldable pub replay : List (Record P) → QueueNode P → QueueNode P
  replay [] n = n
  replay (rec ∷ recs) n = replay recs (apply_log_record rec n)

  -- The loop of `_on_peer_failure` over a snapshot of the replicas.
  unfoldable pub promote_replicas : ℕ → Dict (QueueMessage P) → QueueNode P → QueueNode P
  promote_replicas peer [] n = n
  promote_replicas peer ((msg_id, msg) ∷ rs) n = promote_replicas peer rs (
      if msg.primary_node == peer
      then record n {
        queues = push (record msg { primary_node = n.node_id }) n.queues;
        replicas = erase msg_id n.replicas;
      }
      else n)

  unfoldable pub on_peer_failure : ℕ → QueueNode P → QueueNode P
  on_peer_failure peer n = promote_replicas peer n.replicas n

  unfoldable pub store_local : QueueMessage P → QueueNode P → QueueNode P
  store_local msg n = record n { queues = push msg n.queues; log = n.log ++ enqueued msg ∷ [] }

  -- `_handle_enqueue`
  abbrev pub handle_enqueue : QueueMessage P → QueueNode P → QueueNode P
  handle_enqueue msg n = store_local msg n

  unfoldable pub handle_replicate : QueueMessage P → QueueNode P → QueueNode P
  handle_replicate msg n = record n {
    replicas = insert msg.msg_id msg n.replicas;
    log = n.log ++ replicated msg ∷ [];
  }

  -- The loop of `enqueue` over the replica nodes.
  unfoldable pub send_replicas : QueueMessage P → List ℕ → QueueNode P → QueueNode P × Sent P
  send_replicas msg [] n = (n, [])
  send_replicas msg (r ∷ rs) n =
      let (n1, sent1) =
        send_replicas msg rs (if r == n.node_id then handle_replicate msg n else n) in
      if r == n.node_id then (n1, sent1) else (n1, (r, queue_replicate msg) ∷ sent1)

  -- `enqueue` with the nodes that `get_n_nodes` returned, and the message that it builds.
  unfoldable pub enqueue_at : ℕ → ℕ → ℕ → ℕ → P → List ℕ → QueueNode P → QueueNode P × Sent P × Bool
  enqueue_at now uuid queue key payload [] n = (n, [], false)
  enqueue_at now uuid queue key payload (primary ∷ replicas) n =
      let msg : QueueMessage P = record {
        msg_id = uuid;
        queue = queue;
        partition_key = key;
        payload = payload;
        timestamp = now;
        delivery_count = 0;
        visibility_timeout_until = 0;
        primary_node = primary;
        replicas = replicas;
      } in
      let (n1, sent1) : QueueNode P × Sent P =
        if primary == n.node_id
        then (store_local msg n, [])
        else (n, (primary, queue_enqueue msg) ∷ []) in
      let (n2, sent2) = send_replicas msg replicas n1 in
      (record n2 { stats = count_enqueued (length replicas) n2.stats }, sent1 ++ sent2, true)

  -- `enqueue`; an absent partition key is the message id.
  unfoldable pub enqueue :
      (ℕ → ℕ)
      → ConsistentHashRing
      → ℕ
      → ℕ
      → ℕ
      → P
      → Option ℕ
      → QueueNode P
      → QueueNode P × Sent P × Bool
  enqueue hash_key ring now uuid queue payload partition_key n =
      let key = get_or partition_key uuid in
      enqueue_at now uuid queue key payload (get_n_nodes hash_key key n.replication_factor ring) n

  -- The loop of `_pop_local`: the first visible message, and the deque after it. Messages in front
  -- of it move to the end.
  unfoldable pub rotate :
      ℕ
      → List (QueueMessage P)
      → List (QueueMessage P)
      → List (QueueMessage P) × Option (QueueMessage P)
  rotate now [] back = (back, none)
  rotate now (msg ∷ q) back =
      let later = rotate now q (back ++ msg ∷ []) in
      if ltb now msg.visibility_timeout_until then later else (q ++ back, some msg)

  -- The message as it is delivered.
  abbrev pub delivered : ℕ → QueueMessage P → QueueMessage P
  delivered until msg = record msg {
    delivery_count = msg.delivery_count + 1;
    visibility_timeout_until = until;
  }

  unfoldable pub take_message :
      ℕ
      → ℕ
      → List (QueueMessage P) × Option (QueueMessage P)
      → QueueNode P
      → QueueNode P × Option (QueueMessage P)
  take_message now q (left, none) n = (record n { queues = insert q left n.queues }, none)
  take_message now q (left, some msg) n = (
    record n {
      queues = insert q left n.queues;
      inflight = insert msg.msg_id (delivered (now + n.visibility_timeout) msg) n.inflight;
      stats = record n.stats { dequeued = n.stats.dequeued + 1 };
    },
    some (delivered (now + n.visibility_timeout) msg),
  )

  -- `if not q` also holds of an empty deque.
  unfoldable pub pop_local : ℕ → ℕ → QueueNode P → QueueNode P × Option (QueueMessage P)
  pop_local now q n =
      if is_empty (queue_at n.queues q)
      then (n, none)
      else take_message now q (rotate now (queue_at n.queues q) []) n

  -- The loop of `_requeue_expired_inflight` over a snapshot of the inflight messages.
  unfoldable pub requeue_each : ℕ → Dict (QueueMessage P) → QueueNode P → QueueNode P
  requeue_each now [] n = n
  requeue_each now ((msg_id, msg) ∷ ms) n = requeue_each now ms (
      if ltb msg.visibility_timeout_until now
      then record n {
        inflight = erase msg_id n.inflight;
        queues = push (record msg { visibility_timeout_until = 0 }) n.queues;
        stats = record n.stats { redelivered = n.stats.redelivered + 1 };
      }
      else n)

  unfoldable pub requeue_expired_inflight : ℕ → QueueNode P → QueueNode P
  requeue_expired_inflight now n = requeue_each now n.inflight n

  unfoldable pub ask_peers : ℕ → List ℕ → Sent P
  ask_peers q [] = []
  ask_peers q (p ∷ ps) = (p, queue_dequeue q) ∷ ask_peers q ps

  unfoldable pub dequeue : ℕ → ℕ → ℕ → QueueNode P → QueueNode P × Sent P × Option (QueueMessage P)
  dequeue now now' q n =
      let (n', got) = pop_local now' q (requeue_expired_inflight now n) in
      elim got [ none ↦ (n', ask_peers q n'.peers, none) | some msg ↦ (n', [], some msg) ]

  -- `_handle_dequeue`
  unfoldable pub handle_dequeue : ℕ → ℕ → ℕ → QueueNode P → QueueNode P × Sent P
  handle_dequeue now sender q n =
      let (n', got) = pop_local now q n in
      elim got [ none ↦ (n', []) | some msg ↦ (n', (sender, queue_enqueue msg) ∷ []) ]

  -- The loop of `ack` over the message's replicas.
  unfoldable pub notify : ℕ → List ℕ → QueueNode P → QueueNode P × Sent P
  notify msg_id [] n = (n, [])
  notify msg_id (r ∷ rs) n =
      let (n1, sent1) =
        notify msg_id rs
          (if r == n.node_id then record n { replicas = erase msg_id n.replicas } else n) in
      if r == n.node_id then (n1, sent1) else (n1, (r, queue_ack msg_id) ∷ sent1)

  unfoldable pub ack : ℕ → QueueNode P → QueueNode P × Sent P × Bool
  ack msg_id n = elim (lookup msg_id n.inflight) [
    | none ↦ (n, [], false)
    | some msg ↦
        let (n1, sent1) = notify msg_id msg.replicas (record n {
          inflight = erase msg_id n.inflight;
          log = n.log ++ acked msg_id ∷ [];
          stats = record n.stats { acked = n.stats.acked + 1 };
        }) in
        (n1, sent1, true)
  ]

  unfoldable pub handle_ack : ℕ → QueueNode P → QueueNode P
  handle_ack msg_id n = record n {
    replicas = erase msg_id n.replicas;
    log = n.log ++ acked msg_id ∷ [];
  }
