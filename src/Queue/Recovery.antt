-- ===== src/Queue/Recovery.antt =====
-- The replay of the persistent log of tugas-3/src/nodes/queue_node.py.
use sistem_paralel_terdistri.Common.{Elem, List, [], arith, inl, inr, subst, true, ℕ, ◌∷◌, ◌≡◌}
use sistem_paralel_terdistri.Queue.Node.{apply_log_record, queue_at, replay}
use sistem_paralel_terdistri.Queue.Requeue.{has, has-push}
use sistem_paralel_terdistri.Queue.State.{
  QueueMessage, QueueNode, Record, acked, enqueued, replicated,
}

module _ {P : Type 0} where
  has-apply_log_record :
      (x q : ℕ) (rec : Record P) (n : QueueNode P)
      → has x (queue_at n.queues q) ≡ true
      → has x (queue_at (apply_log_record rec n).queues q) ≡ true
  unfolding apply_log_record
  has-apply_log_record x q (enqueued m) n h = ground (arith, h, has-push x q m n.queues)
  has-apply_log_record x q (replicated m) n h = h
  has-apply_log_record x q (acked i) n h = h

  has-replay :
      (x q : ℕ) (recs : List (Record P)) (n : QueueNode P)
      → has x (queue_at n.queues q) ≡ true
      → has x (queue_at (replay recs n).queues q) ≡ true
  unfolding replay
  has-replay x q [] n h = h
  has-replay x q (rec ∷ recs) n h =
      has-replay x q recs (apply_log_record rec n) (has-apply_log_record x q rec n h)

  -- After a restart every message that the log records as enqueued stands in its queue: none is
  -- lost, and the ones that the log also records as acknowledged are back too.
  pub replay_enqueued :
      (m : QueueMessage P) (recs : List (Record P)) (n : QueueNode P)
      → Elem (enqueued m) recs
      → has m.msg_id (queue_at (replay recs n).queues m.queue) ≡ true
  unfolding replay apply_log_record
  replay_enqueued m [] n e = absurd e
  replay_enqueued m (rec ∷ recs) n (inr e) = replay_enqueued m recs (apply_log_record rec n) e
  replay_enqueued m (rec ∷ recs) n (inl e) =
      has-replay m.msg_id m.queue recs (apply_log_record rec n) (
        subst (λ r. has m.msg_id (queue_at (apply_log_record r n).queues m.queue) ≡ true) e
          (ground (arith, has-push m.msg_id m.queue m n.queues)))
