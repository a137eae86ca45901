-- ===== src/Queue/Kept.antt =====
-- No operation of tugas-3/src/nodes/queue_node.py but an acknowledgement drops a message.
use sistem_paralel_terdistri.Common.{
  All, AllEntries-erase, Bool-cases, List, Option-cases, [], arith, contains-erase, erase, false,
  get_or, inl, inr, lookup, refl, true, ℕ, ◌++◌, ◌+◌, ◌==◌, ◌∷◌, ◌≡◌,
}
use sistem_paralel_terdistri.Queue.Node.{
  ack, dequeue, enqueue, enqueue_at, handle_ack, handle_dequeue, handle_replicate, notify,
  on_peer_failure, pop_local, push, queue_at, requeue_expired_inflight, send_replicas, store_local,
}
use sistem_paralel_terdistri.Queue.Requeue.{IsKeyed, has, has-push}
use sistem_paralel_terdistri.Queue.Ring.{ConsistentHashRing}
use sistem_paralel_terdistri.Queue.Runs.{
  Call, Holds, Keeps, Keeps-push, Keeps-same, acknowledges, acks, dequeues, enqueues, expires,
  fails, forgets, notify_same, pop_local-Keeps, promote_replicas-Keeps, replicates,
  requeue_expired_inflight-Keeps, run, run_all, send_replicas_same, serves, stores,
}
use sistem_paralel_terdistri.Queue.State.{QueueMessage, QueueNode, acked}

module _ {P : Type 0} where
  send_replicas-Keeps :
      (x : ℕ) (m : QueueMessage P) (rs : List ℕ) (n : QueueNode P)
      → Keeps x n
      → Keeps x (send_replicas m rs n).0
  send_replicas-Keeps x m rs n k =
      let (e, f) = send_replicas_same m rs n in Keeps-same x n (send_replicas m rs n).0 e f k

  store_local-Keeps :
      (x : ℕ) (m : QueueMessage P) (n : QueueNode P) → Keeps x n → Keeps x (store_local m n)
  unfolding store_local
  store_local-Keeps x m n k = Keeps-push x m n (store_local m n) refl refl k

  enqueue_at-Keeps :
      (now uuid q key x : ℕ) (p : P) (nodes : List ℕ) (n : QueueNode P)
      → Keeps x n
      → Keeps x (enqueue_at now uuid q key p nodes n).0
  unfolding enqueue_at
  enqueue_at-Keeps now uuid q key x p [] n k = k
  enqueue_at-Keeps now uuid q key x p (primary ∷ replicas) n k =
      elim (Bool-cases (primary == n.node_id)) [
        | inl e ↦ rw e (send_replicas-Keeps x _ replicas _ (store_local-Keeps x _ n k))
        | inr e ↦ rw e (send_replicas-Keeps x _ replicas n k)
      ]

  dequeue-Keeps :
      (now now' q x : ℕ) (n : QueueNode P) → Keeps x n → Keeps x (dequeue now now' q n).0
  unfolding dequeue
  dequeue-Keeps now now' q x n k =
      let n1 = requeue_expired_inflight now n in
      let done = pop_local-Keeps now' q x n1 (requeue_expired_inflight-Keeps now x n k) in
      elim (Option-cases (pop_local now' q n1).1) [
        | inl e ↦ rw (e, dequeue) done
        | inr (m, e) ↦ rw (e, dequeue) done
      ]

  handle_dequeue-Keeps :
      (now sender q x : ℕ) (n : QueueNode P) → Keeps x n → Keeps x (handle_dequeue now sender q n).0
  unfolding handle_dequeue
  handle_dequeue-Keeps now sender q x n k =
      let done = pop_local-Keeps now q x n k in
      elim (Option-cases (pop_local now q n).1) [
        | inl e ↦ rw (e, handle_dequeue) done
        | inr (m, e) ↦ rw (e, handle_dequeue) done
      ]

  Keeps-erase :
      (i x : ℕ) (n n' : QueueNode P)
      → (i == x) ≡ false
      → n'.queues ≡ n.queues
      → n'.inflight ≡ erase i n.inflight
      → Keeps x n
      → Keeps x n'
  Keeps-erase i x n n' ne e f (k, keyed) =
      Keeps-same x (record n { inflight = erase i n.inflight }) n' e f
        (
          elim k [
            | inl h ↦ inl h
            | inr h ↦ inr (ground (arith, ne, h, contains-erase x i n.inflight))
          ],
          AllEntries-erase (λ k m. m.msg_id ≡ k) i n.inflight keyed,
        )

  ack-Keeps : (i x : ℕ) (n : QueueNode P) → (i == x) ≡ false → Keeps x n → Keeps x (ack i n).0
  unfolding ack
  ack-Keeps i x n ne k = elim (Option-cases (lookup i n.inflight)) [
    | inl e ↦ rw (e, ack) k
    | inr (m, e) ↦
        let n1 : QueueNode P = record n {
          inflight = erase i n.inflight;
          log = n.log ++ acked i ∷ [];
          stats = record n.stats { acked = n.stats.acked + 1 };
        } in
        let (same, same') = notify_same i m.replicas n1 in
        rw (e, ack) (Keeps-erase i x n (notify i m.replicas n1).0 ne same same' k)
  ]

  run-Keeps :
      (hash_key : ℕ → ℕ) (ring : ConsistentHashRing) (x : ℕ) (c : Call P) (n : QueueNode P)
      → acknowledges x c ≡ false
      → Keeps x n
      → Keeps x (run hash_key ring c n)
  unfolding run enqueue handle_replicate handle_ack on_peer_failure
  run-Keeps hash_key ring x (enqueues now uuid q p key) n e k =
      enqueue_at-Keeps now uuid q (get_or key uuid) x p _ n k
  run-Keeps hash_key ring x (stores m) n e k = store_local-Keeps x m n k
  run-Keeps hash_key ring x (replicates m) n e k = k
  run-Keeps hash_key ring x (dequeues now now' q) n e k = dequeue-Keeps now now' q x n k
  run-Keeps hash_key ring x (serves now sender q) n e k = handle_dequeue-Keeps now sender q x n k
  run-Keeps hash_key ring x (acks i) n e k = ack-Keeps i x n e k
  run-Keeps hash_key ring x (forgets i) n e k = k
  run-Keeps hash_key ring x (expires now) n e k = requeue_expired_inflight-Keeps now x n k
  run-Keeps hash_key ring x (fails p) n e k = promote_replicas-Keeps p x n.replicas n k

  run_all-Keeps :
      (hash_key : ℕ → ℕ) (ring : ConsistentHashRing) (x : ℕ) (cs : List (Call P)) (n : QueueNode P)
      → All (λ c. acknowledges x c ≡ false) cs
      → Keeps x n
      → Keeps x (run_all hash_key ring cs n)
  unfolding run_all
  run_all-Keeps hash_key ring x [] n h k = k
  run_all-Keeps hash_key ring x (c ∷ cs) n h k =
      run_all-Keeps hash_key ring x cs (run hash_key ring c n) h.1
        (run-Keeps hash_key ring x c n h.0 k)

  -- A message that a node with well-filed inflight messages stores is held, in a queue or inflight,
  -- through every run of operations and handlers that does not acknowledge it.
  pub stored_until_acknowledged :
      (hash_key : ℕ → ℕ) (ring : ConsistentHashRing) (m : QueueMessage P) (cs : List (Call P))
      (n : QueueNode P)
      → IsKeyed n.inflight
      → All (λ c. acknowledges m.msg_id c ≡ false) cs
      → let n' = run_all hash_key ring cs (store_local m n) in Holds m.msg_id n'.queues n'.inflight
  unfolding store_local
  stored_until_acknowledged hash_key ring m cs n keyed h =
      let held : has m.msg_id (queue_at (push m n.queues) m.queue) ≡ true =
        ground (arith, has-push m.msg_id m.queue m n.queues) in
      (run_all-Keeps hash_key ring m.msg_id cs (store_local m n) h (inl (m.queue, held), keyed)).0
