-- ===== src/Queue/Runs.antt =====
-- Runs of a queue node (tugas-3/src/nodes/queue_node.py): a message that it stores is held until it
-- is acknowledged.
use sistem_paralel_terdistri.Common.{
  AllEntries-erase, AllEntries-insert, Bool, Bool-cases, Dict, List, Option, [], arith, contains,
  contains-erase, contains-insert, erase, false, if◌then◌else◌, inl, inr, insert, is_empty,
  lookup-insert, ltb, none, refl, some, subst, sym, true, ℕ, ◌++◌, ◌+◌, ◌==◌, ◌||◌, ◌∙◌, ◌∷◌, ◌≡◌,
  ◌⊎◌,
}
use sistem_paralel_terdistri.Queue.Node.{
  ack, delivered, dequeue, enqueue, handle_ack, handle_dequeue, handle_enqueue, handle_replicate,
  notify, on_peer_failure, pop_local, promote_replicas, push, queue_at, requeue_each,
  requeue_expired_inflight, rotate, send_replicas, take_message,
}
use sistem_paralel_terdistri.Queue.Requeue.{
  IsKeyed, early_round, has, has-append, has-push, late_round, requeue,
}
use sistem_paralel_terdistri.Queue.Ring.{ConsistentHashRing}
use sistem_paralel_terdistri.Queue.State.{QueueMessage, QueueNode}

-- The operations and handlers of a node, with what each reads.
pub data Call (P : Type 0) : Type 0 where
  enqueues : (now uuid queue : ℕ) (payload : P) (partition_key : Option ℕ) → Call P
  stores replicates : QueueMessage P → Call P
  dequeues serves : (now now' q : ℕ) → Call P
  acks forgets expires fails : ℕ → Call P

module _ {P : Type 0} where
  unfoldable pub run : (ℕ → ℕ) → ConsistentHashRing → Call P → QueueNode P → QueueNode P
  run hash_key ring (enqueues now uuid q p key) n = (enqueue hash_key ring now uuid q p key n).0
  run hash_key ring (stores m) n = handle_enqueue m n
  run hash_key ring (replicates m) n = handle_replicate m n
  run hash_key ring (dequeues now now' q) n = (dequeue now now' q n).0
  run hash_key ring (serves now sender q) n = (handle_dequeue now sender q n).0
  run hash_key ring (acks i) n = (ack i n).0
  run hash_key ring (forgets i) n = handle_ack i n
  run hash_key ring (expires now) n = requeue_expired_inflight now n
  run hash_key ring (fails p) n = on_peer_failure p n

  unfoldable pub run_all : (ℕ → ℕ) → ConsistentHashRing → List (Call P) → QueueNode P → QueueNode P
  run_all hash_key ring [] n = n
  run_all hash_key ring (c ∷ cs) n = run_all hash_key ring cs (run hash_key ring c n)

  -- The call acknowledges the message.
  abbrev pub acknowledges : ℕ → Call P → Bool
  acknowledges x (acks i) = i == x
  acknowledges x c = false

  -- The message waits in a queue or is inflight.
  abbrev pub Holds : ℕ → Dict (List (QueueMessage P)) → Dict (QueueMessage P) → Type 0
  Holds x queues inflight =
      ((q : ℕ) × (has x (queue_at queues q) ≡ true)) ⊎ (contains x inflight ≡ true)

  -- The node holds the message, and its inflight messages are filed under their ids.
  abbrev pub Keeps : ℕ → QueueNode P → Type 0
  Keeps x n = Holds x n.queues n.inflight × IsKeyed n.inflight

  pub Keeps-same :
      (x : ℕ) (n n' : QueueNode P)
      → n'.queues ≡ n.queues
      → n'.inflight ≡ n.inflight
      → Keeps x n
      → Keeps x n'
  Keeps-same x n n' e f k =
      subst (λ i. Holds x n'.queues i × IsKeyed i) (sym f)
        (subst (λ q. Holds x q n.inflight × IsKeyed n.inflight) (sym e) k)

  pub Keeps-push :
      (x : ℕ) (m : QueueMessage P) (n n' : QueueNode P)
      → n'.queues ≡ push m n.queues
      → n'.inflight ≡ n.inflight
      → Keeps x n
      → Keeps x n'
  Keeps-push x m n n' e f (inl (q, h), keyed) =
      Keeps-same x (record n { queues = push m n.queues }) n' e f
        (inl (q, ground (arith, h, has-push x q m n.queues)), keyed)
  Keeps-push x m n n' e f (inr h, keyed) =
      Keeps-same x (record n { queues = push m n.queues }) n' e f (inr h, keyed)

  abbrev got_is : ℕ → Option (QueueMessage P) → Bool
  got_is x none = false
  got_is x (some m) = m.msg_id == x

  has-rotate :
      (now x : ℕ) (q back : List (QueueMessage P))
      → (has x (rotate now q back).0 || got_is x (rotate now q back).1) ≡ (has x back || has x q)
  unfolding rotate
  has-rotate now x [] back = ground arith
  has-rotate now x (m ∷ q) back = elim (Bool-cases (ltb now m.visibility_timeout_until)) [
    | inl e ↦
        rw e (has-rotate now x q (back ++ m ∷ []) ∙ ground (arith, has-append x back (m ∷ [])))
    | inr e ↦ rw e (ground (arith, has-append x q back))
  ]

  has-insert :
      (x q p : ℕ) (l : List (QueueMessage P)) (d : Dict (List (QueueMessage P)))
      → has x (queue_at (insert q l d) p) ≡ (if q == p then has x l else has x (queue_at d p))
  has-insert x q p l d = ground (arith, lookup-insert p q l d)

  pub take_message-Keeps :
      (now q x : ℕ) (r : List (QueueMessage P) × Option (QueueMessage P)) (n : QueueNode P)
      → (has x r.0 || got_is x r.1) ≡ has x (queue_at n.queues q)
      → Keeps x n
      → Keeps x (take_message now q r n).0
  unfolding take_message
  take_message-Keeps now q x (left, none) n e (inl (p, h), keyed) =
      (inl (p, ground (arith, e, h, has-insert x q p left n.queues)), keyed)
  take_message-Keeps now q x (left, none) n e (inr h, keyed) = (inr h, keyed)
  take_message-Keeps now q x (left, some m) n e (k, keyed) =
      let d = delivered (now + n.visibility_timeout) m in
      let filed = contains-insert x m.msg_id d n.inflight in
      (
        elim k [
          | inr h ↦ inr (ground (arith, h, filed))
          | inl (p, h) ↦ elim (Bool-cases (has x (queue_at (insert q left n.queues) p))) [
            | inl f ↦ inl (p, f)
            | inr f ↦ inr (ground (arith, e, h, f, has-insert x q p left n.queues, filed))
          ]
        ],
        AllEntries-insert (λ k m. m.msg_id ≡ k) m.msg_id d n.inflight refl keyed,
      )

  pub pop_local-Keeps : (now q x : ℕ) (n : QueueNode P) → Keeps x n → Keeps x (pop_local now q n).0
  unfolding pop_local
  pop_local-Keeps now q x n k = elim (Bool-cases (is_empty (queue_at n.queues q))) [
    | inl e ↦ rw (e, pop_local) k
    | inr e ↦
        rw (e, pop_local)
          (take_message-Keeps now q x (rotate now (queue_at n.queues q) []) n
            (has-rotate now x (queue_at n.queues q) []) k)
  ]

  requeue-Keeps :
      (j x : ℕ) (m : QueueMessage P) (n : QueueNode P)
      → m.msg_id ≡ j
      → Keeps x n
      → Keeps x (requeue j m n)
  requeue-Keeps j x m n e (k, keyed) =
      let m' : QueueMessage P = record m { visibility_timeout_until = 0 } in
      (
        elim k [
          | inl (p, h) ↦ inl (p, ground (arith, h, has-push x p m' n.queues))
          | inr h ↦ elim (Bool-cases (j == x)) [
            | inl f ↦ inl (m.queue, ground (arith, e, f, has-push x m.queue m' n.queues))
            | inr f ↦ inr (ground (arith, h, f, contains-erase x j n.inflight))
          ]
        ],
        AllEntries-erase (λ k m. m.msg_id ≡ k) j n.inflight keyed,
      )

  requeue_each-Keeps :
      (now x : ℕ) (ms : Dict (QueueMessage P)) (n : QueueNode P)
      → IsKeyed ms
      → Keeps x n
      → Keeps x (requeue_each now ms n)
  unfolding requeue_each
  requeue_each-Keeps now x [] n km k = k
  requeue_each-Keeps now x ((j, m) ∷ ms) n km k =
      elim (Bool-cases (ltb m.visibility_timeout_until now)) [
        | inl e ↦
            rw (late_round now j m ms n e)
              (requeue_each-Keeps now x ms (requeue j m n) km.1 (requeue-Keeps j x m n km.0 k))
        | inr e ↦ rw (early_round now j m ms n e) (requeue_each-Keeps now x ms n km.1 k)
      ]

  pub requeue_expired_inflight-Keeps :
      (now x : ℕ) (n : QueueNode P) → Keeps x n → Keeps x (requeue_expired_inflight now n)
  unfolding requeue_expired_inflight
  requeue_expired_inflight-Keeps now x n k = requeue_each-Keeps now x n.inflight n k.1 k

  pub promote_replicas-Keeps :
      (peer x : ℕ) (ms : Dict (QueueMessage P)) (n : QueueNode P)
      → Keeps x n
      → Keeps x (promote_replicas peer ms n)
  unfolding promote_replicas
  promote_replicas-Keeps peer x [] n k = k
  promote_replicas-Keeps peer x ((j, m) ∷ ms) n k =
      promote_replicas-Keeps peer x ms _ (elim (Bool-cases (m.primary_node == peer)) [
        | inl e ↦ rw e (
            Keeps-push x (record m { primary_node = n.node_id }) n
              (record n {
                queues = push (record m { primary_node = n.node_id }) n.queues;
                replicas = erase j n.replicas;
              })
              refl refl k)
        | inr e ↦ rw e k
      ])

  pub send_replicas_same :
      (m : QueueMessage P) (rs : List ℕ) (n : QueueNode P)
      → let n' = (send_replicas m rs n).0 in (n'.queues ≡ n.queues) × (n'.inflight ≡ n.inflight)
  unfolding send_replicas handle_replicate
  send_replicas_same m [] n = (refl, refl)
  send_replicas_same m (r ∷ rs) n = elim (Bool-cases (r == n.node_id)) [
    | inl e ↦ rw e (send_replicas_same m rs (handle_replicate m n))
    | inr e ↦ rw e (send_replicas_same m rs n)
  ]

  pub notify_same :
      (i : ℕ) (rs : List ℕ) (n : QueueNode P)
      → let n' = (notify i rs n).0 in (n'.queues ≡ n.queues) × (n'.inflight ≡ n.inflight)
  unfolding notify
  notify_same i [] n = (refl, refl)
  notify_same i (r ∷ rs) n = elim (Bool-cases (r == n.node_id)) [
    | inl e ↦ rw e (notify_same i rs (record n { replicas = erase i n.replicas }))
    | inr e ↦ rw e (notify_same i rs n)
  ]
