-- ===== src/Queue/Requeue.antt =====
-- What happens to the inflight messages of tugas-3/src/nodes/queue_node.py when their visibility
-- timeout is over.
use sistem_paralel_terdistri.Common.{
  AllEntries, Bool, Bool-cases, Dict, Distinct, List, [], arith, contains, contains-erase,
  contains-keys, erase, false, inl, inr, keys, lookup, lookup-erase, lookup-insert, ltb, refl, some,
  true, ℕ, ◌&&◌, ◌++◌, ◌+◌, ◌<◌, ◌==◌, ◌||◌, ◌∙◌, ◌∷◌, ◌≡◌, ◌≤◌, ◌⊎◌,
}
use sistem_paralel_terdistri.Queue.Node.{push, queue_at, requeue_each, requeue_expired_inflight}
use sistem_paralel_terdistri.Queue.State.{QueueMessage, QueueNode}

module _ {P : Type 0} where
  -- A message with this id stands in the queue.
  abbrev pub has : ℕ → List (QueueMessage P) → Bool
  has x [] = false
  has x (m ∷ q) = m.msg_id == x || has x q

  pub has-append : (x : ℕ) (p q : List (QueueMessage P)) → has x (p ++ q) ≡ (has x p || has x q)
  has-append x [] q = refl
  has-append x (m ∷ p) q = ground (arith, has-append x p q)

  -- A push adds the message to its own queue, and no message leaves a queue.
  pub has-push :
      (x q : ℕ) (m : QueueMessage P) (queues : Dict (List (QueueMessage P)))
      → has x (queue_at (push m queues) q)
        ≡ (has x (queue_at queues q) || ((m.queue == q) && (m.msg_id == x)))
  unfolding push
  has-push x q m queues = ground (
    arith,
    lookup-insert q m.queue (queue_at queues m.queue ++ m ∷ []) queues,
    has-append x (queue_at queues m.queue) (m ∷ []),
  )

  -- The keys of the inflight messages are their ids.
  abbrev pub IsKeyed : Dict (QueueMessage P) → Type 0
  IsKeyed d = AllEntries (λ k m. m.msg_id ≡ k) d

  -- One round of the loop, for an expired message.
  abbrev pub requeue : ℕ → QueueMessage P → QueueNode P → QueueNode P
  requeue k m n = record n {
    inflight = erase k n.inflight;
    queues = push (record m { visibility_timeout_until = 0 }) n.queues;
    stats = record n.stats { redelivered = n.stats.redelivered + 1 };
  }

  -- The loop leaves alone what the snapshot does not list.
  requeue_each_absent :
      (now k : ℕ) (ms : Dict (QueueMessage P)) (n : QueueNode P)
      → contains k ms ≡ false
      → lookup k (requeue_each now ms n).inflight ≡ lookup k n.inflight
  unfolding requeue_each
  requeue_each_absent now k [] n e = refl
  requeue_each_absent now k ((j, m) ∷ ms) n e = ground (
    arith,
    requeue_each_absent now k ms n (ground (arith, e)),
    requeue_each_absent now k ms (requeue j m n) (ground (arith, e)),
    lookup-erase k j n.inflight,
  )

  pub late_round :
      (now j : ℕ) (m : QueueMessage P) (ms : Dict (QueueMessage P)) (n : QueueNode P)
      → ltb m.visibility_timeout_until now ≡ true
      → requeue_each now ((j, m) ∷ ms) n ≡ requeue_each now ms (requeue j m n)
  unfolding requeue_each
  late_round now j m ms n e = rw e refl

  pub early_round :
      (now j : ℕ) (m : QueueMessage P) (ms : Dict (QueueMessage P)) (n : QueueNode P)
      → ltb m.visibility_timeout_until now ≡ false
      → requeue_each now ((j, m) ∷ ms) n ≡ requeue_each now ms n
  unfolding requeue_each
  early_round now j m ms n e = rw e refl

  has-requeue_each :
      (now x q : ℕ) (ms : Dict (QueueMessage P)) (n : QueueNode P)
      → has x (queue_at n.queues q) ≡ true
      → has x (queue_at (requeue_each now ms n).queues q) ≡ true
  unfolding requeue_each
  has-requeue_each now x q [] n h = h
  has-requeue_each now x q ((j, m) ∷ ms) n h =
      elim (Bool-cases (ltb m.visibility_timeout_until now)) [
        | inr e ↦ rw (early_round now j m ms n e) (has-requeue_each now x q ms n h)
        | inl e ↦ rw (late_round now j m ms n e) (
            has-requeue_each now x q ms (requeue j m n) (
              ground (arith, h, has-push x q (record m { visibility_timeout_until = 0 }) n.queues)))
      ]

  gone-requeue_each :
      (now k : ℕ) (ms : Dict (QueueMessage P)) (n : QueueNode P)
      → contains k n.inflight ≡ false
      → contains k (requeue_each now ms n).inflight ≡ false
  unfolding requeue_each
  gone-requeue_each now k [] n h = h
  gone-requeue_each now k ((j, m) ∷ ms) n h =
      elim (Bool-cases (ltb m.visibility_timeout_until now)) [
        | inr e ↦ rw (early_round now j m ms n e) (gone-requeue_each now k ms n h)
        | inl e ↦ rw (late_round now j m ms n e) (
            gone-requeue_each now k ms (requeue j m n)
              (ground (arith, h, contains-erase k j n.inflight)))
      ]

  -- A listed message whose time is over leaves the inflight messages for its queue.
  expired-requeue_each :
      (now k : ℕ) (m : QueueMessage P) (ms : Dict (QueueMessage P)) (n : QueueNode P)
      → lookup k ms ≡ some m
      → m.visibility_timeout_until < now
      → let n' = requeue_each now ms n in
        (contains k n'.inflight ≡ false) × (has m.msg_id (queue_at n'.queues m.queue) ≡ true)
  unfolding requeue_each
  expired-requeue_each now k m [] n e lt = absurd (ground arith)
  expired-requeue_each now k m ((j, p) ∷ ms) n e lt = elim (Bool-cases (j == k)) [
    | inl here ↦
        let same : p ≡ m = ground (arith, e, here) in
        let late : ltb p.visibility_timeout_until now ≡ true = ground (arith, lt, same) in
        rw (late_round now j p ms n late) (
          gone-requeue_each now k ms (requeue j p n)
              (ground (arith, here, contains-erase k j n.inflight)),
          has-requeue_each now m.msg_id m.queue ms (requeue j p n) (
              ground (
                arith,
                same,
                has-push m.msg_id m.queue (record p { visibility_timeout_until = 0 }) n.queues,
              )),
        )
    | inr there ↦ elim (Bool-cases (ltb p.visibility_timeout_until now)) [
      | inr f ↦
          rw (early_round now j p ms n f)
            (expired-requeue_each now k m ms n (ground (arith, e, there)) lt)
      | inl f ↦
          rw (late_round now j p ms n f)
            (expired-requeue_each now k m ms (requeue j p n) (ground (arith, e, there)) lt)
    ]
  ]

  -- A listed message whose time is not over stays as it is.
  waiting-requeue_each :
      (now k : ℕ) (m : QueueMessage P) (ms : Dict (QueueMessage P)) (n : QueueNode P)
      → Distinct (keys ms)
      → lookup k ms ≡ some m
      → now ≤ m.visibility_timeout_until
      → lookup k (requeue_each now ms n).inflight ≡ lookup k n.inflight
  waiting-requeue_each now k m [] n d e le = absurd (ground arith)
  waiting-requeue_each now k m ((j, p) ∷ ms) n d e le = elim (Bool-cases (j == k)) [
    | inl here ↦
        let same : p ≡ m = ground (arith, e, here) in
        let early : ltb p.visibility_timeout_until now ≡ false = ground (arith, le, same) in
        rw (early_round now j p ms n early)
          (requeue_each_absent now k ms n (ground (arith, contains-keys k ms, d.0, here)))
    | inr there ↦ elim (Bool-cases (ltb p.visibility_timeout_until now)) [
      | inr f ↦
          rw (early_round now j p ms n f)
            (waiting-requeue_each now k m ms n d.1 (ground (arith, e, there)) le)
      | inl f ↦ rw (late_round now j p ms n f) (
          waiting-requeue_each now k m ms (requeue j p n) d.1 (ground (arith, e, there)) le
          ∙ ground (arith, there, lookup-erase k j n.inflight))
    ]
  ]

  -- Where no two inflight messages have one key, `_requeue_expired_inflight` takes an inflight
  -- message whose timeout is over back to its queue and out of the inflight messages, and leaves
  -- one whose timeout is not over inflight as it is.
  pub requeue_expired_inflight_lem :
      (now k : ℕ) (m : QueueMessage P) (n : QueueNode P)
      → Distinct (keys n.inflight)
      → lookup k n.inflight ≡ some m
      → let n' = requeue_expired_inflight now n in
        ((m.visibility_timeout_until < now)
          × (contains k n'.inflight ≡ false)
          × (has m.msg_id (queue_at n'.queues m.queue) ≡ true))
        ⊎ ((now ≤ m.visibility_timeout_until) × (lookup k n'.inflight ≡ some m))
  unfolding requeue_expired_inflight
  requeue_expired_inflight_lem now k m n d e =
      elim (Bool-cases (ltb m.visibility_timeout_until now)) [
        | inl late ↦
            let lt : m.visibility_timeout_until < now = ground arith in
            let (gone, back) = expired-requeue_each now k m n.inflight n e lt in
            inl (lt, gone, back)
        | inr early ↦
            let le : now ≤ m.visibility_timeout_until = ground arith in
            inr (le, waiting-requeue_each now k m n.inflight n d e le ∙ e)
      ]
