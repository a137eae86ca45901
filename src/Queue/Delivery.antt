-- ===== src/Queue/Delivery.antt =====
-- What `_pop_local` of tugas-3/src/nodes/queue_node.py delivers.
use sistem_paralel_terdistri.Common.{
  All, Bool, Bool-cases, Dict, List, Option, [], ap, append-nil, append_assoc, arith, false, get_or,
  inl, inr, insert, is_empty, lookup, lookup-insert_self, ltb, none, not, refl, some, sym, true, ℕ,
  ◌++◌, ◌+◌, ◌∙◌, ◌∷◌, ◌≡◌, ◌⊎◌,
}
use sistem_paralel_terdistri.Queue.Node.{delivered, pop_local, queue_at, rotate, take_message}
use sistem_paralel_terdistri.Queue.State.{QueueMessage, QueueNode}

module _ {P : Type 0} where
  abbrev pub is_visible : ℕ → QueueMessage P → Bool
  is_visible now msg = not (ltb now msg.visibility_timeout_until)

  -- The loop finds the first visible message of a queue, or none.
  rotate_from :
      (now : ℕ) (q back : List (QueueMessage P))
      → ((rotate now q back ≡ (back ++ q, none)) × All (λ m. is_visible now m ≡ false) q)
        ⊎ ((front rest : List (QueueMessage P)) × (msg : QueueMessage P) × (q ≡ front ++ msg ∷ rest)
            × All (λ m. is_visible now m ≡ false) front
            × (is_visible now msg ≡ true)
            × (rotate now q back ≡ (rest ++ (back ++ front), some msg)))
  unfolding rotate
  rotate_from now [] back = inl (ap (λ l. (l, none)) (sym (append-nil back)), tt)
  rotate_from now (m ∷ q) back = elim (Bool-cases (ltb now m.visibility_timeout_until)) [
    | inr e ↦ rw e (
        inr (
          [],
          q,
          m,
          refl,
          tt,
          ground (arith, e),
          ap (λ l. (q ++ l, some m)) (sym (append-nil back)),
        ))
    | inl e ↦ elim (rotate_from now q (back ++ m ∷ [])) [
      | inl (same, hidden) ↦ rw e (
          inl (
            same ∙ ap (λ l. (l, none)) (append_assoc back (m ∷ []) q),
            (ground (arith, e), hidden),
          ))
      | inr (front, rest, msg, split, hidden, seen, left) ↦ rw e (
          inr (
            m ∷ front,
            rest,
            msg,
            ap (◌∷◌ m) split,
            (ground (arith, e), hidden),
            seen,
            left ∙ ap (λ l. (rest ++ l, some msg)) (append_assoc back (m ∷ []) front),
          ))
    ]
  ]

  hidden_empty :
      (now : ℕ) (q : List (QueueMessage P))
      → is_empty q ≡ true
      → All (λ m. is_visible now m ≡ false) q
  hidden_empty now [] e = tt
  hidden_empty now (m ∷ q) e = absurd (ground arith)

  queue_at-insert :
      (q : ℕ) (l : List (QueueMessage P)) (d : Dict (List (QueueMessage P)))
      → queue_at (insert q l d) q ≡ l
  queue_at-insert q l d = ap (λ o. get_or o []) (lookup-insert_self q l d)

  abbrev first : List (QueueMessage P) × Option (QueueMessage P) → List (QueueMessage P)
  first r = r.0

  -- `_pop_local` on a queue: it delivers the first visible message, counts the delivery, hides it
  -- until the timeout and files it as inflight; the messages in front of it move to the end and the
  -- others keep their order. Where no message is visible the queue keeps all of them and nothing is
  -- delivered.
  pub pop_local_first_visible :
      (now q : ℕ) (n : QueueNode P)
      → let (n', got) = pop_local now q n in
        let old = queue_at n.queues q in
        ((got ≡ none)
          × (n'.inflight ≡ n.inflight)
          × (queue_at n'.queues q ≡ old)
          × All (λ m. is_visible now m ≡ false) old)
        ⊎ ((front rest : List (QueueMessage P)) × (msg : QueueMessage P) × (old
              ≡ front ++ msg ∷ rest)
            × All (λ m. is_visible now m ≡ false) front
            × (is_visible now msg ≡ true)
            × (queue_at n'.queues q ≡ rest ++ front)
            × (got ≡ some (delivered (now + n.visibility_timeout) msg))
            × (lookup msg.msg_id n'.inflight ≡ got))
  unfolding pop_local take_message
  pop_local_first_visible now q n = elim (Bool-cases (is_empty (queue_at n.queues q))) [
    | inl e ↦ rw (e, pop_local) (inl (refl, refl, refl, hidden_empty now (queue_at n.queues q) e))
    | inr e ↦ elim (rotate_from now (queue_at n.queues q) []) [
      | inl (same, hidden) ↦
          rw (e, pop_local, same, take_message)
            (inl (refl, refl, queue_at-insert q _ n.queues ∙ ap first same, hidden))
      | inr (front, rest, msg, split, hidden, seen, left) ↦
          rw (e, pop_local, left, take_message)
            (inr (
              front,
              rest,
              msg,
              split,
              hidden,
              seen,
              queue_at-insert q _ n.queues ∙ ap first left,
              refl,
              lookup-insert_self msg.msg_id _ n.inflight,
            ))
    ]
  ]
