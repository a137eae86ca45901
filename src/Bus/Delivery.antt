-- ===== src/Bus/Delivery.antt =====
-- What the queues of `MessageBus` keep in every run: tugas-3/src/communication/message_passing.py.
use sistem_paralel_terdistri.Common.{
  Bool-cases, List, Option, Option-cases, [], append-nil, arith, contains, false, get_or, inl, inr,
  keys, length, lookup, none, refl, some, subst, sym, ℕ, ◌++◌, ◌∷◌, ◌≡◌, ◌≤◌,
}
use sistem_paralel_terdistri.Bus.Inbox.{
  Queues, absent_lookup, accepted_for, do_broadcast-Queues, do_send-Queues, inbox, inbox-insert,
  received_by, still-Queues, take-Queues, then-Queues,
}
use sistem_paralel_terdistri.Bus.Message.{Message, value}
use sistem_paralel_terdistri.Bus.State.{
  Call, Event, MessageBus, broadcast, dispatch, do_dispatch, do_partition, do_receive,
  do_register_handler, do_register_node, get_handler, heal, heal_partition, new_bus,
  partition_nodes, receive, received, register_handler, register_node, route, run, run_all, send,
}

module _ {P H : Type 0} where
  -- What `receive` returned, as events.
  abbrev got : ℕ → Option (Message P) → List (Event P H)
  got n none = []
  got n (some m) = received n m ∷ []

  receive_from-Queues :
      (n k : ℕ) (ms : List (Message P)) (b : MessageBus P H)
      → lookup k b.channels ≡ some ms
      → let o = do_receive k b in Queues n b (o.0, got k o.1)
  unfolding do_receive
  receive_from-Queues n k [] b e = rw (do_receive, e) (still-Queues n b b refl)
  receive_from-Queues n k (m ∷ ms) b e = rw (do_receive, e) (take-Queues n k m ms b (rw e refl))

  do_receive-Queues :
      (n k : ℕ) (b : MessageBus P H) → let o = do_receive k b in Queues n b (o.0, got k o.1)
  unfolding do_receive
  do_receive-Queues n k b = elim (Option-cases (lookup k b.channels)) [
    | inl e ↦ rw (do_receive, e) (still-Queues n b b refl)
    | inr (ms, e) ↦ receive_from-Queues n k ms b e
  ]

  -- A call of a handler is no event of a queue.
  route-Queues : (n k : ℕ) (m : Message P) (b b' : MessageBus P H) → Queues n b' (b', route k m b)
  unfolding route
  route-Queues n k m b b' =
      elim (Option-cases (get_handler (value m.msg_type) (get_or (lookup k b.handlers) []))) [
        | inl e ↦ rw (route, e) (still-Queues n b' b' refl)
        | inr (h, e) ↦
            rw (route, e) (record { fifo = sym (append-nil (inbox n b')); short = λ l. l })
      ]

  absent_inbox : (k : ℕ) (b : MessageBus P H) → contains k b.channels ≡ false → inbox k b ≡ []
  absent_inbox k b e = absent_lookup k b.channels e

  run-Queues : (n : ℕ) (c : Call P H) (b : MessageBus P H) → Queues n b (run c b)
  unfolding run do_register_node do_register_handler do_partition heal do_dispatch
  run-Queues n (register_node k) b = elim (Bool-cases (contains k b.channels)) [
    | inl e ↦ rw e (still-Queues n b b refl)
    | inr e ↦
        rw e
          (still-Queues n b _ (ground (arith, inbox-insert n k [] b.channels, absent_inbox k b e)))
  ]
  run-Queues n (register_handler k t h) b = still-Queues n b _ refl
  run-Queues n (partition_nodes ns) b = still-Queues n b _ refl
  run-Queues n heal_partition b = still-Queues n b _ refl
  run-Queues n (send m) b = do_send-Queues n m b
  run-Queues n (receive k) b =
      let q = do_receive-Queues n k b in
      elim (Option-cases (do_receive k b).1) [
        | inl e ↦ rw (run, e) (subst (λ o. Queues n b ((do_receive k b).0, got k o)) e q)
        | inr (m, e) ↦ rw (run, e) (subst (λ o. Queues n b ((do_receive k b).0, got k o)) e q)
      ]
  run-Queues n (broadcast uuids m exclude) b =
      do_broadcast-Queues n uuids m exclude (keys b.channels) b
  run-Queues n (dispatch k) b =
      let q = do_receive-Queues n k b in
      let b' = (do_receive k b).0 in
      elim (Option-cases (do_receive k b).1) [
        | inl e ↦ rw (do_dispatch, e) (subst (λ o. Queues n b ((do_receive k b).0, got k o)) e q)
        | inr (m, e) ↦
            rw (do_dispatch, e)
              (then-Queues n b b' b' (received k m ∷ []) (route k m b)
                (subst (λ o. Queues n b ((do_receive k b).0, got k o)) e q)
                (route-Queues n k m b b'))
      ]

  run_all-Queues : (n : ℕ) (cs : List (Call P H)) (b : MessageBus P H) → Queues n b (run_all cs b)
  unfolding run_all
  run_all-Queues n [] b = still-Queues n b b refl
  run_all-Queues n (c ∷ cs) b =
      then-Queues n b (run c b).0 (run_all cs (run c b).0).0 (run c b).1 _ (run-Queues n c b)
        (run_all-Queues n cs (run c b).0)

  -- In every run of calls the queue of a node is first in, first out: what the node received and what
  -- is left in its queue is what was in the queue and what `send` and `broadcast` accepted for it
  -- since, in order. No accepted message is lost, repeated, misdirected or overtaken.
  pub accepted_once_in_order :
      (n : ℕ) (cs : List (Call P H)) (b : MessageBus P H)
      → let (b', es) = run_all cs b in
        received_by n es ++ inbox n b' ≡ inbox n b ++ accepted_for n es
  accepted_once_in_order n cs b = (run_all-Queues n cs b).fifo

-- In every run of calls on a new bus, no queue ever holds more than 10000 messages.
pub queues_bounded :
    (P H : Type 0) (n : ℕ) (cs : List (Call P H))
    → length (inbox n (run_all cs (new_bus {P = P} {H = H})).0) ≤ 10000
unfolding new_bus
queues_bounded P H n cs = (run_all-Queues n cs new_bus).short (omega arith)
