-- ===== src/Bus/Tests.antt =====
-- Two nodes on the bus.
use sistem_paralel_terdistri.Common.{
  Elem, List, [], inl, length, refl, subst, sym, ℕ, ◌++◌, ◌+◌, ◌∷◌, ◌≡◌, ◌≢◌, ◌≤◌,
}
use sistem_paralel_terdistri.Bus.Delivery.{accepted_once_in_order, queues_bounded}
use sistem_paralel_terdistri.Bus.Inbox.{accepted_for, inbox, received_by}
use sistem_paralel_terdistri.Bus.Message.{Message, create, lock_request, value}
use sistem_paralel_terdistri.Bus.Partition.{partition_isolates}
use sistem_paralel_terdistri.Bus.State.{
  Call, MessageBus, accepted, broadcast, called, dispatch, do_broadcast, do_dispatch, do_partition,
  do_receive, do_register_handler, do_register_node, do_send, heal, new_bus, partition_nodes,
  put_nowait, receive, received, register_handler, register_node, route, run, run_all, send,
}

abbrev ask : ℕ → ℕ → ℕ → Message ℕ
ask uuid sender receiver = create 5 uuid lock_request sender receiver 77 0

-- Node 2 has a handler for lock requests; the second message is read before the third is sent.
abbrev calls : List (Call ℕ ℕ)
calls =
    register_node 1
    ∷ register_node 2
    ∷ register_handler 2 lock_request 40
    ∷ send (ask 1 1 2)
    ∷ broadcast (λ n. n + 10) (ask 2 1 1) []
    ∷ dispatch 2
    ∷ receive 2
    ∷ send (ask 3 1 2)
    ∷ send (ask 4 1 3)
    ∷ []

program : Unit {0}
unfolding run_all run do_register_node do_register_handler do_partition heal do_send put_nowait
    do_receive do_broadcast route do_dispatch new_bus create value
program = tt

history :
    (run_all calls (new_bus {P = ℕ} {H = ℕ})).1
    ≡ accepted (ask 1 1 2)
      ∷ accepted (ask 12 1 2)
      ∷ received 2 (ask 1 1 2)
      ∷ called 40 (ask 1 1 2)
      ∷ received 2 (ask 12 1 2)
      ∷ accepted (ask 3 1 2)
      ∷ []
unfolding program
history = refl

accepted_once_in_order_example :
    received_by 2 (run_all calls (new_bus {P = ℕ} {H = ℕ})).1
      ++ inbox 2 (run_all calls (new_bus {P = ℕ} {H = ℕ})).0
    ≡ inbox 2 (new_bus {P = ℕ} {H = ℕ})
      ++ accepted_for 2 (run_all calls (new_bus {P = ℕ} {H = ℕ})).1
accepted_once_in_order_example = accepted_once_in_order 2 calls (new_bus {P = ℕ} {H = ℕ})

queues_bounded_example : length (inbox 2 (run_all calls (new_bus {P = ℕ} {H = ℕ})).0) ≤ 10000
queues_bounded_example = queues_bounded ℕ ℕ 2 calls

abbrev two_nodes : MessageBus ℕ ℕ
two_nodes = record { channels = (1, []) ∷ (2, []) ∷ (3, []) ∷ []; handlers = []; partitions = [] }

passes_beside :
    (run_all (partition_nodes (3 ∷ []) ∷ send (ask 7 1 3) ∷ send (ask 8 1 2) ∷ []) two_nodes).1
    ≡ accepted (ask 8 1 2) ∷ []
unfolding program
passes_beside = refl

partition_isolates_example : ((ask 8 1 2).sender_id ≢ 3) × ((ask 8 1 2).receiver_id ≢ 3)
unfolding create
partition_isolates_example =
    partition_isolates 3 (3 ∷ []) (send (ask 7 1 3) ∷ send (ask 8 1 2) ∷ []) two_nodes (ask 8 1 2)
      refl (refl, (refl, tt)) (subst (Elem (accepted (ask 8 1 2))) (sym passes_beside) (inl refl))
