-- ===== src/Queue/Tests.antt =====
-- Three queue nodes on a small ring, and a node that stores, delivers and replays a message.
use sistem_paralel_terdistri.Common.{
  All, Distinct, List, [], arith, contains, false, inl, length, lookup, member, min, none, refl,
  some, true, ℕ, ◌*◌, ◌++◌, ◌+◌, ◌<◌, ◌∷◌, ◌≡◌, ◌≤◌, ◌⊎◌,
}
use sistem_paralel_terdistri.Queue.Delivery.{is_visible, pop_local_first_visible}
use sistem_paralel_terdistri.Queue.Kept.{stored_until_acknowledged}
use sistem_paralel_terdistri.Queue.Lap.{get_n_nodes_replicas}
use sistem_paralel_terdistri.Queue.Moves.{get_node-remove_node}
use sistem_paralel_terdistri.Queue.Node.{
  apply_log_record, delivered, dequeue, enqueue, enqueue_at, pop_local, push, queue_at, replay,
  requeue_each, requeue_expired_inflight, rotate, send_replicas, store_local, take_message,
}
use sistem_paralel_terdistri.Queue.Recovery.{replay_enqueued}
use sistem_paralel_terdistri.Queue.Replicas.{IsRing, add_node-IsRing, new_ring-IsRing}
use sistem_paralel_terdistri.Queue.Requeue.{has, requeue_expired_inflight_lem}
use sistem_paralel_terdistri.Queue.Ring.{
  ConsistentHashRing, add_node, add_vnodes, bisect_right, get_n_nodes, get_node, insort, new_ring,
  remove_node, walk, without,
}
use sistem_paralel_terdistri.Queue.Runs.{Call, Holds, acks, dequeues, expires, run, run_all}
use sistem_paralel_terdistri.Queue.State.{QueueMessage, QueueNode, acked, enqueued, init}

abbrev hash_key : ℕ → ℕ
hash_key k = k

abbrev hash_vnode : ℕ → ℕ → ℕ
hash_vnode node i = 10 * node + 35 * i

-- What runs.
program : Unit {0}
unfolding insort bisect_right without remove_node walk add_vnodes add_node get_node get_n_nodes push
    apply_log_record replay store_local send_replicas enqueue_at enqueue rotate take_message
    pop_local requeue_each requeue_expired_inflight dequeue run run_all
program = tt

abbrev trio : ConsistentHashRing
trio = add_node hash_vnode 3 (add_node hash_vnode 2 (add_node hash_vnode 1 (new_ring 2)))

trio-IsRing : IsRing trio
unfolding program
trio-IsRing = add_node-IsRing hash_vnode 3 _ (omega arith) (
    add_node-IsRing hash_vnode 2 _ (omega arith)
      (add_node-IsRing hash_vnode 1 _ (omega arith) (new_ring-IsRing 2)))

trio_ring : trio.ring ≡ (10, 1) ∷ (20, 2) ∷ (30, 3) ∷ (45, 1) ∷ (55, 2) ∷ (65, 3) ∷ []
unfolding program
trio_ring = refl

key_owner : get_node hash_key 21 trio ≡ some 3
unfolding program
key_owner = refl

get_node-remove_node_example : get_node hash_key 21 (remove_node 1 trio) ≡ some 3
unfolding program
get_node-remove_node_example =
    get_node-remove_node hash_key 21 1 3 trio key_owner (λ e. absurd (omega (arith, e)))

get_n_nodes_replicas_example :
    let ns = get_n_nodes hash_key 21 2 trio in
    Distinct ns × All (λ x. member x trio.nodes ≡ true) ns × (length ns ≡ min 2 (length trio.nodes))
get_n_nodes_replicas_example = get_n_nodes_replicas hash_key 21 2 trio trio-IsRing

abbrev message : ℕ → ℕ → QueueMessage ℕ
message i until = record {
  msg_id = i;
  queue = 7;
  partition_key = i;
  payload = 100 + i;
  timestamp = 0;
  delivery_count = 0;
  visibility_timeout_until = until;
  primary_node = 1;
  replicas = 2 ∷ [];
}

abbrev fresh : QueueNode ℕ
fresh = init 1 (2 ∷ 3 ∷ []) 2 30

abbrev busy : QueueNode ℕ
busy = record fresh {
  queues = (7, message 4 50 ∷ message 5 0 ∷ message 6 0 ∷ []) ∷ [];
  inflight = (8, message 8 20) ∷ (9, message 9 60) ∷ [];
}

first_visible : (pop_local 40 7 busy).1 ≡ some (record (message 5 70) { delivery_count = 1 })
unfolding program
first_visible = refl

requeue_expired_inflight_lem_example :
    let n' = requeue_expired_inflight 40 busy in
    ((20 < 40) × (contains 8 n'.inflight ≡ false) × (has 8 (queue_at n'.queues 7) ≡ true))
    ⊎ ((40 ≤ 20) × (lookup 8 n'.inflight ≡ some (message 8 20)))
requeue_expired_inflight_lem_example =
    requeue_expired_inflight_lem 40 8 (message 8 20) busy (refl, (refl, tt)) refl

pop_local_first_visible_example :
    let (n', got) = pop_local 40 7 busy in
    let old = queue_at busy.queues 7 in
    ((got ≡ none)
      × (n'.inflight ≡ busy.inflight)
      × (queue_at n'.queues 7 ≡ old)
      × All (λ m. is_visible 40 m ≡ false) old)
    ⊎ ((front rest : List (QueueMessage ℕ)) × (msg : QueueMessage ℕ) × (old ≡ front ++ msg ∷ rest)
        × All (λ m. is_visible 40 m ≡ false) front
        × (is_visible 40 msg ≡ true)
        × (queue_at n'.queues 7 ≡ rest ++ front)
        × (got ≡ some (delivered 70 msg))
        × (lookup msg.msg_id n'.inflight ≡ got))
pop_local_first_visible_example = pop_local_first_visible 40 7 busy

abbrev calls : List (Call ℕ)
calls = dequeues 40 40 7 ∷ acks 5 ∷ expires 90 ∷ []

stored_until_acknowledged_example :
    let n' = run_all hash_key trio calls (store_local (message 4 50) busy) in
    Holds 4 n'.queues n'.inflight
stored_until_acknowledged_example =
    stored_until_acknowledged hash_key trio (message 4 50) calls busy (refl, (refl, tt))
      (refl, (refl, (refl, tt)))

-- The message is stored, delivered and acknowledged, the node restarts, and the message is back.
replay_enqueued_example :
    has 4 (queue_at (replay (enqueued (message 4 0) ∷ acked 4 ∷ []) fresh).queues 7) ≡ true
replay_enqueued_example =
    replay_enqueued (message 4 0) (enqueued (message 4 0) ∷ acked 4 ∷ []) fresh (inl refl)
