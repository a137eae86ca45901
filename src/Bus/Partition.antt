-- ===== src/Bus/Partition.antt =====
-- What a partition keeps apart: tugas-3/src/communication/message_passing.py.
use sistem_paralel_terdistri.Common.{
  All, All-Elem, All-append, Bool, Bool-cases, Elem, List, Option-cases, [], add, arith, contains,
  false, get_or, inl, inr, keys, length, lookup, ltb, member, member-add, not, refl, some, subst,
  sym, true, ℕ, ◌&&◌, ◌++◌, ◌==◌, ◌||◌, ◌∷◌, ◌≡◌, ◌≢◌,
}
use sistem_paralel_terdistri.Bus.Inbox.{inbox}
use sistem_paralel_terdistri.Bus.Message.{Message, value}
use sistem_paralel_terdistri.Bus.State.{
  Call, Event, MessageBus, accepted, broadcast, called, copy_for, dispatch, do_broadcast,
  do_dispatch, do_partition, do_receive, do_register_handler, do_register_node, do_send,
  get_handler, heal_partition, maxsize, partition_nodes, put_nowait, receive, received,
  register_handler, register_node, route, run, run_all, send, sent_events, update,
}

member-update : (x : ℕ) (ns s : List ℕ) → member x s ≡ true → member x (update ns s) ≡ true
member-update x [] s h = h
member-update x (n ∷ ns) s h = member-update x ns (add n s) (ground (arith, member-add x n s, h))

member-update_new : (x : ℕ) (ns s : List ℕ) → member x ns ≡ true → member x (update ns s) ≡ true
member-update_new x [] s h = absurd (ground (arith, h))
member-update_new x (n ∷ ns) s h = elim (Bool-cases (n == x)) [
  | inl e ↦ member-update x ns (add n s) (ground (arith, member-add x n s, e))
  | inr e ↦ member-update_new x ns (add n s) (ground (arith, h, e))
]

module _ {P H : Type 0} where
  -- The message of an accepted event is neither from nor to the node.
  abbrev pub IsApart : ℕ → Event P H → Type 0
  IsApart x (accepted m) = (m.sender_id ≢ x) × (m.receiver_id ≢ x)
  IsApart x (received k m) = Unit
  IsApart x (called h m) = Unit

  abbrev pub is_heal : Call P H → Bool
  is_heal heal_partition = true
  is_heal c = false

  -- The node is cut off before and after, and no message passes between it and another.
  record Isolates (x : ℕ) (o : MessageBus P H × List (Event P H)) : Type 0 where
    cut : member x o.0.partitions ≡ true
    apart : All (IsApart x) o.1

  do_send-Isolates :
      (x : ℕ) (m : Message P) (b : MessageBus P H)
      → member x b.partitions ≡ true
      → let o = do_send m b in Isolates x (o.0, sent_events o.1 m)
  unfolding do_send put_nowait
  do_send-Isolates x m b h =
      elim (Bool-cases (member m.sender_id b.partitions || member m.receiver_id b.partitions)) [
        | inl e ↦ rw e (record { cut = h; apart = tt })
        | inr e ↦
            let ne : (m.sender_id ≢ x) × (m.receiver_id ≢ x) = (
              λ q. absurd (ground (arith, subst (λ z. member z b.partitions ≡ true) (sym q) h, e)),
              λ q. absurd (ground (arith, subst (λ z. member z b.partitions ≡ true) (sym q) h, e)),
            ) in
            elim (Bool-cases (contains m.receiver_id b.channels)) [
              | inl f ↦ elim (Bool-cases (ltb (length (inbox m.receiver_id b)) maxsize)) [
                | inl g ↦ rw (e, f, g) (record { cut = h; apart = (ne, tt) })
                | inr g ↦ rw (e, f, g) (record { cut = h; apart = tt })
              ]
              | inr f ↦ rw (e, f) (record { cut = h; apart = tt })
            ]
      ]

  then-Isolates :
      (x : ℕ) (b1 b2 : MessageBus P H) (es fs : List (Event P H))
      → Isolates x (b1, es)
      → Isolates x (b2, fs)
      → Isolates x (b2, es ++ fs)
  then-Isolates x b1 b2 es fs p q = record {
    cut = q.cut;
    apart = All-append (IsApart x) es fs p.apart q.apart;
  }

  do_broadcast-Isolates :
      (x : ℕ) (uuids : ℕ → ℕ) (m : Message P) (exclude nodes : List ℕ) (b : MessageBus P H)
      → member x b.partitions ≡ true
      → Isolates x (do_broadcast uuids m exclude nodes b)
  unfolding do_broadcast
  do_broadcast-Isolates x uuids m exclude [] b h = record { cut = h; apart = tt }
  do_broadcast-Isolates x uuids m exclude (node ∷ nodes) b h =
      let c = copy_for (uuids node) node m in
      let b' = (do_send c b).0 in
      let s = do_send-Isolates x c b h in
      elim (Bool-cases (not (node == m.sender_id) && not (member node exclude))) [
        | inl e ↦
            rw e
              (then-Isolates x b' _ _ _ s (do_broadcast-Isolates x uuids m exclude nodes b' s.cut))
        | inr e ↦ rw e (do_broadcast-Isolates x uuids m exclude nodes b h)
      ]

  receive_from-partitions :
      (k : ℕ) (ms : List (Message P)) (b : MessageBus P H)
      → lookup k b.channels ≡ some ms
      → (do_receive k b).0.partitions ≡ b.partitions
  unfolding do_receive
  receive_from-partitions k [] b e = rw (do_receive, e) refl
  receive_from-partitions k (m ∷ ms) b e = rw (do_receive, e) refl

  do_receive-partitions :
      (k : ℕ) (b : MessageBus P H) → (do_receive k b).0.partitions ≡ b.partitions
  unfolding do_receive
  do_receive-partitions k b = elim (Option-cases (lookup k b.channels)) [
    | inl e ↦ rw (do_receive, e) refl
    | inr (ms, e) ↦ receive_from-partitions k ms b e
  ]

  route-IsApart : (x k : ℕ) (m : Message P) (b : MessageBus P H) → All (IsApart x) (route k m b)
  unfolding route
  route-IsApart x k m b =
      elim (Option-cases (get_handler (value m.msg_type) (get_or (lookup k b.handlers) []))) [
        | inl e ↦ rw (route, e) tt
        | inr (h, e) ↦ rw (route, e) (tt, tt)
      ]

  run-Isolates :
      (x : ℕ) (c : Call P H) (b : MessageBus P H)
      → is_heal c ≡ false
      → member x b.partitions ≡ true
      → Isolates x (run c b)
  unfolding run do_register_node do_register_handler do_partition do_dispatch
  run-Isolates x (register_node k) b p h = elim (Bool-cases (contains k b.channels)) [
    | inl e ↦ rw e (record { cut = h; apart = tt })
    | inr e ↦ rw e (record { cut = h; apart = tt })
  ]
  run-Isolates x (register_handler k t g) b p h = record { cut = h; apart = tt }
  run-Isolates x (partition_nodes ns) b p h = record {
    cut = member-update x ns b.partitions h;
    apart = tt;
  }
  run-Isolates x heal_partition b p h = absurd (ground (arith, p))
  run-Isolates x (send m) b p h = do_send-Isolates x m b h
  run-Isolates x (receive k) b p h =
      let q : member x (do_receive k b).0.partitions ≡ true = rw do_receive-partitions h in
      elim (Option-cases (do_receive k b).1) [
        | inl e ↦ rw (run, e) (record { cut = q; apart = tt })
        | inr (m, e) ↦ rw (run, e) (record { cut = q; apart = (tt, tt) })
      ]
  run-Isolates x (broadcast uuids m exclude) b p h =
      do_broadcast-Isolates x uuids m exclude (keys b.channels) b h
  run-Isolates x (dispatch k) b p h =
      let q : member x (do_receive k b).0.partitions ≡ true = rw do_receive-partitions h in
      elim (Option-cases (do_receive k b).1) [
        | inl e ↦ rw (do_dispatch, e) (record { cut = q; apart = tt })
        | inr (m, e) ↦ rw (do_dispatch, e) (record { cut = q; apart = (tt, route-IsApart x k m b) })
      ]

  run_all-Isolates :
      (x : ℕ) (cs : List (Call P H)) (b : MessageBus P H)
      → All (λ c. is_heal c ≡ false) cs
      → member x b.partitions ≡ true
      → Isolates x (run_all cs b)
  unfolding run_all
  run_all-Isolates x [] b p h = record { cut = h; apart = tt }
  run_all-Isolates x (c ∷ cs) b p h =
      let r = run-Isolates x c b p.0 h in
      then-Isolates x (run c b).0 _ _ _ r (run_all-Isolates x cs (run c b).0 p.1 r.cut)

  -- From the moment that `partition_nodes` names a node until `heal_partition`, in every run of calls,
  -- no queue accepts a message from it or to it.
  pub partition_isolates :
      (x : ℕ) (ns : List ℕ) (cs : List (Call P H)) (b : MessageBus P H) (m : Message P)
      → member x ns ≡ true
      → All (λ c. is_heal c ≡ false) cs
      → Elem (accepted m) (run_all (partition_nodes ns ∷ cs) b).1
      → (m.sender_id ≢ x) × (m.receiver_id ≢ x)
  unfolding run_all run do_partition
  partition_isolates x ns cs b m h p e =
      All-Elem (IsApart x) (accepted m) _
        (run_all-Isolates x cs (do_partition ns b) p (member-update_new x ns b.partitions h)).apart
        e
