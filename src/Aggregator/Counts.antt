-- ===== src/Aggregator/Counts.antt =====
-- The counters of uts/src/service.py add up, and a repeated batch is dropped.
use sistem_paralel_terdistri.Common.{
  All, All-map, Bool, Bool-cases, List, Option, [], ap, arith, false, if◌then◌else◌, inl, inr,
  length, length-append, none, refl, some, subst, suc, sym, true, ℕ, ◌++◌, ◌+◌, ◌==◌, ◌∷◌, ◌≡◌,
}
use sistem_paralel_terdistri.Aggregator.Service.{
  AggregatorService, Call, abandon, enqueue_each, finish, finishes, new_service, process,
  process_all, publish, publishes, raises, run, run_all, starts, stops, take_from, takes,
}
use sistem_paralel_terdistri.Aggregator.Store.{DedupTable, Event}

-- The number of events in the worker's hand.
abbrev pub held : Option Event → ℕ
held none = 0
held (some e) = 1

module _ {T : Type 0} (table : DedupTable T) where
  -- Every received event but `k` is counted as unique or dropped, or queued, or in the worker's hand.
  abbrev Balanced : ℕ → AggregatorService T → Type 0
  Balanced k s =
      s.received ≡ s.unique_processed + s.duplicate_dropped + length s.queue + held s.in_hand + k

  enqueue_each-Balanced :
      (k : ℕ) (es : List Event) (s : AggregatorService T)
      → Balanced k s
      → Balanced k (enqueue_each es s)
  unfolding enqueue_each
  enqueue_each-Balanced k [] s b = b
  enqueue_each-Balanced k (e ∷ es) s b =
      enqueue_each-Balanced k es (record s { received = s.received + 1; queue = s.queue ++ e ∷ [] })
        (omega (arith, b, length-append s.queue (e ∷ [])))

  process_lem :
      (e : Event) (s : AggregatorService T)
      → let s' = process table e s in
        (s'.received ≡ s.received)
        × (s'.queue ≡ s.queue)
        × (s'.unique_processed
            ≡ (if table.has e s.store then s.unique_processed else s.unique_processed + 1))
        × (s'.duplicate_dropped
            ≡ (if table.has e s.store then s.duplicate_dropped + 1 else s.duplicate_dropped))
        × (s'.store ≡ (table.insert_or_ignore e s.store).0)
        × (s'.in_hand ≡ s.in_hand)
  unfolding process
  process_lem e s = elim (Bool-cases (table.has e s.store)) [
    | inl h ↦
        let none_new : ((table.insert_or_ignore e s.store).1 == 1) ≡ false =
          ground (arith, table.rowcount e s.store, h) in
        rw (h, none_new, process) (refl, refl, refl, refl, refl, refl)
    | inr h ↦
        let one_new : ((table.insert_or_ignore e s.store).1 == 1) ≡ true =
          ground (arith, table.rowcount e s.store, h) in
        rw (h, one_new, process) (refl, refl, refl, refl, refl, refl)
  ]

  process-Balanced :
      (k : ℕ) (e : Event) (s : AggregatorService T)
      → s.received
        ≡ s.unique_processed + s.duplicate_dropped + length s.queue + held s.in_hand + suc k
      → Balanced k (process table e s)
  process-Balanced k e s b =
      let (r, q, u, d, st, hand) = process_lem e s in
      let size = ap length q in
      let still = ap held hand in
      elim (Bool-cases (table.has e s.store)) [
        | inl h ↦ ground (arith, b, r, u, d, h, size, still)
        | inr h ↦ ground (arith, b, r, u, d, h, size, still)
      ]

  -- The events that a step takes out of the worker's hand uncounted.
  abbrev pub abandons : Call → AggregatorService T → ℕ
  abandons (raises stored) s = held s.in_hand
  abandons (stops stored) s = held s.in_hand
  abandons (publishes es) s = 0
  abandons takes s = 0
  abandons finishes s = 0
  abandons starts s = 0

  abbrev pub abandoned : List Call → AggregatorService T → ℕ
  abandoned [] s = 0
  abandoned (c ∷ cs) s = abandons c s + abandoned cs (run table c s)

  take_from-Balanced :
      (k : ℕ) (on : Bool) (hand : Option Event) (es : List Event) (s : AggregatorService T)
      → s.in_hand ≡ hand
      → s.queue ≡ es
      → Balanced k s
      → Balanced k (take_from on hand es s)
  take_from-Balanced k true none (e ∷ es) s p q b = omega (arith, b, ap length q, ap held p)
  take_from-Balanced k true none [] s p q b = b
  take_from-Balanced k true (some f) es s p q b = b
  take_from-Balanced k false hand es s p q b = b

  finish-Balanced :
      (k : ℕ) (hand : Option Event) (s : AggregatorService T)
      → s.in_hand ≡ hand
      → Balanced k s
      → Balanced k (finish table hand s)
  finish-Balanced k none s p b = b
  finish-Balanced k (some e) s p b =
      process-Balanced k e (record s { in_hand = none }) (omega (arith, b, ap held p))

  abandon-Balanced :
      (k : ℕ) (stored : Bool) (hand : Option Event) (s : AggregatorService T)
      → s.in_hand ≡ hand
      → Balanced k s
      → Balanced (held hand + k) (abandon table stored hand s)
  abandon-Balanced k stored none s p b = omega (arith, b)
  abandon-Balanced k stored (some e) s p b = omega (arith, b, ap held p)

  run-Balanced :
      (k : ℕ) (c : Call) (s : AggregatorService T)
      → Balanced k s
      → Balanced (abandons c s + k) (run table c s)
  unfolding run publish
  run-Balanced k (publishes es) s b = omega (arith, enqueue_each-Balanced k es s b)
  run-Balanced k takes s b =
      omega (arith, take_from-Balanced k s.running s.in_hand s.queue s refl refl b)
  run-Balanced k finishes s b = omega (arith, finish-Balanced k s.in_hand s refl b)
  run-Balanced k starts s b = omega (arith, b)
  run-Balanced k (raises stored) s b = abandon-Balanced k stored s.in_hand s refl b
  run-Balanced k (stops stored) s b = abandon-Balanced k stored s.in_hand s refl b

  run_all-Balanced :
      (k : ℕ) (cs : List Call) (s : AggregatorService T)
      → Balanced k s
      → Balanced (abandoned cs s + k) (run_all table cs s)
  unfolding run_all
  run_all-Balanced k [] s b = omega (arith, b)
  run_all-Balanced k (c ∷ cs) s b =
      omega (arith, run_all-Balanced (abandons c s + k) cs (run table c s) (run-Balanced k c s b))

  -- On a new service, in every run of requests, starts, stops and steps of the worker with exceptions
  -- of the store anywhere, `received` is the number of unique events, dropped duplicates, queued
  -- events, the event that the worker has taken and not counted yet, if any, and the events that the
  -- worker had in its hand when the store raised or `stop` cancelled it. Those are in no counter;
  -- otherwise no event is lost, and none is counted twice.
  pub counters_add_up :
      (cs : List Call) (store : T)
      → let s = run_all table cs (new_service store) in
        s.received
        ≡ s.unique_processed
          + s.duplicate_dropped
          + length s.queue
          + held s.in_hand
          + abandoned cs (new_service store)
  counters_add_up cs store = omega (arith, run_all-Balanced 0 cs (new_service store) (omega arith))

  -- The table has a row for each event's key.
  abbrev Stored : List Event → T → Type 0
  Stored es t = All (λ e. table.has e t ≡ true) es

  has-process :
      (e f : Event) (s : AggregatorService T)
      → table.has f s.store ≡ true
      → table.has f (process table e s).store ≡ true
  has-process e f s h =
      subst (λ t. table.has f t ≡ true) (sym (process_lem e s).4) (table.others e f s.store h)

  has-process_all :
      (es : List Event) (f : Event) (s : AggregatorService T)
      → table.has f s.store ≡ true
      → table.has f (process_all table es s).store ≡ true
  unfolding process_all
  has-process_all [] f s h = h
  has-process_all (e ∷ es) f s h = has-process_all es f (process table e s) (has-process e f s h)

  process_all-Stored :
      (es : List Event) (s : AggregatorService T) → Stored es (process_all table es s).store
  unfolding process_all
  process_all-Stored [] s = tt
  process_all-Stored (e ∷ es) s =
      let now_there =
        subst (λ t. table.has e t ≡ true) (sym (process_lem e s).4) (table.stored e s.store) in
      (
        has-process_all es e (process table e s) now_there,
        process_all-Stored es (process table e s),
      )

  process_all_known :
      (es : List Event) (s : AggregatorService T)
      → Stored es s.store
      → let s' = process_all table es s in
        (s'.unique_processed ≡ s.unique_processed)
        × (s'.duplicate_dropped ≡ s.duplicate_dropped + length es)
  unfolding process_all
  process_all_known [] s h = (refl, omega arith)
  process_all_known (e ∷ es) s h =
      let (r, q, u, d, st, hand) = process_lem e s in
      let kept =
        All-map (λ f. table.has f s.store ≡ true)
          (λ f. table.has f (process table e s).store ≡ true) es (λ f x. has-process e f s x) h.1 in
      let rest = process_all_known es (process table e s) kept in
      (ground (arith, rest.0, u, h.0), ground (arith, rest.1, d, h.0))

  -- A batch that the worker has processed is dropped whole when it comes again: no event of it is
  -- counted as unique a second time.
  pub repeated_batch_dropped :
      (es : List Event) (s : AggregatorService T)
      → let once = process_all table es s in
        let twice = process_all table es once in
        (twice.unique_processed ≡ once.unique_processed)
        × (twice.duplicate_dropped ≡ once.duplicate_dropped + length es)
  repeated_batch_dropped es s =
      process_all_known es (process_all table es s) (process_all-Stored es s)
