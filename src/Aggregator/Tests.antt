-- ===== src/Aggregator/Tests.antt =====
-- A table as a list of events, and a service that receives an event twice.
use sistem_paralel_terdistri.Common.{
  Bool, Bool-cases, List, [], arith, false, if◌then◌else◌, inl, inr, length, refl, some, true, ℕ,
  ◌+◌, ◌||◌, ◌∷◌, ◌≡◌,
}
use sistem_paralel_terdistri.Aggregator.Counts.{
  abandoned, counters_add_up, held, repeated_batch_dropped,
}
use sistem_paralel_terdistri.Aggregator.Service.{
  Call, enqueue_each, finishes, new_service, process, process_all, publish, publishes, raises, run,
  run_all, starts, takes,
}
use sistem_paralel_terdistri.Aggregator.Store.{DedupTable, Event, same_key}

abbrev listed : Event → List Event → Bool
listed e [] = false
listed e (f ∷ t) = same_key f e || listed e t

abbrev insert_new : Event → List Event → List Event × ℕ
insert_new e t = if listed e t then (t, 0) else (e ∷ t, 1)

same_key_refl : (e : Event) → same_key e e ≡ true
same_key_refl e = ground arith

insert_new_rowcount :
    (e : Event) (t : List Event) → (insert_new e t).1 ≡ (if listed e t then 0 else 1)
insert_new_rowcount e t = elim (Bool-cases (listed e t)) [ inl h ↦ rw h refl | inr h ↦ rw h refl ]

insert_new_stored : (e : Event) (t : List Event) → listed e (insert_new e t).0 ≡ true
insert_new_stored e t = elim (Bool-cases (listed e t)) [
  | inl h ↦ rw h h
  | inr h ↦ rw h (ground (arith, same_key_refl e))
]

insert_new_others :
    (e f : Event) (t : List Event) → listed f t ≡ true → listed f (insert_new e t).0 ≡ true
insert_new_others e f t known = elim (Bool-cases (listed e t)) [
  | inl h ↦ rw h known
  | inr h ↦ rw h (ground (arith, known))
]

abbrev rows : DedupTable (List Event)
rows = record {
  has = listed;
  insert_or_ignore = insert_new;
  rowcount = insert_new_rowcount;
  stored = insert_new_stored;
  others = insert_new_others;
}

abbrev event : ℕ → Event
event i = record { topic = 1; event_id = i; timestamp = 0; source = 2; payload = 3 }

-- The store raises on the first of three events, and a new worker takes the second.
abbrev calls : List Call
calls =
    starts
    ∷ publishes (event 5 ∷ event 5 ∷ event 6 ∷ [])
    ∷ takes
    ∷ raises false
    ∷ starts
    ∷ takes
    ∷ finishes
    ∷ takes
    ∷ []

counts :
    let s = run_all rows calls (new_service []) in
    (s.received ≡ 3)
    × (s.unique_processed ≡ 1)
    × (s.in_hand ≡ some (event 6))
    × (abandoned rows calls (new_service []) ≡ 1)
unfolding run run_all publish enqueue_each process
counts = (refl, refl, refl, refl)

counters_add_up_example :
    let s = run_all rows calls (new_service []) in
    s.received
    ≡ s.unique_processed
      + s.duplicate_dropped
      + length s.queue
      + held s.in_hand
      + abandoned rows calls (new_service [])
counters_add_up_example = counters_add_up rows calls []

repeated_batch_dropped_example :
    let once = process_all rows (event 5 ∷ event 6 ∷ []) (new_service []) in
    let twice = process_all rows (event 5 ∷ event 6 ∷ []) once in
    (twice.unique_processed ≡ once.unique_processed)
    × (twice.duplicate_dropped ≡ once.duplicate_dropped + 2)
repeated_batch_dropped_example =
    repeated_batch_dropped rows (event 5 ∷ event 6 ∷ []) (new_service [])
