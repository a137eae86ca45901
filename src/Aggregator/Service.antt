-- ===== src/Aggregator/Service.antt =====
-- `AggregatorService` of uts/src/service.py. The worker is a task beside the requests: it takes an
-- event, and until the store's thread answers the event is in its hand and requests may run.
use sistem_paralel_terdistri.Common.{
  Bool, List, Option, [], false, length, none, some, true, ℕ, ◌++◌, ◌+◌, ◌∷◌,
}
use sistem_paralel_terdistri.Aggregator.Store.{DedupTable, Event, add_if_new}

pub record AggregatorService (T : Type 0) : Type 0 where
  pub store : T
  pub queue : List Event
  pub received : ℕ
  pub unique_processed : ℕ
  pub duplicate_dropped : ℕ
  pub running : Bool
  pub in_hand : Option Event

abbrev pub new_service : {T : Type 0} → T → AggregatorService T
new_service store = record {
  store = store;
  queue = [];
  received = 0;
  unique_processed = 0;
  duplicate_dropped = 0;
  running = false;
  in_hand = none;
}

-- What happens to a service between two awaits: a request; the worker's `queue.get`; the answer of
-- the store's thread, or an exception of it; `start`; and `stop`, which cancels the worker. An
-- exception and a cancellation may come before or after the row is stored.
pub data Call : Type 0 where
  publishes : List Event → Call
  takes finishes starts : Call
  raises stops : (stored : Bool) → Call

module _ {T : Type 0} where
  -- The loop of `publish`.
  unfoldable pub enqueue_each : List Event → AggregatorService T → AggregatorService T
  enqueue_each [] s = s
  enqueue_each (e ∷ es) s =
      enqueue_each es (record s { received = s.received + 1; queue = s.queue ++ e ∷ [] })

  -- `publish`, with the accepted count and the queue's size.
  unfoldable pub publish : List Event → AggregatorService T → AggregatorService T × ℕ × ℕ
  publish events s = let s' = enqueue_each events s in (s', length events, length s'.queue)

  -- The counters after an insertion.
  abbrev pub note : Bool → AggregatorService T → AggregatorService T
  note true s = record s { unique_processed = s.unique_processed + 1 }
  note false s = record s { duplicate_dropped = s.duplicate_dropped + 1 }

  -- The body of the `try` where `add_if_new` returns.
  unfoldable pub process : DedupTable T → Event → AggregatorService T → AggregatorService T
  process table e s =
      let (store, inserted) = add_if_new table e s.store in
      note inserted (record s { store = store })

  -- `await self.queue.get()` of a running worker; on an empty queue it waits.
  abbrev pub take_from :
      Bool → Option Event → List Event → AggregatorService T → AggregatorService T
  take_from true none (e ∷ es) s = record s { queue = es; in_hand = some e }
  take_from true none [] s = s
  take_from true (some f) es s = s
  take_from false hand es s = s

  -- The worker goes on when the thread has answered.
  abbrev pub finish : DedupTable T → Option Event → AggregatorService T → AggregatorService T
  finish table none s = s
  finish table (some e) s = process table e (record s { in_hand = none })

  -- The row of an event whose result nobody reads.
  abbrev pub store_unread : DedupTable T → Bool → Event → T → T
  store_unread table true e t = (add_if_new table e t).0
  store_unread table false e t = t

  -- An exception in the `try` leaves `_worker` through the `finally`: the event is in no counter, and
  -- the task is done.
  abbrev pub abandon :
      DedupTable T → Bool → Option Event → AggregatorService T → AggregatorService T
  abandon table stored none s = s
  abandon table stored (some e) s = record s {
    in_hand = none;
    running = false;
    store = store_unread table stored e s.store;
  }

  abbrev pub start : AggregatorService T → AggregatorService T
  start s = record s { running = true }

  abbrev pub stop : DedupTable T → Bool → AggregatorService T → AggregatorService T
  stop table stored s = record (abandon table stored s.in_hand s) { running = false }

  unfoldable pub run : DedupTable T → Call → AggregatorService T → AggregatorService T
  run table (publishes es) s = (publish es s).0
  run table takes s = take_from s.running s.in_hand s.queue s
  run table finishes s = finish table s.in_hand s
  run table starts s = start s
  run table (raises stored) s = abandon table stored s.in_hand s
  run table (stops stored) s = stop table stored s

  unfoldable pub run_all : DedupTable T → List Call → AggregatorService T → AggregatorService T
  run_all table [] s = s
  run_all table (c ∷ cs) s = run_all table cs (run table c s)

  -- The worker on a list of events.
  unfoldable pub process_all : DedupTable T → List Event → AggregatorService T → AggregatorService T
  process_all table [] s = s
  process_all table (e ∷ es) s = process_all table es (process table e s)
