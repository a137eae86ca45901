-- ===== src/Ingest/System.antt =====
-- The publish requests of uas/aggregator/app/main.py beside the workers of
-- uas/aggregator/app/consumer.py, in any interleaving of their `await`s.
use sistem_paralel_terdistri.Common.{
  List, Option, [], if◌then◌else◌, length, none, some, ℕ, ◌==◌, ◌∷◌,
}
use sistem_paralel_terdistri.Ingest.Broker.{EventJson, RedisStream, publish}
use sistem_paralel_terdistri.Ingest.Consumer.{Worker, advance, new_worker}
use sistem_paralel_terdistri.Ingest.Schemas.{Event, parse_events}
use sistem_paralel_terdistri.Ingest.Storage.{Await, Database, EventTable, incr_received, result}

-- `requests` are the validated events that a request has still to publish.
pub record System (T S : Type 0) : Type 0 where
  pub database : Database T
  pub stream : S
  pub requests : ℕ → List Event
  pub workers : ℕ → Worker

abbrev pub set_at : {A : Type 0} → ℕ → A → (ℕ → A) → ℕ → A
set_at i a f j = if i == j then a else f j

-- What happens next: a request with its items, the next event of a request, the next `await` of a
-- worker, or a worker that is killed and started anew.
pub data Call (R : Type 0) : Type 0 where
  request : ℕ → List R → Await → Call R
  push : ℕ → Await → Call R
  work : ℕ → ℕ → Await → Call R
  restart : ℕ → Call R

module _ {T S Text R : Type 0} (table : EventTable T) (redis : RedisStream S Text)
    (json : EventJson Text) (validate : R → Option Event) where
  -- `publish` up to its loop: validation of the whole body, and `incr_received`.
  abbrev pub start_request : ℕ → Await → Option (List Event) → System T S → System T S
  start_request i a none y = y
  start_request i a (some es) y = record y {
    database = incr_received a (length es) y.database;
    requests = set_at i (elim (result a es) [ none ↦ [] | some l ↦ l ]) y.requests;
  }

  -- One round of the loop of `publish`; an exception ends the request.
  abbrev pub push_next : ℕ → Await → List Event → System T S → System T S
  push_next i a [] y = y
  push_next i a (e ∷ es) y =
      let (s, id) = publish redis json a e y.stream in
      record y { stream = s; requests = set_at i (elim id [ none ↦ [] | some n ↦ es ]) y.requests }

  unfoldable pub run : Call R → System T S → System T S
  run (request i raw a) y = start_request i a (parse_events validate raw) y
  run (push i a) y = push_next i a (y.requests i) y
  run (work i now a) y =
      let (w, db, s) =
        advance table redis json a now (y.workers i) (y.workers i).phase y.database y.stream in
      record y { database = db; stream = s; workers = set_at i w y.workers }
  run (restart i) y = record y { workers = set_at i (new_worker (y.workers i).name) y.workers }

  unfoldable pub run_all : List (Call R) → System T S → System T S
  run_all [] y = y
  run_all (c ∷ cs) y = run_all cs (run c y)
