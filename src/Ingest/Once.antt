-- ===== src/Ingest/Once.antt =====
-- An event counts once, however often it is delivered: uas/aggregator/app/db.py and consumer.py.
use sistem_paralel_terdistri.Common.{
  Bool-cases, List, Option, [], ap, arith, false, inl, inr, length, none, refl, some, subst, sym, ℕ,
  ◌%◌, ◌+◌, ◌==◌, ◌∷◌, ◌≡◌,
}
use sistem_paralel_terdistri.Ingest.Audit.{
  IsOnce, bit, process_event-IsOnce, received-IsOnce, rows_processed, times_processed,
}
use sistem_paralel_terdistri.Ingest.Broker.{EventJson, RedisStream}
use sistem_paralel_terdistri.Ingest.Consumer.{
  Phase, Worker, acking, advance, at_top, claim_done, claimed, doing, reading,
}
use sistem_paralel_terdistri.Ingest.Schemas.{Event, parse_events}
use sistem_paralel_terdistri.Ingest.Storage.{Await, Database, EventTable, new_database}
use sistem_paralel_terdistri.Ingest.System.{
  Call, System, push, push_next, request, restart, run, run_all, start_request, work,
}

module _ {T S Text R : Type 0} (table : EventTable T) (redis : RedisStream S Text)
    (json : EventJson Text) (validate : R → Option Event) where
  advance-IsOnce :
      (a : Await) (now : ℕ) (w : Worker) (p : Phase) (db : Database T) (s : S)
      → IsOnce table db
      → IsOnce table (advance table redis json a now w p db s).1
  unfolding advance
  advance-IsOnce a now w at_top db s h = elim (Bool-cases (w.idle_cycles % 5 == 0)) [
    | inl e ↦ rw e h
    | inr e ↦ rw e h
  ]
  advance-IsOnce a now w (claimed []) db s h = h
  advance-IsOnce a now w (claimed ((id, e) ∷ rest)) db s h =
      process_event-IsOnce table a e w.name db h
  advance-IsOnce a now w (claim_done id rest) db s h = h
  advance-IsOnce a now w reading db s h = h
  advance-IsOnce a now w (doing [] ids) db s h = h
  advance-IsOnce a now w (doing ((id, e) ∷ rest) ids) db s h =
      process_event-IsOnce table a e w.name db h
  advance-IsOnce a now w (acking ids) db s h = h

  start_request-IsOnce :
      (i : ℕ) (a : Await) (o : Option (List Event)) (y : System T S)
      → IsOnce table y.database
      → IsOnce table (start_request table redis json validate i a o y).database
  start_request-IsOnce i a none y h = h
  start_request-IsOnce i a (some es) y h = received-IsOnce table a (length es) y.database h

  push_next-IsOnce :
      (i : ℕ) (a : Await) (es : List Event) (y : System T S)
      → IsOnce table y.database
      → IsOnce table (push_next table redis json validate i a es y).database
  push_next-IsOnce i a [] y h = h
  push_next-IsOnce i a (e ∷ es) y h = h

  run-IsOnce :
      (c : Call R) (y : System T S)
      → IsOnce table y.database
      → IsOnce table (run table redis json validate c y).database
  unfolding run
  run-IsOnce (request i raw a) y h = start_request-IsOnce i a (parse_events validate raw) y h
  run-IsOnce (push i a) y h = push_next-IsOnce i a (y.requests i) y h
  run-IsOnce (work i now a) y h =
      advance-IsOnce a now (y.workers i) (y.workers i).phase y.database y.stream h
  run-IsOnce (restart i) y h = h

  run_all-IsOnce :
      (cs : List (Call R)) (y : System T S)
      → IsOnce table y.database
      → IsOnce table (run_all table redis json validate cs y).database
  unfolding run_all
  run_all-IsOnce [] y h = h
  run_all-IsOnce (c ∷ cs) y h = run_all-IsOnce cs _ (run-IsOnce c y h)

  -- From an empty database, whatever requests, deliveries, failures, lost answers and restarts of
  -- workers come in whatever order: the audit log has one row that an event was processed if its key is
  -- in the table and none otherwise, the unique events are those rows, and unique and duplicate
  -- deliveries together are all rows.
  pub processed_exactly_once :
      (cs : List (Call R)) (y : System T S)
      → y.database ≡ new_database (y.database.processed_events)
      → ((e : Event) → table.has e y.database.processed_events ≡ false)
      → let db = (run_all table redis json validate cs y).database in
        ((e : Event) → times_processed e db.audit_log ≡ bit (table.has e db.processed_events))
        × (db.unique_processed ≡ rows_processed db.audit_log)
        × (db.unique_processed + db.duplicate_dropped ≡ length db.audit_log)
  processed_exactly_once cs y new none_there =
      let t = y.database.processed_events in
      let start : IsOnce table (new_database t) = record {
        once = λ e. ap bit (sym (none_there e));
        uniques = refl;
        all = omega arith;
      } in
      let h = run_all-IsOnce cs y (subst (IsOnce table) (sym new) start) in
      (h.once, h.uniques, h.all)
