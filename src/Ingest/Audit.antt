-- ===== src/Ingest/Audit.antt =====
-- The audit log and the counters of uas/aggregator/app/db.py.
use sistem_paralel_terdistri.Common.{
  Bool, Bool-cases, List, [], ap, arith, false, if◌then◌else◌, inl, inr, length, length-append,
  refl, sym, true, ℕ, ◌++◌, ◌+◌, ◌∙◌, ◌∷◌, ◌≡◌,
}
use sistem_paralel_terdistri.Ingest.Schemas.{Event, same_key}
use sistem_paralel_terdistri.Ingest.Storage.{
  Action, AuditRow, Await, Database, EventTable, done, duplicate, failed, incr_received,
  process_event, processed, refused, transact, unknown,
}

-- 1 for true.
abbrev pub bit : Bool → ℕ
bit true = 1
bit false = 0

abbrev pub one_if_processed : Action → ℕ
one_if_processed processed = 1
one_if_processed duplicate = 0

-- The rows of the audit log that say that an event with the key of `e` was processed.
abbrev pub times_processed : Event → List AuditRow → ℕ
times_processed e [] = 0
times_processed e (row ∷ rows) =
    (if same_key row.event e then one_if_processed row.action else 0) + times_processed e rows

-- All rows that say that an event was processed.
abbrev pub rows_processed : List AuditRow → ℕ
rows_processed [] = 0
rows_processed (row ∷ rows) = one_if_processed row.action + rows_processed rows

times_processed-append :
    (e : Event) (rows more : List AuditRow)
    → times_processed e (rows ++ more) ≡ times_processed e rows + times_processed e more
times_processed-append e [] more = omega arith
times_processed-append e (row ∷ rows) more = omega (arith, times_processed-append e rows more)

rows_processed-append :
    (rows more : List AuditRow)
    → rows_processed (rows ++ more) ≡ rows_processed rows + rows_processed more
rows_processed-append [] more = omega arith
rows_processed-append (row ∷ rows) more = omega (arith, rows_processed-append rows more)

module _ {T : Type 0} (table : EventTable T) where
  -- An event was processed once if its row is there, and never otherwise, and the counters are those of
  -- the audit log.
  pub record IsOnce (db : Database T) : Type 0 where
    pub once : (e : Event) → times_processed e db.audit_log ≡ bit (table.has e db.processed_events)
    pub uniques : db.unique_processed ≡ rows_processed db.audit_log
    pub all : db.unique_processed + db.duplicate_dropped ≡ length db.audit_log

  abbrev row_of : Event → Action → ℕ → List AuditRow
  row_of e action worker = record { event = e; action = action; worker = worker } ∷ []

  -- The log after a delivery that was no news, and after the first.
  repeat-once :
      (e f : Event) (worker : ℕ) (db : Database T)
      → IsOnce db
      → table.has e db.processed_events ≡ true
      → times_processed f (db.audit_log ++ row_of e duplicate worker)
        ≡ bit (table.has f (table.insert_returning e db.processed_events).0)
  repeat-once e f worker db h p = elim (Bool-cases (same_key e f)) [
    | inl q ↦
        let k : times_processed f db.audit_log ≡ 1 =
          h.once f ∙ ap bit (sym (table.keyed e f db.processed_events q) ∙ p) in
        rw (table.stored, q)
          (ground (arith, k, times_processed-append f db.audit_log (row_of e duplicate worker), q))
    | inr q ↦
        let k : times_processed f db.audit_log ≡ bit (table.has f db.processed_events) = h.once f in
        rw (table.stored, q)
          (ground (arith, times_processed-append f db.audit_log (row_of e duplicate worker), k, q))
  ]

  first-once :
      (e f : Event) (worker : ℕ) (db : Database T)
      → IsOnce db
      → table.has e db.processed_events ≡ false
      → times_processed f (db.audit_log ++ row_of e processed worker)
        ≡ bit (table.has f (table.insert_returning e db.processed_events).0)
  first-once e f worker db h p = elim (Bool-cases (same_key e f)) [
    | inl q ↦
        let k : times_processed f db.audit_log ≡ 0 =
          h.once f ∙ ap bit (sym (table.keyed e f db.processed_events q) ∙ p) in
        rw (table.stored, q)
          (ground (arith, k, times_processed-append f db.audit_log (row_of e processed worker), q))
    | inr q ↦
        let k : times_processed f db.audit_log ≡ bit (table.has f db.processed_events) = h.once f in
        rw (table.stored, q)
          (ground (arith, times_processed-append f db.audit_log (row_of e processed worker), k, q))
  ]

  transact-IsOnce :
      (e : Event) (worker : ℕ) (db : Database T) → IsOnce db → IsOnce (transact table e worker db).0
  unfolding transact
  transact-IsOnce e worker db h = elim (Bool-cases (table.has e db.processed_events)) [
    | inl p ↦
        let r : (table.insert_returning e db.processed_events).1 ≡ false =
          table.returned e db.processed_events ∙ rw p refl in
        rw (transact, r)
          (record {
            once = λ f. repeat-once e f worker db h p;
            uniques =
                omega (
                  arith,
                  h.uniques,
                  rows_processed-append db.audit_log (row_of e duplicate worker),
                );
            all = omega (arith, h.all, length-append db.audit_log (row_of e duplicate worker));
          })
    | inr p ↦
        let r : (table.insert_returning e db.processed_events).1 ≡ true =
          table.returned e db.processed_events ∙ rw p refl in
        rw (transact, r)
          (record {
            once = λ f. first-once e f worker db h p;
            uniques =
                omega (
                  arith,
                  h.uniques,
                  rows_processed-append db.audit_log (row_of e processed worker),
                );
            all = omega (arith, h.all, length-append db.audit_log (row_of e processed worker));
          })
  ]

  pub process_event-IsOnce :
      (a : Await) (e : Event) (worker : ℕ) (db : Database T)
      → IsOnce db
      → IsOnce (process_event table a e worker db).0
  unfolding process_event
  process_event-IsOnce done e worker db h = transact-IsOnce e worker db h
  process_event-IsOnce refused e worker db h = h
  process_event-IsOnce failed e worker db h = h
  process_event-IsOnce unknown e worker db h = transact-IsOnce e worker db h

  pub received-IsOnce :
      (a : Await) (n : ℕ) (db : Database T) → IsOnce db → IsOnce (incr_received a n db)
  unfolding incr_received
  received-IsOnce done n db h = record { once = h.once; uniques = h.uniques; all = h.all }
  received-IsOnce refused n db h = h
  received-IsOnce failed n db h = h
  received-IsOnce unknown n db h = record { once = h.once; uniques = h.uniques; all = h.all }
