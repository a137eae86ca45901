-- ===== src/Ingest/Tests.antt =====
-- Stand-ins for PostgreSQL's table and for the Redis stream, and a run on them.
use sistem_paralel_terdistri.Common.{
  All, Bool, Bool-cases, List, Option, [], arith, discard, false, get_elem?, if◌then◌else◌, inl,
  inr, length, ltb, member, member-append, member-discard, min, none, not, refl, some, suc, true,
  zero, ℕ, ◌++◌, ◌+◌, ◌-◌, ◌==◌, ◌∷◌, ◌≡◌, ◌⊎◌,
}
use sistem_paralel_terdistri.Ingest.Audit.{bit, rows_processed, times_processed}
use sistem_paralel_terdistri.Ingest.Broker.{
  EventJson, RedisStream, ack_ids, claim_stale, decode, normalize, publish, read_group,
}
use sistem_paralel_terdistri.Ingest.Consumer.{advance, new_worker}
use sistem_paralel_terdistri.Ingest.Once.{processed_exactly_once}
use sistem_paralel_terdistri.Ingest.Published.{published_never_lost}
use sistem_paralel_terdistri.Ingest.Schemas.{Event, parse_events, same_key, validate_all}
use sistem_paralel_terdistri.Ingest.Storage.{
  EventTable, done, incr_received, new_database, process_event, transact, unknown,
}
use sistem_paralel_terdistri.Ingest.System.{
  Call, System, push, request, restart, run, run_all, work,
}

abbrev has_row : Event → List Event → Bool
has_row e [] = false
has_row e (f ∷ fs) = if same_key f e then true else has_row e fs

abbrev insert_row : Event → List Event → List Event × Bool
insert_row e t = if has_row e t then (t, false) else (e ∷ t, true)

has_row-keyed : (e f : Event) (t : List Event) → same_key e f ≡ true → has_row e t ≡ has_row f t
has_row-keyed e f [] h = refl
has_row-keyed e f (g ∷ t) h = ground (arith, h, has_row-keyed e f t h)

insert_row-returned : (e : Event) (t : List Event) → (insert_row e t).1 ≡ not (has_row e t)
insert_row-returned e t = elim (Bool-cases (has_row e t)) [ inl h ↦ rw h refl | inr h ↦ rw h refl ]

insert_row-stored :
    (e f : Event) (t : List Event)
    → has_row f (insert_row e t).0 ≡ (if same_key e f then true else has_row f t)
insert_row-stored e f t = elim (Bool-cases (has_row e t)) [
  | inl h ↦ rw h (ground (arith, has_row-keyed e f t, h))
  | inr h ↦ rw h refl
]

abbrev rows : EventTable (List Event)
rows = record {
  has = has_row;
  insert_returning = insert_row;
  returned = insert_row-returned;
  stored = insert_row-stored;
  keyed = has_row-keyed;
}

-- A stream: its entries, how many the group has been given, and the ids that it has not acknowledged.
record Stream : Type 0 where
  entries : List Event
  delivered : ℕ
  opened : List ℕ

abbrev entry_at : ℕ → Stream → Option Event
entry_at id s = get_elem? s.entries id

abbrev add_entry : Event → Stream → Stream × ℕ
add_entry e s = (
  record s { entries = s.entries ++ e ∷ []; opened = s.opened ++ length s.entries ∷ [] },
  length s.entries,
)

abbrev numbered : Stream → ℕ → ℕ → List (ℕ × Option Event)
numbered s zero from = []
numbered s (suc k) from = (from, entry_at from s) ∷ numbered s k (suc from)

abbrev give : ℕ → Stream → Stream × List (ℕ × Option Event)
give n s =
    let k = min n (length s.entries - s.delivered) in
    (record s { delivered = s.delivered + k }, numbered s k s.delivered)

abbrev stale : Stream → List ℕ → List (ℕ × Option Event)
stale s [] = []
stale s (id ∷ ids) = if ltb id s.delivered then (id, entry_at id s) ∷ stale s ids else stale s ids

abbrev claim : ℕ → ℕ → Stream → Stream × List (ℕ × Option Event)
claim now n s = (s, stale s s.opened)

abbrev without : List ℕ → List ℕ → List ℕ
without [] l = l
without (id ∷ ids) l = without ids (discard id l)

abbrev close : List ℕ → Stream → Stream
close ids s = record s { opened = without ids s.opened }

get_elem?-length : (l : List Event) → get_elem? l (length l) ≡ none
get_elem?-length [] = refl
get_elem?-length (x ∷ l) = get_elem?-length l

get_elem?-append_last :
    (j : ℕ) (e : Event) (l : List Event)
    → get_elem? (l ++ e ∷ []) j ≡ (if length l == j then some e else get_elem? l j)
get_elem?-append_last zero e [] = refl
get_elem?-append_last (suc j) e [] = ground arith
get_elem?-append_last zero e (x ∷ l) = ground arith
get_elem?-append_last (suc j) e (x ∷ l) = ground (arith, get_elem?-append_last j e l)

add_entry-opened :
    (j : ℕ) (e : Event) (s : Stream)
    → member j (add_entry e s).0.opened
      ≡ (if (add_entry e s).1 == j then true else member j s.opened)
add_entry-opened j e s = ground (arith, member-append j s.opened (length s.entries ∷ []))

numbered-entries :
    (s : Stream) (k from : ℕ)
    → All (λ (x : ℕ × Option Event). x.1 ≡ entry_at x.0 s) (numbered s k from)
numbered-entries s zero from = tt
numbered-entries s (suc k) from = (refl, numbered-entries s k (suc from))

stale-entries :
    (s : Stream) (ids : List ℕ) → All (λ (x : ℕ × Option Event). x.1 ≡ entry_at x.0 s) (stale s ids)
stale-entries s [] = tt
stale-entries s (id ∷ ids) = elim (Bool-cases (ltb id s.delivered)) [
  | inl e ↦ rw e (refl, stale-entries s ids)
  | inr e ↦ rw e (stale-entries s ids)
]

member-without :
    (j : ℕ) (ids l : List ℕ)
    → member j (without ids l) ≡ (if member j ids then false else member j l)
member-without j [] l = refl
member-without j (id ∷ ids) l =
    ground (arith, member-without j ids (discard id l), member-discard j id l)

abbrev stream : RedisStream Stream Event
stream = record {
  entry = entry_at;
  is_open = λ id s. member id s.opened;
  xadd = add_entry;
  xreadgroup = give;
  xautoclaim = claim;
  xack = close;
  xadd-fresh = λ e s. get_elem?-length s.entries;
  xadd-entry = λ j e s. get_elem?-append_last j e s.entries;
  xadd-open = add_entry-opened;
  xreadgroup-entry = λ j n s. refl;
  xreadgroup-open = λ j n s. refl;
  xreadgroup-read = λ n s. numbered-entries s (min n (length s.entries - s.delivered)) s.delivered;
  xautoclaim-entry = λ j now n s. refl;
  xautoclaim-open = λ j now n s. refl;
  xautoclaim-read = λ now n s. stale-entries s s.opened;
  xack-entry = λ j ids s. refl;
  xack-open = λ j ids s. member-without j ids s.opened;
}

abbrev plain : EventJson Event
plain = record { dumps = λ e. e; loads = λ e. some e; loads-dumps = λ e. refl }

abbrev event : ℕ → Event
event i = record { topic = 1; event_id = i; timestamp = 100; source = 3; payload = 8 }

abbrev start : System (List Event) Stream
start = record {
  database = new_database [];
  stream = record { entries = []; delivered = 0; opened = [] };
  requests = λ i. [];
  workers = λ i. new_worker i;
}

abbrev accept : Event → Option Event
accept e = some e

-- A request with one event twice and another event.
abbrev request_made : List (Call Event)
request_made = request 0 (event 5 ∷ event 5 ∷ event 6 ∷ []) done ∷ []

-- Worker 0 reads all three; the answer to its second transaction is lost, and it is killed before it
-- acknowledges. Worker 1 takes the messages over.
abbrev taken_over : List (Call Event)
taken_over =
    push 0 done
    ∷ push 0 done
    ∷ work 0 1 done
    ∷ work 0 2 done
    ∷ work 0 3 done
    ∷ work 0 4 done
    ∷ work 0 5 unknown
    ∷ restart 0
    ∷ work 1 9 done
    ∷ work 1 9 done
    ∷ work 1 9 done
    ∷ work 1 9 done
    ∷ work 1 9 done
    ∷ []

program : Unit {0}
unfolding parse_events validate_all incr_received transact process_event normalize publish
    read_group claim_stale ack_ids advance run run_all
program = tt

abbrev finished : System (List Event) Stream
finished =
    run_all rows stream plain accept (push 0 done ∷ taken_over)
      (run_all rows stream plain accept request_made start)

-- The first event was processed once and dropped as a duplicate three times; the other is open.
outcome :
    (finished.database.received ≡ 3)
    × (finished.database.unique_processed ≡ 1)
    × (finished.database.duplicate_dropped ≡ 3)
    × (finished.stream.opened ≡ 2 ∷ [])
unfolding program
outcome = (refl, refl, refl, refl)

processed_exactly_once_example :
    let db =
      (run_all rows stream plain accept
        (request_made ++ push 0 done ∷ taken_over)
        start).database in
    ((e : Event) → times_processed e db.audit_log ≡ bit (rows.has e db.processed_events))
    × (db.unique_processed ≡ rows_processed db.audit_log)
    × (db.unique_processed + db.duplicate_dropped ≡ length db.audit_log)
processed_exactly_once_example =
    processed_exactly_once rows stream plain accept (request_made ++ push 0 done ∷ taken_over) start
      refl (λ e. refl)

published_never_lost_example :
    ((id : ℕ) × (decode plain (stream.entry id finished.stream) ≡ some (event 5))
      × (stream.is_open id finished.stream ≡ true))
    ⊎ (rows.has (event 5) finished.database.processed_events ≡ true)
unfolding program
published_never_lost_example =
    published_never_lost rows stream plain accept request_made taken_over 0 (event 5)
      (event 5 ∷ event 6 ∷ []) start ((λ id. refl), (λ i. refl)) refl
