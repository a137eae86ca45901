-- ===== src/Ingest/Storage.antt =====
-- `Database` of uas/aggregator/app/db.py.
use sistem_paralel_terdistri.Common.{
  Bool, List, Option, [], if◌then◌else◌, none, not, some, true, ℕ, ◌++◌, ◌+◌, ◌∷◌, ◌≡◌,
}
use sistem_paralel_terdistri.Ingest.Schemas.{Event, same_key}

-- What `process_event` relies on: the INSERT with ON CONFLICT (topic, event_id) DO NOTHING RETURNING
-- into `processed_events` returns a row exactly if no row with that key is there, and then adds one.
pub record EventTable (T : Type 0) : Type 0 where
  pub has : Event → T → Bool
  pub insert_returning : Event → T → T × Bool
  pub returned : (e : Event) (t : T) → (insert_returning e t).1 ≡ not (has e t)
  pub stored :
      (e f : Event) (t : T)
      → has f (insert_returning e t).0 ≡ (if same_key e f then true else has f t)
  pub keyed : (e f : Event) (t : T) → same_key e f ≡ true → has e t ≡ has f t

pub data Action : Type 0 where
  processed duplicate : Action

-- A row of `audit_log`.
pub record AuditRow : Type 0 where
  pub event : Event
  pub action : Action
  pub worker : ℕ

-- The tables; the three counters are the rows of `aggregator_stats`.
pub record Database (T : Type 0) : Type 0 where
  pub processed_events : T
  pub received : ℕ
  pub unique_processed : ℕ
  pub duplicate_dropped : ℕ
  pub audit_log : List AuditRow

-- How an `await` of a database or Redis command ends: `done`; `refused`, with a `ResponseError`;
-- `failed`, with another exception and no effect; `unknown`, with an exception although the command
-- took effect, as when the answer is lost.
pub data Await : Type 0 where
  done refused failed unknown : Await

-- The state after the command.
abbrev pub effect : {A : Type 0} → Await → A → A → A
effect done old new = new
effect refused old new = old
effect failed old new = old
effect unknown old new = new

-- The command's result; `none` for an exception.
abbrev pub result : {A : Type 0} → Await → A → Option A
result done a = some a
result refused a = none
result failed a = none
result unknown a = none

module _ {T : Type 0} where
  -- The tables as they are set up.
  abbrev pub new_database : T → Database T
  new_database t = record {
    processed_events = t;
    received = 0;
    unique_processed = 0;
    duplicate_dropped = 0;
    audit_log = [];
  }

  unfoldable pub incr_received : Await → ℕ → Database T → Database T
  incr_received w n db = effect w db (record db { received = db.received + n })

  -- The transaction of `process_event`.
  unfoldable pub transact : EventTable T → Event → ℕ → Database T → Database T × Bool
  transact table e worker db =
      let (t, is_new) = table.insert_returning e db.processed_events in
      (
        record db {
          processed_events = t;
          unique_processed = if is_new then db.unique_processed + 1 else db.unique_processed;
          duplicate_dropped = if is_new then db.duplicate_dropped else db.duplicate_dropped + 1;
          audit_log =
              db.audit_log
              ++ record {
                event = e;
                action = if is_new then processed else duplicate;
                worker = worker;
              }
                ∷ [];
        },
        is_new,
      )

  -- A transaction takes effect as a whole or not at all.
  unfoldable pub process_event :
      EventTable T → Await → Event → ℕ → Database T → Database T × Option Bool
  process_event table w e worker db =
      let (db', is_new) = transact table e worker db in (effect w db db', result w is_new)
