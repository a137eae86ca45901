-- ===== src/Aggregator/Store.antt =====
-- The events of uts/src/models.py, and what `DedupStore.add_if_new` of uts/src/store.py relies on:
-- SQLite's INSERT OR IGNORE into a table with the primary key (topic, event_id).
use sistem_paralel_terdistri.Common.{Bool, if◌then◌else◌, true, ℕ, ◌&&◌, ◌==◌, ◌≡◌}

pub record Event : Type 0 where
  pub topic : ℕ
  pub event_id : ℕ
  pub timestamp : ℕ
  pub source : ℕ
  pub payload : ℕ

abbrev pub same_key : Event → Event → Bool
same_key e f = e.topic == f.topic && e.event_id == f.event_id

-- A table: whether a row with the event's key is there, and the statement with its row count. The
-- laws: a row is inserted exactly if its key is new, the key is then there, and the rows with other
-- keys are as before.
pub record DedupTable (T : Type 0) : Type 0 where
  pub has : Event → T → Bool
  pub insert_or_ignore : Event → T → T × ℕ
  pub rowcount : (e : Event) (t : T) → (insert_or_ignore e t).1 ≡ (if has e t then 0 else 1)
  pub stored : (e : Event) (t : T) → has e (insert_or_ignore e t).0 ≡ true
  pub others : (e f : Event) (t : T) → has f t ≡ true → has f (insert_or_ignore e t).0 ≡ true

-- `add_if_new`
abbrev pub add_if_new : {T : Type 0} → DedupTable T → Event → T → T × Bool
add_if_new table e t = let (t', n) = table.insert_or_ignore e t in (t', n == 1)
