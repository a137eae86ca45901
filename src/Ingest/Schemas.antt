-- ===== src/Ingest/Schemas.antt =====
-- The events of uas/aggregator/app/schemas.py and the validation of uas/aggregator/app/main.py.
use sistem_paralel_terdistri.Common.{
  Bool, List, Option, [], if◌then◌else◌, is_empty, none, some, ℕ, ◌&&◌, ◌==◌, ◌∷◌,
}

pub record Event : Type 0 where
  pub topic : ℕ
  pub event_id : ℕ
  pub timestamp : ℕ
  pub source : ℕ
  pub payload : ℕ

-- The unique columns of `processed_events`.
abbrev pub same_key : Event → Event → Bool
same_key e f = e.topic == f.topic && e.event_id == f.event_id

abbrev pub and_then : Option Event → Option (List Event) → Option (List Event)
and_then none rest = none
and_then (some e) none = none
and_then (some e) (some es) = some (e ∷ es)

-- `[Event(**item) for item in raw]`, where `validate` stands for pydantic's validation of an item;
-- `none` for the exception.
unfoldable pub validate_all : {R : Type 0} → (R → Option Event) → List R → Option (List Event)
validate_all validate [] = some []
validate_all validate (r ∷ rs) = and_then (validate r) (validate_all validate rs)

-- `_parse_events` on a list; `none` for the answer 422.
unfoldable pub parse_events : {R : Type 0} → (R → Option Event) → List R → Option (List Event)
parse_events validate raw = if is_empty raw then none else validate_all validate raw
