-- ===== src/Ingest/Consumer.antt =====
-- `worker_loop` of uas/aggregator/app/consumer.py, one `await` at a time.
use sistem_paralel_terdistri.Common.{
  Bool, List, Option, [], if◌then◌else◌, none, some, ℕ, ◌%◌, ◌++◌, ◌+◌, ◌==◌, ◌∷◌,
}
use sistem_paralel_terdistri.Ingest.Broker.{
  EventJson, Received, RedisStream, ack_ids, claim_stale, read_group,
}
use sistem_paralel_terdistri.Ingest.Storage.{Await, Database, EventTable, process_event}

-- Where a worker stands: before the loop body, with claimed messages left, before the acknowledgement
-- of a claimed one, before the read, with new messages left and the ids to acknowledge, and before
-- their acknowledgement.
pub data Phase : Type 0 where
  at_top : Phase
  claimed : List Received → Phase
  claim_done : ℕ → List Received → Phase
  reading : Phase
  doing : List Received → List ℕ → Phase
  acking : List ℕ → Phase

pub record Worker : Type 0 where
  pub name : ℕ
  pub idle_cycles : ℕ
  pub phase : Phase

abbrev pub new_worker : ℕ → Worker
new_worker name = record { name = name; idle_cycles = 0; phase = at_top }

abbrev pub go : Phase → Worker → Worker
go p w = record w { phase = p }

-- After a claim: an exception ends the round.
abbrev pub on_claim : Worker → Option (List Received) → Worker
on_claim w none = go at_top w
on_claim w (some msgs) = go (claimed msgs) w

-- `if not msgs: idle_cycles += 1; continue`
abbrev pub on_read : Worker → Option (List Received) → Worker
on_read w none = go at_top w
on_read w (some []) = record w { idle_cycles = w.idle_cycles + 1; phase = at_top }
on_read w (some (m ∷ ms)) = record w { idle_cycles = 0; phase = doing (m ∷ ms) [] }

-- After the transaction of a claimed message; an exception ends the round.
abbrev pub on_claimed : ℕ → List Received → Worker → Option Bool → Worker
on_claimed id rest w none = go at_top w
on_claimed id rest w (some is_new) = go (claim_done id rest) w

-- After the transaction of a new message; an exception leaves its id out.
abbrev pub on_processed : ℕ → List Received → List ℕ → Worker → Option Bool → Worker
on_processed id rest ids w none = go (doing rest ids) w
on_processed id rest ids w (some is_new) = go (doing rest (ids ++ id ∷ [])) w

abbrev pub on_claim_acked : List Received → Worker → Option (List ℕ) → Worker
on_claim_acked rest w none = go at_top w
on_claim_acked rest w (some ids) = go (claimed rest) w

module _ {T S Text : Type 0} (table : EventTable T) (redis : RedisStream S Text)
    (json : EventJson Text) where
  -- The next `await` of a worker, which ends as `a`; `now` is the time at the Redis server.
  unfoldable pub advance : Await → ℕ → Worker → Phase → Database T → S → Worker × Database T × S
  advance a now w at_top db s =
      if w.idle_cycles % 5 == 0
      then (let (s', msgs) = claim_stale redis json a now 50 s in (on_claim w msgs, db, s'))
      else (go reading w, db, s)
  advance a now w (claimed []) db s = (go reading w, db, s)
  advance a now w (claimed ((id, e) ∷ rest)) db s =
      let (db', r) = process_event table a e w.name db in (on_claimed id rest w r, db', s)
  advance a now w (claim_done id rest) db s =
      let (s', r) = ack_ids redis json a (id ∷ []) s in (on_claim_acked rest w r, db, s')
  advance a now w reading db s =
      let (s', msgs) = read_group redis json a 50 s in (on_read w msgs, db, s')
  advance a now w (doing [] ids) db s = (go (acking ids) w, db, s)
  advance a now w (doing ((id, e) ∷ rest) ids) db s =
      let (db', r) = process_event table a e w.name db in (on_processed id rest ids w r, db', s)
  advance a now w (acking ids) db s =
      let (s', r) = ack_ids redis json a ids s in (go at_top w, db, s')
