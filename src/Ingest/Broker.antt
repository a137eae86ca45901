-- ===== src/Ingest/Broker.antt =====
-- `Broker` of uas/aggregator/app/broker.py over a Redis stream with one consumer group.
use sistem_paralel_terdistri.Common.{
  All, Bool, List, Option, [], false, if◌then◌else◌, is_empty, member, none, some, true, ℕ, ◌==◌,
  ◌∷◌, ◌≡◌,
}
use sistem_paralel_terdistri.Ingest.Schemas.{Event}
use sistem_paralel_terdistri.Ingest.Storage.{Await, done, effect, failed, refused, result, unknown}

-- What the broker relies on of Redis Streams. An entry is an id with its fields, of which only the
-- text under `data` counts; `none` for a deleted entry and one without it. `is_open` is an entry that
-- the group has not acknowledged. Ids are not given twice, and only XACK closes entries.
pub record RedisStream (S Text : Type 0) : Type 0 where
  pub entry : ℕ → S → Option Text
  pub is_open : ℕ → S → Bool
  pub xadd : Text → S → S × ℕ
  pub xreadgroup : ℕ → S → S × List (ℕ × Option Text)
  pub xautoclaim : ℕ → ℕ → S → S × List (ℕ × Option Text)
  pub xack : List ℕ → S → S
  pub xadd-fresh : (t : Text) (s : S) → entry (xadd t s).1 s ≡ none
  pub xadd-entry :
      (j : ℕ) (t : Text) (s : S)
      → entry j (xadd t s).0 ≡ (if (xadd t s).1 == j then some t else entry j s)
  pub xadd-open :
      (j : ℕ) (t : Text) (s : S)
      → is_open j (xadd t s).0 ≡ (if (xadd t s).1 == j then true else is_open j s)
  pub xreadgroup-entry : (j n : ℕ) (s : S) → entry j (xreadgroup n s).0 ≡ entry j s
  pub xreadgroup-open : (j n : ℕ) (s : S) → is_open j (xreadgroup n s).0 ≡ is_open j s
  pub xreadgroup-read :
      (n : ℕ) (s : S) → All (λ (x : ℕ × Option Text). x.1 ≡ entry x.0 s) (xreadgroup n s).1
  pub xautoclaim-entry : (j now n : ℕ) (s : S) → entry j (xautoclaim now n s).0 ≡ entry j s
  pub xautoclaim-open : (j now n : ℕ) (s : S) → is_open j (xautoclaim now n s).0 ≡ is_open j s
  pub xautoclaim-read :
      (now n : ℕ) (s : S) → All (λ (x : ℕ × Option Text). x.1 ≡ entry x.0 s) (xautoclaim now n s).1
  pub xack-entry : (j : ℕ) (ids : List ℕ) (s : S) → entry j (xack ids s) ≡ entry j s
  pub xack-open :
      (j : ℕ) (ids : List ℕ) (s : S)
      → is_open j (xack ids s) ≡ (if member j ids then false else is_open j s)

-- The json module on events: what `dumps` writes, `loads` reads back.
pub record EventJson (Text : Type 0) : Type 0 where
  pub dumps : Event → Text
  pub loads : Text → Option Event
  pub loads-dumps : (e : Event) → loads (dumps e) ≡ some e

-- A message as the worker sees it.
abbrev pub Received : Type 0
Received = ℕ × Event

-- The text of an entry, decoded.
abbrev pub decode : {Text : Type 0} → EventJson Text → Option Text → Option Event
decode json none = none
decode json (some t) = json.loads t

-- `_normalize`: entries that are deleted or are no JSON are passed over.
unfoldable pub normalize : {Text : Type 0} → EventJson Text → List (ℕ × Option Text) → List Received
normalize json [] = []
normalize json ((id, fields) ∷ entries) =
    let rest = normalize json entries in
    elim (decode json fields) [ none ↦ rest | some e ↦ (id, e) ∷ rest ]

module _ {S Text : Type 0} (redis : RedisStream S Text) (json : EventJson Text) where
  unfoldable pub publish : Await → Event → S → S × Option ℕ
  publish w e s = let (s', id) = redis.xadd (json.dumps e) s in (effect w s s', result w id)

  unfoldable pub read_group : Await → ℕ → S → S × Option (List Received)
  read_group w n s =
      let (s', entries) = redis.xreadgroup n s in (effect w s s', result w (normalize json entries))

  -- A `ResponseError` is an empty answer.
  abbrev pub claim_result : Await → List Received → Option (List Received)
  claim_result refused msgs = some []
  claim_result done msgs = some msgs
  claim_result failed msgs = none
  claim_result unknown msgs = none

  unfoldable pub claim_stale : Await → ℕ → ℕ → S → S × Option (List Received)
  claim_stale w now n s =
      let (s', entries) = redis.xautoclaim now n s in
      (effect w s s', claim_result w (normalize json entries))

  -- `ack`; `none` for an exception.
  unfoldable pub ack_ids : Await → List ℕ → S → S × Option (List ℕ)
  ack_ids w ids s =
      if is_empty ids then (s, some []) else (effect w s (redis.xack ids s), result w ids)
