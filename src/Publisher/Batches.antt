-- ===== src/Publisher/Batches.antt =====
-- `chunk` and `send_batches` of uas/publisher/publisher.py.
use sistem_paralel_terdistri.Common.{
  List, [], drop, false, if◌then◌else◌, length, ltb, suc, take, true, zero, ℕ, ◌+◌, ◌==◌, ◌∷◌,
}

-- The loop of `chunk` from position `i`; the number of items is enough fuel.
unfoldable pub chunk_from : {A : Type 0} → ℕ → List A → ℕ → ℕ → List (List A)
chunk_from zero items size i = []
chunk_from (suc fuel) items size i =
    let rest = chunk_from fuel items size (i + size) in
    if ltb i (length items) then take size (drop i items) ∷ rest else []

unfoldable pub chunk : {A : Type 0} → List A → ℕ → List (List A)
chunk items size = chunk_from (length items) items size 0

-- How an attempt ends: status 200 with the number of accepted events, another status, an exception.
pub data Response : Type 0 where
  ok : ℕ → Response
  refused raised : Response

pub record Sent : Type 0 where
  pub accepted : ℕ
  pub requests : ℕ
  pub errors : ℕ

abbrev pub none_sent : Sent
none_sent = record { accepted = 0; requests = 0; errors = 0 }

-- `for attempt in range(5)`, with `left` attempts to go; `replies` is how each attempt ends.
unfoldable pub attempts : ℕ → ℕ → (ℕ → Response) → Sent → Sent
attempts zero attempt replies sent = sent
attempts (suc left) attempt replies sent = elim (replies attempt) [
  | ok n ↦ record sent { accepted = sent.accepted + n; requests = sent.requests + 1 }
  | refused ↦ attempts left (attempt + 1) replies sent
  | raised ↦ elim (attempt == 4) [
    | true ↦ record sent { errors = sent.errors + 1 }
    | false ↦ attempts left (attempt + 1) replies sent
  ]
]

-- `one(batch)`
unfoldable pub send_one : (ℕ → Response) → Sent → Sent
send_one replies sent = attempts 5 0 replies sent

-- The batches in the order in which they end: `one` changes `sent` only at its end.
unfoldable pub send_batches : List (ℕ → Response) → Sent → Sent
send_batches [] sent = sent
send_batches (replies ∷ batches) sent = send_batches batches (send_one replies sent)
