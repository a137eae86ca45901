-- ===== src/Ingest/Published.antt =====
-- What becomes of a published event: uas/aggregator/app/main.py, broker.py and consumer.py.
use sistem_paralel_terdistri.Common.{
  Bool-cases, List, Option, [], ap, arith, inl, inr, none, refl, some, subst, sym, true, ℕ, ◌==◌,
  ◌∙◌, ◌∷◌, ◌≡◌, ◌⊎◌,
}
use sistem_paralel_terdistri.Ingest.Broker.{EventJson, RedisStream, decode, publish}
use sistem_paralel_terdistri.Ingest.Consumer.{advance, at_top}
use sistem_paralel_terdistri.Ingest.Kept.{
  Holds, IsHonest, IsHonest-Grows, IsKept, Stays, add-Stays, same-Stays,
}
use sistem_paralel_terdistri.Ingest.Lossless.{advance-IsSound}
use sistem_paralel_terdistri.Ingest.Schemas.{Event, parse_events}
use sistem_paralel_terdistri.Ingest.Storage.{
  Await, EventTable, done, failed, incr_received, refused, unknown,
}
use sistem_paralel_terdistri.Ingest.System.{
  Call, System, push, push_next, request, restart, run, run_all, start_request, work,
}

module _ {T S Text R : Type 0} (table : EventTable T) (redis : RedisStream S Text)
    (json : EventJson Text) (validate : R → Option Event) where
  -- Every event of the stream is open or stored, and the workers are honest.
  pub record IsLossless (y : System T S) : Type 0 where
    pub kept : IsKept table redis json y.database.processed_events y.stream
    pub honest :
        (i : ℕ) → IsHonest table redis json y.database.processed_events y.stream (y.workers i).phase

  -- A later state, in which every entry is as it was.
  record Follows (y y' : System T S) : Type 0 where
    lossless : IsLossless y'
    holds :
        (id : ℕ) (e : Event)
        → Holds table redis json y.stream id e
        → Holds table redis json y'.stream id e

  -- The database and the stream took a step, and the workers did not.
  Stays-Follows :
      (y y' : System T S)
      → Stays table redis json y.database.processed_events y.stream y'.database.processed_events
          y'.stream
      → ((i : ℕ) → (y'.workers i).phase ≡ (y.workers i).phase)
      → IsLossless y
      → Follows y y'
  Stays-Follows y y' q same h = record {
    lossless = record {
      kept = q.kept;
      honest = λ i.
          subst (IsHonest table redis json y'.database.processed_events y'.stream) (sym (same i))
            (IsHonest-Grows table redis json _ _ _ _ (y.workers i).phase q.grows (h.honest i));
    };
    holds = q.grows.holds;
  }

  start_request-Follows :
      (i : ℕ) (a : Await) (o : Option (List Event)) (y : System T S)
      → IsLossless y
      → Follows y (start_request table redis json validate i a o y)
  unfolding incr_received
  start_request-Follows i a none y h =
      Stays-Follows y y (same-Stays table redis json _ _ h.kept) (λ _. refl) h
  start_request-Follows i done (some es) y h =
      Stays-Follows y _ (same-Stays table redis json _ _ h.kept) (λ _. refl) h
  start_request-Follows i refused (some es) y h =
      Stays-Follows y _ (same-Stays table redis json _ _ h.kept) (λ _. refl) h
  start_request-Follows i failed (some es) y h =
      Stays-Follows y _ (same-Stays table redis json _ _ h.kept) (λ _. refl) h
  start_request-Follows i unknown (some es) y h =
      Stays-Follows y _ (same-Stays table redis json _ _ h.kept) (λ _. refl) h

  push_next-Follows :
      (i : ℕ) (a : Await) (es : List Event) (y : System T S)
      → IsLossless y
      → Follows y (push_next table redis json validate i a es y)
  unfolding publish
  push_next-Follows i a [] y h =
      Stays-Follows y y (same-Stays table redis json _ _ h.kept) (λ _. refl) h
  push_next-Follows i done (e ∷ es) y h =
      Stays-Follows y _ (add-Stays table redis json _ y.stream e h.kept) (λ _. refl) h
  push_next-Follows i refused (e ∷ es) y h =
      Stays-Follows y _ (same-Stays table redis json _ _ h.kept) (λ _. refl) h
  push_next-Follows i failed (e ∷ es) y h =
      Stays-Follows y _ (same-Stays table redis json _ _ h.kept) (λ _. refl) h
  push_next-Follows i unknown (e ∷ es) y h =
      Stays-Follows y _ (add-Stays table redis json _ y.stream e h.kept) (λ _. refl) h

  run-Follows :
      (c : Call R) (y : System T S) → IsLossless y → Follows y (run table redis json validate c y)
  unfolding run
  run-Follows (request i raw a) y h = start_request-Follows i a (parse_events validate raw) y h
  run-Follows (push i a) y h = push_next-Follows i a (y.requests i) y h
  run-Follows (work i now a) y h =
      let w = y.workers i in
      let q =
        advance-IsSound table redis json a now w w.phase y.database y.stream h.kept (h.honest i) in
      let o = advance table redis json a now w w.phase y.database y.stream in
      record {
        lossless = record {
          kept = q.stays.kept;
          honest = λ j. elim (Bool-cases (i == j)) [
            | inl e ↦ rw e q.honest
            | inr e ↦ rw e (
                IsHonest-Grows table redis json _ _ _ _ (y.workers j).phase q.stays.grows
                  (h.honest j))
          ];
        };
        holds = q.stays.grows.holds;
      }
  run-Follows (restart i) y h = record {
    lossless = record {
      kept = h.kept;
      honest = λ j. elim (Bool-cases (i == j)) [ inl e ↦ rw e tt | inr e ↦ rw e (h.honest j) ];
    };
    holds = λ id e k. k;
  }

  run_all-Follows :
      (cs : List (Call R)) (y : System T S)
      → IsLossless y
      → Follows y (run_all table redis json validate cs y)
  unfolding run_all
  run_all-Follows [] y h = record { lossless = h; holds = λ id e k. k }
  run_all-Follows (c ∷ cs) y h =
      let p = run-Follows c y h in
      let q = run_all-Follows cs (run table redis json validate c y) p.lossless in
      record { lossless = q.lossless; holds = λ id e k. q.holds id e (p.holds id e k) }

  -- The state before the first request: no entry in the stream and nothing in a worker's hands.
  abbrev pub IsEmpty : System T S → Type 0
  IsEmpty y = ((id : ℕ) → redis.entry id y.stream ≡ none) × ((i : ℕ) → (y.workers i).phase ≡ at_top)

  empty-IsLossless : (y : System T S) → IsEmpty y → IsLossless y
  empty-IsLossless y (none_there, idle) = record {
    kept = λ id e k. absurd (ground (arith, ap (decode json) (sym (none_there id)) ∙ k));
    honest = λ i. subst (IsHonest table redis json _ _) (sym (idle i)) tt;
  }

  push-Holds :
      (i : ℕ) (e : Event) (es : List Event) (y : System T S)
      → y.requests i ≡ e ∷ es
      → (id : ℕ) × Holds table redis json
          (run table redis json validate (push i done) y).stream
          id
          e
  unfolding run publish
  push-Holds i e es y p =
      let r = redis.xadd (json.dumps e) y.stream in
      let self : (r.1 == r.1) ≡ true = ground arith in
      let there : redis.entry r.1 r.0 ≡ some (json.dumps e) =
        redis.xadd-entry r.1 (json.dumps e) y.stream ∙ rw self refl in
      (r.1, rw p (ap (decode json) there ∙ json.loads-dumps e))

  -- From an empty stream, in every run of requests and workers with failures, lost answers and restarts
  -- of workers anywhere: an event that `publish` has put on the stream is at every later moment in the
  -- database, or it is in an entry that no worker has acknowledged.
  pub published_never_lost :
      (before after : List (Call R)) (i : ℕ) (e : Event) (es : List Event) (y : System T S)
      → IsEmpty y
      → (run_all table redis json validate before y).requests i ≡ e ∷ es
      → let y' =
          run_all table redis json validate
            (push i done ∷ after)
            (run_all table redis json validate before y) in
        ((id : ℕ) × (decode json (redis.entry id y'.stream) ≡ some e)
          × (redis.is_open id y'.stream ≡ true))
        ⊎ (table.has e y'.database.processed_events ≡ true)
  unfolding run_all
  published_never_lost before after i e es y start p =
      let y1 = run_all table redis json validate before y in
      let h1 = (run_all-Follows before y (empty-IsLossless y start)).lossless in
      let h2 = (run-Follows (push i done) y1 h1).lossless in
      let q = run_all-Follows after (run table redis json validate (push i done) y1) h2 in
      let (id, held) = push-Holds i e es y1 p in
      let still = q.holds id e held in
      elim (q.lossless.kept id e still) [ inl o ↦ inl (id, still, o) | inr o ↦ inr o ]
