-- ===== src/Ingest/Lossless.antt =====
-- No published event is lost, in any interleaving: uas/aggregator/app/main.py and consumer.py.
use sistem_paralel_terdistri.Common.{
  All, All-append, Bool, Bool-cases, List, Option, Option-cases, [], ap, arith, inl, inr, none,
  some, sym, ℕ, ◌%◌, ◌==◌, ◌∙◌, ◌∷◌, ◌≡◌,
}
use sistem_paralel_terdistri.Ingest.Broker.{
  EventJson, Received, RedisStream, ack_ids, claim_stale, decode, normalize, read_group,
}
use sistem_paralel_terdistri.Ingest.Consumer.{
  Phase, Worker, acking, advance, at_top, claim_done, claimed, doing, on_claim, on_claimed,
  on_processed, on_read, reading,
}
use sistem_paralel_terdistri.Ingest.Kept.{
  Holds, IsHonest, IsKept, IsStored, Stays, ack-Stays, hands-Grows, ids-Grows, insert-Stays,
  quiet-Stays, same-Stays,
}
use sistem_paralel_terdistri.Ingest.Schemas.{Event}
use sistem_paralel_terdistri.Ingest.Storage.{
  Await, Database, EventTable, done, failed, process_event, refused, transact, unknown,
}

module _ {T S Text : Type 0} (table : EventTable T) (redis : RedisStream S Text)
    (json : EventJson Text) where
  normalize-Holds :
      (s : S) (entries : List (ℕ × Option Text))
      → All (λ (x : ℕ × Option Text). x.1 ≡ redis.entry x.0 s) entries
      → All (λ (m : Received). Holds table redis json s m.0 m.1) (normalize json entries)
  unfolding normalize
  normalize-Holds s [] h = tt
  normalize-Holds s ((id, fields) ∷ entries) (e, h) = elim (Option-cases (decode json fields)) [
    | inl p ↦ rw (normalize, p) (normalize-Holds s entries h)
    | inr (f, p) ↦ rw (normalize, p) (ap (decode json) (sym e) ∙ p, normalize-Holds s entries h)
  ]

  -- After an `await` of a worker.
  pub record IsSound (t : T) (s : S) (o : Worker × Database T × S) : Type 0 where
    pub stays : Stays table redis json t s o.1.processed_events o.2
    pub honest : IsHonest table redis json o.1.processed_events o.2 o.0.phase

  idle-IsSound :
      (w : Worker) (db : Database T) (s : S)
      → IsKept table redis json db.processed_events s
      → IsHonest table redis json db.processed_events s w.phase
      → IsSound db.processed_events s (w, db, s)
  idle-IsSound w db s k h = record {
    stays = same-Stays table redis json db.processed_events s k;
    honest = h;
  }

  claimed-Stays :
      (now : ℕ) (t : T) (s : S)
      → IsKept table redis json t s
      → Stays table redis json t s t (redis.xautoclaim now 50 s).0
  claimed-Stays now t s k =
      quiet-Stays table redis json t s _ (λ j. redis.xautoclaim-entry j now 50 s)
        (λ j. redis.xautoclaim-open j now 50 s) k

  claim-IsSound :
      (a : Await) (now : ℕ) (w : Worker) (db : Database T) (s : S)
      → IsKept table redis json db.processed_events s
      → let (s', msgs) = claim_stale redis json a now 50 s in
        IsSound db.processed_events s (on_claim w msgs, db, s')
  unfolding claim_stale
  claim-IsSound done now w db s k =
      let q = claimed-Stays now db.processed_events s k in
      record {
        stays = q;
        honest =
            hands-Grows table redis json db.processed_events db.processed_events s _ _ q.grows
              (normalize-Holds s (redis.xautoclaim now 50 s).1 (redis.xautoclaim-read now 50 s));
      }
  claim-IsSound refused now w db s k = idle-IsSound _ db s k tt
  claim-IsSound failed now w db s k = idle-IsSound _ db s k tt
  claim-IsSound unknown now w db s k = record {
    stays = claimed-Stays now db.processed_events s k;
    honest = tt;
  }

  on_read-IsSound :
      (w : Worker) (db : Database T) (s s' : S) (msgs : List Received)
      → Stays table redis json db.processed_events s db.processed_events s'
      → All (λ (m : Received). Holds table redis json s' m.0 m.1) msgs
      → IsSound db.processed_events s (on_read w (some msgs), db, s')
  on_read-IsSound w db s s' [] q h = record { stays = q; honest = tt }
  on_read-IsSound w db s s' (m ∷ msgs) q h = record { stays = q; honest = (h, tt) }

  read-Stays :
      (t : T) (s : S)
      → IsKept table redis json t s
      → Stays table redis json t s t (redis.xreadgroup 50 s).0
  read-Stays t s k =
      quiet-Stays table redis json t s _ (λ j. redis.xreadgroup-entry j 50 s)
        (λ j. redis.xreadgroup-open j 50 s) k

  read-IsSound :
      (a : Await) (w : Worker) (db : Database T) (s : S)
      → IsKept table redis json db.processed_events s
      → let (s', msgs) = read_group redis json a 50 s in
        IsSound db.processed_events s (on_read w msgs, db, s')
  unfolding read_group
  read-IsSound done w db s k =
      let q = read-Stays db.processed_events s k in
      on_read-IsSound w db s _ _ q (
        hands-Grows table redis json db.processed_events db.processed_events s _ _ q.grows
          (normalize-Holds s (redis.xreadgroup 50 s).1 (redis.xreadgroup-read 50 s)))
  read-IsSound refused w db s k = idle-IsSound _ db s k tt
  read-IsSound failed w db s k = idle-IsSound _ db s k tt
  read-IsSound unknown w db s k = record { stays = read-Stays db.processed_events s k; honest = tt }

  -- The state after `ack`, and after the transaction of an event.
  acked-Stays :
      (a : Await) (t : T) (s : S) (ids : List ℕ)
      → All (IsStored table redis json t s) ids
      → IsKept table redis json t s
      → Stays table redis json t s t (ack_ids redis json a ids s).0
  unfolding ack_ids
  acked-Stays a t s [] h k = same-Stays table redis json t s k
  acked-Stays done t s (id ∷ ids) h k = ack-Stays table redis json t s (id ∷ ids) h k
  acked-Stays refused t s (id ∷ ids) h k = same-Stays table redis json t s k
  acked-Stays failed t s (id ∷ ids) h k = same-Stays table redis json t s k
  acked-Stays unknown t s (id ∷ ids) h k = ack-Stays table redis json t s (id ∷ ids) h k

  processed-Stays :
      (a : Await) (e : Event) (worker : ℕ) (db : Database T) (s : S)
      → IsKept table redis json db.processed_events s
      → Stays table redis json db.processed_events s
          (process_event table a e worker db).0.processed_events
          s
  unfolding process_event transact
  processed-Stays done e worker db s k = insert-Stays table redis json db.processed_events s e k
  processed-Stays refused e worker db s k = same-Stays table redis json db.processed_events s k
  processed-Stays failed e worker db s k = same-Stays table redis json db.processed_events s k
  processed-Stays unknown e worker db s k = insert-Stays table redis json db.processed_events s e k

  -- A message whose transaction returned is stored.
  processed-IsStored :
      (a : Await) (id : ℕ) (e : Event) (worker : ℕ) (db : Database T) (s : S) (is_new : Bool)
      → Holds table redis json s id e
      → (process_event table a e worker db).1 ≡ some is_new
      → IsStored table redis json (process_event table a e worker db).0.processed_events s id
  unfolding process_event transact
  processed-IsStored done id e worker db s is_new h p = (e, h, rw table.stored (ground arith))
  processed-IsStored refused id e worker db s is_new h p = absurd (ground (arith, p))
  processed-IsStored failed id e worker db s is_new h p = absurd (ground (arith, p))
  processed-IsStored unknown id e worker db s is_new h p = absurd (ground (arith, p))

  -- A transaction in the hands of a worker: it returned, or the worker goes on without it.
  transacted-IsSound :
      (a : Await) (id : ℕ) (e : Event) (worker : ℕ) (db : Database T) (s : S)
      (next : Option Bool → Worker)
      → Holds table redis json s id e
      → IsKept table redis json db.processed_events s
      → let (db', r) = process_event table a e worker db in
        (IsHonest table redis json db'.processed_events s (next none).phase)
        → ((is_new : Bool)
            → IsStored table redis json db'.processed_events s id
            → IsHonest table redis json db'.processed_events s (next (some is_new)).phase)
        → IsSound db.processed_events s (next r, db', s)
  transacted-IsSound a id e worker db s next h k without with_it =
      elim (Option-cases (process_event table a e worker db).1) [
        | inl p ↦ record { stays = processed-Stays a e worker db s k; honest = rw p without }
        | inr (b, p) ↦ record {
          stays = processed-Stays a e worker db s k;
          honest = rw p (with_it b (processed-IsStored a id e worker db s b h p));
        }
      ]

  pub advance-IsSound :
      (a : Await) (now : ℕ) (w : Worker) (p : Phase) (db : Database T) (s : S)
      → IsKept table redis json db.processed_events s
      → IsHonest table redis json db.processed_events s p
      → IsSound db.processed_events s (advance table redis json a now w p db s)
  unfolding advance
  advance-IsSound a now w at_top db s k h = elim (Bool-cases (w.idle_cycles % 5 == 0)) [
    | inl e ↦ rw e (claim-IsSound a now w db s k)
    | inr e ↦ rw e (idle-IsSound _ db s k tt)
  ]
  advance-IsSound a now w (claimed []) db s k h = idle-IsSound _ db s k tt
  advance-IsSound a now w (claimed ((id, e) ∷ rest)) db s k (h, hs) =
      let t = db.processed_events in
      let q = processed-Stays a e w.name db s k in
      transacted-IsSound a id e w.name db s (on_claimed id rest w) h k tt
        (λ _ stored. (stored, hands-Grows table redis json t _ s s rest q.grows hs))
  advance-IsSound a now w (claim_done id rest) db s k (h, hs) =
      let t = db.processed_events in
      let q = acked-Stays a t s (id ∷ []) (h, tt) k in
      elim (Option-cases (ack_ids redis json a (id ∷ []) s).1) [
        | inl p ↦ record { stays = q; honest = rw p tt }
        | inr (ids, p) ↦ record {
          stays = q;
          honest = rw p (hands-Grows table redis json t t s _ rest q.grows hs);
        }
      ]
  advance-IsSound a now w reading db s k h = read-IsSound a w db s k
  advance-IsSound a now w (doing [] ids) db s k h = idle-IsSound _ db s k h.1
  advance-IsSound a now w (doing ((id, e) ∷ rest) ids) db s k ((h, hs), stored) =
      let t = db.processed_events in
      let q = processed-Stays a e w.name db s k in
      let hs' = hands-Grows table redis json t _ s s rest q.grows hs in
      let stored' = ids-Grows table redis json t _ s s ids q.grows stored in
      transacted-IsSound a id e w.name db s (on_processed id rest ids w) h k (hs', stored')
        (λ _ new. (hs', All-append (IsStored table redis json _ s) ids (id ∷ []) stored' (new, tt)))
  advance-IsSound a now w (acking ids) db s k h = record {
    stays = acked-Stays a db.processed_events s ids h k;
    honest = tt;
  }
