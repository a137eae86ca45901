-- ===== src/Ingest/Kept.antt =====
-- No published event is lost: uas/aggregator/app/broker.py and consumer.py.
use mathlib.Core.Option.{some-injective}
use sistem_paralel_terdistri.Common.{
  All, All-map, Bool-cases, List, ap, arith, inl, inr, member, member-All, none, refl, some, subst,
  sym, true, ℕ, ◌==◌, ◌∙◌, ◌≡◌, ◌⊎◌,
}
use sistem_paralel_terdistri.Ingest.Broker.{EventJson, Received, RedisStream, decode}
use sistem_paralel_terdistri.Ingest.Consumer.{
  Phase, acking, at_top, claim_done, claimed, doing, reading,
}
use sistem_paralel_terdistri.Ingest.Schemas.{Event}
use sistem_paralel_terdistri.Ingest.Storage.{EventTable}

module _ {T S Text : Type 0} (table : EventTable T) (redis : RedisStream S Text)
    (json : EventJson Text) where
  -- The entry holds the event.
  abbrev pub Holds : S → ℕ → Event → Type 0
  Holds s id e = decode json (redis.entry id s) ≡ some e

  -- The entry holds an event whose key is in the table.
  abbrev pub IsStored : T → S → ℕ → Type 0
  IsStored t s id = (e : Event) × Holds s id e × (table.has e t ≡ true)

  -- What a worker has in hand came from the stream, and what it is to acknowledge is stored.
  abbrev pub IsHonest : T → S → Phase → Type 0
  IsHonest t s at_top = Unit
  IsHonest t s (claimed l) = All (λ (m : Received). Holds s m.0 m.1) l
  IsHonest t s (claim_done id l) = IsStored t s id × All (λ (m : Received). Holds s m.0 m.1) l
  IsHonest t s reading = Unit
  IsHonest t s (doing l ids) = All (λ (m : Received). Holds s m.0 m.1) l × All (IsStored t s) ids
  IsHonest t s (acking ids) = All (IsStored t s) ids

  -- Every event of the stream is still open or in the table.
  abbrev pub IsKept : T → S → Type 0
  IsKept t s =
      (id : ℕ) (e : Event) → Holds s id e → (redis.is_open id s ≡ true) ⊎ (table.has e t ≡ true)

  -- No entry is changed and no row deleted.
  pub record Grows (t : T) (s : S) (t' : T) (s' : S) : Type 0 where
    pub holds : (id : ℕ) (e : Event) → Holds s id e → Holds s' id e
    pub has : (e : Event) → table.has e t ≡ true → table.has e t' ≡ true

  IsStored-Grows :
      (t t' : T) (s s' : S) (id : ℕ) → Grows t s t' s' → IsStored t s id → IsStored t' s' id
  IsStored-Grows t t' s s' id g (e, h, k) = (e, g.holds id e h, g.has e k)

  pub hands-Grows :
      (t t' : T) (s s' : S) (l : List Received)
      → Grows t s t' s'
      → All (λ (m : Received). Holds s m.0 m.1) l
      → All (λ (m : Received). Holds s' m.0 m.1) l
  hands-Grows t t' s s' l g h = All-map _ _ l (λ m k. g.holds m.0 m.1 k) h

  pub ids-Grows :
      (t t' : T) (s s' : S) (l : List ℕ)
      → Grows t s t' s'
      → All (IsStored t s) l
      → All (IsStored t' s') l
  ids-Grows t t' s s' l g h = All-map _ _ l (λ id k. IsStored-Grows t t' s s' id g k) h

  pub IsHonest-Grows :
      (t t' : T) (s s' : S) (p : Phase) → Grows t s t' s' → IsHonest t s p → IsHonest t' s' p
  IsHonest-Grows t t' s s' at_top g h = tt
  IsHonest-Grows t t' s s' (claimed l) g h = hands-Grows t t' s s' l g h
  IsHonest-Grows t t' s s' (claim_done id l) g h =
      (IsStored-Grows t t' s s' id g h.0, hands-Grows t t' s s' l g h.1)
  IsHonest-Grows t t' s s' reading g h = tt
  IsHonest-Grows t t' s s' (doing l ids) g h =
      (hands-Grows t t' s s' l g h.0, ids-Grows t t' s s' ids g h.1)
  IsHonest-Grows t t' s s' (acking ids) g h = ids-Grows t t' s s' ids g h

  -- What a command on the stream did.
  pub record Stays (t : T) (s : S) (t' : T) (s' : S) : Type 0 where
    pub grows : Grows t s t' s'
    pub kept : IsKept t' s'

  pub same-Stays : (t : T) (s : S) → IsKept t s → Stays t s t s
  same-Stays t s h = record { grows = record { holds = λ id e k. k; has = λ e k. k }; kept = h }

  -- A command that keeps entries and what is open.
  pub quiet-Stays :
      (t : T) (s s' : S)
      → ((j : ℕ) → redis.entry j s' ≡ redis.entry j s)
      → ((j : ℕ) → redis.is_open j s' ≡ redis.is_open j s)
      → IsKept t s
      → Stays t s t s'
  quiet-Stays t s s' same opens h = record {
    grows = record { holds = λ id e k. ap (decode json) (same id) ∙ k; has = λ e k. k };
    kept = λ id e k. elim (h id e (ap (decode json) (sym (same id)) ∙ k)) [
      | inl o ↦ inl (opens id ∙ o)
      | inr o ↦ inr o
    ];
  }

  pub ack-Stays :
      (t : T) (s : S) (ids : List ℕ)
      → All (IsStored t s) ids
      → IsKept t s
      → Stays t s t (redis.xack ids s)
  ack-Stays t s ids stored h = record {
    grows = record {
      holds = λ id e k. ap (decode json) (redis.xack-entry id ids s) ∙ k;
      has = λ e k. k;
    };
    kept = λ id e k.
        let k' : Holds s id e = ap (decode json) (sym (redis.xack-entry id ids s)) ∙ k in
        elim (Bool-cases (member id ids)) [
          | inl m ↦
              let (f, q, there) = member-All (IsStored t s) id ids stored m in
              inr (subst (λ x. table.has x t ≡ true) (some-injective f e (sym q ∙ k')) there)
          | inr m ↦ elim (h id e k') [
            | inl o ↦ inl (redis.xack-open id ids s ∙ rw m o)
            | inr o ↦ inr o
          ]
        ];
  }

  pub add-Stays :
      (t : T) (s : S) (e : Event) → IsKept t s → Stays t s t (redis.xadd (json.dumps e) s).0
  add-Stays t s e h =
      let new = (redis.xadd (json.dumps e) s).1 in
      let fresh : redis.entry new s ≡ none = redis.xadd-fresh (json.dumps e) s in
      record {
        grows = record {
          holds = λ id f k. elim (Bool-cases (new == id)) [
            | inl q ↦
                let same : new ≡ id = ground arith in
                let k' : decode json none ≡ some f =
                  sym (ap (decode json) (ap (λ j. redis.entry j s) (sym same) ∙ fresh)) ∙ k in
                absurd (ground (arith, k'))
            | inr q ↦ ap (decode json) (redis.xadd-entry id (json.dumps e) s ∙ rw q refl) ∙ k
          ];
          has = λ f k. k;
        };
        kept = λ id f k. elim (Bool-cases (new == id)) [
          | inl q ↦ inl (redis.xadd-open id (json.dumps e) s ∙ rw q refl)
          | inr q ↦
              let k' : Holds s id f =
                sym (ap (decode json) (redis.xadd-entry id (json.dumps e) s ∙ rw q refl)) ∙ k in
              elim (h id f k') [
                | inl o ↦ inl (redis.xadd-open id (json.dumps e) s ∙ rw q o)
                | inr o ↦ inr o
              ]
        ];
      }

  pub insert-Stays :
      (t : T) (s : S) (e : Event) → IsKept t s → Stays t s (table.insert_returning e t).0 s
  insert-Stays t s e h = record {
    grows = record { holds = λ id f k. k; has = λ f k. rw (table.stored) (ground (arith, k)) };
    kept = λ id f k. elim (h id f k) [
      | inl o ↦ inl o
      | inr o ↦ inr (rw (table.stored) (ground (arith, o)))
    ];
  }
