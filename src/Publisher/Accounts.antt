-- ===== src/Publisher/Accounts.antt =====
-- What `send_batches` of uas/publisher/publisher.py counts.
use sistem_paralel_terdistri.Common.{
  Bool, List, [], arith, false, if◌then◌else◌, inl, inr, length, not, refl, subst, suc, true, zero,
  ℕ, ◌&&◌, ◌+◌, ◌==◌, ◌||◌, ◌∷◌, ◌≡◌, ◌≤◌, ◌⊎◌,
}
use sistem_paralel_terdistri.Publisher.Batches.{
  Response, Sent, attempts, none_sent, ok, raised, refused, send_batches, send_one,
}

-- Whether one of the five attempts has status 200, and whether none has and the last has a status.
abbrev pub is_ok : Response → Bool
is_ok (ok n) = true
is_ok refused = false
is_ok raised = false

abbrev pub is_refused : Response → Bool
is_refused (ok n) = false
is_refused refused = true
is_refused raised = false

-- Whether one of the `left` attempts from `attempt` on has status 200.
abbrev pub some_ok : ℕ → ℕ → (ℕ → Response) → Bool
some_ok zero attempt replies = false
some_ok (suc left) attempt replies = is_ok (replies attempt) || some_ok left (attempt + 1) replies

abbrev pub is_uncounted : (ℕ → Response) → Bool
is_uncounted replies = not (some_ok 5 0 replies) && is_refused (replies 4)

abbrev pub how_many : ((ℕ → Response) → Bool) → List (ℕ → Response) → ℕ
how_many p [] = 0
how_many p (b ∷ bs) = if p b then suc (how_many p bs) else how_many p bs

Response-cases : (r : Response) → ((n : ℕ) × (r ≡ ok n)) ⊎ (r ≡ refused) ⊎ (r ≡ raised)
Response-cases (ok n) = inl (n, refl)
Response-cases refused = inr (inl refl)
Response-cases raised = inr (inr refl)

-- What the attempts that are left do to the counts.
record Counts (left attempt : ℕ) (replies : ℕ → Response) (sent s : Sent) : Type 0 where
  requests :
      s.requests ≡ (if some_ok left attempt replies then suc sent.requests else sent.requests)
  all :
      s.requests
        + s.errors
        + (if not (some_ok left attempt replies) && is_refused (replies 4) then 1 else 0)
      ≡ suc (sent.requests + sent.errors)

attempts-Counts :
    (left attempt : ℕ) (replies : ℕ → Response) (sent : Sent)
    → attempt + left ≡ 5
    → 1 ≤ left
    → Counts left attempt replies sent (attempts left attempt replies sent)
unfolding attempts
attempts-Counts zero attempt replies sent e pos = absurd (omega (arith, pos))
attempts-Counts (suc zero) attempt replies sent e pos =
    let last : attempt ≡ 4 = omega (arith, e) in
    let is_last : (attempt == 4) ≡ true = ground arith in
    elim (Response-cases (replies attempt)) [
      | inl (n, p) ↦
          rw (attempts, p) (record { requests = rw p (omega arith); all = rw p (omega arith) })
      | inr (inl p) ↦
          let q : replies 4 ≡ refused = subst (λ k. replies k ≡ refused) last p in
          rw (attempts, p) (record { requests = rw p refl; all = rw (p, q) (omega arith) })
      | inr (inr p) ↦
          let q : replies 4 ≡ raised = subst (λ k. replies k ≡ raised) last p in
          rw (attempts, p, is_last) (record { requests = rw p refl; all = rw (p, q) (omega arith) })
    ]
attempts-Counts (suc (suc left)) attempt replies sent e pos =
    let more : (attempt == 4) ≡ false = ground (arith, e) in
    let rest =
      attempts-Counts (suc left) (attempt + 1) replies sent (omega (arith, e)) (omega arith) in
    elim (Response-cases (replies attempt)) [
      | inl (n, p) ↦
          rw (attempts, p) (record { requests = rw p (omega arith); all = rw p (omega arith) })
      | inr (inl p) ↦
          rw (attempts, p) (record { requests = rw p rest.requests; all = rw p rest.all })
      | inr (inr p) ↦
          rw (attempts, p, more) (record { requests = rw p rest.requests; all = rw p rest.all })
    ]

send_batches-all :
    (batches : List (ℕ → Response)) (sent : Sent)
    → let s = send_batches batches sent in
      (s.requests ≡ sent.requests + how_many (some_ok 5 0) batches)
      × (s.requests + s.errors + how_many is_uncounted batches
          ≡ sent.requests + sent.errors + length batches)
unfolding send_batches send_one
send_batches-all [] sent = (omega arith, omega arith)
send_batches-all (b ∷ bs) sent =
    let one = attempts-Counts 5 0 b sent refl (omega arith) in
    let (requests, all) = send_batches-all bs (attempts 5 0 b sent) in
    let first = one.requests in
    let total = one.all in (ground (arith, first, requests), ground (arith, total, all))

-- Of the batches that are sent, those with an answer 200 within five attempts are the requests that
-- are counted, and the requests, the errors and the batches whose attempts all fail, the last of them
-- with an answer other than 200, are all batches: these last ones are counted nowhere.
pub send_batches_counts :
    (batches : List (ℕ → Response))
    → let sent = send_batches batches none_sent in
      (sent.requests ≡ how_many (some_ok 5 0) batches)
      × (sent.requests + sent.errors + how_many is_uncounted batches ≡ length batches)
send_batches_counts batches =
    let (requests, all) = send_batches-all batches none_sent in
    (omega (arith, requests), omega (arith, all))
