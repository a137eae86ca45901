-- ===== src/Publisher/Tests.antt =====
-- Seven items in batches of three, and three batches with their answers.
use sistem_paralel_terdistri.Common.{All, List, [], arith, length, refl, ℕ, ◌+◌, ◌∷◌, ◌≡◌, ◌≤◌}
use sistem_paralel_terdistri.Publisher.Accounts.{
  how_many, is_uncounted, send_batches_counts, some_ok,
}
use sistem_paralel_terdistri.Publisher.Batches.{
  Response, attempts, chunk, chunk_from, none_sent, ok, raised, refused, send_batches, send_one,
}
use sistem_paralel_terdistri.Publisher.Whole.{chunk-concat, concat}

program : Unit {0}
unfolding chunk chunk_from send_batches send_one attempts
program = tt

abbrev items : List ℕ
items = 1 ∷ 2 ∷ 3 ∷ 4 ∷ 5 ∷ 6 ∷ 7 ∷ []

in_threes : chunk items 3 ≡ (1 ∷ 2 ∷ 3 ∷ []) ∷ (4 ∷ 5 ∷ 6 ∷ []) ∷ (7 ∷ []) ∷ []
unfolding program
in_threes = refl

chunk-concat_example :
    (concat (chunk items 3) ≡ items) × All (λ b. (1 ≤ length b) × (length b ≤ 3)) (chunk items 3)
chunk-concat_example = chunk-concat ℕ items 3 (omega arith)

-- One is accepted at once, one always answered with another status, one never answered.
abbrev answers : List (ℕ → Response)
answers = (λ n. ok 3) ∷ (λ n. refused) ∷ (λ n. raised) ∷ []

counted : send_batches answers none_sent ≡ record { accepted = 3; requests = 1; errors = 1 }
unfolding program
counted = refl

send_batches_counts_example :
    let sent = send_batches answers none_sent in
    (sent.requests ≡ how_many (some_ok 5 0) answers)
    × (sent.requests + sent.errors + how_many is_uncounted answers ≡ length answers)
send_batches_counts_example = send_batches_counts answers
