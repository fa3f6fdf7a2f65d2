-- ===== src/RateLimit/Tests.antt =====
-- Requests against the limit in memory.
use histae_api.Prelude.{
  min, ◌∷◌, [], ◌≡◌, none, some, refl, arith, List, find_where, delete_where, exists_where,
  update_where, ℕ,
}
use histae_api.RateLimit.{Policy, memory_allow}
use histae_api.RateLimit.Sweep.{Request, answers, book_answers, answers-eq-book_answers}
use histae_api.RateLimit.Window.{requests_of, allowed_of, memory_allow_window}

abbrev policy : Policy
policy = record { max = 2; window_ms = 1000 }

abbrev request : ℕ → ℕ → Request
request key elapsed = record { elapsed = elapsed; key = key; policy = policy }

abbrev burst : List Request
burst = request 7 0 ∷ request 7 10 ∷ request 7 10 ∷ request 7 2000 ∷ []

burst-answers :
    answers (record { entries = []; operations = 254 }) 100 burst
    ≡ none ∷ none ∷ some 980 ∷ none ∷ []
unfolding answers memory_allow find_where delete_where exists_where update_where
burst-answers = refl

answers-eq-book_answers_example :
    answers (record { entries = []; operations = 0 }) 100 burst ≡ book_answers (λ _. none) 100 burst
answers-eq-book_answers_example = answers-eq-book_answers burst 100

-- A request of another client, then three of one, with the other's in between.
abbrev rush : List Request
rush = request 7 10 ∷ request 8 0 ∷ request 7 10 ∷ []

memory_allow_window_example :
    let all = request 8 0 ∷ request 7 5 ∷ rush in
    allowed_of 7 all (answers (record { entries = []; operations = 0 }) 100 all) ≡ min 3 2
unfolding requests_of
memory_allow_window_example =
    memory_allow_window (request 7 5) rush
      (omega arith, λ _. refl, (omega arith, λ _. refl, (omega arith, λ _. refl, tt))) (omega arith)
      (request 8 0 ∷ []) 100 ((ground arith), tt)
