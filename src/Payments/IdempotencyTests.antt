-- ===== src/Payments/IdempotencyTests.antt =====
-- Interleaved requests with one key, and the theorems on the interceptor at them.
use distributed_nestjs_event.Base.{
  [], ℕ, ◌≡◌, refl, true, false, none, some, List, ◌∷◌, arith, ok, err, answered, rejected_call,
}
use distributed_nestjs_event.External.Cache.{memory_cache}
use distributed_nestjs_event.Payments.Idempotency.{
  Cached, arrived, finished, in_progress, Event, Requests, step, run_event, run_events,
}
use distributed_nestjs_event.Payments.Idempotency.Once.{let_through, let_through_once}
use distributed_nestjs_event.Payments.Idempotency.Replay.{intercept, intercept-again}

abbrev waiting : Requests (memory_cache (Cached ℕ))
waiting = record { phase = λ i. arrived (some 55); cache = λ k. none }

abbrev event : ℕ → ℕ → Event ℕ
event who t = record { who = who; at = t; reply = answered; outcome = ok 9 }

-- Requests 0 and 1 both find nothing, and then request 1 claims the key first.
abbrev race : List (Event ℕ)
race =
    event 0 100
    ∷ event 1 101
    ∷ event 1 105
    ∷ event 0 106
    ∷ event 1 107
    ∷ event 1 120
    ∷ event 2 900
    ∷ []

race_winner : let_through 55 ((run_events (memory_cache (Cached ℕ)) race waiting).phase 1) ≡ true
unfolding run_events run_event step
race_winner = refl

let_through_once_example :
    let_through 55 ((run_events (memory_cache (Cached ℕ)) race waiting).phase 0) ≡ false
let_through_once_example =
    let_through_once (memory_cache (Cached ℕ)) 55 100 1 0 race waiting (λ n. refl) (ground arith)
      (λ e. ground (arith, e)) race_winner

intercept-again_example :
    let s' =
      (intercept
        (memory_cache (Cached ℕ))
        100
        104
        110
        110
        (err rejected_call)
        (some 55)
        (λ k. none)).1 in
    intercept (memory_cache (Cached ℕ)) 5000 5000 5000 5000 (ok 9) (some 55) s'
    ≡ (finished in_progress, s')
intercept-again_example =
    intercept-again (memory_cache (Cached ℕ)) 100 104 110 110 5000 55 (err rejected_call) (ok 9)
      (λ k. none) refl refl (ground arith) (ground arith) (ground arith) (ground arith)
