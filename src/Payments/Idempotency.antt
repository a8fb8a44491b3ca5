-- ===== src/Payments/Idempotency.antt =====
-- `IdempotencyInterceptor` (apps/payment-service/src/payment/idempotency/idempotency.interceptor.ts),
-- one step for each stretch between two awaits, so that the steps of several requests may interleave.
pub mod Once
pub mod Replay
use distributed_nestjs_event.Base.{
  ℕ, Option, none, some, List, [], ◌∷◌, ◌==◌, if◌then◌else◌, Error, Result, ok, err, Reply, rejects,
}
use distributed_nestjs_event.External.Cache.{Cache, set_nx, set_nx_ok}

-- `TTL_SECONDS`, in milliseconds
abbrev pub cache_ttl : ℕ
cache_ttl = 3600000

-- The JSON value of a key: `{ status: 'processing' }` or `{ status: 'completed', response }`.
pub data Cached (R : Type 0) : Type 0 where
  processing : Cached R
  completed : R → Cached R

-- How a request ended. The first two come from the handler, after a claim of the key if there is
-- one; the next is the cached response, and the next two are the `ConflictException`s.
pub data Ending (R : Type 0) : Type 0 where
  responded : Option ℕ → R → Ending R
  threw : Option ℕ → Error → Ending R
  replayed : R → Ending R
  in_progress already_processed call_failed : Ending R

-- Where a request stands, with its key.
pub data Phase (R : Type 0) : Type 0 where
  -- before `intercept`
  arrived : Option ℕ → Phase R
  -- `GET` found nothing
  missed : ℕ → Phase R
  -- `SET … NX` replied `OK`, and the handler is next
  claimed : ℕ → Phase R
  -- the response is on its way, and the `SET` of the `tap` too
  handled : ℕ → R → Phase R
  finished : Ending R → Phase R

-- A step of a request at a time, with the reply to its call and the outcome of its handler.
pub record Event (R : Type 0) : Type 0 where
  pub who : ℕ
  pub at : ℕ
  pub reply : Reply
  pub outcome : Result R

module _ {R : Type 0} where
  abbrev pub run_handler : Option ℕ → Result R → Ending R
  run_handler key (ok r) = responded key r
  run_handler key (err e) = threw key e

  -- the `switchMap` on the reply of `GET`
  abbrev pub cached_reply : ℕ → Option (Cached R) → Phase R
  cached_reply k none = missed k
  cached_reply k (some processing) = finished in_progress
  cached_reply k (some (completed r)) = finished (replayed r)

  abbrev pub after_handler : ℕ → Result R → Phase R
  after_handler k (ok r) = handled k r
  after_handler k (err e) = finished (threw (some k) e)

module _ {R : Type 0} (C : Cache (Cached R)) where
  open C use {Store, get, set}

  -- the `switchMap` on the reply of `SET … NX`
  abbrev pub claim : ℕ → ℕ → Store → Phase R × Store
  claim t k s = (
    if set_nx_ok C t k s then claimed k else finished already_processed,
    set_nx C t k processing cache_ttl s,
  )

  unfoldable pub step : ℕ → Reply → Result R → Phase R → Store → Phase R × Store
  step t x o (arrived none) s = (finished (run_handler none o), s)
  step t x o (arrived (some k)) s =
      (if rejects x then finished call_failed else cached_reply k (get t k s), s)
  step t x o (missed k) s = if rejects x then (finished call_failed, s) else claim t k s
  step t x o (claimed k) s = (after_handler k o, s)
  step t x o (handled k r) s =
      (finished (responded (some k) r), if rejects x then s else set t k (completed r) cache_ttl s)
  step t x o (finished e) s = (finished e, s)

  -- The requests and the cache.
  pub record Requests : Type 0 where
    pub phase : ℕ → Phase R
    pub cache : Store

  unfoldable pub run_event : Event R → Requests → Requests
  run_event e q =
      let (p, s) = step e.at e.reply e.outcome (q.phase e.who) q.cache in
      record { phase = λ i. if i == e.who then p else q.phase i; cache = s }

  unfoldable pub run_events : List (Event R) → Requests → Requests
  run_events [] q = q
  run_events (e ∷ es) q = run_events es (run_event e q)
