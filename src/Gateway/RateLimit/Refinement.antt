-- ===== src/Gateway/RateLimit/Refinement.antt =====
-- The rate limiter as a sliding window over the log of the requests that it has let through.
use distributed_nestjs_event.Base.{
  [], ℕ, ◌+◌, ◌≤◌, ◌<◌, ◌≡◌, refl, Bool, true, false, some, List, ◌∷◌, length, arith, leb,
  if◌then◌else◌, ok, Script, ap, ◌∙◌, next_reply, later_replies, ◌⊎◌,
}
use distributed_nestjs_event.External.SortedSets.{SortedSets, Member, same_member}
use distributed_nestjs_event.Gateway.RateLimit.{
  RateLimitConfig, handled, too_many, ceil_seconds, window_start, reset_time, State, limit_try,
  intercept,
}
use distributed_nestjs_event.Gateway.RateLimit.Window.{
  recent, count, logged, request, run, Limited, trimmed,
}
use distributed_nestjs_event.Gateway.RateLimit.Bound.{
  Separate, request-Limited, count-logged, zcard-trimmed,
}

-- What a sliding window lets through, after a log.
unfoldable pub window_log : RateLimitConfig → List Member → List Member → List Member
window_log c [] log = log
window_log c (m ∷ ms) log =
    window_log c ms (if leb c.max (count (recent c.window_ms m.score) log) then log else m ∷ log)

unfoldable pub last_time : ℕ → List Member → ℕ
last_time now [] = now
last_time now (m ∷ ms) = last_time m.score ms

reset_time-short : (now w : ℕ) (ms : List Member) → length ms ≤ 1 → reset_time now w ms ≡ now + w
reset_time-short now w [] h = refl
reset_time-short now w (x ∷ []) h = refl
reset_time-short now w (x ∷ y ∷ ms) h = absurd (ground (arith, h))

module _ (R : SortedSets) (key : ℕ) where
  open R use {members, zcard, zrange_first}

  -- The decision on a request is that of the window.
  request-decision :
      (c : RateLimitConfig) (now : ℕ) (m : Member) (s : State R key) (log : List Member)
      → Limited R key c now s log
      → now ≤ m.score
      → (request R key c m s).0
        ≡ ok (
            if leb c.max (count (recent c.window_ms m.score) log)
            then too_many (ceil_seconds c.window_ms)
            else handled)
  unfolding intercept limit_try next_reply later_replies
  request-decision c now m s log h a =
      let t = m.score in
      let first = zrange_first t key (trimmed R key c m s) in
      ground (
        arith,
        zcard-trimmed R key c now m s log h a,
        reset_time-short t c.window_ms first (R.length-zrange_first t key (trimmed R key c m s)),
      )

  logged-decision :
      (c : RateLimitConfig) (m : Member) (log : List Member) (over : Bool) (n : ℕ)
      → logged (ok (if over then too_many n else handled)) m log ≡ (if over then log else m ∷ log)
  logged-decision c m log true n = refl
  logged-decision c m log false n = refl

  run-Limited :
      (c : RateLimitConfig) (now : ℕ) (ms : List Member) (s : State R key) (log seen : List Member)
      → 0 < c.window_ms
      → Limited R key c now s log
      → ((p : Member → Bool) → count p log ≤ count p seen)
      → Separate now seen ms
      → ((run R key c ms s log).1 ≡ window_log c ms log)
        × Limited R key c (last_time now ms) (run R key c ms s log).0 (run R key c ms s log).1
  unfolding run window_log last_time
  run-Limited c now [] s log seen pos h sub k = (refl, h)
  run-Limited c now (m ∷ ms) s log seen pos h sub k =
      let a = request R key c m s in
      let over = leb c.max (count (recent c.window_ms m.score) log) in
      let next : logged a.0 m log ≡ (if over then log else m ∷ log) =
        rw (request-decision c now m s log h k.0)
          (logged-decision c m log over (ceil_seconds c.window_ms)) in
      let rest =
        run-Limited c m.score ms a.1 (logged a.0 m log) (m ∷ seen) pos
          (request-Limited R key c now m s log pos (ground (arith, k.1, sub (same_member m))) h k.0)
          (λ p. count-logged R key p a.0 m log seen (sub p)) k.2 in
      (rest.0 ∙ ap (window_log c ms) next, rest.1)

  empty-Limited :
      (c : RateLimitConfig) (s : State R key)
      → ((t : ℕ) → members t key s.redis ≡ [])
      → Limited R key c 0 s []
  empty-Limited c s none_there = record {
    known = λ q t a h. rw (none_there t) refl;
    past = tt;
    bounded = λ u a. ground arith;
  }

  -- The limiter refines a sliding window: over any sequence of requests with one key, from an empty
  -- set and with every call answering, whose times do not decrease and no two of which have time and
  -- random number in common, it lets through the requests that a window over the log of those let
  -- through admits, and no more than the limit of them are in the window at the last
  -- request or later.
  pub run_refines :
      (c : RateLimitConfig) (ms : List Member) (s : State R key) (u : ℕ)
      → 0 < c.window_ms
      → ((t : ℕ) → members t key s.redis ≡ [])
      → Separate 0 [] ms
      → last_time 0 ms ≤ u
      → ((run R key c ms s []).1 ≡ window_log c ms [])
        × (count (recent c.window_ms u) (run R key c ms s []).1 ≤ c.max)
  run_refines c ms s u pos none_there separate late =
      let done =
        run-Limited c 0 ms s [] [] pos (empty-Limited c s none_there) (λ p. omega arith) separate in
      (done.0, done.1.bounded u late)

  -- A refusal tells the client to wait for a whole window, whatever is in the set: `ZRANGE` is asked
  -- for one member without its score, so that the time of the oldest request is never read. This
  -- holds however the calls end, and a call that rejects lets the request through.
  pub intercept-too_many :
      (c : RateLimitConfig) (s : State R key) (r : Script)
      → ((intercept R key (some c) s r).0 ≡ ok handled)
        ⊎ (((intercept R key (some c) s r).0 ≡ ok (too_many (ceil_seconds c.window_ms)))
            × ((intercept R key (some c) s r).1.reset_header ≡ some (s.now + c.window_ms)))
  unfolding intercept limit_try
  intercept-too_many c s r =
      let kept = R.zremrangebyscore s.now key (window_start s.now c.window_ms) s.redis in
      ground (
        arith,
        reset_time-short s.now c.window_ms (zrange_first s.now key kept)
            (R.length-zrange_first s.now key kept),
      )
