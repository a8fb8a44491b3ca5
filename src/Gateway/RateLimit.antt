-- ===== src/Gateway/RateLimit.antt =====
-- `RateLimitInterceptor` (apps/api-gateway/src/rate-limit/rate-limit.interceptor.ts) at one key, which is
-- `rate-limit:${ip}:${method}:${url}`.
pub mod Window
pub mod Bound
pub mod Refinement
use distributed_nestjs_event.Base.{
  ℕ, zero, suc, ◌+◌, ◌-◌, Option, none, some, List, [], ◌∷◌, ltb, leb, if◌then◌else◌, Action, pure,
  query, write, gets, modify, try_catch, ◌>>=◌, ◌>>◌,
}
use distributed_nestjs_event.External.SortedSets.{SortedSets, Member}

pub record RateLimitConfig : Type 0 where
  pub window_ms : ℕ
  pub max : ℕ

-- `next.handle()`, or the `HttpException` 429 with its `retryAfter` in seconds.
pub data Decision : Type 0 where
  handled : Decision
  too_many : ℕ → Decision

-- `Math.ceil(ms / 1000)`, where a number of milliseconds is given by its thousands and the rest
unfoldable pub ceil_from : ℕ → ℕ → ℕ
ceil_from zero ms = 0
ceil_from (suc fuel) ms = let rest = ceil_from fuel (ms - 1000) in if ltb 0 ms then suc rest else 0

abbrev pub ceil_seconds : ℕ → ℕ
ceil_seconds ms = ceil_from ms ms

-- `now - config.windowMs`, where `none` is a negative number
abbrev pub window_start : ℕ → ℕ → Option ℕ
window_start now w = if ltb now w then none else some (now - w)

-- `parseInt(oldestEntry[1]) + config.windowMs`, if there is a second element
abbrev pub reset_time : ℕ → ℕ → List Member → ℕ
reset_time now w [] = now + w
reset_time now w (x ∷ []) = now + w
reset_time now w (x ∷ y ∷ rest) = y.score + w

module _ (R : SortedSets) (key : ℕ) where
  open R use {Store, zremrangebyscore, zcard, zadd, zrange_first, pexpire}

  -- Redis, the random number that `Math.random()` gives next, and the headers of the response.
  pub record State : Type 0 where
    pub now : ℕ
    pub redis : Store
    pub random : ℕ
    pub limit_header : Option ℕ
    pub remaining_header : Option ℕ
    pub reset_header : Option ℕ

  abbrev pub set_redis : (State → Store) → Action State (Unit {0})
  set_redis f = write (λ s. record s { redis = f s })

  -- the branch of a request over the limit
  abbrev pub refuse : RateLimitConfig → Action State Decision
  refuse c = query (λ s. zrange_first s.now key s.redis) >>= λ oldest.
      modify (λ s. record s { reset_header = some (reset_time s.now c.window_ms oldest) })
      >> gets (λ s. too_many (ceil_seconds (reset_time s.now c.window_ms oldest - s.now)))

  -- the rest of the `try` block
  abbrev pub admit : RateLimitConfig → Action State Decision
  admit c =
      set_redis (λ s. zadd s.now key (record { score = s.now; random = s.random }) s.redis)
      >> set_redis (λ s. pexpire s.now key c.window_ms s.redis)
      >> pure handled

  unfoldable pub limit_try : RateLimitConfig → Action State Decision
  limit_try c =
      set_redis (λ s. zremrangebyscore s.now key (window_start s.now c.window_ms) s.redis)
      >> query (λ s. zcard s.now key s.redis)
      >>= λ count.
          modify (λ s. record s {
            limit_header = some c.max;
            remaining_header = some (c.max - count - 1);
          })
          >> (if leb c.max count then refuse c else admit c)

  abbrev pub limit_config : Option RateLimitConfig → Action State Decision
  limit_config none = pure handled
  limit_config (some c) = try_catch (limit_try c) (λ error. pure handled)

  -- `intercept`
  unfoldable pub intercept : Option RateLimitConfig → Action State Decision
  intercept config = limit_config config
