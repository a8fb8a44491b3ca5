-- ===== src/Gateway/RateLimit/Window.antt =====
-- The sliding window.
use distributed_nestjs_event.Base.{
  [], ℕ, ◌+◌, ◌≤◌, ◌≡◌, refl, Bool, true, false, some, List, ◌∷◌, filter, length, arith, ltb, leb,
  ok, err, Result, Script, ◌∙◌, next_reply, later_replies, Bool-cases, inl, inr,
}
use distributed_nestjs_event.External.SortedSets.{SortedSets, Member, above}
use distributed_nestjs_event.Gateway.RateLimit.{
  RateLimitConfig, Decision, handled, too_many, window_start, State, limit_try, intercept,
}

-- A request is in the window at a time.
abbrev pub recent : ℕ → ℕ → Member → Bool
recent w u m = ltb u (m.score + w)

abbrev pub count : (Member → Bool) → List Member → ℕ
count p ms = length (filter p ms)

pub count-filter :
    (p q : Member → Bool) (ms : List Member)
    → ((m : Member) → p m ≡ true → q m ≡ true)
    → count p (filter q ms) ≡ count p ms
count-filter p q [] h = refl
count-filter p q (m ∷ ms) h = elim (Bool-cases (p m)) [
  | inl e ↦ ground (arith, e, h m e, count-filter p q ms h)
  | inr e ↦ ground (arith, e, count-filter p q ms h)
]

pub count-le :
    (p q : Member → Bool) (ms : List Member)
    → ((m : Member) → p m ≡ true → q m ≡ true)
    → count p ms ≤ count q ms
count-le p q [] h = omega arith
count-le p q (m ∷ ms) h = elim (Bool-cases (p m)) [
  | inl e ↦ ground (arith, e, h m e, count-le p q ms h)
  | inr e ↦ ground (arith, e, count-le p q ms h)
]

pub recent-above : (now w : ℕ) (m : Member) → above (window_start now w) m ≡ recent w now m
recent-above now w m = elim (Bool-cases (ltb now w)) [
  | inl e ↦ ground (arith, e)
  | inr e ↦ ground (arith, e)
]

pub recent-earlier : (w t u : ℕ) (m : Member) → t ≤ u → recent w u m ≡ true → recent w t m ≡ true
recent-earlier w t u m h e = ground (arith, e)

-- The requests are not after a time.
abbrev pub UpTo : ℕ → List Member → Type 0
UpTo now [] = Unit
UpTo now (m ∷ ms) = (m.score ≤ now) × UpTo now ms

pub UpTo-later : (now t : ℕ) (ms : List Member) → now ≤ t → UpTo now ms → UpTo t ms
UpTo-later now t [] h k = tt
UpTo-later now t (m ∷ ms) h k = (ground (arith, k.0), UpTo-later now t ms h k.1)

pub count-expired :
    (q : Member → Bool) (w t u : ℕ) (ms : List Member)
    → ((m : Member) → q m ≡ true → recent w u m ≡ true)
    → t + w ≤ u
    → UpTo t ms
    → count q ms ≡ 0
count-expired q w t u [] h k up = refl
count-expired q w t u (m ∷ ms) h k up = elim (Bool-cases (q m)) [
  | inl e ↦ absurd (let r = h m e in ground (arith, r, up.0))
  | inr e ↦ ground (arith, e, count-expired q w t u ms h k up.1)
]

-- The log of the requests that were let through, the last one first.
abbrev pub logged : Result Decision → Member → List Member → List Member
logged (ok handled) m log = m ∷ log
logged (ok (too_many n)) m log = log
logged (err e) m log = log

module _ (R : SortedSets) (key : ℕ) where
  open R use {Store, members, zremrangebyscore, zcard, zadd, zrange_first, pexpire}

  -- A request at the time and with the random number of a member, every call answering.
  abbrev pub request :
      RateLimitConfig → Member → State R key → Result Decision × State R key × Script
  request c m s = intercept R key (some c) (record s { now = m.score; random = m.random }) []

  unfoldable pub run :
      RateLimitConfig → List Member → State R key → List Member → State R key × List Member
  run c [] s log = (s, log)
  run c (m ∷ ms) s log = let (a, s', r') = request c m s in run c ms s' (logged a m log)

  -- Redis knows the requests in the window, and there are not too many.
  pub record Limited (c : RateLimitConfig) (now : ℕ) (s : State R key) (log : List Member)
      : Type 0 where
    pub known :
        (q : Member → Bool) (t : ℕ)
        → now ≤ t
        → ((m : Member) → q m ≡ true → recent c.window_ms t m ≡ true)
        → count q (members t key s.redis) ≡ count q log
    pub past : UpTo now log
    pub bounded : (u : ℕ) → now ≤ u → count (recent c.window_ms u) log ≤ c.max

  -- Redis after the removal of what has left the window.
  abbrev pub trimmed : RateLimitConfig → Member → State R key → Store
  trimmed c m s = zremrangebyscore m.score key (window_start m.score c.window_ms) s.redis

  abbrev pub entered : RateLimitConfig → Member → State R key → Store
  entered c m s = pexpire m.score key c.window_ms (zadd m.score key m (trimmed c m s))

  -- A request over the limit, and one below it.
  request-over :
      (c : RateLimitConfig) (m : Member) (s : State R key) (log : List Member)
      → leb c.max (zcard m.score key (trimmed c m s)) ≡ true
      → ((request c m s).1.redis ≡ trimmed c m s) × (logged (request c m s).0 m log ≡ log)
  unfolding intercept limit_try next_reply later_replies
  request-over c m s log h = ground (arith, h)

  pub request-below :
      (c : RateLimitConfig) (m : Member) (s : State R key) (log : List Member)
      → leb c.max (zcard m.score key (trimmed c m s)) ≡ false
      → ((request c m s).1.redis ≡ entered c m s) × (logged (request c m s).0 m log ≡ m ∷ log)
  unfolding intercept limit_try next_reply later_replies
  request-below c m s log h = ground (arith, h)

  pub trimmed-known :
      (c : RateLimitConfig) (now : ℕ) (m : Member) (s : State R key) (log : List Member)
      (q : Member → Bool) (t : ℕ)
      → Limited c now s log
      → now ≤ m.score
      → m.score ≤ t
      → ((x : Member) → q x ≡ true → recent c.window_ms t x ≡ true)
      → count q (members t key (trimmed c m s)) ≡ count q log
  trimmed-known c now m s log q t h a b within =
      rw (R.members-zremrangebyscore m.score t key (window_start m.score c.window_ms) s.redis b) (
        count-filter q (above (window_start m.score c.window_ms)) (members t key s.redis) (λ x e.
          recent-above m.score c.window_ms x
          ∙ recent-earlier c.window_ms m.score t x b (within x e))
        ∙ h.known q t (ground arith) within)

  pub over-Limited :
      (c : RateLimitConfig) (now : ℕ) (m : Member) (s : State R key) (log : List Member)
      → Limited c now s log
      → now ≤ m.score
      → leb c.max (zcard m.score key (trimmed c m s)) ≡ true
      → Limited c m.score (request c m s).1 (logged (request c m s).0 m log)
  over-Limited c now m s log h a over =
      let e = request-over c m s log over in
      rw e.1 (record {
        known = λ q t b within. rw e.0 (trimmed-known c now m s log q t h a b within);
        past = UpTo-later now m.score log a h.past;
        bounded = λ u b. h.bounded u (ground arith);
      })
