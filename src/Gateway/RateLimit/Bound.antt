-- ===== src/Gateway/RateLimit/Bound.antt =====
-- The rate limiter lets no more requests through in a window than it is told.
use distributed_nestjs_event.Base.{
  [], ℕ, ◌+◌, ◌≤◌, ◌<◌, ◌≡◌, refl, Bool, true, false, List, ◌∷◌, arith, ltb, leb, ok, err, Result,
  ◌∙◌, sym, Bool-cases, inl, inr,
}
use distributed_nestjs_event.External.SortedSets.{SortedSets, Member, same_member, above}
use distributed_nestjs_event.Gateway.RateLimit.{
  RateLimitConfig, Decision, handled, too_many, window_start, State,
}
use distributed_nestjs_event.Gateway.RateLimit.Window.{
  recent, count, count-le, count-expired, recent-earlier, recent-above, UpTo-later, logged, request,
  Limited, trimmed, entered, request-below, trimmed-known, over-Limited,
}

-- The times of the requests do not decrease from a time on, and no request has the time and the
-- random number of another.
abbrev pub Separate : ℕ → List Member → List Member → Type 0
Separate now seen [] = Unit
Separate now seen (m ∷ ms) =
    (now ≤ m.score) × (count (same_member m) seen ≡ 0) × Separate m.score (m ∷ seen) ms

same_member-recent :
    (w : ℕ) (m x : Member) → 0 < w → same_member m x ≡ true → recent w m.score x ≡ true
same_member-recent w m x h e = ground (arith, e)

count-same :
    (p q : Member → Bool) (ms : List Member) → ((m : Member) → p m ≡ q m) → count p ms ≡ count q ms
count-same p q [] h = refl
count-same p q (m ∷ ms) h = ground (arith, h m, count-same p q ms h)

module _ (R : SortedSets) (key : ℕ) where
  open R use {members, zcard, zadd}

  -- The limiter counts the requests in the window.
  pub zcard-trimmed :
      (c : RateLimitConfig) (now : ℕ) (m : Member) (s : State R key) (log : List Member)
      → Limited R key c now s log
      → now ≤ m.score
      → zcard m.score key (trimmed R key c m s) ≡ count (recent c.window_ms m.score) log
  zcard-trimmed c now m s log h a =
      let t = m.score in
      let old = members t key s.redis in
      R.zcard-members t key (trimmed R key c m s)
      ∙ (rw (R.members-zremrangebyscore t t key (window_start t c.window_ms) s.redis (ground arith))
            (count-same (above (window_start t c.window_ms)) (recent c.window_ms t) old
              (recent-above t c.window_ms))
          ∙ h.known (recent c.window_ms t) t a (λ x e. e))

  -- A new request enters the set once.
  zadd-known :
      (c : RateLimitConfig) (now : ℕ) (m : Member) (s : State R key) (log : List Member)
      (q : Member → Bool)
      → 0 < c.window_ms
      → count (same_member m) log ≡ 0
      → Limited R key c now s log
      → now ≤ m.score
      → ((x : Member) → q x ≡ true → recent c.window_ms m.score x ≡ true)
      → count q (members m.score key (zadd m.score key m (trimmed R key c m s))) ≡ count q (m ∷ log)
  zadd-known c now m s log q pos new h a within =
      let t = m.score in
      let before = trimmed-known R key c now m s log in
      let absent =
        before (same_member m) t h a (ground arith)
          (λ x e. same_member-recent c.window_ms m x pos e)
        ∙ new in
      let there = before q t h a (ground arith) within in
      R.members-zadd t key m q (trimmed R key c m s) absent ∙ ground (arith, there)

  added-known :
      (c : RateLimitConfig) (now : ℕ) (m : Member) (s : State R key) (log : List Member)
      (q : Member → Bool) (t : ℕ)
      → 0 < c.window_ms
      → count (same_member m) log ≡ 0
      → Limited R key c now s log
      → now ≤ m.score
      → m.score ≤ t
      → ((x : Member) → q x ≡ true → recent c.window_ms t x ≡ true)
      → count q (members t key (entered R key c m s)) ≡ count q (m ∷ log)
  added-known c now m s log q t pos new h a b within =
      let t0 = m.score in
      let w = c.window_ms in
      let after = zadd t0 key m (trimmed R key c m s) in
      rw (R.members-pexpire t0 t key w after b) (elim (Bool-cases (ltb t (t0 + w))) [
        | inl live ↦
            rw live (
              zadd-known c now m s log q pos new h a
                (λ x e. recent-earlier w t0 t x b (within x e)))
        | inr gone ↦ rw gone (
            sym (
              count-expired q w t0 t (m ∷ log) within (ground (arith, gone))
                (ground arith, UpTo-later now t0 log a h.past)))
      ])

  below-Limited :
      (c : RateLimitConfig) (now : ℕ) (m : Member) (s : State R key) (log : List Member)
      → 0 < c.window_ms
      → count (same_member m) log ≡ 0
      → Limited R key c now s log
      → now ≤ m.score
      → leb c.max (zcard m.score key (trimmed R key c m s)) ≡ false
      → Limited R key c m.score (request R key c m s).1 (logged (request R key c m s).0 m log)
  below-Limited c now m s log pos new h a below =
      let e = request-below R key c m s log below in
      rw e.1 (record {
        known = λ q t b within. rw e.0 (added-known c now m s log q t pos new h a b within);
        past = (ground arith, UpTo-later now m.score log a h.past);
        bounded = λ u b. ground (
          arith,
          below,
          zcard-trimmed c now m s log h a,
          count-le (recent c.window_ms u) (recent c.window_ms m.score) log
              (λ x f. recent-earlier c.window_ms m.score u x b f),
        );
      })

  pub request-Limited :
      (c : RateLimitConfig) (now : ℕ) (m : Member) (s : State R key) (log : List Member)
      → 0 < c.window_ms
      → count (same_member m) log ≡ 0
      → Limited R key c now s log
      → now ≤ m.score
      → Limited R key c m.score (request R key c m s).1 (logged (request R key c m s).0 m log)
  request-Limited c now m s log pos new h a =
      elim (Bool-cases (leb c.max (zcard m.score key (trimmed R key c m s)))) [
        | inl over ↦ over-Limited R key c now m s log h a over
        | inr below ↦ below-Limited c now m s log pos new h a below
      ]

  pub count-logged :
      (p : Member → Bool) (a : Result Decision) (m : Member) (log seen : List Member)
      → count p log ≤ count p seen
      → count p (logged a m log) ≤ count p (m ∷ seen)
  count-logged p (ok handled) m log seen h = ground (arith, h)
  count-logged p (ok (too_many n)) m log seen h = ground (arith, h)
  count-logged p (err e) m log seen h = ground (arith, h)
