-- ===== src/Payments/Idempotency/Replay.antt =====
-- A repeated request: what it gets after the first, by how the first ended.
use distributed_nestjs_event.Base.{
  ℕ, ◌+◌, ◌≤◌, ◌<◌, ◌≡◌, Option, none, some, arith, Result, ok, err, answered,
}
use distributed_nestjs_event.External.Cache.{Cache}
use distributed_nestjs_event.Payments.Idempotency.{
  Cached, processing, completed, replayed, in_progress, Phase, arrived, finished, cache_ttl, step,
}

module _ {R : Type 0} (C : Cache (Cached R)) where
  open C use {Store, get, set}

  -- Four steps of one request, at a time for each, with the calls answered.
  unfoldable pub intercept : ℕ → ℕ → ℕ → ℕ → Result R → Option ℕ → Store → Phase R × Store
  intercept t u v w o key s =
      let (p, a) = step C t answered o (arrived key) s in
      let (p', b) = step C u answered o p a in
      let (p'', c) = step C v answered o p' b in step C w answered o p'' c

  -- For an hour after a response, each request with the same key gets that response, whatever its
  -- own handler would do; and for an hour after a handler that throws, each request with the same key
  -- is told that the payment is in progress.
  pub intercept-again :
      (t u v w t' : ℕ) (k : ℕ) (o o' : Result R) (s : Store)
      → get t k s ≡ none
      → get u k s ≡ none
      → u ≤ t'
      → w ≤ t'
      → t' < u + cache_ttl
      → t' < w + cache_ttl
      → let s' = (intercept t u v w o (some k) s).1 in
        intercept t' t' t' t' o' (some k) s'
        ≡ (finished (elim o [ ok r ↦ replayed r | err e ↦ in_progress ]), s')
  unfolding intercept step
  intercept-again t u v w t' k (ok r) o' s a b c d e f =
      let s' = set u k processing cache_ttl s in
      ground (arith, a, b, C.get-set w t' k k (completed r) cache_ttl s' d)
  intercept-again t u v w t' k (err x) o' s a b c d e f =
      ground (arith, a, b, C.get-set u t' k k processing cache_ttl s c)
