-- ===== src/Payments/Idempotency/Once.antt =====
-- The interceptor lets one request with a key through, however the steps of the requests interleave.
use distributed_nestjs_event.Base.{
  [], ℕ, ◌+◌, ◌≤◌, ◌<◌, ◌≡◌, Bool, true, false, Option, none, some, List, ◌∷◌, arith, ◌∙◌, sym, ◌≢◌,
  ◌==◌, if◌then◌else◌, is_none, Result, ok, err, Reply, Bool-cases, inl, inr, ◌⊎◌, rejects,
}
use distributed_nestjs_event.External.Cache.{Cache}
use distributed_nestjs_event.Payments.Idempotency.{
  Cached, processing, completed, responded, threw, replayed, in_progress, already_processed,
  call_failed, Phase, arrived, missed, claimed, handled, finished, Event, cache_ttl, step, Requests,
  run_event, run_events, cached_reply,
}

module _ {R : Type 0} where
  -- The request has been let through with a key of its own.
  abbrev pub let_through : ℕ → Phase R → Bool
  let_through k (arrived j) = false
  let_through k (missed j) = false
  let_through k (claimed j) = j == k
  let_through k (handled j r) = j == k
  let_through k (finished (responded none r)) = false
  let_through k (finished (responded (some j) r)) = j == k
  let_through k (finished (threw none e)) = false
  let_through k (finished (threw (some j) e)) = j == k
  let_through k (finished (replayed r)) = false
  let_through k (finished in_progress) = false
  let_through k (finished already_processed) = false
  let_through k (finished call_failed) = false

  -- The times of the steps do not decrease and are before an end.
  abbrev pub Ordered : ℕ → ℕ → List (Event R) → Type 0
  Ordered now end [] = Unit
  Ordered now end (e ∷ es) = (now ≤ e.at) × (e.at < end) × Ordered e.at end es

module _ {R : Type 0} (C : Cache (Cached R)) where
  open C use {Store, get}

  -- The key has a value from a time until an end.
  abbrev Kept : ℕ → ℕ → ℕ → Store → Type 0
  Kept k now end s = (u : ℕ) → now ≤ u → u < end → is_none (get u k s) ≡ false

  Kept-set :
      (k t end j ttl : ℕ) (v : Cached R) (s : Store)
      → Kept k t end s
      → end ≤ t + ttl
      → Kept k t end (C.set t j v ttl s)
  Kept-set k t end j ttl v s h b u a z = ground (arith, C.get-set t u j k v ttl s a, h u a z)

  new-Kept :
      (k t end ttl : ℕ) (v : Cached R) (s : Store)
      → end ≤ t + ttl
      → Kept k t end (C.set t k v ttl s)
  new-Kept k t end ttl v s b u a z = ground (arith, C.get-set t u k k v ttl s a)

  step-Kept :
      (k t end : ℕ) (x : Reply) (o : Result R) (p : Phase R) (s : Store)
      → end ≤ t + cache_ttl
      → Kept k t end s
      → Kept k t end (step C t x o p s).1
  unfolding step
  step-Kept k t end x o (arrived none) s b h = h
  step-Kept k t end x o (arrived (some j)) s b h = h
  step-Kept k t end x o (missed j) s b h =
      λ u a z. ground (arith, h u a z, Kept-set k t end j cache_ttl processing s h b u a z)
  step-Kept k t end x o (claimed j) s b h = h
  step-Kept k t end x o (handled j r) s b h =
      λ u a z. ground (arith, h u a z, Kept-set k t end j cache_ttl (completed r) s h b u a z)
  step-Kept k t end x o (finished e) s b h = h

  cached_reply-let_through :
      (k j : ℕ) (x : Reply) (c : Option (Cached R))
      → let_through k (if rejects x then finished call_failed else cached_reply j c) ≢ true
  cached_reply-let_through k j x none e = ground (arith, e)
  cached_reply-let_through k j x (some processing) e = ground (arith, e)
  cached_reply-let_through k j x (some (completed r)) e = ground (arith, e)

  -- A request that a step lets through was let through before it, or finds the key free and takes it.
  step-let_through :
      (k t end : ℕ) (x : Reply) (o : Result R) (p : Phase R) (s : Store)
      → end ≤ t + cache_ttl
      → let_through k (step C t x o p s).0 ≡ true
      → (let_through k p ≡ true)
        ⊎ ((is_none (get t k s) ≡ true) × Kept k t end (step C t x o p s).1)
  unfolding step
  step-let_through k t end x (ok r) (arrived none) s b h = absurd (ground (arith, h))
  step-let_through k t end x (err e) (arrived none) s b h = absurd (ground (arith, h))
  step-let_through k t end x o (arrived (some j)) s b h =
      absurd (cached_reply-let_through k j x (get t j s) h)
  step-let_through k t end x o (missed j) s b h =
      inr
        (ground (arith, h), λ u a z. ground (arith, h, C.get-set t u j k processing cache_ttl s a))
  step-let_through k t end x (ok r) (claimed j) s b h = inl h
  step-let_through k t end x (err e) (claimed j) s b h = inl h
  step-let_through k t end x o (handled j r) s b h = inl h
  step-let_through k t end x o (finished e) s b h = inl h

  -- Nobody has been let through, or one has and the key is kept.
  abbrev Single : ℕ → ℕ → ℕ → Requests C → Type 0
  Single k now end q =
      ((i : ℕ) → let_through k (q.phase i) ≡ false)
      ⊎ ((o : ℕ) × ((i : ℕ) → let_through k (q.phase i) ≡ true → i ≡ o) × Kept k now end q.cache)

  Kept-later : (k now t end : ℕ) (s : Store) → now ≤ t → Kept k now end s → Kept k t end s
  Kept-later k now t end s b h = λ u a z. h u (ground arith) z

  -- The step after which a request has been let through, and was not before.
  step-taken :
      (k end : ℕ) (e : Event R) (q : Requests C)
      → let_through k (q.phase e.who) ≡ false
      → end ≤ e.at + cache_ttl
      → let_through k (step C e.at e.reply e.outcome (q.phase e.who) q.cache).0 ≡ true
      → Kept k e.at end (step C e.at e.reply e.outcome (q.phase e.who) q.cache).1
  step-taken k end e q before b new =
      elim (step-let_through k e.at end e.reply e.outcome (q.phase e.who) q.cache b new) [
        | inl f ↦ absurd (ground (arith, before, f))
        | inr taken ↦ taken.1
      ]

  -- A step that lets a request through where the key is kept belongs to one that was let through.
  let_through-step :
      (k end : ℕ) (e : Event R) (q : Requests C)
      → Kept k e.at end q.cache
      → e.at < end
      → end ≤ e.at + cache_ttl
      → let_through k (step C e.at e.reply e.outcome (q.phase e.who) q.cache).0 ≡ true
      → let_through k (q.phase e.who) ≡ true
  let_through-step k end e q still z b new =
      elim (step-let_through k e.at end e.reply e.outcome (q.phase e.who) q.cache b new) [
        | inl f ↦ f
        | inr taken ↦ absurd (ground (arith, taken.0, still e.at (ground arith) z))
      ]

  run_event-Single :
      (k now end : ℕ) (e : Event R) (q : Requests C)
      → now ≤ e.at
      → e.at < end
      → end ≤ now + cache_ttl
      → Single k now end q
      → Single k e.at end (run_event C e q)
  unfolding run_event
  run_event-Single k now end e q a z b (inl free) =
      let y = step C e.at e.reply e.outcome (q.phase e.who) q.cache in
      elim (Bool-cases (let_through k y.0)) [
        | inl new ↦ inr (
          e.who,
          λ i f. ground (arith, free i, f),
          (step-taken k end e q (free e.who) (ground arith) new),
        )
        | inr old ↦ inl (λ i. ground (arith, free i, old))
      ]
  run_event-Single k now end e q a z b (inr (o, one, kept)) =
      let y = step C e.at e.reply e.outcome (q.phase e.who) q.cache in
      let still = Kept-later k now e.at end q.cache a kept in
      inr (
        o,
        λ i f. elim (Bool-cases (i == e.who)) [
          | inl same ↦ ground (
            arith,
            same,
            one e.who (let_through-step k end e q still z (ground arith) (ground (arith, f, same))),
          )
          | inr other ↦ ground (arith, other, f, one i)
        ],
        step-Kept k e.at end e.reply e.outcome (q.phase e.who) q.cache (ground arith) still,
      )

  run_events-Single :
      (k now end : ℕ) (es : List (Event R)) (q : Requests C)
      → Ordered now end es
      → end ≤ now + cache_ttl
      → Single k now end q
      → ((i : ℕ) → let_through k ((run_events C es q).phase i) ≡ false)
        ⊎ ((o : ℕ) × ((i : ℕ) → let_through k ((run_events C es q).phase i) ≡ true → i ≡ o))
  unfolding run_events
  run_events-Single k now end [] q order b (inl free) = inl free
  run_events-Single k now end [] q order b (inr (o, one, kept)) = inr (o, one)
  run_events-Single k now end (e ∷ es) q (a, z, order) b single =
      run_events-Single k e.at end es (run_event C e q) order (ground arith)
        (run_event-Single k now end e q a z b single)

  -- At most one request with a key is let through to the handler within the life of a claim, however
  -- the steps of the requests interleave, their calls fail and their handlers end: where none has
  -- been let through, and all steps happen in order and within an hour, a request that is let
  -- through is the only one.
  pub let_through_once :
      (k now i j : ℕ) (es : List (Event R)) (q : Requests C)
      → ((n : ℕ) → let_through k (q.phase n) ≡ false)
      → Ordered now (now + cache_ttl) es
      → i ≢ j
      → let_through k ((run_events C es q).phase i) ≡ true
      → let_through k ((run_events C es q).phase j) ≡ false
  let_through_once k now i j es q free order ne a =
      elim (run_events-Single k now (now + cache_ttl) es q order (ground arith) (inl free)) [
        | inl none_through ↦ none_through j
        | inr (o, one) ↦ elim (Bool-cases (let_through k ((run_events C es q).phase j))) [
          | inl b ↦ absurd (ne (one i a ∙ sym (one j b)))
          | inr b ↦ b
        ]
      ]
