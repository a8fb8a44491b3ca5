-- ===== src/Seats/Locks/Releasing.antt =====
-- `releaseSeats` of the lock service deletes the caller's own locks and nobody else's.
use distributed_nestjs_event.Base.{
  Result-cases, inl, inr, ap, sym, ◌∙◌, subst, >>=-ok, ℕ, ◌+◌, ◌≡◌, Bool, false, Option, none, some,
  List, [], ◌∷◌, arith, if◌then◌else◌, ok, Script, includes, ◌==◌, ◌&&◌,
}
use distributed_nestjs_event.External.LockStore.{LockKey, LockData}
use distributed_nestjs_event.Seats.Types.{Platform, State}
use distributed_nestjs_event.Seats.Locks.{
  lock_at, lock_key, del_lock, release_lock, release_loop, release_locks,
}
use distributed_nestjs_event.Seats.Locks.Keys.{lock_later, SameButLocks, SameButLocks-trans}

-- Whether a user holds a lock.
abbrev pub owned : ℕ → Option LockData → Bool
owned user none = false
owned user (some v) = v.user_id == user

module _ (P : Platform) where
  open P use {locks}

  -- The locks after a release, by what they were before it.
  abbrev pub Released : ℕ → ℕ → List ℕ → State P → State P → Type 0
  Released event user seats s s' =
      SameButLocks P s s'
      × ((k : LockKey) (d : ℕ)
          → lock_later P d k s' ≡ (
              if k.event == event && includes seats k.seat && owned user (lock_at P k s)
              then none
              else lock_later P d k s))
      × ((k : LockKey)
          → lock_at P k s' ≡ (
              if k.event == event && includes seats k.seat && owned user (lock_at P k s)
              then none
              else lock_at P k s))

  release_lock-Released :
      (event user seat released : ℕ) (s : State P) (r : Script) (n : ℕ)
      → (release_lock P event user seat released s r).0 ≡ ok n
      → Released event user (seat ∷ []) s (release_lock P event user seat released s r).1
  unfolding release_lock del_lock
  release_lock-Released event user seat released s r n h = (
    ground arith,
    λ k d. ground (arith, locks.get-del (s.now + d) (lock_key event seat) k s.redis_locks),
    λ k. ground (arith, locks.get-del s.now (lock_key event seat) k s.redis_locks),
  )

  release_lock-SameButLocks :
      (event user seat released : ℕ) (s : State P) (r : Script)
      → SameButLocks P s (release_lock P event user seat released s r).1
  unfolding release_lock del_lock
  release_lock-SameButLocks event user seat released s r = ground arith

  release_loop-Released :
      (event user : ℕ) (seats : List ℕ) (released : ℕ) (s : State P) (r : Script) (n : ℕ)
      → (release_loop P event user seats released s r).0 ≡ ok n
      → Released event user seats s (release_loop P event user seats released s r).1
  unfolding release_loop
  release_loop-Released event user [] released s r n h =
      (ground arith, λ k d. ground arith, λ k. ground arith)
  release_loop-Released event user (seat ∷ seats) released s r n h =
      let (m, passed, step) =
        >>=-ok (release_lock P event user seat released) (release_loop P event user seats) s r n
          h in
      let s' = (release_lock P event user seat released s r).1 in
      let r' = (release_lock P event user seat released s r).2 in
      let first = release_lock-Released event user seat released s r m passed in
      let rest = release_loop-Released event user seats m s' r' n (ap (λ y. y.0) (sym step) ∙ h) in
      subst (λ y. Released event user (seat ∷ seats) s y.1) (sym step)
        (
          SameButLocks-trans P first.0 rest.0,
          λ k d. ground (arith, first.1 k d, first.2 k, rest.1 k d),
          λ k. ground (arith, first.2 k, rest.2 k),
        )

  -- After a release that returns, the locks on the given seats of the event whose holder is the
  -- given user are gone at every later time, and every other lock is as it was.
  pub release_locks-Released :
      (event : ℕ) (seats : List ℕ) (user : ℕ) (s : State P) (r : Script) (n : ℕ)
      → (release_locks P event seats user s r).0 ≡ ok n
      → Released event user seats s (release_locks P event seats user s r).1
  unfolding release_locks
  release_locks-Released event seats user s r n h = release_loop-Released event user seats 0 s r n h

  release_loop-SameButLocks :
      (event user : ℕ) (seats : List ℕ) (released : ℕ) (s : State P) (r : Script)
      → SameButLocks P s (release_loop P event user seats released s r).1
  unfolding release_loop
  release_loop-SameButLocks event user [] released s r = ground arith
  release_loop-SameButLocks event user (seat ∷ seats) released s r =
      let step = release_lock P event user seat released s r in
      elim (Result-cases step.0) [
        | inl (n, e) ↦ ground (
          arith,
          e,
          release_lock-SameButLocks event user seat released s r,
          release_loop-SameButLocks event user seats n step.1 step.2,
        )
        | inr (x, e) ↦ ground (arith, release_lock-SameButLocks event user seat released s r)
      ]

  -- A release touches nothing but the locks, however it ends.
  pub release_locks-SameButLocks :
      (event : ℕ) (seats : List ℕ) (user : ℕ) (s : State P) (r : Script)
      → SameButLocks P s (release_locks P event seats user s r).1
  unfolding release_locks
  release_locks-SameButLocks event seats user s r = release_loop-SameButLocks event user seats 0 s r
