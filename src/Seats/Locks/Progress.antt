-- ===== src/Seats/Locks/Progress.antt =====
-- `lockSeats` succeeds where it should: on different free seats, when Redis answers.
use distributed_nestjs_event.Base.{
  ℕ, ◌*◌, ◌≡◌, refl, true, false, none, List, [], ◌∷◌, ◌++◌, arith, ok, All, Distinct, includes,
  next_reply, later_replies,
}
use distributed_nestjs_event.External.LockStore.{LockKey}
use distributed_nestjs_event.Seats.Types.{Platform, State}
use distributed_nestjs_event.Seats.Locks.{
  lock_at, lock_key, lock_loop, set_lock, lock_ttl, second, conclude, lock_seats,
}

module _ (P : Platform) where
  open P use {locks}

  abbrev pub AllFree : ℕ → List ℕ → State P → Type 0
  AllFree event seats s = All (λ seat. lock_at P (lock_key event seat) s ≡ none) seats

  -- The state after a seat has been locked.
  abbrev after_lock : ℕ → ℕ → ℕ → ℕ → State P → State P
  after_lock event seat user session s = record s {
    redis_locks =
        locks.set_nx s.now (lock_key event seat)
          (record { user_id = user; session_id = session; locked_at = s.now }) (lock_ttl * second)
          s.redis_locks;
  }

  after_lock-AllFree :
      (event seat user session : ℕ) (seats : List ℕ) (s : State P)
      → includes seats seat ≡ false
      → AllFree event seats s
      → AllFree event seats (after_lock event seat user session s)
  after_lock-AllFree event seat user session [] s h free = tt
  after_lock-AllFree event seat user session (x ∷ seats) s h free = ground (
    arith,
    locks.get-set_nx s.now s.now (lock_key event seat) (lock_key event x)
        (record { user_id = user; session_id = session; locked_at = s.now }) (lock_ttl * second)
        s.redis_locks,
    after_lock-AllFree event seat user session seats s,
  )

  set_lock_free :
      (event seat user session : ℕ) (s : State P)
      → lock_at P (lock_key event seat) s ≡ none
      → set_lock P (lock_key event seat) user session s []
        ≡ (ok true, after_lock event seat user session s, [])
  unfolding set_lock next_reply later_replies
  set_lock_free event seat user session s h =
      ground (arith, locks.set_nx_ok_lem s.now (lock_key event seat) s.redis_locks)

  lock_loop_free :
      (event user session : ℕ) (seats : List ℕ) (keys : List LockKey) (failed : List ℕ)
      (s : State P)
      → Distinct seats
      → AllFree event seats s
      → (ks : List LockKey) × (lock_loop P event user session seats keys failed s []).0
          ≡ ok (ks, failed)
  unfolding lock_loop
  lock_loop_free event user session [] keys failed s h free = (keys, refl)
  lock_loop_free event user session (seat ∷ seats) keys failed s h free =
      let (ks, rest) =
        lock_loop_free event user session seats (keys ++ lock_key event seat ∷ []) failed
          (after_lock event seat user session s) h.1
          (after_lock-AllFree event seat user session seats s h.0 free.1) in
      (ks, ground (arith, set_lock_free event seat user session s free.0, rest))

  -- Where the seats differ from one another and none of them is locked, and every call to Redis
  -- answers, `lockSeats` reports success.
  pub lock_seats_free :
      (event : ℕ) (seats : List ℕ) (user session : ℕ) (s : State P)
      → Distinct seats
      → AllFree event seats s
      → (lock_seats P event seats user session s []).0
        ≡ ok (record { success = true; failed_seat_ids = [] })
  unfolding lock_seats conclude
  lock_seats_free event seats user session s h free =
      let (ks, done) = lock_loop_free event user session seats [] [] s h free in
      ground (arith, done)
