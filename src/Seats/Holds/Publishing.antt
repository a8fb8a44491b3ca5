-- ===== src/Seats/Holds/Publishing.antt =====
-- What the operations on holds put into the read model when they succeed.
use distributed_nestjs_event.Base.{
  ℕ, ◌≡◌, none, some, List, arith, ok, err, Error, Script, Action, Result-cases, Bool-cases, inl,
  inr, later_replies,
}
use distributed_nestjs_event.External.Hashes.{hset_all}
use distributed_nestjs_event.Seats.Types.{
  Platform, State, SeatStatus, available, held, sold, SeatLockReleaseReason,
}
use distributed_nestjs_event.Seats.Availability.{updates_to, run_statuses}
use distributed_nestjs_event.Seats.Locks.{lock_seats}
use distributed_nestjs_event.Seats.Locks.Locking.{lock_seats-SameButLocks}
use distributed_nestjs_event.Seats.Locks.Releasing.{release_locks-SameButLocks}
use distributed_nestjs_event.Seats.Holds.{
  HoldResult, hold_writes, hold_try, hold_catch, hold_locked, hold_seats, release_writes,
  release_try, release_seats, sold_writes, sold_try, mark_as_sold, with_rollback,
}

module _ (P : Platform) where
  open P use {availability}

  -- The commands that have an effect have written the statuses of the seats over those of a state.
  abbrev pub Published : ℕ → List ℕ → SeatStatus → State P → State P → Type 0
  Published event seat_ids status s s' =
      s'.redis_availability
      ≡ hset_all availability event (run_statuses P s.now event (updates_to status seat_ids))
          s.redis_availability

  release_try-Published :
      (event : ℕ) (seat_ids : List ℕ) (user : ℕ) (reason : SeatLockReleaseReason) (s : State P)
      (r : Script) (u : Unit {0})
      → (release_try P event seat_ids user reason s r).0 ≡ ok u
      → Published event seat_ids available s (release_try P event seat_ids user reason s r).1
  unfolding release_try release_writes
  release_try-Published event seat_ids user reason s r u e =
      let w = release_writes P event seat_ids user reason s r in
      ground (arith, e, release_locks-SameButLocks P event seat_ids user w.1 w.2)

  sold_try-Published :
      (event : ℕ) (seat_ids : List ℕ) (user : ℕ) (s : State P) (r : Script) (u : Unit {0})
      → (sold_try P event seat_ids user s r).0 ≡ ok u
      → Published event seat_ids sold s (sold_try P event seat_ids user s r).1
  unfolding sold_try sold_writes
  sold_try-Published event seat_ids user s r u e =
      let w = sold_writes P event seat_ids user s r in
      ground (arith, e, release_locks-SameButLocks P event seat_ids user w.1 w.2)

  with_rollback-Published :
      (body : Action (State P) (Unit {0})) (event : ℕ) (seat_ids : List ℕ) (status : SeatStatus)
      (s : State P) (r : Script) (u : Unit {0})
      → ((t : State P) (q : Script) (v : Unit {0})
          → (body t q).0 ≡ ok v
          → Published event seat_ids status t (body t q).1)
      → (with_rollback P body s r).0 ≡ ok u
      → Published event seat_ids status s (with_rollback P body s r).1
  unfolding with_rollback
  with_rollback-Published body event seat_ids status s r u all e =
      let begun : State P = record s { tx = some s.db } in
      let rest = later_replies (later_replies r) in
      elim (Result-cases (body begun rest).0) [
        | inl (v, f) ↦ ground (arith, e, f, all begun rest v f)
        | inr (x, f) ↦ absurd (ground (arith, e, f))
      ]

  pub release_seats-Published :
      (event : ℕ) (seat_ids : List ℕ) (user : ℕ) (reason : SeatLockReleaseReason) (s : State P)
      (r : Script) (u : Unit {0})
      → (release_seats P event seat_ids user reason s r).0 ≡ ok u
      → Published event seat_ids available s (release_seats P event seat_ids user reason s r).1
  unfolding release_seats
  release_seats-Published event seat_ids user reason s r u =
      with_rollback-Published (release_try P event seat_ids user reason) event seat_ids available s
        r u (release_try-Published event seat_ids user reason)

  pub mark_as_sold-Published :
      (event : ℕ) (seat_ids : List ℕ) (user : ℕ) (s : State P) (r : Script) (u : Unit {0})
      → (mark_as_sold P event seat_ids user s r).0 ≡ ok u
      → Published event seat_ids sold s (mark_as_sold P event seat_ids user s r).1
  unfolding mark_as_sold
  mark_as_sold-Published event seat_ids user s r u =
      with_rollback-Published (sold_try P event seat_ids user) event seat_ids sold s r u
        (sold_try-Published event seat_ids user)

  hold_try-Published :
      (event : ℕ) (seat_ids : List ℕ) (user session : ℕ) (s : State P) (r : Script) (x : HoldResult)
      → (hold_try P event seat_ids user session s r).0 ≡ ok x
      → Published event seat_ids held s (hold_try P event seat_ids user session s r).1
  unfolding hold_try hold_writes
  hold_try-Published event seat_ids user session s r x e = ground (arith, e)

  hold_locked-Published :
      (event : ℕ) (seat_ids : List ℕ) (user session : ℕ) (s : State P) (r : Script) (x : HoldResult)
      → (hold_locked P event seat_ids user session s r).0 ≡ ok x
      → Published event seat_ids held s (hold_locked P event seat_ids user session s r).1
  unfolding hold_locked hold_catch
  hold_locked-Published event seat_ids user session s r x e =
      let begun : State P = record s { tx = some s.db } in
      let rest = later_replies (later_replies r) in
      elim (Result-cases (hold_try P event seat_ids user session begun rest).0) [
        | inl (y, f) ↦
            ground (arith, e, f, hold_try-Published event seat_ids user session begun rest y f)
        | inr (y, f) ↦ absurd (ground (arith, e, f))
      ]

  pub hold_seats-Published :
      (event : ℕ) (seat_ids : List ℕ) (user session : ℕ) (s : State P) (r : Script) (x : HoldResult)
      → (hold_seats P event seat_ids user session s r).0 ≡ ok x
      → Published event seat_ids held s (hold_seats P event seat_ids user session s r).1
  unfolding hold_seats
  hold_seats-Published event seat_ids user session s r x e =
      let l = lock_seats P event seat_ids user session s r in
      let same = lock_seats-SameButLocks P event seat_ids user session s r in
      elim (Result-cases l.0) [
        | inl (res, f) ↦ elim (Bool-cases res.success) [
          | inl done ↦
              ground (
                arith,
                e,
                f,
                done,
                same,
                hold_locked-Published event seat_ids user session l.1 l.2 x,
              )
          | inr undone ↦ absurd (ground (arith, e, f, undone))
        ]
        | inr (y, f) ↦ absurd (ground (arith, e, f))
      ]

  -- What a request that fails has done to the read model: nothing.
  abbrev pub Unpublished : State P → State P → Type 0
  Unpublished s s' = s'.redis_availability ≡ s.redis_availability

  hold_try-Unpublished :
      (event : ℕ) (seat_ids : List ℕ) (user session : ℕ) (s : State P) (r : Script) (x : Error)
      → (hold_try P event seat_ids user session s r).0 ≡ err x
      → Unpublished s (hold_try P event seat_ids user session s r).1
  unfolding hold_try hold_writes
  hold_try-Unpublished event seat_ids user session s r x e = ground (arith, e)

  hold_locked-Unpublished :
      (event : ℕ) (seat_ids : List ℕ) (user session : ℕ) (s : State P) (r : Script) (x : Error)
      → (hold_locked P event seat_ids user session s r).0 ≡ err x
      → Unpublished s (hold_locked P event seat_ids user session s r).1
  unfolding hold_locked hold_catch
  hold_locked-Unpublished event seat_ids user session s r x e =
      let begun : State P = record s { tx = some s.db } in
      let rest = later_replies (later_replies r) in
      let t = hold_try P event seat_ids user session begun rest in
      elim (Result-cases t.0) [
        | inl (y, f) ↦ ground (arith, e, f)
        | inr (y, f) ↦ ground (
          arith,
          e,
          f,
          hold_try-Unpublished event seat_ids user session begun rest y f,
          release_locks-SameButLocks P event seat_ids user (record (t.1) { tx = none })
              (later_replies t.2),
        )
      ]

  pub hold_seats-Unpublished :
      (event : ℕ) (seat_ids : List ℕ) (user session : ℕ) (s : State P) (r : Script) (x : Error)
      → (hold_seats P event seat_ids user session s r).0 ≡ err x
      → Unpublished s (hold_seats P event seat_ids user session s r).1
  unfolding hold_seats
  hold_seats-Unpublished event seat_ids user session s r x e =
      let l = lock_seats P event seat_ids user session s r in
      let same = lock_seats-SameButLocks P event seat_ids user session s r in
      elim (Result-cases l.0) [
        | inl (res, f) ↦ elim (Bool-cases res.success) [
          | inl done ↦ ground (
            arith,
            e,
            f,
            done,
            same,
            hold_locked-Unpublished event seat_ids user session l.1 l.2 x,
          )
          | inr undone ↦ ground (arith, e, f, undone, same)
        ]
        | inr (y, f) ↦ ground (arith, e, f, same)
      ]
