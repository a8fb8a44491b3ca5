-- ===== src/Seats/Holds/Atomicity.antt =====
-- `holdSeats` as a whole, with every way in which its calls may fail.
use distributed_nestjs_event.Base.{
  subst, ◌∙◌, Bool-cases, Result-cases, inl, inr, refl, ℕ, ◌≡◌, ◌⊎◌, true, none, some, List, arith,
  Error, Result, ok, err, Script, later_replies, is_err,
}
use mathlib.Core.Path.{subst₂}
use distributed_nestjs_event.Seats.Types.{Tables, Platform, State}
use distributed_nestjs_event.Seats.Locks.{lock_seats}
use distributed_nestjs_event.Seats.Locks.Locking.{lock_seats-SameButLocks}
use distributed_nestjs_event.Seats.Locks.Releasing.{release_locks-SameButLocks}
use distributed_nestjs_event.Seats.Holds.{hold_locked, hold_seats, HoldResult, hold_try, hold_catch}
use distributed_nestjs_event.Seats.Holds.Holding.{HeldDb, hold_writes-Written}

module _ (P : Platform) where
  hold_catch_lem :
      (event : ℕ) (seat_ids : List ℕ) (user : ℕ) (e : Error) (s : State P) (r : Script)
      → ((hold_catch P event seat_ids user e s r).1.db ≡ s.db)
        × (is_err (hold_catch P event seat_ids user e s r).0 ≡ true)
  unfolding hold_catch
  hold_catch_lem event seat_ids user e s r = ground (
    arith,
    release_locks-SameButLocks P event seat_ids user (record s { tx = none }) (later_replies r),
  )

  -- What a step has done to the database by its result, from a database and a time.
  abbrev Tried : ℕ → List ℕ → ℕ → ℕ → ℕ → Tables P → Result HoldResult → Tables P → Type 0
  Tried event seat_ids user session now db (ok res) db' =
      HeldDb P event seat_ids user session now db db'
  Tried event seat_ids user session now db (err e) db' =
      (db' ≡ db) ⊎ HeldDb P event seat_ids user session now db db'

  hold_try_lem :
      (event : ℕ) (seat_ids : List ℕ) (user session : ℕ) (s : State P) (r : Script)
      → s.tx ≡ some s.db
      → Tried event seat_ids user session s.now s.db
          (hold_try P event seat_ids user session s r).0
          (hold_try P event seat_ids user session s r).1.db
  unfolding hold_try
  hold_try_lem event seat_ids user session s r h =
      ground (arith, hold_writes-Written P event seat_ids user session s r h)

  -- What a request has done, by its result and however its calls failed.
  abbrev pub Held :
      ℕ → List ℕ → ℕ → ℕ → ℕ → Tables P → Result HoldResult × State P × Script → Type 0
  Held event seat_ids user session now db (ok res, s', r') =
      (s'.tx ≡ none) × HeldDb P event seat_ids user session now db s'.db
  Held event seat_ids user session now db (err e, s', r') =
      (s'.tx ≡ none) × ((s'.db ≡ db) ⊎ HeldDb P event seat_ids user session now db s'.db)

  hold_locked-Held :
      (event : ℕ) (seat_ids : List ℕ) (user session : ℕ) (s : State P) (r : Script)
      → s.tx ≡ none
      → Held event seat_ids user session s.now s.db (hold_locked P event seat_ids user session s r)
  unfolding hold_locked
  hold_locked-Held event seat_ids user session s r h =
      let begun : State P = record s { tx = some s.db } in
      let rest = later_replies (later_replies r) in
      let tried = hold_try P event seat_ids user session begun rest in
      elim (Result-cases tried.0) [
        | inl (res, e) ↦ ground (arith, e, hold_try_lem event seat_ids user session begun rest refl)
        | inr (x, e) ↦ ground (
          arith,
          e,
          hold_try_lem event seat_ids user session begun rest refl,
          hold_catch_lem event seat_ids user x tried.1 tried.2,
        )
      ]

  -- `holdSeats` is atomic, whichever of its calls reject. Its transaction is closed in the end,
  -- and either the database is as before, or all of the request is in it: every row that the
  -- request finds was available and is held, and every seat of the request has its new hold. If
  -- the request succeeds, it is the second.
  pub hold_seats-Held :
      (event : ℕ) (seat_ids : List ℕ) (user session : ℕ) (s : State P) (r : Script)
      → s.tx ≡ none
      → Held event seat_ids user session s.now s.db (hold_seats P event seat_ids user session s r)
  unfolding hold_seats
  hold_seats-Held event seat_ids user session s r h =
      let l = lock_seats P event seat_ids user session s r in
      let same = lock_seats-SameButLocks P event seat_ids user session s r in
      elim (Result-cases l.0) [
        | inl (res, e) ↦ elim (Bool-cases res.success) [
          | inl done ↦
              subst (Held event seat_ids user session s.now s.db)
                (let q : hold_locked P event seat_ids user session l.1 l.2
                      ≡ hold_seats P event seat_ids user session s r =
                    ground (arith, e, done) in
                  q)
                (subst₂
                  (λ n d.
                    Held event seat_ids user session n d
                      (hold_locked P event seat_ids user session l.1 l.2))
                  same.same_now same.same_db
                  (hold_locked-Held event seat_ids user session l.1 l.2 (same.same_tx ∙ h)))
          | inr undone ↦ ground (arith, e, undone, same)
        ]
        | inr (x, e) ↦ ground (arith, e, same)
      ]
