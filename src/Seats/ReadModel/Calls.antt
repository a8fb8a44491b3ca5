-- ===== src/Seats/ReadModel/Calls.antt =====
-- Any sequence of the calls that change seats.
use distributed_nestjs_event.Base.{
  ℕ, ◌≡◌, refl, Option, none, some, List, [], ◌∷◌, arith, ok, err, Result, Script, Result-cases,
  inl, inr, pure, ◌>>=◌, Action,
}
use distributed_nestjs_event.External.Repository.{get-save_all-find}
use distributed_nestjs_event.Seats.Types.{
  Platform, State, SeatStatus, available, held, sold, SeatLockReleaseReason, payment_success,
}
use distributed_nestjs_event.Seats.Inventory.{
  of_seats, with_status, update_status, release_sold_seats,
}
use distributed_nestjs_event.Seats.Holds.{HoldResult, hold_seats, release_seats, mark_as_sold}
use distributed_nestjs_event.Seats.Holds.Rollback.{Closed}
use distributed_nestjs_event.Seats.Holds.Exclusion.{hold_seats-HeldDb, HeldDb-rows}
use distributed_nestjs_event.Seats.Holds.Releasing.{
  SettledDb, SettledDb-rows, release_seats-Closed, mark_as_sold-Closed,
}
use distributed_nestjs_event.Seats.Holds.Publishing.{
  Published, hold_seats-Published, release_seats-Published, mark_as_sold-Published,
}
use distributed_nestjs_event.Seats.ReadModel.Agreement.{Agrees, AllRun, changed-Agrees}

-- The calls that change seats.
pub data SeatCall : Type 0 where
  hold_call : ℕ → List ℕ → ℕ → ℕ → SeatCall
  release_call : ℕ → List ℕ → ℕ → SeatLockReleaseReason → SeatCall
  sell_call : ℕ → List ℕ → ℕ → SeatCall
  update_call : ℕ → List ℕ → SeatStatus → SeatCall
  release_sold_call : ℕ → List ℕ → SeatCall

-- A call with the time of its run and the replies to it.
pub record Timed : Type 0 where
  pub seat_call : SeatCall
  pub at : ℕ
  pub script : Script

module _ (P : Platform) where
  open P use {seats}

  unfoldable pub perform : SeatCall → Action (State P) (Unit {0})
  perform (hold_call event seat_ids user session) =
      hold_seats P event seat_ids user session >>= λ x. pure tt
  perform (release_call event seat_ids user reason) = release_seats P event seat_ids user reason
  perform (sell_call event seat_ids user) = mark_as_sold P event seat_ids user
  perform (update_call event seat_ids status) = update_status P event seat_ids status
  perform (release_sold_call event seat_ids) = release_sold_seats P event seat_ids

  abbrev pub settled_state : Result (Unit {0}) × State P × Script → Option (State P)
  settled_state (ok u, s, r) = some s
  settled_state (err e, s, r) = none

  -- Calls one after the other, as long as each succeeds.
  unfoldable pub perform_all : List Timed → State P → Option (State P)
  perform_all [] s = some s
  perform_all (x ∷ xs) s =
      elim (settled_state (perform x.seat_call (record s { now = x.at }) x.script)) [
        | none ↦ none
        | some s' ↦ perform_all xs s'
      ]

  -- No transaction is open, and the row with the key agrees.
  abbrev pub InStep : ℕ → State P → Type 0
  InStep i s = (s.tx ≡ none) × Agrees P s (seats.get i s.db.inventory)

  update_status-InStep :
      (event i : ℕ) (seat_ids : List ℕ) (status : SeatStatus) (s : State P) (r : Script)
      (u : Unit {0})
      → AllRun P s.now
      → InStep i s
      → (update_status P event seat_ids status s r).0 ≡ ok u
      → InStep i (update_status P event seat_ids status s r).1
  unfolding update_status
  update_status-InStep event i seat_ids status s r u all h e = (
    ground (arith, e, h.0),
    changed-Agrees P event i seat_ids status s (update_status P event seat_ids status s r).1 all h.1
        (ground (
          arith,
          e,
          seats.get-update i (of_seats event seat_ids) (with_status status) s.db.inventory
              (λ x. refl),
        ))
        (ground (arith, e)),
  )

  release_sold_seats-InStep :
      (event i : ℕ) (seat_ids : List ℕ) (s : State P) (r : Script) (u : Unit {0})
      → AllRun P s.now
      → InStep i s
      → (release_sold_seats P event seat_ids s r).0 ≡ ok u
      → InStep i (release_sold_seats P event seat_ids s r).1
  unfolding release_sold_seats
  release_sold_seats-InStep event i seat_ids s r u all h e = (
    ground (arith, e, h.0),
    changed-Agrees P event i seat_ids available s (release_sold_seats P event seat_ids s r).1 all
        h.1
        (ground (
          arith,
          e,
          get-save_all-find seats i (of_seats event seat_ids) (with_status available) s.db.inventory
              (λ x. refl),
        ))
        (ground (arith, e)),
  )

  -- What the theorems on holds say of a success.
  Closed-InStep :
      (event i : ℕ) (seat_ids : List ℕ) (user : ℕ) (status : SeatStatus)
      (reason : SeatLockReleaseReason) (s : State P) (x : Result (Unit {0}) × State P × Script)
      (u : Unit {0})
      → AllRun P s.now
      → InStep i s
      → Closed P (SettledDb P event seat_ids user status reason) s.now s.db x
      → x.0 ≡ ok u
      → Published P event seat_ids status s x.1
      → InStep i x.1
  Closed-InStep event i seat_ids user status reason s (ok v, s', r') u all h c e p = (
    c.0,
    changed-Agrees P event i seat_ids status s s' all h.1
        (SettledDb-rows P event seat_ids user status reason s.now i s.db s'.db c.1).0 p,
  )
  Closed-InStep event i seat_ids user status reason s (err x, s', r') u all h c e p = cc

  hold_seats-InStep :
      (event i : ℕ) (seat_ids : List ℕ) (user session : ℕ) (s : State P) (r : Script)
      (x : HoldResult)
      → AllRun P s.now
      → InStep i s
      → (hold_seats P event seat_ids user session s r).0 ≡ ok x
      → InStep i (hold_seats P event seat_ids user session s r).1
  hold_seats-InStep event i seat_ids user session s r x all h e =
      let s' = (hold_seats P event seat_ids user session s r).1 in
      let done = hold_seats-HeldDb P event seat_ids user session s r x h.0 e in
      (
        done.0,
        changed-Agrees P event i seat_ids held s s' all h.1
            (HeldDb-rows P event seat_ids user session s.now i s.db s'.db done.1)
            (hold_seats-Published P event seat_ids user session s r x e),
      )

  perform-InStep :
      (i : ℕ) (c : SeatCall) (s : State P) (r : Script) (u : Unit {0})
      → AllRun P s.now
      → InStep i s
      → (perform c s r).0 ≡ ok u
      → InStep i (perform c s r).1
  unfolding perform
  perform-InStep i (hold_call event seat_ids user session) s r u all h e =
      elim (Result-cases (hold_seats P event seat_ids user session s r).0) [
        | inl (x, f) ↦
            ground (arith, f, hold_seats-InStep event i seat_ids user session s r x all h f)
        | inr (x, f) ↦ absurd (ground (arith, e, f))
      ]
  perform-InStep i (release_call event seat_ids user reason) s r u all h e =
      Closed-InStep event i seat_ids user available reason s
        (release_seats P event seat_ids user reason s r) u all h
        (release_seats-Closed P event seat_ids user reason s r h.0) e
        (release_seats-Published P event seat_ids user reason s r u e)
  perform-InStep i (sell_call event seat_ids user) s r u all h e =
      Closed-InStep event i seat_ids user sold payment_success s
        (mark_as_sold P event seat_ids user s r) u all h
        (mark_as_sold-Closed P event seat_ids user s r h.0) e
        (mark_as_sold-Published P event seat_ids user s r u e)
  perform-InStep i (update_call event seat_ids status) s r u all h e =
      update_status-InStep event i seat_ids status s r u all h e
  perform-InStep i (release_sold_call event seat_ids) s r u all h e =
      release_sold_seats-InStep event i seat_ids s r u all h e

  abbrev pub AllRunIn : List Timed → Type 0
  AllRunIn [] = Unit
  AllRunIn (x ∷ xs) = AllRun P x.at × AllRunIn xs

  -- The read model keeps up with the database where no command of a pipeline fails: after any
  -- sequence of calls that change seats, each at its own time and each successful, a row whose seat
  -- had the row's status in the hash of its event still has it there, and no transaction is open.
  pub perform_all-InStep :
      (i : ℕ) (xs : List Timed) (s s' : State P)
      → AllRunIn xs
      → InStep i s
      → perform_all xs s ≡ some s'
      → InStep i s'
  unfolding perform_all
  perform_all-InStep i [] s s' all h e = ground (arith, h, e)
  perform_all-InStep i (x ∷ xs) s s' all h e =
      let timed : State P = record s { now = x.at } in
      let y = perform x.seat_call timed x.script in
      elim (Result-cases y.0) [
        | inl (u, f) ↦
            perform_all-InStep i xs y.1 s' all.1
              (perform-InStep i x.seat_call timed x.script u all.0 h f) (ground (arith, e, f))
        | inr (u, f) ↦ absurd (ground (arith, e, f))
      ]
