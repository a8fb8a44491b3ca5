-- ===== src/Seats/ReadModel/Agreement.antt =====
-- The read model and the rows agree, and the operations that succeed keep it so.
use distributed_nestjs_event.Base.{
  ℕ, ◌≡◌, refl, false, Option, none, some, List, [], ◌∷◌, arith, ◌==◌, ◌&&◌, if◌then◌else◌,
  includes, Option-cases, inl, inr,
}
use mathlib.Core.Option
use distributed_nestjs_event.External.Hashes.{hset_all}
use distributed_nestjs_event.Seats.Types.{Platform, State, SeatInventory, SeatStatus, hset_status}
use distributed_nestjs_event.Seats.Availability.{updates_to, run_statuses}
use distributed_nestjs_event.Seats.Inventory.{of_seats, with_status}
use distributed_nestjs_event.Seats.Holds.Publishing.{Published}

module _ (P : Platform) where
  open P use {seats, availability, command_fails}

  -- No command of a pipeline that writes statuses at a time fails.
  abbrev pub AllRun : ℕ → Type 0
  AllRun now = (event seat : ℕ) → command_fails now (hset_status event seat) ≡ false

  run_statuses-AllRun :
      (now event : ℕ) (status : SeatStatus) (seat_ids : List ℕ)
      → AllRun now
      → run_statuses P now event (updates_to status seat_ids) ≡ updates_to status seat_ids
  unfolding run_statuses
  run_statuses-AllRun now event status [] all = refl
  run_statuses-AllRun now event status (x ∷ xs) all =
      ground (arith, all event x, run_statuses-AllRun now event status xs all)

  -- The row, if it is there, has its status in the hash of its event.
  abbrev pub Agrees : State P → Option SeatInventory → Type 0
  Agrees s none = Unit
  Agrees s (some row) =
      availability.hget row.event_id row.seat_id s.redis_availability ≡ some row.status

  hget-updates_to :
      (event e f : ℕ) (status : SeatStatus) (seat_ids : List ℕ) (t : availability.Store)
      → availability.hget e f (hset_all availability event (updates_to status seat_ids) t)
        ≡ (if event == e && includes seat_ids f then some status else availability.hget e f t)
  unfolding hset_all
  hget-updates_to event e f status [] t = ground arith
  hget-updates_to event e f status (x ∷ xs) t = ground (
    arith,
    hget-updates_to event e f status xs (availability.hset event x status t),
    availability.hget-hset event x e f status t,
  )

  -- The rows of the seats have a new status, and it has been published.
  pub changed-Agrees :
      (event i : ℕ) (seat_ids : List ℕ) (status : SeatStatus) (s s' : State P)
      → AllRun s.now
      → Agrees s (seats.get i s.db.inventory)
      → seats.get i s'.db.inventory
        ≡ Option.map
            (λ row. if of_seats event seat_ids row then with_status status row else row)
            (seats.get i s.db.inventory)
      → Published P event seat_ids status s s'
      → Agrees s' (seats.get i s'.db.inventory)
  changed-Agrees event i seat_ids status s s' all before rows published =
      elim (Option-cases (seats.get i s.db.inventory)) [
        | inl n ↦ ground (arith, n, rows)
        | inr (row, n) ↦ ground (
          arith,
          n,
          before,
          rows,
          published,
          run_statuses-AllRun s.now event status seat_ids all,
          hget-updates_to event row.event_id row.seat_id status seat_ids s.redis_availability,
        )
      ]
