-- ===== src/Seats/Availability.antt =====
-- `AvailabilityReadService` (apps/seat-inventory-service/src/cqrs/availability-read.service.ts):
-- the read model of the seats' statuses, one Redis hash for each event.
use distributed_nestjs_event.Base.{ℕ, List, [], ◌∷◌, if◌then◌else◌, Action, write, map}
use distributed_nestjs_event.External.Hashes.{Entry, hset_all}
use distributed_nestjs_event.Seats.Types.{Platform, State, SeatStatus, hset_status}

-- A seat with the status that it is to get.
abbrev pub Update : Type 0
Update = Entry SeatStatus

abbrev pub updates_to : SeatStatus → List ℕ → List Update
updates_to status seats = map (λ seat. record { field = seat; value = status }) seats

module _ (P : Platform) where
  open P use {availability, seats, command_fails}

  -- `updateSeatsStatus`
  abbrev pub update_seats_status : ℕ → ℕ → SeatStatus → Action (State P) (Unit {0})
  update_seats_status event seat status = write (λ s. record s {
    redis_availability = availability.hset event seat status s.redis_availability;
  })

  -- The commands of a pipeline that have an effect, of those that write statuses at a time.
  unfoldable pub run_statuses : ℕ → ℕ → List Update → List Update
  run_statuses now event [] = []
  run_statuses now event (x ∷ xs) =
      let rest = run_statuses now event xs in
      if command_fails now (hset_status event x.field) then rest else x ∷ rest

  -- The results of `pipeline.exec()` are not read.
  abbrev pub update_multiple_seats_status : ℕ → List Update → Action (State P) (Unit {0})
  update_multiple_seats_status event updates = write (λ s. record s {
    redis_availability =
        hset_all availability event (run_statuses s.now event updates) s.redis_availability;
  })
