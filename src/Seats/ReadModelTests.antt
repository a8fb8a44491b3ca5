-- ===== src/Seats/ReadModelTests.antt =====
-- Runs of the queries of the read model and of the opening of an event, and the theorems at them.
use distributed_nestjs_event.Base.{
  [], ℕ, ◌≡◌, arith, refl, false, is_none, Option, none, some, List, ◌∷◌, answered, next_reply,
  later_replies,
}
use distributed_nestjs_event.External.Hashes.{hset_all}
use distributed_nestjs_event.Seats.Types.{State, held, sold, reserved}
use distributed_nestjs_event.Seats.Fixture.{platform, opening, seat_row}
use distributed_nestjs_event.Seats.Inventory.{release_sold_seats}
use distributed_nestjs_event.Seats.Locks.{lock_seats, release_locks}
use distributed_nestjs_event.Seats.Holds.{
  hold_writes, hold_try, hold_locked, hold_seats, make_holds, sold_writes, sold_try, with_rollback,
  mark_as_sold,
}
use distributed_nestjs_event.External.Repository.{IsInserted}
use distributed_nestjs_event.Seats.Opening.{
  EventSeat, EventCreateMessage, in_value, bare, seat_with_id, handle_event_create, repeats,
  message_seats,
}
use distributed_nestjs_event.Seats.Opening.Once.{
  opened_rows, opened_ids, handle_event_create-Opened,
}
use distributed_nestjs_event.Seats.ReadModel.{
  SeatView, detail_of, rebuild_cache, rebuild_with, run_details, delete_statuses, delete_details,
}
use distributed_nestjs_event.Seats.Availability.{run_statuses}
use distributed_nestjs_event.Seats.ReadModel.Rebuilding.{rebuild_cache_refines}
use distributed_nestjs_event.Seats.ReadModel.Calls.{
  Timed, SeatCall, hold_call, sell_call, release_sold_call, perform, perform_all, InStep,
  perform_all-InStep, AllRunIn,
}

-- The hash of event 1 has a seat that is no longer there.
abbrev stale : State platform
stale = record opening {
  redis_availability = platform.availability.hset 1 77 held opening.redis_availability;
}

rebuild_cache_refines_example :
    let (a, s', r') = rebuild_cache platform 1 stale [] in
    (platform.availability.hget 1 9 s'.redis_availability ≡ some sold)
    × (platform.details.hget 1 9 s'.redis_details ≡ some (detail_of (seat_row 2 9 sold)))
    × (platform.availability.hget 1 77 s'.redis_availability ≡ none)
    × (platform.details.hget 1 77 s'.redis_details ≡ none)
    × (platform.availability.hget 2 9 s'.redis_availability ≡ none)
    × (platform.details.hget 2 9 s'.redis_details ≡ none)
rebuild_cache_refines_example =
    rebuild_cache_refines platform 1 2 2 9 77 (seat_row 2 9 sold) stale (λ c. refl) (ground arith)
      refl refl (ground arith) refl

abbrev view : ℕ → SeatView
view seat = record { detail = some (detail_of (seat_row 1 seat held)); status = held }

abbrev views : List SeatView
views = view 7 ∷ record { detail = none; status = reserved } ∷ view 8 ∷ []

abbrev rebuilt : State platform
rebuilt = (rebuild_cache platform 1 opening []).1

abbrev at_time : ℕ → SeatCall → Timed
at_time t c = record { seat_call = c; at = t; script = answered ∷ [] }

abbrev calls : List Timed
calls =
    at_time 5000 (hold_call 1 (7 ∷ 8 ∷ []) 4 2)
    ∷ at_time 6000 (sell_call 1 (7 ∷ []) 4)
    ∷ at_time 9000 (release_sold_call 1 (8 ∷ []))
    ∷ []

abbrev or_opening : Option (State platform) → State platform
or_opening none = opening
or_opening (some s) = s

abbrev after : State platform
after = or_opening (perform_all platform calls rebuilt)

some-or_opening : (x : Option (State platform)) → is_none x ≡ false → x ≡ some (or_opening x)
some-or_opening none e = absurd (ground (arith, e))
some-or_opening (some s) e = refl

after_run : is_none (perform_all platform calls rebuilt) ≡ false
unfolding perform_all perform rebuild_cache rebuild_with hold_seats hold_locked hold_try hold_writes
    make_holds lock_seats release_locks mark_as_sold with_rollback sold_try sold_writes
    release_sold_seats next_reply later_replies hset_all run_statuses run_details delete_statuses
    delete_details
after_run = refl

after_status : platform.availability.hget 1 7 after.redis_availability ≡ some sold
unfolding perform_all perform rebuild_cache rebuild_with hold_seats hold_locked hold_try hold_writes
    make_holds lock_seats release_locks mark_as_sold with_rollback sold_try sold_writes
    release_sold_seats next_reply later_replies hset_all run_statuses run_details delete_statuses
    delete_details
after_status = refl

rebuilt-InStep : InStep platform 0 rebuilt
unfolding rebuild_cache rebuild_with hset_all run_statuses run_details delete_statuses
    delete_details next_reply later_replies
rebuilt-InStep = (refl, refl)

calls-AllRunIn : AllRunIn platform calls
calls-AllRunIn = ground arith

perform_all-InStep_example : InStep platform 0 after
perform_all-InStep_example =
    perform_all-InStep platform 0 calls rebuilt after calls-AllRunIn rebuilt-InStep
      (some-or_opening (perform_all platform calls rebuilt) after_run)

abbrev seat_of : ℕ → EventSeat
seat_of n = record {
  seat_id = n;
  section_id = 1;
  section_name = 4;
  ticket_type_id = 1;
  ticket_type_name = 6;
  price = 5000;
  currency = 1;
  row = 2;
  number = n;
  type = 1;
}

abbrev message : ℕ → EventCreateMessage
message event = record {
  event_id = event;
  venue_id = none;
  venue_name = none;
  title = some 3;
  starts_at = none;
  seats = seat_of 4 ∷ seat_of 5 ∷ [];
}

once : repeats (message_seats (message 2)) ≡ false
unfolding repeats
once = refl

handle_event_create-Opened_example :
    let s' = (handle_event_create platform (in_value (message 2)) opening []).1 in
    IsInserted platform.seats seat_with_id
      (opened_rows platform (message 2))
      (opened_ids platform (message 2) opening)
      opening.db.inventory
      s'.db.inventory
    × (platform.seats.get 2 s'.db.inventory ≡ some (seat_row 2 9 sold))
    × ((handle_event_create platform (in_value (message 2)) s' (answered ∷ [])).1.db ≡ s'.db)
    × ((handle_event_create platform (bare (message 2)) s' (answered ∷ [])).1.db ≡ s'.db)
handle_event_create-Opened_example =
    handle_event_create-Opened platform (message 2) (message 2) (seat_of 4) (seat_of 5 ∷ []) 2
      (seat_row 2 9 sold) opening (answered ∷ []) refl once refl refl refl
