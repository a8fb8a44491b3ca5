-- ===== src/Seats/Fixture.antt =====
-- A platform in memory with one event, for tests: event 1 with the seats 7 and 8, which are
-- available, and 9, which is sold to user 3 and whose hold was closed by the payment.
use distributed_nestjs_event.Base.{ℕ, Option, none, some, false, ◌==◌, if◌then◌else◌}
use distributed_nestjs_event.External.Memory.{memory_repository, memory_locks, memory_hashes}
use distributed_nestjs_event.Seats.Types.{
  Platform, State, Tables, SeatInventory, SeatHold, SeatDetail, SeatStatus, available, sold,
  seat_key, hold_key, payment_success,
}

abbrev pub platform : Platform
platform = record {
  seats = memory_repository seat_key;
  holds = memory_repository hold_key;
  locks = memory_locks;
  availability = memory_hashes SeatStatus;
  details = memory_hashes SeatDetail;
  command_fails = λ now command. false;
}

abbrev pub seat_row : ℕ → ℕ → SeatStatus → SeatInventory
seat_row id seat status = record {
  id = id;
  event_id = 1;
  seat_id = seat;
  section_id = 1;
  section_name = 1;
  ticket_type_id = 1;
  ticket_type_name = 1;
  price = 12500;
  currency = 1;
  row = 2;
  seat_number = seat;
  seat_type = 1;
  status = status;
  price_override = none;
  version = 1;
}

abbrev pub sold_hold : SeatHold
sold_hold = record {
  id = 0;
  seat_inventory_id = 2;
  event_id = 1;
  seat_id = 9;
  user_id = 3;
  session_id = 1;
  held_at = 100;
  expires_at = 600100;
  released_at = some 2000;
  release_reason = some payment_success;
}

abbrev pub inventory_cells : ℕ → Option SeatInventory
inventory_cells i =
    if i == 0
    then some (seat_row 0 7 available)
    else (if i == 1
        then some (seat_row 1 8 available)
        else (if i == 2 then some (seat_row 2 9 sold) else none))

abbrev pub hold_cells : ℕ → Option SeatHold
hold_cells i = if i == 0 then some sold_hold else none

abbrev pub tables : Tables platform
tables = record {
  inventory = record { bound = 3; cell = inventory_cells };
  seat_holds = record { bound = 1; cell = hold_cells };
}

abbrev pub opening : State platform
opening = record {
  now = 5000;
  db = tables;
  tx = none;
  redis_locks = λ k. none;
  redis_availability = λ h. record { bound = 0; cell = λ i. none };
  redis_details = λ h. record { bound = 0; cell = λ i. none };
  is_processing = false;
}
