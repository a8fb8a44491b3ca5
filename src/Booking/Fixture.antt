-- ===== src/Booking/Fixture.antt =====
-- A platform in memory with bookings, outbox entries and a ticket, for tests.
use distributed_nestjs_event.Base.{
  ℕ, ◌+◌, Option, none, some, [], ◌∷◌, ◌==◌, if◌then◌else◌, true, false,
}
use distributed_nestjs_event.External.Memory.{memory_repository}
use distributed_nestjs_event.Seats.Types.{SeatInventory, SeatStatus, held, available}
use distributed_nestjs_event.Booking.Requests.{CreateBookingDto, Answers, PaymentReply}
use distributed_nestjs_event.Payments.Types.{PaymentStatus}
use distributed_nestjs_event.Booking.Types.{
  Platform, State, Booking, BookingItem, BookingStatus, RefundState, Outbox, OutboxStatus,
  OutboxEvent, seats_mark_sold, booking_refunded, Ticket, TicketStatus, booking_key, outbox_key,
  ticket_key, user_cancellation,
}

abbrev pub platform : Platform
platform = record {
  bookings = memory_repository booking_key;
  outbox = memory_repository outbox_key;
  tickets = memory_repository ticket_key;
  random_code = λ k. k + 1000;
  booking_number = λ now. now;
  new_item_id = λ booking k. k;
  qr_code = λ code booking item. code;
}

abbrev pub item : BookingItem
item = record {
  id = 1;
  seat_inventory_id = 2;
  seat_id = 9;
  ticket_type_id = 1;
  ticket_type_name = 1;
  section_name = 1;
  row = 2;
  seat_number = 9;
  unit_price = 12500;
  attendee_name = none;
  attendee_email = none;
}

-- A confirmed booking of user 3, with the state of its refund and the retries of it.
abbrev pub booking_in : ℕ → Option RefundState → ℕ → Booking
booking_in id state retries = record {
  id = id;
  booking_number = 70;
  user_id = 3;
  event_id = 1;
  status = BookingStatus.confirmed;
  total_amount = 12500;
  currency = 1;
  expires_at = 600000;
  confirmed_at = some 100;
  cancelled_at = none;
  cancellation_reason = some user_cancellation;
  items = item ∷ [];
  refund_state = state;
  refund_idempotency_key = some 44;
  refund_retry_count = retries;
  refund_last_error = none;
}

abbrev pub booking_cells : ℕ → Option Booking
booking_cells i =
    if i == 0
    then some (booking_in 0 none 0)
    else (if i == 1
        then some (booking_in 1 (some RefundState.payment_refunded) 2)
        else (if i == 2 then some (booking_in 2 (some RefundState.seats_released) 5) else none))

abbrev pub entry_of : ℕ → OutboxEvent → Outbox
entry_of id event = record {
  id = id;
  aggregate_id = 0;
  event = event;
  status = OutboxStatus.pending;
  retry_count = 4;
  max_retries = 5;
  last_error = none;
  processed_at = none;
  created_at = 100;
}

abbrev pub sold_event : OutboxEvent
sold_event = seats_mark_sold 1 3 (9 ∷ [])

abbrev pub refunded_event : OutboxEvent
refunded_event = booking_refunded (booking_in 0 none 0)

abbrev pub outbox_cells : ℕ → Option Outbox
outbox_cells i =
    if i == 0
    then some (entry_of 0 sold_event)
    else (if i == 1 then some (entry_of 1 refunded_event) else none)

abbrev pub ticket : Ticket
ticket = record {
  id = 0;
  booking_id = 1;
  booking_item_id = 1;
  ticket_code = 1000;
  qr_code_data = 1000;
  status = TicketStatus.active;
  seat_id = 9;
  section_name = 1;
  row = 2;
  seat_number = 9;
  attendee_name = none;
  attendee_email = none;
  checked_in_at = none;
}

-- The opening state of a request that has a booking in memory.
abbrev pub opening : Booking → State platform
opening b = record {
  now = 5000;
  db = record {
    booking_rows = record { bound = 3; cell = booking_cells };
    outbox_rows = record { bound = 2; cell = outbox_cells };
  };
  tx = none;
  ticket_rows = record { bound = 1; cell = λ i. if i == 0 then some ticket else none };
  codes_drawn = 1;
  sent = [];
  booking = b;
  entry = entry_of 0 sold_event;
  is_processing = false;
}

-- A row of the seat inventory, as the seat service reports it.
abbrev pub seat_row : ℕ → SeatStatus → SeatInventory
seat_row seat status = record {
  id = seat + 100;
  event_id = 1;
  seat_id = seat;
  section_id = 1;
  section_name = 1;
  ticket_type_id = 1;
  ticket_type_name = 1;
  price = 12500;
  currency = 1;
  row = 2;
  seat_number = seat;
  seat_type = 1;
  status = status;
  price_override = none;
  version = 1;
}

-- A request of user 3 for the seats 7 and 8 of event 1.
abbrev pub request : CreateBookingDto
request = record {
  user_id = 3;
  event_id = 1;
  items =
      record { seat_id = 7; attendee_name = some 1; attendee_email = none }
      ∷ record { seat_id = 8; attendee_name = none; attendee_email = none }
      ∷ [];
  payment_idempotency_key = 55;
}

abbrev pub payment_with : PaymentStatus → PaymentReply
payment_with status = record { status = status; failure_reason = none }

-- Answers in which seat 7 has the given status, and the payment another.
abbrev pub answers : SeatStatus → PaymentStatus → Answers
answers seat payment = record {
  seats = seat_row 7 seat ∷ seat_row 8 held ∷ seat_row 9 available ∷ [];
  verified = true;
  payment = some (payment_with payment);
}
