-- ===== src/Booking/Requests.antt =====
-- A request for a booking, what the other services answer to it, and its tests: the first part of
-- `createBooking` (apps/booking-service/src/booking/booking-orchestrator.service.ts) with its dto.
use distributed_nestjs_event.Base.{
  ℕ, ◌+◌, ◌*◌, Bool, true, false, not, Option, none, List, [], ◌∷◌, map, filter, includes, length,
  Result, ok, err, type_error, seats_not_found, seats_not_held, ◌==◌, if◌then◌else◌,
}
use distributed_nestjs_event.Seats.Types.{
  SeatInventory, SeatStatus, available, held, reserved, sold,
}
use distributed_nestjs_event.Payments.Types.{PaymentStatus}
use distributed_nestjs_event.Booking.Types.{Booking, BookingStatus}

-- An item of the request, and the request.
pub record ItemDto : Type 0 where
  pub seat_id : ℕ
  pub attendee_name : Option ℕ
  pub attendee_email : Option ℕ

pub record CreateBookingDto : Type 0 where
  pub user_id : ℕ
  pub event_id : ℕ
  pub items : List ItemDto
  pub payment_idempotency_key : ℕ

pub record PaymentReply : Type 0 where
  pub status : PaymentStatus
  pub failure_reason : Option ℕ

-- What the other services answer to `getSeatsByEvent`, `verifyHold` and `initiatePayment`. The
-- seats are the rows of the seat inventory service.
pub record Answers : Type 0 where
  pub seats : List SeatInventory
  pub verified : Bool
  pub payment : Option PaymentReply

-- `BOOKING_EXPIRY_MS`
abbrev pub booking_expiry : ℕ
booking_expiry = 10 * 60 * 1000

abbrev pub seat_ids_of : CreateBookingDto → List ℕ
seat_ids_of dto = map (λ i. i.seat_id) dto.items

abbrev pub ids_of : List SeatInventory → List ℕ
ids_of = map (λ s. s.seat_id)

abbrev pub selected : List ℕ → List SeatInventory → List SeatInventory
selected seat_ids = filter (λ s. includes seat_ids s.seat_id)

abbrev pub is_held : SeatStatus → Bool
is_held available = false
is_held held = true
is_held reserved = false
is_held sold = false

-- `selectedSeats.reduce((acc, seat) => acc + parseFloat(seat.price), 0)`
abbrev pub total_from : ℕ → List SeatInventory → ℕ
total_from acc [] = acc
total_from acc (s ∷ ss) = total_from (acc + s.price) ss

-- The three tests of a request before anything is written.
unfoldable pub check_seats : List ℕ → List SeatInventory → Result (Unit {0})
check_seats seat_ids seats =
    if length seats == length seat_ids
    then elim (filter (λ s. not (is_held s.status)) seats) [
      | [] ↦ ok tt
      | x ∷ xs ↦ err (seats_not_held (ids_of (x ∷ xs)))
    ]
    else err (seats_not_found (filter (λ id. not (includes (ids_of seats) id)) seat_ids))

-- `selectedSeats[0].currency`, which throws a `TypeError` where there is no seat
abbrev pub currency_of : List SeatInventory → Result ℕ
currency_of [] = err type_error
currency_of (s ∷ ss) = ok s.currency

-- `bookingRepo.create`, with the key of the insert
abbrev pub pending_booking : ℕ → ℕ → ℕ → CreateBookingDto → ℕ → ℕ → Booking
pending_booking id number now dto currency total = record {
  id = id;
  booking_number = number;
  user_id = dto.user_id;
  event_id = dto.event_id;
  status = BookingStatus.pending;
  total_amount = total;
  currency = currency;
  expires_at = now + booking_expiry;
  confirmed_at = none;
  cancelled_at = none;
  cancellation_reason = none;
  items = [];
  refund_state = none;
  refund_idempotency_key = none;
  refund_retry_count = 0;
  refund_last_error = none;
}
