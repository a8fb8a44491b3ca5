-- ===== src/Booking/CreationTests.antt =====
-- Runs of the creation of a booking and the theorems at them.
use distributed_nestjs_event.Base.{
  next_reply, later_replies, [], ℕ, ◌+◌, List, ◌≡◌, refl, none, some, ◌∷◌, ok, err, rejected_call,
  payment_failed, answered, rejected, try_catch, Option,
}
use distributed_nestjs_event.Seats.Types.{held}
use distributed_nestjs_event.Payments.Types.{PaymentStatus}
use distributed_nestjs_event.Booking.Types.{State, BookingItem, emit_cancelled, initiate_payment}
use distributed_nestjs_event.Booking.Fixture.{
  platform, opening, booking_in, request, answers, payment_with,
}
use distributed_nestjs_event.Booking.Requests.{Answers, check_seats, selected}
use distributed_nestjs_event.Booking.Creation.{
  create_booking, make_items, pay, payment_threw, confirm_booking_with_outbox,
}
use distributed_nestjs_event.Booking.Creation.Payment.{
  create_booking-unpaid, pay-charged, cancelled_for, confirmation,
}
use distributed_nestjs_event.Booking.Creation.Confirmation.{
  create_booking-Confirmed, Confirmed, confirmed, persisted,
}

abbrev start : State platform
start = opening (booking_in 0 none 0)

abbrev paid : Answers
paid = answers held PaymentStatus.succeeded

-- Seat 7 is not held.

create_booking-unpaid_example :
    (create_booking platform request
      (answers held PaymentStatus.failed)
      start
      (answered ∷ rejected ∷ [])).1.db.outbox_rows
    ≡ start.db.outbox_rows
create_booking-unpaid_example =
    create_booking-unpaid platform request (answers held PaymentStatus.failed) start
      (answered ∷ rejected ∷ []) refl

unconfirmed : (confirmation platform request start (rejected ∷ [])).0 ≡ err rejected_call
unfolding confirm_booking_with_outbox next_reply later_replies
unconfirmed = refl

unconfirmed_rest : (confirmation platform request start (rejected ∷ [])).2 ≡ []
unfolding confirm_booking_with_outbox next_reply later_replies
unconfirmed_rest = refl

abbrev failed_start : State platform
failed_start = (confirmation platform request start (rejected ∷ [])).1

pay-charged_example :
    let (a, s', r') =
      try_catch
        (pay platform request (some (payment_with PaymentStatus.succeeded)))
        (payment_threw platform)
        start
        (answered ∷ (rejected ∷ [])) in
    (a ≡ err (payment_failed rejected_call))
    × (platform.bookings.get 0 s'.db.booking_rows
        ≡ some (cancelled_for platform rejected_call failed_start))
    × (s'.sent
        ≡ emit_cancelled 0 (cancelled_for platform rejected_call failed_start)
          ∷ initiate_payment 0 55 12500
          ∷ [])
pay-charged_example =
    pay-charged platform request (payment_with PaymentStatus.succeeded) start (rejected ∷ [])
      rejected_call refl unconfirmed unconfirmed_rest

abbrev item_of : ℕ → ℕ → Option ℕ → BookingItem
item_of id seat name = record {
  id = id;
  seat_inventory_id = seat + 100;
  seat_id = seat;
  ticket_type_id = 1;
  ticket_type_name = 1;
  section_name = 1;
  row = 2;
  seat_number = seat;
  unit_price = 12500;
  attendee_name = name;
  attendee_email = none;
}

abbrev items : List BookingItem
items = item_of 0 7 (some 1) ∷ item_of 1 8 none ∷ []

create_booking-Confirmed_example :
    let (a, s', r') = create_booking platform request paid start [] in
    let b =
      confirmed platform 5000
        (persisted platform request 1 (selected (7 ∷ 8 ∷ []) paid.seats) items start) in
    (a ≡ ok (some b)) × Confirmed platform request b start s'
unfolding check_seats make_items
create_booking-Confirmed_example =
    create_booking-Confirmed platform request paid (payment_with PaymentStatus.succeeded) 1 items
      start refl refl refl refl refl refl

-- The total of the confirmed booking is the sum of the two prices.
total_example :
    (persisted platform request 1 (selected (7 ∷ 8 ∷ []) paid.seats) items start).total_amount
    ≡ 25000
total_example = refl
