-- ===== src/Booking/Creation/Guards.antt =====
-- The requests that `createBooking` turns down before it writes anything.
use distributed_nestjs_event.Base.{
  ◌≡◌, Bool, true, false, not, arith, Script, is_err, Result-cases, inl, inr, ◌&&◌,
}
use distributed_nestjs_event.Booking.Types.{Platform, State}
use distributed_nestjs_event.Booking.Requests.{
  CreateBookingDto, Answers, check_seats, selected, seat_ids_of,
}
use distributed_nestjs_event.Booking.Creation.{create_booking}

-- Whether a request passes the tests.
abbrev pub admitted : CreateBookingDto → Answers → Bool
admitted dto answers =
    not (is_err (check_seats (seat_ids_of dto) (selected (seat_ids_of dto) answers.seats)))
    && answers.verified

module _ (P : Platform) where
  -- A request for seats that are not in the inventory, that are not all held, or whose hold by the
  -- user is not verified, fails and leaves every table, every message and the booking in memory as
  -- they are, however its calls end.
  pub create_booking-refused :
      (dto : CreateBookingDto) (answers : Answers) (s : State P) (r : Script)
      → admitted dto answers ≡ false
      → let (a, s', r') = create_booking P dto answers s r in (is_err a ≡ true) × (s' ≡ s)
  unfolding create_booking
  create_booking-refused dto answers s r h =
      elim (Result-cases
        (check_seats (seat_ids_of dto) (selected (seat_ids_of dto) answers.seats))) [
          | inl (x, e) ↦ ground (arith, e, h)
          | inr (x, e) ↦ ground (arith, e, h)
        ]
