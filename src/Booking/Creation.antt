-- ===== src/Booking/Creation.antt =====
-- The creation of a booking: `createBooking`, `persistBooking` and `confirmBookingWithOutbox`
-- (apps/booking-service/src/booking/booking-orchestrator.service.ts). The entity `savedBooking` is
-- the booking in memory.
pub mod Guards
pub mod Payment
pub mod Confirmation
use distributed_nestjs_event.Base.{
  ℕ, ◌+◌, not, Option, none, some, List, [], ◌∷◌, find, Error, Result, ok, err, seat_not_found,
  hold_not_verified, booking_not_found, booking_not_loaded, payment_not_initiated, payment_failed,
  Action, throw, throw_if, query, call, gets, try_catch, finally, ◌>>=◌, ◌>>◌, ◌==◌,
}
use mathlib.Core.Option
use distributed_nestjs_event.Seats.Types.{SeatInventory}
use distributed_nestjs_event.Payments.Types.{PaymentStatus}
use distributed_nestjs_event.Booking.Types.{
  Platform, State, Booking, BookingItem, BookingStatus, CancellationReason, payment_failure,
  payment_error, given, seats_mark_sold, booking_confirmed, initiate_payment, release_seats,
  emit_cancelled,
}
use distributed_nestjs_event.Booking.Refund.{
  assign, save_booking, send, begin, commit, rollback, release, tx_insert_outbox, tx_save_booking,
  new_outbox,
}
use distributed_nestjs_event.Booking.Requests.{
  ItemDto, CreateBookingDto, PaymentReply, Answers, seat_ids_of, selected, total_from, check_seats,
  currency_of, pending_booking,
}

module _ (P : Platform) where
  open P use {bookings, outbox, booking_number, new_item_id}

  abbrev pub from_result : {A : Type 0} → Result A → Action (State P) A
  from_result a s r = (a, s, r)

  -- `dto.items.map((item) => …)`, which throws at the first item without a seat
  unfoldable pub make_items : ℕ → ℕ → List SeatInventory → List ItemDto → Result (List BookingItem)
  make_items booking k seats [] = ok []
  make_items booking k seats (item ∷ items) = elim (find (λ s. s.seat_id == item.seat_id) seats) [
    | none ↦ err (seat_not_found item.seat_id)
    | some seat ↦ elim (make_items booking (k + 1) seats items) [
      | ok rest ↦ ok (
          record {
            id = new_item_id booking k;
            seat_inventory_id = seat.id;
            seat_id = seat.seat_id;
            ticket_type_id = seat.ticket_type_id;
            ticket_type_name = seat.ticket_type_name;
            section_name = seat.section_name;
            row = seat.row;
            seat_number = seat.seat_number;
            unit_price = seat.price;
            attendee_name = item.attendee_name;
            attendee_email = item.attendee_email;
          }
          ∷ rest)
      | err e ↦ err e
    ]
  ]

  -- the `try` block of `persistBooking` up to the commit: `bookings` is keyed by the insert, and the
  -- items are written into the row of their booking
  unfoldable pub persist_writes :
      CreateBookingDto → List SeatInventory → ℕ → Action (State P) (Unit {0})
  persist_writes dto seats total = from_result (currency_of seats) >>= λ currency.
      gets (λ s.
        pending_booking (bookings.fresh s.db.booking_rows) (booking_number s.now) s.now dto currency
          total)
      >>= λ b.
          assign P (λ x. b)
          >> (tx_save_booking P
              >> (from_result (make_items b.id 0 seats dto.items) >>= λ items.
                  assign P (λ x. record b { items = items }) >> (tx_save_booking P >> commit P)))

  -- `persistBooking`; the booking that is read back is the entity in memory
  unfoldable pub persist_booking :
      CreateBookingDto → List SeatInventory → ℕ → Action (State P) (Option Booking)
  persist_booking dto seats total =
      begin P
      >> finally
          (try_catch
            (persist_writes dto seats total
              >> query (λ s. bookings.get s.booking.id s.db.booking_rows))
            (λ error. rollback P >> throw error))
          (release P)

  -- what follows the second query of `confirmBookingWithOutbox`
  unfoldable pub confirm_found : ℕ → ℕ → List ℕ → Option Booking → Action (State P) (Unit {0})
  confirm_found event user seat_ids none = throw booking_not_found
  confirm_found event user seat_ids (some with_items) =
      tx_insert_outbox P (λ s. new_outbox s.booking.id (seats_mark_sold event user seat_ids) s.now)
      >> (tx_insert_outbox P (λ s.
            new_outbox s.booking.id
              (booking_confirmed (record (s.booking) { items = with_items.items })) s.now)
          >> commit P)

  -- the `try` block of `confirmBookingWithOutbox`
  unfoldable pub confirm_writes : ℕ → ℕ → List ℕ → Action (State P) (Unit {0})
  confirm_writes event user seat_ids = gets (λ s. s.now) >>= λ now.
      assign P (λ b. record b { status = BookingStatus.confirmed; confirmed_at = some now })
      >> (tx_save_booking P
          >> (query (λ s. bookings.get s.booking.id s.db.booking_rows)
              >>= confirm_found event user seat_ids))

  unfoldable pub confirm_booking_with_outbox : ℕ → ℕ → List ℕ → Action (State P) (Unit {0})
  confirm_booking_with_outbox event user seat_ids =
      begin P
      >> finally
          (try_catch (confirm_writes event user seat_ids) (λ error. rollback P >> throw error))
          (release P)

  abbrev pub reason_of : Option ℕ → CancellationReason
  reason_of none = payment_failure
  reason_of (some n) = given n

  abbrev pub cancel_with : CancellationReason → Action (State P) (Unit {0})
  cancel_with reason = gets (λ s. s.now) >>= λ now.
      assign P (λ b. record b {
        status = BookingStatus.cancelled;
        cancelled_at = some now;
        cancellation_reason = some reason;
      })
      >> save_booking P

  -- the `else` of `if (payment.status === 'succeeded')`
  unfoldable pub payment_declined : CreateBookingDto → Option ℕ → Action (State P) (Unit {0})
  payment_declined dto failure =
      cancel_with (reason_of failure)
      >> (send P (λ s. release_seats dto.event_id (seat_ids_of dto) dto.user_id) >> call)

  abbrev pub settle : CreateBookingDto → PaymentStatus → Option ℕ → Action (State P) (Unit {0})
  settle dto PaymentStatus.succeeded failure =
      confirm_booking_with_outbox dto.event_id dto.user_id (seat_ids_of dto)
  settle dto _ failure = payment_declined dto failure

  -- the `try` block of `createBooking`
  unfoldable pub pay : CreateBookingDto → Option PaymentReply → Action (State P) (Unit {0})
  pay dto payment =
      send P (λ s. initiate_payment s.booking.id dto.payment_idempotency_key s.booking.total_amount)
      >> (call >> elim payment [
        | none ↦ throw payment_not_initiated
        | some p ↦ settle dto p.status p.failure_reason
      ])

  -- the `catch` block of `createBooking`
  unfoldable pub payment_threw : Error → Action (State P) (Unit {0})
  payment_threw error =
      cancel_with (payment_error error)
      >> (query (λ s. bookings.get s.booking.id s.db.booking_rows) >>= λ found. elim found [
        | none ↦ throw booking_not_found
        | some with_items ↦
            send P
              (λ s. emit_cancelled s.booking.id (record (s.booking) { items = with_items.items }))
            >> throw (payment_failed error)
      ])

  -- what follows the tests
  unfoldable pub book :
      CreateBookingDto
      → List SeatInventory
      → Option PaymentReply
      → Action (State P) (Option Booking)
  book dto seats payment = persist_booking dto seats (total_from 0 seats) >>= λ saved. elim saved [
    | none ↦ throw booking_not_loaded
    | some b ↦
        assign P (λ x. b)
        >> (try_catch (pay dto payment) payment_threw
            >> query (λ s. bookings.get s.booking.id s.db.booking_rows))
  ]

  unfoldable pub create_booking : CreateBookingDto → Answers → Action (State P) (Option Booking)
  create_booking dto answers =
      let seats = selected (seat_ids_of dto) answers.seats in
      call
      >> (from_result (check_seats (seat_ids_of dto) seats)
          >> (call
              >> (throw_if (not answers.verified) hold_not_verified
                  >> book dto seats answers.payment)))
