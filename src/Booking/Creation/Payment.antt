-- ===== src/Booking/Creation/Payment.antt =====
-- What a booking owes to its payment: nothing is promised to the customer without one, and what
-- happens when the confirmation that follows it fails.
use distributed_nestjs_event.Base.{
  ℕ, ◌≡◌, refl, Bool, true, false, err, arith, Script, Result, Result-cases, inl, inr, Option, none,
  some, List, [], ◌∷◌, answered, next_reply, later_replies, Error, payment_failed, Option-cases,
  try_catch,
}
use mathlib.Core.Option
use distributed_nestjs_event.Seats.Types.{SeatInventory}
use distributed_nestjs_event.Payments.Types.{PaymentStatus}
use distributed_nestjs_event.Booking.Types.{
  Platform, State, Tables, Booking, BookingStatus, payment_error, initiate_payment, emit_cancelled,
}
use distributed_nestjs_event.Booking.Refund.{staged}
use distributed_nestjs_event.Booking.Requests.{
  CreateBookingDto, Answers, PaymentReply, total_from, selected, seat_ids_of,
}
use distributed_nestjs_event.Booking.Creation.{
  create_booking, persist_writes, persist_booking, payment_declined, payment_threw, confirm_found,
  confirm_writes, confirm_booking_with_outbox, pay, book,
}

-- Whether the payment service answers that it has taken the money.
abbrev pub is_paid : Option PaymentReply → Bool
is_paid none = false
is_paid (some p) = elim p.status [
  | PaymentStatus.initiated ↦ false
  | PaymentStatus.processing ↦ false
  | PaymentStatus.succeeded ↦ true
  | PaymentStatus.failed ↦ false
  | PaymentStatus.refunded ↦ false
]

module _ (P : Platform) where
  open P use {bookings, outbox}

  -- The outbox is the given one, in the database and in the open transaction.
  abbrev OutboxIs : outbox.Table → State P → Type 0
  OutboxIs t s = (s.db.outbox_rows ≡ t) × ((staged P s).outbox_rows ≡ t)

  persist_writes-outbox :
      (dto : CreateBookingDto) (seats : List SeatInventory) (total : ℕ) (s : State P) (r : Script)
      → s.tx ≡ some s.db
      → OutboxIs s.db.outbox_rows (persist_writes P dto seats total s r).1
  unfolding persist_writes
  persist_writes-outbox dto seats total s r h = ground (arith, h)

  persist_booking-outbox :
      (dto : CreateBookingDto) (seats : List SeatInventory) (total : ℕ) (s : State P) (r : Script)
      → (persist_booking P dto seats total s r).1.db.outbox_rows ≡ s.db.outbox_rows
  unfolding persist_booking
  persist_booking-outbox dto seats total s r =
      let opened : State P = record s { tx = some s.db } in
      let rest = later_replies (later_replies r) in
      ground (arith, persist_writes-outbox dto seats total opened rest refl)

  payment_threw-outbox :
      (e : Error) (s : State P) (r : Script)
      → (payment_threw P e s r).1.db.outbox_rows ≡ s.db.outbox_rows
  unfolding payment_threw
  payment_threw-outbox e s r = ground arith

  payment_declined-outbox :
      (dto : CreateBookingDto) (n : Option ℕ) (s : State P) (r : Script)
      → (payment_declined P dto n s r).1.db.outbox_rows ≡ s.db.outbox_rows
  unfolding payment_declined
  payment_declined-outbox dto n s r = ground arith

  pay-outbox :
      (dto : CreateBookingDto) (payment : Option PaymentReply) (s : State P) (r : Script)
      → is_paid payment ≡ false
      → (pay P dto payment s r).1.db.outbox_rows ≡ s.db.outbox_rows
  unfolding pay
  pay-outbox dto none s r h = ground arith
  pay-outbox dto (some p) s r h =
      let asked : State P = record s {
        sent =
            initiate_payment s.booking.id dto.payment_idempotency_key s.booking.total_amount
            ∷ s.sent;
      } in
      ground (arith, h, payment_declined-outbox dto p.failure_reason asked (later_replies r))

  settled-outbox :
      (dto : CreateBookingDto) (payment : Option PaymentReply) (s : State P) (r : Script)
      → is_paid payment ≡ false
      → (try_catch (pay P dto payment) (payment_threw P) s r).1.db.outbox_rows ≡ s.db.outbox_rows
  settled-outbox dto payment s r h =
      let after = pay P dto payment s r in
      elim (Result-cases after.0) [
        | inl (x, e) ↦ ground (arith, e, pay-outbox dto payment s r h)
        | inr (x, e) ↦
            ground (arith, e, pay-outbox dto payment s r h, payment_threw-outbox x after.1 after.2)
      ]

  book-outbox :
      (dto : CreateBookingDto) (seats : List SeatInventory) (payment : Option PaymentReply)
      (s : State P) (r : Script)
      → is_paid payment ≡ false
      → (book P dto seats payment s r).1.db.outbox_rows ≡ s.db.outbox_rows
  unfolding book
  book-outbox dto seats payment s r h =
      let (a, s1, r1) = persist_booking P dto seats (total_from 0 seats) s r in
      let same = persist_booking-outbox dto seats (total_from 0 seats) s r in
      elim (Result-cases a) [
        | inl (x, e) ↦ elim (Option-cases x) [
          | inl n ↦ ground (arith, e, n, same)
          | inr (b, n) ↦
              ground
                (arith, e, n, same, settled-outbox dto payment (record s1 { booking = b }) r1 h)
        ]
        | inr (x, e) ↦ ground (arith, e, same)
      ]

  -- A booking without a successful payment promises nothing: whatever the other services answer and
  -- however the calls end, no entry is added to the outbox, which is where the sale of the seats and
  -- the confirmation for the customer come from.
  pub create_booking-unpaid :
      (dto : CreateBookingDto) (answers : Answers) (s : State P) (r : Script)
      → is_paid answers.payment ≡ false
      → (create_booking P dto answers s r).1.db.outbox_rows ≡ s.db.outbox_rows
  unfolding create_booking
  create_booking-unpaid dto answers s r h =
      let seats = selected (seat_ids_of dto) answers.seats in
      ground (arith, book-outbox dto seats answers.payment s (later_replies (later_replies r)) h)

  -- The booking in memory, cancelled for an error.
  abbrev pub cancelled_for : Error → State P → Booking
  cancelled_for e s = record (s.booking) {
    status = BookingStatus.cancelled;
    cancelled_at = some s.now;
    cancellation_reason = some (payment_error e);
  }

  confirm_found_lem :
      (event user : ℕ) (seat_ids : List ℕ) (found : Option Booking) (s : State P) (r : Script)
      → let s' = (confirm_found P event user seat_ids found s r).1 in
        (s'.sent ≡ s.sent) × (s'.booking.id ≡ s.booking.id)
  unfolding confirm_found
  confirm_found_lem event user seat_ids none s r = (refl, refl)
  confirm_found_lem event user seat_ids (some b) s r = ground arith

  confirm_writes_lem :
      (event user : ℕ) (seat_ids : List ℕ) (s : State P) (r : Script)
      → let s' = (confirm_writes P event user seat_ids s r).1 in
        (s'.sent ≡ s.sent) × (s'.booking.id ≡ s.booking.id)
  unfolding confirm_writes
  confirm_writes_lem event user seat_ids s r =
      let b = record (s.booking) { status = BookingStatus.confirmed; confirmed_at = some s.now } in
      let saved : State P = record s {
        booking = b;
        tx =
            Option.map
              (λ (d : Tables P). record d { booking_rows = bookings.save b d.booking_rows }) s.tx;
      } in
      let found = bookings.get s.booking.id s.db.booking_rows in
      ground
        (arith, confirm_found_lem event user seat_ids found saved (later_replies (later_replies r)))

  -- The confirmation sends nothing.
  confirm_booking_lem :
      (event user : ℕ) (seat_ids : List ℕ) (s : State P) (r : Script)
      → let s' = (confirm_booking_with_outbox P event user seat_ids s r).1 in
        (s'.sent ≡ s.sent) × (s'.booking.id ≡ s.booking.id)
  unfolding confirm_booking_with_outbox
  confirm_booking_lem event user seat_ids s r =
      let opened : State P = record s { tx = some s.db } in
      ground
        (arith, confirm_writes_lem event user seat_ids opened (later_replies (later_replies r)))

  -- The state once the payment is asked for.
  abbrev pub asked_for : CreateBookingDto → State P → State P
  asked_for dto s = record s {
    sent =
        initiate_payment s.booking.id dto.payment_idempotency_key s.booking.total_amount ∷ s.sent;
  }

  -- The confirmation that follows the payment.
  abbrev pub confirmation :
      CreateBookingDto → State P → Script → Result (Unit {0}) × State P × Script
  confirmation dto s =
      confirm_booking_with_outbox P dto.event_id dto.user_id (seat_ids_of dto) (asked_for dto s)

  payment_threw_answered :
      (e : Error) (t : State P)
      → let (a, t', r') = payment_threw P e t [] in
        (a ≡ err (payment_failed e))
        × (bookings.get t.booking.id t'.db.booking_rows ≡ some (cancelled_for e t))
        × (t'.sent ≡ emit_cancelled t.booking.id (cancelled_for e t) ∷ t.sent)
  unfolding payment_threw next_reply later_replies
  payment_threw_answered e t =
      ground (arith, bookings.get-save t.booking.id (cancelled_for e t) t.db.booking_rows)

  pay-confirmation :
      (dto : CreateBookingDto) (p : PaymentReply) (s : State P) (q : Script)
      → is_paid (some p) ≡ true
      → pay P dto (some p) s (answered ∷ q) ≡ confirmation dto s q
  unfolding pay next_reply later_replies
  pay-confirmation dto p s q h = ground (arith, h)

  -- A customer who has paid can be left without a booking: where the payment succeeds and the
  -- confirmation ends in an error, whichever of its calls it is that rejects, and the calls after it
  -- answer, the booking is stored as cancelled, and the messages are the payment and the
  -- cancellation, with no refund between them. The caller is told that the payment failed.
  pub pay-charged :
      (dto : CreateBookingDto) (p : PaymentReply) (s : State P) (q : Script) (e : Error)
      → is_paid (some p) ≡ true
      → (confirmation dto s q).0 ≡ err e
      → (confirmation dto s q).2 ≡ []
      → let failed = (confirmation dto s q).1 in
        let (a, s', r') = try_catch (pay P dto (some p)) (payment_threw P) s (answered ∷ q) in
        (a ≡ err (payment_failed e))
        × (bookings.get s.booking.id s'.db.booking_rows ≡ some (cancelled_for e failed))
        × (s'.sent
            ≡ emit_cancelled s.booking.id (cancelled_for e failed)
              ∷ initiate_payment s.booking.id dto.payment_idempotency_key s.booking.total_amount
              ∷ s.sent)
  pay-charged dto p s q e h threw rest =
      let known =
        confirm_booking_lem dto.event_id dto.user_id (seat_ids_of dto) (asked_for dto s) q in
      ground (
        arith,
        pay-confirmation dto p s q h,
        threw,
        rest,
        known,
        payment_threw_answered e (confirmation dto s q).1,
      )
