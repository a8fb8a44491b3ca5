-- ===== src/Booking/Creation/Confirmation.antt =====
-- A booking that is paid for, with every call answering.
use distributed_nestjs_event.Base.{
  ℕ, ◌≡◌, refl, true, ok, arith, none, some, List, [], ◌∷◌, next_reply, later_replies,
}
use distributed_nestjs_event.External.Repository.{insert_all}
use distributed_nestjs_event.Seats.Types.{SeatInventory}
use distributed_nestjs_event.Booking.Types.{
  Platform, State, Booking, BookingItem, BookingStatus, OutboxEvent, seats_mark_sold,
  booking_confirmed, initiate_payment,
}
use distributed_nestjs_event.Booking.Refund.{outbox_with_id, new_outbox}
use distributed_nestjs_event.Booking.Requests.{
  CreateBookingDto, Answers, PaymentReply, total_from, check_seats, selected, seat_ids_of,
  currency_of, pending_booking,
}
use distributed_nestjs_event.Booking.Creation.{
  create_booking, persist_writes, persist_booking, confirm_booking_with_outbox, confirm_writes,
  confirm_found, pay, book, make_items,
}
use distributed_nestjs_event.Booking.Creation.Payment.{is_paid}

module _ (P : Platform) where
  open P use {bookings, outbox, booking_number}

  -- The booking as `persistBooking` stores it.
  abbrev pub persisted :
      CreateBookingDto → ℕ → List SeatInventory → List BookingItem → State P → Booking
  persisted dto currency seats items s =
      record (pending_booking (bookings.fresh s.db.booking_rows) (booking_number s.now) s.now dto
        currency (total_from 0 seats)) { items = items }

  abbrev pub confirmed : ℕ → Booking → Booking
  confirmed now b = record b { status = BookingStatus.confirmed; confirmed_at = some now }

  abbrev pub with_entry : ℕ → OutboxEvent → ℕ → outbox.Table → outbox.Table
  with_entry aggregate event now t =
      (insert_all outbox outbox_with_id (new_outbox aggregate event now ∷ []) t).1

  -- Two inserts, one after the other, are both there.
  pub two_entries :
      (a b now : ℕ) (x y : OutboxEvent) (t : outbox.Table)
      → let t1 = with_entry a x now t in
        let t2 = with_entry b y now t1 in
        (outbox.get (outbox.fresh t) t2
          ≡ some (outbox_with_id (outbox.fresh t) (new_outbox a x now)))
        × (outbox.get (outbox.fresh t1) t2
            ≡ some (outbox_with_id (outbox.fresh t1) (new_outbox b y now)))
        × (outbox.get (outbox.fresh t) t ≡ none)
        × (outbox.get (outbox.fresh t1) t ≡ none)
  unfolding insert_all
  two_entries a b now x y t =
      let row = outbox_with_id (outbox.fresh t) (new_outbox a x now) in
      let t1 = with_entry a x now t in
      let k = outbox.fresh t1 in
      let row' = outbox_with_id k (new_outbox b y now) in
      ground (
        arith,
        outbox.get-save (outbox.fresh t) row t,
        outbox.get-save k row t,
        outbox.get-save (outbox.fresh t) row' t1,
        outbox.get-save k row' t1,
        outbox.get-fresh t,
        outbox.get-fresh t1,
      )

  persist_booking_answered :
      (dto : CreateBookingDto) (seats : List SeatInventory) (c : ℕ) (items : List BookingItem)
      (s : State P)
      → currency_of seats ≡ ok c
      → make_items P (bookings.fresh s.db.booking_rows) 0 seats dto.items ≡ ok items
      → let b = persisted dto c seats items s in
        let first = record b { items = [] } in
        persist_booking P dto seats (total_from 0 seats) s [] ≡ (
          ok (some b),
          record s {
            db = record (s.db) {
              booking_rows = bookings.save b (bookings.save first s.db.booking_rows);
            };
            tx = none;
            booking = b;
          },
          [],
        )
  unfolding persist_booking persist_writes next_reply later_replies
  persist_booking_answered dto seats c items s hc hi =
      let b = persisted dto c seats items s in
      let first : Booking = record b { items = [] } in
      ground (arith, hc, hi, bookings.get-save b.id b (bookings.save first s.db.booking_rows))

  -- The state after the confirmation.
  abbrev pub after_confirmation : CreateBookingDto → State P → State P
  after_confirmation dto s =
      let b = s.booking in
      let sold =
        with_entry b.id (seats_mark_sold dto.event_id dto.user_id (seat_ids_of dto)) s.now in
      let told = with_entry b.id (booking_confirmed (confirmed s.now b)) s.now in
      record s {
        db = record {
          booking_rows = bookings.save (confirmed s.now b) s.db.booking_rows;
          outbox_rows = told (sold s.db.outbox_rows);
        };
        tx = none;
        booking = confirmed s.now b;
        sent = initiate_payment b.id dto.payment_idempotency_key b.total_amount ∷ s.sent;
      }

  pay_answered :
      (dto : CreateBookingDto) (p : PaymentReply) (s : State P)
      → is_paid (some p) ≡ true
      → bookings.get s.booking.id s.db.booking_rows ≡ some s.booking
      → pay P dto (some p) s [] ≡ (ok tt, after_confirmation dto s, [])
  unfolding pay confirm_booking_with_outbox confirm_writes confirm_found next_reply later_replies
  pay_answered dto p s h e = ground (arith, h, e)

  -- What a paid booking has left: the stored booking, which the caller gets, the two entries of the
  -- outbox under new keys, and the request for the payment.
  pub record Confirmed (dto : CreateBookingDto) (b : Booking) (s s' : State P) : Type 0 where
    pub stored : bookings.get b.id s'.db.booking_rows ≡ some b
    pub sale_key : ℕ
    pub notice_key : ℕ
    pub new_keys :
        (outbox.get sale_key s.db.outbox_rows ≡ none)
        × (outbox.get notice_key s.db.outbox_rows ≡ none)
    pub sale :
        outbox.get sale_key s'.db.outbox_rows
        ≡ some (
            outbox_with_id sale_key
              (new_outbox b.id (seats_mark_sold dto.event_id dto.user_id (seat_ids_of dto)) s.now))
    pub notice :
        outbox.get notice_key s'.db.outbox_rows
        ≡ some (outbox_with_id notice_key (new_outbox b.id (booking_confirmed b) s.now))
    pub messages :
        s'.sent ≡ initiate_payment b.id dto.payment_idempotency_key b.total_amount ∷ s.sent

  -- The state in which the payment is asked for.
  abbrev pub to_pay : Booking → State P → State P
  to_pay b s = record s {
    db = record (s.db) {
      booking_rows = bookings.save b (bookings.save (record b { items = [] }) s.db.booking_rows);
    };
    tx = none;
    booking = b;
  }

  after_confirmation-Confirmed :
      (dto : CreateBookingDto) (b : Booking) (s : State P)
      → Confirmed dto (confirmed s.now b) s (after_confirmation dto (to_pay b s))
  after_confirmation-Confirmed dto b s =
      let c = confirmed s.now b in
      let sold = seats_mark_sold dto.event_id dto.user_id (seat_ids_of dto) in
      let there = two_entries c.id c.id s.now sold (booking_confirmed c) s.db.outbox_rows in
      record {
        stored = ground (arith, bookings.get-save c.id c (to_pay b s).db.booking_rows);
        sale_key = outbox.fresh s.db.outbox_rows;
        notice_key = outbox.fresh (with_entry c.id sold s.now s.db.outbox_rows);
        new_keys = (there.2, there.3);
        sale = there.0;
        notice = there.1;
        messages = refl;
      }

  book_answered :
      (dto : CreateBookingDto) (seats : List SeatInventory) (p : PaymentReply) (c : ℕ)
      (items : List BookingItem) (s : State P)
      → currency_of seats ≡ ok c
      → make_items P (bookings.fresh s.db.booking_rows) 0 seats dto.items ≡ ok items
      → is_paid (some p) ≡ true
      → let b = persisted dto c seats items s in
        book P dto seats (some p) s []
        ≡ (ok (some (confirmed s.now b)), after_confirmation dto (to_pay b s), [])
  unfolding book next_reply later_replies
  book_answered dto seats p c items s hc hi paid =
      let b = persisted dto c seats items s in
      let t = to_pay b s in
      let stored : bookings.get b.id t.db.booking_rows ≡ some b = ground (
        arith,
        bookings.get-save b.id b (bookings.save (record b { items = [] }) s.db.booking_rows),
      ) in
      ground (
        arith,
        persist_booking_answered dto seats c items s hc hi,
        pay_answered dto p t paid stored,
        bookings.get-save b.id (confirmed s.now b) t.db.booking_rows,
      )

  -- A request that passes the tests, has a seat for every item and is paid for, with every call
  -- answering, returns the booking as confirmed, with the sum of the seats' prices as its total and
  -- the items of the request; it is stored, its two outbox entries are written, and the payment is
  -- the one request that is sent.
  pub create_booking-Confirmed :
      (dto : CreateBookingDto) (answers : Answers) (p : PaymentReply) (c : ℕ)
      (items : List BookingItem) (s : State P)
      → let seats = selected (seat_ids_of dto) answers.seats in
        check_seats (seat_ids_of dto) seats ≡ ok tt
        → answers.verified ≡ true
        → currency_of seats ≡ ok c
        → make_items P (bookings.fresh s.db.booking_rows) 0 seats dto.items ≡ ok items
        → answers.payment ≡ some p
        → is_paid (some p) ≡ true
        → let (a, s', r') = create_booking P dto answers s [] in
          let b = confirmed s.now (persisted dto c seats items s) in
          (a ≡ ok (some b)) × Confirmed dto b s s'
  unfolding create_booking next_reply later_replies
  create_booking-Confirmed dto answers p c items s hs hv hc hi hp paid =
      let seats = selected (seat_ids_of dto) answers.seats in
      let b = persisted dto c seats items s in
      let run : create_booking P dto answers s []
          ≡ (ok (some (confirmed s.now b)), after_confirmation dto (to_pay b s), []) =
        ground (arith, hs, hv, hp, book_answered dto seats p c items s hc hi paid) in
      rw run (refl, after_confirmation-Confirmed dto b s)
