-- ===== src/Booking/Refund/Rounds.antt =====
-- The rounds of the refund machine when every call answers, and what the last one leaves.
use distributed_nestjs_event.Base.{
  ◌∙◌, ℕ, suc, ◌≡◌, refl, true, false, none, some, List, [], ◌∷◌, ◌++◌, map, arith, ok, next_reply,
  later_replies,
}
use distributed_nestjs_event.External.Repository.{insert_all}
use distributed_nestjs_event.Booking.Types.{
  Platform, State, Booking, BookingStatus, RefundState, booking_refunded, Message, refund_payment,
  release_sold_seats,
}
use distributed_nestjs_event.Booking.Tickets.{active_of_booking, cancel_ticket}
use distributed_nestjs_event.Booking.Refund.{
  outbox_with_id, new_outbox, reason_or_default, set_refund_state, step_initiated,
  step_payment_refunded, step_seats_released, complete_refund, dispatch, refund_step, refund_loop,
}

module _ (P : Platform) where
  open P use {bookings, outbox, tickets}

  -- The entity as the last step leaves it.
  abbrev pub refunded_booking : State P → Booking
  refunded_booking s = record (s.booking) {
    status = BookingStatus.refunded;
    cancelled_at = some s.now;
    refund_state = some RefundState.completed;
  }

  -- What a completed run has done.
  pub record Refunded (s s' : State P) (sent : List Message) : Type 0 where
    pub entity : s'.booking ≡ refunded_booking s
    pub stored : bookings.get s.booking.id s'.db.booking_rows ≡ some (refunded_booking s)
    pub notified :
        outbox.get (outbox.fresh s.db.outbox_rows) s'.db.outbox_rows
        ≡ some (
            outbox_with_id
              (outbox.fresh s.db.outbox_rows)
              (new_outbox s.booking.id (booking_refunded (refunded_booking s)) s.now))
    pub tickets_cancelled :
        s'.ticket_rows ≡ tickets.update (active_of_booking s.booking.id) cancel_ticket s.ticket_rows
    pub messages : s'.sent ≡ sent ++ s.sent

  -- The state after the last step, when every call answers.
  abbrev pub after_completion : State P → State P
  after_completion s = record s {
    db = record {
      booking_rows = bookings.save (refunded_booking s) s.db.booking_rows;
      outbox_rows =
          (insert_all outbox outbox_with_id
            (new_outbox s.booking.id (booking_refunded (refunded_booking s)) s.now ∷ [])
            s.db.outbox_rows).1;
    };
    tx = none;
    ticket_rows = tickets.update (active_of_booking s.booking.id) cancel_ticket s.ticket_rows;
    booking = refunded_booking s;
  }

  step_seats_released_answered :
      (s : State P) → step_seats_released P s [] ≡ (ok true, after_completion s, [])
  unfolding step_seats_released complete_refund next_reply later_replies
  step_seats_released_answered s = refl

  pub after_completion-Refunded : (s : State P) → Refunded s (after_completion s) []
  unfolding insert_all
  after_completion-Refunded s =
      let row = new_outbox s.booking.id (booking_refunded (refunded_booking s)) s.now in
      let key = outbox.fresh s.db.outbox_rows in
      record {
        entity = refl;
        stored =
            ground (arith, bookings.get-save s.booking.id (refunded_booking s) s.db.booking_rows);
        notified = ground (arith, outbox.get-save key (outbox_with_id key row) s.db.outbox_rows);
        tickets_cancelled = refl;
        messages = refl;
      }

  -- The state after a step that asks another service and saves the entity.
  abbrev pub moved : Message → RefundState → State P → State P
  moved m state s = record s {
    sent = m ∷ s.sent;
    booking = set_refund_state state s.booking;
    db = record (s.db) {
      booking_rows = bookings.save (set_refund_state state s.booking) s.db.booking_rows;
    };
  }

  abbrev pub after_payment : State P → State P
  after_payment s =
      moved
        (refund_payment s.booking.id s.booking.refund_idempotency_key
          (reason_or_default s.booking.cancellation_reason))
        RefundState.payment_refunded s

  abbrev pub after_release : State P → State P
  after_release s =
      moved (release_sold_seats s.booking.event_id (map (λ i. i.seat_id) s.booking.items))
        RefundState.seats_released s

  step_initiated_answered : (s : State P) → step_initiated P s [] ≡ (ok false, after_payment s, [])
  unfolding step_initiated next_reply later_replies
  step_initiated_answered s = refl

  step_payment_refunded_answered :
      (s : State P) → step_payment_refunded P s [] ≡ (ok false, after_release s, [])
  unfolding step_payment_refunded next_reply later_replies
  step_payment_refunded_answered s = refl

  -- One round of the loop.
  round :
      (n : ℕ) (s t : State P) (state : RefundState)
      → s.booking.refund_state ≡ some state
      → dispatch P (some state) s [] ≡ (ok false, t, [])
      → refund_loop P (suc n) s [] ≡ refund_loop P n t []
  unfolding refund_loop refund_step
  round n s t state h e = ground (arith, h, e)

  last_round :
      (n : ℕ) (s t : State P) (state : RefundState)
      → s.booking.refund_state ≡ some state
      → dispatch P (some state) s [] ≡ (ok true, t, [])
      → refund_loop P (suc n) s [] ≡ (ok tt, t, [])
  unfolding refund_loop refund_step
  last_round n s t state h e = ground (arith, h, e)

  pub from_released :
      (n : ℕ) (s : State P)
      → s.booking.refund_state ≡ some RefundState.seats_released
      → refund_loop P (suc n) s [] ≡ (ok tt, after_completion s, [])
  from_released n s h =
      last_round n s (after_completion s) RefundState.seats_released h
        (step_seats_released_answered s)

  pub from_refunded :
      (n : ℕ) (s : State P)
      → s.booking.refund_state ≡ some RefundState.payment_refunded
      → refund_loop P (suc (suc n)) s [] ≡ (ok tt, after_completion (after_release s), [])
  from_refunded n s h =
      round (suc n) s (after_release s) RefundState.payment_refunded h
        (step_payment_refunded_answered s)
      ∙ from_released n (after_release s) refl

  pub from_initiated :
      (n : ℕ) (s : State P)
      → s.booking.refund_state ≡ some RefundState.refund_initiated
      → refund_loop P (suc (suc (suc n))) s []
        ≡ (ok tt, after_completion (after_release (after_payment s)), [])
  from_initiated n s h =
      round (suc (suc n)) s (after_payment s) RefundState.refund_initiated h
        (step_initiated_answered s)
      ∙ from_refunded n (after_payment s) refl
