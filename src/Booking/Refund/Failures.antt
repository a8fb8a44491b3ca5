-- ===== src/Booking/Refund/Failures.antt =====
-- What a refund leaves behind when a step fails.
use distributed_nestjs_event.Base.{
  ℕ, ◌+◌, ◌≡◌, refl, true, some, [], ◌∷◌, arith, ok, err, Error, reason, refund_failed,
  rejected_call, Script, answered, refused, rejected, next_reply, later_replies, is_err,
}
use distributed_nestjs_event.Booking.Types.{Platform, State, Booking, RefundState, refund_payment}
use distributed_nestjs_event.Booking.Refund.{
  reason_or_default, step_initiated, step_payment_refunded, step_seats_released, complete_refund,
  record_failure, refund_step, refund_loop, process_refund,
}
use distributed_nestjs_event.Booking.Refund.Rounds.{refunded_booking, Refunded}
use distributed_nestjs_event.Booking.Refund.Completion.{requests, process_refund-Refunded}

module _ (P : Platform) where
  open P use {bookings, outbox}

  -- An entity whose failure has been counted.
  abbrev pub failed_once : Error → Booking → Booking
  failed_once e b = record b {
    refund_retry_count = b.refund_retry_count + 1;
    refund_last_error = some e;
  }

  -- A refund that the payment service declines is stored as failed, with the reason, and the
  -- caller gets the error. Nothing else is requested.
  pub process_refund-declined :
      (n : ℕ) (s : State P)
      → s.booking.refund_state ≡ some RefundState.refund_initiated
      → let (a, s', r') = process_refund P s (refused n ∷ []) in
        (a ≡ err (refund_failed (reason n)))
        × (bookings.get s.booking.id s'.db.booking_rows
            ≡ some (
                failed_once
                  (refund_failed (reason n))
                  (record (s.booking) { refund_state = some RefundState.failed })))
        × (s'.sent
            ≡ refund_payment s.booking.id s.booking.refund_idempotency_key
                (reason_or_default s.booking.cancellation_reason)
              ∷ s.sent)
  unfolding process_refund refund_loop refund_step step_initiated record_failure next_reply
      later_replies
  process_refund-declined n s h =
      let b : Booking = record (s.booking) {
        refund_state = some RefundState.failed;
        refund_last_error = some (reason n);
      } in
      ground (
        arith,
        h,
        bookings.get-save s.booking.id (failed_once (refund_failed (reason n)) b)
            (bookings.save b s.db.booking_rows),
      )

  -- A failed refund stays failed: however the calls end, a run throws, asks no other service for
  -- anything, and leaves the refund state as it is.
  pub process_refund-failed :
      (s : State P) (r : Script)
      → s.booking.refund_state ≡ some RefundState.failed
      → let (a, s', r') = process_refund P s r in
        (is_err a ≡ true) × (s'.booking.refund_state ≡ some RefundState.failed) × (s'.sent ≡ s.sent)
  unfolding process_refund refund_loop refund_step record_failure
  process_refund-failed s r h = ground (arith, h)

  -- The reply of the seat service to the release of the seats is not read: a refusal leads to the
  -- same state as a success.
  step_payment_refunded_refused :
      (n : ℕ) (s : State P) (r : Script)
      → step_payment_refunded P s (refused n ∷ r) ≡ step_payment_refunded P s (answered ∷ r)
  unfolding step_payment_refunded next_reply later_replies
  step_payment_refunded_refused n s r = refl

  step_payment_refunded_end :
      (s : State P) → step_payment_refunded P s (answered ∷ []) ≡ step_payment_refunded P s []
  unfolding step_payment_refunded next_reply later_replies
  step_payment_refunded_end s = refl

  refused_as_answered :
      (n : ℕ) (s : State P)
      → s.booking.refund_state ≡ some RefundState.payment_refunded
      → process_refund P s (refused n ∷ []) ≡ process_refund P s []
  unfolding process_refund refund_loop refund_step
  refused_as_answered n s h =
      ground (arith, h, step_payment_refunded_refused n s [], step_payment_refunded_end s)

  -- Where the seat service refuses to release the seats of a refunded booking, the run completes
  -- the refund all the same: the booking is stored as refunded and completed, the notification is
  -- pending, and the release has been asked for once.
  pub process_refund-refused_release :
      (n : ℕ) (s : State P)
      → s.booking.refund_state ≡ some RefundState.payment_refunded
      → ((process_refund P s (refused n ∷ [])).0 ≡ ok tt)
        × Refunded P s
            (process_refund P s (refused n ∷ [])).1
            (requests P s RefundState.payment_refunded)
  process_refund-refused_release n s h =
      rw (refused_as_answered n s h)
        (process_refund-Refunded P RefundState.payment_refunded s h refl)

  -- The replies with which the commit of the last step rejects and all else answers.
  abbrev pub commit_rejected : Script
  commit_rejected = answered ∷ answered ∷ answered ∷ answered ∷ answered ∷ rejected ∷ []

  -- Where the commit of the last step rejects, the transaction is rolled back, but the handler of
  -- the error saves the entity that the step has already changed: the booking is stored as refunded
  -- and completed, a state that the recovery does not resume, with no outbox entry.
  pub process_refund-lost_entry :
      (s : State P)
      → s.booking.refund_state ≡ some RefundState.seats_released
      → let (a, s', r') = process_refund P s commit_rejected in
        (a ≡ err rejected_call)
        × (bookings.get s.booking.id s'.db.booking_rows
            ≡ some (failed_once rejected_call (refunded_booking P s)))
        × (s'.db.outbox_rows ≡ s.db.outbox_rows)
  unfolding process_refund refund_loop refund_step step_seats_released complete_refund
      record_failure next_reply later_replies
  process_refund-lost_entry s h = ground (
    arith,
    h,
    bookings.get-save s.booking.id (failed_once rejected_call (refunded_booking P s))
        s.db.booking_rows,
  )
