-- ===== src/Booking/Refund/Cancelling.antt =====
-- `cancelBooking`: who may cancel what, and what a cancellation does.
use distributed_nestjs_event.Base.{
  [], ℕ, ◌≡◌, refl, Bool, true, false, Option, none, some, arith, ok, Script, is_err, next_reply,
  later_replies, ◌==◌, ◌&&◌, Option-cases, inl, inr,
}
use mathlib.Core.Option
use distributed_nestjs_event.Booking.Types.{Platform, State, Booking, RefundState, given}
use distributed_nestjs_event.Booking.Refund.{
  is_confirmed, reason_or_default, process_refund, cancel_booking,
}
use distributed_nestjs_event.Booking.Refund.Rounds.{Refunded}
use distributed_nestjs_event.Booking.Refund.Completion.{requests, process_refund-Refunded}

-- Whether a user may cancel the booking that was found.
abbrev pub may_cancel : ℕ → Option Booking → Bool
may_cancel user none = false
may_cancel user (some b) = b.user_id == user && is_confirmed b.status

module _ (P : Platform) where
  open P use {bookings}

  -- A request to cancel a booking that is not there, that belongs to another user, or that is not
  -- confirmed, fails; it writes nothing and asks no other service for anything, however its calls
  -- end.
  pub cancel_booking-refused :
      (id user key : ℕ) (text : Option ℕ) (s : State P) (r : Script)
      → may_cancel user (bookings.get id s.db.booking_rows) ≡ false
      → let (a, s', r') = cancel_booking P id user key text s r in
        (is_err a ≡ true) × (s'.db ≡ s.db) × (s'.ticket_rows ≡ s.ticket_rows) × (s'.sent ≡ s.sent)
  unfolding cancel_booking
  cancel_booking-refused id user key text s r h =
      elim (Option-cases (bookings.get id s.db.booking_rows)) [
        | inl e ↦ ground (arith, e)
        | inr (b, e) ↦ ground (arith, e, h)
      ]

  -- The booking as a first cancellation leaves it in memory.
  abbrev pub initiated : ℕ → Option ℕ → Booking → Booking
  initiated key text b = record b {
    refund_state = some RefundState.refund_initiated;
    refund_idempotency_key = some key;
    cancellation_reason = some (reason_or_default (Option.map given text));
  }

  -- The state in which the machine starts after a first cancellation.
  abbrev pub started : ℕ → Option ℕ → Booking → State P → State P
  started key text b s = record s {
    booking = initiated key text b;
    db = record (s.db) { booking_rows = bookings.save (initiated key text b) s.db.booking_rows };
  }

  cancel_booking-started :
      (id user key : ℕ) (text : Option ℕ) (b : Booking) (s : State P)
      → bookings.get id s.db.booking_rows ≡ some b
      → may_cancel user (some b) ≡ true
      → b.refund_state ≡ none
      → cancel_booking P id user key text s [] ≡ process_refund P (started key text b s) []
  unfolding cancel_booking next_reply later_replies
  cancel_booking-started id user key text b s e h n = ground (arith, e, h, n)

  -- The first cancellation of a confirmed booking by its owner, with every call answering with
  -- success, refunds it with the given key: it asks for the money and for the release of the seats, in this order,
  -- stores the booking as refunded and completed, and leaves the notification in the outbox.
  pub cancel_booking-Refunded :
      (id user key : ℕ) (text : Option ℕ) (b : Booking) (s : State P)
      → bookings.get id s.db.booking_rows ≡ some b
      → may_cancel user (some b) ≡ true
      → b.refund_state ≡ none
      → ((cancel_booking P id user key text s []).0 ≡ ok tt)
        × Refunded P
            (started key text b s)
            (cancel_booking P id user key text s []).1
            (requests P (started key text b s) RefundState.refund_initiated)
  cancel_booking-Refunded id user key text b s e h n =
      rw (cancel_booking-started id user key text b s e h n)
        (process_refund-Refunded P RefundState.refund_initiated (started key text b s) refl refl)
