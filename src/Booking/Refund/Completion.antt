-- ===== src/Booking/Refund/Completion.antt =====
-- When every call answers, the five rounds of the machine complete a refund from every state in
-- which it can be resumed.
use distributed_nestjs_event.Base.{
  sym, ap, subst, ℕ, ◌≡◌, Bool, true, false, some, List, [], ◌∷◌, map, arith, ok, ◌==◌,
  if◌then◌else◌,
}
use distributed_nestjs_event.Booking.Types.{
  Platform, State, RefundState, Message, refund_payment, release_sold_seats,
}
use distributed_nestjs_event.Booking.Refund.{reason_or_default, set_refund_state, process_refund}
use distributed_nestjs_event.Booking.Refund.Rounds.{
  refunded_booking, Refunded, after_payment, after_release, after_completion,
  after_completion-Refunded, from_released, from_refunded, from_initiated,
}

-- The states from which the recovery resumes a refund.
abbrev pub is_stuck : RefundState → Bool
is_stuck RefundState.refund_initiated = true
is_stuck RefundState.payment_refunded = true
is_stuck RefundState.seats_released = true
is_stuck RefundState.completed = false
is_stuck RefundState.failed = false

module _ (P : Platform) where
  open P use {bookings, outbox, tickets}

  -- The requests of a run, the last one first, by the state that it begins in.
  abbrev pub requests : State P → RefundState → List Message
  requests s RefundState.refund_initiated =
      release_sold_seats s.booking.event_id (map (λ i. i.seat_id) s.booking.items)
      ∷ refund_payment s.booking.id s.booking.refund_idempotency_key
          (reason_or_default s.booking.cancellation_reason)
      ∷ []
  requests s RefundState.payment_refunded =
      release_sold_seats s.booking.event_id (map (λ i. i.seat_id) s.booking.items) ∷ []
  requests s _ = []

  -- The state in which a completed run ends.
  abbrev pub final_state : RefundState → State P → State P
  final_state RefundState.refund_initiated s =
      after_completion P (after_release P (after_payment P s))
  final_state RefundState.payment_refunded s = after_completion P (after_release P s)
  final_state _ s = after_completion P s

  final_state-Refunded :
      (state : RefundState) (s : State P) → Refunded P s (final_state state s) (requests s state)
  final_state-Refunded RefundState.refund_initiated s =
      let h = after_completion-Refunded P (after_release P (after_payment P s)) in
      record {
        entity = h.entity;
        stored = h.stored;
        notified = h.notified;
        tickets_cancelled = h.tickets_cancelled;
        messages = h.messages;
      }
  final_state-Refunded RefundState.payment_refunded s =
      let h = after_completion-Refunded P (after_release P s) in
      record {
        entity = h.entity;
        stored = h.stored;
        notified = h.notified;
        tickets_cancelled = h.tickets_cancelled;
        messages = h.messages;
      }
  final_state-Refunded _ s = after_completion-Refunded P s

  pub process_refund-final :
      (state : RefundState) (s : State P)
      → s.booking.refund_state ≡ some state
      → is_stuck state ≡ true
      → process_refund P s [] ≡ (ok tt, final_state state s, [])
  unfolding process_refund
  process_refund-final RefundState.refund_initiated s h k = from_initiated P 2 s h
  process_refund-final RefundState.payment_refunded s h k = from_refunded P 3 s h
  process_refund-final RefundState.seats_released s h k = from_released P 4 s h
  process_refund-final RefundState.completed s h k = absurd (cc)
  process_refund-final RefundState.failed s h k = absurd (cc)

  -- When every call answers, a run from any state in which the recovery resumes a refund ends
  -- well within its five rounds. The booking is refunded and completed, in memory and in the
  -- database; one outbox entry for the notification is pending; the active tickets are cancelled;
  -- and the requests to the other services are those of the steps that were still to be made, in
  -- their order.
  pub process_refund-Refunded :
      (state : RefundState) (s : State P)
      → s.booking.refund_state ≡ some state
      → is_stuck state ≡ true
      → ((process_refund P s []).0 ≡ ok tt)
        × Refunded P s (process_refund P s []).1 (requests s state)
  process_refund-Refunded state s h k =
      let e = process_refund-final state s h k in
      (
        ap (λ x. x.0) e,
        subst (λ (x : State P). Refunded P s x (requests s state)) (sym (ap (λ x. x.1) e))
            (final_state-Refunded state s),
      )

  -- The rows of the bookings at the end of a completed run.
  pub get-final_state :
      (state : RefundState) (s : State P) (i : ℕ)
      → (bookings.get i (final_state state s).db.booking_rows ≡ (
          if i == s.booking.id
          then some (refunded_booking P s)
          else bookings.get i s.db.booking_rows))
        × ((final_state state s).now ≡ s.now)
  get-final_state RefundState.refund_initiated s i = ground (
    arith,
    bookings.get-save i (refunded_booking P s)
        (after_release P (after_payment P s)).db.booking_rows,
    bookings.get-save i (set_refund_state RefundState.seats_released s.booking)
        (after_payment P s).db.booking_rows,
    bookings.get-save i (set_refund_state RefundState.payment_refunded s.booking) s.db.booking_rows,
  )
  get-final_state RefundState.payment_refunded s i = ground (
    arith,
    bookings.get-save i (refunded_booking P s) (after_release P s).db.booking_rows,
    bookings.get-save i (set_refund_state RefundState.seats_released s.booking) s.db.booking_rows,
  )
  get-final_state _ s i =
      ground (arith, bookings.get-save i (refunded_booking P s) s.db.booking_rows)
