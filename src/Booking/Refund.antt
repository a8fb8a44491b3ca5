-- ===== src/Booking/Refund.antt =====
-- The refund of a booking: `cancelBooking` and `processRefundStateMachine`
-- (apps/booking-service/src/booking/booking-orchestrator.service.ts). The machine changes the
-- entity `booking` in memory and saves it after each step.
pub mod Diagram
pub mod Steps
pub mod Rounds
pub mod Completion
pub mod Failures
pub mod Cancelling
use distributed_nestjs_event.Base.{
  err, ℕ, zero, suc, ◌+◌, Bool, true, false, Option, none, some, List, [], ◌∷◌, map, Error, reason,
  refund_failed, refund_failed_null, invalid_refund_state, booking_not_found, not_allowed,
  not_confirmed, transaction_not_started, Action, pure, throw, throw_if, query, write, call, rpc,
  gets, modify, try_catch, finally, is_none, not, ◌==◌, ◌>>=◌, ◌>>◌, if◌then◌else◌,
}
use mathlib.Core.Option
use distributed_nestjs_event.External.Repository.{insert_all}
use distributed_nestjs_event.Booking.Types.{
  Platform, State, Tables, Booking, BookingItem, BookingStatus, RefundState, OutboxStatus,
  CancellationReason, given, user_cancellation, Outbox, OutboxEvent, booking_refunded, Message,
  refund_payment, release_sold_seats,
}
use distributed_nestjs_event.Booking.Tickets.{cancel_by_booking}

abbrev pub outbox_with_id : ℕ → Outbox → Outbox
outbox_with_id i o = record o { id = i }

-- `outboxRepo.create({ …, status: PENDING })`, with the defaults of the columns
abbrev pub new_outbox : ℕ → OutboxEvent → ℕ → Outbox
new_outbox aggregate event now = record {
  id = 0;
  aggregate_id = aggregate;
  event = event;
  status = OutboxStatus.pending;
  retry_count = 0;
  max_retries = 5;
  last_error = none;
  processed_at = none;
  created_at = now;
}

-- `booking.cancellationReason || 'User cancellation'`, and `reason || 'User cancellation'`
abbrev pub reason_or_default : Option CancellationReason → CancellationReason
reason_or_default none = user_cancellation
reason_or_default (some r) = r

abbrev pub last_failure : Option Error → Error
last_failure none = refund_failed_null
last_failure (some e) = refund_failed e

abbrev pub is_confirmed : BookingStatus → Bool
is_confirmed BookingStatus.pending = false
is_confirmed BookingStatus.confirmed = true
is_confirmed BookingStatus.cancelled = false
is_confirmed BookingStatus.refunded = false

abbrev pub set_refund_state : RefundState → Booking → Booking
set_refund_state state b = record b { refund_state = some state }

module _ (P : Platform) where
  open P use {bookings, outbox}

  -- `booking.x = …`
  abbrev pub assign : (Booking → Booking) → Action (State P) (Unit {0})
  assign f = modify (λ s. record s { booking = f s.booking })

  -- `bookingRepo.save(booking)`
  abbrev pub save_booking : Action (State P) (Unit {0})
  save_booking = write (λ s. record s {
    db = record (s.db) { booking_rows = bookings.save s.booking s.db.booking_rows };
  })

  -- A request to another service is counted as sent whether or not its reply arrives.
  abbrev pub send : (State P → Message) → Action (State P) (Unit {0})
  send m = modify (λ s. record s { sent = m s ∷ s.sent })

  -- `case RefundState.REFUND_INITIATED`, once the reply is there: `none` is a success
  abbrev pub payment_replied : Option ℕ → Action (State P) Bool
  payment_replied (some n) =
      assign (λ b. record b {
        refund_state = some RefundState.failed;
        refund_last_error = some (reason n);
      })
      >> (save_booking >> throw (refund_failed (reason n)))
  payment_replied none =
      assign (set_refund_state RefundState.payment_refunded) >> (save_booking >> pure false)

  unfoldable pub step_initiated : Action (State P) Bool
  step_initiated =
      send (λ s.
        refund_payment s.booking.id s.booking.refund_idempotency_key
          (reason_or_default s.booking.cancellation_reason))
      >> (rpc >>= payment_replied)

  -- `case RefundState.PAYMENT_REFUNDED`: the flag `success` of the reply is not read
  unfoldable pub step_payment_refunded : Action (State P) Bool
  step_payment_refunded =
      send (λ s. release_sold_seats s.booking.event_id (map (λ i. i.seat_id) s.booking.items))
      >> (rpc >>= λ reply.
          assign (set_refund_state RefundState.seats_released) >> (save_booking >> pure false))

  -- the query runner of the service
  abbrev pub begin : Action (State P) (Unit {0})
  begin = call >> (call >> modify (λ s. record s { tx = some s.db }))

  abbrev pub staged : State P → Tables P
  staged s = elim s.tx [ none ↦ s.db | some d ↦ d ]

  abbrev pub tx_save_booking : Action (State P) (Unit {0})
  tx_save_booking = write (λ s. record s {
    tx =
        Option.map
          (λ (d : Tables P). record d { booking_rows = bookings.save s.booking d.booking_rows })
          s.tx;
  })

  abbrev pub tx_insert_outbox : (State P → Outbox) → Action (State P) (Unit {0})
  tx_insert_outbox o = write (λ s. record s {
    tx =
        Option.map
          (λ (d : Tables P). record d {
            outbox_rows = (insert_all outbox outbox_with_id (o s ∷ []) d.outbox_rows).1;
          })
          s.tx;
  })

  abbrev pub commit : Action (State P) (Unit {0})
  commit = write (λ s. record s { db = staged s; tx = none })

  abbrev pub end_rollback : Bool → Action (State P) (Unit {0})
  end_rollback open_none s r =
      if open_none
      then (err transaction_not_started, s, r)
      else write (λ x. record x { tx = none }) s r

  abbrev pub rollback : Action (State P) (Unit {0})
  rollback = gets (λ s. is_none s.tx) >>= end_rollback

  abbrev pub release : State P → State P
  release s = record s { tx = none }

  -- the inner `try` block of `case RefundState.SEATS_RELEASED`
  unfoldable pub complete_refund : Action (State P) (Unit {0})
  complete_refund = gets (λ s. s.booking.id) >>= λ id.
      cancel_by_booking P id
      >> (gets (λ s. s.now) >>= λ now.
          assign (λ b. record b {
            status = BookingStatus.refunded;
            cancelled_at = some now;
            refund_state = some RefundState.completed;
          })
          >> (tx_save_booking
              >> (tx_insert_outbox (λ s. new_outbox s.booking.id (booking_refunded s.booking) s.now)
                  >> commit)))

  -- `case RefundState.SEATS_RELEASED`
  unfoldable pub step_seats_released : Action (State P) Bool
  step_seats_released =
      begin
      >> (finally (try_catch complete_refund (λ error. rollback >> throw error)) release
          >> pure true)

  -- The `switch`: `true` is a `return booking`, and `false` a `break`.
  abbrev pub dispatch : Option RefundState → Action (State P) Bool
  dispatch (some RefundState.refund_initiated) = step_initiated
  dispatch (some RefundState.payment_refunded) = step_payment_refunded
  dispatch (some RefundState.seats_released) = step_seats_released
  dispatch (some RefundState.completed) = pure true
  dispatch (some RefundState.failed) =
      gets (λ s. s.booking.refund_last_error) >>= λ e. throw (last_failure e)
  dispatch none = throw invalid_refund_state

  -- the `catch` of the loop's body
  unfoldable pub record_failure : Error → Action (State P) Bool
  record_failure error =
      assign (λ b. record b {
        refund_retry_count = b.refund_retry_count + 1;
        refund_last_error = some error;
      })
      >> (save_booking >> throw error)

  unfoldable pub refund_step : Action (State P) Bool
  refund_step = try_catch (gets (λ s. s.booking.refund_state) >>= dispatch) record_failure

  -- The loop, on the rounds that are left.
  unfoldable pub refund_loop : ℕ → Action (State P) (Unit {0})
  refund_loop zero = pure tt
  refund_loop (suc n) = refund_step >>= λ done. elim done [ true ↦ pure tt | false ↦ refund_loop n ]

  abbrev pub max_steps : ℕ
  max_steps = 5

  -- `processRefundStateMachine` of the entity in memory
  unfoldable pub process_refund : Action (State P) (Unit {0})
  process_refund = refund_loop max_steps

  -- `if (!booking.refundState) { … }`
  abbrev pub initiate : ℕ → Option ℕ → Option RefundState → Action (State P) (Unit {0})
  initiate key text (some state) = pure tt
  initiate key text none =
      assign (λ b. record b {
        refund_state = some RefundState.refund_initiated;
        refund_idempotency_key = some key;
        cancellation_reason = some (reason_or_default (Option.map given text));
      })
      >> save_booking

  -- `cancelBooking`; the booking that is found becomes the entity in memory
  abbrev pub cancel_found : ℕ → ℕ → Option ℕ → Booking → Action (State P) (Unit {0})
  cancel_found user key text b =
      throw_if (not (b.user_id == user)) not_allowed
      >> (throw_if (not (is_confirmed b.status)) not_confirmed
          >> (assign (λ x. b) >> (initiate key text b.refund_state >> process_refund)))

  unfoldable pub cancel_booking : ℕ → ℕ → ℕ → Option ℕ → Action (State P) (Unit {0})
  cancel_booking id user key text = query (λ s. bookings.get id s.db.booking_rows) >>= λ found.
      elim found [ none ↦ throw booking_not_found | some b ↦ cancel_found user key text b ]
