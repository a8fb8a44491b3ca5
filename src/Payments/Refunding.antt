-- ===== src/Payments/Refunding.antt =====
-- `RefundService` (apps/payment-service/src/payment/refund.service.ts), and the handler of its gRPC
-- method (payment.grpc-controller.ts).
pub mod Once
pub mod Again
use distributed_nestjs_event.Base.{
  ℕ, head?, Bool, true, false, Option, none, some, List, [], ◌∷◌, ◌==◌, ◌&&◌, Error, Result, ok,
  err, is_err, no_succeeded_payment, Action, pure, throw, query, write, call, gets, modify,
  try_catch, ◌>>=◌, ◌>>◌,
}
use distributed_nestjs_event.Payments.Types.{
  Platform, State, Payment, PaymentStatus, PaymentProvider, PaymentMessage, refund, emit_refunded,
  Refund, RefundStatus, FailureReason, thrown, PaymentGatewayResponse,
}
use distributed_nestjs_event.Payments.Gateways.{StripeAnswer, get_by_provider, gateway_refund}

abbrev pub is_succeeded : PaymentStatus → Bool
is_succeeded PaymentStatus.initiated = false
is_succeeded PaymentStatus.processing = false
is_succeeded PaymentStatus.succeeded = true
is_succeeded PaymentStatus.failed = false
is_succeeded PaymentStatus.refunded = false

-- `where: { bookingId, status: PaymentStatus.SUCCEEDED }`
abbrev pub succeeded_of : ℕ → Payment → Bool
succeeded_of booking p = p.booking_id == booking && is_succeeded p.status

-- `where: { idempotencyKey }`
abbrev pub has_refund_key : ℕ → Refund → Bool
has_refund_key key r = r.idempotency_key == key

-- `refundRepo.create`, with the key of the insert
abbrev pub new_refund : ℕ → ℕ → ℕ → Option ℕ → Payment → Refund
new_refund id now key reason p = record {
  id = id;
  payment_id = p.id;
  idempotency_key = key;
  amount = p.amount;
  reason = reason;
  status = RefundStatus.pending;
  provider_refund_id = none;
  failure_reason = none;
  created_at = now;
}

module _ (P : Platform) where
  open P use {payments, refunds}

  abbrev pub from_result : {A : Type 0} → Result A → Action (State P) A
  from_result a s r = (a, s, r)

  -- `savedRefund.x = …`, and the saves of the two entities
  abbrev pub assign_refund : (Refund → Refund) → Action (State P) (Unit {0})
  assign_refund f = modify (λ s. record s { pending_refund = f s.pending_refund })

  abbrev pub save_refund : Action (State P) (Unit {0})
  save_refund = write (λ s. record s { refund_rows = refunds.save s.pending_refund s.refund_rows })

  abbrev pub save_refunded : Action (State P) (Unit {0})
  save_refunded =
      modify (λ s. record s { payment = record (s.payment) { status = PaymentStatus.refunded } })
      >> write (λ s. record s { payment_rows = payments.save s.payment s.payment_rows })

  abbrev pub send : (State P → PaymentMessage) → Action (State P) (Unit {0})
  send m = modify (λ s. record s { sent = m s ∷ s.sent })

  -- the two branches of `if (refundResult.success)`
  unfoldable pub refund_replied : PaymentGatewayResponse → Action (State P) (Unit {0})
  refund_replied response = elim response.success [
    | true ↦
        assign_refund (λ r. record r {
          status = RefundStatus.processed;
          provider_refund_id = response.provider_tx_id;
        })
        >> (save_refund >> (save_refunded >> send (λ s. emit_refunded s.pending_refund s.payment)))
    | false ↦
        assign_refund
          (λ r. record r { status = RefundStatus.failed; failure_reason = response.failure_reason })
        >> save_refund
  ]

  -- the `try` block of `refundByBooking`
  unfoldable pub refund_try : (ℕ → StripeAnswer) → Action (State P) Refund
  refund_try answers = gets (λ s. get_by_provider s.payment.provider) >>= λ chosen.
      from_result chosen >>= λ provider.
      send (λ s. refund provider s.payment.provider_tx_id s.payment.amount)
      >> (refund_replied (gateway_refund provider answers) >> gets (λ s. s.pending_refund))

  -- the `catch` block of `refundByBooking`
  unfoldable pub refund_threw : Error → Action (State P) Refund
  refund_threw error =
      assign_refund
        (λ r. record r { status = RefundStatus.failed; failure_reason = some (thrown error) })
      >> (save_refund >> throw error)

  -- what follows the search for a refund with the key
  unfoldable pub refund_new : ℕ → Option ℕ → (ℕ → StripeAnswer) → Action (State P) Refund
  refund_new key reason answers =
      gets (λ s. new_refund (refunds.fresh s.refund_rows) s.now key reason s.payment) >>= λ x.
      assign_refund (λ _. x) >> (save_refund >> try_catch (refund_try answers) refund_threw)

  -- what follows the search for the payment
  unfoldable pub refund_payment_of :
      ℕ → Option ℕ → (ℕ → StripeAnswer) → Payment → Action (State P) Refund
  refund_payment_of key reason answers p =
      modify (λ s. record s { payment = p })
      >> (query (λ s. head? (refunds.find (has_refund_key key) s.refund_rows)) >>= λ existing.
          elim existing [ some x ↦ pure x | none ↦ refund_new key reason answers ])

  unfoldable pub refund_by_booking : ℕ → ℕ → Option ℕ → (ℕ → StripeAnswer) → Action (State P) Refund
  refund_by_booking booking key reason answers =
      query (λ s. head? (payments.find (succeeded_of booking) s.payment_rows)) >>= λ found.
      elim found [
        | none ↦ throw no_succeeded_payment
        | some p ↦ refund_payment_of key reason answers p
      ]

  abbrev pub is_processed : RefundStatus → Bool
  is_processed RefundStatus.pending = false
  is_processed RefundStatus.processed = true
  is_processed RefundStatus.failed = false

  abbrev pub success_of : Result Refund → Bool
  success_of (ok x) = is_processed x.status
  success_of (err e) = false

  -- the flag `success` that the gRPC method `RefundPayment` answers with
  unfoldable pub refund_succeeds : ℕ → ℕ → Option ℕ → (ℕ → StripeAnswer) → Action (State P) Bool
  refund_succeeds booking key reason answers s r =
      let (a, s', r') = refund_by_booking booking key reason answers s r in
      (ok (success_of a), s', r')
