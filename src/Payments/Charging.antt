-- ===== src/Payments/Charging.antt =====
-- `PaymentService` (apps/payment-service/src/payment/payment.service.ts).
pub mod Once
pub mod Outcomes
use distributed_nestjs_event.Base.{
  ℕ, head?, Bool, true, false, Option, none, some, List, [], ◌∷◌, ◌==◌, Error, Result, ok, err,
  payment_not_found, Action, pure, throw, query, write, call, gets, modify, try_catch, ◌>>=◌, ◌>>◌,
}
use distributed_nestjs_event.Payments.Types.{
  Platform, State, Payment, PaymentStatus, PaymentProvider, PaymentMessage, charge, emit_succeeded,
  emit_failed, FailureReason, thrown, PaymentGatewayResponse, InitiatePaymentDto,
}
use distributed_nestjs_event.Payments.Gateways.{StripeAnswer, get_by_provider, gateway_charge}

-- `where: { idempotencyKey }`
abbrev pub has_key : ℕ → Payment → Bool
has_key key p = p.idempotency_key == key

-- `where: { bookingId }`
abbrev pub of_booking : ℕ → Payment → Bool
of_booking booking p = p.booking_id == booking

-- `paymentRepo.create`, with the key of the insert
abbrev pub new_payment : ℕ → ℕ → InitiatePaymentDto → PaymentProvider → Payment
new_payment id now dto provider = record {
  id = id;
  booking_id = dto.booking_id;
  idempotency_key = dto.idempotency_key;
  amount = dto.amount;
  currency = dto.currency;
  payment_method = dto.payment_method;
  status = PaymentStatus.initiated;
  provider = provider;
  provider_tx_id = none;
  failure_reason = none;
  paid_at = none;
  created_at = now;
}

module _ (P : Platform) where
  open P use {payments, default_provider}

  abbrev pub from_result : {A : Type 0} → Result A → Action (State P) A
  from_result a s r = (a, s, r)

  -- `savedPayment.x = …`
  abbrev pub assign : (Payment → Payment) → Action (State P) (Unit {0})
  assign f = modify (λ s. record s { payment = f s.payment })

  -- `paymentRepo.save(savedPayment)`
  abbrev pub save_payment : Action (State P) (Unit {0})
  save_payment = write (λ s. record s { payment_rows = payments.save s.payment s.payment_rows })

  abbrev pub send : (State P → PaymentMessage) → Action (State P) (Unit {0})
  send m = modify (λ s. record s { sent = m s ∷ s.sent })

  -- `dto.provider ? getByProvider(dto.provider) : getDefault()`
  abbrev pub choose_gateway : Option PaymentProvider → Result PaymentProvider
  choose_gateway none = get_by_provider default_provider
  choose_gateway (some provider) = get_by_provider provider

  -- the two branches of `if (response.success)`
  unfoldable pub charge_replied : PaymentGatewayResponse → Action (State P) (Unit {0})
  charge_replied response = elim response.success [
    | true ↦ gets (λ s. s.now) >>= λ now.
        assign (λ p. record p {
          status = PaymentStatus.succeeded;
          provider_tx_id = response.provider_tx_id;
          paid_at = some now;
        })
        >> (save_payment >> send (λ s. emit_succeeded s.payment))
    | false ↦
        assign (λ p. record p {
          status = PaymentStatus.failed;
          failure_reason = response.failure_reason;
        })
        >> (save_payment
            >> send (λ s.
              emit_failed s.payment.id s.payment.booking_id response.failure_reason
                s.payment.provider))
  ]

  -- the `try` block of `initiatePayment`; the gateways catch every error of their own
  unfoldable pub charge_try : InitiatePaymentDto → (ℕ → StripeAnswer) → Action (State P) Payment
  charge_try dto answers =
      assign (λ p. record p { status = PaymentStatus.processing })
      >> (save_payment
          >> (send (λ s.
                charge s.payment.provider dto.amount dto.currency dto.card_token
                  dto.idempotency_key)
              >> (gets (λ s. gateway_charge s.payment.provider answers) >>= λ response.
                  charge_replied response >> gets (λ s. s.payment))))

  -- the `catch` block of `initiatePayment`
  unfoldable pub charge_threw : Error → Action (State P) Payment
  charge_threw error =
      assign (λ p. record p { status = PaymentStatus.failed; failure_reason = some (thrown error) })
      >> (save_payment
          >> (send (λ s.
                emit_failed s.payment.id s.payment.booking_id (some (thrown error))
                  s.payment.provider)
              >> throw error))

  -- what follows the search for a payment with the key
  unfoldable pub charge_new : InitiatePaymentDto → (ℕ → StripeAnswer) → Action (State P) Payment
  charge_new dto answers = from_result (choose_gateway dto.provider) >>= λ provider.
      gets (λ s. new_payment (payments.fresh s.payment_rows) s.now dto provider) >>= λ p.
      assign (λ x. p) >> (save_payment >> try_catch (charge_try dto answers) charge_threw)

  unfoldable pub initiate_payment :
      InitiatePaymentDto → (ℕ → StripeAnswer) → Action (State P) Payment
  initiate_payment dto answers =
      query (λ s. head? (payments.find (has_key dto.idempotency_key) s.payment_rows))
      >>= λ existing. elim existing [ some p ↦ pure p | none ↦ charge_new dto answers ]

  pub find_by_id : ℕ → Action (State P) Payment
  find_by_id id = query (λ s. payments.get id s.payment_rows) >>= λ found. elim found [
    | none ↦ throw payment_not_found
    | some p ↦ pure p
  ]

  pub find_by_booking_id : ℕ → Action (State P) (List Payment)
  find_by_booking_id booking = query (λ s. payments.find (of_booking booking) s.payment_rows)
