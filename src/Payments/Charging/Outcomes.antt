-- ===== src/Payments/Charging/Outcomes.antt =====
-- What a payment comes to.
use distributed_nestjs_event.Base.{
  ℕ, ◌≡◌, head?, true, none, some, [], ◌∷◌, arith, Bool-cases, inl, inr, ok, err, rejected_call,
  answered, rejected, next_reply, later_replies, if◌then◌else◌,
}
use distributed_nestjs_event.Payments.Types.{
  Platform, State, Payment, PaymentStatus, PaymentProvider, PaymentMessage, charge, emit_succeeded,
  emit_failed, thrown, PaymentGatewayResponse, InitiatePaymentDto,
}
use distributed_nestjs_event.Payments.Gateways.{StripeAnswer, gateway_charge}
use distributed_nestjs_event.Payments.Charging.{
  has_key, new_payment, choose_gateway, charge_replied, charge_try, charge_threw, charge_new,
  initiate_payment,
}

module _ (P : Platform) where
  open P use {payments}

  -- The payment as the answer of the gateway leaves it, and the message about it.
  abbrev pub settled : ℕ → PaymentGatewayResponse → Payment → Payment
  settled now response p =
      if response.success
      then record p {
        status = PaymentStatus.succeeded;
        provider_tx_id = response.provider_tx_id;
        paid_at = some now;
      }
      else record p { status = PaymentStatus.failed; failure_reason = response.failure_reason }

  abbrev pub notice : PaymentGatewayResponse → Payment → PaymentMessage
  notice response p =
      if response.success
      then emit_succeeded p
      else emit_failed p.id p.booking_id response.failure_reason p.provider

  abbrev pub charge_of : InitiatePaymentDto → PaymentProvider → PaymentMessage
  charge_of dto provider =
      charge provider dto.amount dto.currency dto.card_token dto.idempotency_key

  abbrev pub processing_payment : ℕ → ℕ → InitiatePaymentDto → PaymentProvider → Payment
  processing_payment id now dto provider = record (new_payment id now dto provider) {
    status = PaymentStatus.processing;
  }

  -- A payment under a new key, with every call of the database answering, is stored and returned as
  -- the gateway answers: succeeded with its transaction and the time, or failed with its reason. The
  -- card is charged first, and then the one message about the payment is emitted.
  pub initiate_payment-settled :
      (dto : InitiatePaymentDto) (answers : ℕ → StripeAnswer) (provider : PaymentProvider)
      (s : State P)
      → head? (payments.find (has_key dto.idempotency_key) s.payment_rows) ≡ none
      → choose_gateway P dto.provider ≡ ok provider
      → let (a, s', r') = initiate_payment P dto answers s [] in
        let i = payments.fresh s.payment_rows in
        let response = gateway_charge provider answers in
        let p = settled s.now response (processing_payment i s.now dto provider) in
        (a ≡ ok p)
        × (payments.get i s'.payment_rows ≡ some p)
        × (s'.sent ≡ notice response p ∷ charge_of dto provider ∷ s.sent)
  unfolding initiate_payment charge_new charge_try charge_replied next_reply later_replies
  initiate_payment-settled dto answers provider s h e =
      let i = payments.fresh s.payment_rows in
      let response = gateway_charge provider answers in
      let p0 = new_payment i s.now dto provider in
      let p1 = processing_payment i s.now dto provider in
      let p = settled s.now response p1 in
      let stored = payments.get-save i p (payments.save p1 (payments.save p0 s.payment_rows)) in
      elim (Bool-cases response.success) [
        | inl b ↦ ground (arith, h, e, b, stored)
        | inr b ↦ ground (arith, h, e, b, stored)
      ]

  -- A card that has been charged can be on record as a failed payment: where the gateway takes the
  -- money under a new key and the save of that fails, the payment is stored as failed, the caller
  -- gets the error, and the messages are the charge and the failure, with no refund.
  pub initiate_payment-charged :
      (dto : InitiatePaymentDto) (answers : ℕ → StripeAnswer) (provider : PaymentProvider)
      (s : State P)
      → head? (payments.find (has_key dto.idempotency_key) s.payment_rows) ≡ none
      → choose_gateway P dto.provider ≡ ok provider
      → (gateway_charge provider answers).success ≡ true
      → let (a, s', r') =
          initiate_payment P dto answers s (answered ∷ answered ∷ answered ∷ rejected ∷ []) in
        let i = payments.fresh s.payment_rows in
        (a ≡ err rejected_call)
        × (s'.payment.status ≡ PaymentStatus.failed)
        × (payments.get i s'.payment_rows ≡ some s'.payment)
        × (s'.sent
            ≡ emit_failed i dto.booking_id (some (thrown rejected_call)) provider
              ∷ charge_of dto provider
              ∷ s.sent)
  unfolding initiate_payment charge_new charge_try charge_replied charge_threw next_reply
      later_replies
  initiate_payment-charged dto answers provider s h e b =
      let i = payments.fresh s.payment_rows in
      let script = answered ∷ answered ∷ answered ∷ rejected ∷ [] in
      let p = (initiate_payment P dto answers s script).1.payment in
      let p0 = new_payment i s.now dto provider in
      let p1 = processing_payment i s.now dto provider in
      ground
        (arith, h, e, b, payments.get-save i p (payments.save p1 (payments.save p0 s.payment_rows)))
