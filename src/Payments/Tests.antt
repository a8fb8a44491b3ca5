-- ===== src/Payments/Tests.antt =====
-- Runs of the payment service and the theorems at them.
use distributed_nestjs_event.Base.{
  ℕ, ◌≡◌, ◌≤◌, refl, true, false, none, some, List, [], ◌∷◌, ok, err, answered, rejected,
  rejected_call, ◌==◌, if◌then◌else◌,
}
use distributed_nestjs_event.External.Memory.{memory_repository}
use distributed_nestjs_event.Payments.Types.{
  Platform, State, Payment, PaymentStatus, Refund, RefundStatus, credit_card, stripe, payment_key,
  refund_key, InitiatePaymentDto, emit_failed, thrown,
}
use distributed_nestjs_event.Payments.Gateways.{
  StripeAnswer, stripe_succeeded, connection_error, Attempt, returned, threw, first_response,
  with_retry, with_retry-once, retry_loop, retry_round, gateway_charge, gateway_refund,
  get_by_provider, do_charge, do_refund,
}
use distributed_nestjs_event.Payments.Charging.{initiate_payment}
use distributed_nestjs_event.Payments.Charging.Once.{Retry, run_all, charges, charges-run_all}
use distributed_nestjs_event.Payments.Charging.Outcomes.{
  settled, notice, charge_of, processing_payment, initiate_payment-settled,
  initiate_payment-charged,
}
use distributed_nestjs_event.Payments.Refunding.{refund_succeeds}
use distributed_nestjs_event.Payments.Refunding.Once.{
  RefundRetry, refund_all, paybacks, paybacks-refund_all,
}
use distributed_nestjs_event.Payments.Refunding.Again.{refund_succeeds-again}

abbrev platform : Platform
platform = record {
  payments = memory_repository payment_key;
  refunds = memory_repository refund_key;
  default_provider = stripe;
}

-- A payment of booking 4.
abbrev paid : Payment
paid = record {
  id = 0;
  booking_id = 4;
  idempotency_key = 55;
  amount = 25000;
  currency = 1;
  payment_method = credit_card;
  status = PaymentStatus.succeeded;
  provider = stripe;
  provider_tx_id = some 77;
  failure_reason = none;
  paid_at = some 100;
  created_at = 90;
}

abbrev some_refund : Refund
some_refund = record {
  id = 0;
  payment_id = 0;
  idempotency_key = 44;
  amount = 25000;
  reason = none;
  status = RefundStatus.pending;
  provider_refund_id = none;
  failure_reason = none;
  created_at = 90;
}

abbrev start : State platform
start = record {
  now = 5000;
  payment_rows = record { bound = 1; cell = λ i. if i == 0 then some paid else none };
  refund_rows = record { bound = 0; cell = λ i. none };
  sent = [];
  payment = paid;
  pending_refund = some_refund;
}

abbrev request : InitiatePaymentDto
request = record {
  booking_id = 6;
  idempotency_key = 56;
  amount = 12500;
  currency = 1;
  payment_method = credit_card;
  card_token = 9;
  provider = none;
}

abbrev taken : ℕ → StripeAnswer
taken k = stripe_succeeded 78

-- The second attempt would succeed.
abbrev flaky : ℕ → Attempt
flaky k =
    if k == 1
    then threw (record { error_type = connection_error; status_code = none; text = 3 })
    else returned (do_charge (stripe_succeeded 78))

with_retry-once_example : with_retry flaky ≡ (first_response (flaky 1), 1)
with_retry-once_example = with_retry-once flaky

abbrev retries : List Retry
retries =
    record {
      at = 6000;
      dto = request;
      answers = taken;
      script = answered ∷ answered ∷ answered ∷ rejected ∷ [];
    }
    ∷ record { at = 7000; dto = request; answers = taken; script = [] }
    ∷ []

charges-run_all_example : charges (run_all platform 56 retries start).sent ≤ 1
charges-run_all_example = charges-run_all platform 56 retries start

initiate_payment-settled_example :
    let (a, s', r') = initiate_payment platform request taken start [] in
    let response = gateway_charge stripe taken in
    let p = settled platform 5000 response (processing_payment platform 1 5000 request stripe) in
    (a ≡ ok p)
    × (platform.payments.get 1 s'.payment_rows ≡ some p)
    × (s'.sent ≡ notice platform response p ∷ charge_of platform request stripe ∷ [])
unfolding get_by_provider
initiate_payment-settled_example =
    initiate_payment-settled platform request taken stripe start refl refl

initiate_payment-charged_example :
    let (a, s', r') =
      initiate_payment platform request taken start
        (answered ∷ answered ∷ answered ∷ rejected ∷ []) in
    (a ≡ err rejected_call)
    × (s'.payment.status ≡ PaymentStatus.failed)
    × (platform.payments.get 1 s'.payment_rows ≡ some s'.payment)
    × (s'.sent
        ≡ emit_failed 1 6 (some (thrown rejected_call)) stripe
          ∷ charge_of platform request stripe
          ∷ [])
unfolding get_by_provider gateway_charge with_retry retry_loop retry_round do_charge
initiate_payment-charged_example =
    initiate_payment-charged platform request taken stripe start refl refl refl

abbrev refund_retries : List RefundRetry
refund_retries =
    record {
      at = 6000;
      booking = 4;
      reason = none;
      answers = taken;
      script = answered ∷ answered ∷ answered ∷ rejected ∷ [];
    }
    ∷ record { at = 7000; booking = 4; reason = none; answers = taken; script = [] }
    ∷ []

paybacks-refund_all_example : paybacks (refund_all platform 44 refund_retries start).sent ≤ 1
paybacks-refund_all_example = paybacks-refund_all platform 44 refund_retries start

refund_succeeds-again_example :
    let (a, s1, r1) = refund_succeeds platform 4 44 none taken start [] in
    let (a', s2, r2) = refund_succeeds platform 4 44 none taken s1 [] in
    (a ≡ ok true) × (a' ≡ ok false) × (s2 ≡ s1)
unfolding get_by_provider gateway_refund with_retry retry_loop retry_round do_refund
refund_succeeds-again_example =
    refund_succeeds-again platform 4 44 none taken paid stripe start [] refl refl refl refl
