-- ===== src/Payments/Gateways.antt =====
-- The gateways (apps/payment-service/src/payment/gateways): `StripeGateway` with its retries,
-- `IyzicoGateway`, and the choice between them. What the Stripe library answers is an argument.
use distributed_nestjs_event.Base.{
  ◌⊎◌, inl, inr, not, ℕ, zero, suc, ◌+◌, ◌≡◌, refl, arith, Bool, true, false, Option, none, some,
  ◌==◌, ◌&&◌, ◌||◌, leb, ltb, if◌then◌else◌, Result, ok, err, provider_not_supported,
}
use distributed_nestjs_event.Payments.Types.{
  PaymentProvider, stripe, iyzico, mock, FailureReason, message, payment_status,
  charge_not_implemented, refund_not_implemented, attempts_used_up, after_retries,
  PaymentGatewayResponse,
}

-- `error.type`, or else the name of the error's constructor
pub data ErrorType : Type 0 where
  connection_error api_error rate_limit_error card_error : ErrorType
  other : ℕ → ErrorType

-- An error of the library or of another origin; the empty text is 0.
pub record StripeError : Type 0 where
  pub error_type : ErrorType
  pub status_code : Option ℕ
  pub text : ℕ

-- What becomes of a call of the Stripe library: an object with its status and its id, or an error.
pub data StripeAnswer : Type 0 where
  stripe_succeeded : ℕ → StripeAnswer
  stripe_status : ℕ → ℕ → StripeAnswer
  stripe_threw : StripeError → StripeAnswer

abbrev pub failure : FailureReason → PaymentGatewayResponse
failure reason = record { success = false; provider_tx_id = none; failure_reason = some reason }

-- `MAX_RETRIES`
abbrev pub max_retries : ℕ
max_retries = 3

-- `RETRYABLE_ERROR_TYPES.includes(errorType)`
abbrev pub is_retryable_type : ErrorType → Bool
is_retryable_type connection_error = true
is_retryable_type api_error = true
is_retryable_type rate_limit_error = true
is_retryable_type card_error = false
is_retryable_type (other n) = false

abbrev pub is_server_error : Option ℕ → Bool
is_server_error none = false
is_server_error (some code) = leb 500 code && ltb code 600

unfoldable pub is_retryable : StripeError → Bool
is_retryable e = is_retryable_type e.error_type || is_server_error e.status_code

-- `doCharge`: it catches every error
unfoldable pub do_charge : StripeAnswer → PaymentGatewayResponse
do_charge (stripe_succeeded id) = record {
  success = true;
  provider_tx_id = some id;
  failure_reason = none;
}
do_charge (stripe_status status id) = failure (payment_status status)
do_charge (stripe_threw e) = failure (message e.text)

-- `doRefund`: a refund that has another status has its id in the answer, and no reason
unfoldable pub do_refund : StripeAnswer → PaymentGatewayResponse
do_refund (stripe_succeeded id) = record {
  success = true;
  provider_tx_id = some id;
  failure_reason = none;
}
do_refund (stripe_status status id) = record {
  success = false;
  provider_tx_id = some id;
  failure_reason = none;
}
do_refund (stripe_threw e) = failure (message e.text)

-- What a call of the function under `withRetry` does.
pub data Attempt : Type 0 where
  returned : PaymentGatewayResponse → Attempt
  threw : StripeError → Attempt

-- How a round of the loop of `withRetry` ends.
pub data RoundEnd : Type 0 where
  returns : PaymentGatewayResponse → RoundEnd
  breaks continues : RoundEnd

-- `lastError?.message || 'Payment failed after retries'`
abbrev pub message_or_failed : ℕ → FailureReason
message_or_failed text = if text == 0 then after_retries else message text

-- The body of the loop. What follows the `try` statement returns, so no round continues.
unfoldable pub retry_round : ℕ → Attempt → RoundEnd
retry_round attempt (returned response) = returns response
retry_round attempt (threw e) =
    if not (is_retryable e)
    then returns (failure (message e.text))
    else (if attempt == max_retries then breaks else returns (failure (message_or_failed e.text)))

-- The loop from an attempt on, with the attempts left; the number is that of the calls made.
unfoldable pub retry_loop : (ℕ → Attempt) → ℕ → ℕ → PaymentGatewayResponse × ℕ
retry_loop fn attempt zero = (failure attempts_used_up, 0)
retry_loop fn attempt (suc left) =
    let (response, calls) = retry_loop fn (attempt + 1) left in
    elim (retry_round attempt (fn attempt)) [
      | returns r ↦ (r, 1)
      | breaks ↦ (failure attempts_used_up, 1)
      | continues ↦ (response, calls + 1)
    ]

unfoldable pub with_retry : (ℕ → Attempt) → PaymentGatewayResponse × ℕ
with_retry fn = retry_loop fn 1 max_retries

-- `getByProvider`
unfoldable pub get_by_provider : PaymentProvider → Result PaymentProvider
get_by_provider stripe = ok stripe
get_by_provider iyzico = ok iyzico
get_by_provider mock = err provider_not_supported

-- `gateway.charge` and `gateway.refund`, by the answers of the Stripe library to the attempts
unfoldable pub gateway_charge : PaymentProvider → (ℕ → StripeAnswer) → PaymentGatewayResponse
gateway_charge stripe answers = (with_retry (λ k. returned (do_charge (answers k)))).0
gateway_charge iyzico answers = failure charge_not_implemented
gateway_charge mock answers = failure charge_not_implemented

unfoldable pub gateway_refund : PaymentProvider → (ℕ → StripeAnswer) → PaymentGatewayResponse
gateway_refund stripe answers = (with_retry (λ k. returned (do_refund (answers k)))).0
gateway_refund iyzico answers = failure refund_not_implemented
gateway_refund mock answers = failure refund_not_implemented

-- What the first attempt comes to.
abbrev pub first_response : Attempt → PaymentGatewayResponse
first_response (returned response) = response
first_response (threw e) =
    failure (if is_retryable e then message_or_failed e.text else message e.text)

Attempt-cases :
    (x : Attempt)
    → ((r : PaymentGatewayResponse) × (x ≡ returned r)) ⊎ ((e : StripeError) × (x ≡ threw e))
Attempt-cases (returned r) = inl (r, refl)
Attempt-cases (threw e) = inr (e, refl)

-- The retries of the gateway never happen: whatever the function does at its attempts, it is called
-- once, and the answer is that of its first attempt, an error that may be retried included.
pub with_retry-once : (fn : ℕ → Attempt) → with_retry fn ≡ (first_response (fn 1), 1)
unfolding with_retry retry_loop retry_round
with_retry-once fn = elim (Attempt-cases (fn 1)) [
  | inl (x, e) ↦ ground (arith, e)
  | inr (x, e) ↦ ground (arith, e)
]
