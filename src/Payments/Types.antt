-- ===== src/Payments/Types.antt =====
-- The entities and enums of the payment service, the messages that it sends, and the state of one
-- of its requests.
use distributed_nestjs_event.Base.{ℕ, Option, Bool, List, Error}
use distributed_nestjs_event.External.Repository.{Repository}

pub data PaymentStatus : Type 0 where
  initiated processing succeeded failed refunded : PaymentStatus

pub data RefundStatus : Type 0 where
  pending processed failed : RefundStatus

pub data PaymentMethod : Type 0 where
  credit_card debit_card wallet bank_transfer : PaymentMethod

pub data PaymentProvider : Type 0 where
  stripe iyzico mock : PaymentProvider

-- A text of a gateway, the texts of the source, and the message of an error.
pub data FailureReason : Type 0 where
  message : ℕ → FailureReason
  payment_status : ℕ → FailureReason
  charge_not_implemented refund_not_implemented : FailureReason
  after_retries attempts_used_up : FailureReason
  thrown : Error → FailureReason

pub record PaymentGatewayResponse : Type 0 where
  pub success : Bool
  pub provider_tx_id : Option ℕ
  pub failure_reason : Option FailureReason

-- Amounts are in cents, times in milliseconds, and texts that are only copied are numbers.
pub record Payment : Type 0 where
  pub id : ℕ
  pub booking_id : ℕ
  pub idempotency_key : ℕ
  pub amount : ℕ
  pub currency : ℕ
  pub payment_method : PaymentMethod
  pub status : PaymentStatus
  pub provider : PaymentProvider
  pub provider_tx_id : Option ℕ
  pub failure_reason : Option FailureReason
  pub paid_at : Option ℕ
  pub created_at : ℕ

pub record Refund : Type 0 where
  pub id : ℕ
  pub payment_id : ℕ
  pub idempotency_key : ℕ
  pub amount : ℕ
  pub reason : Option ℕ
  pub status : RefundStatus
  pub provider_refund_id : Option ℕ
  pub failure_reason : Option FailureReason
  pub created_at : ℕ

pub record InitiatePaymentDto : Type 0 where
  pub booking_id : ℕ
  pub idempotency_key : ℕ
  pub amount : ℕ
  pub currency : ℕ
  pub payment_method : PaymentMethod
  pub card_token : ℕ
  pub provider : Option PaymentProvider

abbrev pub payment_key : Payment → ℕ
payment_key p = p.id

abbrev pub refund_key : Refund → ℕ
refund_key r = r.id

-- The requests to a gateway, and the Kafka messages.
pub data PaymentMessage : Type 0 where
  charge : PaymentProvider → ℕ → ℕ → ℕ → ℕ → PaymentMessage
  refund : PaymentProvider → Option ℕ → ℕ → PaymentMessage
  emit_succeeded : Payment → PaymentMessage
  emit_failed : ℕ → ℕ → Option FailureReason → PaymentProvider → PaymentMessage
  emit_refunded : Refund → Payment → PaymentMessage

-- The tables of the service, and the provider that is configured.
pub record Platform : Type 1 where
  pub payments : Repository Payment payment_key
  pub refunds : Repository Refund refund_key
  pub default_provider : PaymentProvider

module _ (P : Platform) where
  open P use {payments, refunds}

  -- `payment` and `pending_refund` are the entities that a request holds in memory and changes, and
  -- `sent` the requests and messages that it has sent, the last one first.
  pub record State : Type 0 where
    pub now : ℕ
    pub payment_rows : payments.Table
    pub refund_rows : refunds.Table
    pub sent : List PaymentMessage
    pub payment : Payment
    pub pending_refund : Refund
