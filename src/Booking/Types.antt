-- ===== src/Booking/Types.antt =====
-- The entities of the booking service (apps/booking-service/src/booking and .../ticket), the
-- messages that it sends, and the state of one of its requests.
use distributed_nestjs_event.Base.{ℕ, Option, Bool, List, Error}
use distributed_nestjs_event.External.Repository.{Repository}

pub data BookingStatus : Type 0 where
  pending confirmed cancelled refunded : BookingStatus

pub data RefundState : Type 0 where
  refund_initiated payment_refunded seats_released completed failed : RefundState

pub data OutboxStatus : Type 0 where
  pending processing completed failed : OutboxStatus

pub data TicketStatus : Type 0 where
  active used cancelled transferred : TicketStatus

-- A text of the caller, and the texts of the source.
pub data CancellationReason : Type 0 where
  given : ℕ → CancellationReason
  user_cancellation : CancellationReason
  payment_failure : CancellationReason
  payment_error : Error → CancellationReason

-- Prices are in cents, times in milliseconds, and texts that are only copied are numbers.
pub record BookingItem : Type 0 where
  pub id : ℕ
  pub seat_inventory_id : ℕ
  pub seat_id : ℕ
  pub ticket_type_id : ℕ
  pub ticket_type_name : ℕ
  pub section_name : ℕ
  pub row : ℕ
  pub seat_number : ℕ
  pub unit_price : ℕ
  pub attendee_name : Option ℕ
  pub attendee_email : Option ℕ

-- The items stand in the row, as the relation `items` loads them.
pub record Booking : Type 0 where
  pub id : ℕ
  pub booking_number : ℕ
  pub user_id : ℕ
  pub event_id : ℕ
  pub status : BookingStatus
  pub total_amount : ℕ
  pub currency : ℕ
  pub expires_at : ℕ
  pub confirmed_at : Option ℕ
  pub cancelled_at : Option ℕ
  pub cancellation_reason : Option CancellationReason
  pub items : List BookingItem
  pub refund_state : Option RefundState
  pub refund_idempotency_key : Option ℕ
  pub refund_retry_count : ℕ
  pub refund_last_error : Option Error

-- `eventType` with its payload.
pub data OutboxEvent : Type 0 where
  seats_mark_sold : ℕ → ℕ → List ℕ → OutboxEvent
  booking_confirmed : Booking → OutboxEvent
  booking_refunded : Booking → OutboxEvent
  unknown : ℕ → OutboxEvent

pub record Outbox : Type 0 where
  pub id : ℕ
  pub aggregate_id : ℕ
  pub event : OutboxEvent
  pub status : OutboxStatus
  pub retry_count : ℕ
  pub max_retries : ℕ
  pub last_error : Option Error
  pub processed_at : Option ℕ
  pub created_at : ℕ

pub record Ticket : Type 0 where
  pub id : ℕ
  pub booking_id : ℕ
  pub booking_item_id : ℕ
  pub ticket_code : ℕ
  pub qr_code_data : ℕ
  pub status : TicketStatus
  pub seat_id : ℕ
  pub section_name : ℕ
  pub row : ℕ
  pub seat_number : ℕ
  pub attendee_name : Option ℕ
  pub attendee_email : Option ℕ
  pub checked_in_at : Option ℕ

abbrev pub booking_key : Booking → ℕ
booking_key b = b.id

abbrev pub outbox_key : Outbox → ℕ
outbox_key o = o.id

abbrev pub ticket_key : Ticket → ℕ
ticket_key t = t.id

-- The gRPC requests that ask another service for a change, and the Kafka messages.
pub data Message : Type 0 where
  refund_payment : ℕ → Option ℕ → CancellationReason → Message
  release_sold_seats : ℕ → List ℕ → Message
  initiate_payment : ℕ → ℕ → ℕ → Message
  release_seats : ℕ → List ℕ → ℕ → Message
  emit_cancelled : ℕ → Booking → Message
  mark_seats_as_sold : ℕ → List ℕ → ℕ → Message
  emit_confirmed : ℕ → OutboxEvent → Message
  emit_refunded : ℕ → OutboxEvent → Message

-- The stores behind the service, the random codes, numbers and ids that it draws, and the library
-- that draws QR codes.
pub record Platform : Type 1 where
  pub bookings : Repository Booking booking_key
  pub outbox : Repository Outbox outbox_key
  pub tickets : Repository Ticket ticket_key
  pub random_code : ℕ → ℕ
  pub booking_number : ℕ → ℕ
  pub new_item_id : ℕ → ℕ → ℕ
  pub qr_code : ℕ → ℕ → BookingItem → ℕ

module _ (P : Platform) where
  open P use {bookings, outbox, tickets}

  -- The rows that a query runner of the service writes.
  pub record Tables : Type 0 where
    pub booking_rows : bookings.Table
    pub outbox_rows : outbox.Table

  -- `booking` and `entry` are the entities that a request holds in memory and changes, and
  -- `sent` the requests and messages that it has sent, the last one first. `is_processing` is the
  -- flag of the recovery worker.
  pub record State : Type 0 where
    pub now : ℕ
    pub db : Tables
    pub tx : Option Tables
    pub ticket_rows : tickets.Table
    pub codes_drawn : ℕ
    pub sent : List Message
    pub booking : Booking
    pub entry : Outbox
    pub is_processing : Bool
