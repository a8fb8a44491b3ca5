-- ===== src/Seats/Types.antt =====
-- The entities of the seat inventory service (apps/seat-inventory-service/src): seat rows, holds,
-- and the stores that its services share.
use distributed_nestjs_event.Base.{ℕ, Option, Bool, true, false}
use distributed_nestjs_event.External.Repository.{Repository}
use distributed_nestjs_event.External.LockStore.{LockStore}
use distributed_nestjs_event.External.Hashes.{Hashes}

pub data SeatStatus : Type 0 where
  available held reserved sold : SeatStatus

abbrev pub is_available : SeatStatus → Bool
is_available available = true
is_available held = false
is_available reserved = false
is_available sold = false

pub data SeatLockReleaseReason : Type 0 where
  timeout user_cancel payment_success admin payment_failed : SeatLockReleaseReason

-- Prices are in cents, times in milliseconds, and texts that are only copied are numbers.
pub record SeatInventory : Type 0 where
  pub id : ℕ
  pub event_id : ℕ
  pub seat_id : ℕ
  pub section_id : ℕ
  pub section_name : ℕ
  pub ticket_type_id : ℕ
  pub ticket_type_name : ℕ
  pub price : ℕ
  pub currency : ℕ
  pub row : ℕ
  pub seat_number : ℕ
  pub seat_type : ℕ
  pub status : SeatStatus
  pub price_override : Option ℕ
  pub version : ℕ

pub record SeatHold : Type 0 where
  pub id : ℕ
  pub seat_inventory_id : ℕ
  pub event_id : ℕ
  pub seat_id : ℕ
  pub user_id : ℕ
  pub session_id : ℕ
  pub held_at : ℕ
  pub expires_at : ℕ
  pub released_at : Option ℕ
  pub release_reason : Option SeatLockReleaseReason

-- The JSON text of a seat in the hash `seat_detail:${eventId}`, which is parsed again as it was.
pub record SeatDetail : Type 0 where
  pub seat_id : ℕ
  pub section_id : ℕ
  pub section_name : ℕ
  pub ticket_type_id : ℕ
  pub ticket_type_name : ℕ
  pub price : ℕ
  pub currency : ℕ
  pub row : ℕ
  pub seat_number : ℕ
  pub seat_type : ℕ

abbrev pub seat_key : SeatInventory → ℕ
seat_key s = s.id

abbrev pub hold_key : SeatHold → ℕ
hold_key h = h.id

-- The commands of the pipelines on the hashes of an event.
pub data Command : Type 0 where
  del_statuses del_details : ℕ → Command
  hset_status hset_detail : ℕ → ℕ → Command

-- The stores behind the service: two tables, the seat locks, and the hashes of the read model. A
-- pipeline that `exec` has run resolves with a result for each command, which may be an error:
-- `command_fails` says which of the commands run at a time have one, and so have no effect.
pub record Platform : Type 1 where
  pub seats : Repository SeatInventory seat_key
  pub holds : Repository SeatHold hold_key
  pub locks : LockStore
  pub availability : Hashes SeatStatus
  pub details : Hashes SeatDetail
  pub command_fails : ℕ → Command → Bool

module _ (P : Platform) where
  open P use {seats, holds, locks, availability, details}

  -- The committed rows of the database.
  pub record Tables : Type 0 where
    pub inventory : seats.Table
    pub seat_holds : holds.Table

  -- `tx` holds the writes of the open transaction of a query runner, if there is one. The clock
  -- stands still while one request runs. `is_processing` is the flag of the expiry worker.
  pub record State : Type 0 where
    pub now : ℕ
    pub db : Tables
    pub tx : Option Tables
    pub redis_locks : locks.Store
    pub redis_availability : availability.Store
    pub redis_details : details.Store
    pub is_processing : Bool
