-- ===== src/Seats/Grpc.antt =====
-- The gRPC methods of the seat inventory service
-- (apps/seat-inventory-service/src/inventory/inventory.grpc-controller.ts).
pub mod Verifying
use distributed_nestjs_event.Base.{
  ℕ, Bool, true, false, Option, none, some, List, [], ◌∷◌, ◌==◌, if◌then◌else◌, Result, ok, err,
  is_err, not, Action, pure, ◌>>=◌,
}
use distributed_nestjs_event.External.LockStore.{LockData}
use distributed_nestjs_event.Seats.Types.{Platform, State, SeatLockReleaseReason}
use distributed_nestjs_event.Seats.Locks.{get_lock_info}
use distributed_nestjs_event.Seats.Inventory.{release_sold_seats}
use distributed_nestjs_event.Seats.Holds.{HoldResult, hold_seats, release_seats, mark_as_sold}

-- The answer of `HoldSeats`.
pub record HoldSeatsReply : Type 0 where
  pub success : Bool
  pub hold_ids : List ℕ
  pub expires_at : Option ℕ
  pub failed_seat_ids : List ℕ

abbrev pub reply_of : List ℕ → Result HoldResult → HoldSeatsReply
reply_of seat_ids (ok result) = record {
  success = true;
  hold_ids = result.hold_ids;
  expires_at = some result.expires_at;
  failed_seat_ids = [];
}
reply_of seat_ids (err error) = record {
  success = false;
  hold_ids = [];
  expires_at = none;
  failed_seat_ids = seat_ids;
}

-- Whether a lock is there and belongs to the user.
abbrev pub is_owner : ℕ → Option LockData → Bool
is_owner user none = false
is_owner user (some lock) = lock.user_id == user

module _ (P : Platform) where
  -- `verifyHold`
  unfoldable pub verify_hold : ℕ → List ℕ → ℕ → Action (State P) Bool
  verify_hold event [] user = pure true
  verify_hold event (seat ∷ seats) user = get_lock_info P event seat >>= λ lock.
      elim (is_owner user lock) [ true ↦ verify_hold event seats user | false ↦ pure false ]

  -- `try { await …; return { success: true } } catch { return { success: false } }`
  abbrev pub succeeds : Action (State P) (Unit {0}) → Action (State P) Bool
  succeeds m s r = let (a, s', r') = m s r in (ok (not (is_err a)), s', r')

  unfoldable pub hold_seats_method : ℕ → List ℕ → ℕ → ℕ → Action (State P) HoldSeatsReply
  hold_seats_method event seat_ids user session s r =
      let (a, s', r') = hold_seats P event seat_ids user session s r in
      (ok (reply_of seat_ids a), s', r')

  unfoldable pub release_seats_method :
      ℕ → List ℕ → ℕ → SeatLockReleaseReason → Action (State P) Bool
  release_seats_method event seat_ids user reason =
      succeeds (release_seats P event seat_ids user reason)

  unfoldable pub mark_seats_as_sold_method : ℕ → List ℕ → ℕ → Action (State P) Bool
  mark_seats_as_sold_method event seat_ids user = succeeds (mark_as_sold P event seat_ids user)

  unfoldable pub release_sold_seats_method : ℕ → List ℕ → Action (State P) Bool
  release_sold_seats_method event seat_ids = succeeds (release_sold_seats P event seat_ids)
