-- ===== src/Seats/Holds.antt =====
-- `HoldService` (apps/seat-inventory-service/src/hold/hold.service.ts): holding, releasing and
-- selling seats across the locks, the database and the read model.
pub mod Holding
pub mod Atomicity
pub mod Exclusion
pub mod Rollback
pub mod Releasing
pub mod Publishing
use distributed_nestjs_event.Base.{
  ℕ, ◌+◌, ◌*◌, Bool, not, none, some, List, [], ◌∷◌, map, filter, find, includes, is_none,
  if◌then◌else◌, ◌==◌, ◌&&◌, Error, Result, ok, err, seats_already_held, seats_not_available,
  seat_not_found, Action, pure, throw, throw_if, gets, query, try_catch, finally, ◌>>=◌, ◌>>◌,
}
use distributed_nestjs_event.Seats.Types.{
  Platform, State, SeatInventory, SeatHold, available, held, sold, is_available,
  SeatLockReleaseReason, payment_success,
}
use distributed_nestjs_event.Seats.Transactions.{
  begin, save_inventories, save_holds, insert_holds, commit, rollback, release,
}
use distributed_nestjs_event.Seats.Availability.{updates_to, update_multiple_seats_status}
use distributed_nestjs_event.Seats.Inventory.{find_by_seat_ids, with_status}
use distributed_nestjs_event.Seats.Locks.{lock_seats, release_locks}

-- `HOLD_DURATION_MS`
abbrev pub hold_duration : ℕ
hold_duration = 10 * 60 * 1000

pub record HoldResult : Type 0 where
  pub hold_ids : List ℕ
  pub expires_at : ℕ

-- `inventories.filter((inv) => inv.status !== SeatStatus.AVAILABLE)`, as the seats' ids
abbrev pub unavailable : List SeatInventory → List ℕ
unavailable inventories =
    map (λ inv. inv.seat_id) (filter (λ inv. not (is_available inv.status)) inventories)

abbrev pub fail_unavailable : List ℕ → Result (Unit {0})
fail_unavailable [] = ok tt
fail_unavailable (x ∷ xs) = err (seats_not_available (x ∷ xs))

-- The hold of a seat by `holdRepo.create`, before it has an id.
abbrev pub new_hold : ℕ → ℕ → ℕ → ℕ → ℕ → SeatInventory → SeatHold
new_hold event user session now seat inv = record {
  id = 0;
  seat_inventory_id = inv.id;
  event_id = event;
  seat_id = seat;
  user_id = user;
  session_id = session;
  held_at = now;
  expires_at = now + hold_duration;
  released_at = none;
  release_reason = none;
}

-- `seatIds.map((seatId) => …)`, which throws at the first seat without a row.
unfoldable pub make_holds : ℕ → ℕ → ℕ → ℕ → List SeatInventory → List ℕ → Result (List SeatHold)
make_holds event user session now inventories [] = ok []
make_holds event user session now inventories (seat ∷ seats) =
    elim (find (λ inv. inv.seat_id == seat) inventories) [
      | none ↦ err (seat_not_found seat)
      | some inv ↦ elim (make_holds event user session now inventories seats) [
        | ok hs ↦ ok (new_hold event user session now seat inv ∷ hs)
        | err e ↦ err e
      ]
    ]

-- `where: { eventId, userId, releasedAt: IsNull() }`
abbrev pub open_holds : ℕ → ℕ → SeatHold → Bool
open_holds event user h = h.event_id == event && h.user_id == user && is_none h.released_at

-- The change of a hold in the loop of `releaseSeats` and `markAsSold`.
abbrev pub close_hold : List ℕ → ℕ → SeatLockReleaseReason → SeatHold → SeatHold
close_hold seat_ids now reason h =
    if includes seat_ids h.seat_id
    then record h { released_at = some now; release_reason = some reason }
    else h

module _ (P : Platform) where
  open P use {seats, holds}

  abbrev pub from_result : {A : Type 0} → Result A → Action (State P) A
  from_result a s r = (a, s, r)

  -- the `try` block of `holdSeats`, up to the commit
  unfoldable pub hold_writes : ℕ → List ℕ → ℕ → ℕ → Action (State P) HoldResult
  hold_writes event seat_ids user session = find_by_seat_ids P event seat_ids >>= λ inventories.
      from_result (fail_unavailable (unavailable inventories))
      >> (save_inventories P (map (with_status held) inventories)
          >> (gets (λ s. s.now) >>= λ now.
              from_result (make_holds event user session now inventories seat_ids) >>= λ rows.
              insert_holds P rows >>= λ ids.
              commit P >> pure (record { hold_ids = ids; expires_at = now + hold_duration })))

  -- the rest of the `try` block, and the `catch` block
  unfoldable pub hold_try : ℕ → List ℕ → ℕ → ℕ → Action (State P) HoldResult
  hold_try event seat_ids user session = hold_writes event seat_ids user session >>= λ result.
      update_multiple_seats_status P event (updates_to held seat_ids) >> pure result

  unfoldable pub hold_catch : ℕ → List ℕ → ℕ → Error → Action (State P) HoldResult
  hold_catch event seat_ids user error =
      rollback P >> (release_locks P event seat_ids user >> throw error)

  -- what follows once the locks are taken
  unfoldable pub hold_locked : ℕ → List ℕ → ℕ → ℕ → Action (State P) HoldResult
  hold_locked event seat_ids user session =
      begin P
      >> finally (try_catch (hold_try event seat_ids user session) (hold_catch event seat_ids user))
          (release P)

  unfoldable pub hold_seats : ℕ → List ℕ → ℕ → ℕ → Action (State P) HoldResult
  hold_seats event seat_ids user session = lock_seats P event seat_ids user session >>= λ locked.
      throw_if (not locked.success) (seats_already_held locked.failed_seat_ids)
      >> hold_locked event seat_ids user session

  -- the writes of `releaseSeats`, up to the commit
  unfoldable pub release_writes :
      ℕ → List ℕ → ℕ → SeatLockReleaseReason → Action (State P) (Unit {0})
  release_writes event seat_ids user reason =
      query (λ s. holds.find (open_holds event user) s.db.seat_holds) >>= λ rows.
      gets (λ s. s.now) >>= λ now.
      save_holds P (map (close_hold seat_ids now reason) rows)
      >> (find_by_seat_ids P event seat_ids >>= λ inventories.
          save_inventories P (map (with_status available) inventories) >> commit P)

  -- The frame of `releaseSeats` and `markAsSold`: a transaction around a `try` block, with a
  -- rollback where it throws.
  unfoldable pub with_rollback : Action (State P) (Unit {0}) → Action (State P) (Unit {0})
  with_rollback body =
      begin P >> finally (try_catch body (λ error. rollback P >> throw error)) (release P)

  -- the `try` block of `releaseSeats`
  unfoldable pub release_try : ℕ → List ℕ → ℕ → SeatLockReleaseReason → Action (State P) (Unit {0})
  release_try event seat_ids user reason =
      release_writes event seat_ids user reason
      >> (release_locks P event seat_ids user >>= λ released.
          update_multiple_seats_status P event (updates_to available seat_ids))

  -- `HoldService.releaseSeats`
  unfoldable pub release_seats :
      ℕ → List ℕ → ℕ → SeatLockReleaseReason → Action (State P) (Unit {0})
  release_seats event seat_ids user reason = with_rollback (release_try event seat_ids user reason)

  -- the writes of `markAsSold`, up to the commit
  unfoldable pub sold_writes : ℕ → List ℕ → ℕ → Action (State P) (Unit {0})
  sold_writes event seat_ids user = find_by_seat_ids P event seat_ids >>= λ inventories.
      save_inventories P (map (with_status sold) inventories)
      >> (query (λ s. holds.find (open_holds event user) s.db.seat_holds) >>= λ rows.
          gets (λ s. s.now) >>= λ now.
          save_holds P (map (close_hold seat_ids now payment_success) rows) >> commit P)

  -- the `try` block of `markAsSold`
  unfoldable pub sold_try : ℕ → List ℕ → ℕ → Action (State P) (Unit {0})
  sold_try event seat_ids user =
      sold_writes event seat_ids user
      >> (release_locks P event seat_ids user >>= λ released.
          update_multiple_seats_status P event (updates_to sold seat_ids))

  unfoldable pub mark_as_sold : ℕ → List ℕ → ℕ → Action (State P) (Unit {0})
  mark_as_sold event seat_ids user = with_rollback (sold_try event seat_ids user)
