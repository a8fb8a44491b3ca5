-- ===== src/Seats/Tests.antt =====
-- Runs of the seat inventory service and the theorems at them.
use distributed_nestjs_event.Base.{
  arith, [], ℕ, ◌≡◌, none, refl, true, false, some, List, ◌∷◌, ok, is_err, answered, rejected,
  next_reply, later_replies,
}
use distributed_nestjs_event.External.Repository.{save_all, insert_all}
use distributed_nestjs_event.Seats.Types.{State, SeatHold, user_cancel, available, sold}
use distributed_nestjs_event.Seats.Fixture.{platform, opening, seat_row, sold_hold}
use distributed_nestjs_event.Seats.Locks.{LockResult, lock_seats, release_locks, get_lock_info}
use distributed_nestjs_event.Seats.Locks.Keys.{value_of}
use distributed_nestjs_event.Seats.Locks.Exclusion.{Outcome, lock_seats-Outcome}
use distributed_nestjs_event.Seats.Availability.{run_statuses}
use distributed_nestjs_event.Seats.Holds.{
  hold_writes, hold_try, hold_locked, hold_seats, HoldResult, make_holds, release_writes,
  release_try, with_rollback, release_seats,
}
use distributed_nestjs_event.Seats.Holds.Atomicity.{Held, hold_seats-Held}
use distributed_nestjs_event.Seats.Holds.Exclusion.{hold_seats-refused}
use distributed_nestjs_event.Seats.Holds.Rollback.{Closed}
use distributed_nestjs_event.Seats.Holds.Releasing.{SettledDb, release_seats-Closed}
use distributed_nestjs_event.Seats.Expiry.{group_all, process_expired_holds}
use distributed_nestjs_event.Seats.Expiry.Grouping.{holds_of, group_all-filter}
use distributed_nestjs_event.Seats.Expiry.Closing.{NoneExpired, process_expired_holds-Kept}
use distributed_nestjs_event.Seats.Grpc.{verify_hold}
use distributed_nestjs_event.Seats.Grpc.Verifying.{later, verify_hold-lock_seats}
use distributed_nestjs_event.External.Hashes.{hset_all}

abbrev seats_asked : List ℕ
seats_asked = 7 ∷ 8 ∷ []

abbrev granted : LockResult
granted = record { success = true; failed_seat_ids = [] }

lock_seats_run : (lock_seats platform 1 seats_asked 4 2 opening []).0 ≡ ok granted
unfolding lock_seats next_reply later_replies
lock_seats_run = refl

lock_seats-Outcome_example :
    Outcome platform 1
      (value_of platform 4 2 opening)
      seats_asked
      opening
      (lock_seats platform 1 seats_asked 4 2 opening []).1
      granted
lock_seats-Outcome_example =
    lock_seats-Outcome platform 1 seats_asked 4 2 opening [] granted lock_seats_run

abbrev held_result : HoldResult
held_result = record { hold_ids = 1 ∷ 2 ∷ []; expires_at = 605000 }

abbrev held_state : State platform
held_state = (hold_seats platform 1 seats_asked 4 2 opening []).1

hold_seats-Held_example :
    Held platform 1 seats_asked 4 2 5000 opening.db
      (hold_seats platform 1 seats_asked 4 2 opening (answered ∷ answered ∷ rejected ∷ []))
hold_seats-Held_example =
    hold_seats-Held platform 1 seats_asked 4 2 opening (answered ∷ answered ∷ rejected ∷ []) refl

hold_seats-refused_example :
    (is_err (hold_seats platform 1 (8 ∷ 9 ∷ []) 4 2 opening []).0 ≡ true)
    × ((hold_seats platform 1 (8 ∷ 9 ∷ []) 4 2 opening []).1.db ≡ opening.db)
    × ((hold_seats platform 1 (8 ∷ 9 ∷ []) 4 2 opening []).1.redis_availability
        ≡ opening.redis_availability)
hold_seats-refused_example =
    hold_seats-refused platform 1 (8 ∷ 9 ∷ []) 4 2 2 (seat_row 2 9 sold) opening [] refl refl refl
      refl

hold_seats_result : (hold_seats platform 1 seats_asked 4 2 opening []).0 ≡ ok held_result
unfolding lock_seats hold_seats hold_locked hold_try hold_writes make_holds save_all insert_all
    hset_all run_statuses next_reply later_replies
hold_seats_result = refl

release_locks_run : (release_locks platform 1 seats_asked 4 held_state []).0 ≡ ok 2
unfolding lock_seats hold_seats hold_locked hold_try hold_writes make_holds save_all insert_all
    hset_all run_statuses next_reply later_replies release_locks
release_locks_run = refl

release_seats-Closed_example :
    Closed platform
      (SettledDb platform 1 (9 ∷ []) 4 available user_cancel)
      5000
      opening.db
      (release_seats platform 1 (9 ∷ []) 4 user_cancel opening [])
release_seats-Closed_example =
    release_seats-Closed platform 1 (9 ∷ []) 4 user_cancel opening [] refl

release_seats_run : (release_seats platform 1 (9 ∷ []) 4 user_cancel opening []).0 ≡ ok tt
unfolding release_seats with_rollback release_try release_writes release_locks save_all hset_all
    run_statuses next_reply later_replies
release_seats_run = refl

-- User 4 releases the seat that user 3 has bought.

abbrev locked_state : State platform
locked_state = (lock_seats platform 1 seats_asked 4 2 opening []).1

-- A second before the locks expire.
verify_hold-lock_seats_example :
    (verify_hold platform 1 seats_asked 4 (later platform 599000 locked_state) []).0 ≡ ok true
verify_hold-lock_seats_example =
    verify_hold-lock_seats platform 1 7 (8 ∷ []) 4 2 599000 opening [] granted lock_seats_run refl

verify_hold_run : (verify_hold platform 1 (7 ∷ []) 4 locked_state []).0 ≡ ok true
unfolding verify_hold get_lock_info lock_seats next_reply later_replies
verify_hold_run = refl

-- User 5 is not verified, also where the first call of Redis is rejected.

abbrev timed_out : SeatHold
timed_out = record sold_hold { id = 1; user_id = 4; seat_id = 8; released_at = none }

group_all-filter_example : holds_of 1 4 (group_all (sold_hold ∷ timed_out ∷ []) []) ≡ timed_out ∷ []
group_all-filter_example = group_all-filter 1 4 (sold_hold ∷ timed_out ∷ [])

abbrev late : State platform
late = record opening { now = 700000 }

-- The hold of the seat that is sold is closed.
sold-NoneExpired : NoneExpired platform (seat_row 2 9 sold) late
sold-NoneExpired j h = ground arith

process_expired_holds-Kept_example :
    let s' = (process_expired_holds platform late (answered ∷ rejected ∷ [])).1 in
    (s'.is_processing ≡ false)
    × (s'.tx ≡ none)
    × (platform.seats.get 2 s'.db.inventory ≡ some (seat_row 2 9 sold))
process_expired_holds-Kept_example =
    process_expired_holds-Kept platform 2 (seat_row 2 9 sold) late (answered ∷ rejected ∷ []) refl
      refl refl sold-NoneExpired
