-- ===== src/Seats/Locks.antt =====
-- `SeatLockService` (apps/seat-inventory-service/src/inventory/seat-lock.service.ts): the locks
-- on seats, in Redis.
pub mod Keys
pub mod Locking
pub mod Exclusion
pub mod Progress
pub mod Releasing
use distributed_nestjs_event.Base.{
  ℕ, ◌+◌, ◌*◌, ◌≡◌, Bool, true, false, Option, none, some, List, [], ◌∷◌, ◌++◌, arith, ◌==◌, not,
  if◌then◌else◌, Action, pure, modify, query, write, call, ◌>>=◌, ◌>>◌, length, ltb, gets,
}
use distributed_nestjs_event.External.LockStore.{LockKey, LockData}
use distributed_nestjs_event.Seats.Types.{Platform, State}

-- `LOCK_TTL`, in seconds, and the length of a second
abbrev pub lock_ttl : ℕ
lock_ttl = 600

abbrev pub second : ℕ
second = 1000

abbrev pub lock_key : ℕ → ℕ → LockKey
lock_key event seat = record { event = event; seat = seat }

pub record LockResult : Type 0 where
  pub success : Bool
  pub failed_seat_ids : List ℕ

module _ (P : Platform) where
  open P use {locks}

  -- `redis.get(key)`
  abbrev pub lock_at : LockKey → State P → Option LockData
  lock_at k s = locks.get s.now k s.redis_locks

  -- `redis.set(key, value, 'EX', LOCK_TTL, 'NX')`, and whether it replies `OK`
  pub set_lock : LockKey → ℕ → ℕ → Action (State P) Bool
  set_lock k user session =
      call
      >> (gets (λ s. locks.set_nx_ok s.now k s.redis_locks) >>= λ got.
          modify (λ s. record s {
            redis_locks =
                locks.set_nx s.now k
                  (record { user_id = user; session_id = session; locked_at = s.now })
                  (lock_ttl * second) s.redis_locks;
          })
          >> pure got)

  -- `redis.del(key)`
  pub del_lock : LockKey → Action (State P) (Unit {0})
  del_lock k = write (λ s. record s { redis_locks = locks.del k s.redis_locks })

  -- The loop over `seatIds`, with the locked keys and the failed seats so far.
  pub lock_loop :
      ℕ → ℕ → ℕ → List ℕ → List LockKey → List ℕ → Action (State P) (List LockKey × List ℕ)
  lock_loop event user session [] locked failed = pure (locked, failed)
  lock_loop event user session (seat ∷ seats) locked failed =
      set_lock (lock_key event seat) user session >>= λ got.
      lock_loop event user session seats
        (if got then locked ++ lock_key event seat ∷ [] else locked)
        (if got then failed else failed ++ seat ∷ [])

  -- `for (const key of lockedKeys) await this.redis.del(key)`
  pub del_loop : List LockKey → Action (State P) (Unit {0})
  del_loop [] = pure tt
  del_loop (k ∷ ks) = del_lock k >> del_loop ks

  -- `if (failedSeatIds.length > 0)`, and what follows
  pub conclude : List LockKey → List ℕ → Action (State P) LockResult
  conclude locked [] = pure (record { success = true; failed_seat_ids = [] })
  conclude locked (x ∷ failed) =
      del_loop locked >> pure (record { success = false; failed_seat_ids = x ∷ failed })

  unfoldable pub lock_seats : ℕ → List ℕ → ℕ → ℕ → Action (State P) LockResult
  unfolding set_lock del_lock lock_loop del_loop conclude
  lock_seats event seat_ids user session =
      lock_loop event user session seat_ids [] [] >>= λ (locked, failed). conclude locked failed

  -- One round of the release: the number of seats released, with this one.
  pub release_lock : ℕ → ℕ → ℕ → ℕ → Action (State P) ℕ
  release_lock event user seat released = query (lock_at (lock_key event seat)) >>= λ found.
      elim found [
        | none ↦ pure released
        | some lock ↦
            if lock.user_id == user
            then del_lock (lock_key event seat) >> pure (released + 1)
            else pure released
      ]

  pub release_loop : ℕ → ℕ → List ℕ → ℕ → Action (State P) ℕ
  release_loop event user [] released = pure released
  release_loop event user (seat ∷ seats) released =
      release_lock event user seat released >>= release_loop event user seats

  -- `SeatLockService.releaseSeats`
  unfoldable pub release_locks : ℕ → List ℕ → ℕ → Action (State P) ℕ
  unfolding del_lock release_lock release_loop
  release_locks event seat_ids user = release_loop event user seat_ids 0

  unfoldable pub get_lock_info : ℕ → ℕ → Action (State P) (Option LockData)
  get_lock_info event seat = query (lock_at (lock_key event seat))

  unfoldable pub extend_lock : ℕ → List ℕ → ℕ → ℕ → Action (State P) Bool
  extend_lock event [] user extra = pure true
  extend_lock event (seat ∷ seats) user extra = query (lock_at (lock_key event seat)) >>= λ found.
      elim found [
        | none ↦ pure false
        | some lock ↦
            if lock.user_id == user
            then write (λ s. record s {
              redis_locks =
                  locks.expire s.now (lock_key event seat) ((lock_ttl + extra) * second)
                    s.redis_locks;
            })
              >> extend_lock event seats user extra
            else pure false
      ]
