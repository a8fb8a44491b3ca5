-- ===== src/Seats/Holds/Holding.antt =====
-- What the `try` block of `holdSeats` writes, and that it writes all of it or nothing.
use distributed_nestjs_event.Base.{
  ℕ, ◌+◌, ◌≡◌, false, none, some, List, [], map, arith, Result, ok, err, Script, is_none,
}
use distributed_nestjs_event.External.Repository.{save_all, insert_all}
use distributed_nestjs_event.Seats.Types.{Tables, Platform, State, SeatInventory, SeatHold, held}
use distributed_nestjs_event.Seats.Transactions.{hold_with_id}
use distributed_nestjs_event.Seats.Inventory.{of_seats, with_status}
use distributed_nestjs_event.Seats.Holds.{
  HoldResult, hold_duration, unavailable, make_holds, hold_writes,
}

module _ (P : Platform) where
  open P use {seats, holds}

  -- The rows that the request finds, and the holds that it makes from them.
  abbrev pub found : ℕ → List ℕ → Tables P → List SeatInventory
  found event seat_ids db = seats.find (of_seats event seat_ids) db.inventory

  abbrev pub rows_of : Result (List SeatHold) → List SeatHold
  rows_of (ok rows) = rows
  rows_of (err e) = []

  abbrev pub made : ℕ → List ℕ → ℕ → ℕ → ℕ → Tables P → Result (List SeatHold)
  made event seat_ids user session now db =
      make_holds event user session now (found event seat_ids db) seat_ids

  -- The database with the holds: the rows found are held, and each seat has a new hold.
  pub record HeldDb (event : ℕ) (seat_ids : List ℕ) (user session now : ℕ) (db db' : Tables P)
      : Type 0 where
    pub inventory_held :
        db'.inventory
        ≡ save_all seats (map (with_status held) (found event seat_ids db)) db.inventory
    pub all_available : unavailable (found event seat_ids db) ≡ []
    pub all_made :
        made event seat_ids user session now db
        ≡ ok (rows_of (made event seat_ids user session now db))
    pub holds_made :
        db'.seat_holds
        ≡ (insert_all holds hold_with_id
            (rows_of (made event seat_ids user session now db))
            db.seat_holds).1

  -- What does not change while the transaction is open.
  pub record SameStores (s s' : State P) : Type 0 where
    pub same_now : s'.now ≡ s.now
    pub same_locks : s'.redis_locks ≡ s.redis_locks
    pub same_availability : s'.redis_availability ≡ s.redis_availability

  -- The writes, by how they ended: committed, or not at all with the transaction still open.
  abbrev pub Written : ℕ → List ℕ → ℕ → ℕ → State P → Result HoldResult → State P → Type 0
  Written event seat_ids user session s (ok res) s' =
      HeldDb event seat_ids user session s.now s.db s'.db
      × SameStores s s'
      × (s'.tx ≡ none)
      × (res.expires_at ≡ s.now + hold_duration)
      × (res.hold_ids
          ≡ (insert_all holds hold_with_id (rows_of (made event seat_ids user session s.now s.db))
              s.db.seat_holds).0)
  Written event seat_ids user session s (err e) s' =
      (s'.db ≡ s.db) × SameStores s s' × (is_none s'.tx ≡ false)

  pub hold_writes-Written :
      (event : ℕ) (seat_ids : List ℕ) (user session : ℕ) (s : State P) (r : Script)
      → s.tx ≡ some s.db
      → Written event seat_ids user session s
          (hold_writes P event seat_ids user session s r).0
          (hold_writes P event seat_ids user session s r).1
  unfolding hold_writes
  hold_writes-Written event seat_ids user session s r h = ground arith
