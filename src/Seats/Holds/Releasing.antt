-- ===== src/Seats/Holds/Releasing.antt =====
-- What `releaseSeats` and `markAsSold` write.
use distributed_nestjs_event.Base.{
  subst, ℕ, ◌≡◌, refl, true, none, some, List, map, arith, ok, Script, if◌then◌else◌,
}
use mathlib.Core.Option
use distributed_nestjs_event.External.Repository.{save_all, get-save_all-find}
use distributed_nestjs_event.Seats.Types.{
  Platform, State, Tables, SeatInventory, SeatHold, SeatStatus, available, sold,
  SeatLockReleaseReason, payment_success,
}
use distributed_nestjs_event.Seats.Inventory.{of_seats, with_status}
use distributed_nestjs_event.Seats.Locks.Releasing.{release_locks-SameButLocks}
use distributed_nestjs_event.Seats.Holds.{
  open_holds, close_hold, release_writes, release_try, release_seats, sold_writes, sold_try,
  mark_as_sold,
}
use distributed_nestjs_event.Seats.Holds.Holding.{found}
use distributed_nestjs_event.Seats.Holds.Rollback.{Ended, Closed, with_rollback-Closed}

module _ (P : Platform) where
  open P use {seats, holds}

  -- The database in which the rows asked for have a status, and the caller's open holds on the
  -- seats asked for are closed.
  pub record SettledDb (event : ℕ) (seat_ids : List ℕ) (user : ℕ) (status : SeatStatus)
      (reason : SeatLockReleaseReason) (now : ℕ) (db db' : Tables P) : Type 0 where
    pub inventory_settled :
        db'.inventory
        ≡ save_all seats (map (with_status status) (found P event seat_ids db)) db.inventory
    pub holds_settled :
        db'.seat_holds
        ≡ save_all holds
            (map
              (close_hold seat_ids now reason)
              (holds.find (open_holds event user) db.seat_holds))
            db.seat_holds

  release_try-Ended :
      (event : ℕ) (seat_ids : List ℕ) (user : ℕ) (reason : SeatLockReleaseReason) (s : State P)
      (r : Script)
      → s.tx ≡ some s.db
      → Ended P
          (SettledDb event seat_ids user available reason)
          s.now
          s.db
          (release_try P event seat_ids user reason s r).0
          (release_try P event seat_ids user reason s r).1.db
  unfolding release_try release_writes
  release_try-Ended event seat_ids user reason s r h =
      let w = release_writes P event seat_ids user reason s r in
      ground (arith, release_locks-SameButLocks P event seat_ids user w.1 w.2)

  sold_try-Ended :
      (event : ℕ) (seat_ids : List ℕ) (user : ℕ) (s : State P) (r : Script)
      → s.tx ≡ some s.db
      → Ended P
          (SettledDb event seat_ids user sold payment_success)
          s.now
          s.db
          (sold_try P event seat_ids user s r).0
          (sold_try P event seat_ids user s r).1.db
  unfolding sold_try sold_writes
  sold_try-Ended event seat_ids user s r h =
      let w = sold_writes P event seat_ids user s r in
      ground (arith, release_locks-SameButLocks P event seat_ids user w.1 w.2)

  -- `releaseSeats` of the hold service is atomic, whichever of its calls reject: the transaction
  -- is closed in the end, and either the database is as before, or every row of the seats is
  -- available and the caller's open holds on them are closed with the reason. A success is the
  -- second.
  pub release_seats-Closed :
      (event : ℕ) (seat_ids : List ℕ) (user : ℕ) (reason : SeatLockReleaseReason) (s : State P)
      (r : Script)
      → s.tx ≡ none
      → Closed P
          (SettledDb event seat_ids user available reason)
          s.now
          s.db
          (release_seats P event seat_ids user reason s r)
  unfolding release_seats
  release_seats-Closed event seat_ids user reason s r h =
      with_rollback-Closed P (SettledDb event seat_ids user available reason)
        (release_try P event seat_ids user reason) s r h
        (release_try-Ended event seat_ids user reason)

  -- `markAsSold` is atomic in the same way, with the rows sold and the caller's open holds on the
  -- seats closed for a payment.
  pub mark_as_sold-Closed :
      (event : ℕ) (seat_ids : List ℕ) (user : ℕ) (s : State P) (r : Script)
      → s.tx ≡ none
      → Closed P
          (SettledDb event seat_ids user sold payment_success)
          s.now
          s.db
          (mark_as_sold P event seat_ids user s r)
  unfolding mark_as_sold
  mark_as_sold-Closed event seat_ids user s r h =
      with_rollback-Closed P (SettledDb event seat_ids user sold payment_success)
        (sold_try P event seat_ids user) s r h (sold_try-Ended event seat_ids user)

  close_hold-id :
      (seat_ids : List ℕ) (now : ℕ) (reason : SeatLockReleaseReason) (x : SeatHold)
      → (close_hold seat_ids now reason x).id ≡ x.id
  close_hold-id seat_ids now reason x = ground arith

  -- Row by row: the status of the seats asked for, whatever it was, and the caller's open holds.
  pub SettledDb-rows :
      (event : ℕ) (seat_ids : List ℕ) (user : ℕ) (status : SeatStatus)
      (reason : SeatLockReleaseReason) (now i : ℕ) (db db' : Tables P)
      → SettledDb event seat_ids user status reason now db db'
      → (seats.get i db'.inventory
          ≡ Option.map
              (λ row. if of_seats event seat_ids row then with_status status row else row)
              (seats.get i db.inventory))
        × (holds.get i db'.seat_holds
            ≡ Option.map
                (λ x. if open_holds event user x then close_hold seat_ids now reason x else x)
                (holds.get i db.seat_holds))
  SettledDb-rows event seat_ids user status reason now i db db' h = (
    rw h.inventory_settled (
        get-save_all-find seats i (of_seats event seat_ids) (with_status status) db.inventory
          (λ row. refl)),
    rw h.holds_settled (
        get-save_all-find holds i (open_holds event user) (close_hold seat_ids now reason)
          db.seat_holds (close_hold-id seat_ids now reason)),
  )

  -- A release that succeeds makes every row of the seats of the event available, also a row that
  -- is sold, and whoever the caller is: neither the status nor the holder of the row is tested.
  pub release_seats-untested :
      (event : ℕ) (seat_ids : List ℕ) (user : ℕ) (reason : SeatLockReleaseReason) (i : ℕ)
      (row : SeatInventory) (s : State P) (r : Script) (u : Unit {0})
      → s.tx ≡ none
      → (release_seats P event seat_ids user reason s r).0 ≡ ok u
      → seats.get i s.db.inventory ≡ some row
      → of_seats event seat_ids row ≡ true
      → seats.get i (release_seats P event seat_ids user reason s r).1.db.inventory
        ≡ some (with_status available row)
  release_seats-untested event seat_ids user reason i row s r u h e there selected =
      let x = release_seats P event seat_ids user reason s r in
      let settled : SettledDb event seat_ids user available reason s.now s.db x.1.db =
        (subst
          (λ a. Closed P (SettledDb event seat_ids user available reason) s.now s.db (a, x.1, x.2))
          e (release_seats-Closed event seat_ids user reason s r h)).1 in
      ground (
        arith,
        there,
        selected,
        SettledDb-rows event seat_ids user available reason s.now i s.db x.1.db settled,
      )
