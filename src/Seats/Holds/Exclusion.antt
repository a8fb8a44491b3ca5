-- ===== src/Seats/Holds/Exclusion.antt =====
-- Seats that are not available cannot be held again.
use distributed_nestjs_event.Base.{
  Result-cases, subst, ◌∙◌, ℕ, ◌≡◌, ◌≢◌, inl, inr, refl, true, false, not, none, some, List, [],
  ◌∷◌, arith, ok, Script, is_err, by_key, if◌then◌else◌, Bool-cases, ◌&&◌,
}
use mathlib.Core.Option
use distributed_nestjs_event.External.Repository.{get-save_all-find}
use distributed_nestjs_event.Seats.Types.{
  Platform, State, Tables, SeatInventory, seat_key, is_available, held,
}
use distributed_nestjs_event.Seats.Inventory.{of_seats, with_status}
use distributed_nestjs_event.Seats.Holds.{HoldResult, unavailable, hold_seats}
use distributed_nestjs_event.Seats.Holds.Holding.{found, HeldDb}
use distributed_nestjs_event.Seats.Holds.Publishing.{hold_seats-Unpublished}
use distributed_nestjs_event.Seats.Holds.Atomicity.{Held, hold_seats-Held}

unavailable-found :
    (i : ℕ) (rows : List SeatInventory) (row : SeatInventory)
    → by_key seat_key i rows ≡ some row
    → is_available row.status ≡ false
    → unavailable rows ≢ []
unavailable-found i [] row h u e = cc
unavailable-found i (x ∷ rows) row h u e = ground (arith, unavailable-found i rows row)

module _ (P : Platform) where
  open P use {seats}

  HeldDb-available :
      (event : ℕ) (seat_ids : List ℕ) (user session now i : ℕ) (db db' : Tables P)
      (row : SeatInventory)
      → HeldDb P event seat_ids user session now db db'
      → seats.get i db.inventory ≡ some row
      → of_seats event seat_ids row ≡ true
      → is_available row.status ≢ false
  HeldDb-available event seat_ids user session now i db db' row h there selected u =
      unavailable-found i (found P event seat_ids db) row
        (ground (arith, seats.get-find i (of_seats event seat_ids) db.inventory)) u h.all_available

  -- Where one of the rows that a request asks for is not available, the request fails, and the
  -- database and the statuses of the read model do not change, whatever the locks say and whichever
  -- calls reject. Locks that the request has taken may stay where its calls reject.
  pub hold_seats-refused :
      (event : ℕ) (seat_ids : List ℕ) (user session i : ℕ) (row : SeatInventory) (s : State P)
      (r : Script)
      → s.tx ≡ none
      → seats.get i s.db.inventory ≡ some row
      → of_seats event seat_ids row ≡ true
      → is_available row.status ≡ false
      → (is_err (hold_seats P event seat_ids user session s r).0 ≡ true)
        × ((hold_seats P event seat_ids user session s r).1.db ≡ s.db)
        × ((hold_seats P event seat_ids user session s r).1.redis_availability
            ≡ s.redis_availability)
  hold_seats-refused event seat_ids user session i row s r h there selected u =
      let x = hold_seats P event seat_ids user session s r in
      let outcome = hold_seats-Held P event seat_ids user session s r h in
      let never = λ (y : HeldDb P event seat_ids user session s.now s.db x.1.db).
        HeldDb-available event seat_ids user session s.now i s.db x.1.db row y there selected u in
      elim (Result-cases x.0) [
        | inl (res, e) ↦
            let bad =
              subst (λ a. Held P event seat_ids user session s.now s.db (a, x.1, x.2)) e outcome in
            absurd (never bad.1)
        | inr (error, e) ↦
            let bad =
              subst (λ a. Held P event seat_ids user session s.now s.db (a, x.1, x.2)) e outcome in
            (
              rw e refl,
              elim bad.1 [ inl same ↦ same | inr y ↦ absurd (never y) ],
              hold_seats-Unpublished P event seat_ids user session s r error e,
            )
      ]

  -- What a request that succeeds has done to the whole database.
  pub hold_seats-HeldDb :
      (event : ℕ) (seat_ids : List ℕ) (user session : ℕ) (s : State P) (r : Script)
      (res : HoldResult)
      → s.tx ≡ none
      → (hold_seats P event seat_ids user session s r).0 ≡ ok res
      → let s' = (hold_seats P event seat_ids user session s r).1 in
        (s'.tx ≡ none) × HeldDb P event seat_ids user session s.now s.db s'.db
  hold_seats-HeldDb event seat_ids user session s r res h e =
      let x = hold_seats P event seat_ids user session s r in
      subst (λ a. Held P event seat_ids user session s.now s.db (a, x.1, x.2)) e
        (hold_seats-Held P event seat_ids user session s r h)

  pub HeldDb-rows :
      (event : ℕ) (seat_ids : List ℕ) (user session now i : ℕ) (db db' : Tables P)
      → HeldDb P event seat_ids user session now db db'
      → seats.get i db'.inventory
        ≡ Option.map
            (λ row. if of_seats event seat_ids row then with_status held row else row)
            (seats.get i db.inventory)
  HeldDb-rows event seat_ids user session now i db db' done = rw (done.inventory_held) (
      get-save_all-find seats i (of_seats event seat_ids) (with_status held) db.inventory
        (λ y. refl))

  -- What a request that succeeds has done to a row of the inventory: a row that it asked for was
  -- available and is held, with nothing else changed, and any other row is as before.
  pub hold_seats-rows :
      (event : ℕ) (seat_ids : List ℕ) (user session i : ℕ) (row : SeatInventory) (s : State P)
      (r : Script) (res : HoldResult)
      → s.tx ≡ none
      → (hold_seats P event seat_ids user session s r).0 ≡ ok res
      → seats.get i s.db.inventory ≡ some row
      → (seats.get i (hold_seats P event seat_ids user session s r).1.db.inventory
          ≡ some (if of_seats event seat_ids row then with_status held row else row))
        × ((of_seats event seat_ids row && not (is_available row.status)) ≡ false)
  hold_seats-rows event seat_ids user session i row s r res h e there =
      let x = hold_seats P event seat_ids user session s r in
      let done = (hold_seats-HeldDb event seat_ids user session s r res h e).1 in
      (
        HeldDb-rows event seat_ids user session s.now i s.db x.1.db done ∙ rw there refl,
        elim (Bool-cases (of_seats event seat_ids row)) [
          | inl selected ↦ ground (
            arith,
            selected,
            HeldDb-available event seat_ids user session s.now i s.db x.1.db row done there
                selected,
          )
          | inr other ↦ ground (arith, other)
        ],
      )
