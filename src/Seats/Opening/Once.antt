-- ===== src/Seats/Opening/Once.antt =====
-- An event is opened once, however often its message is delivered.
use distributed_nestjs_event.Base.{
  [], ℕ, ◌≡◌, refl, some, List, ◌∷◌, map, arith, sym, false, Script, List-cases, inl, inr,
  next_reply, later_replies,
}
use distributed_nestjs_event.External.Repository.{
  insert_all, IsInserted, insert_all-IsInserted, get-insert_all_old,
}
use distributed_nestjs_event.Seats.Types.{Platform, State, SeatInventory}
use distributed_nestjs_event.Seats.Inventory.{of_event}
use distributed_nestjs_event.Seats.Opening.{
  EventSeat, EventCreateMessage, in_value, bare, new_seat, seat_with_id, create_from_event,
  handle_event_create, repeats, message_seats,
}

module _ (P : Platform) where
  open P use {seats}

  -- Where a row of the event is there, nothing is inserted.
  create_from_event-again :
      (m : EventCreateMessage) (i : ℕ) (row : SeatInventory) (s : State P) (r : Script)
      → seats.get i s.db.inventory ≡ some row
      → row.event_id ≡ m.event_id
      → (create_from_event P m s r).1.db ≡ s.db
  unfolding create_from_event
  create_from_event-again m i row s r there mine =
      elim (List-cases (seats.find (of_event m.event_id) s.db.inventory)) [
        | inl n ↦
            absurd (
              ground (arith, there, mine, n, seats.get-find i (of_event m.event_id) s.db.inventory))
        | inr (x, xs, n) ↦ ground (arith, n)
      ]

  -- One of the inserted rows, where there is one.
  first_inserted :
      (r : SeatInventory) (rest rs : List SeatInventory) (ids : List ℕ) (old new : seats.Table)
      → rs ≡ r ∷ rest
      → IsInserted seats seat_with_id rs ids old new
      → (i : ℕ) × (seats.get i new ≡ some (seat_with_id i r))
  first_inserted r rest [] ids old new e h = absurd (ground (arith, e))
  first_inserted r rest (y ∷ ys) [] old new e h = absurd h
  first_inserted r rest (y ∷ ys) (i ∷ ids) old new e h = (i, ground (arith, e, h.1))

  -- The rows that the first delivery inserts, and their ids.
  abbrev pub opened_rows : EventCreateMessage → List SeatInventory
  opened_rows m = map (new_seat m.event_id) m.seats

  abbrev pub opened_ids : EventCreateMessage → State P → List ℕ
  opened_ids m s = (insert_all seats seat_with_id (opened_rows m) s.db.inventory).0

  create_from_event-inventory :
      (m : EventCreateMessage) (s : State P)
      → seats.find (of_event m.event_id) s.db.inventory ≡ []
      → repeats (message_seats m) ≡ false
      → (create_from_event P m s []).1.db.inventory
        ≡ (insert_all seats seat_with_id (opened_rows m) s.db.inventory).1
  unfolding create_from_event next_reply later_replies
  create_from_event-inventory m s n once = ground (arith, n, once)

  pub create_from_event-IsInserted :
      (m : EventCreateMessage) (s : State P)
      → seats.find (of_event m.event_id) s.db.inventory ≡ []
      → repeats (message_seats m) ≡ false
      → IsInserted seats seat_with_id
          (opened_rows m)
          (opened_ids m s)
          s.db.inventory
          (create_from_event P m s []).1.db.inventory
  create_from_event-IsInserted m s n once =
      rw (create_from_event-inventory m s n once)
        (insert_all-IsInserted seats seat_with_id (opened_rows m) s.db.inventory (λ i y. refl))

  -- The first delivery of the message of an event that no row is of, where the message has no seat
  -- twice and every call answers, inserts a row for each seat of the message under a key of its own, available and with the seat's
  -- data, and leaves the other rows alone. Where the message has a seat, a later delivery, in a `value`
  -- or bare, changes nothing, however its calls end.
  pub handle_event_create-Opened :
      (m again : EventCreateMessage) (x : EventSeat) (xs : List EventSeat) (j : ℕ)
      (row : SeatInventory) (s : State P) (r : Script)
      → seats.find (of_event m.event_id) s.db.inventory ≡ []
      → repeats (message_seats m) ≡ false
      → m.seats ≡ x ∷ xs
      → again.event_id ≡ m.event_id
      → seats.get j s.db.inventory ≡ some row
      → let s' = (handle_event_create P (in_value m) s []).1 in
        IsInserted seats seat_with_id
          (opened_rows m)
          (opened_ids m s)
          s.db.inventory
          s'.db.inventory
        × (seats.get j s'.db.inventory ≡ some row)
        × ((handle_event_create P (in_value again) s' r).1.db ≡ s'.db)
        × ((handle_event_create P (bare again) s' r).1.db ≡ s'.db)
  unfolding handle_event_create
  handle_event_create-Opened m again x xs j row s r n once e same old =
      let s' = (create_from_event P m s []).1 in
      let new = create_from_event-inventory m s n once in
      let inserted = create_from_event-IsInserted m s n once in
      let first =
        first_inserted (new_seat m.event_id x) (map (new_seat m.event_id) xs) (opened_rows m)
          (opened_ids m s) s.db.inventory s'.db.inventory (rw e refl) inserted in
      let unchanged =
        create_from_event-again again first.0 (seat_with_id first.0 (new_seat m.event_id x)) s' r
          first.1 (sym same) in
      (
        inserted,
        rw new (
            get-insert_all_old seats seat_with_id (opened_rows m) s.db.inventory j row (λ i y. refl)
              old),
        unchanged,
        unchanged,
      )
