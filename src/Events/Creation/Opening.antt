-- ===== src/Events/Creation/Opening.antt =====
-- A new event in the seat inventory: the message of `EventService.create` as
-- `InventoryConsumer.handleEventCreate` (apps/seat-inventory-service/src/inventory) takes it.
use distributed_nestjs_event.Base.{
  ℕ, ◌≡◌, refl, some, List, [], ◌∷◌, map, length, arith, ok, Script, false, Action, pure,
}
use distributed_nestjs_event.External.Repository.{Repository, insert_all, IsInserted}
use distributed_nestjs_event.Seats.Types.{SeatInventory}
use distributed_nestjs_event.Seats.Types
use distributed_nestjs_event.Seats.Inventory.{of_event}
use distributed_nestjs_event.Seats.Opening.{
  EventSeat, EventCreateMessage, new_seat, seat_with_id, bare, handle_event_create, repeats,
  message_seats,
}
use distributed_nestjs_event.Seats.Opening.Once.{
  opened_rows, opened_ids, create_from_event-IsInserted,
}
use distributed_nestjs_event.Events.Types.{Platform, State, Venue, Event, CreateEventDto}
use distributed_nestjs_event.Events.Venues.Capacity.{Counted}
use distributed_nestjs_event.Events.Creation.{message_of, create_event}
use distributed_nestjs_event.Events.Creation.Seating.{offered, AllPriced, create_event-seats}

length-insert_all :
    {Row : Type 0} {key : Row → ℕ} (R : Repository Row key) (with_id : ℕ → Row → Row)
    (rs : List Row) (t : R.Table)
    → length (insert_all R with_id rs t).0 ≡ length rs
unfolding insert_all
length-insert_all R with_id [] t = refl
length-insert_all R with_id (r ∷ rs) t =
    ground (arith, length-insert_all R with_id rs (R.save (with_id (R.fresh t) r) t))

length-new_seats : (event : ℕ) (xs : List EventSeat) → length (map (new_seat event) xs) ≡ length xs
length-new_seats event [] = refl
length-new_seats event (x ∷ xs) = ground (arith, length-new_seats event xs)

module _ (P : Platform) (Q : Types.Platform) where
  open P use {venues}
  open Q use {seats}

  -- The last message that has been emitted is delivered, if there is one.
  abbrev pub deliver_last : List EventCreateMessage → Action (Types.State Q) (Unit {0})
  deliver_last [] = pure tt
  deliver_last (m ∷ ms) = handle_event_create Q (bare m)

  deliver_last-emitted :
      (m : EventCreateMessage) (all old : List EventCreateMessage) (t : Types.State Q)
      → all ≡ m ∷ old
      → deliver_last all t [] ≡ handle_event_create Q (bare m) t []
  deliver_last-emitted m all old t e = rw e refl

  -- What an event becomes in the inventory: where its creation succeeds at a venue whose capacities
  -- are true, one message is emitted; where no two of its seats have the same id and the seat service,
  -- which has no row of the event, takes it with every call answering, one row is inserted for each
  -- seat of a section with a ticket type, as many as the capacities of these sections say, each
  -- available and with the id and the price of the first ticket type of its section.
  pub create_event-handle_event_create :
      (dto : CreateEventDto) (venue : Venue) (event : Event) (s : State P) (r : Script)
      (t : Types.State Q)
      → venues.get dto.venue_id s.venue_rows ≡ some venue
      → Counted venue.sections
      → (create_event P dto s r).0 ≡ ok event
      → seats.find (of_event event.id) t.db.inventory ≡ []
      → repeats (message_seats (message_of P venue event)) ≡ false
      → let m = message_of P venue event in
        let s' = (create_event P dto s r).1 in
        let t' = (deliver_last s'.emitted t []).1 in
        (s'.emitted ≡ m ∷ s.emitted)
        × IsInserted seats seat_with_id
            (opened_rows Q m)
            (opened_ids Q m t)
            t.db.inventory
            t'.db.inventory
        × (length (opened_ids Q m t) ≡ offered event.ticket_types venue.sections)
        × AllPriced event.ticket_types m.seats
  unfolding handle_event_create
  create_event-handle_event_create dto venue event s r t there counted e n once =
      let m = message_of P venue event in
      let sent = create_event-seats P dto venue event s r there counted e in
      (
        sent.0,
        rw (deliver_last-emitted m (create_event P dto s r).1.emitted s.emitted t sent.0)
            (create_from_event-IsInserted Q m t n once),
        ground (
          arith,
          length-insert_all seats seat_with_id (opened_rows Q m) t.db.inventory,
          length-new_seats event.id m.seats,
          sent.2,
        ),
        sent.3,
      )
