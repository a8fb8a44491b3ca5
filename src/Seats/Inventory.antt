-- ===== src/Seats/Inventory.antt =====
-- `InventoryService` (apps/seat-inventory-service/src/inventory/inventory.service.ts): the rows of
-- the seats.
use distributed_nestjs_event.Base.{
  ℕ, Bool, List, Action, query, write, ◌>>=◌, ◌>>◌, ◌==◌, ◌&&◌, map, includes,
}
use distributed_nestjs_event.External.Repository.{save_all}
use distributed_nestjs_event.Seats.Types.{
  Platform, State, SeatInventory, SeatStatus, available, is_available,
}
use distributed_nestjs_event.Seats.Transactions.{set_inventory}
use distributed_nestjs_event.Seats.Availability.{updates_to, update_multiple_seats_status}

-- `where: { eventId }`, `where: { eventId, status }` and `where: { eventId, seatId: In(seatIds) }`
abbrev pub of_event : ℕ → SeatInventory → Bool
of_event event inv = inv.event_id == event

abbrev pub of_event_available : ℕ → SeatInventory → Bool
of_event_available event inv = inv.event_id == event && is_available inv.status

abbrev pub of_seats : ℕ → List ℕ → SeatInventory → Bool
of_seats event seat_ids inv = inv.event_id == event && includes seat_ids inv.seat_id

-- `inv.status = status`
abbrev pub with_status : SeatStatus → SeatInventory → SeatInventory
with_status status inv = record inv { status = status }

module _ (P : Platform) where
  open P use {seats}

  abbrev pub find_by_event_id : ℕ → Action (State P) (List SeatInventory)
  find_by_event_id event = query (λ s. seats.find (of_event event) s.db.inventory)

  abbrev pub get_availability : ℕ → Action (State P) (List SeatInventory)
  get_availability event = query (λ s. seats.find (of_event_available event) s.db.inventory)

  abbrev pub find_by_seat_ids : ℕ → List ℕ → Action (State P) (List SeatInventory)
  find_by_seat_ids event seat_ids = query (λ s. seats.find (of_seats event seat_ids) s.db.inventory)

  unfoldable pub update_status : ℕ → List ℕ → SeatStatus → Action (State P) (Unit {0})
  update_status event seat_ids status =
      write (λ s. record s {
        db =
            set_inventory P
              (seats.update (of_seats event seat_ids) (with_status status) s.db.inventory) s.db;
      })
      >> update_multiple_seats_status P event (updates_to status seat_ids)

  -- `relaseSoldSeats`
  unfoldable pub release_sold_seats : ℕ → List ℕ → Action (State P) (Unit {0})
  release_sold_seats event seat_ids = find_by_seat_ids event seat_ids >>= λ inventories.
      write (λ s. record s {
        db =
            set_inventory P
              (save_all seats (map (with_status available) inventories) s.db.inventory) s.db;
      })
      >> update_multiple_seats_status P event (updates_to available seat_ids)
