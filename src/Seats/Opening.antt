-- ===== src/Seats/Opening.antt =====
-- The opening of an event: `createFromEvent`
-- (apps/seat-inventory-service/src/inventory/inventory.service.ts) and the consumer of its topic
-- (inventory/inventory.consumer.ts). The message is EventCreateMessage of libs/common.
pub mod Once
use distributed_nestjs_event.Base.{
  ℕ, Bool, true, false, Option, none, List, [], ◌∷◌, map, includes, if◌then◌else◌, Action, pure,
  query, call, throw_if, modify, rejected_call, ◌>>=◌, ◌>>◌,
}
use distributed_nestjs_event.External.Repository.{insert_all}
use distributed_nestjs_event.Seats.Types.{Platform, State, SeatInventory, available}
use distributed_nestjs_event.Seats.Transactions.{set_inventory}
use distributed_nestjs_event.Seats.Inventory.{of_event}
use distributed_nestjs_event.Seats.ReadModel.{is_nil}

pub record EventSeat : Type 0 where
  pub seat_id : ℕ
  pub section_id : ℕ
  pub section_name : ℕ
  pub ticket_type_id : ℕ
  pub ticket_type_name : ℕ
  pub price : ℕ
  pub currency : ℕ
  pub row : ℕ
  pub number : ℕ
  pub type : ℕ

pub record EventCreateMessage : Type 0 where
  pub event_id : ℕ
  pub venue_id : Option ℕ
  pub venue_name : Option ℕ
  pub title : Option ℕ
  pub starts_at : Option ℕ
  pub seats : List EventSeat

-- `repo.create({ … })`; the insert replaces the id
abbrev pub new_seat : ℕ → EventSeat → SeatInventory
new_seat event x = record {
  id = 0;
  event_id = event;
  seat_id = x.seat_id;
  section_id = x.section_id;
  section_name = x.section_name;
  ticket_type_id = x.ticket_type_id;
  ticket_type_name = x.ticket_type_name;
  price = x.price;
  currency = x.currency;
  row = x.row;
  seat_number = x.number;
  seat_type = x.type;
  status = available;
  price_override = none;
  version = 1;
}

abbrev pub seat_with_id : ℕ → SeatInventory → SeatInventory
seat_with_id i x = record x { id = i }

-- Whether a seat occurs twice.
unfoldable pub repeats : List ℕ → Bool
repeats [] = false
repeats (x ∷ xs) = let rest = repeats xs in if includes xs x then true else rest

abbrev pub message_seats : EventCreateMessage → List ℕ
message_seats m = map (λ x. x.seat_id) m.seats

-- What arrives on the topic `event.create`: nothing, the message in a `value`, or the message
-- itself; the message may lack its `eventId`.
pub data Payload : Type 0 where
  no_payload unidentified : Payload
  in_value bare : EventCreateMessage → Payload

module _ (P : Platform) where
  open P use {seats}

  -- `repo.save(entities)`, one transaction: the unique index of the table on the event and the seat
  -- rejects it where two of the rows, all of an event that has none yet, have the same seat.
  abbrev pub save_entities : EventCreateMessage → Action (State P) (Unit {0})
  save_entities m =
      call
      >> (throw_if (repeats (message_seats m)) rejected_call
          >> modify (λ s. record s {
            db =
                set_inventory P
                  (insert_all seats seat_with_id (map (new_seat m.event_id) m.seats)
                    s.db.inventory).1
                  s.db;
          }))

  unfoldable pub create_from_event : EventCreateMessage → Action (State P) (Unit {0})
  create_from_event m = query (λ s. seats.find (of_event m.event_id) s.db.inventory) >>= λ existing.
      elim (is_nil existing) [ false ↦ pure tt | true ↦ save_entities m ]

  unfoldable pub handle_event_create : Payload → Action (State P) (Unit {0})
  handle_event_create no_payload = pure tt
  handle_event_create unidentified = pure tt
  handle_event_create (in_value m) = create_from_event m
  handle_event_create (bare m) = create_from_event m
