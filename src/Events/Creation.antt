-- ===== src/Events/Creation.antt =====
-- `EventService` (apps/event-service/src/event/event.service.ts).
pub mod Seating
pub mod Guards
pub mod Opening
use distributed_nestjs_event.Base.{
  ℕ, suc, ◌+◌, Bool, true, false, not, Option, none, some, List, [], ◌∷◌, ◌++◌, map, length,
  includes, ◌==◌, if◌then◌else◌, Action, pure, throw, throw_if, gets, modify, query, write, ◌>>=◌,
  ◌>>◌, section_not_found, event_not_found, validation_failed,
}
use distributed_nestjs_event.Seats.Opening.{EventSeat, EventCreateMessage}
use distributed_nestjs_event.Events.Types.{
  Platform, State, SeatType, standard, vip, wheelchair, restricted_view, EventStatus, draft,
  SeatDefinition, Row, Section, Venue, TicketType, Event, CreateTicketTypeDto, CreateEventDto,
}
use distributed_nestjs_event.Events.Venues.{find_venue, or_default}

-- the strings of `SeatType`, as numbers
abbrev pub type_text : SeatType → ℕ
type_text standard = 0
type_text vip = 1
type_text wheelchair = 2
type_text restricted_view = 3

abbrev pub status_or_draft : Option EventStatus → EventStatus
status_or_draft none = draft
status_or_draft (some x) = x

-- `ticketTypes.find((ticket) => ticket.sectionId === section)`
unfoldable pub ticket_for : ℕ → List TicketType → Option TicketType
ticket_for section [] = none
ticket_for section (t ∷ ts) =
    let rest = ticket_for section ts in if t.section_id == section then some t else rest

-- `currency` is required by the schema and optional in the dto
abbrev pub lacks_currency : CreateTicketTypeDto → Bool
lacks_currency x = elim x.currency [ none ↦ true | some c ↦ false ]

unfoldable pub some_lacks_currency : List CreateTicketTypeDto → Bool
some_lacks_currency [] = false
some_lacks_currency (x ∷ xs) = if lacks_currency x then true else some_lacks_currency xs

module _ (P : Platform) where
  open P use {events, object_id, seat_id}

  -- the loop over `createEventDto.ticketTypes`
  unfoldable pub check_sections : List ℕ → List CreateTicketTypeDto → Action (State P) (Unit {0})
  check_sections ids [] = pure tt
  check_sections ids (x ∷ xs) =
      throw_if (not (includes ids x.section_id)) (section_not_found x.section_id)
      >> check_sections ids xs

  unfoldable pub new_ticket_types : ℕ → List CreateTicketTypeDto → List TicketType
  new_ticket_types k [] = []
  new_ticket_types k (x ∷ xs) =
      record {
        id = object_id k;
        section_id = x.section_id;
        name = x.name;
        price = x.price;
        currency = or_default x.currency 0;
        max_per_order = or_default x.max_per_order 10;
        sales_start_at = x.sales_start_at;
        sales_end_at = x.sales_end_at;
      }
      ∷ new_ticket_types (suc k) xs

  -- `new this.eventModel(createEventDto)`
  abbrev pub new_event : ℕ → ℕ → CreateEventDto → Event
  new_event i k dto = record {
    id = i;
    organizer_id = dto.organizer_id;
    venue_id = dto.venue_id;
    title = dto.title;
    description = dto.description;
    status = status_or_draft dto.status;
    starts_at = dto.starts_at;
    ends_at = dto.ends_at;
    doors_open_at = dto.doors_open_at;
    sale_starts_at = dto.sale_starts_at;
    sale_ends_at = dto.sale_ends_at;
    ticket_types = new_ticket_types k dto.ticket_types;
    metadata = dto.metadata;
  }

  -- `event.save()`, which validates the document before it writes
  unfoldable pub save_event : CreateEventDto → Action (State P) Event
  save_event dto =
      throw_if (some_lacks_currency dto.ticket_types) validation_failed
      >> (gets (λ s. new_event (events.fresh s.event_rows) s.made dto) >>= λ event.
          write (λ s. record s {
            event_rows = events.save event s.event_rows;
            made = s.made + length dto.ticket_types;
          })
          >> pure event)

  -- the argument of `seats.push`
  abbrev pub seat_of : Section → TicketType → Row → SeatDefinition → EventSeat
  seat_of section t row seat = record {
    seat_id = seat_id section.id row.label seat.number;
    section_id = section.id;
    section_name = section.name;
    ticket_type_id = t.id;
    ticket_type_name = t.name;
    price = t.price;
    currency = t.currency;
    row = row.label;
    number = seat.number;
    type = type_text seat.type;
  }

  unfoldable pub row_seats : Section → TicketType → List Row → List EventSeat
  row_seats section t [] = []
  row_seats section t (r ∷ rs) = map (seat_of section t r) r.seats ++ row_seats section t rs

  abbrev pub section_seats : Section → Option TicketType → List EventSeat
  section_seats section none = []
  section_seats section (some t) = row_seats section t section.rows

  -- the loop over `venue.sections`
  unfoldable pub seats_of : List TicketType → List Section → List EventSeat
  seats_of ts [] = []
  seats_of ts (x ∷ xs) = section_seats x (ticket_for x.id ts) ++ seats_of ts xs

  abbrev pub message_of : Venue → Event → EventCreateMessage
  message_of venue event = record {
    event_id = event.id;
    venue_id = some venue.id;
    venue_name = some venue.name;
    title = some event.title;
    starts_at = some event.starts_at;
    seats = seats_of event.ticket_types venue.sections;
  }

  -- `kafkaClient.emit('event.create', …)`, which is not awaited
  abbrev pub emit : EventCreateMessage → Action (State P) (Unit {0})
  emit m = modify (λ s. record s { emitted = m ∷ s.emitted })

  unfoldable pub create_event : CreateEventDto → Action (State P) Event
  create_event dto = find_venue P dto.venue_id >>= λ venue.
      check_sections (map (λ x. x.id) venue.sections) dto.ticket_types
      >> (save_event dto >>= λ saved. emit (message_of venue saved) >> pure saved)

  abbrev pub event_or_throw : Option Event → Action (State P) Event
  event_or_throw none = throw event_not_found
  event_or_throw (some e) = pure e

  unfoldable pub find_event : ℕ → Action (State P) Event
  find_event id = query (λ s. events.get id s.event_rows) >>= event_or_throw
