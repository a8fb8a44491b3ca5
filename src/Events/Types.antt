-- ===== src/Events/Types.antt =====
-- The documents and the dtos of the event service: venue/schemas/venue.schema.ts,
-- venue/dtos/create-venue.dto.ts, event/schema/event.schema.ts, event/dto/create-event.dto.ts.
use distributed_nestjs_event.Base.{ℕ, Option, List}
use distributed_nestjs_event.External.Repository.{Repository}
use distributed_nestjs_event.Seats.Opening.{EventCreateMessage}

pub data SeatType : Type 0 where
  standard vip wheelchair restricted_view : SeatType

pub data EventStatus : Type 0 where
  draft published cancelled completed : EventStatus

-- `SeatDefinition` and `CreateSeatDto`
pub record SeatDefinition : Type 0 where
  pub number : ℕ
  pub type : SeatType
  pub x : ℕ
  pub y : ℕ

-- `Row` and `CreateRowDto`
pub record Row : Type 0 where
  pub label : ℕ
  pub seats : List SeatDefinition

pub record Section : Type 0 where
  pub id : ℕ
  pub name : ℕ
  pub capacity : ℕ
  pub sort_order : ℕ
  pub rows : List Row

pub record Venue : Type 0 where
  pub id : ℕ
  pub name : ℕ
  pub address : Option ℕ
  pub city : Option ℕ
  pub country : Option ℕ
  pub latitude : Option ℕ
  pub longitude : Option ℕ
  pub total_capacity : ℕ
  pub venue_map_url : Option ℕ
  pub sections : List Section

pub record CreateSectionDto : Type 0 where
  pub name : ℕ
  pub capacity : Option ℕ
  pub sort_order : Option ℕ
  pub rows : List Row

pub record CreateVenueDto : Type 0 where
  pub name : ℕ
  pub address : Option ℕ
  pub city : Option ℕ
  pub country : Option ℕ
  pub latitude : Option ℕ
  pub longitude : Option ℕ
  pub venue_map_url : Option ℕ
  pub sections : List CreateSectionDto

pub record TicketType : Type 0 where
  pub id : ℕ
  pub section_id : ℕ
  pub name : ℕ
  pub price : ℕ
  pub currency : ℕ
  pub max_per_order : ℕ
  pub sales_start_at : Option ℕ
  pub sales_end_at : Option ℕ

pub record Event : Type 0 where
  pub id : ℕ
  pub organizer_id : ℕ
  pub venue_id : ℕ
  pub title : ℕ
  pub description : Option ℕ
  pub status : EventStatus
  pub starts_at : ℕ
  pub ends_at : Option ℕ
  pub doors_open_at : Option ℕ
  pub sale_starts_at : Option ℕ
  pub sale_ends_at : Option ℕ
  pub ticket_types : List TicketType
  pub metadata : Option ℕ

pub record CreateTicketTypeDto : Type 0 where
  pub section_id : ℕ
  pub name : ℕ
  pub price : ℕ
  pub currency : Option ℕ
  pub max_per_order : Option ℕ
  pub sales_start_at : Option ℕ
  pub sales_end_at : Option ℕ

pub record CreateEventDto : Type 0 where
  pub organizer_id : ℕ
  pub venue_id : ℕ
  pub title : ℕ
  pub category : Option ℕ
  pub description : Option ℕ
  pub status : Option EventStatus
  pub starts_at : ℕ
  pub ends_at : Option ℕ
  pub doors_open_at : Option ℕ
  pub sale_starts_at : Option ℕ
  pub sale_ends_at : Option ℕ
  pub ticket_types : List CreateTicketTypeDto
  pub metadata : Option ℕ

abbrev pub venue_key : Venue → ℕ
venue_key v = v.id

abbrev pub event_key : Event → ℕ
event_key e = e.id

-- The collections, the ids of the subdocuments by the number of those made before, and the text
-- `${section}_${row}_${seat}`.
pub record Platform : Type 1 where
  pub venues : Repository Venue venue_key
  pub events : Repository Event event_key
  pub object_id : ℕ → ℕ
  pub seat_id : ℕ → ℕ → ℕ → ℕ

module _ (P : Platform) where
  open P use {venues, events}

  -- `made` counts the subdocuments, and `emitted` holds the messages, the last one first.
  pub record State : Type 0 where
    pub venue_rows : venues.Table
    pub event_rows : events.Table
    pub made : ℕ
    pub emitted : List EventCreateMessage
