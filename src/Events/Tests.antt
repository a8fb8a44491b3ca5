-- ===== src/Events/Tests.antt =====
-- Runs of the event service and the theorems at them.
use distributed_nestjs_event.Base.{
  [], ℕ, ◌+◌, ◌*◌, ◌≡◌, refl, false, includes, none, some, List, ◌∷◌, map, length, ok, next_reply,
  later_replies, arith,
}
use distributed_nestjs_event.External.Memory.{memory_repository}
use distributed_nestjs_event.External.Repository.{IsInserted}
use distributed_nestjs_event.Seats.Fixture
use distributed_nestjs_event.Seats.Opening.{seat_with_id, repeats, message_seats}
use distributed_nestjs_event.Seats.Opening.Once.{opened_rows, opened_ids}
use distributed_nestjs_event.Events.Types.{
  Platform, State, standard, SeatDefinition, CreateSectionDto, CreateVenueDto, Venue, Event,
  CreateTicketTypeDto, CreateEventDto, venue_key, event_key,
}
use distributed_nestjs_event.Events.Venues.{
  seats_from, new_sections, new_venue, create_venue, find_venue,
}
use distributed_nestjs_event.Events.Venues.Capacity.{
  seats_in, Counted, total_of, create_venue-find_venue,
}
use distributed_nestjs_event.Events.Creation.{
  check_sections, new_event, some_lacks_currency, save_event, message_of, create_event, seats_of,
  row_seats, ticket_for, new_ticket_types,
}
use distributed_nestjs_event.Events.Creation.Seating.{offered, AllPriced}
use distributed_nestjs_event.Events.Creation.Opening.{
  deliver_last, create_event-handle_event_create,
}

abbrev platform : Platform
platform = record {
  venues = memory_repository venue_key;
  events = memory_repository event_key;
  object_id = λ k. k + 500;
  seat_id = λ section row number. section * 10000 + row * 100 + number;
}

abbrev chair : ℕ → SeatDefinition
chair n = record { number = n; type = standard; x = n; y = 0 }

abbrev section_dto : ℕ → List SeatDefinition → CreateSectionDto
section_dto name xs = record {
  name = name;
  capacity = some 70;
  sort_order = none;
  rows = record { label = 1; seats = xs } ∷ record { label = 2; seats = chair 9 ∷ [] } ∷ [];
}

abbrev hall_dto : CreateVenueDto
hall_dto = record {
  name = 3;
  address = none;
  city = some 34;
  country = none;
  latitude = none;
  longitude = none;
  venue_map_url = none;
  sections = section_dto 1 (chair 1 ∷ chair 2 ∷ []) ∷ section_dto 2 (chair 1 ∷ []) ∷ [];
}

abbrev start : State platform
start = record {
  venue_rows = record { bound = 0; cell = λ i. none };
  event_rows = record { bound = 0; cell = λ i. none };
  made = 0;
  emitted = [];
}

abbrev hall : Venue
hall = new_venue platform 0 0 hall_dto

create_venue-find_venue_example :
    let (a, s', r') = create_venue platform hall_dto start [] in
    (a ≡ ok hall)
    × ((find_venue platform 0 s' []).0 ≡ ok hall)
    × Counted hall.sections
    × (hall.total_capacity ≡ total_of hall.sections)
create_venue-find_venue_example = create_venue-find_venue platform hall_dto start

abbrev with_hall : State platform
with_hall = (create_venue platform hall_dto start []).1

abbrev ticket_dto : ℕ → CreateTicketTypeDto
ticket_dto section = record {
  section_id = section;
  name = 8;
  price = 4500;
  currency = some 1;
  max_per_order = none;
  sales_start_at = none;
  sales_end_at = none;
}

abbrev concert_dto : ℕ → CreateEventDto
concert_dto section = record {
  organizer_id = 2;
  venue_id = 0;
  title = 6;
  category = none;
  description = none;
  status = none;
  starts_at = 90000;
  ends_at = none;
  doors_open_at = none;
  sale_starts_at = none;
  sale_ends_at = none;
  ticket_types = ticket_dto section ∷ [];
  metadata = none;
}

abbrev concert : Event
concert = new_event platform 0 2 (concert_dto 501)

hall_there : platform.venues.get 0 with_hall.venue_rows ≡ some hall
unfolding create_venue next_reply later_replies
hall_there = refl

hall-Counted : Counted hall.sections
unfolding new_sections seats_from seats_in
hall-Counted = (refl, (refl, tt))

concert_made : (create_event platform (concert_dto 501) with_hall []).0 ≡ ok concert
unfolding create_event find_venue check_sections save_event some_lacks_currency create_venue
    new_sections next_reply later_replies
concert_made = refl

concert_once : repeats (message_seats (message_of platform hall concert)) ≡ false
unfolding repeats seats_of row_seats ticket_for new_ticket_types create_venue new_sections
    next_reply later_replies
concert_once = refl

create_event-handle_event_create_example :
    let m = message_of platform hall concert in
    let s' = (create_event platform (concert_dto 501) with_hall []).1 in
    let t' = (deliver_last platform Fixture.platform s'.emitted Fixture.opening []).1 in
    (s'.emitted ≡ m ∷ with_hall.emitted)
    × IsInserted Fixture.platform.seats seat_with_id
        (opened_rows Fixture.platform m)
        (opened_ids Fixture.platform m Fixture.opening)
        Fixture.opening.db.inventory
        t'.db.inventory
    × (length (opened_ids Fixture.platform m Fixture.opening)
        ≡ offered concert.ticket_types hall.sections)
    × AllPriced concert.ticket_types m.seats
create_event-handle_event_create_example =
    create_event-handle_event_create platform Fixture.platform (concert_dto 501) hall concert
      with_hall [] Fixture.opening hall_there hall-Counted concert_made refl concert_once

no_section :
    (venue : Venue)
    → platform.venues.get 0 with_hall.venue_rows ≡ some venue
    → includes (map (λ y. y.id) venue.sections) 777 ≡ false
unfolding create_venue new_sections next_reply later_replies
no_section venue e = ground (arith, e)
