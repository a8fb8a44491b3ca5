-- ===== src/Events/Venues.antt =====
-- `VenueService` (apps/event-service/src/venue/venue.service.ts).
pub mod Capacity
use distributed_nestjs_event.Base.{
  ℕ, suc, ◌+◌, Option, none, some, List, [], ◌∷◌, length, Action, pure, throw, gets, query, write,
  ◌>>=◌, ◌>>◌, venue_not_found,
}
use distributed_nestjs_event.Events.Types.{
  Platform, State, Row, Section, Venue, CreateSectionDto, CreateVenueDto,
}

-- `x ?? y`
abbrev pub or_default : Option ℕ → ℕ → ℕ
or_default none y = y
or_default (some x) y = x

-- `rows.reduce((total, row) => total + row.seats.length, total)`
unfoldable pub seats_from : ℕ → List Row → ℕ
seats_from total [] = total
seats_from total (r ∷ rs) = seats_from (total + length r.seats) rs

-- `sections.reduce(…, total)`
unfoldable pub capacity_from : ℕ → List CreateSectionDto → ℕ
capacity_from total [] = total
capacity_from total (x ∷ xs) = capacity_from (total + seats_from 0 x.rows) xs

module _ (P : Platform) where
  open P use {venues, object_id}

  -- `sections.map((section, index) => …)`, with the ids of the subdocuments from the k-th on
  unfoldable pub new_sections : ℕ → ℕ → List CreateSectionDto → List Section
  new_sections k index [] = []
  new_sections k index (x ∷ xs) =
      record {
        id = object_id k;
        name = x.name;
        capacity = seats_from 0 x.rows;
        sort_order = or_default x.sort_order index;
        rows = x.rows;
      }
      ∷ new_sections (suc k) (suc index) xs

  -- `new this.venueModel({ … })`
  abbrev pub new_venue : ℕ → ℕ → CreateVenueDto → Venue
  new_venue i k dto = record {
    id = i;
    name = dto.name;
    address = dto.address;
    city = dto.city;
    country = dto.country;
    latitude = dto.latitude;
    longitude = dto.longitude;
    total_capacity = capacity_from 0 dto.sections;
    venue_map_url = dto.venue_map_url;
    sections = new_sections k 0 dto.sections;
  }

  unfoldable pub create_venue : CreateVenueDto → Action (State P) Venue
  create_venue dto = gets (λ s. new_venue (venues.fresh s.venue_rows) s.made dto) >>= λ venue.
      write (λ s. record s {
        venue_rows = venues.save venue s.venue_rows;
        made = s.made + length dto.sections;
      })
      >> pure venue

  abbrev pub venue_or_throw : Option Venue → Action (State P) Venue
  venue_or_throw none = throw venue_not_found
  venue_or_throw (some v) = pure v

  unfoldable pub find_venue : ℕ → Action (State P) Venue
  find_venue id = query (λ s. venues.get id s.venue_rows) >>= venue_or_throw

  abbrev pub get_layout : ℕ → Action (State P) Venue
  get_layout id = find_venue id
