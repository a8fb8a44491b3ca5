-- ===== src/Events/Venues/Capacity.antt =====
-- The capacities of a venue count its seats.
use distributed_nestjs_event.Base.{
  [], ℕ, suc, ◌+◌, ◌≡◌, refl, List, ◌∷◌, ◌++◌, length, arith, ok, next_reply, later_replies,
}
use distributed_nestjs_event.Events.Types.{
  Platform, State, SeatDefinition, Row, Section, CreateSectionDto, CreateVenueDto,
}
use distributed_nestjs_event.Events.Venues.{
  seats_from, capacity_from, new_sections, new_venue, create_venue, find_venue,
}

pub length-++ {ℓ} : {A : Type ℓ} (xs ys : List A) → length (xs ++ ys) ≡ length xs + length ys
length-++ [] ys = ground arith
length-++ (x ∷ xs) ys = ground (arith, length-++ xs ys)

-- The seats of the rows, in order.
unfoldable pub seats_in : List Row → List SeatDefinition
seats_in [] = []
seats_in (r ∷ rs) = r.seats ++ seats_in rs

seats_from-length : (n : ℕ) (rs : List Row) → seats_from n rs ≡ n + length (seats_in rs)
unfolding seats_from seats_in
seats_from-length n [] = omega arith
seats_from-length n (r ∷ rs) =
    omega (arith, seats_from-length (n + length r.seats) rs, length-++ r.seats (seats_in rs))

-- Each section's capacity is the number of its seats.
abbrev pub Counted : List Section → Type 0
Counted [] = Unit
Counted (x ∷ xs) = (x.capacity ≡ length (seats_in x.rows)) × Counted xs

unfoldable pub total_of : List Section → ℕ
total_of [] = 0
total_of (x ∷ xs) = x.capacity + total_of xs

module _ (P : Platform) where
  open P use {venues}

  new_sections-Counted :
      (k index : ℕ) (xs : List CreateSectionDto) → Counted (new_sections P k index xs)
  unfolding new_sections
  new_sections-Counted k index [] = tt
  new_sections-Counted k index (x ∷ xs) =
      (omega (arith, seats_from-length 0 x.rows), new_sections-Counted (suc k) (suc index) xs)

  capacity_from-total :
      (n k index : ℕ) (xs : List CreateSectionDto)
      → capacity_from n xs ≡ n + total_of (new_sections P k index xs)
  unfolding capacity_from new_sections total_of
  capacity_from-total n k index [] = omega arith
  capacity_from-total n k index (x ∷ xs) =
      omega (arith, capacity_from-total (n + seats_from 0 x.rows) (suc k) (suc index) xs)

  -- A venue that is created can be read back, and its capacities are true: with every call
  -- answering, the new venue is returned and found by its id, each section's capacity is the number
  -- of the seats of its rows, and the total is the sum of the capacities, whatever capacities the
  -- dto gives.
  pub create_venue-find_venue :
      (dto : CreateVenueDto) (s : State P)
      → let (a, s', r') = create_venue P dto s [] in
        let venue = new_venue P (venues.fresh s.venue_rows) s.made dto in
        (a ≡ ok venue)
        × ((find_venue P venue.id s' []).0 ≡ ok venue)
        × Counted venue.sections
        × (venue.total_capacity ≡ total_of venue.sections)
  unfolding create_venue find_venue next_reply later_replies
  create_venue-find_venue dto s =
      let venue = new_venue P (venues.fresh s.venue_rows) s.made dto in
      (
        refl,
        ground (arith, venues.get-save venue.id venue s.venue_rows),
        new_sections-Counted s.made 0 dto.sections,
        omega (arith, capacity_from-total 0 s.made 0 dto.sections),
      )
