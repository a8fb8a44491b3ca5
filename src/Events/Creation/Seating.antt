-- ===== src/Events/Creation/Seating.antt =====
-- The seats that the message of a new event offers.
use distributed_nestjs_event.Base.{
  [], ℕ, ◌+◌, ◌≡◌, refl, Option, none, some, List, ◌∷◌, ◌++◌, map, length, arith, ok, Script,
  later_replies,
}
use distributed_nestjs_event.Seats.Opening.{EventSeat}
use distributed_nestjs_event.Events.Types.{
  Platform, State, SeatDefinition, Row, Section, Venue, TicketType, Event, CreateEventDto,
  CreateTicketTypeDto,
}
use distributed_nestjs_event.Events.Venues.{find_venue}
use distributed_nestjs_event.Events.Venues.Capacity.{seats_in, Counted, length-++}
use distributed_nestjs_event.Events.Creation.{
  ticket_for, seat_of, row_seats, section_seats, seats_of, message_of, check_sections, save_event,
  create_event, new_event,
}

-- A seat of a message has the data of the first ticket type of its section.
abbrev pub Priced : List TicketType → EventSeat → Type 0
Priced ts x =
    (t : TicketType) × (ticket_for x.section_id ts ≡ some t)
    × (x.ticket_type_id ≡ t.id)
    × (x.price ≡ t.price)
    × (x.currency ≡ t.currency)

abbrev pub AllPriced : List TicketType → List EventSeat → Type 0
AllPriced ts [] = Unit
AllPriced ts (x ∷ xs) = Priced ts x × AllPriced ts xs

AllPriced-++ :
    (ts : List TicketType) (xs ys : List EventSeat)
    → AllPriced ts xs
    → AllPriced ts ys
    → AllPriced ts (xs ++ ys)
AllPriced-++ ts [] ys h k = k
AllPriced-++ ts (x ∷ xs) ys h k = (h.0, AllPriced-++ ts xs ys h.1 k)

abbrev capacity_with : Option TicketType → ℕ → ℕ
capacity_with none n = 0
capacity_with (some t) n = n

-- The capacities of the sections with a ticket type.
unfoldable pub offered : List TicketType → List Section → ℕ
offered ts [] = 0
offered ts (x ∷ xs) = capacity_with (ticket_for x.id ts) x.capacity + offered ts xs

module _ (P : Platform) where
  open P use {venues, events}

  length-map_seat :
      (x : Section) (t : TicketType) (r : Row) (ys : List SeatDefinition)
      → length (map (seat_of P x t r) ys) ≡ length ys
  length-map_seat x t r [] = refl
  length-map_seat x t r (y ∷ ys) = ground (arith, length-map_seat x t r ys)

  length-row_seats :
      (x : Section) (t : TicketType) (rs : List Row)
      → length (row_seats P x t rs) ≡ length (seats_in rs)
  unfolding row_seats seats_in
  length-row_seats x t [] = refl
  length-row_seats x t (r ∷ rs) = ground (
    arith,
    length-++ (map (seat_of P x t r) r.seats) (row_seats P x t rs),
    length-++ r.seats (seats_in rs),
    length-map_seat x t r r.seats,
    length-row_seats x t rs,
  )

  length-section_seats :
      (x : Section) (o : Option TicketType)
      → x.capacity ≡ length (seats_in x.rows)
      → length (section_seats P x o) ≡ capacity_with o x.capacity
  length-section_seats x none h = refl
  length-section_seats x (some t) h = ground (arith, h, length-row_seats x t x.rows)

  length-seats_of :
      (ts : List TicketType) (xs : List Section)
      → Counted xs
      → length (seats_of P ts xs) ≡ offered ts xs
  unfolding seats_of offered
  length-seats_of ts [] h = refl
  length-seats_of ts (x ∷ xs) h = ground (
    arith,
    length-++ (section_seats P x (ticket_for x.id ts)) (seats_of P ts xs),
    length-section_seats x (ticket_for x.id ts) h.0,
    length-seats_of ts xs h.1,
  )

  map_seat-AllPriced :
      (ts : List TicketType) (x : Section) (t : TicketType) (r : Row) (ys : List SeatDefinition)
      → ticket_for x.id ts ≡ some t
      → AllPriced ts (map (seat_of P x t r) ys)
  map_seat-AllPriced ts x t r [] e = tt
  map_seat-AllPriced ts x t r (y ∷ ys) e =
      ((t, e, refl, refl, refl), map_seat-AllPriced ts x t r ys e)

  row_seats-AllPriced :
      (ts : List TicketType) (x : Section) (t : TicketType) (rs : List Row)
      → ticket_for x.id ts ≡ some t
      → AllPriced ts (row_seats P x t rs)
  unfolding row_seats
  row_seats-AllPriced ts x t [] e = tt
  row_seats-AllPriced ts x t (r ∷ rs) e =
      AllPriced-++ ts (map (seat_of P x t r) r.seats) (row_seats P x t rs)
        (map_seat-AllPriced ts x t r r.seats e) (row_seats-AllPriced ts x t rs e)

  section_seats-AllPriced :
      (ts : List TicketType) (x : Section) (o : Option TicketType)
      → ticket_for x.id ts ≡ o
      → AllPriced ts (section_seats P x o)
  section_seats-AllPriced ts x none e = tt
  section_seats-AllPriced ts x (some t) e = row_seats-AllPriced ts x t x.rows e

  seats_of-AllPriced : (ts : List TicketType) (xs : List Section) → AllPriced ts (seats_of P ts xs)
  unfolding seats_of
  seats_of-AllPriced ts [] = tt
  seats_of-AllPriced ts (x ∷ xs) =
      AllPriced-++ ts (section_seats P x (ticket_for x.id ts)) (seats_of P ts xs)
        (section_seats-AllPriced ts x (ticket_for x.id ts) refl) (seats_of-AllPriced ts xs)

  check_sections-state :
      (ids : List ℕ) (xs : List CreateTicketTypeDto) (s : State P) (r : Script)
      → ((check_sections P ids xs s r).1 ≡ s) × ((check_sections P ids xs s r).2 ≡ r)
  unfolding check_sections
  check_sections-state ids [] s r = (refl, refl)
  check_sections-state ids (x ∷ xs) s r = ground (arith, check_sections-state ids xs s r)

  -- An event that is created is stored, and one message goes out: where the capacities of the venue's
  -- sections count their seats, the message has the id of the event and as many seats as the
  -- sections with a ticket type hold, each with the id, the price and the currency of the first
  -- ticket type of its section.
  pub create_event-seats :
      (dto : CreateEventDto) (venue : Venue) (event : Event) (s : State P) (r : Script)
      → venues.get dto.venue_id s.venue_rows ≡ some venue
      → Counted venue.sections
      → (create_event P dto s r).0 ≡ ok event
      → let s' = (create_event P dto s r).1 in
        let m = message_of P venue event in
        (s'.emitted ≡ m ∷ s.emitted)
        × (events.get event.id s'.event_rows ≡ some event)
        × (length m.seats ≡ offered event.ticket_types venue.sections)
        × AllPriced event.ticket_types m.seats
  unfolding create_event save_event find_venue
  create_event-seats dto venue event s r there counted e =
      let same =
        check_sections-state (map (λ x. x.id) venue.sections) dto.ticket_types s
          (later_replies r) in
      let new = new_event P (events.fresh s.event_rows) s.made dto in
      (
        ground (arith, there, e, same),
        ground (arith, there, e, same, events.get-save new.id new s.event_rows),
        length-seats_of event.ticket_types venue.sections counted,
        seats_of-AllPriced event.ticket_types venue.sections,
      )
