-- ===== src/Events/Creation/Guards.antt =====
-- What `create` refuses.
use distributed_nestjs_event.Base.{
  [], ℕ, ◌≡◌, true, false, some, List, ◌∷◌, ◌++◌, map, includes, arith, is_err, Script, inl, inr,
  Option-cases, later_replies,
}
use distributed_nestjs_event.Events.Types.{
  Platform, State, CreateTicketTypeDto, CreateEventDto, Venue,
}
use distributed_nestjs_event.Events.Venues.{find_venue}
use distributed_nestjs_event.Events.Creation.{check_sections, create_event}

module _ (P : Platform) where
  open P use {venues}

  check_sections-refused :
      (ids : List ℕ) (before after : List CreateTicketTypeDto) (x : CreateTicketTypeDto)
      (s : State P) (r : Script)
      → includes ids x.section_id ≡ false
      → (is_err (check_sections P ids (before ++ (x ∷ after)) s r).0 ≡ true)
        × ((check_sections P ids (before ++ (x ∷ after)) s r).1 ≡ s)
  unfolding check_sections
  check_sections-refused ids [] after x s r h = ground (arith, h)
  check_sections-refused ids (y ∷ before) after x s r h =
      ground (arith, check_sections-refused ids before after x s r h)

  -- An event with a ticket type for a section that its venue does not have, or for a venue that is not
  -- there, is refused: nothing is stored and no message is sent, however the calls end.
  pub create_event-refused :
      (dto : CreateEventDto) (before after : List CreateTicketTypeDto) (x : CreateTicketTypeDto)
      (s : State P) (r : Script)
      → dto.ticket_types ≡ before ++ (x ∷ after)
      → ((venue : Venue)
          → venues.get dto.venue_id s.venue_rows ≡ some venue
          → includes (map (λ y. y.id) venue.sections) x.section_id ≡ false)
      → (is_err (create_event P dto s r).0 ≡ true) × ((create_event P dto s r).1 ≡ s)
  unfolding create_event find_venue
  create_event-refused dto before after x s r e unknown =
      elim (Option-cases (venues.get dto.venue_id s.venue_rows)) [
        | inl n ↦ ground (arith, n)
        | inr (venue, n) ↦ ground (
          arith,
          n,
          e,
          check_sections-refused (map (λ y. y.id) venue.sections) before after x s (later_replies r)
              (unknown venue n),
        )
      ]
