-- ===== src/Booking/Tickets.antt =====
-- `TicketService` (apps/booking-service/src/ticket/ticket.service.ts): tickets and check-in.
pub mod Once
use distributed_nestjs_event.Base.{
  head?, length, ℕ, ◌+◌, Bool, true, false, Option, none, some, List, [], ◌∷◌, Action, pure, throw,
  query, write, call, gets, modify, ◌>>=◌, ◌>>◌, if◌then◌else◌, ◌==◌, ◌&&◌, ticket_not_found,
  ticket_used, ticket_cancelled,
}
use distributed_nestjs_event.External.Repository.{insert_all}
use distributed_nestjs_event.Booking.Types.{
  Platform, State, Booking, BookingItem, Ticket, TicketStatus, active, used, transferred,
}
use distributed_nestjs_event.Booking.Types

abbrev pub is_active : TicketStatus → Bool
is_active TicketStatus.active = true
is_active TicketStatus.used = false
is_active TicketStatus.cancelled = false
is_active TicketStatus.transferred = false

-- `where: { bookingId }`, `{ bookingId, status: ACTIVE }` and `{ ticketCode }`
abbrev pub of_booking : ℕ → Ticket → Bool
of_booking booking t = t.booking_id == booking

abbrev pub active_of_booking : ℕ → Ticket → Bool
active_of_booking booking t = t.booking_id == booking && is_active t.status

abbrev pub of_code : ℕ → Ticket → Bool
of_code code t = t.ticket_code == code

abbrev pub ticket_with_id : ℕ → Ticket → Ticket
ticket_with_id i t = record t { id = i }

abbrev pub cancel_ticket : Ticket → Ticket
cancel_ticket t = record t { status = TicketStatus.cancelled }

-- The items of a booking's row.
abbrev pub items_of : Option Booking → List BookingItem
items_of none = []
items_of (some b) = b.items

module _ (P : Platform) where
  open P use {bookings, tickets, random_code, qr_code}

  -- The loop over the items: the entities, before they have ids, with codes drawn from k on.
  unfoldable pub new_tickets : ℕ → ℕ → List BookingItem → List Ticket
  new_tickets booking k [] = []
  new_tickets booking k (item ∷ items) =
      record {
        id = 0;
        booking_id = booking;
        booking_item_id = item.id;
        ticket_code = random_code k;
        qr_code_data = qr_code (random_code k) booking item;
        status = TicketStatus.active;
        seat_id = item.seat_id;
        section_name = item.section_name;
        row = item.row;
        seat_number = item.seat_number;
        attendee_name = item.attendee_name;
        attendee_email = item.attendee_email;
        checked_in_at = none;
      }
      ∷ new_tickets booking (k + 1) items

  abbrev pub find_by_booking : ℕ → Action (State P) (List Ticket)
  find_by_booking booking = query (λ s. tickets.find (of_booking booking) s.ticket_rows)

  -- The calls in the loop over the items: a code is drawn, and `QRCode.toDataURL` is awaited.
  unfoldable pub draw_codes : List BookingItem → Action (State P) (Unit {0})
  draw_codes [] = pure tt
  draw_codes (item ∷ items) =
      modify (λ s. record s { codes_drawn = s.codes_drawn + 1 }) >> (call >> draw_codes items)

  -- The loop, with codes from k on, and `ticketRepo.save(tickets)`
  abbrev pub save_tickets : ℕ → ℕ → List BookingItem → Action (State P) (Unit {0})
  save_tickets booking k items =
      draw_codes items
      >> write (λ s. record s {
        ticket_rows =
            (insert_all tickets ticket_with_id (new_tickets booking k items) s.ticket_rows).1;
      })

  -- The tickets are returned for a log only, so the model returns nothing.
  abbrev pub generate_for : ℕ → List Ticket → Action (State P) (Unit {0})
  generate_for booking (t ∷ ts) = pure tt
  generate_for booking [] =
      query (λ s. items_of (bookings.get booking s.db.booking_rows)) >>= λ items. elim items [
        | [] ↦ pure tt
        | i ∷ is ↦ gets (λ s. s.codes_drawn) >>= λ k. save_tickets booking k (i ∷ is)
      ]

  unfoldable pub generate_ticket : ℕ → Action (State P) (Unit {0})
  generate_ticket booking = find_by_booking booking >>= generate_for booking

  abbrev pub find_by_code : ℕ → Action (State P) (Option Ticket)
  find_by_code code = query (λ s. head? (tickets.find (of_code code) s.ticket_rows))

  -- The status tests of `checkIn`, and the save.
  abbrev pub check_in_ticket : ℕ → TicketStatus → Ticket → Action (State P) Ticket
  check_in_ticket code TicketStatus.used t = throw (ticket_used code)
  check_in_ticket code TicketStatus.cancelled t = throw (ticket_cancelled code)
  check_in_ticket code _ t =
      gets (λ s. record t { status = TicketStatus.used; checked_in_at = some s.now }) >>= λ t'.
      write (λ s. record s { ticket_rows = tickets.save t' s.ticket_rows }) >> pure t'

  unfoldable pub check_in : ℕ → Action (State P) Ticket
  check_in code = find_by_code code >>= λ found. elim found [
    | none ↦ throw (ticket_not_found code)
    | some t ↦ check_in_ticket code t.status t
  ]

  -- `ticketRepo.update`, on a connection of its own and not on the query runner's
  abbrev pub cancel_by_booking : ℕ → Action (State P) (Unit {0})
  cancel_by_booking booking = write (λ s. record s {
    ticket_rows = tickets.update (active_of_booking booking) cancel_ticket s.ticket_rows;
  })
