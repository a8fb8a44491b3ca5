-- ===== src/Booking/Tickets/Once.antt =====
-- Tickets are generated once, and a ticket is used once.
use distributed_nestjs_event.Base.{
  List-cases, head?, ℕ, ◌≡◌, ◌≢◌, refl, none, some, List, [], ◌∷◌, arith, ok, err, Script,
  next_reply, later_replies, by_key, Bool-cases, rejects, ◌+◌, Result-cases, rejected_call, subst,
  ap, ◌⊎◌, ticket_used, inl, inr,
}
use distributed_nestjs_event.External.Repository.{insert_all, insert_all-IsInserted}
use distributed_nestjs_event.Booking.Types.{
  Platform, State, Ticket, TicketStatus, BookingItem, ticket_key,
}
use distributed_nestjs_event.Booking.Tickets.{
  of_booking, of_code, ticket_with_id, new_tickets, draw_codes, items_of, save_tickets,
  generate_ticket, check_in,
}

-- The only key in a list of rows is that of its first row.
head-by_key :
    (k : ℕ) (x : Ticket) (xs : List Ticket)
    → by_key ticket_key k xs ≡ some x
    → ((j : ℕ) → j ≢ k → by_key ticket_key j xs ≡ none)
    → head? xs ≡ some x
head-by_key k x [] e others = cc
head-by_key k x (y ∷ ys) e others = ground (arith, others y.id)

module _ (P : Platform) where
  open P use {bookings, tickets}

  -- What is the same after a generation and its loop but the tickets and the codes drawn.
  abbrev pub Same : State P → State P → Type 0
  Same s s' = (s'.db ≡ s.db) × (s'.entry ≡ s.entry) × (s'.now ≡ s.now)

  draw_codes_lem :
      (items : List BookingItem) (s : State P) (r : Script)
      → let s' = (draw_codes P items s r).1 in (s'.ticket_rows ≡ s.ticket_rows) × Same s s'
  unfolding draw_codes
  draw_codes_lem [] s r = (refl, (refl, refl, refl))
  draw_codes_lem (item ∷ items) s r =
      let drawn : State P = record s { codes_drawn = s.codes_drawn + 1 } in
      ground (arith, draw_codes_lem items drawn (later_replies r))

  draw_codes_answered :
      (items : List BookingItem) (s : State P)
      → ((draw_codes P items s []).0 ≡ ok tt) × ((draw_codes P items s []).2 ≡ [])
  unfolding draw_codes next_reply later_replies
  draw_codes_answered [] s = (refl, refl)
  draw_codes_answered (item ∷ items) s =
      draw_codes_answered items (record s { codes_drawn = s.codes_drawn + 1 })

  -- A save of new tickets for at least one item is seen by the query for the booking's tickets.
  inserted_found :
      (booking k : ℕ) (item : BookingItem) (items : List BookingItem) (t : tickets.Table)
      → tickets.find
          (of_booking booking)
          (insert_all tickets ticket_with_id (new_tickets P booking k (item ∷ items)) t).1
        ≢ []
  unfolding new_tickets insert_all
  inserted_found booking k item items t h =
      let rows = new_tickets P booking k (item ∷ items) in
      let after = (insert_all tickets ticket_with_id rows t).1 in
      let first = tickets.fresh t in
      let there = insert_all-IsInserted tickets ticket_with_id rows t (λ j x. refl) in
      ground (arith, h, there.1, tickets.get-find first (of_booking booking) after)

  -- What a generation does, by what the two queries find.
  generate_ticket-found :
      (booking : ℕ) (t : Ticket) (ts : List Ticket) (s : State P) (r : Script)
      → tickets.find (of_booking booking) s.ticket_rows ≡ t ∷ ts
      → (generate_ticket P booking s r).1 ≡ s
  unfolding generate_ticket
  generate_ticket-found booking t ts s r e = ground (arith, e)

  generate_ticket-empty :
      (booking : ℕ) (s : State P) (r : Script)
      → tickets.find (of_booking booking) s.ticket_rows ≡ []
      → items_of (bookings.get booking s.db.booking_rows) ≡ []
      → (generate_ticket P booking s r).1 ≡ s
  unfolding generate_ticket
  generate_ticket-empty booking s r e n = ground (arith, e, n)

  save_tickets-Same :
      (booking k : ℕ) (items : List BookingItem) (s : State P) (r : Script)
      → Same s (save_tickets P booking k items s r).1
  save_tickets-Same booking k items s r =
      let d = draw_codes P items s r in
      elim (Result-cases d.0) [
        | inl (u, e) ↦ ground (arith, e, draw_codes_lem items s r)
        | inr (x, e) ↦ ground (arith, e, draw_codes_lem items s r)
      ]

  save_tickets-saved :
      (booking k : ℕ) (items : List BookingItem) (s : State P) (r : Script)
      → (save_tickets P booking k items s r).0 ≡ ok tt
      → (save_tickets P booking k items s r).1.ticket_rows
        ≡ (insert_all tickets ticket_with_id (new_tickets P booking k items) s.ticket_rows).1
  save_tickets-saved booking k items s r h =
      let d = draw_codes P items s r in
      elim (Result-cases d.0) [
        | inl (u, e) ↦ ground (arith, e, h, (draw_codes_lem items s r).0)
        | inr (x, e) ↦ absurd (ground (arith, e, h))
      ]

  -- Where there is no ticket and there are items, the tickets are saved if the queries answer.
  generate_ticket-new :
      (booking : ℕ) (item : BookingItem) (items : List BookingItem) (s : State P) (r : Script)
      → tickets.find (of_booking booking) s.ticket_rows ≡ []
      → items_of (bookings.get booking s.db.booking_rows) ≡ item ∷ items
      → let x = generate_ticket P booking s r in
        (x
          ≡ save_tickets P booking s.codes_drawn (item ∷ items) s (later_replies (later_replies r)))
        ⊎ ((x.0 ≡ err rejected_call) × (x.1 ≡ s))
  unfolding generate_ticket
  generate_ticket-new booking item items s r e n = elim (Bool-cases (rejects (next_reply r))) [
    | inl bad ↦ inr (ground (arith, bad))
    | inr good ↦ elim (Bool-cases (rejects (next_reply (later_replies r)))) [
      | inl bad ↦ inr (ground (arith, good, bad, e))
      | inr good' ↦ inl (ground (arith, good, good', e, n))
    ]
  ]

  pub generate_ticket-Same :
      (booking : ℕ) (s : State P) (r : Script) → Same s (generate_ticket P booking s r).1
  generate_ticket-Same booking s r =
      elim (List-cases (tickets.find (of_booking booking) s.ticket_rows)) [
        | inr (t, ts, e) ↦ rw (generate_ticket-found booking t ts s r e) (refl, refl, refl)
        | inl e ↦ elim (List-cases (items_of (bookings.get booking s.db.booking_rows))) [
          | inl n ↦ rw (generate_ticket-empty booking s r e n) (refl, refl, refl)
          | inr (item, items, n) ↦ elim (generate_ticket-new booking item items s r e n) [
            | inl x ↦ rw x (
                save_tickets-Same booking s.codes_drawn (item ∷ items) s
                  (later_replies (later_replies r)))
            | inr x ↦ rw (x.1) (refl, refl, refl)
          ]
        ]
      ]

  pub generate_ticket_answered :
      (booking : ℕ) (s : State P)
      → ((generate_ticket P booking s []).0 ≡ ok tt) × ((generate_ticket P booking s []).2 ≡ [])
  unfolding generate_ticket next_reply later_replies
  generate_ticket_answered booking s =
      ground (arith, draw_codes_answered (items_of (bookings.get booking s.db.booking_rows)) s)

  -- The second of two calls for a booking generates nothing, if the first has returned: the
  -- tickets stay as the first call left them, however the calls of the second end.
  pub generate_ticket-once :
      (booking : ℕ) (s : State P) (r q : Script)
      → (generate_ticket P booking s r).0 ≡ ok tt
      → let (a, s', r') = generate_ticket P booking s r in
        (generate_ticket P booking s' q).1.ticket_rows ≡ s'.ticket_rows
  generate_ticket-once booking s r q h =
      let s' = (generate_ticket P booking s r).1 in
      elim (List-cases (tickets.find (of_booking booking) s.ticket_rows)) [
        | inr (t, ts, e) ↦
            let same = generate_ticket-found booking t ts s r e in
            rw same (ap (λ (x : State P). x.ticket_rows) (generate_ticket-found booking t ts s q e))
        | inl e ↦ elim (List-cases (items_of (bookings.get booking s.db.booking_rows))) [
          | inl n ↦
              rw (generate_ticket-empty booking s r e n)
                (ap (λ (x : State P). x.ticket_rows) (generate_ticket-empty booking s q e n))
          | inr (item, items, n) ↦ elim (generate_ticket-new booking item items s r e n) [
            | inl x ↦
                let saved =
                  save_tickets-saved booking s.codes_drawn (item ∷ items) s
                    (later_replies (later_replies r)) (subst (λ y. y.0 ≡ ok tt) x h) in
                elim (List-cases (tickets.find (of_booking booking) s'.ticket_rows)) [
                  | inl n' ↦ absurd (
                      inserted_found booking s.codes_drawn item items s.ticket_rows
                        (ground (arith, n', x, saved)))
                  | inr (t, ts, n') ↦
                      ap (λ (y : State P). y.ticket_rows)
                        (generate_ticket-found booking t ts s' q n')
                ]
            | inr x ↦ absurd (ground (arith, x, h))
          ]
        ]
      ]

  -- After a save of the only ticket with a code the query for the code finds the saved ticket.
  saved_found :
      (code : ℕ) (t : Ticket) (now : ℕ) (rows : tickets.Table)
      → tickets.find (of_code code) rows ≡ t ∷ []
      → let t' : Ticket = record t { status = TicketStatus.used; checked_in_at = some now } in
        head? (tickets.find (of_code code) (tickets.save t' rows)) ≡ some t'
  saved_found code t now rows h =
      let t' : Ticket = record t { status = TicketStatus.used; checked_in_at = some now } in
      head-by_key t.id t' (tickets.find (of_code code) (tickets.save t' rows))
        (ground (
          arith,
          h,
          tickets.get-find t.id (of_code code) rows,
          tickets.get-find t.id (of_code code) (tickets.save t' rows),
          tickets.get-save t.id t' rows,
        ))
        λ j other. ground (
          arith,
          h,
          tickets.get-find j (of_code code) rows,
          tickets.get-find j (of_code code) (tickets.save t' rows),
          tickets.get-save j t' rows,
        )

  -- A check-in that returns has used the ticket, and a second check-in with the same code is
  -- refused, where no other ticket has the code.
  pub check_in-once :
      (code : ℕ) (t t' : Ticket) (s : State P) (r : Script)
      → tickets.find (of_code code) s.ticket_rows ≡ t ∷ []
      → (check_in P code s r).0 ≡ ok t'
      → let (a, s', r') = check_in P code s r in
        (t' ≡ record t { status = TicketStatus.used; checked_in_at = some s.now })
        × ((check_in P code s' []).0 ≡ err (ticket_used code))
        × ((check_in P code s' []).1.ticket_rows ≡ s'.ticket_rows)
  unfolding check_in next_reply later_replies
  check_in-once code t t' s r h e = ground (arith, h, e, saved_found code t s.now s.ticket_rows h)
