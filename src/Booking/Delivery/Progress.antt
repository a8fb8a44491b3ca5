-- ===== src/Booking/Delivery/Progress.antt =====
-- What the worker delivers, and what it leaves behind when a call fails.
use distributed_nestjs_event.Base.{
  ℕ, ◌≤◌, ◌≡◌, refl, none, some, List, [], ◌∷◌, arith, ok, err, Script, mark_sold_failed,
  rejected_call, answered, refused, rejected, next_reply, later_replies, ◌==◌, if◌then◌else◌,
  length, by_key, or_else, by_key-none, Distinct, map,
}
use mathlib.Core.Option
use distributed_nestjs_event.Booking.Types.{
  Platform, State, Booking, Outbox, OutboxStatus, OutboxEvent, seats_mark_sold, booking_confirmed,
  booking_refunded, unknown, outbox_key, mark_seats_as_sold, emit_refunded,
}
use distributed_nestjs_event.Booking.Tickets.Once.{generate_ticket_answered}
use distributed_nestjs_event.Booking.Delivery.{
  pending_entry, created, batch_size, count_failure, process_entry, deliver, retry_later,
  work_entry, work_all, process_outbox,
}
use distributed_nestjs_event.Booking.Delivery.Retries.{process_entry_lem}

-- A delivered entry.
abbrev pub completed_at : ℕ → Outbox → Outbox
completed_at now o = record o { status = OutboxStatus.completed; processed_at = some now }

abbrev pub taken : Outbox → Outbox
taken o = record o { status = OutboxStatus.processing }

module _ (P : Platform) where
  open P use {outbox}

  process_entry_answered :
      (e : OutboxEvent) (id : ℕ) (s : State P)
      → ((process_entry P e id s []).0 ≡ ok tt) × ((process_entry P e id s []).2 ≡ [])
  unfolding process_entry next_reply later_replies
  process_entry_answered (seats_mark_sold event user seat_ids) id s = ground arith
  process_entry_answered (booking_confirmed b) id s =
      ground (arith, generate_ticket_answered P id s)
  process_entry_answered (booking_refunded b) id s = ground arith
  process_entry_answered (unknown n) id s = ground arith

  work_entry_answered :
      (o : Outbox) (s : State P) (i : ℕ)
      → let (a, s', r') = work_entry P o s [] in
        (a ≡ ok tt)
        × (r' ≡ [])
        × (s'.now ≡ s.now)
        × (outbox.get i s'.db.outbox_rows
            ≡ (if i == o.id then some (completed_at s.now o) else outbox.get i s.db.outbox_rows))
  unfolding work_entry deliver next_reply later_replies
  work_entry_answered o s i =
      let t : State P = record s {
        entry = taken o;
        db = record (s.db) { outbox_rows = outbox.save (taken o) s.db.outbox_rows };
      } in
      ground (
        arith,
        process_entry_answered o.event o.aggregate_id t,
        process_entry_lem P o.event o.aggregate_id t [],
        outbox.get-save i (taken o) s.db.outbox_rows,
        outbox.get-save i (completed_at s.now o) t.db.outbox_rows,
      )

  work_all_answered :
      (os : List Outbox) (s : State P) (i : ℕ)
      → Distinct (map outbox_key os)
      → let (a, s', r') = work_all P os s [] in
        (a ≡ ok tt)
        × (outbox.get i s'.db.outbox_rows
            ≡ or_else
                (Option.map (completed_at s.now) (by_key outbox_key i os))
                (outbox.get i s.db.outbox_rows))
  unfolding work_all
  work_all_answered [] s i h = (refl, refl)
  work_all_answered (o ∷ os) s i h = ground (
    arith,
    work_entry_answered o s i,
    work_all_answered os (work_entry P o s []).1 i h.1,
    by_key-none outbox_key i os,
    h.0,
  )

  -- When every call answers with success and at most ten entries are pending, a pass of the worker returns and
  -- completes exactly the pending entries: row by row, a pending entry is stored as completed at
  -- the time of the pass, and any other is as it was.
  pub process_outbox-completes :
      (s : State P) (i : ℕ)
      → length (outbox.find pending_entry s.db.outbox_rows) ≤ batch_size
      → let (a, s', r') = process_outbox P s [] in
        (a ≡ ok tt)
        × (outbox.get i s'.db.outbox_rows
            ≡ Option.map
                (λ o. if pending_entry o then completed_at s.now o else o)
                (outbox.get i s.db.outbox_rows))
  unfolding process_outbox next_reply later_replies
  process_outbox-completes s i few =
      let rows = outbox.find_first pending_entry created batch_size s.db.outbox_rows in
      ground (
        arith,
        work_all_answered rows s i
            (outbox.find_first-Distinct pending_entry created batch_size s.db.outbox_rows),
        outbox.find_first_all i pending_entry created batch_size s.db.outbox_rows few,
      )

  -- Where the seat service refuses to mark seats as sold, the round still returns: the request has
  -- been sent, and the entry is stored with one more failure, pending if retries are left and
  -- failed if not.
  pub work_entry-refused :
      (n event user : ℕ) (seat_ids : List ℕ) (o : Outbox) (s : State P)
      → o.event ≡ seats_mark_sold event user seat_ids
      → let (a, s', r') = work_entry P o s (answered ∷ refused n ∷ []) in
        (a ≡ ok tt)
        × (outbox.get o.id s'.db.outbox_rows ≡ some (count_failure mark_sold_failed o))
        × (s'.sent ≡ mark_seats_as_sold event seat_ids user ∷ s.sent)
  unfolding work_entry deliver retry_later process_entry next_reply later_replies
  work_entry-refused n event user seat_ids o s h = ground (
    arith,
    h,
    outbox.get-save o.id (count_failure mark_sold_failed (taken o))
        (outbox.save (taken o) s.db.outbox_rows),
  )

  -- Where the saves after a delivery reject, the message is out, and the entry stays stored as
  -- being processed, a status that the worker's query does not select.
  pub work_entry-stuck :
      (b : Booking) (o : Outbox) (s : State P) (r : Script)
      → o.event ≡ booking_refunded b
      → let (a, s', r') = work_entry P o s (answered ∷ rejected ∷ rejected ∷ r) in
        (a ≡ err rejected_call)
        × (outbox.get o.id s'.db.outbox_rows ≡ some (taken o))
        × (by_key outbox_key o.id (outbox.find pending_entry s'.db.outbox_rows) ≡ none)
        × (s'.sent ≡ emit_refunded o.aggregate_id (booking_refunded b) ∷ s.sent)
  unfolding work_entry deliver retry_later process_entry next_reply later_replies
  work_entry-stuck b o s r h = ground (
    arith,
    h,
    outbox.get-save o.id (taken o) s.db.outbox_rows,
    outbox.get-find o.id pending_entry (outbox.save (taken o) s.db.outbox_rows),
  )
