-- ===== src/Booking/Delivery/Retries.antt =====
-- The retries of an outbox entry: their number stays within its bound, and its status tells
-- whether there are any left.
use distributed_nestjs_event.Base.{
  ℕ, ◌<◌, ◌≡◌, inl, inr, Bool, true, Option, none, some, List, [], ◌∷◌, arith, Error, Script,
  Result-cases, ltb, ◌==◌, later_replies, All, by_key-All,
}
use distributed_nestjs_event.Booking.Types.{
  Platform, State, Outbox, OutboxStatus, OutboxEvent, seats_mark_sold, booking_confirmed,
  booking_refunded, unknown, outbox_key,
}
use distributed_nestjs_event.Booking.Tickets.{generate_ticket}
use distributed_nestjs_event.Booking.Tickets.Once.{generate_ticket-Same}
use distributed_nestjs_event.Booking.Delivery.{
  pending_entry, created, batch_size, count_failure, process_entry, deliver, retry_later,
  work_entry, work_all, process_outbox,
}

-- A failed entry has used up its retries, and every other has some left.
abbrev pub retries_fit : OutboxStatus → ℕ → ℕ → Bool
retries_fit OutboxStatus.failed n m = n == m
retries_fit _ n m = ltb n m

abbrev pub fits : Outbox → Bool
fits o = retries_fit o.status o.retry_count o.max_retries

abbrev pub row_fits : Option Outbox → Bool
row_fits none = true
row_fits (some o) = fits o

-- An entry that has retries left.
abbrev pub HasRetries : Outbox → Type 0
HasRetries o = o.retry_count < o.max_retries

module _ (P : Platform) where
  open P use {outbox}

  pub process_entry_lem :
      (e : OutboxEvent) (id : ℕ) (s : State P) (r : Script)
      → ((process_entry P e id s r).1.db ≡ s.db)
        × ((process_entry P e id s r).1.entry ≡ s.entry)
        × ((process_entry P e id s r).1.now ≡ s.now)
  unfolding process_entry
  process_entry_lem (seats_mark_sold event user seat_ids) id s r = ground arith
  process_entry_lem (booking_confirmed b) id s r =
      elim (Result-cases (generate_ticket P id s r).0) [
        | inl (u, e) ↦ ground (arith, e, generate_ticket-Same P id s r)
        | inr (x, e) ↦ ground (arith, e, generate_ticket-Same P id s r)
      ]
  process_entry_lem (booking_refunded b) id s r = ground arith
  process_entry_lem (unknown n) id s r = ground arith

  module _ (i : ℕ) where
    -- Whether the row with the key fits.
    abbrev fits_at : State P → Bool
    fits_at s = row_fits (outbox.get i s.db.outbox_rows)

    save_fits :
        (x : Outbox) (t : outbox.Table)
        → fits x ≡ true
        → row_fits (outbox.get i t) ≡ true
        → row_fits (outbox.get i (outbox.save x t)) ≡ true
    save_fits x t h k = ground (arith, outbox.get-save i x t)

    retry_later_fits :
        (e : Error) (s : State P) (r : Script)
        → HasRetries s.entry
        → fits_at s ≡ true
        → fits_at (retry_later P e s r).1 ≡ true
    unfolding retry_later
    retry_later_fits e s r h k =
        ground (arith, save_fits (count_failure e s.entry) s.db.outbox_rows)

    deliver_fits :
        (s : State P) (r : Script)
        → HasRetries s.entry
        → fits_at s ≡ true
        → (fits_at (deliver P s r).1 ≡ true) × HasRetries (deliver P s r).1.entry
    unfolding deliver
    deliver_fits s r h k =
        let p = process_entry P s.entry.event s.entry.aggregate_id s r in
        let (same_db, same_entry, same_now) =
          process_entry_lem s.entry.event s.entry.aggregate_id s r in
        let done : Outbox = record (p.1.entry) {
          status = OutboxStatus.completed;
          processed_at = some p.1.now;
        } in
        elim (Result-cases p.0) [
          | inl (u, e) ↦ ground (arith, e, same_db, same_entry, save_fits done p.1.db.outbox_rows)
          | inr (x, e) ↦ ground (arith, e, same_db, same_entry)
        ]

    work_entry_fits :
        (o : Outbox) (s : State P) (r : Script)
        → HasRetries o
        → fits_at s ≡ true
        → fits_at (work_entry P o s r).1 ≡ true
    unfolding work_entry
    work_entry_fits o s r h k =
        let started : Outbox = record o { status = OutboxStatus.processing } in
        let t : State P = record s {
          entry = started;
          db = record (s.db) { outbox_rows = outbox.save started s.db.outbox_rows };
        } in
        let d = deliver P t (later_replies r) in
        let kept : fits_at t ≡ true = save_fits started s.db.outbox_rows (ground (arith, h)) k in
        elim (Result-cases d.0) [
          | inl (u, e) ↦ ground (arith, e, k, deliver_fits t (later_replies r) h kept)
          | inr (x, e) ↦
              ground
                (arith, e, k, deliver_fits t (later_replies r) h kept, retry_later_fits x d.1 d.2)
        ]

    work_all_fits :
        (os : List Outbox) (s : State P) (r : Script)
        → All HasRetries os
        → fits_at s ≡ true
        → fits_at (work_all P os s r).1 ≡ true
    unfolding work_all
    work_all_fits [] s r h k = k
    work_all_fits (o ∷ os) s r h k =
        let w = work_entry P o s r in
        ground (arith, work_entry_fits o s r h.0 k, work_all_fits os w.1 w.2 h.1)

  -- Every entry of the outbox fits.
  abbrev pub AllFit : State P → Type 0
  AllFit s = (i : ℕ) → row_fits (outbox.get i s.db.outbox_rows) ≡ true

  -- What the query finds among entries that fit has retries left.
  found-HasRetries :
      (s : State P)
      → AllFit s
      → All HasRetries (outbox.find_first pending_entry created batch_size s.db.outbox_rows)
  found-HasRetries s h =
      by_key-All outbox_key HasRetries
        (outbox.find_first pending_entry created batch_size s.db.outbox_rows)
        (outbox.find_first-Distinct pending_entry created batch_size s.db.outbox_rows)
        λ i o e.
          ground (
            arith,
            e,
            h i,
            outbox.get-find_first i pending_entry created batch_size s.db.outbox_rows,
          )

  -- The worker keeps, for every entry of the outbox and however its calls end, that a failed entry
  -- has used up exactly its retries, and that every other entry has some left.
  pub process_outbox-AllFit :
      (s : State P) (r : Script) → AllFit s → AllFit (process_outbox P s r).1
  unfolding process_outbox
  process_outbox-AllFit s r h i = ground (
    arith,
    h i,
    work_all_fits i (outbox.find_first pending_entry created batch_size s.db.outbox_rows) s
        (later_replies r) (found-HasRetries s h) (h i),
  )
