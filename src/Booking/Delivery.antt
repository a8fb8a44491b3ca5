-- ===== src/Booking/Delivery.antt =====
-- `OutboxWorker` (apps/booking-service/src/booking/outbox.worker.ts): the delivery of the events
-- in the outbox. The worker changes the entity `entry` in memory and saves it.
pub mod Retries
pub mod Progress
use distributed_nestjs_event.Base.{
  ℕ, ◌+◌, Bool, true, false, Option, none, some, List, [], ◌∷◌, Error, mark_sold_failed, Action,
  pure, throw, query, write, rpc, gets, modify, try_catch, ◌>>=◌, ◌>>◌, leb, if◌then◌else◌,
}
use distributed_nestjs_event.Booking.Types.{
  Platform, State, Outbox, OutboxStatus, OutboxEvent, seats_mark_sold, booking_confirmed,
  booking_refunded, unknown, Message, mark_seats_as_sold, emit_confirmed, emit_refunded,
}
use distributed_nestjs_event.Booking.Tickets.{generate_ticket}
use distributed_nestjs_event.Booking.Refund.{send}

abbrev pub is_pending : OutboxStatus → Bool
is_pending OutboxStatus.pending = true
is_pending OutboxStatus.processing = false
is_pending OutboxStatus.completed = false
is_pending OutboxStatus.failed = false

-- `where: { status: OutboxStatus.PENDING }`, and `take: 10`
abbrev pub pending_entry : Outbox → Bool
pending_entry o = is_pending o.status

abbrev pub created : Outbox → ℕ
created o = o.created_at

abbrev pub batch_size : ℕ
batch_size = 10

-- The entity after the `catch` of the loop.
abbrev pub count_failure : Error → Outbox → Outbox
count_failure e o = record o {
  retry_count = o.retry_count + 1;
  last_error = some e;
  status =
      if leb o.max_retries (o.retry_count + 1) then OutboxStatus.failed else OutboxStatus.pending;
}

module _ (P : Platform) where
  open P use {outbox}

  -- `entry.x = …`
  abbrev pub assign_entry : (Outbox → Outbox) → Action (State P) (Unit {0})
  assign_entry f = modify (λ s. record s { entry = f s.entry })

  -- `outboxRepo.save(entry)`
  abbrev pub save_entry : Action (State P) (Unit {0})
  save_entry =
      write (λ s. record s {
        db = record (s.db) { outbox_rows = outbox.save s.entry s.db.outbox_rows };
      })

  abbrev pub sold_replied : Option ℕ → Action (State P) (Unit {0})
  sold_replied (some n) = throw mark_sold_failed
  sold_replied none = pure tt

  -- `processEntry` and the three handlers, on the event of the entry
  unfoldable pub process_entry : OutboxEvent → ℕ → Action (State P) (Unit {0})
  process_entry (seats_mark_sold event user seat_ids) id =
      send P (λ s. mark_seats_as_sold event seat_ids user) >> (rpc >>= sold_replied)
  process_entry (booking_confirmed b) id =
      generate_ticket P id >> send P (λ s. emit_confirmed id (booking_confirmed b))
  process_entry (booking_refunded b) id = send P (λ s. emit_refunded id (booking_refunded b))
  process_entry (unknown n) id = pure tt

  -- the `try` block of the loop
  unfoldable pub deliver : Action (State P) (Unit {0})
  deliver = gets (λ s. s.entry) >>= λ entry.
      process_entry entry.event entry.aggregate_id
      >> (gets (λ s. s.now) >>= λ now.
          assign_entry (λ o. record o { status = OutboxStatus.completed; processed_at = some now })
          >> save_entry)

  -- the `catch` block of the loop
  unfoldable pub retry_later : Error → Action (State P) (Unit {0})
  retry_later error = assign_entry (count_failure error) >> save_entry

  -- One round of the loop, for an entry that the query has found.
  unfoldable pub work_entry : Outbox → Action (State P) (Unit {0})
  work_entry o =
      assign_entry (λ x. record o { status = OutboxStatus.processing })
      >> (save_entry >> try_catch deliver retry_later)

  unfoldable pub work_all : List Outbox → Action (State P) (Unit {0})
  work_all [] = pure tt
  work_all (o ∷ os) = work_entry o >> work_all os

  unfoldable pub process_outbox : Action (State P) (Unit {0})
  process_outbox =
      query (λ s. outbox.find_first pending_entry created batch_size s.db.outbox_rows) >>= work_all
