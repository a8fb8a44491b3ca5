-- ===== src/Booking/Tests.antt =====
-- Runs of the booking service and the theorems at them.
use distributed_nestjs_event.Base.{
  [], ◌≤◌, ◌≡◌, refl, false, zero, suc, none, some, ◌∷◌, arith, ok, err, rejected_call, answered,
  rejected, next_reply, later_replies,
}
use distributed_nestjs_event.External.Repository.{insert_all}
use distributed_nestjs_event.Booking.Types.{Booking, RefundState, TicketStatus, Ticket}
use distributed_nestjs_event.Booking.Fixture.{
  platform, opening, booking_in, entry_of, sold_event, ticket,
}
use distributed_nestjs_event.Booking.Tickets.{generate_ticket, check_in, draw_codes, new_tickets}
use distributed_nestjs_event.Booking.Tickets.Once.{generate_ticket-once}
use distributed_nestjs_event.Booking.Refund.{process_refund, cancel_booking}
use distributed_nestjs_event.Booking.Refund.Diagram.{refunds}
use distributed_nestjs_event.Booking.Refund.Steps.{refunds-process_refund}
use distributed_nestjs_event.Booking.Refund.Rounds.{Refunded, refunded_booking}
use distributed_nestjs_event.Booking.Refund.Completion.{requests, process_refund-Refunded}
use distributed_nestjs_event.Booking.Refund.Failures.{
  process_refund-lost_entry, failed_once, commit_rejected,
}
use distributed_nestjs_event.Booking.Refund.Cancelling.{cancel_booking-Refunded, started}
use distributed_nestjs_event.Booking.Recovery.{
  recover_stuck_refunds, recover_stuck_refunds-completes, refunded_at,
}
use distributed_nestjs_event.Booking.Delivery.{process_outbox}
use distributed_nestjs_event.Booking.Delivery.Retries.{AllFit, process_outbox-AllFit}
use distributed_nestjs_event.Booking.Delivery.Progress.{process_outbox-completes, completed_at}

abbrev initiated_booking : Booking
initiated_booking = booking_in 0 (some RefundState.refund_initiated) 0

abbrev released_booking : Booking
released_booking = booking_in 2 (some RefundState.seats_released) 5

abbrev paid_booking : Booking
paid_booking = booking_in 1 (some RefundState.payment_refunded) 2

abbrev failed_booking : Booking
failed_booking = booking_in 0 (some RefundState.failed) 1

refunds-process_refund_example :
    refunds (process_refund platform (opening initiated_booking) (answered ∷ rejected ∷ [])).1.sent
    ≤ 1
refunds-process_refund_example =
    refunds-process_refund platform (opening initiated_booking) (answered ∷ rejected ∷ [])

process_refund-Refunded_example :
    ((process_refund platform (opening initiated_booking) []).0 ≡ ok tt)
    × Refunded platform
        (opening initiated_booking)
        (process_refund platform (opening initiated_booking) []).1
        (requests platform (opening initiated_booking) RefundState.refund_initiated)
process_refund-Refunded_example =
    process_refund-Refunded platform RefundState.refund_initiated (opening initiated_booking) refl
      refl

process_refund-lost_entry_example :
    let (a, s', r') =
      process_refund platform (opening released_booking) (commit_rejected platform) in
    (a ≡ err rejected_call)
    × (platform.bookings.get 2 s'.db.booking_rows
        ≡ some (
            failed_once platform rejected_call
              (refunded_booking platform (opening released_booking))))
    × (s'.db.outbox_rows ≡ (opening released_booking).db.outbox_rows)
process_refund-lost_entry_example =
    process_refund-lost_entry platform (opening released_booking) refl

-- User 5 asks for the booking of user 3.

cancel_booking-Refunded_example :
    ((cancel_booking platform 0 3 44 none (opening paid_booking) []).0 ≡ ok tt)
    × Refunded platform
        (started platform 44 none (booking_in 0 none 0) (opening paid_booking))
        (cancel_booking platform 0 3 44 none (opening paid_booking) []).1
        (requests platform
          (started platform 44 none (booking_in 0 none 0) (opening paid_booking))
          RefundState.refund_initiated)
cancel_booking-Refunded_example =
    cancel_booking-Refunded platform 0 3 44 none (booking_in 0 none 0) (opening paid_booking) refl
      refl refl

recover_stuck_refunds-completes_example :
    let (a, s', r') = recover_stuck_refunds platform (opening paid_booking) [] in
    (a ≡ ok tt)
    × (s'.is_processing ≡ false)
    × (platform.bookings.get 1 s'.db.booking_rows ≡ some (refunded_at platform 5000 paid_booking))
recover_stuck_refunds-completes_example =
    recover_stuck_refunds-completes platform (opening paid_booking) 1 refl

entries_fit : AllFit platform (opening paid_booking)
entries_fit zero = refl
entries_fit (suc zero) = refl
entries_fit (suc (suc i)) = ground arith

process_outbox-AllFit_example :
    AllFit platform (process_outbox platform (opening paid_booking) (answered ∷ rejected ∷ [])).1
process_outbox-AllFit_example =
    process_outbox-AllFit platform (opening paid_booking) (answered ∷ rejected ∷ []) entries_fit

process_outbox-completes_example :
    let (a, s', r') = process_outbox platform (opening paid_booking) [] in
    (a ≡ ok tt)
    × (platform.outbox.get 0 s'.db.outbox_rows ≡ some (completed_at 5000 (entry_of 0 sold_event)))
process_outbox-completes_example =
    process_outbox-completes platform (opening paid_booking) 0 (omega arith)

generate_ticket_run : (generate_ticket platform 2 (opening paid_booking) []).0 ≡ ok tt
unfolding generate_ticket draw_codes new_tickets insert_all next_reply later_replies
generate_ticket_run = refl

generate_ticket-once_example :
    let (a, s', r') = generate_ticket platform 2 (opening paid_booking) [] in
    (generate_ticket platform 2 s' []).1.ticket_rows ≡ s'.ticket_rows
generate_ticket-once_example =
    generate_ticket-once platform 2 (opening paid_booking) [] [] generate_ticket_run

abbrev used_ticket : Ticket
used_ticket = record ticket { status = TicketStatus.used; checked_in_at = some 5000 }

check_in_run : (check_in platform 1000 (opening paid_booking) []).0 ≡ ok used_ticket
unfolding check_in next_reply later_replies
check_in_run = refl
