-- ===== src/Notices/Consumers/Mailing.antt =====
-- Whom a confirmed booking is mailed to.
use distributed_nestjs_event.Base.{
  ℕ, ◌≡◌, refl, none, some, List, [], ◌∷◌, map, arith, ok, next_reply, later_replies, ◌∙◌,
  Option-cases, inl, inr,
}
use distributed_nestjs_event.Notices.Types.{Platform, State, AttendedSeat, ChannelMessage}
use distributed_nestjs_event.Notices.Sending.{send_notification, insert_row, get_template}
use distributed_nestjs_event.Notices.Consumers.{
  Delivered, data_of, BookingData, confirm_all, confirm_to, handle_booking_confirmed,
}

-- The addresses after those of the items, the last one first.
unfoldable pub addresses : List AttendedSeat → List ℕ → List ℕ
addresses [] before = before
addresses (x ∷ xs) before =
    addresses xs (elim x.attendee_email [ none ↦ before | some a ↦ a ∷ before ])

abbrev pub recipients : List ChannelMessage → List ℕ
recipients ms = map (λ m. m.to) ms

module _ (P : Platform) where
  confirm_to-recipients :
      (d : BookingData) (x : AttendedSeat) (s : State P)
      → let (a, s', r') = confirm_to P d x x.attendee_email s [] in
        (a ≡ ok tt)
        × (r' ≡ [])
        × (recipients s'.mailed ≡ elim x.attendee_email [
          | none ↦ recipients s.mailed
          | some a ↦ a ∷ recipients s.mailed
        ])
  unfolding send_notification insert_row get_template next_reply later_replies
  confirm_to-recipients d x s = elim (Option-cases x.attendee_email) [
    | inl e ↦ ground (arith, e)
    | inr (a, e) ↦ ground (arith, e)
  ]

  confirm_all-recipients :
      (d : BookingData) (xs : List AttendedSeat) (s : State P)
      → let (a, s', r') = confirm_all P d xs s [] in
        (a ≡ ok tt) × (recipients s'.mailed ≡ addresses xs (recipients s.mailed))
  unfolding confirm_all addresses
  confirm_all-recipients d [] s = (refl, refl)
  confirm_all-recipients d (x ∷ xs) s =
      let y = confirm_to P d x x.attendee_email s [] in
      let step = confirm_to-recipients d x s in
      let rest = confirm_all-recipients d xs y.1 in
      let next : confirm_all P d (x ∷ xs) s [] ≡ confirm_all P d xs y.1 [] =
        ground (arith, step.0, step.1) in
      rw next (rest.0, rest.1 ∙ rw (step.2) refl)

  -- The message of a confirmed booking, in a `value` or bare, with every call answering, makes one mail
  -- for each item that has an attendee's address, to that address and in the order of the items.
  pub handle_booking_confirmed-recipients :
      (p : Delivered BookingData) (s : State P)
      → let (a, s', r') = handle_booking_confirmed P p s [] in
        (a ≡ ok tt) × (recipients s'.mailed ≡ addresses (data_of p).items (recipients s.mailed))
  unfolding handle_booking_confirmed
  handle_booking_confirmed-recipients p s = confirm_all-recipients (data_of p) (data_of p).items s
