-- ===== src/Notices/Sending/Recording.antt =====
-- What `send` records of a mail.
use distributed_nestjs_event.Base.{
  ℕ, ◌≡◌, ◌⊎◌, inl, inr, refl, true, false, none, some, List, ◌∷◌, arith, Result, ok, err,
  rejected_call, Script, rejects, next_reply, later_replies, Option-cases, Bool-cases, subst, sym,
  template_not_found, Action, try_catch, pure, gets, ◌>>=◌,
}
use distributed_nestjs_event.Notices.Types.{
  Platform, State, NotificationChannel, email, sms, push, sent, failed, EmailTemplate, TemplateText,
  Notification, SendNotificationInput, ChannelMessage,
}
use distributed_nestjs_event.Notices.Sending.{
  get_template, new_notification, with_result, compiled, send_notification, insert_row, attempt,
  deliver_on, save_row,
}

module _ (P : Platform) where
  open P use {notifications}

  -- The mails after one that may have gone out.
  abbrev pub OneMore : SendNotificationInput → State P → List ChannelMessage → Type 0
  OneMore x s ms =
      (ms ≡ s.mailed) ⊎ ((m : ChannelMessage) × (m.to ≡ x.recipient) × (ms ≡ m ∷ s.mailed))

  -- The status says whether a mail has gone out.
  abbrev pub Told :
      SendNotificationInput → List ChannelMessage → Notification → List ChannelMessage → Type 0
  Told x before n ms =
      ((n.status ≡ failed) × (ms ≡ before))
      ⊎ ((n.status ≡ sent) × ((m : ChannelMessage) × (m.to ≡ x.recipient) × (ms ≡ m ∷ before)))

  -- The row that is saved first, as queued.
  abbrev pub queued_one : SendNotificationInput → State P → Notification
  queued_one x s = new_notification x (notifications.fresh s.rows) s.now

  -- What a run has recorded, by its result.
  abbrev pub Recorded :
      SendNotificationInput → State P → Result Notification × State P × Script → Type 0
  Recorded x s (ok n, s', r') =
      (notifications.get n.id s'.rows ≡ some n) × Told x s.mailed n s'.mailed
  Recorded x s (err e, s', r') =
      (e ≡ rejected_call)
      × (((s'.rows ≡ s.rows) × (s'.mailed ≡ s.mailed))
          ⊎ ((s'.rows ≡ notifications.save (queued_one x s) s.rows) × OneMore x s s'.mailed))

  -- What the `try` block comes to, with its errors caught.
  abbrev tried : SendNotificationInput → Notification → Action (State P) Notification
  tried x n = try_catch (attempt P x n) (λ error. pure (with_result 0 (some error) n))

  abbrev Attempted :
      SendNotificationInput
      → Notification
      → State P
      → Result Notification × State P × Script
      → Type 0
  Attempted x n s (ok m, s', r') = (m.id ≡ n.id) × (s'.rows ≡ s.rows) × Told x s.mailed m s'.mailed
  Attempted x n s (err e, s', r') = ⊥

  abbrev delivered_on :
      SendNotificationInput
      → Notification
      → EmailTemplate ℕ
      → NotificationChannel
      → Action (State P) Notification
  delivered_on x n texts c =
      try_catch
        (deliver_on P c x.recipient texts >>= λ result. gets (λ t. with_result t.now result n))
        (λ error. pure (with_result 0 (some error) n))

  deliver-Attempted :
      (x : SendNotificationInput) (n : Notification) (texts : EmailTemplate ℕ)
      (c : NotificationChannel) (s : State P) (r : Script)
      → Attempted x n s (delivered_on x n texts c s r)
  deliver-Attempted x n texts email s r = elim (Bool-cases (rejects (next_reply r))) [
    | inl bad ↦ rw bad (refl, refl, inl (refl, refl))
    | inr good ↦
        rw good (refl, refl, inr (refl, (record { to = x.recipient; texts = texts }, refl, refl)))
  ]
  deliver-Attempted x n texts sms s r = (refl, refl, inl (refl, refl))
  deliver-Attempted x n texts push s r = (refl, refl, inl (refl, refl))

  tried-unknown :
      (x : SendNotificationInput) (n : Notification) (s : State P) (r : Script)
      → get_template x.template_id ≡ none
      → tried x n s r ≡ (ok (with_result 0 (some template_not_found) n), s, r)
  tried-unknown x n s r e = ground (arith, e)

  tried-rendered :
      (x : SendNotificationInput) (n : Notification) (t : EmailTemplate TemplateText) (s : State P)
      (r : Script)
      → get_template x.template_id ≡ some t
      → tried x n s r ≡ delivered_on x n (compiled P x.payload t) x.channel s r
  tried-rendered x n t s r e = ground (arith, e)

  tried-Attempted :
      (x : SendNotificationInput) (n : Notification) (s : State P) (r : Script)
      → Attempted x n s (tried x n s r)
  tried-Attempted x n s r = elim (Option-cases (get_template x.template_id)) [
    | inl e ↦ subst (Attempted x n s) (sym (tried-unknown x n s r e)) (refl, refl, inl (refl, refl))
    | inr (t, e) ↦
        subst (Attempted x n s) (sym (tried-rendered x n t s r e))
          (deliver-Attempted x n (compiled P x.payload t) x.channel s r)
  ]

  -- The last save.
  abbrev saved_last :
      Result Notification × State P × Script → Result Notification × State P × Script
  saved_last (ok m, s, r) = save_row P m s r
  saved_last (err e, s, r) = (err e, s, r)

  Told-OneMore :
      (x : SendNotificationInput) (s : State P) (m : Notification) (ms : List ChannelMessage)
      → Told x s.mailed m ms
      → OneMore x s ms
  Told-OneMore x s m ms (inl (e, f)) = inl f
  Told-OneMore x s m ms (inr (e, f)) = inr f

  save_row-rejected :
      (m : Notification) (s : State P) (r : Script)
      → rejects (next_reply r) ≡ true
      → save_row P m s r ≡ (err rejected_call, s, later_replies r)
  save_row-rejected m s r bad = ground (arith, bad)

  save_row-saved :
      (m : Notification) (s : State P) (r : Script)
      → rejects (next_reply r) ≡ false
      → save_row P m s r ≡ (ok m, record s { rows = notifications.save m s.rows }, later_replies r)
  save_row-saved m s r good = ground (arith, good)

  saved_last-Recorded :
      (x : SendNotificationInput) (s t : State P) (y : Result Notification × State P × Script)
      → t.mailed ≡ s.mailed
      → t.rows ≡ notifications.save (queued_one x s) s.rows
      → Attempted x (queued_one x s) t y
      → Recorded x s (saved_last y)
  saved_last-Recorded x s t (ok m, s', r') same saved h =
      let told : Told x s.mailed m s'.mailed = subst (λ l. Told x l m s'.mailed) same h.2 in
      elim (Bool-cases (rejects (next_reply r'))) [
        | inl bad ↦
            subst (Recorded x s) (sym (save_row-rejected m s' r' bad))
              (refl, inr (ground (arith, saved, h.1), Told-OneMore x s m s'.mailed told))
        | inr good ↦
            subst (Recorded x s) (sym (save_row-saved m s' r' good))
              (ground (arith, notifications.get-save m.id m s'.rows), told)
      ]
  saved_last-Recorded x s t (err e, s', r') same saved h = absurd h

  send_notification-rejected :
      (x : SendNotificationInput) (s : State P) (r : Script)
      → rejects (next_reply r) ≡ true
      → send_notification P x s r ≡ (err rejected_call, s, later_replies r)
  unfolding send_notification insert_row
  send_notification-rejected x s r bad = ground (arith, bad)

  send_notification-begun :
      (x : SendNotificationInput) (s : State P) (r : Script)
      → rejects (next_reply r) ≡ false
      → let n = new_notification x (notifications.fresh s.rows) s.now in
        send_notification P x s r
        ≡ saved_last (tried x n (record s { rows = notifications.save n s.rows }) (later_replies r))
  unfolding send_notification insert_row
  send_notification-begun x s r good = ground (arith, good)

  -- A notification that is returned is stored as it is returned, and is sent where one mail has gone to
  -- its recipient and failed where none has: whichever calls reject, whatever the template and the
  -- channel. A run that throws does so for a rejected save: of the first, and nothing is written or
  -- sent, or of the last, and the row stays queued whether or not a mail has gone out.
  pub send_notification-Recorded :
      (x : SendNotificationInput) (s : State P) (r : Script)
      → Recorded x s (send_notification P x s r)
  send_notification-Recorded x s r =
      let n = new_notification x (notifications.fresh s.rows) s.now in
      let begun : State P = record s { rows = notifications.save n s.rows } in
      let rest = later_replies r in
      elim (Bool-cases (rejects (next_reply r))) [
        | inl bad ↦
            subst (Recorded x s) (sym (send_notification-rejected x s r bad))
              (refl, inl (refl, refl))
        | inr good ↦ subst (Recorded x s) (sym (send_notification-begun x s r good)) (
            saved_last-Recorded x s begun (tried x n begun rest) refl refl
              (tried-Attempted x n begun rest))
      ]
