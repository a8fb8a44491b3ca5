-- ===== src/Notices/Sending.antt =====
-- `NotificationService` (apps/notification-service/src/notification/notification.service.ts), with
-- `TemplateEngine.render` (templates/template.engine.ts) and `EmailAdapter.send`
-- (channels/email.adapter.ts).
pub mod Recording
use distributed_nestjs_event.Base.{
  ℕ, ◌==◌, Bool, false, Option, none, some, List, ◌∷◌, Error, ok, rejects, rejected_call, Action,
  pure, throw, gets, query, write, try_catch, ◌>>=◌, ◌>>◌, next_reply, later_replies, if◌then◌else◌,
  template_not_found, unsupported_channel,
}
use mathlib.Core.Option
use distributed_nestjs_event.Notices.Types.{
  Platform, State, NotificationChannel, email, sms, push, queued, sent, failed, TemplateId,
  email_verification, password_reset, booking_refunded, booking_confirmed, payment_failed,
  hold_expired, other_template, TemplateText, subject_of, body_of, html_of, EmailTemplate, Fields,
  Notification, SendNotificationInput, ChannelMessage,
}

abbrev pub texts_of : TemplateId → EmailTemplate TemplateText
texts_of t = record { subject = subject_of t; body = body_of t; html = html_of t }

-- `this.templates.get(templateId)`
unfoldable pub get_template : TemplateId → Option (EmailTemplate TemplateText)
get_template email_verification = some (texts_of email_verification)
get_template password_reset = some (texts_of password_reset)
get_template booking_refunded = some (texts_of booking_refunded)
get_template booking_confirmed = some (texts_of booking_confirmed)
get_template payment_failed = some (texts_of payment_failed)
get_template hold_expired = some (texts_of hold_expired)
get_template (other_template n) = none

-- `notificationRepo.create({ … })`; the insert replaces the id
abbrev pub new_notification : SendNotificationInput → ℕ → ℕ → Notification
new_notification x i now = record {
  id = i;
  user_id = x.user_id;
  channel = x.channel;
  type = x.type;
  template_id = x.template_id;
  recipient = x.recipient;
  payload = x.payload;
  status = queued;
  retry_count = 0;
  failure_reason = none;
  sent_at = none;
  created_at = now;
}

-- what `send` writes into the entity by the result of the channel, where `none` is a success
abbrev pub with_result : ℕ → Option Error → Notification → Notification
with_result now none n = record n { status = sent; sent_at = some now }
with_result now (some e) n = record n { status = failed; failure_reason = some e }

-- `where: { userId }`
abbrev pub is_user : ℕ → Option ℕ → Bool
is_user user none = false
is_user user (some u) = u == user

module _ (P : Platform) where
  open P use {notifications, compile}

  abbrev pub compiled : Fields → EmailTemplate TemplateText → EmailTemplate ℕ
  compiled fields t = record {
    subject = compile t.subject fields;
    body = compile t.body fields;
    html = compile t.html fields;
  }

  -- `TemplateEngine.render`
  abbrev pub render : TemplateId → Fields → Action (State P) (EmailTemplate ℕ)
  render t fields = elim (get_template t) [
    | none ↦ throw template_not_found
    | some x ↦ pure (compiled fields x)
  ]

  -- `EmailAdapter.send`, which answers with the error of the mail server instead of throwing it
  abbrev pub adapter_send : ChannelMessage → Action (State P) (Option Error)
  adapter_send m s r = (
    ok (if rejects (next_reply r) then some rejected_call else none),
    if rejects (next_reply r) then s else record s { mailed = m ∷ s.mailed },
    later_replies r,
  )

  -- the choice of the channel
  abbrev pub deliver_on :
      NotificationChannel → ℕ → EmailTemplate ℕ → Action (State P) (Option Error)
  deliver_on email recipient texts = adapter_send (record { to = recipient; texts = texts })
  deliver_on sms recipient texts = throw unsupported_channel
  deliver_on push recipient texts = throw unsupported_channel

  -- the `try` block to the end of its tests
  abbrev pub attempt : SendNotificationInput → Notification → Action (State P) Notification
  attempt x saved = render x.template_id x.payload >>= λ rendered.
      deliver_on x.channel x.recipient rendered >>= λ result.
      gets (λ s. with_result s.now result saved)

  abbrev pub save_row : Notification → Action (State P) Notification
  save_row n = write (λ s. record s { rows = notifications.save n s.rows }) >> pure n

  unfoldable pub insert_row : SendNotificationInput → Action (State P) Notification
  insert_row x =
      gets (λ s. new_notification x (notifications.fresh s.rows) s.now) >>= λ n. save_row n

  -- `send`. The saves at the end of both blocks are returned without an await, so that the `catch`
  -- block does not see a rejection of the first one.
  unfoldable pub send_notification : SendNotificationInput → Action (State P) Notification
  send_notification x = insert_row x >>= λ saved.
      try_catch (attempt x saved) (λ error. pure (with_result 0 (some error) saved)) >>= save_row

  abbrev pub find_by_user : ℕ → Action (State P) (List Notification)
  find_by_user user = query (λ s. notifications.find (λ n. is_user user n.user_id) s.rows)
