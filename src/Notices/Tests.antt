-- ===== src/Notices/Tests.antt =====
-- Runs of the notification service and the theorems at them.
use distributed_nestjs_event.Base.{ℕ, ◌≡◌, refl, Option, none, some, [], ◌∷◌, answered, rejected}
use distributed_nestjs_event.External.Memory.{memory_repository}
use distributed_nestjs_event.Notices.Types.{
  Platform, State, email, TemplateText, subject_of, body_of, html_of, AttendedSeat,
  SendNotificationInput, reset_fields, password_reset, notification_key,
}
use distributed_nestjs_event.Notices.Sending.{send_notification}
use distributed_nestjs_event.Notices.Sending.Recording.{Recorded, send_notification-Recorded}
use distributed_nestjs_event.Notices.Consumers.{BookingData}
use distributed_nestjs_event.Notices.Consumers.Mailing.{addresses}

abbrev text_length : TemplateText → ℕ
text_length (subject_of t) = 1
text_length (body_of t) = 2
text_length (html_of t) = 3

abbrev platform : Platform
platform = record {
  notifications = memory_repository notification_key;
  compile = λ t fields. text_length t;
}

abbrev start : State platform
start = record { now = 700; rows = record { bound = 0; cell = λ i. none }; mailed = [] }

abbrev reset_input : SendNotificationInput
reset_input = record {
  user_id = some 4;
  channel = email;
  type = password_reset;
  template_id = password_reset;
  recipient = 20;
  payload = reset_fields 1 70;
}

send_notification-Recorded_example :
    Recorded platform reset_input start
      (send_notification platform reset_input start (answered ∷ rejected ∷ []))
send_notification-Recorded_example =
    send_notification-Recorded platform reset_input start (answered ∷ rejected ∷ [])

abbrev item : Option ℕ → AttendedSeat
item address = record {
  section_name = 1;
  row = 2;
  seat_number = 7;
  attendee_name = none;
  attendee_email = address;
}

abbrev confirmed : BookingData
confirmed = record {
  booking_id = 0;
  booking_number = 5;
  user_id = some 4;
  event_title = none;
  total_amount = 9000;
  currency = 1;
  cancellation_reason = none;
  items = item (some 20) ∷ item none ∷ item (some 21) ∷ [];
}

confirmed_addresses : addresses confirmed.items [] ≡ 21 ∷ 20 ∷ []
unfolding addresses
confirmed_addresses = refl
