-- ===== src/Notices/Consumers.antt =====
-- The consumers of the notification service (apps/notification-service/src/consumers):
-- booking.consumer.ts and auth.consumer.ts.
pub mod Mailing
use distributed_nestjs_event.Base.{
  ℕ, Option, none, some, List, [], ◌∷◌, Action, pure, throw, ◌>>◌, type_error,
}
use mathlib.Core.Option
use distributed_nestjs_event.Notices.Types.{
  Platform, State, email, TemplateId, email_verification, password_reset, booking_refunded,
  booking_confirmed, payment_failed, AttendedSeat, Fields, verification_fields, reset_fields,
  confirmed_fields, failed_fields, refunded_fields, SendNotificationInput,
}
use distributed_nestjs_event.Notices.Sending.{send_notification}

-- The payload of a message, which holds the data in a `value` or is the data itself.
pub data Delivered (A : Type 0) : Type 0 where
  in_value bare : A → Delivered A

-- `payload?.value ?? payload`
abbrev pub data_of : {A : Type 0} → Delivered A → A
data_of (in_value d) = d
data_of (bare d) = d

pub record LinkData : Type 0 where
  pub user_id : ℕ
  pub email_address : ℕ
  pub full_name : ℕ
  pub url : ℕ

pub record BookingData : Type 0 where
  pub booking_id : ℕ
  pub booking_number : ℕ
  pub user_id : Option ℕ
  pub event_title : Option ℕ
  pub total_amount : ℕ
  pub currency : ℕ
  pub cancellation_reason : Option ℕ
  pub items : List AttendedSeat

-- `data.items?.[0]?.attendeeEmail`
abbrev pub primary_email : List AttendedSeat → Option ℕ
primary_email [] = none
primary_email (x ∷ xs) = x.attendee_email

abbrev pub input_of : Option ℕ → TemplateId → ℕ → Fields → SendNotificationInput
input_of user t recipient fields = record {
  user_id = user;
  channel = email;
  type = t;
  template_id = t;
  recipient = recipient;
  payload = fields;
}

abbrev pub confirmed_input : BookingData → AttendedSeat → ℕ → SendNotificationInput
confirmed_input d x recipient = input_of d.user_id booking_confirmed recipient (
    confirmed_fields x.attendee_name d.booking_number d.event_title d.total_amount d.currency
      d.items)

module _ (P : Platform) where
  abbrev pub notify : SendNotificationInput → Action (State P) (Unit {0})
  notify x = send_notification P x >> pure tt

  -- the body of the loop: an item without an address is passed over
  abbrev pub confirm_to : BookingData → AttendedSeat → Option ℕ → Action (State P) (Unit {0})
  confirm_to d x none = pure tt
  confirm_to d x (some recipient) = notify (confirmed_input d x recipient)

  unfoldable pub confirm_all : BookingData → List AttendedSeat → Action (State P) (Unit {0})
  confirm_all d [] = pure tt
  confirm_all d (x ∷ xs) = confirm_to d x x.attendee_email >> confirm_all d xs

  unfoldable pub handle_booking_confirmed : Delivered BookingData → Action (State P) (Unit {0})
  handle_booking_confirmed p = confirm_all (data_of p) (data_of p).items

  abbrev pub cancelled_to : BookingData → Option ℕ → Action (State P) (Unit {0})
  cancelled_to d none = pure tt
  cancelled_to d (some recipient) = notify (
      input_of d.user_id payment_failed recipient
        (failed_fields d.booking_number d.cancellation_reason))

  unfoldable pub handle_booking_cancelled : Delivered BookingData → Action (State P) (Unit {0})
  handle_booking_cancelled p = cancelled_to (data_of p) (primary_email (data_of p).items)

  abbrev pub refunded_to : BookingData → Option ℕ → Action (State P) (Unit {0})
  refunded_to d none = pure tt
  refunded_to d (some recipient) = notify (
      input_of d.user_id booking_refunded recipient
        (refunded_fields d.booking_number d.total_amount d.currency))

  -- `payload.value` of a bare payload is undefined
  unfoldable pub handle_booking_refunded : Delivered BookingData → Action (State P) (Unit {0})
  handle_booking_refunded (in_value d) = refunded_to d (primary_email d.items)
  handle_booking_refunded (bare d) = throw type_error

  unfoldable pub handle_email_verification : Delivered LinkData → Action (State P) (Unit {0})
  handle_email_verification (in_value d) = notify (
      input_of (some d.user_id) email_verification d.email_address
        (verification_fields d.full_name d.url))
  handle_email_verification (bare d) = throw type_error

  unfoldable pub handle_password_reset : Delivered LinkData → Action (State P) (Unit {0})
  handle_password_reset (in_value d) =
      notify
        (input_of (some d.user_id) password_reset d.email_address (reset_fields d.full_name d.url))
  handle_password_reset (bare d) = throw type_error
