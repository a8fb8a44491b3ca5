-- ===== src/Notices/Types.antt =====
-- The entity, the messages and the templates of the notification service: notification/entities,
-- notification/interfaces, channels/interfaces and templates/.
use distributed_nestjs_event.Base.{ℕ, Option, List, Error}
use distributed_nestjs_event.External.Repository.{Repository}

pub data NotificationChannel : Type 0 where
  email sms push : NotificationChannel

pub data NotificationStatus : Type 0 where
  queued sent failed delivered bounced : NotificationStatus

-- The ids of the templates that are registered, and any other id.
pub data TemplateId : Type 0 where
  email_verification password_reset booking_refunded booking_confirmed : TemplateId
  payment_failed hold_expired : TemplateId
  other_template : ℕ → TemplateId

-- The texts of a template, each named by its template.
pub data TemplateText : Type 0 where
  subject_of body_of html_of : TemplateId → TemplateText

pub record EmailTemplate (A : Type 0) : Type 0 where
  pub subject : A
  pub body : A
  pub html : A

pub record AttendedSeat : Type 0 where
  pub section_name : ℕ
  pub row : ℕ
  pub seat_number : ℕ
  pub attendee_name : Option ℕ
  pub attendee_email : Option ℕ

-- The `payload` of a notification. A name is missing where the text is 'Guest', and a reason where it
-- is 'Payment failed'.
pub data Fields : Type 0 where
  verification_fields reset_fields : ℕ → ℕ → Fields
  confirmed_fields : Option ℕ → ℕ → Option ℕ → ℕ → ℕ → List AttendedSeat → Fields
  failed_fields : ℕ → Option ℕ → Fields
  refunded_fields : ℕ → ℕ → ℕ → Fields

pub record Notification : Type 0 where
  pub id : ℕ
  pub user_id : Option ℕ
  pub channel : NotificationChannel
  pub type : TemplateId
  pub template_id : TemplateId
  pub recipient : ℕ
  pub payload : Fields
  pub status : NotificationStatus
  pub retry_count : ℕ
  pub failure_reason : Option Error
  pub sent_at : Option ℕ
  pub created_at : ℕ

pub record SendNotificationInput : Type 0 where
  pub user_id : Option ℕ
  pub channel : NotificationChannel
  pub type : TemplateId
  pub template_id : TemplateId
  pub recipient : ℕ
  pub payload : Fields

-- `ChannelMessage`, as nodemailer gets it
pub record ChannelMessage : Type 0 where
  pub to : ℕ
  pub texts : EmailTemplate ℕ

abbrev pub notification_key : Notification → ℕ
notification_key n = n.id

-- The table, and what Handlebars makes of a text and the fields.
pub record Platform : Type 1 where
  pub notifications : Repository Notification notification_key
  pub compile : TemplateText → Fields → ℕ

module _ (P : Platform) where
  open P use {notifications}

  -- `mailed` holds the mails that the server took, the last one first.
  pub record State : Type 0 where
    pub now : ℕ
    pub rows : notifications.Table
    pub mailed : List ChannelMessage
