-- ===== src/Notification/Email.antt =====
-- email.service.ts: the e-mail about a status. `to_upper_case` is the language's `toUpperCase`, which
-- follows Unicode, `build_html` is the template, which throws on a date that is none, and `send_mail`
-- is nodemailer.
pub mod Cache
use nest_order_api.Common.{
  ℕ, Text, lit, ◌++◌, text_eq, take, Bool, true, false, ◌&&◌, ◌||◌, List, [], ◌∷◌, Option, none,
  some, or_else, leb, ltb, if◌then◌else◌,
}
use nest_order_api.Notification.Consumer.{SendOutcome, sent, refused, failed}

pub record SmtpConfig : Type 0 where
  pub host : Text
  pub port : ℕ
  pub starttls : Bool
  pub user : Option Text
  pub password : Option Text
  pub from : Text

-- What `createTransport` is called with.
pub record Transporter : Type 0 where
  pub host : Text
  pub port : ℕ
  pub secure : Bool
  pub require_tls : Bool
  pub auth : Option (Text × Text)

-- The properties that the service reads of an error of the driver.
pub record SmtpFailure : Type 0 where
  pub code : Option Text
  pub response_code : Option ℕ
  pub command : Option Text

-- The event as it comes out of the message.
pub record StatusMessage : Type 0 where
  pub order_id : Text
  pub customer_email : Text
  pub customer_name : Text
  pub old_status : Text
  pub new_status : Text
  pub total_amount : Text
  pub changed_at : Text

pub record Mail : Type 0 where
  pub from : Text
  pub to : Text
  pub subject : Text
  pub html : Text

pub data Delivery : Type 0 where
  accepted : Delivery
  threw : SmtpFailure → Delivery

-- `x === text`
abbrev pub is_text : Option Text → Text → Bool
is_text none t = false
is_text (some s) t = text_eq s t

-- `typeof responseCode === 'number' && responseCode >= 500 && responseCode < 600`
abbrev pub is_5xx : Option ℕ → Bool
is_5xx none = false
is_5xx (some n) = leb 500 n && ltb n 600

-- `isPermanentSmtpFailure`
unfoldable pub is_permanent_smtp_failure : SmtpFailure → Bool
is_permanent_smtp_failure failure =
    is_text failure.code (lit "EENVELOPE")
    || is_5xx failure.response_code && is_text failure.command (lit "RCPT TO")

-- `smtp.user ? { user, pass: smtp.password ?? '' } : undefined`: an empty user is none.
abbrev pub auth_of : Option Text → Option Text → Option (Text × Text)
auth_of none password = none
auth_of (some []) password = none
auth_of (some (c ∷ s)) password = some (c ∷ s, or_else password [])

unfoldable pub create_transport : SmtpConfig → Transporter
create_transport smtp = record {
  host = smtp.host;
  port = smtp.port;
  secure = false;
  require_tls = smtp.starttls;
  auth = auth_of smtp.user smtp.password;
}

-- `this.transporter ??= …`
unfoldable pub get_transporter : SmtpConfig → Option Transporter → Transporter
unfolding create_transport
get_transporter smtp transporter = or_else transporter (create_transport smtp)

-- `Order #… — …`
unfoldable pub subject_of_mail : (Text → Text) → StatusMessage → Text
subject_of_mail to_upper_case event =
    lit "Order #" ++ (to_upper_case (take 8 event.order_id) ++ (lit " — " ++ event.new_status))

module _ (to_upper_case : Text → Text) (build_html : StatusMessage → Option Text)
    (send_mail : Transporter → Mail → Delivery) where
  -- `sendOrderStatusEmail`, with the transporter that is cached before and after.
  unfoldable pub send_order_status_email :
      SmtpConfig → StatusMessage → Option Transporter → SendOutcome × Option Transporter
  unfolding get_transporter subject_of_mail is_permanent_smtp_failure
  send_order_status_email smtp event transporter =
      let t = get_transporter smtp transporter in
      elim (build_html event) [
        | none ↦ (failed, none)
        | some html ↦
            elim (send_mail t (record {
              from = smtp.from;
              to = event.customer_email;
              subject = subject_of_mail to_upper_case event;
              html = html;
            })) [
              | accepted ↦ (sent, some t)
              | threw failure ↦
                  (if is_permanent_smtp_failure failure then refused else failed, none)
            ]
      ]
