-- ===== src/Examples/NotificationWitnesses.antt =====
-- Messages, e-mails, environments and headers at which the theorems are applied.
use nest_order_api.Common.{
  zero, suc, ℕ, ◌+◌, ◌<◌, ◌≡◌, subst, refl, inl, Text, lit, text_eq, starts_with, split_on,
  to_upper, trim, true, false, [], ◌∷◌, Option, none, some, length, all, arith, if◌then◌else◌,
}
use nest_order_api.Config.{
  Environment, EnvConfig, env_config, is_production, parse_csv_env, parse_cors_allowed_origins,
  parse_trusted_proxies, parse_rabbit_mq_url, parse_smtp,
}
use nest_order_api.Config.Secure.{IsSecure, env_config-IsSecure}
use nest_order_api.Http.RequestId.{use_request_id, use_request_id-IsUuid}
use nest_order_api.Notification.Connection.{
  Round, Manager, good, get_channel, is_unreachable, connect_with_retry, connect_with_retry_ends,
  connect_with_retry_stuck,
}
use nest_order_api.Notification.Consumer.{
  Message, Circumstances, delivering, replaced, closed, sent, handle_message, remembered_messages,
  is_wanted,
}
use nest_order_api.Notification.Consumer.Handled.{
  Settles, handle_message-Settles, handle_message_once,
}
use nest_order_api.Notification.Consumer.Queue.{with_channel}
use nest_order_api.Notification.Email.{
  SmtpConfig, Transporter, StatusMessage, Mail, Delivery, threw, send_order_status_email,
}
use nest_order_api.Notification.Email.Cache.{IsConfigured, Attempt, send_order_status_email-Attempt}
use nest_order_api.Notification.Publisher.{event_value, published}
use nest_order_api.Notification.RecentMessageIds.{add_all}
use nest_order_api.Order.Event.{OrderStatusChangedEvent}
use nest_order_api.Order.Status.{opened, confirmed}
use nest_order_api.Patterns.Uuid.{is_uuid_unit}
use nest_order_api.Values.{Value}

abbrev pub confirmation : OrderStatusChangedEvent
confirmation = record {
  order_id = lit "o1";
  customer_email = lit "a@b.c";
  customer_name = lit "Alice";
  old_status = opened;
  new_status = confirmed;
  total_amount = lit "3.00";
  changed_at = 5;
}

abbrev pub iso : ℕ → Text
iso t = lit "1970-01-01"

abbrev pub printed : Value → Text
printed v = lit "{}"

-- The one text that is JSON.
abbrev pub read_back : Text → Option Value
read_back s = if text_eq s (lit "{}") then some (event_value iso printed confirmation) else none

abbrev pub told : Message
told = published iso printed (lit "m1") confirmation

-- The channel is lost while the e-mail is sent, and another one comes during the wait.
abbrev shaky : Circumstances
shaky = record {
  outcome = sent;
  at_arrival = delivering;
  after_sending = closed;
  after_wait = replaced;
}

handle_message-Settles_example :
    Settles (is_wanted read_back told) shaky told [] (handle_message read_back shaky told [])
handle_message-Settles_example = handle_message-Settles read_back shaky told []

handle_message_once_example :
    (handle_message read_back (with_channel sent) told (
      add_all remembered_messages
        (lit "m2" ∷ [])
        (handle_message read_back shaky told []).sent_message_ids)).mailed
    ≡ false
unfolding handle_message published text_eq
handle_message_once_example =
    handle_message_once read_back shaky (with_channel sent) told told (lit "m1") [] (lit "m2" ∷ [])
      refl refl refl (omega arith)

abbrev smtp : SmtpConfig
smtp = record {
  host = lit "mail";
  port = 587;
  starttls = true;
  user = some (lit "api");
  password = none;
  from = lit "no-reply@order-api.local";
}

abbrev mail_event : StatusMessage
mail_event = record {
  order_id = lit "o1";
  customer_email = lit "a@b.c";
  customer_name = lit "Alice";
  old_status = lit "OPEN";
  new_status = lit "CONFIRMED";
  total_amount = lit "3.00";
  changed_at = lit "1970-01-01";
}

-- A server that does not know the recipient.
abbrev refusing : Transporter → Mail → Delivery
refusing t m =
    threw (record { code = none; response_code = some 550; command = some (lit "RCPT TO") })

send_order_status_email-Attempt_example :
    (t : Transporter) × IsConfigured smtp t
    × Attempt to_upper
        (λ e. some e.customer_name)
        refusing
        smtp
        mail_event
        t
        (send_order_status_email to_upper (λ e. some e.customer_name) refusing smtp mail_event none)
send_order_status_email-Attempt_example =
    send_order_status_email-Attempt to_upper (λ e. some e.customer_name) refusing smtp mail_event
      none (inl refl)

abbrev production : Environment
production name =
    if text_eq name (lit "NODE_ENV")
    then some (lit "production")
    else if text_eq name (lit "CORS_ALLOWED_ORIGINS")
    then some (lit " https://a ,")
    else if text_eq name (lit "RABBITMQ_URL")
    then some (lit "amqps://mq")
    else if text_eq name (lit "SMTP_STARTTLS")
    then some (lit "true")
    else none

abbrev loaded : EnvConfig Text
loaded = record {
  allowed_origins = lit "https://a" ∷ [];
  default_page = lit "0";
  default_size = lit "20";
  max_size = lit "100";
  points = lit "100";
  duration = lit "60";
  trusted_proxies = [];
  rabbitmq_url = lit "amqps://mq";
  smtp = record {
    host = lit "localhost";
    port = lit "1025";
    from = lit "no-reply@order-api.local";
    starttls = true;
    user = none;
    password = none;
  };
}

env_config-IsSecure_example : IsSecure (is_production production) loaded
unfolding env_config parse_csv_env parse_cors_allowed_origins parse_trusted_proxies
    parse_rabbit_mq_url parse_smtp is_production text_eq starts_with split_on trim
env_config-IsSecure_example = env_config-IsSecure (λ s. s) production loaded refl

-- The broker is away, then accepts the connection only, and then all is well.
abbrev third_time : ℕ → Round
third_time zero = record good { connects = false }
third_time (suc zero) = record good { creates = false }
third_time (suc (suc _)) = good

abbrev unconnected : Manager
unconnected = record {
  has_connection = false;
  has_channel = false;
  is_open = false;
  destroyed = false;
}

out_of_reach : (j : ℕ) → j < 2 → is_unreachable (third_time j) ≡ true
out_of_reach zero h = refl
out_of_reach (suc zero) h = refl
out_of_reach (suc (suc j)) h = absurd (omega (arith, h))

connect_with_retry_ends_example : (connect_with_retry third_time 3 0 unconnected).0 ≡ true
connect_with_retry_ends_example =
    connect_with_retry_ends third_time 2 0 unconnected refl refl
      (λ j h.
        let same : j ≡ 0 + j = omega arith in
        subst (λ n. is_unreachable (third_time n) ≡ true) same (out_of_reach j h))
      refl

-- The queues exist with other arguments at the first attempt, and never again.
abbrev refused_once : Manager
refused_once = (get_channel (record good { declares = false }) unconnected).1

connect_with_retry_stuck_example : (connect_with_retry (λ _. good) 100 1 refused_once).0 ≡ false
unfolding get_channel
connect_with_retry_stuck_example = connect_with_retry_stuck (λ _. good) 100 1 refused_once refl refl

abbrev drawn : Text
drawn = lit "123e4567-e89b-42d3-a456-426614174000"

use_request_id-IsUuid_example :
    ((use_request_id drawn (some (lit "forged\nline"))).header
      ≡ (use_request_id drawn (some (lit "forged\nline"))).request_id)
    × (all is_uuid_unit (use_request_id drawn (some (lit "forged\nline"))).request_id ≡ true)
    × (length (use_request_id drawn (some (lit "forged\nline"))).request_id ≡ 36)
use_request_id-IsUuid_example = use_request_id-IsUuid drawn (some (lit "forged\nline")) refl refl
