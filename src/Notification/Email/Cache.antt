-- ===== src/Notification/Email/Cache.antt =====
-- The outcome of an e-mail and the transporter that is kept.
use nest_order_api.Common.{
  ℕ, ◌≤◌, ◌<◌, Text, lit, ◌++◌, text_eq_iff, take, ◌≡◌, ◌≢◌, ◌⊎◌, ◌↔◌, refl, ap, Bool, true, false,
  ◌&&◌, ◌||◌, [], ◌∷◌, Option, none, some, or_else, Option-cases, Bool-cases, inl, inr, arith,
}
use nest_order_api.Notification.Consumer.{SendOutcome, sent, refused, failed}
use nest_order_api.Notification.Email.{
  SmtpConfig, Transporter, SmtpFailure, StatusMessage, Mail, Delivery, accepted, threw, is_text,
  is_5xx, is_permanent_smtp_failure, auth_of, create_transport, get_transporter, subject_of_mail,
  send_order_status_email,
}

-- The credentials of a configuration: none without a user, and an empty password for none.
pub data IsAuth (password : Option Text) : Option Text → Option (Text × Text) → Type 0 where
  absent : IsAuth password none none
  empty : IsAuth password (some []) none
  given : (user : Text) → user ≢ [] → IsAuth password (some user) (some (user, or_else password []))

-- A transporter to the configured server, in plain text from which TLS is required if configured so.
pub record IsConfigured (smtp : SmtpConfig) (t : Transporter) : Type 0 where
  pub host : t.host ≡ smtp.host
  pub port : t.port ≡ smtp.port
  pub secure : t.secure ≡ false
  pub require_tls : t.require_tls ≡ smtp.starttls
  pub auth : IsAuth smtp.password smtp.user t.auth

-- The server refused the envelope, or the recipient for good.
pub IsPermanent : SmtpFailure → Type 0
IsPermanent f =
    (f.code ≡ some (lit "EENVELOPE"))
    ⊎ ((n : ℕ) × (f.response_code ≡ some n)
        × (500 ≤ n)
        × (n < 600)
        × (f.command ≡ some (lit "RCPT TO")))

-- No transporter is cached, or one of the configuration.
abbrev pub IsFresh : SmtpConfig → Option Transporter → Type 0
IsFresh smtp cached =
    (cached ≡ none) ⊎ ((t : Transporter) × (cached ≡ some t) × IsConfigured smtp t)

auth_of-IsAuth : (user password : Option Text) → IsAuth password user (auth_of user password)
auth_of-IsAuth none password = absent
auth_of-IsAuth (some []) password = empty
auth_of-IsAuth (some (c ∷ s)) password = given (c ∷ s) (λ e. cc)

create_transport-IsConfigured : (smtp : SmtpConfig) → IsConfigured smtp (create_transport smtp)
unfolding create_transport
create_transport-IsConfigured smtp = record {
  host = refl;
  port = refl;
  secure = refl;
  require_tls = refl;
  auth = auth_of-IsAuth smtp.user smtp.password;
}

get_transporter-IsConfigured :
    (smtp : SmtpConfig) (cached : Option Transporter)
    → IsFresh smtp cached
    → IsConfigured smtp (get_transporter smtp cached)
unfolding get_transporter
get_transporter-IsConfigured smtp cached (inl e) = rw e (create_transport-IsConfigured smtp)
get_transporter-IsConfigured smtp cached (inr (t, e, configured)) = rw e configured

is_text_iff : (o : Option Text) (t : Text) → (is_text o t ≡ true) ↔ (o ≡ some t)
is_text_iff none t = (λ h. cc, λ h. cc)
is_text_iff (some s) t = (λ h. ap some ((text_eq_iff s t).0 h), λ h. (text_eq_iff s t).1 (cc))

is_5xx_iff : (o : Option ℕ) → (is_5xx o ≡ true) ↔ ((n : ℕ) × (o ≡ some n) × (500 ≤ n) × (n < 600))
is_5xx_iff none = (λ h. cc, λ h. let (_, e, _, _) = h in cc)
is_5xx_iff (some n) = (
  λ h. (n, refl, ground (arith, h), ground (arith, h)),
  λ h. let (m, e, least, most) = h in let same : n ≡ m = cc in ground (arith, same, least, most),
)

either_iff :
    {P Q R : Type 0} (p q r : Bool)
    → (p ≡ true) ↔ P
    → (q ≡ true) ↔ Q
    → (r ≡ true) ↔ R
    → ((p || (q && r)) ≡ true) ↔ (P ⊎ (Q × R))
either_iff true q r f g k = (λ h. inl (f.0 refl), λ h. refl)
either_iff false true true f g k = (λ h. inr (g.0 refl, k.0 refl), λ h. refl)
either_iff false true false f g k = (λ h. cc, λ h. elim h [ inl p ↦ f.1 p | inr (_, r) ↦ k.1 r ])
either_iff false false r f g k = (λ h. cc, λ h. elim h [ inl p ↦ f.1 p | inr (q, _) ↦ g.1 q ])

is_permanent_smtp_failure_iff :
    (f : SmtpFailure) → (is_permanent_smtp_failure f ≡ true) ↔ IsPermanent f
unfolding is_permanent_smtp_failure IsPermanent
is_permanent_smtp_failure_iff f =
    let both =
      either_iff _ _ _ (is_text_iff f.code (lit "EENVELOPE")) (is_5xx_iff f.response_code)
        (is_text_iff f.command (lit "RCPT TO")) in
    (
      λ h. elim (both.0 h) [
        | inl e ↦ inl e
        | inr ((n, e, least, most), c) ↦ inr (n, e, least, most, c)
      ],
      λ h. elim h [
        | inl e ↦ both.1 (inl e)
        | inr (n, e, least, most, c) ↦ both.1 (inr ((n, e, least, most), c))
      ],
    )

Delivery-cases : (d : Delivery) → (d ≡ accepted) ⊎ ((f : SmtpFailure) × (d ≡ threw f))
Delivery-cases accepted = inl refl
Delivery-cases (threw f) = inr (f, refl)

module _ (to_upper_case : Text → Text) (build_html : StatusMessage → Option Text)
    (send_mail : Transporter → Mail → Delivery) where
  -- The e-mail of an event with its text.
  abbrev pub mail_of : SmtpConfig → StatusMessage → Text → Mail
  mail_of smtp event html = record {
    from = smtp.from;
    to = event.customer_email;
    subject =
        lit "Order #" ++ (to_upper_case (take 8 event.order_id) ++ (lit " — " ++ event.new_status));
    html = html;
  }

  -- How an attempt can end, over a transporter.
  pub data Attempt (smtp : SmtpConfig) (event : StatusMessage) (t : Transporter)
      : SendOutcome × Option Transporter → Type 0 where
    unbuilt : build_html event ≡ none → Attempt smtp event t (failed, none)
    delivered :
        (html : Text)
        → build_html event ≡ some html
        → send_mail t (mail_of smtp event html) ≡ accepted
        → Attempt smtp event t (sent, some t)
    permanent :
        (html : Text) (f : SmtpFailure)
        → build_html event ≡ some html
        → send_mail t (mail_of smtp event html) ≡ threw f
        → IsPermanent f
        → Attempt smtp event t (refused, none)
    transient :
        (html : Text) (f : SmtpFailure)
        → build_html event ≡ some html
        → send_mail t (mail_of smtp event html) ≡ threw f
        → ¬ (IsPermanent f)
        → Attempt smtp event t (failed, none)

  Attempt-of :
      (smtp : SmtpConfig) (event : StatusMessage) (cached : Option Transporter)
      → Attempt smtp event
          (get_transporter smtp cached)
          (send_order_status_email to_upper_case build_html send_mail smtp event cached)
  unfolding send_order_status_email subject_of_mail
  Attempt-of smtp event cached =
      let t = get_transporter smtp cached in
      elim (Option-cases (build_html event)) [
        | inl e ↦ rw (e, send_order_status_email) (unbuilt e)
        | inr (html, e) ↦ elim (Delivery-cases (send_mail t (mail_of smtp event html))) [
          | inl a ↦ rw (e, a, send_order_status_email) (delivered html e a)
          | inr (f, h) ↦ elim (Bool-cases (is_permanent_smtp_failure f)) [
            | inl p ↦
                rw (e, h, p, send_order_status_email)
                  (permanent html f e h ((is_permanent_smtp_failure_iff f).0 p))
            | inr n ↦
                rw (e, h, n, send_order_status_email)
                  (transient html f e h (λ p. cc (n, (is_permanent_smtp_failure_iff f).1 p)))
          ]
        ]
      ]

  -- From an empty or fresh cache an e-mail goes over a transporter of the configuration, which has its
  -- server and credentials and requires TLS if it says so; the cache keeps the transporter only after a
  -- success; and the outcome is a refusal exactly on a refused envelope or a 5xx reply to `RCPT TO`.
  pub send_order_status_email-Attempt :
      (smtp : SmtpConfig) (event : StatusMessage) (cached : Option Transporter)
      → IsFresh smtp cached
      → (t : Transporter) × IsConfigured smtp t
        × Attempt smtp event t
            (send_order_status_email to_upper_case build_html send_mail smtp event cached)
  send_order_status_email-Attempt smtp event cached fresh = (
    get_transporter smtp cached,
    get_transporter-IsConfigured smtp cached fresh,
    Attempt-of smtp event cached,
  )
