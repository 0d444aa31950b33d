-- ===== src/Config/Secure.antt =====
-- What every configuration that boots guarantees.
use nest_order_api.Common.{
  Text, lit, ◌≡◌, ◌≢◌, refl, subst, starts_with, split_on, trim, map, keep, keep-All, Bool, true,
  false, not, ◌&&◌, ◌||◌, List, [], ◌∷◌, or_else, is_some, length, ◌==◌, All, All-weaken,
  Bool-cases, Option-cases, inl, inr,
}
use nest_order_api.Config.{
  Environment, is_nonempty, parse_csv_env, parse_cors_allowed_origins, parse_trusted_proxies,
  is_production, or_undefined, parse_rabbit_mq_url, is_true, Smtp, EnvConfig, parse_smtp,
  env_config, plain_error,
}
use nest_order_api.Effects.{ok}
use nest_order_api.Fallible.{>>=-eq-ok, ok_same, guard_passed}

-- In production both connections are over TLS; in any environment credentials are sent to the mail
-- server only over TLS, a password only with a user; some origin is allowed, and no entry is empty.
pub record IsSecure {Num : Type 0} (production : Bool) (c : EnvConfig Num) : Type 0 where
  pub queue_over_tls : (not production || starts_with c.rabbitmq_url (lit "amqps://")) ≡ true
  pub mail_over_tls : (not production || c.smtp.starttls) ≡ true
  pub credentials_over_tls : (not (is_some c.smtp.user) || c.smtp.starttls) ≡ true
  pub password_with_user : (is_some c.smtp.user || not (is_some c.smtp.password)) ≡ true
  pub some_origin : c.allowed_origins ≢ []
  pub filled_origins : All (λ s. s ≢ []) c.allowed_origins
  pub filled_proxies : All (λ s. s ≢ []) c.trusted_proxies

implied : (a b : Bool) → (a ≡ true → b ≡ true) → (not a || b) ≡ true
implied true b h = h refl
implied false b h = refl

nonempty : (s : Text) → is_nonempty s ≡ true → s ≢ []
nonempty [] h = absurd (cc)
nonempty (c ∷ s) h = λ e. cc

csv_filled :
    (env : Environment) (name : Text) (required : Bool) (values : List Text)
    → parse_csv_env env name required ≡ ok values
    → All (λ s. s ≢ []) values × (required ≡ true → values ≢ [])
unfolding parse_csv_env
csv_filled env name required values h =
    let found = keep is_nonempty (map trim (split_on b',' (or_else (env name) []))) in
    let (fits, made) = guard_passed (required && length found == 0) plain_error _ h in
    subst (λ r. All (λ s. s ≢ []) r × (required ≡ true → r ≢ [])) (ok_same made)
      (
        All-weaken found nonempty
            (keep-All is_nonempty (map trim (split_on b',' (or_else (env name) [])))),
        λ r e. cc (rw (r, e) at fits),
      )

origins_filled :
    (env : Environment) (values : List Text)
    → parse_cors_allowed_origins env ≡ ok values
    → All (λ s. s ≢ []) values × (values ≢ [])
unfolding parse_cors_allowed_origins
origins_filled env values h =
    let (filled, some_entry) = csv_filled env (lit "CORS_ALLOWED_ORIGINS") true values h in
    (filled, some_entry refl)

proxies_filled :
    (env : Environment) (values : List Text)
    → parse_trusted_proxies env ≡ ok values
    → All (λ s. s ≢ []) values
unfolding parse_trusted_proxies
proxies_filled env values h = (csv_filled env (lit "TRUSTED_PROXIES") false values h).0

url_over_tls :
    (env : Environment) (url : Text)
    → parse_rabbit_mq_url env ≡ ok url
    → is_production env ≡ true
    → starts_with url (lit "amqps://") ≡ true
unfolding parse_rabbit_mq_url
url_over_tls env url h p = elim (Option-cases (or_undefined (env (lit "RABBITMQ_URL")))) [
  | inl e ↦ absurd (cc (rw (e, p, parse_rabbit_mq_url) at h))
  | inr (u, e) ↦ elim (Bool-cases (starts_with u (lit "amqps://"))) [
    | inl t ↦
        subst (λ r. starts_with r (lit "amqps://") ≡ true)
          (ok_same (rw (e, p, t, parse_rabbit_mq_url) at h)) t
    | inr n ↦ absurd (cc (rw (e, p, n, parse_rabbit_mq_url) at h))
  ]
]

module _ {Num : Type 0} (to_number : Text → Num) where
  record IsSecureSmtp (production : Bool) (s : Smtp Num) : Type 0 where
    over_tls : production ≡ true → s.starttls ≡ true
    with_user : is_some s.user ≡ true → s.starttls ≡ true
    without_user : (is_some s.user || not (is_some s.password)) ≡ true

  smtp_secure :
      (env : Environment) (s : Smtp Num)
      → parse_smtp to_number env ≡ ok s
      → IsSecureSmtp (is_production env) s
  unfolding parse_smtp
  smtp_secure env s h =
      let starttls = is_true (env (lit "SMTP_STARTTLS")) in
      let user = or_undefined (env (lit "SMTP_USER")) in
      let (fits, made) =
        guard_passed (not starttls && (is_production env || is_some user)) plain_error _ h in
      subst (IsSecureSmtp (is_production env)) (ok_same made) (record {
        over_tls =
            λ p. elim (Bool-cases starttls) [ inl t ↦ t | inr n ↦ absurd (cc (rw (n, p) at fits)) ];
        with_user = λ u. elim (Bool-cases starttls) [
          | inl t ↦ t
          | inr n ↦ elim (Bool-cases (is_production env)) [
            | inl p ↦ absurd (cc (rw (n, p) at fits))
            | inr q ↦ absurd (cc (rw (n, q, u) at fits))
          ]
        ];
        without_user = elim (Bool-cases (is_some user)) [ inl u ↦ rw u refl | inr u ↦ rw u refl ];
      })

  -- A configuration that boots is secure: outside of development and test it uses TLS for the queue
  -- and for the mail, it never has credentials for mail without TLS, it allows some origin, and its
  -- lists have no empty entry.
  pub env_config-IsSecure :
      (env : Environment) (c : EnvConfig Num)
      → env_config to_number env ≡ ok c
      → IsSecure (is_production env) c
  unfolding env_config
  env_config-IsSecure env c h =
      let (origins, e, h₁) = >>=-eq-ok (parse_cors_allowed_origins env) _ h in
      let (proxies, f, h₂) = >>=-eq-ok (parse_trusted_proxies env) _ h₁ in
      let (url, g, h₃) = >>=-eq-ok (parse_rabbit_mq_url env) _ h₂ in
      let (smtp, k, h₄) = >>=-eq-ok (parse_smtp to_number env) _ h₃ in
      let (filled, some_entry) = origins_filled env origins e in
      let mail = smtp_secure env smtp k in
      subst (IsSecure (is_production env)) (ok_same h₄) (record {
        queue_over_tls = implied (is_production env) _ (url_over_tls env url g);
        mail_over_tls = implied (is_production env) smtp.starttls mail.over_tls;
        credentials_over_tls = implied (is_some smtp.user) smtp.starttls mail.with_user;
        password_with_user = mail.without_user;
        some_origin = some_entry;
        filled_origins = filled;
        filled_proxies = proxies_filled env proxies f;
      })
