-- ===== src/App/Pipeline/Refusals.antt =====
-- What a request that does not get to its handler is answered, and the probe, which always does.
use nest_order_api.Common.{
  ℕ, Text, lit, ◌≡◌, refl, sym, ◌∙◌, ap, Bool, true, false, none, some, ◌⊎◌, inl, inr, Bool-cases,
  Option-cases, if◌then◌else◌,
}
use nest_order_api.App.Pipeline.{
  Route, orders, customers, order_search, customer_search, health, HttpRequest, Answer, returned,
  thrown, health_body, Deployment, Server, authenticate, throttle, dispatch, answer, Response,
  serve_parsed, serve,
}
use nest_order_api.App.Pipeline.Histories.{dispatch_refused, serve-none, serve-some}
use nest_order_api.Auth.{validate, unauthorized}
use nest_order_api.Auth.Laws.{validate-err}
use nest_order_api.Effects.{Result, err, ◌>>=◌, Result-cases}
use nest_order_api.Errors.{
  Exception, authorization_unauthenticated, validation_rate_limit_exceeded, internal_error,
}
use nest_order_api.Errors.Filter.{send, translate, is_payload_too_large, default_code_for}
use nest_order_api.Health
use nest_order_api.Http.RequestId.{use_request_id, current_request_id}

err_same : {A : Type 0} {a b : Exception} → ◌≡◌ {A = Result A} (err a) (err b) → a ≡ b
err_same h = cc

-- The routes behind `JwtAuthGuard`.
abbrev pub is_guarded : Route → Bool
is_guarded health = false
is_guarded _ = true

abbrev pub unauthenticated : Text → Answer
unauthenticated id =
    thrown (send (some id) 401 authorization_unauthenticated (lit "Authentication required"))

abbrev pub limited : Text → Text → Answer
limited id message = thrown (send (some id) 429 validation_rate_limit_exceeded message)

-- The answer to a body that the parsers refuse, without an id.
abbrev pub unparsed : Exception → Response
unparsed e = record { header = none; answer = thrown (translate none e) }

-- The id that the middleware gives the request.
abbrev pub id_of : HttpRequest → Text
id_of req = (use_request_id req.random_uuid req.supplied_id).request_id

module _ (app : Deployment) where
  dispatch_unauthenticated :
      (route : Route) (req : HttpRequest) (w : _)
      → is_guarded route ≡ true
      → authenticate app req.now req.authorization ≡ err unauthorized
      → (dispatch app route req w).0 ≡ err unauthorized
  unfolding dispatch
  dispatch_unauthenticated (orders cmd) req w g h = rw (h, ◌>>=◌) refl
  dispatch_unauthenticated (customers cmd) req w g h = rw (h, ◌>>=◌) refl
  dispatch_unauthenticated (order_search dto) req w g h = rw (h, ◌>>=◌) refl
  dispatch_unauthenticated (customer_search dto) req w g h = rw (h, ◌>>=◌) refl
  dispatch_unauthenticated health req w g h = cc

  authenticate-err :
      (now : ℕ) (authorization : _) (e : Exception)
      → authenticate app now authorization ≡ err e
      → e ≡ unauthorized
  unfolding authenticate
  authenticate-err now authorization e h = elim (Option-cases (app.passport now authorization)) [
    | inl f ↦ sym (err_same (rw (f, authenticate) at h))
    | inr (p, f) ↦ elim (Result-cases (validate (λ sub. sub) p)) [
      | inl (t, g) ↦
          let same : t ≡ e = err_same (rw (f, g, authenticate) at h) in
          sym same ∙ validate-err (λ sub. sub) p t g
      | inr (u, g) ↦ absurd (cc (rw (f, g, authenticate) at h))
    ]
  ]

  parsed-unauthenticated :
      (req : HttpRequest) (server : Server app)
      → is_guarded req.route ≡ true
      → authenticate app req.now req.authorization ≡ err unauthorized
      → ((serve_parsed app req server).1.world ≡ server.world)
        × (((serve_parsed app req server).0.answer ≡ unauthenticated (id_of req))
            ⊎ (((throttle app req server.buckets).0 ≡ true)
                × ((serve_parsed app req server).0.answer ≡ limited (id_of req) app.too_many)))
  unfolding serve_parsed answer use_request_id current_request_id translate is_payload_too_large
      default_code_for
  parsed-unauthenticated req server g u = elim (Bool-cases (throttle app req server.buckets).0) [
    | inl t ↦ rw (t, serve_parsed) (refl, inr (refl, refl))
    | inr f ↦
        rw (f, serve_parsed)
          (
            dispatch_refused app req.route req server.world unauthorized u,
            inl (rw (dispatch_unauthenticated req.route req server.world g u) refl),
          )
  ]

  -- A request without a user to an order or customer route changes no data, whatever its token
  -- lacks. Before any other check, a body that the parsers refuse gets the filter's translation of
  -- their error, without a request id; otherwise the answer is one fixed 401, or 429 where the request
  -- is over its limit.
  pub serve-unauthenticated :
      (req : HttpRequest) (server : Server app) (e : Exception)
      → is_guarded req.route ≡ true
      → authenticate app req.now req.authorization ≡ err e
      → ((serve app req server).1.world ≡ server.world)
        × (((t : Exception) × (req.body_error ≡ some t) × ((serve app req server).0 ≡ unparsed t))
            ⊎ ((req.body_error ≡ none)
                × (((serve app req server).0.answer ≡ unauthenticated (id_of req))
                    ⊎ (((throttle app req server.buckets).0 ≡ true)
                        × ((serve app req server).0.answer ≡ limited (id_of req) app.too_many)))))
  unfolding serve answer current_request_id
  serve-unauthenticated req server e g h =
      let u : authenticate app req.now req.authorization ≡ err unauthorized =
        h ∙ ap err (authenticate-err req.now req.authorization e h) in
      elim (Option-cases req.body_error) [
        | inl b ↦
            let (kept, answered) = parsed-unauthenticated req server g u in
            rw (serve-none app req server b) (kept, inr (b, answered))
        | inr (t, b) ↦ rw (serve-some app req server t b) (refl, inl (t, b, refl))
      ]

  -- A request over its limit whose body is parsed changes no data and is answered 429, on whatever
  -- route.
  pub serve-limited :
      (req : HttpRequest) (server : Server app)
      → req.body_error ≡ none
      → (throttle app req server.buckets).0 ≡ true
      → ((serve app req server).1.world ≡ server.world)
        × ((serve app req server).0.answer ≡ limited (id_of req) app.too_many)
  unfolding serve serve_parsed answer use_request_id current_request_id translate
      is_payload_too_large default_code_for
  serve-limited req server b t = rw (serve-none app req server b, t, serve_parsed) (refl, refl)

  throttle_health :
      (req : HttpRequest) (buckets : app.Buckets)
      → req.route ≡ health
      → throttle app req buckets ≡ (false, buckets)
  unfolding throttle
  throttle_health req buckets r = rw r refl

  -- The probe needs no token and is never limited or counted: it changes nothing, and says whether
  -- the database responds.
  pub serve_health :
      (req : HttpRequest) (server : Server app)
      → req.route ≡ health
      → req.body_error ≡ none
      → ((serve app req server).1 ≡ server)
        × ((serve app req server).0.answer ≡ (
            if app.responds req.now
            then returned (health_body (lit "ok"))
            else thrown (send (some (id_of req)) 503 internal_error (lit "Database unavailable"))))
  unfolding serve serve_parsed answer use_request_id current_request_id translate
      is_payload_too_large default_code_for Health.check
  serve_health req server r b = elim (Bool-cases (app.responds req.now)) [
    | inl up ↦
        rw
          (
            serve-none app req server b,
            throttle_health req server.buckets r,
            r,
            up,
            serve_parsed,
            dispatch,
            Health.check,
          )
          (refl, refl)
    | inr down ↦
        rw
          (
            serve-none app req server b,
            throttle_health req server.buckets r,
            r,
            down,
            serve_parsed,
            dispatch,
            Health.check,
          )
          (refl, refl)
  ]
