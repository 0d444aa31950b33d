-- ===== src/App/Pipeline/Replies.antt =====
-- What every response has, whatever happened to its request.
use nest_order_api.Common.{
  Text, ◌≡◌, refl, sym, subst, Option, none, some, inl, inr, Bool-cases, Option-cases,
}
use nest_order_api.App.Pipeline.{
  HttpRequest, Body, Answer, returned, thrown, Deployment, Server, throttle, dispatch, answer,
  serve_parsed, serve_body, serve,
}
use nest_order_api.App.Pipeline.Histories.{serve-none, serve-some}
use nest_order_api.Effects.{Result, ok, err}
use nest_order_api.Errors.{Exception, domain, http, version_mismatch, query_failed, other}
use nest_order_api.Errors.Filter.{is_payload_too_large, is_unique_violation, not_http, translate}
use nest_order_api.Errors.Filter.Concealed.{translate-IsMasked}
use nest_order_api.Http.RequestId.{RequestContext, use_request_id, current_request_id}
use nest_order_api.Sensitive.{global_sensitive_field_names}
use nest_order_api.Sensitive.Masked.{IsMasked}

module _ (request_id : Option Text) where
  not_http-request_id : (e : Exception) → (not_http request_id e).request_id ≡ request_id
  not_http-request_id e = elim (Bool-cases (is_payload_too_large e)) [
    | inl t ↦ rw t refl
    | inr f ↦ rw f refl
  ]

  translate-request_id : (e : Exception) → (translate request_id e).request_id ≡ request_id
  unfolding translate
  translate-request_id (version_mismatch message) = refl
  translate-request_id (query_failed e) = elim (Bool-cases (is_unique_violation e)) [
    | inl t ↦ rw t refl
    | inr f ↦ rw f (not_http-request_id (query_failed e))
  ]
  translate-request_id (domain d) = elim (Bool-cases (is_payload_too_large (domain d))) [
    | inl t ↦ rw t refl
    | inr f ↦ rw f refl
  ]
  translate-request_id (http status message) =
      elim (Bool-cases (is_payload_too_large (http status message))) [
        | inl t ↦ rw t refl
        | inr f ↦ rw f refl
      ]
  translate-request_id (other e) = not_http-request_id (other e)

-- An error carries the id that the header repeats, and shows no value of a sensitive field.
pub IsTraced : Option Text → Answer → Type 0
IsTraced id (returned body) = Unit
IsTraced id (thrown e) = (e.request_id ≡ id) × IsMasked global_sensitive_field_names e.params

-- The id of the request, if the request gets as far as the middleware.
abbrev pub id_unless : Option Exception → Text → Option Text
id_unless (some e) id = none
id_unless none id = some id

abbrev pub expected_id : HttpRequest → Option Text
expected_id req =
    id_unless req.body_error (use_request_id req.random_uuid req.supplied_id).request_id

module _ (app : Deployment) where
  answer-IsTraced :
      (context : Option RequestContext) (r : Result Body)
      → IsTraced (current_request_id context) (answer app context r)
  unfolding answer IsTraced
  answer-IsTraced context (ok body) = tt
  answer-IsTraced context (err e) = (
    translate-request_id (current_request_id context) e,
    translate-IsMasked (current_request_id context) e,
  )

  serve_parsed-IsTraced :
      (req : HttpRequest) (server : Server app)
      → ((serve_parsed app req server).0.header
          ≡ some (use_request_id req.random_uuid req.supplied_id).request_id)
        × IsTraced
            (some (use_request_id req.random_uuid req.supplied_id).request_id)
            (serve_parsed app req server).0.answer
  unfolding serve_parsed use_request_id current_request_id
  serve_parsed-IsTraced req server =
      let context = use_request_id req.random_uuid req.supplied_id in
      elim (Bool-cases (throttle app req server.buckets).0) [
        | inl e ↦
            rw (e, serve_parsed)
              (refl, answer-IsTraced (some context) (err (http 429 app.too_many)))
        | inr e ↦
            rw (e, serve_parsed)
              (refl, answer-IsTraced (some context) (dispatch app req.route req server.world).0)
      ]

  -- Every response repeats the id of its request in the header, and an error, of whatever step of
  -- the pipeline, in the body too, save the answer to a body that the parsers refuse, which has no
  -- id in either place; and no error shows a value of a sensitive field in its parameters.
  pub serve-IsTraced :
      (req : HttpRequest) (server : Server app)
      → ((serve app req server).0.header ≡ expected_id req)
        × IsTraced (expected_id req) (serve app req server).0.answer
  unfolding serve current_request_id
  serve-IsTraced req server =
      let id = (use_request_id req.random_uuid req.supplied_id).request_id in
      elim (Option-cases req.body_error) [
        | inl e ↦ rw (serve-none app req server e) (
            subst
              (λ b.
                ((serve_parsed app req server).0.header ≡ id_unless b id)
                × IsTraced (id_unless b id) (serve_parsed app req server).0.answer)
              (sym e) (serve_parsed-IsTraced req server))
        | inr (t, e) ↦ rw (serve-some app req server t e) (
            subst
              (λ b.
                ((serve_body app (some t) req server).0.header ≡ id_unless b id)
                × IsTraced (id_unless b id) (serve_body app (some t) req server).0.answer)
              (sym e) (refl, answer-IsTraced none (err t)))
      ]
