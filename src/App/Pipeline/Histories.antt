-- ===== src/App/Pipeline/Histories.antt =====
-- A history of HTTP requests changes the data as the requests of it that are admitted.
use nest_order_api.Common.{
  ℕ, ◌≡◌, refl, ap, sym, ◌∙◌, List, [], ◌∷◌, Option, none, some, inl, inr, Bool-cases, Option-cases,
  if◌then◌else◌,
}
use nest_order_api.App.{Request, to_orders, to_customers, step, run}
use nest_order_api.App.Pipeline.{
  Route, orders, customers, order_search, customer_search, health, HttpRequest, Deployment, Server,
  authenticate, throttle, order_body, customer_body, dispatch, serve_parsed, serve_body, serve,
}
use nest_order_api.Auth.{RequestUser}
use nest_order_api.Customer.Controller as CustomerController
use nest_order_api.Errors.{Exception}
use nest_order_api.Effects.{ok, err, Action, ◌>>=◌, pure, Result-cases}
use nest_order_api.Order.Controller as OrderController
use nest_order_api.Order.Controller.{Reflector}
use nest_order_api.Order.Controller.Invariant.{then_pure}
use nest_order_api.Order.Event.{World}

-- The request that a route stands for, once its user is known.
abbrev pub request_of : ℕ → Route → RequestUser → Option Request
request_of now (orders cmd) user = some (to_orders user now cmd)
request_of now (customers cmd) user = some (to_customers user now cmd)
request_of now _ user = none

module _ (app : Deployment) where
  open app use {dec, orm, reflector, is_uuid, is_email}

  -- What the pipeline hands to a controller that may write, once the body is parsed: nothing of a
  -- request that is throttled or has no user.
  unfoldable admitted_parsed : HttpRequest → Server app → Option Request
  admitted_parsed req server =
      if (throttle app req server.buckets).0
      then none
      else elim (authenticate app req.now req.authorization) [
        | err e ↦ none
        | ok user ↦ request_of req.now req.route user
      ]

  -- Nothing of a request whose body the parsers refuse either.
  unfoldable pub admitted : HttpRequest → Server app → Option Request
  unfolding admitted_parsed
  admitted req server = elim req.body_error [ some e ↦ none | none ↦ admitted_parsed req server ]

  pub serve-none :
      (req : HttpRequest) (server : Server app)
      → req.body_error ≡ none
      → serve app req server ≡ serve_parsed app req server
  unfolding serve
  serve-none req server e = ap (λ b. serve_body app b req server) e

  pub serve-some :
      (req : HttpRequest) (server : Server app) (t : Exception)
      → req.body_error ≡ some t
      → serve app req server ≡ serve_body app (some t) req server
  unfolding serve
  serve-some req server t e = ap (λ b. serve_body app b req server) e

  admitted-none :
      (req : HttpRequest) (server : Server app)
      → req.body_error ≡ none
      → admitted req server ≡ admitted_parsed req server
  unfolding admitted
  admitted-none req server e =
      ap (λ b. elim b [ some t ↦ none | none ↦ admitted_parsed req server ]) e

  admitted-some :
      (req : HttpRequest) (server : Server app) (t : Exception)
      → req.body_error ≡ some t
      → admitted req server ≡ none
  unfolding admitted
  admitted-some req server t e =
      ap (λ b. elim b [ some u ↦ none | none ↦ admitted_parsed req server ]) e

  -- The change that one request makes.
  unfoldable pub after : Option Request → World orm.Db → World orm.Db
  after none w = w
  after (some r) w = step dec orm reflector is_uuid is_email r w

  -- What is made of a handler's result does not change the data.
  world_pure :
      {A B : Type 0} (m : Action (World orm.Db) A) (f : A → B) (w : World orm.Db)
      → ((m >>= λ a. pure (f a)) w).1 ≡ (m w).1
  world_pure m f w = then_pure (λ w'. w' ≡ (m w).1) m f w refl

  dispatch_user :
      (route : Route) (req : HttpRequest) (w : World orm.Db) (user : RequestUser)
      → authenticate app req.now req.authorization ≡ ok user
      → (dispatch app route req w).1 ≡ after (request_of req.now route user) w
  unfolding dispatch after step
  dispatch_user (orders cmd) req w user h =
      rw (h, ◌>>=◌)
        (world_pure (OrderController.handle dec orm reflector is_uuid user req.now cmd) order_body
          w)
  dispatch_user (customers cmd) req w user h =
      rw (h, ◌>>=◌)
        (world_pure (CustomerController.handle orm reflector is_uuid is_email user req.now cmd)
          customer_body w)
  dispatch_user (order_search dto) req w user h = rw (h, ◌>>=◌) refl
  dispatch_user (customer_search dto) req w user h = rw (h, ◌>>=◌) refl
  dispatch_user health req w user h = refl

  pub dispatch_refused :
      (route : Route) (req : HttpRequest) (w : World orm.Db) (e : Exception)
      → authenticate app req.now req.authorization ≡ err e
      → (dispatch app route req w).1 ≡ w
  unfolding dispatch
  dispatch_refused (orders cmd) req w e h = rw (h, ◌>>=◌) refl
  dispatch_refused (customers cmd) req w e h = rw (h, ◌>>=◌) refl
  dispatch_refused (order_search dto) req w e h = rw (h, ◌>>=◌) refl
  dispatch_refused (customer_search dto) req w e h = rw (h, ◌>>=◌) refl
  dispatch_refused health req w e h = refl

  serve_parsed-world :
      (req : HttpRequest) (server : Server app)
      → (serve_parsed app req server).1.world ≡ after (admitted_parsed req server) server.world
  unfolding serve_parsed admitted_parsed after
  serve_parsed-world req server = elim (Bool-cases (throttle app req server.buckets).0) [
    | inl e ↦ rw (e, serve_parsed) refl
    | inr e ↦ elim (Result-cases (authenticate app req.now req.authorization)) [
      | inl (t, f) ↦ rw (e, f) (dispatch_refused req.route req server.world t f)
      | inr (user, f) ↦ rw (e, f) (dispatch_user req.route req server.world user f)
    ]
  ]

  serve-world :
      (req : HttpRequest) (server : Server app)
      → (serve app req server).1.world ≡ after (admitted req server) server.world
  unfolding after
  serve-world req server = elim (Option-cases req.body_error) [
    | inl e ↦
        rw (serve-none req server e, admitted-none req server e) (serve_parsed-world req server)
    | inr (t, e) ↦ rw (serve-some req server t e, admitted-some req server t e) refl
  ]

  -- The server after a history of requests, and those of them that were admitted.
  unfoldable pub serve_all : List HttpRequest → Server app → Server app
  serve_all [] server = server
  serve_all (req ∷ reqs) server = serve_all reqs (serve app req server).1

  abbrev pub noted : Option Request → List Request → List Request
  noted none rs = rs
  noted (some r) rs = r ∷ rs

  unfoldable pub all_admitted : List HttpRequest → Server app → List Request
  all_admitted [] server = []
  all_admitted (req ∷ reqs) server =
      noted (admitted req server) (all_admitted reqs (serve app req server).1)

  run-noted :
      (r : Option Request) (rs : List Request) (w : World orm.Db)
      → run dec orm reflector is_uuid is_email (noted r rs) w
        ≡ run dec orm reflector is_uuid is_email rs (after r w)
  unfolding run after
  run-noted none rs w = refl
  run-noted (some r) rs w = refl

  -- The data after any history of HTTP requests is that after the order and customer requests of it
  -- that had a body that could be parsed, were within their limits and had an authenticated user, and
  -- no others, in their order.
  pub serve_all-run :
      (reqs : List HttpRequest) (server : Server app)
      → (serve_all reqs server).world
        ≡ run dec orm reflector is_uuid is_email (all_admitted reqs server) server.world
  unfolding serve_all all_admitted run
  serve_all-run [] server = refl
  serve_all-run (req ∷ reqs) server =
      let rest = all_admitted reqs (serve app req server).1 in
      serve_all-run reqs (serve app req server).1
      ∙ ap (run dec orm reflector is_uuid is_email rest) (serve-world req server)
      ∙ sym (run-noted (admitted req server) rest server.world)
