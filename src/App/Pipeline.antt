-- ===== src/App/Pipeline.antt =====
-- app.module.ts and bootstrap/configure-app.ts: what a request passes on its way, in the
-- framework's documented order: the body parsers, the middleware (the request's id), the throttler,
-- the guards of the route, its interceptor and pipes, the handler, and the exception filter for
-- whatever throws.
pub mod Replies
pub mod Refusals
pub mod Histories
use nest_order_api.Common.{
  ℕ, ◌*◌, Text, lit, Bool, true, false, Option, none, some, if◌then◌else◌, List, [], ◌∷◌,
}
use nest_order_api.App.{Request, to_orders, to_customers}
use nest_order_api.Auth.{JwtPayload, ValidatedUser, validate, unauthorized, RequestUser}
use nest_order_api.Config.{EnvConfig}
use nest_order_api.Customer.Controller as CustomerController
use nest_order_api.Customer.Entity.{Customer, CustomerResponse}
use nest_order_api.Customer.Search as CustomerSearch
use nest_order_api.Effects.{Result, ok, err, Action, ◌>>=◌, ◌>>◌, pure, of_result}
use nest_order_api.Errors.{Exception, http}
use nest_order_api.Errors.Filter.{ErrorResponse, translate}
use nest_order_api.Health
use nest_order_api.Http.RateLimit.{Claims, TrackedRequest, rate_limit_key}
use nest_order_api.Http.RequestId.{RequestContext, use_request_id, current_request_id}
use nest_order_api.Money.{Decimal}
use nest_order_api.Order.Controller as OrderController
use nest_order_api.Order.Controller.{Reflector}
use nest_order_api.Order.Entity.{Order, OrderResponse}
use nest_order_api.Order.Event.{World}
use nest_order_api.Order.Search as OrderSearch
use nest_order_api.Order.Search.{FoundOrder}
use nest_order_api.Orm.{Orm}
use nest_order_api.Search.Service.{Page, Repository, SearchRequest}
use nest_order_api.Values.{Value}

-- The routes, with what the framework parsed of the path, the query and the body.
pub data Route : Type 0 where
  orders : OrderController.Command → Route
  customers : CustomerController.Command → Route
  order_search customer_search : SearchRequest → Route
  health : Route

pub record HttpRequest : Type 0 where
  pub route : Route
  pub supplied_id : Option Text  -- the header `x-request-id`
  pub random_uuid : Text
  pub authorization : Value
  pub ip : Value
  pub now : ℕ
  pub body_error : Option Exception  -- what the body parsers throw on its body, if they do

-- What a handler returns.
pub data Body : Type 0 where
  order_body : Option OrderResponse → Body
  customer_body : Option CustomerResponse → Body
  order_page : Page OrderResponse → Body
  customer_page : Page CustomerResponse → Body
  health_body : Text → Body

pub data Answer : Type 0 where
  returned : Body → Answer
  thrown : ErrorResponse → Answer

pub record Response : Type 0 where
  pub header : Option Text  -- `x-request-id`, if it is set
  pub answer : Answer

pub record Limit : Type 0 where
  pub limit : ℕ
  pub ttl : ℕ

-- `throttlers`, from the configuration.
abbrev pub throttlers : EnvConfig ℕ → Limit
throttlers config = record { limit = config.points; ttl = config.duration * 1000 }

abbrev pub order_rate_limit : Limit
order_rate_limit = record { limit = 30; ttl = 60000 }

-- `@Throttle` and `@SkipThrottle`.
abbrev pub limit_of : Limit → Route → Option Limit
limit_of default (orders (OrderController.find_by_id id)) = some default
limit_of default (orders cmd) = some order_rate_limit
limit_of default health = none
limit_of default _ = some default

-- What the pipeline is built of: the libraries behind it, and the configuration. `hit` counts a
-- request of a handler under a key: whether it is over the limit, and the buckets after it.
-- `passport` extracts and verifies the token of a header and `verify` verifies a token, each at a
-- time; that the preferred name of an issued token is a text is OpenID Connect's. `responds` is the
-- database's answer to the probe.
pub record Deployment : Type 1 where
  pub dec : Decimal
  pub orm : Orm
  pub reflector : Reflector
  pub is_uuid : Text → Bool
  pub is_email : Text → Bool
  pub config : EnvConfig ℕ
  pub Buckets : Type 0
  pub hit : Route → Limit → Text → ℕ → Buckets → Bool × Buckets
  pub too_many : Text
  pub passport : ℕ → Value → Option (JwtPayload Text)
  pub verify : ℕ → Text → Option Claims
  pub responds : ℕ → Bool
  pub parses_as_date : Text → Bool
  pub order_repository : Repository orm.Db FoundOrder
  pub customer_repository : Repository orm.Db Customer

module _ (app : Deployment) where
  open app use {
    dec, orm, reflector, is_uuid, is_email, config, Buckets, hit, passport, verify, responds,
  }
  open orm use {Db}

  pub record Server : Type 0 where
    pub world : World Db
    pub buckets : Buckets

  -- The validated user as the request's.
  abbrev pub request_user_of : Result (ValidatedUser Text) → Result RequestUser
  request_user_of (ok user) = ok (record { username = user.username; roles = user.roles })
  request_user_of (err e) = err e

  -- `JwtAuthGuard`: the strategy, with what the token says.
  unfoldable pub authenticate : ℕ → Value → Result RequestUser
  unfolding validate
  authenticate now authorization = elim (passport now authorization) [
    | none ↦ err unauthorized
    | some payload ↦ request_user_of (validate (λ sub. sub) payload)
  ]

  -- `ThrottlerGuard`, with the tracker's key.
  unfoldable pub throttle : HttpRequest → Buckets → Bool × Buckets
  throttle req buckets = elim (limit_of (throttlers config) req.route) [
    | none ↦ (false, buckets)
    | some limit ↦
        let tracked : TrackedRequest = record { authorization = req.authorization; ip = req.ip } in
        hit req.route limit (rate_limit_key (verify req.now) tracked) req.now buckets
  ]

  abbrev pub replied : {A : Type 0} → (A → Body) → Result A → Result Body
  replied body (ok a) = ok (body a)
  replied body (err e) = err e

  abbrev pub searched : {A : Type 0} → (A → Body) → Result A → Action (World Db) Body
  searched body r w = (replied body r, w)

  -- The guards of the controller and what follows them.
  unfoldable pub dispatch : Route → HttpRequest → Action (World Db) Body
  dispatch health req = of_result (replied health_body (Health.check (responds req.now)))
  dispatch (orders cmd) req = do
    user ← of_result (authenticate req.now req.authorization)
    r ← OrderController.handle dec orm reflector is_uuid user req.now cmd
    pure (order_body r)
  dispatch (customers cmd) req = do
    user ← of_result (authenticate req.now req.authorization)
    r ← CustomerController.handle orm reflector is_uuid is_email user req.now cmd
    pure (customer_body r)
  dispatch (order_search dto) req = of_result (authenticate req.now req.authorization) >>= λ user w.
      searched order_page
        (OrderSearch.handle_search app.parses_as_date config.max_size app.order_repository dec
          reflector user dto w.db)
        w
  dispatch (customer_search dto) req =
      of_result (authenticate req.now req.authorization) >>= λ user w.
      searched customer_page
        (CustomerSearch.handle_search app.parses_as_date config.max_size app.customer_repository
          reflector user dto w.db)
        w

  unfoldable pub answer : Option RequestContext → Result Body → Answer
  answer context (ok body) = returned body
  answer context (err e) = thrown (translate (current_request_id context) e)

  -- The request from the middleware on.
  unfoldable pub serve_parsed : HttpRequest → Server → Response × Server
  unfolding throttle dispatch answer
  serve_parsed req server =
      let context = use_request_id req.random_uuid req.supplied_id in
      let (blocked, buckets) = throttle req server.buckets in
      if blocked
      then (
        record {
          header = some context.header;
          answer = answer (some context) (err (http 429 app.too_many));
        },
        record server { buckets = buckets },
      )
      else let (r, world) = dispatch req.route req server.world in
        (
          record { header = some context.header; answer = answer (some context) r },
          record { world = world; buckets = buckets },
        )

  -- The body parsers are the application's first middleware (`useBodyParser` of configure-app.ts): what
  -- they throw, as for a body of more than 1 MB, goes to the exception filter at once, and there is no
  -- request id yet.
  abbrev pub serve_body : Option Exception → HttpRequest → Server → Response × Server
  serve_body (some e) req server = (record { header = none; answer = answer none (err e) }, server)
  serve_body none req server = serve_parsed req server

  unfoldable pub serve : HttpRequest → Server → Response × Server
  unfolding serve_parsed answer
  serve req server = serve_body req.body_error req server
