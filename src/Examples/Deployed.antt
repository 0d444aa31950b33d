-- ===== src/Examples/Deployed.antt =====
-- The pipeline over rows in memory: a counter of requests for the throttler, and one token.
use nest_order_api.Common.{
  Text, ℕ, suc, ltb, text_eq, lit, true, [], ◌∷◌, Option, none, some, if◌then◌else◌,
}
use nest_order_api.App.Pipeline.{orders, health, HttpRequest, Deployment, Server}
use nest_order_api.Auth.{JwtPayload}
use nest_order_api.Config.{EnvConfig}
use nest_order_api.Examples.Data.{handler_first, is_filled, start, ink}
use nest_order_api.Examples.Memory.{memory_orm, exact_decimal}
use nest_order_api.Examples.Searches.{order_table, customer_table}
use nest_order_api.Order.Controller as OrderController
use nest_order_api.Values.{Value, undefined, str, num, arr, nil, cons}

abbrev pub settings : EnvConfig ℕ
settings = record {
  allowed_origins = lit "https://shop.example" ∷ [];
  default_page = 0;
  default_size = 20;
  max_size = 100;
  points = 100;
  duration = 60;
  trusted_proxies = [];
  rabbitmq_url = lit "amqps://queue";
  smtp = record {
    host = lit "mail";
    port = 587;
    from = lit "no-reply";
    starttls = true;
    user = none;
    password = none;
  };
}

abbrev pub token_of_bob : JwtPayload Text
token_of_bob = record {
  sub = str (lit "bob");
  exp = num 99;
  preferred_username = none;
  realm_roles = arr (cons (str (lit "ROLE_USER")) nil);
}

abbrev pub deployed : Deployment
deployed = record {
  dec = exact_decimal;
  orm = memory_orm;
  reflector = handler_first;
  is_uuid = is_filled;
  is_email = is_filled;
  config = settings;
  Buckets = ℕ;
  hit = λ route limit key now count. (ltb limit.limit (suc count), suc count);
  too_many = lit "ThrottlerException: Too Many Requests";
  passport = passport;
  verify = λ now token. none;
  responds = λ now. true;
  parses_as_date = is_filled;
  order_repository = record {
    columns = order_table.columns;
    get_many_and_count = λ q db. order_table.get_many_and_count q db.orders;
  };
  customer_repository = record {
    columns = customer_table.columns;
    get_many_and_count = λ q db. customer_table.get_many_and_count q db.customers;
  };
}
  where
    passport : ℕ → Value → Option (JwtPayload Text)
    passport now (str s) = if text_eq s (lit "Bearer bob") then some token_of_bob else none
    passport now _ = none

abbrev pub add_ink : Value → HttpRequest
add_ink authorization = record {
  route = orders (OrderController.add_item (lit "o1") ink);
  supplied_id = none;
  random_uuid = lit "3f2504e0-4f89-41d3-9a0c-0305e82c3301";
  authorization = authorization;
  ip = str (lit "10.0.0.1");
  now = 5;
  body_error = none;
}

abbrev pub probe : HttpRequest
probe = record (add_ink undefined) { route = health }

abbrev pub booted : Server deployed
booted = record { world = start; buckets = 0 }
