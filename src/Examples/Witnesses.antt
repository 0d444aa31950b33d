-- ===== src/Examples/Witnesses.antt =====
-- The theorems at concrete inputs.
use nest_order_api.Common.{
  LacksUnit, text_eq, Text, Option, if◌then◌else◌, text_eq_iff, lit, ◌≡◌, refl, ◌↔◌, true, false,
  [], none, some, ◌^◌, ◌<◌, arith,
}
use nest_order_api.App.{run, step, to_orders}
use nest_order_api.App.Invariant.{run-IsConsistent, run-RefersActive, run-UniqueIn, run-Became}
use nest_order_api.App.Roles.{step_reserved, confirm_order}
use nest_order_api.Audit.{intercept}
use nest_order_api.Auth.{JwtPayload, validate, can_activate}
use nest_order_api.Auth.Laws.{validate_iff, StandsFor}
use nest_order_api.Crud.{not_found}
use nest_order_api.Customer.Service.{value_taken, tax_id, passport_number}
use nest_order_api.Customer.Service.Unique.{UniqueIn}
use nest_order_api.Effects.{ok, err}
use nest_order_api.Errors.{resource_not_found_order, ErrorFields, validation_customer_taxid_exists}
use nest_order_api.Errors.Filter.{translate}
use nest_order_api.Errors.Filter.Concealed.{translate-IsMasked}
use nest_order_api.Examples.Data.{
  handler_first, is_filled, bob, eve, root, ink, order_of_alice, start, history, pens-IsPriced,
  start-IsConsistent, start-RefersActive, start-UniqueIn,
}
use nest_order_api.Examples.Memory.{memory_orm, exact_decimal}
use nest_order_api.Examples.MemoryLaws.{memory_laws}
use nest_order_api.Money.{print_cents, cents_of}
use nest_order_api.Money.Print.{cents_of-print_cents}
use nest_order_api.Http.RateLimit.{Claims, TrackedRequest}
use nest_order_api.Order.Controller.{handle, confirm, add_item, is_accepted}
use nest_order_api.Order.Controller.Access.{
  handle_inaccessible, handle_hidden, foreign, IsStranger, adds,
}
use nest_order_api.Order.Controller.Events.{handle-Emission}
use nest_order_api.Order.Entity.{lines, calculate_total}
use nest_order_api.Order.Entity.Total.{IsConsistent, calculate_total_exact, sum_lines}
use nest_order_api.Order.Guards.{can_access}
use nest_order_api.Order.Request.{is_valid_item_request}
use nest_order_api.Order.Service.Consistent.{Every, RefersActive}
use nest_order_api.Order.Service.Events.{Emission}
use nest_order_api.Order.Service.History.{Became}
use nest_order_api.Order.Status.{can_transition, opened, confirmed}
use nest_order_api.Order.Status.Reach.{can_transition_iff, Step}
use nest_order_api.Sensitive.{mask_sensitive_deep, global_sensitive_field_names}
use nest_order_api.Sensitive.Masked.{
  IsMasked, mask_sensitive_deep-IsMasked, mask_sensitive_deep_fixed_iff,
}
use nest_order_api.Values.{Value, obj, field, end, str, arr, cons, nil, undefined, num}

run-IsConsistent_example :
    Every memory_orm
      (λ o. IsConsistent o.details)
      (run exact_decimal memory_orm handler_first is_filled is_filled history start).db
run-IsConsistent_example =
    run-IsConsistent exact_decimal memory_orm memory_laws handler_first is_filled is_filled history
      start start-IsConsistent

run-Became_example :
    Became memory_orm
      (run exact_decimal memory_orm handler_first is_filled is_filled history start).db
      (lit "o1")
      order_of_alice
unfolding text_eq
run-Became_example =
    run-Became exact_decimal memory_orm memory_laws handler_first is_filled is_filled history start
      (lit "o1") order_of_alice refl

run-UniqueIn_example :
    UniqueIn memory_orm tax_id
      (run exact_decimal memory_orm handler_first is_filled is_filled history start).db
    × UniqueIn memory_orm passport_number
        (run exact_decimal memory_orm handler_first is_filled is_filled history start).db
run-UniqueIn_example =
    run-UniqueIn exact_decimal memory_orm memory_laws handler_first is_filled is_filled history
      start (start-UniqueIn tax_id, start-UniqueIn passport_number)

run-RefersActive_example :
    Every memory_orm RefersActive
      (run exact_decimal memory_orm handler_first is_filled is_filled history start).db
run-RefersActive_example =
    run-RefersActive exact_decimal memory_orm memory_laws handler_first is_filled is_filled history
      start start-RefersActive

eve-IsStranger : IsStranger eve order_of_alice
unfolding text_eq
eve-IsStranger = record {
  no_admin = refl;
  other_owner = λ e. let same : false ≡ true = (text_eq_iff (lit "bob") (lit "eve")).1 e in cc;
}

handle_inaccessible_example :
    memory_orm.order_at
      (handle exact_decimal memory_orm handler_first is_filled eve 9
        (add_item (lit "o1") ink)
        start).1.db
      (lit "o1")
    ≡ some order_of_alice
unfolding can_access intercept text_eq
handle_inaccessible_example =
    handle_inaccessible exact_decimal memory_orm memory_laws handler_first is_filled eve 9
      (add_item (lit "o1") ink) start (lit "o1") order_of_alice refl eve-IsStranger

handle_hidden_example :
    handle exact_decimal memory_orm handler_first is_filled eve 9 (add_item (lit "o1") ink) start
    ≡ (err (not_found resource_not_found_order (lit "Order") (lit "o1")), start)
unfolding can_access can_activate is_accepted is_valid_item_request intercept text_eq
handle_hidden_example =
    handle_hidden exact_decimal memory_orm memory_laws handler_first is_filled eve 9
      (add_item (lit "o1") ink) start (lit "o1") (adds (lit "o1") ink) refl refl
      (foreign eve-IsStranger)

handle-Emission_example :
    Emission memory_orm 9 start
      (handle exact_decimal memory_orm handler_first is_filled root 9 (confirm (lit "o1")) start).1
handle-Emission_example =
    handle-Emission exact_decimal memory_orm memory_laws handler_first is_filled root 9
      (confirm (lit "o1")) start

step_reserved_example :
    step exact_decimal memory_orm handler_first is_filled is_filled
      (to_orders bob 9 (confirm (lit "o1")))
      start
    ≡ start
unfolding text_eq
step_reserved_example =
    step_reserved exact_decimal memory_orm handler_first is_filled is_filled
      (λ roles of_class. refl) (to_orders bob 9 (confirm (lit "o1"))) start
      (confirm_order (lit "o1")) refl

calculate_total_exact_example :
    ((calculate_total exact_decimal order_of_alice.details).total
      ≡ print_cents (sum_lines (lines order_of_alice.items)))
    × (sum_lines (lines order_of_alice.items) < 10 ^ 19)
calculate_total_exact_example =
    calculate_total_exact exact_decimal order_of_alice.details (pens-IsPriced, tt) (omega arith)

can_transition_iff_example : (can_transition opened confirmed ≡ true) ↔ Step opened confirmed
can_transition_iff_example = can_transition_iff opened confirmed

abbrev token : JwtPayload Value
token = record {
  sub = str (lit "bob");
  exp = num 99;
  preferred_username = none;
  realm_roles = undefined;
}

validate_iff_example :
    (validate str token ≡ ok (record { username = str (lit "bob"); roles = [] }))
    ↔ StandsFor str token (record { username = str (lit "bob"); roles = [] })
validate_iff_example = validate_iff str token (record { username = str (lit "bob"); roles = [] })

abbrev body : Value
body = obj (
    field (lit "taxId") (str (lit "A1"))
      (field (lit "list") (arr (cons (obj (field (lit "email") (str (lit "a@b.c")) end)) nil)) end))

mask_sensitive_deep-IsMasked_example :
    IsMasked global_sensitive_field_names (mask_sensitive_deep global_sensitive_field_names body)
mask_sensitive_deep-IsMasked_example =
    mask_sensitive_deep-IsMasked global_sensitive_field_names body

mask_sensitive_deep_fixed_iff_example :
    (IsMasked global_sensitive_field_names body
      → mask_sensitive_deep global_sensitive_field_names body ≡ body)
    × (mask_sensitive_deep global_sensitive_field_names body ≡ body
        → IsMasked global_sensitive_field_names body)
mask_sensitive_deep_fixed_iff_example =
    mask_sensitive_deep_fixed_iff global_sensitive_field_names body

lacks_one : LacksUnit b'@' (lit "alice")
lacks_one = (
  λ e. omega arith,
  (λ e. omega arith, (λ e. omega arith, (λ e. omega arith, (λ e. omega arith, tt)))),
)

lacks_two : LacksUnit b'@' (lit "b.c")
lacks_two = (λ e. omega arith, (λ e. omega arith, (λ e. omega arith, tt)))

cents_of-print_cents_example : cents_of (print_cents 150) ≡ 150
cents_of-print_cents_example = cents_of-print_cents 150

abbrev timeout_error : ErrorFields
timeout_error = record {
  kind = none;
  status = none;
  status_code = none;
  code = some (lit "ETIMEDOUT");
}

translate-IsMasked_example :
    IsMasked global_sensitive_field_names
      (translate
        (some (lit "r1"))
        (value_taken tax_id (lit "A1") validation_customer_taxid_exists (lit "taken"))).params
translate-IsMasked_example =
    translate-IsMasked (some (lit "r1"))
      (value_taken tax_id (lit "A1") validation_customer_taxid_exists (lit "taken"))

-- Accepts one token, which is bob's.
abbrev verify_bob : Text → Option Claims
verify_bob token =
    if text_eq token (lit "t1") then some (record { sub = str (lit "bob"); exp = num 9 }) else none

abbrev from_bob : TrackedRequest
from_bob = record { authorization = str (lit "Bearer t1"); ip = str (lit "10.0.0.1") }
