-- ===== src/Examples/Data.antt =====
-- A customer, an order, two users and a history.
use nest_order_api.Common.{
  Text, lit, ◌≡◌, refl, sym, ◌∙◌, subst, text_eq_iff, Bool, not, List, [], ◌∷◌, none, some, length,
  ◌==◌, text_eq, Bool-cases, inl, inr, arith,
}
use nest_order_api.App.{Request, to_orders, to_customers}
use nest_order_api.Audit.{Versioned}
use nest_order_api.Auth.{RequestUser}
use nest_order_api.Customer.Controller as CustomerController
use nest_order_api.Customer.Entity.{Customer}
use nest_order_api.Customer.Service.{UniqueField}
use nest_order_api.Customer.Service.Unique.{UniqueIn}
use nest_order_api.Examples.Memory.{Memory, memory_orm, blank}
use nest_order_api.Money.{print_cents, cents_of}
use nest_order_api.Order.Controller as OrderController
use nest_order_api.Order.Controller.{Reflector}
use nest_order_api.Order.Entity.{Line, Order}
use nest_order_api.Order.Entity.Total.{IsConsistent, IsPriced}
use nest_order_api.Order.Event.{World}
use nest_order_api.Order.Request.{ItemRequest}
use nest_order_api.Order.Service.Consistent.{Every, RefersActive}
use nest_order_api.Order.Status.{opened}
use nest_order_api.Values.{given}

abbrev pub handler_first : Reflector
handler_first none of_class = of_class
handler_first (some roles) of_class = some roles

abbrev pub is_filled : Text → Bool
is_filled s = not (length s == 0)

abbrev pub bob : RequestUser
bob = record { username = lit "bob"; roles = lit "ROLE_USER" ∷ [] }

abbrev pub eve : RequestUser
eve = record { username = lit "eve"; roles = lit "ROLE_USER" ∷ [] }

abbrev pub root : RequestUser
root = record { username = lit "root"; roles = lit "ROLE_ADMIN" ∷ [] }

abbrev pub stamps_of_bob : Versioned
stamps_of_bob = record { audit = record blank { created_by = lit "bob" }; version = 1 }

abbrev pub alice : Customer
alice = record {
  id = lit "c1";
  details = record {
    name = lit "Alice";
    tax_id = lit "A1";
    passport_number = given (lit "P1");
    email = lit "a@b.c";
  };
  versioned = record { audit = record blank { created_by = lit "root" }; version = 1 };
}

abbrev pub pens : Line
pens = record { description = lit "pens"; unit_price = lit "1.50"; quantity = 2 }

abbrev pub order_of_alice : Order
order_of_alice = record {
  id = lit "o1";
  details = record {
    customer = alice;
    items = record { id = some (lit "i1"); line = pens } ∷ [];
    total = lit "3.00";
    status = opened;
  };
  versioned = stamps_of_bob;
}

abbrev pub start : World Memory
start = record {
  db = record { customers = alice ∷ []; orders = order_of_alice ∷ []; next = lit "n" };
  emitted = [];
}

abbrev pub ink : ItemRequest
ink = record { description = lit "ink"; unit_price = 250; quantity = 3 }

-- Bob adds an item, an administrator confirms the order and cannot delete the customer, and bob can
-- add nothing more.
abbrev pub history : List Request
history =
    to_orders bob 5 (OrderController.add_item (lit "o1") ink)
    ∷ to_orders root 6 (OrderController.confirm (lit "o1"))
    ∷ to_customers root 7 (CustomerController.delete (lit "c1"))
    ∷ to_orders bob 8 (OrderController.add_item (lit "o1") ink)
    ∷ []

only_order : (P : Order → Type 0) → P order_of_alice → Every memory_orm P start.db
only_order P p id o at = elim (Bool-cases (text_eq (lit "o1") id)) [
  | inl e ↦
      let found : some order_of_alice ≡ some o = rw e at at in
      let same : order_of_alice ≡ o = cc in subst P same p
  | inr n ↦ let none_found : none ≡ some o = rw n at at in absurd (cc)
]

pub pens-IsPriced : IsPriced pens
unfolding cents_of print_cents
pens-IsPriced = record {
  printed = refl;
  price_bounded = omega arith;
  quantity_bounded = omega arith;
}

pub start-IsConsistent : Every memory_orm (λ o. IsConsistent o.details) start.db
unfolding cents_of print_cents
start-IsConsistent =
    only_order (λ o. IsConsistent o.details)
      (record { priced = (pens-IsPriced, tt); few = omega arith; exact = refl; filled = λ h e. cc })

pub start-RefersActive : Every memory_orm RefersActive start.db
start-RefersActive = only_order RefersActive (λ h. refl)

only_customer :
    (id : Text) (c : Customer) → memory_orm.customer_at start.db id ≡ some c → id ≡ lit "c1"
only_customer id c at = elim (Bool-cases (text_eq (lit "c1") id)) [
  | inl e ↦ sym ((text_eq_iff (lit "c1") id).0 e)
  | inr n ↦ let none_found : none ≡ some c = rw n at at in absurd (cc)
]

pub start-UniqueIn : (field : UniqueField) → UniqueIn memory_orm field start.db
start-UniqueIn field i j c d s ci dj vc vd n = only_customer i c ci ∙ sym (only_customer j d dj)
