-- ===== src/Order/Entity/Total.antt =====
-- The total is the exact sum of the items, within the limits of the requests.
use mathlib.Core.List.{foldl}
use nest_order_api.Common.{
  ℕ, ◌+◌, ◌*◌, ◌^◌, ◌≤◌, ◌<◌, ◌≡◌, ◌≢◌, ◌∙◌, ap, subst, List, [], ◌∷◌, All, length, arith,
}
use nest_order_api.Money.{Decimal, print_cents, cents_of, precision_limit}
use nest_order_api.Money.Print.{cents_of-print_cents}
use nest_order_api.Order.Status.{confirmed}
use nest_order_api.Order.Entity.{
  Line, Item, OrderData, lines, max_items_per_order, max_unit_price, max_quantity, add_item,
  calculate_total, subtotal,
}

-- The price is a printed amount within the limit, and so is the quantity.
pub record IsPriced (l : Line) : Type 0 where
  pub printed : l.unit_price ≡ print_cents (cents_of l.unit_price)
  pub price_bounded : cents_of l.unit_price ≤ max_unit_price * 100
  pub quantity_bounded : l.quantity ≤ max_quantity

-- The exact sum, in hundredths.
abbrev pub sum_lines : List Line → ℕ
sum_lines [] = 0
sum_lines (l ∷ ls) = cents_of l.unit_price * l.quantity + sum_lines ls

-- The largest amount of one line.
abbrev pub line_limit : ℕ
line_limit = max_unit_price * 100 * max_quantity

line_bounded : (l : Line) → IsPriced l → cents_of l.unit_price * l.quantity ≤ line_limit
line_bounded l p = grind arith

pub sum_lines-le : (ls : List Line) → All IsPriced ls → sum_lines ls ≤ length ls * line_limit
sum_lines-le [] h = omega arith
sum_lines-le (l ∷ ls) (p, h) = omega (arith, line_bounded l p, sum_lines-le ls h)

module _ (dec : Decimal) where
  open dec use {Num, Denotes, of_text, nought, plus, times, to_fixed}

  price-Denotes :
      (l : Line)
      → IsPriced l
      → Denotes (times (of_text l.unit_price) l.quantity) (cents_of l.unit_price * l.quantity)
  price-Denotes l p =
      let text : Denotes (of_text l.unit_price) (cents_of l.unit_price) =
        rw p.printed (rw cents_of-print_cents (dec.of_text-Denotes (cents_of l.unit_price))) in
      dec.times-Denotes (of_text l.unit_price) (cents_of l.unit_price) l.quantity text
        (omega (arith, line_bounded l p))

  fold-Denotes :
      (items : List Item) (acc : Num) (m : ℕ)
      → Denotes acc m
      → All IsPriced (lines items)
      → m + sum_lines (lines items) < precision_limit
      → Denotes (foldl (add_item dec) acc items) (m + sum_lines (lines items))
  fold-Denotes [] acc m d h b = subst (Denotes acc) (omega arith) d
  fold-Denotes (it ∷ items) acc m d (p, h) b =
      let amount : ℕ = cents_of it.unit_price * it.quantity in
      let added : Denotes (add_item dec acc it) (m + amount) =
        dec.plus-Denotes acc _ m amount d (price-Denotes it.line p) (omega arith) in
      subst (Denotes (foldl (add_item dec) acc (it ∷ items))) (omega arith)
        (fold-Denotes items (add_item dec acc it) (m + amount) added h (omega arith))

  -- With priced items, at most 200 of them, no step of the sum is rounded: the total is the exact
  -- sum of price times quantity, printed with two decimals, and it fits the column
  -- `decimal(19, 2)`.
  pub calculate_total_exact :
      (o : OrderData)
      → All IsPriced (lines o.items)
      → length (lines o.items) ≤ max_items_per_order
      → ((calculate_total dec o).total ≡ print_cents (sum_lines (lines o.items)))
        × (sum_lines (lines o.items) < 10 ^ 19)
  unfolding calculate_total
  calculate_total_exact o h few =
      let bound : sum_lines (lines o.items) ≤ length (lines o.items) * line_limit =
        sum_lines-le (lines o.items) h in
      (
        dec.to_fixed-Denotes _ _ (fold-Denotes o.items nought 0 dec.nought-Denotes h (omega arith))
            ∙ ap print_cents (omega arith),
        omega arith,
      )

  -- A line's subtotal is the exact product.
  pub subtotal_exact :
      (l : Line) → IsPriced l → subtotal dec l ≡ print_cents (cents_of l.unit_price * l.quantity)
  unfolding subtotal
  subtotal_exact l p = dec.to_fixed-Denotes _ _ (price-Denotes l p)

-- What holds of every stored order: priced items, at most 200, their sum as the total, and at least
-- one item once the order was confirmed and is not canceled.
pub record IsConsistent (o : OrderData) : Type 0 where
  pub priced : All IsPriced (lines o.items)
  pub few : length (lines o.items) ≤ max_items_per_order
  pub exact : o.total ≡ print_cents (sum_lines (lines o.items))
  pub filled : o.status ≡ confirmed → lines o.items ≢ []
