-- ===== src/Order/Service/Edits.antt =====
-- An edit of the items keeps the prices and quantities within their limits, and the number of items.
use nest_order_api.Common.{
  ℕ, Text, ◌≤◌, ◌≡◌, refl, true, not, List, [], ◌∷◌, ◌++◌, map, All, all, length, length-append,
  length-map, keep, arith, Bool-cases, inl, inr,
}
use nest_order_api.Money.Print.{cents_of-print_cents}
use nest_order_api.Order.Entity.{Line, Item, lines, has_id, max_items_per_order}
use nest_order_api.Order.Entity.Total.{IsPriced}
use nest_order_api.Order.Request.{ItemRequest, is_valid_item_request, is_valid_quantity}
use nest_order_api.Order.Guards.{to_item_entity, set_quantity}
use nest_order_api.Order.Service.Effect.{Edit, appended, requantified, dropped}

-- What holds of the lines of a stored order.
abbrev pub WithinLimits : List Line → Type 0
WithinLimits ls = All IsPriced ls × (length ls ≤ max_items_per_order)

pub to_item_entity-IsPriced :
    (dto : ItemRequest) → is_valid_item_request dto ≡ true → IsPriced (to_item_entity dto).line
unfolding to_item_entity is_valid_item_request
to_item_entity-IsPriced dto h = record {
  printed = rw cents_of-print_cents refl;
  price_bounded = rw cents_of-print_cents (ground arith);
  quantity_bounded = ground arith;
}

pub new_lines :
    (dtos : List ItemRequest)
    → all is_valid_item_request dtos ≡ true
    → All IsPriced (lines (map to_item_entity dtos))
new_lines [] h = tt
new_lines (dto ∷ dtos) h =
    (to_item_entity-IsPriced dto (ground arith), new_lines dtos (ground arith))

appended_lines :
    (items : List Item) (it : Item)
    → All IsPriced (lines items)
    → IsPriced it.line
    → All IsPriced (lines (items ++ it ∷ []))
appended_lines [] it h p = (p, tt)
appended_lines (x ∷ items) it (q, h) p = (q, appended_lines items it h p)

kept_lines :
    (id : Text) (items : List Item)
    → All IsPriced (lines items)
    → All IsPriced (lines (keep (λ it. not (has_id id it)) items))
kept_lines id [] h = tt
kept_lines id (it ∷ items) (q, h) = elim (Bool-cases (has_id id it)) [
  | inl e ↦ rw e (kept_lines id items h)
  | inr e ↦ rw e (q, kept_lines id items h)
]

kept_length :
    (id : Text) (items : List Item)
    → length (lines (keep (λ it. not (has_id id it)) items)) ≤ length (lines items)
kept_length id [] = omega arith
kept_length id (it ∷ items) = elim (Bool-cases (has_id id it)) [
  | inl e ↦ rw e (omega (arith, kept_length id items))
  | inr e ↦ rw e (omega (arith, kept_length id items))
]

requantified_lines :
    (id : Text) (quantity : ℕ) (items : List Item)
    → is_valid_quantity quantity ≡ true
    → All IsPriced (lines items)
    → All IsPriced (lines (set_quantity id quantity items))
unfolding set_quantity
requantified_lines id quantity [] v h = tt
requantified_lines id quantity (it ∷ items) v (q, h) = elim (Bool-cases (has_id id it)) [
  | inl e ↦ rw e (
    record {
      printed = q.printed;
      price_bounded = q.price_bounded;
      quantity_bounded = ground arith;
    },
    h,
  )
  | inr e ↦ rw e (q, requantified_lines id quantity items v h)
]

requantified_length :
    (id : Text) (quantity : ℕ) (items : List Item)
    → length (lines (set_quantity id quantity items)) ≡ length (lines items)
unfolding set_quantity
requantified_length id quantity [] = refl
requantified_length id quantity (it ∷ items) = elim (Bool-cases (has_id id it)) [
  | inl e ↦ rw e refl
  | inr e ↦ rw e (omega (arith, requantified_length id quantity items))
]

pub Edit-WithinLimits :
    {before after : List Item}
    → Edit before after
    → WithinLimits (lines before)
    → WithinLimits (lines after)
Edit-WithinLimits {before} (appended dto valid room e) (h, few) = rw e (
  appended_lines before (to_item_entity dto) h (to_item_entity-IsPriced dto valid),
  rw (length-map _ (before ++ to_item_entity dto ∷ []))
      (omega (arith, length-append {0} before (to_item_entity dto ∷ []))),
)
Edit-WithinLimits {before} (requantified id quantity valid e) (h, few) = rw e (
  requantified_lines id quantity before valid h,
  omega (arith, requantified_length id quantity before),
)
Edit-WithinLimits {before} (dropped id e) (h, few) =
    rw e (kept_lines id before h, omega (arith, kept_length id before))
