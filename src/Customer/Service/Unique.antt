-- ===== src/Customer/Service/Unique.antt =====
-- No two customers hold the same tax id, and no two the same passport number.
use nest_order_api.Common.{
  Text, ◌≡◌, refl, ◌≢◌, sym, ◌∙◌, ap, subst, true, false, [], ◌∷◌, Option, none, some, text_eq,
  text_eq_iff, text_eq_refl, text_ne, arith, Bool-cases, ◌⊎◌, inl, inr,
}
use nest_order_api.Values.{Optional, unset, cleared, given}
use nest_order_api.Customer.Entity.{CustomerData, Customer}
use nest_order_api.Customer.Service.{
  UniqueField, tax_id, passport_number, text_of, column, not_excluded, holds_value,
}
use nest_order_api.Customer.Service.Effect.{
  Free, FreeValues, CustomerEffect, same, added, changed, removed,
}
use nest_order_api.Audit.{Store}
use nest_order_api.Money.{Decimal}
use nest_order_api.Order.Service.Effect.{Effect, inserted, edited, moved}
use nest_order_api.Orm.{Orm}
use nest_order_api.Orm.Laws.{OrmLaws, written_optional}

text_ne_of : (a b : Text) → text_eq a b ≡ false → a ≢ b
text_ne_of a b h e = ground (arith, text_eq_iff a b)

some_eq : (x y : Customer) → some x ≡ some y → x ≡ y
some_eq x y h = cc

module _ (orm : Orm) where
  open orm use {Db, customer_at}

  -- Rows that hold the same value, which is not "", are the same row, deleted rows included.
  abbrev pub UniqueIn : UniqueField → Db → Type 0
  UniqueIn field db =
      (i j : Text) (c d : Customer) (s : Text)
      → customer_at db i ≡ some c
      → customer_at db j ≡ some d
      → column field c ≡ some s
      → column field d ≡ some s
      → s ≢ []
      → i ≡ j

  -- No other row of `db` holds the value of `r`.
  abbrev Distinct : UniqueField → Db → Customer → Type 0
  Distinct field db r =
      (i : Text) (c : Customer) (s : Text)
      → i ≢ r.id
      → customer_at db i ≡ some c
      → column field c ≡ some s
      → column field r ≡ some s
      → ¬ (s ≢ [])

  written_UniqueIn :
      (field : UniqueField) (db db' : Db) (r : Customer)
      → customer_at db' r.id ≡ some r
      → ((j : Text) → j ≢ r.id → customer_at db' j ≡ customer_at db j)
      → Distinct field db r
      → UniqueIn field db
      → UniqueIn field db'
  written_UniqueIn field db db' r row others distinct unique i j c d s ci dj vc vd n =
      let same_row : (x : Customer) (k : Text) → k ≡ r.id → customer_at db' k ≡ some x → x ≡ r =
        λ x k e h. some_eq x r (sym h ∙ rw e row) in
      let old_row : (k : Text) (x : Customer)
          → k ≢ r.id
          → customer_at db' k ≡ some x
          → customer_at db k ≡ some x =
        λ k x m h. sym (others k m) ∙ h in
      elim (Bool-cases (text_eq i r.id)) [
        | inl e ↦ elim (Bool-cases (text_eq j r.id)) [
          | inl e' ↦ (text_eq_iff i r.id).0 e ∙ sym ((text_eq_iff j r.id).0 e')
          | inr m ↦
              let other : j ≢ r.id = text_ne_of j r.id m in
              let is_r = same_row c i ((text_eq_iff i r.id).0 e) ci in
              absurd (distinct j d s other (old_row j d other dj) vd (rw (sym is_r) vc) n)
        ]
        | inr m ↦
            let other : i ≢ r.id = text_ne_of i r.id m in
            elim (Bool-cases (text_eq j r.id)) [
              | inl e ↦
                  let is_r = same_row d j ((text_eq_iff j r.id).0 e) dj in
                  absurd (distinct i c s other (old_row i c other ci) vc (rw (sym is_r) vd) n)
              | inr m' ↦
                  let other' : j ≢ r.id = text_ne_of j r.id m' in
                  unique i j c d s (old_row i c other ci) (old_row j d other' dj) vc vd n
            ]
      ]

-- The value of a request.
abbrev given_value : UniqueField → CustomerData → Option Text
given_value tax_id d = some d.tax_id
given_value passport_number d = text_of d.passport_number

-- What is written over NULL, and over an old value.
text_of-written_null : (p : Optional) → text_of (written_optional cleared p) ≡ text_of p
text_of-written_null unset = refl
text_of-written_null cleared = refl
text_of-written_null (given s) = refl

text_of-written :
    (old p : Optional) (s : Text)
    → text_of (written_optional old p) ≡ some s
    → (text_of p ≡ some s) ⊎ (text_of old ≡ some s)
text_of-written old unset s h = inr h
text_of-written old cleared s h = inl h
text_of-written old (given t) s h = inl h

inserted_column :
    (field : UniqueField) (d : CustomerData) (r : Customer) (s : Text)
    → r.details ≡ record d { passport_number = written_optional cleared d.passport_number }
    → column field r ≡ some s
    → given_value field d ≡ some s
inserted_column tax_id d r s e h = ap (λ x. some x.tax_id) (sym e) ∙ h
inserted_column passport_number d r s e h =
    sym (text_of-written_null d.passport_number) ∙ ap (λ x. text_of x.passport_number) (sym e) ∙ h

changed_column :
    (field : UniqueField) (d : CustomerData) (old r : Customer) (s : Text)
    → r.details
      ≡ record d { passport_number = written_optional old.passport_number d.passport_number }
    → column field r ≡ some s
    → (given_value field d ≡ some s) ⊎ (column field old ≡ some s)
changed_column tax_id d old r s e h = inl (ap (λ x. some x.tax_id) (sym e) ∙ h)
changed_column passport_number d old r s e h =
    text_of-written old.passport_number d.passport_number s
      (ap (λ x. text_of x.passport_number) (sym e) ∙ h)

same_column :
    (field : UniqueField) (old r : Customer)
    → r.details ≡ old.details
    → column field r ≡ column field old
same_column tax_id old r e = ap (λ x. some x.tax_id) e
same_column passport_number old r e = ap (λ x. text_of x.passport_number) e

module _ (orm : Orm) (laws : OrmLaws orm) where
  open orm use {Db, customer_at}

  Free-value :
      (field : UniqueField) (db : Db) (d : CustomerData) (exclude_id : Option Text)
      → FreeValues orm db d exclude_id
      → Free orm db field (given_value field d) exclude_id
  Free-value tax_id db d exclude_id f = f.free_tax_id
  Free-value passport_number db d exclude_id f = f.free_passport

  -- A free value stands in no row that is not left out.
  not_taken :
      (field : UniqueField) (db : Db) (d : CustomerData) (exclude_id : Option Text) (i : Text)
      (c : Customer) (s : Text)
      → FreeValues orm db d exclude_id
      → given_value field d ≡ some s
      → customer_at db i ≡ some c
      → column field c ≡ some s
      → not_excluded exclude_id c ≡ true
      → ¬ (s ≢ [])
  not_taken field db d exclude_id i c s free given_it at holds kept n =
      let none_holds : holds_value field s exclude_id c ≡ false =
        laws.customer_exists_false (holds_value field s exclude_id) db i c
          (Free-value field db d exclude_id free s given_it n) at in
      let this_holds : holds_value field s exclude_id c ≡ true =
        rw (holds, kept, text_eq_refl) refl in
      cc

  not_excluded_other :
      (db : Db) (i id : Text) (c : Customer)
      → customer_at db i ≡ some c
      → i ≢ id
      → not_excluded (some id) c ≡ true
  not_excluded_other db i [] c at n = refl
  not_excluded_other db i (x ∷ id) c at n =
      rw (laws.customer_key db i c at, text_ne i (x ∷ id) n) refl

  pub CustomerEffect-UniqueIn :
      (field : UniqueField) {db db' : Db}
      → CustomerEffect orm db db'
      → UniqueIn orm field db
      → UniqueIn orm field db'
  CustomerEffect-UniqueIn field (same e) u = subst (UniqueIn orm field) (sym e) u
  CustomerEffect-UniqueIn field {db} {db'} (added d r free content _ _ row others _) u =
      written_UniqueIn orm field db db' r row others
        (λ i c s other at vc vr.
          not_taken field db d none i c s free (inserted_column field d r s content vr) at vc refl)
        u
  CustomerEffect-UniqueIn field {db} {db'} (changed d old r was _ free content _ _ w) u =
      written_UniqueIn orm field db db' r w.row w.others
        (λ i c s other at vc vr n. elim (changed_column field d old r s content vr) [
          | inl given_it ↦
              not_taken field db d (some r.id) i c s free given_it at vc
                (not_excluded_other db i r.id c at other) n
          | inr kept ↦ other (u i r.id c old s at was vc kept n)
        ])
        u
  CustomerEffect-UniqueIn field {db} {db'} (removed _ old r was _ _ content _ w) u =
      written_UniqueIn orm field db db' r w.row w.others
        (λ i c s other at vc vr n.
          other (u i r.id c old s at was vc (sym (same_column field old r content) ∙ vr) n))
        u

-- A request of the order routes writes no customer.
module _ (dec : Decimal) (orm : Orm) (store : Store) where
  open orm use {Db, customer_at}

  moved_UniqueIn :
      (field : UniqueField) (db db' : Db)
      → ((j : Text) → customer_at db' j ≡ customer_at db j)
      → UniqueIn orm field db
      → UniqueIn orm field db'
  moved_UniqueIn field db db' same_rows u i j c d s ci dj =
      u i j c d s (sym (same_rows i) ∙ ci) (sym (same_rows j) ∙ dj)

  pub Effect-UniqueIn :
      (field : UniqueField) {db db' : Db}
      → Effect dec orm store db db'
      → UniqueIn orm field db
      → UniqueIn orm field db'
  Effect-UniqueIn field (Effect.same e) u = subst (UniqueIn orm field) (sym e) u
  Effect-UniqueIn field {db} {db'} (inserted _ _ _ _ _ _ _ _ _ _ _ w) u =
      moved_UniqueIn field db db' w.customers u
  Effect-UniqueIn field {db} {db'} (edited _ _ _ _ _ _ _ _ w) u =
      moved_UniqueIn field db db' w.customers u
  Effect-UniqueIn field {db} {db'} (moved _ _ _ _ _ _ _ _ w) u =
      moved_UniqueIn field db db' w.customers u
  Effect-UniqueIn field {db} {db'} (Effect.removed _ _ _ _ _ _ _ w) u =
      moved_UniqueIn field db db' w.customers u
