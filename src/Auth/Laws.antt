-- ===== src/Auth/Laws.antt =====
-- Who is let in.
use nest_order_api.Common.{
  Text, trim, ◌≡◌, refl, sym, ap, subst, ◌≢◌, ◌↔◌, true, false, List, [], ◌∷◌, some, or_else,
  Option-cases, Bool-cases, inl, inr, arith, length, ◌==◌,
}
use nest_order_api.Values.{Value, undefined, null, bool, num, date, str, arr, obj, Items, nil, cons}
use nest_order_api.Effects.{Result, ok, err}
use nest_order_api.Errors.{Exception}
use nest_order_api.Auth.{
  JwtPayload, ValidatedUser, filled_text, texts_of, role_names, is_defined, unauthorized, validate,
}

-- An array of texts.
abbrev pub items_of : List Text → Items
items_of [] = nil
items_of (t ∷ ts) = cons (str t) (items_of ts)

-- The roles that a payload names: none, or a list of texts.
pub data Names : Value → List Text → Type 0 where
  no_roles : Names undefined []
  null_roles : Names null []
  roles : (ts : List Text) → Names (arr (items_of ts)) ts

-- A payload that stands for a user: it has a subject, it expires, and its roles are texts.
pub record StandsFor {Name : Type 0} (of_subject : Text → Name) (p : JwtPayload Name)
    (u : ValidatedUser Name) : Type 0 where
  pub subject : Text
  pub named : p.sub ≡ str subject
  pub filled : trim subject ≢ []
  pub expires : p.exp ≢ undefined
  pub names : Names p.realm_roles u.roles
  pub username : u.username ≡ or_else p.preferred_username (of_subject subject)

texts_of_sound : (xs : Items) (ts : List Text) → texts_of xs ≡ some ts → xs ≡ items_of ts
unfolding texts_of
texts_of_sound nil ts h = let same : [] ≡ ts = cc in rw (← same) refl
texts_of_sound (cons (str s) xs) ts h = elim (Option-cases (texts_of xs)) [
  | inl e ↦ absurd (cc (rw e at h))
  | inr (rest, e) ↦
      let made : some (s ∷ rest) ≡ some ts = rw e at h in
      let same : s ∷ rest ≡ ts = cc in rw (← same) (ap (cons (str s)) (texts_of_sound xs rest e))
]
texts_of_sound (cons undefined xs) ts h = cc
texts_of_sound (cons null xs) ts h = cc
texts_of_sound (cons (bool _) xs) ts h = cc
texts_of_sound (cons (num _) xs) ts h = cc
texts_of_sound (cons (date _) xs) ts h = cc
texts_of_sound (cons (arr _) xs) ts h = cc
texts_of_sound (cons (obj _) xs) ts h = cc

texts_of_complete : (ts : List Text) → texts_of (items_of ts) ≡ some ts
unfolding texts_of
texts_of_complete [] = refl
texts_of_complete (t ∷ ts) = rw (texts_of_complete ts) refl

length-ne-nil : (xs : Text) → (length xs == 0) ≡ false → xs ≢ []
length-ne-nil [] h e = cc
length-ne-nil (x ∷ xs) h e = cc

ne-nil-length : (xs : Text) → xs ≢ [] → (length xs == 0) ≡ false
ne-nil-length [] n = absurd (n refl)
ne-nil-length (x ∷ xs) n = ground arith

pub filled_text_sound :
    (v : Value) (s : Text) → filled_text v ≡ some s → (v ≡ str s) × (trim s ≢ [])
filled_text_sound (str t) s h = elim (Bool-cases (length (trim t) == 0)) [
  | inl e ↦ absurd (cc (rw e at h))
  | inr n ↦
      let found : some t ≡ some s = rw n at h in
      let same : t ≡ s = cc in rw (← same) (refl, length-ne-nil (trim t) n)
]
filled_text_sound undefined s h = cc
filled_text_sound null s h = cc
filled_text_sound (bool _) s h = cc
filled_text_sound (num _) s h = cc
filled_text_sound (date _) s h = cc
filled_text_sound (arr _) s h = cc
filled_text_sound (obj _) s h = cc

pub filled_text_complete : (s : Text) → trim s ≢ [] → filled_text (str s) ≡ some s
filled_text_complete s n = rw (ne-nil-length (trim s) n) refl

role_names_sound : (v : Value) (ts : List Text) → role_names v ≡ some ts → Names v ts
unfolding role_names
role_names_sound undefined ts h = subst (Names undefined) (cc) no_roles
role_names_sound null ts h = subst (Names null) (cc) null_roles
role_names_sound (arr xs) ts h =
    subst (λ ys. Names (arr ys) ts) (sym (texts_of_sound xs ts h)) (roles ts)
role_names_sound (bool _) ts h = cc
role_names_sound (num _) ts h = cc
role_names_sound (date _) ts h = cc
role_names_sound (str _) ts h = cc
role_names_sound (obj _) ts h = cc

role_names_complete : {v : Value} {ts : List Text} → Names v ts → role_names v ≡ some ts
unfolding role_names
role_names_complete no_roles = refl
role_names_complete null_roles = refl
role_names_complete (roles ts) = texts_of_complete ts

pub is_defined_sound : (v : Value) → is_defined v ≡ true → v ≢ undefined
is_defined_sound undefined h e = cc
is_defined_sound null h e = cc
is_defined_sound (bool _) h e = cc
is_defined_sound (num _) h e = cc
is_defined_sound (date _) h e = cc
is_defined_sound (str _) h e = cc
is_defined_sound (arr _) h e = cc
is_defined_sound (obj _) h e = cc

pub is_defined_complete : (v : Value) → v ≢ undefined → is_defined v ≡ true
is_defined_complete undefined n = absurd (n refl)
is_defined_complete null n = refl
is_defined_complete (bool _) n = refl
is_defined_complete (num _) n = refl
is_defined_complete (date _) n = refl
is_defined_complete (str _) n = refl
is_defined_complete (arr _) n = refl
is_defined_complete (obj _) n = refl

module _ {Name : Type 0} (of_subject : Text → Name) where
  -- The user that a payload makes.
  abbrev made_of : JwtPayload Name → Text → List Text → ValidatedUser Name
  made_of p sub ts = record { username = or_else p.preferred_username (of_subject sub); roles = ts }

  validate_sound :
      (p : JwtPayload Name) (u : ValidatedUser Name)
      → validate of_subject p ≡ ok u
      → StandsFor of_subject p u
  unfolding validate
  validate_sound p u h = elim (Option-cases (filled_text p.sub)) [
    | inl e ↦ absurd (cc (rw (e, validate) at h))
    | inr (sub, e) ↦ elim (Bool-cases (is_defined p.exp)) [
      | inr d ↦ absurd (cc (rw (e, d, validate) at h))
      | inl d ↦ elim (Option-cases (role_names p.realm_roles)) [
        | inl r ↦ absurd (cc (rw (e, d, r, validate) at h))
        | inr (ts, r) ↦
            let made : ◌≡◌ {A = Result (ValidatedUser Name)} (ok (made_of p sub ts)) (ok u) =
              rw (e, d, r, validate) at h in
            let same : made_of p sub ts ≡ u = cc in
            subst (StandsFor of_subject p) same (record {
              subject = sub;
              named = (filled_text_sound p.sub sub e).0;
              filled = (filled_text_sound p.sub sub e).1;
              expires = is_defined_sound p.exp d;
              names = role_names_sound p.realm_roles ts r;
              username = refl;
            })
      ]
    ]
  ]

  validate_complete :
      (p : JwtPayload Name) (u : ValidatedUser Name)
      → StandsFor of_subject p u
      → validate of_subject p ≡ ok u
  unfolding validate
  validate_complete p u s =
      let named : filled_text p.sub ≡ some s.subject =
        rw s.named (filled_text_complete s.subject s.filled) in
      rw (named, is_defined_complete p.exp s.expires, role_names_complete s.names, validate)
        (rw (← s.username) refl)

  -- The payload of a verified token is accepted as a user exactly if it stands for that user: it has
  -- a subject that is a text and not blank, and an expiry; its roles are absent or an array of texts
  -- only; the user has those roles, in their order, and as its name the preferred name, of whatever
  -- type, or else the subject.
  pub validate_iff :
      (p : JwtPayload Name) (u : ValidatedUser Name)
      → (validate of_subject p ≡ ok u) ↔ StandsFor of_subject p u
  validate_iff p u = (validate_sound p u, validate_complete p u)

err_inj : {A : Type 0} {a b : Exception} → ◌≡◌ {A = Result A} (err a) (err b) → b ≡ a
err_inj h = cc

-- Every payload that is refused is refused alike.
pub validate-err :
    {Name : Type 0} (of_subject : Text → Name) (p : JwtPayload Name) (e : Exception)
    → validate of_subject p ≡ err e
    → e ≡ unauthorized
unfolding validate
validate-err of_subject p e h = elim (Option-cases (filled_text p.sub)) [
  | inl f ↦ err_inj (rw (f, validate) at h)
  | inr (sub, f) ↦ elim (Bool-cases (is_defined p.exp)) [
    | inr g ↦ err_inj (rw (f, g, validate) at h)
    | inl g ↦ elim (Option-cases (role_names p.realm_roles)) [
      | inl k ↦ err_inj (rw (f, g, k, validate) at h)
      | inr (names, k) ↦ absurd (cc (rw (f, g, k, validate) at h))
    ]
  ]
]
