-- ===== src/Common/Strings.antt =====
-- A JavaScript string as the list of its UTF-16 code units, and the methods of `String` that the
-- source calls.
use Prim.Native.Char.{code}
use Prim.Native.Nat.{ℕ, zero, suc, ◌+◌, ◌-◌}
use Prim.Native.String.{String}
use mathlib.Core.Path.{◌≡◌, refl}
use mathlib.Core.Logic.{◌≢◌, ◌↔◌, inl, inr}
use mathlib.Core.Bool.{Bool, true, false, ◌&&◌, ◌||◌}
use mathlib.Core.List.{List, [], ◌∷◌, ◌++◌, map, reverse}
use native.Mathlib.Omega.{arith}
use nest_order_api.Common.Lists.{All, all}
use nest_order_api.Common.Tests.{leb, ◌==◌, if◌then◌else◌, Bool-cases}

abbrev pub Text : Type 0
Text = List ℕ

-- A literal of the source; all of them lie in the basic plane.
abbrev pub lit : String → Text
lit String.[] = []
lit (String.◌∷◌ c s) = code c ∷ lit s

-- `a === b`
unfoldable pub text_eq : Text → Text → Bool
text_eq [] [] = true
text_eq (x ∷ xs) (y ∷ ys) = (x == y) && text_eq xs ys
text_eq _ _ = false

-- `s.startsWith(prefix)`
unfoldable pub starts_with : Text → Text → Bool
starts_with s [] = true
starts_with [] (y ∷ ys) = false
starts_with (x ∷ xs) (y ∷ ys) = (x == y) && starts_with xs ys

-- `s.slice(n)`
unfoldable pub drop_units : ℕ → Text → Text
drop_units zero s = s
drop_units (suc n) [] = []
drop_units (suc n) (x ∷ s) = drop_units n s

-- ASCII case folding
unfoldable pub lower_unit : ℕ → ℕ
lower_unit c = if leb b'A' c && leb c b'Z' then c + 32 else c

unfoldable pub upper_unit : ℕ → ℕ
upper_unit c = if leb b'a' c && leb c b'z' then c - 32 else c

unfoldable pub to_lower : Text → Text
unfolding lower_unit
to_lower s = map lower_unit s

unfoldable pub to_upper : Text → Text
unfolding upper_unit
to_upper s = map upper_unit s

-- White space and line terminators, which `trim` removes.
unfoldable pub is_space : ℕ → Bool
is_space c =
    leb 9 c && leb c 13
    || c == 32
    || c == 160
    || c == 0x1680
    || leb 0x2000 c && leb c 0x200a
    || c == 0x2028
    || c == 0x2029
    || c == 0x202f
    || c == 0x205f
    || c == 0x3000
    || c == 0xfeff

unfoldable pub trim_start : Text → Text
unfolding is_space
trim_start [] = []
trim_start (c ∷ s) = if is_space c then trim_start s else c ∷ s

-- `s.trim()`
unfoldable pub trim : Text → Text
unfolding trim_start
trim s = reverse (trim_start (reverse (trim_start s)))

push_head : ℕ → List Text → List Text
push_head c [] = (c ∷ []) ∷ []
push_head c (p ∷ ps) = (c ∷ p) ∷ ps

-- `s.split(sep)` for a separator of one unit
unfoldable pub split_on : ℕ → Text → List Text
unfolding push_head
split_on sep [] = [] ∷ []
split_on sep (c ∷ s) = let rest = split_on sep s in if c == sep then [] ∷ rest else push_head c rest

-- No unit of the text is the separator.
abbrev pub LacksUnit : ℕ → Text → Type 0
LacksUnit sep s = All (λ c. c ≢ sep) s

pub split_on-lacks : (sep : ℕ) (s : Text) → LacksUnit sep s → split_on sep s ≡ s ∷ []
unfolding split_on
split_on-lacks sep [] h = refl
split_on-lacks sep (c ∷ s) (n, h) = ground (arith, split_on-lacks sep s h)

pub split_on-append :
    (sep : ℕ) (s t : Text) → LacksUnit sep s → split_on sep (s ++ sep ∷ t) ≡ s ∷ split_on sep t
unfolding split_on
split_on-append sep [] t h = ground arith
split_on-append sep (c ∷ s) t (n, h) = ground (arith, split_on-append sep s t h)

pub text_eq_refl : (s : Text) → text_eq s s ≡ true
unfolding text_eq
text_eq_refl [] = refl
text_eq_refl (x ∷ s) = ground (arith, text_eq_refl s)

text_eq_sound : (s t : Text) → text_eq s t ≡ true → s ≡ t
unfolding text_eq
text_eq_sound [] [] h = refl
text_eq_sound (x ∷ s) (y ∷ t) h = ground (arith, text_eq_sound s t)
text_eq_sound [] (_ ∷ _) h = cc
text_eq_sound (_ ∷ _) [] h = cc

pub text_eq_iff : (s t : Text) → (text_eq s t ≡ true) ↔ (s ≡ t)
text_eq_iff s t = (text_eq_sound s t, λ e. rw e (text_eq_refl t))

pub text_ne : (s t : Text) → s ≢ t → text_eq s t ≡ false
text_ne s t n = ground (arith, text_eq_iff s t)

push_head-all :
    (p : ℕ → Bool) (c : ℕ) (parts : List Text)
    → all (λ t. all p t) (push_head c parts) ≡ true
    → (p c ≡ true) × (all (λ t. all p t) parts ≡ true)
unfolding push_head
push_head-all p c [] h = ground arith
push_head-all p c (t ∷ ts) h = ground arith

-- If the parts hold only units that pass, then so does the text, separators aside.
pub split_on-all :
    (p : ℕ → Bool) (sep : ℕ) (s : Text)
    → all (λ t. all p t) (split_on sep s) ≡ true
    → all (λ c. p c || c == sep) s ≡ true
unfolding split_on
split_on-all p sep [] h = refl
split_on-all p sep (c ∷ s) h = elim (Bool-cases (c == sep)) [
  | inl e ↦
      let rest : all (λ t. all p t) (split_on sep s) ≡ true = rw e at h in
      ground (arith, split_on-all p sep s rest)
  | inr n ↦
      let (first, rest) = push_head-all p c (split_on sep s) (rw n at h) in
      ground (arith, split_on-all p sep s rest)
]
