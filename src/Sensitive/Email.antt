-- ===== src/Sensitive/Email.antt =====
-- What the partial mask of an address shows.
use nest_order_api.Common.{
  Text, lit, ◌≡◌, refl, ◌≢◌, [], ◌∷◌, ◌++◌, take, LacksUnit, split_on-append, split_on-lacks,
}
use nest_order_api.Sensitive.{stars, mask_email}

-- Of an address with one `@` and a domain, the mask shows the first unit of the local part and the
-- domain.
pub mask_email_shows :
    (local domain : Text)
    → LacksUnit b'@' local
    → LacksUnit b'@' domain
    → domain ≢ []
    → mask_email (local ++ b'@' ∷ domain) ≡ take 1 local ++ lit "***@" ++ domain
unfolding mask_email
mask_email_shows local [] hl hd n = absurd (n refl)
mask_email_shows local (c ∷ domain) hl hd n =
    rw (split_on-append b'@' local (c ∷ domain) hl, split_on-lacks b'@' (c ∷ domain) hd) refl

-- A text with no `@` is masked whole.
pub mask_email_hides : (text : Text) → LacksUnit b'@' text → mask_email text ≡ stars
unfolding mask_email
mask_email_hides text h = rw (split_on-lacks b'@' text h) refl
