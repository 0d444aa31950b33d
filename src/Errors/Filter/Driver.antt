-- ===== src/Errors/Filter/Driver.antt =====
-- What an error of the driver, or one that is not the program's own, is answered.
use nest_order_api.Common.{lit, ◌≡◌, ◌⊎◌, some}
use nest_order_api.Errors.{ErrorFields}

-- The error is the body parser's about a body that is too large, or has the status 413.
pub IsTooLarge : ErrorFields → Type 0
IsTooLarge e =
    (e.kind ≡ some (lit "entity.too.large")) ⊎ ((e.status ≡ some 413) ⊎ (e.status_code ≡ some 413))
