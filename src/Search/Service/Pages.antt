-- ===== src/Search/Service/Pages.antt =====
-- The pages of a search, one after the other.
use nest_order_api.Common.{ℕ, zero, suc, List, [], ◌++◌}
use nest_order_api.Search.Query.Meaning.{Meaning}
use nest_order_api.Search.Service.{Page}

-- The contents of the first `n` pages.
abbrev pub gathered : {T : Type 0} → ℕ → (ℕ → Page T) → List T
gathered zero pages = []
gathered (suc n) pages = gathered n pages ++ (pages n).content
