-- ===== src/StringUtils.antt =====
-- common/util/string-utils.ts
use nest_order_api.Common.{Text, Bool, true, not, Option, none, some, trim, length, ◌==◌}

unfoldable pub is_blank : Option Text → Bool
unfolding trim
is_blank none = true
is_blank (some value) = length (trim value) == 0

unfoldable pub is_not_blank : Option Text → Bool
unfolding is_blank
is_not_blank value = not (is_blank value)
