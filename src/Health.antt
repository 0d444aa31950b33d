-- ===== src/Health.antt =====
-- health/health.controller.ts: the probe of the database. `responds` is whether `SELECT 1` returns.
use nest_order_api.Common.{Text, lit, Bool, if◌then◌else◌}
use nest_order_api.Effects.{Result, ok, err}
use nest_order_api.Errors.{http}

-- The text of `status`.
unfoldable pub check : Bool → Result Text
check responds = if responds then ok (lit "ok") else err (http 503 (lit "Database unavailable"))
