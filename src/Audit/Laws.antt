-- ===== src/Audit/Laws.antt =====
-- Who a handler acts as.
use nest_order_api.Common.{◌≡◌, refl, false, none, some, Option}
use nest_order_api.Audit.{CurrentUserContext, is_current_user_admin, is_system_context, intercept}

-- A handler behind the interceptor never runs in the system context, which may see everything: not
-- even for a request that carries no user, which has no role either.
pub intercept-is_system_context :
    (user : Option CurrentUserContext)
    → (is_system_context (intercept user) ≡ false)
      × (is_current_user_admin (intercept none) ≡ false)
unfolding is_system_context intercept is_current_user_admin
intercept-is_system_context none = (refl, refl)
intercept-is_system_context (some user) = (refl, refl)
