-- ===== src/Audit.antt =====
-- common/audit: who is acting, the audit columns, and the subscriber that stamps them.
use nest_order_api.Common.{
  ℕ, Text, lit, text_eq, Bool, true, false, List, [], ◌∷◌, any, Option, none, some, is_some, not,
}
pub mod Laws

pub record CurrentUserContext : Type 0 where
  pub username : Text
  pub roles : List Text

-- What `currentUserStorage.getStore()` returns; `none` outside a request.
abbrev pub Store : Type 0
Store = Option CurrentUserContext

unfoldable pub current_username : Store → Text
current_username none = lit "system"
current_username (some c) = c.username

unfoldable pub current_user_roles : Store → List Text
current_user_roles none = []
current_user_roles (some c) = c.roles

unfoldable pub is_current_user_admin : Store → Bool
unfolding current_user_roles
is_current_user_admin store = any (λ r. text_eq r (lit "ROLE_ADMIN")) (current_user_roles store)

unfoldable pub is_system_context : Store → Bool
is_system_context store = not (is_some store)

-- auditable.base-entity.ts
pub record Audit : Type 0 where
  pub created_at : ℕ
  pub updated_at : ℕ
  pub created_by : Text
  pub updated_by : Text
  pub deleted_at : Option ℕ
  pub deleted_by : Option Text

pub record Versioned : Type 0 where
  pub audit : Audit
  pub open audit use *
  pub version : ℕ

-- The entity of a persistence event, by its class.
pub data Subject : Type 0 where
  auditable : Audit → Subject
  unaudited : Subject

unfoldable pub before_insert : Store → Subject → Subject
unfolding current_username
before_insert store unaudited = unaudited
before_insert store (auditable a) =
    let username = current_username store in
    auditable (record a { created_by = username; updated_by = username })

unfoldable pub before_update : Store → Option Subject → Option Subject
unfolding current_username
before_update store none = none
before_update store (some unaudited) = some unaudited
before_update store (some (auditable a)) =
    some (auditable (record a { updated_by = current_username store }))

-- current-user.interceptor.ts: the store that the handler of a request runs in.
unfoldable pub intercept : Option CurrentUserContext → Store
intercept none = some (record { username = lit "system"; roles = [] })
intercept (some user) = some (record { username = user.username; roles = user.roles })
