-- ===== src/Crud.antt =====
-- common/crud/abstract-crud.service.ts: find or 404, and the soft delete, that both services share.
use nest_order_api.Common.{ℕ, Text, lit, Bool, Option, none, some, ◌++◌, if◌then◌else◌}
use nest_order_api.Values.{one_field}
use nest_order_api.Errors.{ErrorCode, Exception, domain, resource_not_found_exception}
use nest_order_api.Audit.{Store, current_username}
use nest_order_api.Effects.{Result, ok, err, Action}
use nest_order_api.Orm.{Deletion}

abbrev pub not_found : ErrorCode → Text → Text → Exception
not_found code entity_name id = domain (
    resource_not_found_exception code (entity_name ++ lit " " ++ id ++ lit " not found")
      (one_field (lit "id") id))

-- What `findOneBy` found, and the check of the owner.
abbrev pub or_not_found : {E : Type 0} → Text → ErrorCode → (E → Bool) → Text → Option E → Result E
or_not_found entity_name code can_access id none = err (not_found code entity_name id)
or_not_found entity_name code can_access id (some entity) =
    if can_access entity then ok entity else err (not_found code entity_name id)

-- `find_one` is the repository's `findOneBy`.
unfoldable pub find_entity_by_id_or_throw :
    {S E : Type 0} → Text → ErrorCode → (Text → S → Option E) → (E → Bool) → Text → Action S E
find_entity_by_id_or_throw entity_name code find_one can_access id s =
    (or_not_found entity_name code can_access id (find_one id s), s)

module _ {S : Type 0} (store : Store) (now : ℕ) where
  -- `update` is the repository's.
  unfoldable pub soft_delete : (Text → Deletion → Action S (Unit {0})) → Text → Action S (Unit {0})
  unfolding current_username
  soft_delete update id =
      update id (record { deleted_at = now; deleted_by = current_username store })
