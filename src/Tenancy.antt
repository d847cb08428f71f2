-- ===== src/Tenancy.antt =====
-- The tenant context of a transaction (services/ingestion/bidpilot_ingestion/db.py:
-- `assert_policy_bound`; alerts.py: `set_org_context`, `all_org_ids`). The row policies of the database
-- show a statement only the rows whose `org_id` is the context.
use bid_pilot.Prelude.{Bool, true, false, String, Option, none, some, List, map, str_eq}
use bid_pilot.Prelude.Outcome.{rls_bypass}
use bid_pilot.Store.{Db, M, return, raise, ◌>>◌}

-- The column `bypasses` of the connected role's row in `pg_roles`, if there is a row. A role's
-- attributes do not change under a worker, so that the cache of checked engines answers the same.
abbrev pub Role : Type 0
Role = Option Bool

unfoldable pub assert_policy_bound : Role → M (Unit {0})
assert_policy_bound none =
    raise (rls_bypass "cannot determine whether the connected role is subject to RLS")
assert_policy_bound (some true) = raise (rls_bypass "role is SUPERUSER or BYPASSRLS")
assert_policy_bound (some false) = return tt

-- The setting is the empty text, which no row has, when no organisation is given.
unfoldable pub set_org_context : Role → Option String → M (Unit {0})
set_org_context role org = do
  assert_policy_bound role
  λ db. return tt (record db { org_context = org })

abbrev pub all_org_ids : Db → List String
all_org_ids db = map (λ o. o.id) db.orgs

-- The policy of a table with an `org_id`, for a role that the policies bind. The code that reads through
-- it has called `set_org_context`, which refuses every other role.
abbrev pub is_visible : Option String → String → Bool
is_visible none org_id = false
is_visible (some org) org_id = str_eq org_id org

-- What a statement sees where the role was not asserted: a role that bypasses the policies sees all.
unfoldable pub shows : Bool → Option String → String → Bool
shows true ctx org_id = true
shows false ctx org_id = is_visible ctx org_id
