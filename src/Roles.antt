-- ===== src/Roles.antt =====
-- Roles and what they may do: apps/api/app/services/rbac.py, and `require_role` of core/security.py.
pub mod Matrix
mod Tests
use febal_automation_script.Prelude.{
  String, Bool, true, false, List, [], ◌∷◌, Option, none, some, contains, lookup, Dict,
  if◌then◌else◌,
}

unfoldable pub all_capabilities : List String
all_capabilities =
    "manage_users" ∷ "manage_scenarios" ∷ "run_executions" ∷ "read" ∷ "dashboard_exec"
    ∷ "dashboard_qa" ∷ "dashboard_dev" ∷ "coverage" ∷ "traceability" ∷ "search" ∷ []

unfoldable pub role_permissions : Dict (List String)
unfolding all_capabilities
role_permissions =
    ("admin", all_capabilities)
    ∷ (
      "qa_lead",
      "read" ∷ "manage_scenarios" ∷ "dashboard_exec" ∷ "dashboard_qa" ∷ "dashboard_dev" ∷ "coverage"
          ∷ "traceability" ∷ "search" ∷ [],
    )
    ∷ ("qa_engineer", "read" ∷ "run_executions" ∷ "dashboard_qa" ∷ "search" ∷ [])
    ∷ ("developer", "read" ∷ "dashboard_dev" ∷ "coverage" ∷ "traceability" ∷ "search" ∷ [])
    ∷ []

abbrev pub or_nothing : Option (List String) → List String
or_nothing none = []
or_nothing (some l) = l

unfoldable pub can : String → String → Bool
unfolding role_permissions lookup
can role capability = contains (or_nothing (lookup role role_permissions)) capability

-- The row of the user is read at each request; `none` is the 403.
pub record User : Type 0 where
  pub id : String
  pub role : String

unfoldable pub require_role : List String → User → Option User
require_role allowed user = if contains allowed user.role then some user else none
