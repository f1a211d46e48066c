-- ===== src/Roles/Matrix.antt =====
-- The table of endpoints and roles in the docstring of apps/api/app/services/rbac.py, and its summary
-- for the capabilities that the table leaves out.
use febal_automation_script.Prelude.{
  String, str_eq, eq_iff, false, ◌≡◌, refl, List, [], ◌∷◌, none, some, contains, lookup, Dict,
  if◌then◌else◌, Bool-cases, inl, inr, subst,
}
use febal_automation_script.Roles.{or_nothing, can, User, require_role}

unfoldable pub documented : Dict (List String)
documented =
    ("manage_users", "admin" ∷ [])
    ∷ ("dashboard_exec", "admin" ∷ "qa_lead" ∷ [])
    ∷ ("dashboard_qa", "admin" ∷ "qa_lead" ∷ "qa_engineer" ∷ [])
    ∷ ("dashboard_dev", "admin" ∷ "qa_lead" ∷ "developer" ∷ [])
    ∷ ("coverage", "admin" ∷ "qa_lead" ∷ "developer" ∷ [])
    ∷ ("traceability", "admin" ∷ "qa_lead" ∷ "developer" ∷ [])
    ∷ ("search", "admin" ∷ "qa_lead" ∷ "qa_engineer" ∷ "developer" ∷ [])
    ∷ ("manage_scenarios", "admin" ∷ "qa_lead" ∷ [])
    ∷ ("run_executions", "admin" ∷ "qa_engineer" ∷ [])
    ∷ ("read", "admin" ∷ "qa_lead" ∷ "qa_engineer" ∷ "developer" ∷ [])
    ∷ []

-- The roles to which a capability is open.
unfoldable pub roles_of : String → List String
unfolding documented lookup
roles_of capability = or_nothing (lookup capability documented)

by_literal : (P : String → Type 0) (k s : String) → P k → (str_eq k s ≡ false → P s) → P s
by_literal P k s p q = elim (Bool-cases (str_eq k s)) [
  | inl e ↦ subst P ((eq_iff k s).0 e) p
  | inr e ↦ q e
]

abbrev Agree : String → String → Type 0
Agree role capability = can role capability ≡ contains (roles_of capability) role

-- Of a capability that is in neither table no role has anything.
admin-Agree : (capability : String) → Agree "admin" capability
unfolding can roles_of
admin-Agree capability = by_literal (Agree "admin") "manage_users" capability refl (λ e0.
    by_literal (Agree "admin") "dashboard_exec" capability refl (λ e1.
      by_literal (Agree "admin") "dashboard_qa" capability refl (λ e2.
        by_literal (Agree "admin") "dashboard_dev" capability refl (λ e3.
          by_literal (Agree "admin") "coverage" capability refl (λ e4.
            by_literal (Agree "admin") "traceability" capability refl (λ e5.
              by_literal (Agree "admin") "search" capability refl (λ e6.
                by_literal (Agree "admin") "manage_scenarios" capability refl (λ e7.
                  by_literal (Agree "admin") "run_executions" capability refl (λ e8.
                    by_literal (Agree "admin") "read" capability refl
                      (λ e9. rw (e0, e1, e2, e3, e4, e5, e6, e7, e8, e9) refl))))))))))

qa_lead-Agree : (capability : String) → Agree "qa_lead" capability
unfolding can roles_of
qa_lead-Agree capability = by_literal (Agree "qa_lead") "manage_users" capability refl (λ e0.
    by_literal (Agree "qa_lead") "dashboard_exec" capability refl (λ e1.
      by_literal (Agree "qa_lead") "dashboard_qa" capability refl (λ e2.
        by_literal (Agree "qa_lead") "dashboard_dev" capability refl (λ e3.
          by_literal (Agree "qa_lead") "coverage" capability refl (λ e4.
            by_literal (Agree "qa_lead") "traceability" capability refl (λ e5.
              by_literal (Agree "qa_lead") "search" capability refl (λ e6.
                by_literal (Agree "qa_lead") "manage_scenarios" capability refl (λ e7.
                  by_literal (Agree "qa_lead") "run_executions" capability refl (λ e8.
                    by_literal (Agree "qa_lead") "read" capability refl
                      (λ e9. rw (e0, e1, e2, e3, e4, e5, e6, e7, e8, e9) refl))))))))))

qa_engineer-Agree : (capability : String) → Agree "qa_engineer" capability
unfolding can roles_of
qa_engineer-Agree capability =
    by_literal (Agree "qa_engineer") "manage_users" capability refl (λ e0.
      by_literal (Agree "qa_engineer") "dashboard_exec" capability refl (λ e1.
        by_literal (Agree "qa_engineer") "dashboard_qa" capability refl (λ e2.
          by_literal (Agree "qa_engineer") "dashboard_dev" capability refl (λ e3.
            by_literal (Agree "qa_engineer") "coverage" capability refl (λ e4.
              by_literal (Agree "qa_engineer") "traceability" capability refl (λ e5.
                by_literal (Agree "qa_engineer") "search" capability refl (λ e6.
                  by_literal (Agree "qa_engineer") "manage_scenarios" capability refl (λ e7.
                    by_literal (Agree "qa_engineer") "run_executions" capability refl (λ e8.
                      by_literal (Agree "qa_engineer") "read" capability refl
                        (λ e9. rw (e0, e1, e2, e3, e4, e5, e6, e7, e8, e9) refl))))))))))

developer-Agree : (capability : String) → Agree "developer" capability
unfolding can roles_of
developer-Agree capability = by_literal (Agree "developer") "manage_users" capability refl (λ e0.
    by_literal (Agree "developer") "dashboard_exec" capability refl (λ e1.
      by_literal (Agree "developer") "dashboard_qa" capability refl (λ e2.
        by_literal (Agree "developer") "dashboard_dev" capability refl (λ e3.
          by_literal (Agree "developer") "coverage" capability refl (λ e4.
            by_literal (Agree "developer") "traceability" capability refl (λ e5.
              by_literal (Agree "developer") "search" capability refl (λ e6.
                by_literal (Agree "developer") "manage_scenarios" capability refl (λ e7.
                  by_literal (Agree "developer") "run_executions" capability refl (λ e8.
                    by_literal (Agree "developer") "read" capability refl
                      (λ e9. rw (e0, e1, e2, e3, e4, e5, e6, e7, e8, e9) refl))))))))))

nobody :
    (role capability : String)
    → str_eq "admin" role ≡ false
    → str_eq "qa_lead" role ≡ false
    → str_eq "qa_engineer" role ≡ false
    → str_eq "developer" role ≡ false
    → Agree role capability
unfolding can roles_of
nobody role capability r0 r1 r2 r3 =
    by_literal (Agree role) "manage_users" capability (rw (r0, r1, r2, r3) refl) (λ e0.
      by_literal (Agree role) "dashboard_exec" capability (rw (r0, r1, r2, r3) refl) (λ e1.
        by_literal (Agree role) "dashboard_qa" capability (rw (r0, r1, r2, r3) refl) (λ e2.
          by_literal (Agree role) "dashboard_dev" capability (rw (r0, r1, r2, r3) refl) (λ e3.
            by_literal (Agree role) "coverage" capability (rw (r0, r1, r2, r3) refl) (λ e4.
              by_literal (Agree role) "traceability" capability (rw (r0, r1, r2, r3) refl) (λ e5.
                by_literal (Agree role) "search" capability (rw (r0, r1, r2, r3) refl) (λ e6.
                  by_literal (Agree role) "manage_scenarios" capability (rw (r0, r1, r2, r3) refl)
                    (λ e7.
                      by_literal (Agree role) "run_executions" capability (rw (r0, r1, r2, r3) refl)
                        (λ e8.
                          by_literal (Agree role) "read" capability (rw (r0, r1, r2, r3) refl)
                            (λ e9.
                              rw (r0, r1, r2, r3, e0, e1, e2, e3, e4, e5, e6, e7, e8, e9)
                                refl))))))))))

-- A role holds a capability exactly when the documented table gives the capability to that role: no
-- other text has a role's capabilities, and no role has any other capability.
pub can-documented :
    (role capability : String) → can role capability ≡ contains (roles_of capability) role
unfolding can roles_of
can-documented role capability =
    by_literal (λ r. Agree r capability) "admin" role (admin-Agree capability)
      (λ r0.
        by_literal (λ r. Agree r capability) "qa_lead" role (qa_lead-Agree capability)
          (λ r1.
            by_literal (λ r. Agree r capability) "qa_engineer" role (qa_engineer-Agree capability)
              (λ r2.
                by_literal (λ r. Agree r capability) "developer" role (developer-Agree capability)
                  (λ r3. nobody role capability r0 r1 r2 r3))))

-- A route that requires the roles which the table lists for a capability lets a user through exactly
-- when the role in the user's row holds the capability.
pub require_role-can :
    (capability : String) (user : User)
    → require_role (roles_of capability) user
      ≡ (if can user.role capability then some user else none)
unfolding require_role
require_role-can capability user = rw can-documented refl
