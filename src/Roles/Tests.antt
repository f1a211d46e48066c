-- ===== src/Roles/Tests.antt =====
-- Users of two roles.
use febal_automation_script.Prelude.{true, false, ◌≡◌, refl}
use febal_automation_script.Roles.{can, User}

lead_reads : can "qa_lead" "dashboard_exec" ≡ true
unfolding can
lead_reads = refl

nobody_reads : can "root" "read" ≡ false
unfolding can
nobody_reads = refl

abbrev developer : User
developer = record { id = "u1"; role = "developer" }
