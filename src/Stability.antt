-- ===== src/Stability.antt =====
-- The acceptance of a generated spec (apps/api/app/services/stability.py). A run of the spec is an
-- argument: the i-th against the standard build, from 1, and the one against a build with a bug.
pub mod Acceptance
mod Tests
use febal_automation_script.Prelude.{
  ℕ, zero, suc, Bool, true, false, ◌&&◌, not, Option, none, some, List, [], ◌∷◌, count, ◌==◌,
  if◌then◌else◌,
}
use febal_automation_script.Prelude.Texts.{Text}
use febal_automation_script.Worker.Classifier.{is_zero}
use febal_automation_script.Worker.Job.{SpecRun}

-- `exit_code == 0`
abbrev pub passed : SpecRun → Bool
passed r = elim r.exit_code [ none ↦ false | some code ↦ is_zero code ]

-- The loop over the runs that are left, which ends with the first one that is not green.
unfoldable pub stability_loop : (ℕ → SpecRun) → ℕ → ℕ → List SpecRun
stability_loop run zero i = []
stability_loop run (suc left) i =
    let rest = stability_loop run left (suc i) in
    if not (passed (run i)) then run i ∷ [] else run i ∷ rest

pub record Stability : Type 0 where
  pub accepted : Bool
  pub runs : ℕ
  pub passed_count : ℕ
  pub results : List SpecRun

unfoldable pub run_stability : (ℕ → SpecRun) → ℕ → Stability
run_stability run n =
    let results = stability_loop run n 1 in
    let passed_count = count passed results in
    record {
      accepted = passed_count == n;
      runs = n;
      passed_count = passed_count;
      results = results;
    }

pub record SeededBug : Type 0 where
  pub detected_breakage : Bool
  pub base_url : Text

-- Without the URL of the build with the bug it raises an error.
unfoldable pub run_seeded_bug : (Text → SpecRun) → Text → Option SeededBug
run_seeded_bug bug_run [] = none
run_seeded_bug bug_run (c ∷ url) =
    some (record { detected_breakage = not (passed (bug_run (c ∷ url))); base_url = c ∷ url })

both : Stability → Option SeededBug → Option Bool
both stability none = none
both stability (some bug) = some (stability.accepted && bug.detected_breakage)

-- Whether the spec is accepted, or none where the second step raises.
unfoldable pub accept_spec : (ℕ → SpecRun) → ℕ → (Text → SpecRun) → Text → Option Bool
unfolding both
accept_spec run runs bug_run url = both (run_stability run runs) (run_seeded_bug bug_run url)
