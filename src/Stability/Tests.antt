-- ===== src/Stability/Tests.antt =====
-- A spec that flakes at its second run.
use febal_automation_script.Prelude.{ℕ, ◌≡◌, refl, false, none, some, length, ◌==◌, if◌then◌else◌}
use febal_automation_script.Prelude.Int.{pos}
use febal_automation_script.Worker.Job.{SpecRun}
use febal_automation_script.Stability.{stability_loop, run_stability}

abbrev ended : ℕ → SpecRun
ended code = record { exit_code = some (pos code); output = none }

abbrev flaky : ℕ → SpecRun
flaky i = ended (if i == 2 then 1 else 0)

two_runs : length (run_stability flaky 3).results ≡ 2
unfolding run_stability stability_loop
two_runs = refl

flaky_is_not_stable : (run_stability flaky 3).accepted ≡ false
unfolding run_stability stability_loop
flaky_is_not_stable = refl
