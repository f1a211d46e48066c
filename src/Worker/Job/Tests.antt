-- ===== src/Worker/Job/Tests.antt =====
-- Jobs at concrete surroundings: one that passes at the second attempt, and one that is healed.
use febal_automation_script.Prelude.{
  ℕ, leb, ◌≡◌, refl, true, false, Option, WhenSome, none, some, List, [], ◌∷◌, if◌then◌else◌,
}
use febal_automation_script.Prelude.Texts.{codes, text_eq}
use febal_automation_script.Prelude.Int.{ℤ, pos}
use febal_automation_script.Worker.Classifier.{HealOutcome, quarantine, fail_as_defect}
use febal_automation_script.Worker.Job.{
  Surroundings, SpecRun, Job, Done, attempt_loop, run_flow_job, screenshot, kind_for,
  discover_artifacts,
}
use febal_automation_script.Worker.Job.Verdicts.{Explains, run_flow_job-Explains}
use febal_automation_script.Worker.Job.Journal.{is_some, IsSettled, events_of, run_flow_job-verdict}

abbrev spec_run : ℕ → SpecRun
spec_run n = record {
  exit_code = if leb 2 n then some (pos 0) else none;
  output = some (codes "tail");
}

abbrev surroundings : Option (List HealOutcome) → Surroundings
surroundings outcomes = record {
  is_killed = λ n. leb 3 n;
  run_spec_once = spec_run;
  files = record { name = codes "Shot.PNG"; path = codes "f1/Shot.PNG" } ∷ [];
  journal_outcomes = outcomes;
}

abbrev job : Job
job = record { run_id = "r1"; flow_id = "f1" }

abbrev codes_of : Option Done → List ℤ
codes_of none = []
codes_of (some d) = d.row.exit_codes

second_attempt : codes_of (run_flow_job (surroundings (some [])) job) ≡ pos 1 ∷ pos 0 ∷ []
unfolding run_flow_job attempt_loop
second_attempt = refl

nothing_is_recorded : is_some (run_flow_job (surroundings none) job) ≡ false
unfolding run_flow_job attempt_loop
nothing_is_recorded = refl

shot :
    discover_artifacts (surroundings none).files
    ≡ record { kind = screenshot; path = codes "f1/Shot.PNG" } ∷ []
unfolding discover_artifacts kind_for text_eq
shot = refl

run_flow_job-Explains_example :
    (d : Done) × (run_flow_job (surroundings (some [])) job ≡ some d)
    × Explains d.row.verdict d.row.exit_codes
run_flow_job-Explains_example =
    run_flow_job-Explains (surroundings (some [])) job [] refl refl (refl, refl, refl)

run_flow_job-verdict_example :
    let outcomes = some (fail_as_defect ∷ quarantine ∷ []) in
    (is_some (run_flow_job (surroundings outcomes) job) ≡ true)
    × WhenSome (IsSettled false (events_of outcomes)) (run_flow_job (surroundings outcomes) job)
run_flow_job-verdict_example =
    run_flow_job-verdict (surroundings (some (fail_as_defect ∷ quarantine ∷ []))) job
