-- ===== src/Worker/Job/Rows.antt =====
-- The row of a job is about it: services/worker/job.py.
use febal_automation_script.Prelude.{
  ◌≡◌, refl, true, Bool-cases, Option, none, some, List, [], WhenSome, inl, inr,
}
use febal_automation_script.Prelude.Int.{ℤ}
use febal_automation_script.Prelude.Texts.{Text}
use febal_automation_script.Worker.Classifier.{HealOutcome, aborted}
use febal_automation_script.Worker.Job.{
  Surroundings, Job, Done, TestResult, abort_flow, record_flow, record_ingested, attempt_loop,
  max_attempts, run_flow_job,
}
use febal_automation_script.Worker.Job.Verdicts.{run_flow_job-recorded}

-- A row carries the job's run and flow.
abbrev pub IsRowOf : Job → TestResult → Type 0
IsRowOf j row = (row.run_id ≡ j.run_id) × (row.flow_id ≡ j.flow_id)

record_ingested-IsRowOf :
    (env : Surroundings) (j : Job) (o : Option (List HealOutcome)) (codes : List ℤ)
    (last : Option Text)
    → WhenSome (λ (d : Done). IsRowOf j d.row) (record_ingested env j o codes last)
unfolding record_ingested record_flow
record_ingested-IsRowOf env j none codes last = tt
record_ingested-IsRowOf env j (some outcomes) codes last = (refl, refl)

-- Whatever happens to a job, its row is about it.
pub run_flow_job-IsRowOf :
    (env : Surroundings) (j : Job) → WhenSome (λ (d : Done). IsRowOf j d.row) (run_flow_job env j)
unfolding run_flow_job abort_flow
run_flow_job-IsRowOf env j = elim (Bool-cases (env.is_killed 1)) [
  | inl e ↦ rw e (refl, refl)
  | inr e ↦ rw e (
      record_ingested-IsRowOf env j env.journal_outcomes (attempt_loop env max_attempts 1 [] none).0
        (attempt_loop env max_attempts 1 [] none).1)
]

-- A job of a run that is killed first is recorded as aborted, with no attempt.
pub run_flow_job-aborted :
    (env : Surroundings) (j : Job)
    → env.is_killed 1 ≡ true
    → (d : Done) × (run_flow_job env j ≡ some d)
      × IsRowOf j d.row
      × (d.row.verdict ≡ aborted)
      × (d.row.attempts ≡ 0)
unfolding run_flow_job abort_flow
run_flow_job-aborted env j e = (abort_flow j, rw e refl, (refl, refl), refl, refl)

-- A job whose journal is ingested is recorded.
pub run_flow_job-ends :
    (env : Surroundings) (j : Job) (outcomes : List HealOutcome)
    → env.journal_outcomes ≡ some outcomes
    → (d : Done) × (run_flow_job env j ≡ some d) × IsRowOf j d.row
run_flow_job-ends env j outcomes r = elim (Bool-cases (env.is_killed 1)) [
  | inl e ↦ let (d, k, about, v, a) = run_flow_job-aborted env j e in (d, k, about)
  | inr e ↦ (_, run_flow_job-recorded env j outcomes e r, unfold record_flow in (refl, refl))
]
