-- ===== src/Execution/Queue.antt =====
-- What becomes of the messages of exec.jobs: apps/api/app/services/worker/consumer.py over the
-- producer of exec_service.py.
use febal_automation_script.Prelude.{String, true, ◌≡◌, List, [], ◌∷◌, ◌++◌, some}
use febal_automation_script.Worker.Classifier.{HealOutcome}
use febal_automation_script.Worker.Job.{Surroundings, Job, TestResult}
use febal_automation_script.Worker.Job.Rows.{IsRowOf}
use febal_automation_script.Execution.Store.{World}
use febal_automation_script.Execution.{Json, job, bodies, consume}

-- `json.loads` gives back what `json.dumps` was given.
abbrev pub RoundTrips : Json → Type 0
RoundTrips json = (j : Job) → json.loads (json.dumps j) ≡ some (job j)

-- The ingestion of no journal raises.
abbrev pub IsIngested : (Job → Surroundings) → Type 0
IsIngested env =
    (j : Job) → (outcomes : List HealOutcome) × ((env j).journal_outcomes ≡ some outcomes)

abbrev pub job_of : String → String → Job
job_of run_id flow_id = record { run_id = run_id; flow_id = flow_id }

-- Rows and the flows that they are about.
abbrev pub AreRows : String → List String → List TestResult → Type 0
AreRows run_id [] [] = Unit
AreRows run_id (fid ∷ flow_ids) (r ∷ rows) =
    IsRowOf (job_of run_id fid) r × AreRows run_id flow_ids rows
AreRows run_id _ _ = ⊥

-- The consumer empties a queue of jobs.
abbrev Emptied : Json → (Job → Surroundings) → String → List String → World → Type 0
Emptied json env run_id flow_ids w =
    (rows : List TestResult) × (consume json env (bodies json run_id flow_ids) w
      ≡ (record w { queue = []; results = w.results ++ rows }, true))
    × AreRows run_id flow_ids rows
