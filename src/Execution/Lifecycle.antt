-- ===== src/Execution/Lifecycle.antt =====
-- The rows of test_runs under everything that apps/api/app does to them, and the pass-rate trend of
-- services/exec_history.py over them.
use febal_automation_script.Prelude.{
  String, Bool, true, false, ◌≡◌, refl, List, [], ◌∷◌, Option, ℕ, none, some, All, All-append,
  if◌then◌else◌,
}
use febal_automation_script.Worker.Job.{Surroundings, Job, Done, run_flow_job}
use febal_automation_script.Execution.Store.{TestRun, World, queued}
use febal_automation_script.Execution.{
  Json, Body, job, no_job, Request, start_execution, selector_of, start_resolved, after_enqueue,
  create_test_run, enqueue_jobs, resolve_tier, resolve_flows_for_tier, kill_run, run_consumer,
  consume, on_body, after_job, in_world, recorded,
}

-- The three ways in which the rows are written: a request, the worker, a kill.
pub data Operation : Type 0 where
  start : Request → Operation
  work : Json → (Job → Surroundings) → Operation
  kill : Bool → ℕ → String → Operation

unfoldable pub perform : Operation → World → World
unfolding start_execution run_consumer kill_run
perform (start q) w = (start_execution q w).1
perform (work json env) w = (run_consumer json env w).0
perform (kill has_broker unacked run_id) w = kill_run has_broker unacked run_id w

unfoldable pub perform_all : List Operation → World → World
unfolding perform
perform_all [] w = w
perform_all (o ∷ os) w = perform_all os (perform o w)

-- As `create_test_run` writes it.
abbrev pub IsUntouched : TestRun → Type 0
IsUntouched r =
    (r.status ≡ queued)
    × (r.total ≡ 0)
    × (r.passed_count ≡ 0)
    × (r.failed_count ≡ 0)
    × (r.flaky_count ≡ 0)

start-IsUntouched :
    (q : Request) (w : World) (o : Option (List String))
    → All IsUntouched w.runs
    → All IsUntouched (start_resolved q w o).1.runs
unfolding start_resolved after_enqueue enqueue_jobs create_test_run
start-IsUntouched q w none h = h
start-IsUntouched q w (some tokens) h = by_broker q.has_broker
  where
    appended : All IsUntouched (create_test_run q.run_id q.tier (selector_of tokens) q.now w).runs
    appended = All-append IsUntouched w.runs _ h ((refl, refl, refl, refl, refl), tt)

    by_broker :
        (b : Bool)
        → All IsUntouched
            (after_enqueue q.run_id (create_test_run q.run_id q.tier (selector_of tokens) q.now w) (
              enqueue_jobs q.json b q.run_id
                (resolve_flows_for_tier q.collate q.scenarios q.records w q.tier)
                (create_test_run q.run_id q.tier (selector_of tokens) q.now w))).1.runs
    by_broker true = appended
    by_broker false = appended

consume-runs :
    (json : Json) (env : Job → Surroundings) (l : List String) (w : World)
    → (consume json env l w).0.runs ≡ w.runs
unfolding consume on_body after_job
consume-runs json env [] w = refl
consume-runs json env (m ∷ rest) w = at_body (json.loads m) (consume-runs json env rest)
  where
    at_done :
        (o : Option Done)
        → ((v : World) → (consume json env rest v).0.runs ≡ v.runs)
        → (if (after_job w m rest o).1
            then consume json env rest (after_job w m rest o).0
            else after_job w m rest o).0.runs
          ≡ w.runs
    at_done none again = refl
    at_done (some d) again = again (recorded (record w { queue = rest }) d.row)

    at_body :
        (o : Option Body)
        → ((v : World) → (consume json env rest v).0.runs ≡ v.runs)
        → (if (on_body env w m rest o).1
            then consume json env rest (on_body env w m rest o).0
            else on_body env w m rest o).0.runs
          ≡ w.runs
    at_body none again = again (record w { queue = rest })
    at_body (some no_job) again = refl
    at_body (some (job j)) again = at_done (run_flow_job (in_world (env j) w.kill_flags j) j) again

perform-IsUntouched :
    (o : Operation) (w : World) → All IsUntouched w.runs → All IsUntouched (perform o w).runs
unfolding perform start_execution run_consumer kill_run
perform-IsUntouched (start q) w h = start-IsUntouched q w (resolve_tier q.tier) h
perform-IsUntouched (work json env) w h = rw consume-runs h
perform-IsUntouched (kill true unacked run_id) w h = h
perform-IsUntouched (kill false unacked run_id) w h = h

-- No operation ever changes a row of test_runs after it was made: whatever is started, run and
-- killed, every run is still queued and all its counters are 0.
pub perform_all-IsUntouched :
    (os : List Operation) (w : World)
    → All IsUntouched w.runs
    → All IsUntouched (perform_all os w).runs
unfolding perform_all
perform_all-IsUntouched [] w h = h
perform_all-IsUntouched (o ∷ os) w h =
    perform_all-IsUntouched os (perform o w) (perform-IsUntouched o w h)
