-- ===== src/Execution.antt =====
-- The execution plane: apps/api/app/services/exec_service.py, the consumer of
-- services/worker/consumer.py, and the routes of routers/executions.py that start and kill runs.
pub mod Store
pub mod Rank
pub mod Queue
pub mod Kill
pub mod Stuck
pub mod Lifecycle
pub mod Tiers
pub mod History
mod Tests
use febal_automation_script.Prelude.{
  ℕ, ltb, take, String, str_eq, Bool, true, false, List, [], ◌∷◌, ◌++◌, map, filter, Option, none,
  some, contains, if◌then◌else◌, Dict, lookup,
}
use febal_automation_script.Prelude.Strings.{join}
use febal_automation_script.Worker.Job.{Surroundings, Job, Done, TestResult, run_flow_job}
use febal_automation_script.Scenarios.{Scenario, is_approved}
use febal_automation_script.Execution.Store.{TestRun, World, queued, sort, insert_sorted}
use febal_automation_script.Execution.Rank.{
  RiskRankWeights, default_weights, FlowRisk, Ranked, rank_risk_flows,
}

unfoldable pub tier_selector : Dict (List String)
tier_selector =
    ("smoke", "-m" ∷ "smoke" ∷ [])
    ∷ ("sanity", "-m" ∷ "sanity" ∷ [])
    ∷ ("regression", "-m" ∷ "regression" ∷ [])
    ∷ ("full", [])
    ∷ []

abbrev pub valid_tiers : List String
valid_tiers = "smoke" ∷ "sanity" ∷ "regression" ∷ "full" ∷ "risk-based" ∷ []

abbrev or_no_tokens : Option (List String) → List String
or_no_tokens none = []
or_no_tokens (some l) = l

-- `none` for the ValueError.
unfoldable pub resolve_tier : String → Option (List String)
unfolding tier_selector lookup
resolve_tier tier =
    if contains valid_tiers tier then some (or_no_tokens (lookup tier tier_selector)) else none

-- GROUP BY
unfoldable pub distinct : List String → List String
distinct [] = []
distinct (a ∷ l) = let rest = distinct l in if contains rest a then rest else a ∷ rest

-- `collate` is the order of texts in the database.
unfoldable pub approved_flows : (String → String → Bool) → List Scenario → List String
unfolding distinct sort
approved_flows collate scenarios =
    sort collate
      (distinct (map (λ (s : Scenario). s.flow_id) (filter (λ s. is_approved s.status) scenarios)))

unfoldable pub resolve_flows_for_tier :
    (String → String → Bool) → List Scenario → List FlowRisk → World → String → List String
unfolding approved_flows rank_risk_flows
resolve_flows_for_tier collate scenarios records w tier =
    if str_eq tier "risk-based"
    then map (λ (r : Ranked). r.id) (rank_risk_flows default_weights records w)
    else approved_flows collate scenarios

unfoldable pub create_test_run : String → String → Option String → ℕ → World → World
create_test_run run_id tier selector now w = record w {
  runs =
      w.runs
      ++ record {
        run_id = run_id;
        tier = tier;
        selector = selector;
        status = queued;
        total = 0;
        passed_count = 0;
        failed_count = 0;
        flaky_count = 0;
        created_at = now;
      }
        ∷ [];
}

-- What a body that is valid JSON may be: a job, or anything without its two keys.
pub data Body : Type 0 where
  job : Job → Body
  no_job : Body

-- `json.dumps` of a job, and `json.loads` of a body: `none` for what is not JSON.
pub record Json : Type 0 where
  pub dumps : Job → String
  pub loads : String → Option Body

unfoldable pub bodies : Json → String → List String → List String
bodies json run_id flow_ids =
    map (λ fid. json.dumps (record { run_id = run_id; flow_id = fid })) flow_ids

-- With no broker in the settings it raises, which is `none`.
unfoldable pub enqueue_jobs : Json → Bool → String → List String → World → Option World
unfolding bodies
enqueue_jobs json has_broker run_id flow_ids w =
    if has_broker then some (record w { queue = w.queue ++ bodies json run_id flow_ids }) else none

-- A purge removes what is ready in the queue: the first messages, `unacked` many, that the consumer has
-- prefetched and not acked stay, whichever run they belong to.
unfoldable pub kill_run : Bool → ℕ → String → World → World
kill_run has_broker unacked run_id w =
    let flagged : World = record w { kill_flags = run_id ∷ w.kill_flags } in
    if has_broker then record flagged { queue = take unacked w.queue } else flagged

-- What the route answers; `failed` is the RuntimeError that nothing catches.
pub data Answer : Type 0 where
  accepted : String → Answer
  unprocessable : Answer
  failed : Answer

after_enqueue : String → World → Option World → Answer × World
after_enqueue run_id w none = (failed, w)
after_enqueue run_id w (some w') = (accepted run_id, w')

-- The settings and tables that the route reads, the uuid4 and the time among them.
pub record Request : Type 0 where
  pub json : Json
  pub has_broker : Bool
  pub collate : String → String → Bool
  pub scenarios : List Scenario
  pub records : List FlowRisk
  pub run_id : String
  pub now : ℕ
  pub tier : String

-- `" ".join(selector_tokens) if selector_tokens else None`
abbrev selector_of : List String → Option String
selector_of [] = none
selector_of (t ∷ tokens) = some (join " " (t ∷ tokens))

start_resolved : Request → World → Option (List String) → Answer × World
unfolding resolve_flows_for_tier create_test_run enqueue_jobs after_enqueue
start_resolved q w none = (unprocessable, w)
start_resolved q w (some tokens) =
    let flow_ids = resolve_flows_for_tier q.collate q.scenarios q.records w q.tier in
    let w' = create_test_run q.run_id q.tier (selector_of tokens) q.now w in
    after_enqueue q.run_id w' (enqueue_jobs q.json q.has_broker q.run_id flow_ids w')

unfoldable pub start_execution : Request → World → Answer × World
unfolding resolve_tier start_resolved
start_execution q w = start_resolved q w (resolve_tier q.tier)

-- What surrounds a job: its kill flag may have been set before.
unfoldable pub in_world : Surroundings → List String → Job → Surroundings
in_world env kill_flags j = record env {
  is_killed = λ n. if contains kill_flags j.run_id then true else env.is_killed n;
}

abbrev pub recorded : World → TestResult → World
recorded w row = record w { results = w.results ++ row ∷ [] }

-- After a job: its row, and the message is acked. One that raised goes back to the queue, and the
-- exception ends the loop, which is `false`.
after_job : World → String → List String → Option Done → World × Bool
after_job w m rest none = (record w { queue = m ∷ rest }, false)
after_job w m rest (some d) = (recorded (record w { queue = rest }) d.row, true)

-- One message of the iterator, the head of the queue. A body that is not JSON is acked and dropped;
-- without the keys of a job the handler raises, as a job may.
unfoldable pub on_body :
    (Job → Surroundings) → World → String → List String → Option Body → World × Bool
unfolding after_job
on_body env w m rest none = (record w { queue = rest }, true)
on_body env w m rest (some no_job) = (record w { queue = m ∷ rest }, false)
on_body env w m rest (some (job j)) =
    after_job w m rest (run_flow_job (in_world (env j) w.kill_flags j) j)

-- The loop over the messages that the queue holds.
unfoldable pub consume : Json → (Job → Surroundings) → List String → World → World × Bool
unfolding on_body
consume json env [] w = (record w { queue = [] }, true)
consume json env (m ∷ rest) w =
    let step = on_body env w m rest (json.loads m) in
    let more = consume json env rest step.0 in if step.1 then more else step

unfoldable pub run_consumer : Json → (Job → Surroundings) → World → World × Bool
unfolding consume
run_consumer json env w = consume json env w.queue w
