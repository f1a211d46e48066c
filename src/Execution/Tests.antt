-- ===== src/Execution/Tests.antt =====
-- A run of two flows over a queue whose bodies are written in a small format of their own.
use Prim.Native.Char.{code}
use Prim.Native.String.{String}
use febal_automation_script.Prelude.{
  ◌≤◌, ◌==◌, true, false, ◌≡◌, refl, List, [], ◌∷◌, Option, none, some, length, map, All, IsIn,
  if◌then◌else◌,
}
use febal_automation_script.Prelude.Int.{pos}
use febal_automation_script.Worker.Job.{Surroundings, Job, run_flow_job}
use febal_automation_script.Scenarios.{Scenario, Status, approved, draft}
use febal_automation_script.Execution.Store.{World}
use febal_automation_script.Execution.Rank.{
  FlowRisk, Ranked, default_weights, rank_risk_flows, recent_runs,
}
use febal_automation_script.Execution.Rank.Order.{
  IsDescending, IsServed, combined, rank_risk_flows-IsTop,
}
use febal_automation_script.Execution.{
  Json, Body, job, no_job, Request, tier_selector, start_execution, run_consumer, kill_run,
  in_world, consume, approved_flows, distinct,
}
use febal_automation_script.Execution.Kill.{IsDrained, Added, kill_run-stops}
use febal_automation_script.Execution.Stuck.{run_consumer-stuck}
use febal_automation_script.Execution.Lifecycle.{
  Operation, start, work, kill, perform_all, IsUntouched, perform_all-IsUntouched,
}

-- Each character of the run after a `c`, then an `e`, then the flow; `n` for a body that is no job.
encode : String → String → String
encode String.[] flow = String.◌∷◌ "e" flow
encode (String.◌∷◌ c run) flow = String.◌∷◌ "c" (String.◌∷◌ c (encode run flow))

add_char : String → Option Body → Option Body
add_char String.[] o = o
add_char (String.◌∷◌ c s) (some (job j)) =
    some (job (record { run_id = String.◌∷◌ c j.run_id; flow_id = j.flow_id }))
add_char (String.◌∷◌ c s) o = o

decode : String → Option Body
unfolding add_char
decode String.[] = none
decode (String.◌∷◌ a String.[]) =
    if code a == b'n' then some no_job else some (job (record { run_id = ""; flow_id = "" }))
decode (String.◌∷◌ a (String.◌∷◌ c s)) =
    let rest = decode s in
    if code a == b'c'
    then add_char (String.◌∷◌ c "") rest
    else some (job (record { run_id = ""; flow_id = String.◌∷◌ c s }))

abbrev json : Json
json = record { dumps = λ j. encode j.run_id j.flow_id; loads = decode }

abbrev world : World
world = record { runs = []; results = []; queue = []; kill_flags = [] }

abbrev scenario : String → Status → Scenario
scenario flow status = record {
  id = 1;
  run_id = "gen";
  flow_id = flow;
  feature_name = "";
  gherkin_text = "";
  then_refs = [];
  status = status;
  edited = false;
  stale = false;
}

abbrev scenarios : List Scenario
scenarios =
    scenario "login" approved
    ∷ scenario "cart" draft
    ∷ scenario "login" approved
    ∷ scenario "pay" approved
    ∷ []

abbrev request : Request
request = record {
  json = json;
  has_broker = true;
  collate = λ a b. false;
  scenarios = scenarios;
  records = [];
  run_id = "r1";
  now = 7;
  tier = "smoke";
}

abbrev env : Job → Surroundings
env j = record {
  is_killed = λ n. false;
  run_spec_once = λ n. record { exit_code = some (pos 0); output = none };
  files = [];
  journal_outcomes = some [];
}

two_rows : length (run_consumer json env (start_execution request world).1).0.results ≡ 2
unfolding run_consumer start_execution approved_flows distinct tier_selector encode decode
    run_flow_job in_world
two_rows = refl

abbrev started : World
started = (start_execution request world).1

kill_run-stops_example :
    (length (run_consumer json env (kill_run true 1 "r1" started)).0.results ≤ 1)
    × Added
        (IsDrained "r1")
        started.results
        (consume json env (encode "r1" "late" ∷ []) (kill_run true 1 "r1" started)).0.results
unfolding start_execution
kill_run-stops_example = kill_run-stops json env "r1" true 1 (encode "r1" "late" ∷ []) started

abbrev stuck : World
stuck = record world { queue = encode "r1" "login" ∷ "n" ∷ encode "r1" "pay" ∷ [] }

run_consumer-stuck_example :
    let ended = run_consumer json env stuck in
    (ended.1 ≡ false) × (run_consumer json env ended.0 ≡ (ended.0, false))
unfolding decode encode
run_consumer-stuck_example = run_consumer-stuck json env stuck refl

abbrev operations : List Operation
operations = start request ∷ work json env ∷ kill true 2 "r1" ∷ []

perform_all-IsUntouched_example : All IsUntouched (perform_all operations world).runs
perform_all-IsUntouched_example = perform_all-IsUntouched operations world tt

abbrev risks : List FlowRisk
risks = record { id = "low"; risk_score = 10 } ∷ record { id = "high"; risk_score = 80 } ∷ []

high_first :
    map (λ (r : Ranked). r.id) (rank_risk_flows default_weights risks world) ≡ "high" ∷ "low" ∷ []
unfolding rank_risk_flows recent_runs
high_first = refl

rank_risk_flows-IsTop_example :
    (length (rank_risk_flows default_weights risks world) ≤ 10)
    × IsDescending (rank_risk_flows default_weights risks world)
    × All
        (λ a. IsIn a (combined default_weights risks world))
        (rank_risk_flows default_weights risks world)
    × ((a : Ranked)
        → IsIn a (combined default_weights risks world)
        → IsServed 10 (rank_risk_flows default_weights risks world) a)
rank_risk_flows-IsTop_example = rank_risk_flows-IsTop default_weights risks world
