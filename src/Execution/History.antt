-- ===== src/Execution/History.antt =====
-- Reads of the history: apps/api/app/services/exec_history.py and `build_counters` of
-- services/worker/progress.py. A pass rate is kept as a fraction.
pub mod Trend
use febal_automation_script.Prelude.{
  ℕ, ◌+◌, ltb, ◌==◌, String, str_eq, Bool, true, false, ◌&&◌, ◌||◌, List, [], ◌∷◌, map, count,
  filter, Option, none, some, length, if◌then◌else◌, contains,
}
use febal_automation_script.Worker.Classifier.{VerdictName, passed, flaky, product_failure}
use febal_automation_script.Worker.Job.{TestResult}
use febal_automation_script.Execution.Store.{
  TestRun, World, RunStatus, running, sort, insert_sorted,
}

-- One day of the trend; `pass_rate` is `passed_count / total`, and 0 where `total` is 0.
pub record Day : Type 0 where
  pub day : ℕ
  pub total : ℕ
  pub passed_count : ℕ

-- Days in rising order, each once.
unfoldable pub insert_day : ℕ → List ℕ → List ℕ
insert_day d [] = d ∷ []
insert_day d (e ∷ l) =
    let rest = insert_day d l in if d == e then e ∷ l else if ltb d e then d ∷ e ∷ l else e ∷ rest

-- `day_of` is `date_trunc('day', created_at)`.
unfoldable pub days : (ℕ → ℕ) → List TestRun → List ℕ
unfolding insert_day
days day_of [] = []
days day_of (r ∷ runs) = insert_day (day_of r.created_at) (days day_of runs)

unfoldable pub sum_on : (TestRun → ℕ) → (ℕ → ℕ) → ℕ → List TestRun → ℕ
sum_on f day_of d [] = 0
sum_on f day_of d (r ∷ runs) =
    (if day_of r.created_at == d then f r else 0) + sum_on f day_of d runs

unfoldable pub pass_rate_trend : (ℕ → ℕ) → World → List Day
unfolding days sum_on
pass_rate_trend day_of w =
    map
      (λ d. record {
        day = d;
        total = sum_on (λ r. r.total) day_of d w.runs;
        passed_count = sum_on (λ r. r.passed_count) day_of d w.runs;
      })
      (days day_of w.runs)

abbrev pub is_flaky : VerdictName → Bool
is_flaky flaky = true
is_flaky v = false

abbrev pub is_passed : VerdictName → Bool
is_passed passed = true
is_passed v = false

abbrev pub is_product_failure : VerdictName → Bool
is_product_failure product_failure = true
is_product_failure v = false

pub record FlakyFlow : Type 0 where
  pub flow_id : String
  pub flaky_count : ℕ

-- GROUP BY: the flows with a flaky row, each once.
unfoldable pub flaky_flows : List TestResult → List String
flaky_flows [] = []
flaky_flows (r ∷ rows) =
    let rest = flaky_flows rows in
    if is_flaky r.verdict && (if contains rest r.flow_id then false else true)
    then r.flow_id ∷ rest
    else rest

unfoldable pub flaky_rows : String → List TestResult → ℕ
flaky_rows fid rows = count (λ r. str_eq r.flow_id fid && is_flaky r.verdict) rows

-- By count, highest first, and then by flow in the order `collate` of the database.
unfoldable pub ranks_before : (String → String → Bool) → FlakyFlow → FlakyFlow → Bool
ranks_before collate a b =
    ltb b.flaky_count a.flaky_count
    || (a.flaky_count == b.flaky_count && collate a.flow_id b.flow_id)

unfoldable pub flaky_leaderboard : (String → String → Bool) → World → List FlakyFlow
unfolding flaky_flows flaky_rows sort ranks_before
flaky_leaderboard collate w = sort (ranks_before collate) (
    map (λ fid. record { flow_id = fid; flaky_count = flaky_rows fid w.results })
      (flaky_flows w.results))

unfoldable pub find_run : String → List TestRun → Option TestRun
find_run run_id [] = none
find_run run_id (r ∷ runs) = if str_eq r.run_id run_id then some r else find_run run_id runs

pub record RunView : Type 0 where
  pub run : TestRun
  pub results : List TestResult

unfoldable pub get_run_status : World → String → Option RunView
unfolding find_run
get_run_status w run_id = elim (find_run run_id w.runs) [
  | none ↦ none
  | some r ↦ some record { run = r; results = filter (λ t. str_eq t.run_id run_id) w.results }
]

pub record Counters : Type 0 where
  pub completed : ℕ
  pub total : ℕ
  pub passed_count : ℕ
  pub failed_count : ℕ
  pub flaky_count : ℕ
  pub status : RunStatus

abbrev total_or : ℕ → Option TestRun → ℕ
total_or completed none = completed
total_or completed (some r) = if r.total == 0 then completed else r.total

abbrev status_or : Option TestRun → RunStatus
status_or none = running
status_or (some r) = r.status

unfoldable pub count_verdicts : (VerdictName → Bool) → String → List TestResult → ℕ
count_verdicts is run_id rows = count (λ r. str_eq r.run_id run_id && is r.verdict) rows

unfoldable pub build_counters : World → String → Counters
unfolding find_run count_verdicts
build_counters w run_id =
    let completed = count (λ (r : TestResult). str_eq r.run_id run_id) w.results in
    record {
      completed = completed;
      total = total_or completed (find_run run_id w.runs);
      passed_count = count_verdicts is_passed run_id w.results;
      failed_count = count_verdicts is_product_failure run_id w.results;
      flaky_count = count_verdicts is_flaky run_id w.results;
      status = status_or (find_run run_id w.runs);
    }
