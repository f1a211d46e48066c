-- ===== src/Execution/History/Trend.antt =====
-- What the dashboards can read of the runs: the trend and the counters of
-- apps/api/app/services/exec_history.py and services/worker/progress.py.
use febal_automation_script.Prelude.{
  ℕ, ◌+◌, ◌≤◌, String, str_eq, ◌≡◌, refl, List, [], ◌∷◌, map, count, arith, All, if◌then◌else◌,
}
use febal_automation_script.Worker.Classifier.{
  VerdictName, passed, flaky, product_failure, auto_healed, quarantined, aborted,
}
use febal_automation_script.Worker.Job.{TestResult}
use febal_automation_script.Execution.Store.{TestRun, World}
use febal_automation_script.Execution.Lifecycle.{
  Operation, perform_all, IsUntouched, perform_all-IsUntouched,
}
use febal_automation_script.Execution.History.{
  Day, days, sum_on, pass_rate_trend, build_counters, count_verdicts, is_flaky, is_passed,
  is_product_failure,
}

sum_on-zero :
    (f : TestRun → ℕ) (day_of : ℕ → ℕ) (d : ℕ) (runs : List TestRun)
    → All (λ r. f r ≡ 0) runs
    → sum_on f day_of d runs ≡ 0
unfolding sum_on
sum_on-zero f day_of d [] h = refl
sum_on-zero f day_of d (r ∷ runs) h = ground (arith, h.0, sum_on-zero f day_of d runs h.1)

totals-zero : (runs : List TestRun) → All IsUntouched runs → All (λ r. r.total ≡ 0) runs
totals-zero [] h = tt
totals-zero (r ∷ runs) h = (h.0.1, totals-zero runs h.1)

passes-zero : (runs : List TestRun) → All IsUntouched runs → All (λ r. r.passed_count ≡ 0) runs
passes-zero [] h = tt
passes-zero (r ∷ runs) h = (h.0.2, passes-zero runs h.1)

abbrev pub IsFlat : Day → Type 0
IsFlat d = (d.total ≡ 0) × (d.passed_count ≡ 0)

days-IsFlat :
    (day_of : ℕ → ℕ) (runs : List TestRun) (l : List ℕ)
    → All IsUntouched runs
    → All IsFlat (
        map
          (λ d. record {
            day = d;
            total = sum_on (λ r. r.total) day_of d runs;
            passed_count = sum_on (λ r. r.passed_count) day_of d runs;
          })
          l)
days-IsFlat day_of runs [] h = tt
days-IsFlat day_of runs (d ∷ l) h = (
  (
    sum_on-zero (λ r. r.total) day_of d runs (totals-zero runs h),
    sum_on-zero (λ r. r.passed_count) day_of d runs (passes-zero runs h),
  ),
  days-IsFlat day_of runs l h,
)

-- Whatever is started, run and killed, every day of the pass-rate trend has no test and no pass, so
-- that its pass rate is 0.
pub pass_rate_trend-IsFlat :
    (day_of : ℕ → ℕ) (os : List Operation) (w : World)
    → All IsUntouched w.runs
    → All IsFlat (pass_rate_trend day_of (perform_all os w))
unfolding pass_rate_trend
pass_rate_trend-IsFlat day_of os w h =
    days-IsFlat day_of (perform_all os w).runs (days day_of (perform_all os w).runs)
      (perform_all-IsUntouched os w h)

one_verdict :
    (v : VerdictName)
    → (if is_passed v then 1 else 0)
        + (if is_product_failure v then 1 else 0)
        + (if is_flaky v then 1 else 0)
      ≤ 1
one_verdict passed = omega arith
one_verdict flaky = omega arith
one_verdict product_failure = omega arith
one_verdict auto_healed = omega arith
one_verdict quarantined = omega arith
one_verdict aborted = omega arith

counts_bounds :
    (run_id : String) (rows : List TestResult)
    → count_verdicts is_passed run_id rows
        + count_verdicts is_product_failure run_id rows
        + count_verdicts is_flaky run_id rows
      ≤ count (λ r. str_eq r.run_id run_id) rows
unfolding count_verdicts
counts_bounds run_id [] = omega arith
counts_bounds run_id (r ∷ rows) = ground (arith, counts_bounds run_id rows, one_verdict r.verdict)

-- In the counters of the live view no result counts twice: passes, failures and flaky results
-- together are at most the results recorded.
pub build_counters_bounds :
    (w : World) (run_id : String)
    → (build_counters w run_id).passed_count
        + (build_counters w run_id).failed_count
        + (build_counters w run_id).flaky_count
      ≤ (build_counters w run_id).completed
unfolding build_counters
build_counters_bounds w run_id = counts_bounds run_id w.results
