-- ===== src/Execution/Rank.antt =====
-- The risk-based tier of apps/api/app/services/exec_service.py: flows ranked by their risk in the
-- graph and their recent failures. A rate is kept as a fraction and the sum exactly, in tenths of
-- the weights, so that no rounding of floats is modelled.
pub mod Order
use febal_automation_script.Prelude.{
  ℕ, ◌+◌, ◌*◌, ◌≤◌, ltb, leb, String, str_eq, Bool, true, false, ◌&&◌, List, [], ◌∷◌, map, Option,
  none, some, take, count, contains, if◌then◌else◌, Dict, lookup, max,
}
use febal_automation_script.Worker.Classifier.{VerdictName, product_failure}
use febal_automation_script.Worker.Job.{TestResult}
use febal_automation_script.Execution.Store.{TestRun, World, sort, insert_sorted}

pub record RiskRankWeights : Type 0 where
  pub risk_tenths : ℕ
  pub failure_tenths : ℕ
  pub top_n : ℕ

abbrev pub default_weights : RiskRankWeights
default_weights = record { risk_tenths = 6; failure_tenths = 4; top_n = 10 }

pub record Rate : Type 0 where
  pub failures : ℕ
  pub total : ℕ

abbrev is_newer : TestRun → TestRun → Bool
is_newer a b = ltb b.created_at a.created_at

is_failure : VerdictName → Bool
is_failure product_failure = true
is_failure v = false

unfoldable pub recent_runs : List TestRun → ℕ → List String
unfolding sort
recent_runs runs last_k = map (λ (r : TestRun). r.run_id) (take last_k (sort is_newer runs))

-- The GROUP BY row of one flow.
unfoldable pub rate_of : List TestResult → List String → String → Rate
unfolding is_failure
rate_of results recent flow_id = record {
  failures =
      count (λ r. contains recent r.run_id && (str_eq r.flow_id flow_id && is_failure r.verdict))
        results;
  total = count (λ r. contains recent r.run_id && str_eq r.flow_id flow_id) results;
}

abbrev pub no_rate : Rate
no_rate = record { failures = 0; total = 0 }

rates_over : List TestResult → List String → List String → Dict Rate
unfolding rate_of
rates_over results [] flow_ids = map (λ fid. (fid, no_rate)) flow_ids
rates_over results (r ∷ recent) flow_ids =
    map (λ fid. (fid, rate_of results (r ∷ recent) fid)) flow_ids

unfoldable pub failure_rate : World → List String → ℕ → Dict Rate
unfolding recent_runs rates_over
failure_rate w flow_ids last_k = rates_over w.results (recent_runs w.runs last_k) flow_ids

-- A record of `build_flows`.
pub record FlowRisk : Type 0 where
  pub id : String
  pub risk_score : ℕ

-- `combined` is `numerator / denominator`.
pub record Ranked : Type 0 where
  pub id : String
  pub risk_score : ℕ
  pub numerator : ℕ
  pub denominator : ℕ

abbrev or_no_rate : Option Rate → Rate
or_no_rate none = no_rate
or_no_rate (some r) = r

unfoldable pub combine : RiskRankWeights → Dict Rate → FlowRisk → Ranked
unfolding lookup
combine weights rates r =
    let rate : Rate = or_no_rate (lookup r.id rates) in
    let total = max 1 rate.total in
    record {
      id = r.id;
      risk_score = r.risk_score;
      numerator =
          weights.risk_tenths * r.risk_score * total + weights.failure_tenths * 100 * rate.failures;
      denominator = 10 * total;
    }

abbrev pub is_above : Ranked → Ranked → Bool
is_above a b = ltb (b.numerator * a.denominator) (a.numerator * b.denominator)

-- `records` is what `_load_flow_risk` returns: the flows that the graph gave, or none on a failure
-- or a timeout.
unfoldable pub rank_risk_flows : RiskRankWeights → List FlowRisk → World → List Ranked
unfolding failure_rate combine sort
rank_risk_flows weights records w =
    let rates = failure_rate w (map (λ (r : FlowRisk). r.id) records) 10 in
    take weights.top_n (sort is_above (map (combine weights rates) records))
