-- ===== src/Explorer/Budget.antt =====
-- The caps of a run, the loop detector and saturation (services/explorer/budget.py), and the stop
-- reasons (STOP_REASONS of services/explorer/state.py). Times are in microseconds.
use febal_automation_script.Prelude.{
  ℕ, ◌+◌, ◌*◌, ◌≤◌, String, Bool, true, false, ◌&&◌, Option, none, some, List, arith, min, leb, ltb,
  ◌==◌, Dict, count_at, any, str_eq, if◌then◌else◌,
}

pub data StopReason : Type 0 where
  max_steps max_depth wall_clock budget saturation converged failed stopped : StopReason

pub record ExploreBudget : Type 0 where
  pub steps_cap : ℕ
  pub depth_cap : ℕ
  pub revisits_cap : ℕ
  pub wall_clock_seconds : ℕ
  pub saturation_window : ℕ

-- `target.budget_overrides`: a missing key is `none`.
pub record BudgetOverrides : Type 0 where
  pub steps_cap : Option ℕ
  pub depth_cap : Option ℕ
  pub revisits_cap : Option ℕ
  pub wall_clock_seconds : Option ℕ
  pub saturation_window : Option ℕ

clamp : Option ℕ → ℕ → ℕ
clamp none global_cap = global_cap
clamp (some override) global_cap = min override global_cap

unfoldable pub build_budget : BudgetOverrides → ExploreBudget → ExploreBudget
unfolding clamp
build_budget o settings = record {
  steps_cap = clamp o.steps_cap settings.steps_cap;
  depth_cap = clamp o.depth_cap settings.depth_cap;
  revisits_cap = clamp o.revisits_cap settings.revisits_cap;
  wall_clock_seconds = clamp o.wall_clock_seconds settings.wall_clock_seconds;
  saturation_window = clamp o.saturation_window settings.saturation_window;
}

-- `time.monotonic() - started_at >= wall_clock_seconds`, at the time `now`.
late : Option ℕ → ℕ → ℕ → Bool
late none now seconds = false
late (some started_at) now seconds = leb (started_at + seconds * 1000000) now

unfoldable pub cap_reason : ℕ → ℕ → Option ℕ → ℕ → ExploreBudget → Option StopReason
unfolding late
cap_reason step depth started_at now b =
    if leb b.steps_cap step
    then some max_steps
    else if leb b.depth_cap depth
    then some max_depth
    else if late started_at now b.wall_clock_seconds
    then some wall_clock
    else none

-- `[fingerprint, chosen_index] in pairs`
unfoldable pub has_pair : List (String × ℕ) → String → ℕ → Bool
has_pair pairs fingerprint index = any (λ p. str_eq p.0 fingerprint && p.1 == index) pairs

repeats : Option ℕ → List (String × ℕ) → String → Bool
unfolding has_pair
repeats none pairs fingerprint = false
repeats (some index) pairs fingerprint = has_pair pairs fingerprint index

unfoldable pub is_loop : Dict ℕ → List (String × ℕ) → String → Option ℕ → ExploreBudget → Bool
unfolding repeats
is_loop seen pairs fingerprint chosen b =
    if ltb b.revisits_cap (count_at fingerprint seen)
    then true
    else repeats chosen pairs fingerprint

unfoldable pub is_saturated : ℕ → ExploreBudget → Bool
is_saturated steps_since_new b = leb b.saturation_window steps_since_new

-- A target can only tighten the budget of the settings.
pub build_budget-tightens :
    (o : BudgetOverrides) (s : ExploreBudget)
    → ((build_budget o s).steps_cap ≤ s.steps_cap)
      × ((build_budget o s).depth_cap ≤ s.depth_cap)
      × ((build_budget o s).revisits_cap ≤ s.revisits_cap)
      × ((build_budget o s).wall_clock_seconds ≤ s.wall_clock_seconds)
      × ((build_budget o s).saturation_window ≤ s.saturation_window)
unfolding build_budget
build_budget-tightens o s = ground arith
