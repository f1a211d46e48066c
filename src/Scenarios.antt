-- ===== src/Scenarios.antt =====
-- The review queue of scenarios (apps/api/app/services/scenario_service.py): the table is a list of
-- rows in the order of their ids.
pub mod Review
pub mod Routes
mod Tests
use febal_automation_script.Prelude.{
  ℕ, suc, String, Bool, true, false, ◌&&◌, Option, none, some, List, [], ◌∷◌, ◌++◌, filter, str_eq,
  ◌==◌, if◌then◌else◌,
}
use febal_automation_script.Gates.{ThenRef}

pub data Status : Type 0 where
  draft approved rejected : Status

pub record Scenario : Type 0 where
  pub id : ℕ
  pub run_id : String
  pub flow_id : String
  pub feature_name : String
  pub gherkin_text : String
  pub then_refs : List ThenRef
  pub status : Status
  pub edited : Bool
  pub stale : Bool

-- The rows, and the id of the next one.
pub record Table : Type 0 where
  pub rows : List Scenario
  pub next_id : ℕ

pub data Raised : Type 0 where
  invalid_status scenario_not_found : Raised

-- `_validate_status`
unfoldable pub validate_status : String → Option Status
validate_status status =
    if str_eq status "draft"
    then some draft
    else if str_eq status "approved"
    then some approved
    else if str_eq status "rejected"
    then some rejected
    else none

-- What the caller gives of a new scenario.
pub record NewScenario : Type 0 where
  pub run_id : String
  pub flow_id : String
  pub feature_name : String
  pub gherkin_text : String
  pub then_refs : List ThenRef

unfoldable pub new_row : NewScenario → ℕ → Scenario
new_row n id = record {
  id = id;
  run_id = n.run_id;
  flow_id = n.flow_id;
  feature_name = n.feature_name;
  gherkin_text = n.gherkin_text;
  then_refs = n.then_refs;
  status = draft;
  edited = false;
  stale = false;
}

unfoldable pub create_scenario : NewScenario → Table → Table
create_scenario n t = record { rows = t.rows ++ new_row n t.next_id ∷ []; next_id = suc t.next_id }

unfoldable pub get : List Scenario → ℕ → Option Scenario
get [] id = none
get (s ∷ rows) id = let rest = get rows id in if s.id == id then some s else rest

-- A change of the row with this id.
unfoldable pub change : (Scenario → Scenario) → ℕ → List Scenario → List Scenario
change f id [] = []
change f id (s ∷ rows) = let rest = change f id rows in if s.id == id then f s ∷ rows else s ∷ rest

write : (Scenario → Scenario) → ℕ → Table → Option Scenario → Option Raised × Table
write f id t none = (some scenario_not_found, t)
write f id t (some s) = (none, record t { rows = change f id t.rows })

set_valid : ℕ → Table → Option Status → Option Raised × Table
unfolding write
set_valid id t none = (some invalid_status, t)
set_valid id t (some status) = write (λ s. record s { status = status }) id t (get t.rows id)

unfoldable pub set_status : ℕ → String → Table → Option Raised × Table
unfolding set_valid
set_status id status t = set_valid id t (validate_status status)

unfoldable pub edit : String → List ThenRef → Scenario → Scenario
edit gherkin_text then_refs s = record s {
  gherkin_text = gherkin_text;
  then_refs = then_refs;
  edited = true;
  status = draft;
}

unfoldable pub update_gherkin : ℕ → String → List ThenRef → Table → Option Raised × Table
unfolding write
update_gherkin id gherkin_text then_refs t =
    write (edit gherkin_text then_refs) id t (get t.rows id)

abbrev pub is_approved : Status → Bool
is_approved approved = true
is_approved _ = false

unfoldable pub list_approved : String → Table → List Scenario
list_approved run_id t = filter (λ s. str_eq s.run_id run_id && is_approved s.status) t.rows
