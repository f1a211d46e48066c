-- ===== src/Generation.antt =====
-- The generation of scenarios: `generate_scenarios` of apps/api/app/services/generation.py with what it
-- calls. The table of examples that it derives and drops is left out.
pub mod Drafts
mod Tests
use febal_automation_script.Prelude.{
  ℕ, suc, String, Bool, true, false, ◌&&◌, List, [], ◌∷◌, ◌++◌, Option, none, some, if◌then◌else◌,
}
use febal_automation_script.Prelude.Strings.{append}
use febal_automation_script.Kg.Writer.{Graph}
use febal_automation_script.Scenarios.{Scenario, Table, NewScenario, create_scenario, new_row}
use febal_automation_script.Gates.{ThenRef, assert_non_vacuous}

-- What is read of a flow; a missing id is the empty text.
pub record Flow : Type 0 where
  pub id : String
  pub name : Option String
  pub node_fps : List String

pub record Pair : Type 0 where
  pub gherkin : String
  pub then_refs : List ThenRef

unfoldable pub terminal_page_fp : List String → Option String
terminal_page_fp [] = none
terminal_page_fp (fp ∷ []) = some fp
terminal_page_fp (fp ∷ fq ∷ fps) = terminal_page_fp (fq ∷ fps)

-- `flow.get("name") or "Flow"`
abbrev pub name_or_flow : Option String → String
name_or_flow none = "Flow"
name_or_flow (some String.[]) = "Flow"
name_or_flow (some (String.◌∷◌ c s)) = String.◌∷◌ c s

-- The reference has a fingerprint only if that is not the empty text.
abbrev given : Option String → Option String
given none = none
given (some String.[]) = none
given (some (String.◌∷◌ c s)) = some (String.◌∷◌ c s)

abbrev pub destination : Option String → ThenRef
destination fp = record {
  then_text = "the destination page is reached";
  kind = some "page";
  edge_type = none;
  entity = none;
  element_key = none;
  page_fingerprint = given fp;
  page_url = none;
}

minimal_text : String → String
minimal_text name = append "Feature: " (
    append name (
      append "\n  Scenario: Complete " (
        append name
          "\n    Given the application entry page\n    When the user proceeds through the flow\n    Then the destination page is reached\n")))

unfoldable pub deterministic_minimal_pair : Flow → Pair
unfolding terminal_page_fp minimal_text
deterministic_minimal_pair f = record {
  gherkin = minimal_text (name_or_flow f.name);
  then_refs = destination (terminal_page_fp f.node_fps) ∷ [];
}

-- What the gateway gives for a flow: an exception, or a text, and what `_parse_gen_payload` makes of it
-- (`none` for its GenerationError).
pub data Reply : Type 0 where
  refused : Reply
  answered : Option Pair → Reply

unfoldable pub scenario_pair_for_flow : Flow → Reply → Option Pair
unfolding deterministic_minimal_pair
scenario_pair_for_flow f refused = some (deterministic_minimal_pair f)
scenario_pair_for_flow f (answered o) = o

-- The gateway's replies, the Gherkin parser's verdict, and the graph.
pub record Env : Type 0 where
  pub reply : Flow → Reply
  pub parses : String → Bool
  pub graph : Graph
  pub run_id : String

-- `flow.get("name", "Flow")`
abbrev pub name_or_default : Option String → String
name_or_default none = "Flow"
name_or_default (some s) = s

unfoldable pub draft_of : Env → Flow → Pair → NewScenario
draft_of env f pair = record {
  run_id = env.run_id;
  flow_id = f.id;
  feature_name = name_or_default f.name;
  gherkin_text = pair.gherkin;
  then_refs = pair.then_refs;
}

-- `validate_gherkin` and then `assert_non_vacuous`.
unfoldable pub passes : Env → Pair → Bool
unfolding assert_non_vacuous
passes env pair = env.parses pair.gherkin && assert_non_vacuous env.graph pair.then_refs

-- The draft that a flow is to have, if nothing raises.
unfoldable pub accepted_pair : Env → Option Pair → Option Pair
unfolding passes
accepted_pair env none = none
accepted_pair env (some pair) = if passes env pair then some pair else none

add_id : ℕ → Option (List ℕ) × Table → Option (List ℕ) × Table
add_id id (none, t) = (none, t)
add_id id (some ids, t) = (some (id ∷ ids), t)

-- `none` for the GenerationError; the ids in order otherwise.
unfoldable pub generate_scenarios : Env → List Flow → Table → Option (List ℕ) × Table
unfolding scenario_pair_for_flow accepted_pair draft_of create_scenario add_id
generate_scenarios env [] t = (some [], t)
generate_scenarios env (f ∷ flows) t =
    elim (accepted_pair env (scenario_pair_for_flow f (env.reply f))) [
      | none ↦ (none, t)
      | some pair ↦
          add_id t.next_id (generate_scenarios env flows (create_scenario (draft_of env f pair) t))
    ]
