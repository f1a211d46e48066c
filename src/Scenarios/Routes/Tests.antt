-- ===== src/Scenarios/Routes/Tests.antt =====
-- Two drafts in review, one of them with an annotation that the graph does not back.
use febal_automation_script.Prelude.{
  String, Bool, true, false, ◌≡◌, refl, List, [], ◌∷◌, map, some, none, All, length,
}
use febal_automation_script.Kg.Writer.{Graph, page}
use febal_automation_script.Gates.{ThenRef, answers, query_for, assert_non_vacuous}
use febal_automation_script.Generation.{Flow, Reply, answered, generate_scenarios}
use febal_automation_script.Scenarios.{
  draft, Scenario, Table, get, change, update_gherkin, set_status, list_approved, validate_status,
  new_row, edit,
}
use febal_automation_script.Scenarios.Routes.{
  detail, ThenRefResult, Views, then_results, edit_scenario, approve_scenario,
}
use febal_automation_script.Scenarios.Routes.Shown.{backed_in, with_text, then_results-resolved}
use febal_automation_script.Scenarios.Routes.Answers.{
  is_detail, edited_row, approved_row, put, edit_scenario-saves, approve_scenario-approves,
}
use febal_automation_script.Scenarios.Routes.Vetted.{
  Event, generate, approves, handle_all, is_vetted, approval_graphs, handle_all-vetted,
}

abbrev site : Graph
site = record { nodes = (page "f1", []) ∷ []; edges = [] }

abbrev views : Views
views = record { gate = some site; shown = some site }

abbrev then_page : String → ThenRef
then_page fp = record {
  then_text = "it is reached";
  kind = some "page";
  edge_type = none;
  entity = none;
  element_key = none;
  page_fingerprint = some fp;
  page_url = none;
}

abbrev parses : String → Bool
parses text = true

abbrev flow : Flow
flow = record { id = "a"; name = some "Checkout"; node_fps = [] }

abbrev reply : Flow → Reply
reply f = answered (some (record { gherkin = "Feature: x"; then_refs = then_page "f1" ∷ [] }))

abbrev empty : Table
empty = record { rows = []; next_id = 1 }

abbrev events : List Event
events = generate reply site "run" (flow ∷ flow ∷ []) ∷ approves views 1 ∷ []

abbrev queue : Table
queue = handle_all parses (generate reply site "run" (flow ∷ flow ∷ []) ∷ []) empty

one_is_read : length (list_approved "run" (handle_all parses events empty)) ≡ 1
unfolding generate_scenarios answers new_row edit get change set_status list_approved
    approve_scenario assert_non_vacuous query_for validate_status
one_is_read = refl

handle_all-vetted_example :
    All
      (λ s. is_vetted parses (approval_graphs events []) s ≡ true)
      (list_approved "run" (handle_all parses events empty))
handle_all-vetted_example = handle_all-vetted parses events empty "run" tt

edit_is_refused :
    is_detail (edit_scenario parses views 1 "Feature: y" (then_page "f2" ∷ []) queue).0 ≡ false
unfolding generate_scenarios answers new_row edit get change update_gherkin edit_scenario
    assert_non_vacuous query_for
edit_is_refused = refl

edit_is_saved :
    is_detail (edit_scenario parses views 1 "Feature: y" (then_page "f1" ∷ []) queue).0 ≡ true
unfolding generate_scenarios answers new_row edit get change update_gherkin edit_scenario
    assert_non_vacuous query_for
edit_is_saved = refl

-- The first of two annotations with one text is backed, and is still not shown as resolved.
both_are_red :
    map
      (λ (r : ThenRefResult). r.resolved)
      (then_results (some site) (then_page "f1" ∷ then_page "f2" ∷ []))
    ≡ false ∷ false ∷ []
unfolding then_results answers query_for
both_are_red = refl

then_results-resolved_example :
    map
      (λ (r : ThenRefResult). r.resolved)
      (then_results (some site) (then_page "f1" ∷ then_page "f2" ∷ []))
    ≡ map
        (λ (e : ThenRef).
          backed_in (some site) (with_text e.then_text (then_page "f1" ∷ then_page "f2" ∷ [])))
        (then_page "f1" ∷ then_page "f2" ∷ [])
then_results-resolved_example =
    then_results-resolved (some site) (then_page "f1" ∷ then_page "f2" ∷ [])

abbrev edited : List ThenRef
edited = then_page "f1" ∷ []

abbrev first : Scenario
first = record {
  id = 1;
  run_id = "run";
  flow_id = "a";
  feature_name = "Checkout";
  gherkin_text = "Feature: x";
  then_refs = edited;
  status = draft;
  edited = false;
  stale = false;
}

edit_scenario-saves_example : edit_scenario parses views 1 "Feature: y" edited queue ≡ (
  detail (edited_row "Feature: y" edited first) (then_results (some site) edited),
  record queue { rows = put 1 (edited_row "Feature: y" edited first) queue.rows },
)
unfolding generate_scenarios answers new_row get assert_non_vacuous query_for
edit_scenario-saves_example = edit_scenario-saves parses views 1 "Feature: y" edited queue

approve_scenario-approves_example : approve_scenario parses views 1 queue ≡ (
  detail (approved_row first) (then_results (some site) edited),
  record queue { rows = put 1 (approved_row first) queue.rows },
)
unfolding generate_scenarios answers new_row get assert_non_vacuous query_for
approve_scenario-approves_example = approve_scenario-approves parses views 1 queue
