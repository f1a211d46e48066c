-- ===== src/Scenarios/Tests.antt =====
-- A scenario that is approved, edited and so no longer read.
use febal_automation_script.Prelude.{◌≡◌, refl, [], length}
use febal_automation_script.Scenarios.{
  NewScenario, Table, create_scenario, new_row, get, change, validate_status, set_status, edit,
  update_gherkin, list_approved,
}
use febal_automation_script.Scenarios.Review.{create, set, update, apply}

abbrev login : NewScenario
login = record {
  run_id = "r1";
  flow_id = "f1";
  feature_name = "Login";
  gherkin_text = "Given";
  then_refs = [];
}

abbrev queued : Table
queued = apply (create login) (record { rows = []; next_id = 1 })

one_is_read : length (list_approved "r1" (apply (set 1 "approved") queued)) ≡ 1
unfolding create_scenario new_row set_status get change validate_status list_approved
one_is_read = refl

none_is_read :
    list_approved "r1" (apply (update 1 "When" []) (apply (set 1 "approved") queued)) ≡ []
unfolding create_scenario new_row set_status get change validate_status list_approved update_gherkin
    edit
none_is_read = refl
