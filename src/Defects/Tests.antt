-- ===== src/Defects/Tests.antt =====
-- A run with two failures of one kind, on a Jira that answers from the calls made to it.
use febal_automation_script.Prelude.{
  ◌≤◌, ◌+◌, String, ◌≡◌, refl, true, false, none, some, List, [], ◌∷◌, All, length, arith, contains,
  if◌then◌else◌,
}
use febal_automation_script.Prelude.Texts.{codes, is_part, text_eq}
use febal_automation_script.Prelude.Int.{◌+ℤ◌, ◌*ℤ◌}
use febal_automation_script.Worker.Classifier.{quarantine}
use febal_automation_script.Defects.Classify.{
  Patterns, Evidence, automation, classify, default_weights, infra_health, page_loaded,
  classify_rules, or_default, corroboration, conflict,
}
use febal_automation_script.Defects.Pipeline.{
  Jira, Site, Failure, run_all, run_defect_pipeline, file_or_update, on_search, create_or_not,
  safe_artifact_paths, split, filed, draft_of, classify_failure, gather_evidence, may_autofile,
}
use febal_automation_script.Defects.Pipeline.Cap.{created_fps, run_all-cap}
use febal_automation_script.Defects.Pipeline.Autonomy.{IsJustified, run_all-IsJustified}

abbrev re : Patterns
re = record {
  timed_out = λ t. is_part (codes "timed out") t;
  locator = λ t. is_part (codes "locator") t;
  product = λ t. is_part (codes "assert") t;
}

abbrev drifted : Evidence
drifted = record {
  error_text = codes "no such locator";
  page_loaded = true;
  heal_outcome = some quarantine;
  infra_health = none;
}

drifted_is_automation :
    let d = classify re drifted default_weights in
    (d.classification ≡ automation) × (d.confidence ≡ 100)
unfolding classify classify_rules infra_health is_part text_eq or_default corroboration conflict
    ◌+ℤ◌ ◌*ℤ◌
drifted_is_automation = (refl, refl)

-- It finds an issue just when one was created with the fingerprint.
abbrev jira : Jira
jira = record {
  search_jql = λ calls fp. if contains (created_fps calls) fp then some (some "QA-1") else none;
  create_issue = λ calls fp. some "QA-1";
}

abbrev site : Site
site = record {
  re = re;
  fingerprint = λ cls text flow step. flow;
  jira = jira;
  settings = record {
    jira_autonomous_enabled = true;
    jira_confidence_threshold = 70;
    jira_max_tickets_per_run = 1;
  };
  inside = λ path. true;
}

abbrev failure : String → Failure
failure flow = record {
  flow_id = flow;
  error_text = codes "assert 1 == 2";
  heal_outcome = none;
  step = "flow";
  artifacts = codes "f1/shot.png" ∷ codes "../secret" ∷ [];
}

abbrev failures : List Failure
failures = failure "f1" ∷ failure "f1" ∷ failure "f2" ∷ []

one_issue : created_fps (run_all site "r1" failures 0 []).2 ≡ "f1" ∷ []
unfolding run_all run_defect_pipeline file_or_update on_search create_or_not safe_artifact_paths
    split filed draft_of classify_failure gather_evidence may_autofile classify classify_rules
    infra_health page_loaded or_default corroboration conflict is_part text_eq ◌+ℤ◌ ◌*ℤ◌
one_issue = refl

run_all-cap_example :
    let r = run_all site "r1" failures 0 [] in (r.1 ≤ 1) × (length (created_fps r.2) + 0 ≡ 0 + r.1)
run_all-cap_example = run_all-cap site "r1" failures 0 [] (omega arith)

run_all-IsJustified_example :
    let r = run_all site "r1" failures 0 [] in All (IsJustified site) r.0 × (length r.0 ≡ 3)
run_all-IsJustified_example = run_all-IsJustified site "r1" failures 0 []

abbrev cautious : Site
cautious = record site { settings = record site.settings { jira_autonomous_enabled = false } }
