-- ===== src/Defects/Pipeline.antt =====
-- The filing of defects: services/defects/pipeline.py and autonomy.py. Jira is a list of the calls
-- made to it, and a parameter that answers searches and creations. The texts of an issue are left
-- out, and the resolution of a path is a parameter.
pub mod Cap
pub mod Autonomy
use febal_automation_script.Prelude.{
  ℕ, suc, ◌+◌, ◌≡◌, leb, ◌==◌, String, Bool, true, false, ◌&&◌, ◌||◌, not, Option, none, some, List,
  [], ◌∷◌, ◌++◌, any, map, filter, if◌then◌else◌,
}
use febal_automation_script.Prelude.Texts.{Text, codes, text_eq, is_part}
use febal_automation_script.Defects.Classify.{
  Class, infrastructure, automation, product_defect, Patterns, Evidence, page_loaded, infra_health,
  ClassifierWeights, default_weights, classify, Classified,
}
use febal_automation_script.Worker.Classifier.{HealOutcome}

-- The settings of the autonomy and of the cap.
pub record Settings : Type 0 where
  pub jira_autonomous_enabled : Bool
  pub jira_confidence_threshold : ℕ
  pub jira_max_tickets_per_run : ℕ

unfoldable pub may_autofile : Settings → ℕ → Bool
may_autofile settings conf =
    settings.jira_autonomous_enabled && leb settings.jira_confidence_threshold conf

pub data DefectStatus : Type 0 where
  draft applied rejected : DefectStatus

pub record Defect : Type 0 where
  pub run_id : String
  pub flow_id : String
  pub classification : Class
  pub confidence : ℕ
  pub fingerprint : String
  pub jira_key : Option String
  pub status : DefectStatus

pub data JiraCall : Type 0 where
  searched created : String → JiraCall
  commented linked : Option String → JiraCall
  attached : Option String → Text → JiraCall

-- What Jira answers after the calls made so far: the key of the first issue that a search finds, an
-- issue's key being possibly absent, and the key of a new issue.
pub record Jira : Type 0 where
  pub search_jql : List JiraCall → String → Option (Option String)
  pub create_issue : List JiraCall → String → Option String

-- `rel.split("/")`, the segment read so far first.
split_from : Text → Text → List Text
split_from segment [] = segment ∷ []
split_from segment (c ∷ s) =
    let here = split_from [] s in
    let more = split_from (segment ++ c ∷ []) s in if c == b'/' then segment ∷ here else more

unfoldable pub split : Text → List Text
unfolding split_from
split rel = split_from [] rel

abbrev pub is_bad_segment : Text → Bool
is_bad_segment seg =
    text_eq seg []
    || text_eq seg (codes ".")
    || text_eq seg (codes "..")
    || is_part (codes "\\") seg

-- `inside` tells whether a path resolves inside the run's directory.
unfoldable pub safe_artifact_paths : (Text → Bool) → List Text → List Text
safe_artifact_paths inside artifacts =
    filter (λ rel. not (any is_bad_segment (split rel)) && inside rel) artifacts

pub data Action : Type 0 where
  create update no_file : Action

pub record FileResult : Type 0 where
  pub action : Action
  pub jira_key : Option String
  pub counter : ℕ

abbrev pub attach_all : Option String → List Text → List JiraCall
attach_all key [] = []
attach_all key (p ∷ paths) = attached key p ∷ attach_all key paths

unfoldable pub create_or_not :
    Jira → Settings → Defect → List Text → ℕ → List JiraCall → FileResult × List JiraCall
create_or_not jira settings defect paths run_counter calls =
    if leb settings.jira_max_tickets_per_run run_counter
    then (record { action = no_file; jira_key = none; counter = run_counter }, calls)
    else let key = jira.create_issue calls defect.fingerprint in
      (
        record { action = create; jira_key = key; counter = suc run_counter },
        calls ++ (created defect.fingerprint ∷ (attach_all key paths ++ linked key ∷ [])),
      )

unfoldable pub on_search :
    Jira
    → Settings
    → Defect
    → List Text
    → ℕ
    → List JiraCall
    → Option (Option String)
    → FileResult × List JiraCall
on_search jira settings defect paths run_counter calls none =
    create_or_not jira settings defect paths run_counter calls
on_search jira settings defect paths run_counter calls (some key) = (
  record { action = update; jira_key = key; counter = run_counter },
  calls ++ commented key ∷ attach_all key paths,
)

unfoldable pub file_or_update :
    Jira
    → Settings
    → (Text → Bool)
    → Defect
    → List Text
    → ℕ
    → List JiraCall
    → FileResult × List JiraCall
unfolding on_search create_or_not
file_or_update jira settings inside defect artifacts run_counter calls =
    let paths = safe_artifact_paths inside artifacts in
    let asked = calls ++ searched defect.fingerprint ∷ [] in
    on_search jira settings defect paths run_counter asked
      (jira.search_jql calls defect.fingerprint)

-- A failed flow: what the joins of gather_evidence find of it.
pub record Failure : Type 0 where
  pub flow_id : String
  pub error_text : Text
  pub heal_outcome : Option HealOutcome
  pub step : String
  pub artifacts : List Text

unfoldable pub gather_evidence : Patterns → Failure → Evidence
gather_evidence re f =
    let loaded = page_loaded re f.error_text in
    record {
      error_text = f.error_text;
      page_loaded = loaded;
      heal_outcome = f.heal_outcome;
      infra_health = some (infra_health re f.error_text loaded);
    }

-- What is outside the run: the patterns, the hash of a failure, Jira, the settings and the paths.
pub record Site : Type 0 where
  pub re : Patterns
  pub fingerprint : Class → Text → String → String → String
  pub jira : Jira
  pub settings : Settings
  pub inside : Text → Bool

unfoldable pub classify_failure : Site → Failure → Classified × String
classify_failure site f =
    let d = classify site.re (gather_evidence site.re f) default_weights in
    (d, site.fingerprint d.classification f.error_text f.flow_id f.step)

abbrev pub is_product : Class → Bool
is_product product_defect = true
is_product _ = false

-- The defect after the filing, which marks it as applied unless the cap stopped it.
unfoldable pub filed : Defect → FileResult → Defect
filed defect result = elim result.action [
  | create ↦ record defect { jira_key = result.jira_key; status = applied }
  | update ↦ record defect { jira_key = result.jira_key; status = applied }
  | no_file ↦ defect
]

unfoldable pub draft_of : Site → String → Failure → Defect
draft_of site run_id f =
    let (d, fp) = classify_failure site f in
    record {
      run_id = run_id;
      flow_id = f.flow_id;
      classification = d.classification;
      confidence = d.confidence;
      fingerprint = fp;
      jira_key = none;
      status = draft;
    }

-- The defect, the counter and the calls.
unfoldable pub run_defect_pipeline :
    Site → String → Failure → ℕ → List JiraCall → Defect × ℕ × List JiraCall
unfolding filed
run_defect_pipeline site run_id f run_counter calls =
    let defect = draft_of site run_id f in
    let (result, calls') =
      file_or_update site.jira site.settings site.inside defect f.artifacts run_counter calls in
    if is_product defect.classification && may_autofile site.settings defect.confidence
    then (filed defect result, result.counter, calls')
    else (defect, run_counter, calls)

-- The failures of a run one after the other, with the counter threaded through.
unfoldable pub run_all :
    Site → String → List Failure → ℕ → List JiraCall → List Defect × ℕ × List JiraCall
run_all site run_id [] run_counter calls = ([], run_counter, calls)
run_all site run_id (f ∷ failures) run_counter calls =
    let (defect, counter, calls') = run_defect_pipeline site run_id f run_counter calls in
    let (defects, counter', calls'') = run_all site run_id failures counter calls' in
    (defect ∷ defects, counter', calls'')
