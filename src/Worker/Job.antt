-- ===== src/Worker/Job.antt =====
-- One flow of a run: services/worker/job.py, with the subprocess, the kill flag, the heal journal
-- and the files on disk as arguments.
pub mod Verdicts
pub mod Rows
pub mod Journal
mod Tests
use febal_automation_script.Prelude.{
  ℕ, zero, suc, ◌+◌, ltb, leb, String, ◌≡◌, Bool, true, false, ◌&&◌, ◌||◌, Option, none, some, List,
  [], ◌∷◌, ◌++◌, map, if◌then◌else◌,
}
use febal_automation_script.Prelude.Texts.{Text, codes, lower, starts_with, text_eq}
use febal_automation_script.Prelude.Int.{ℤ, pos}
use febal_automation_script.Worker.Classifier.{
  VerdictName, Verdict, is_zero, classify_retry, HealOutcome, JournalEvent, event,
  reconcile_verdict, aborted,
}

-- What a run of the spec gives: no exit code when the runner is missing.
pub record SpecRun : Type 0 where
  pub exit_code : Option ℤ
  pub output : Option Text

pub data ArtifactKind : Type 0 where
  screenshot trace video : ArtifactKind

ends_with : Text → Text → Bool
ends_with end [] = text_eq end []
ends_with end (c ∷ s) = text_eq end (c ∷ s) || ends_with end s

unfoldable pub kind_for : Text → Option ArtifactKind
unfolding ends_with
kind_for name =
    let low = lower name in
    if ends_with (codes ".png") low
    then some screenshot
    else if starts_with (codes "trace") low && ends_with (codes ".zip") low
    then some trace
    else if ends_with (codes ".webm") low
    then some video
    else none

-- A file of the flow's directory: its name, and its path relative to the run's directory.
pub record File : Type 0 where
  pub name : Text
  pub path : Text

pub record TestArtifact : Type 0 where
  pub kind : ArtifactKind
  pub path : Text

record_artifact : Option ArtifactKind → Text → List TestArtifact → List TestArtifact
record_artifact none path rest = rest
record_artifact (some k) path rest = record { kind = k; path = path } ∷ rest

unfoldable pub discover_artifacts : List File → List TestArtifact
unfolding record_artifact
discover_artifacts [] = []
discover_artifacts (f ∷ files) = record_artifact (kind_for f.name) f.path (discover_artifacts files)

pub record TestResult : Type 0 where
  pub run_id : String
  pub flow_id : String
  pub verdict : VerdictName
  pub attempts : ℕ
  pub exit_codes : List ℤ
  pub error_text : Option Text

-- What the worker publishes for a test.
pub record TestEvent : Type 0 where
  pub test_status : VerdictName
  pub attempt : ℕ

-- What surrounds one job: the kill flag as it is read before each attempt (from 1), what each
-- attempt gives, the files left behind, and the outcomes that the ingestion of the journal reports,
-- `none` when it raises.
pub record Surroundings : Type 0 where
  pub is_killed : ℕ → Bool
  pub run_spec_once : ℕ → SpecRun
  pub files : List File
  pub journal_outcomes : Option (List HealOutcome)

pub record Job : Type 0 where
  pub run_id : String
  pub flow_id : String

-- What a job leaves: the verdict it returns, its rows and its event.
pub record Done : Type 0 where
  pub returned : Verdict
  pub row : TestResult
  pub artifacts : List TestArtifact
  pub published : TestEvent

abbrev pub max_attempts : ℕ
max_attempts = 3

abbrev pub exit_code_of : Option ℤ → ℤ
exit_code_of none = pos 1
exit_code_of (some code) = code

-- The loop: attempts left, the number of this attempt, and what the earlier ones gave.
unfoldable pub attempt_loop : Surroundings → ℕ → ℕ → List ℤ → Option Text → List ℤ × Option Text
attempt_loop env zero attempt exit_codes last = (exit_codes, last)
attempt_loop env (suc left) attempt exit_codes last =
    let result = env.run_spec_once attempt in
    let code = exit_code_of result.exit_code in
    let codes' = exit_codes ++ code ∷ [] in
    let more = attempt_loop env left (suc attempt) codes' result.output in
    if ltb 1 attempt && env.is_killed attempt
    then (exit_codes, last)
    else if is_zero code
    then (codes', result.output)
    else more

abort_flow : Job → Done
abort_flow job = record {
  returned = record { verdict = aborted; attempts = 0; passed = false; exit_codes = [] };
  row = record {
    run_id = job.run_id;
    flow_id = job.flow_id;
    verdict = aborted;
    attempts = 0;
    exit_codes = [];
    error_text = none;
  };
  artifacts = [];
  published = record { test_status = aborted; attempt = 0 };
}

pub record_flow : Surroundings → Job → List HealOutcome → List ℤ → Option Text → Done
record_flow env job outcomes exit_codes last =
    let base = classify_retry exit_codes in
    let final = reconcile_verdict base.verdict (map (λ o. event (some o)) outcomes) in
    record {
      returned = record base { verdict = final };
      row = record {
        run_id = job.run_id;
        flow_id = job.flow_id;
        verdict = final;
        attempts = base.attempts;
        exit_codes = exit_codes;
        error_text = last;
      };
      artifacts = discover_artifacts env.files;
      published = record { test_status = final; attempt = base.attempts };
    }

-- What the ingestion raises goes through: nothing is recorded and nothing is published.
record_ingested :
    Surroundings → Job → Option (List HealOutcome) → List ℤ → Option Text → Option Done
unfolding record_flow
record_ingested env job none exit_codes last = none
record_ingested env job (some outcomes) exit_codes last =
    some (record_flow env job outcomes exit_codes last)

-- The flag is read before the first attempt, which is the read number 1; `none` when it raises.
unfoldable pub run_flow_job : Surroundings → Job → Option Done
unfolding abort_flow record_ingested
run_flow_job env job =
    let ran = attempt_loop env max_attempts 1 [] none in
    if env.is_killed 1
    then some (abort_flow job)
    else record_ingested env job env.journal_outcomes ran.0 ran.1
