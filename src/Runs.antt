-- ===== src/Runs.antt =====
-- The status of runs and executions: apps/api/app/services/run_service.py over the rows of
-- models/run.py, in the order of their ids.
pub mod Status
mod Tests
use febal_automation_script.Prelude.{
  ℕ, String, str_eq, Bool, true, false, List, [], ◌∷◌, ◌++◌, Option, none, some, contains,
  if◌then◌else◌,
}
use febal_automation_script.Prelude.Int.{ℤ}

abbrev pub valid : List String
valid = "queued" ∷ "running" ∷ "passed" ∷ "failed" ∷ []

pub record Run : Type 0 where
  pub run_id : String
  pub kind : String
  pub target_id : Option ℕ
  pub status : String
  pub error : Option String

pub record Execution : Type 0 where
  pub run_id : String
  pub spec_path : String
  pub status : String
  pub exit_code : Option ℤ
  pub output : Option String

pub record Store : Type 0 where
  pub runs : List Run
  pub executions : List Execution

pub data Raised : Type 0 where
  invalid_status run_not_found : Raised

unfoldable pub get_run : String → List Run → Option Run
get_run run_id [] = none
get_run run_id (r ∷ runs) = if str_eq r.run_id run_id then some r else get_run run_id runs

unfoldable pub get_execution_by_run_id : String → List Execution → Option Execution
get_execution_by_run_id run_id [] = none
get_execution_by_run_id run_id (e ∷ executions) =
    if str_eq e.run_id run_id then some e else get_execution_by_run_id run_id executions

-- A change of the first row of the run, which is the one that the query gives.
unfoldable pub change_run : String → (Run → Run) → List Run → List Run
change_run run_id f [] = []
change_run run_id f (r ∷ runs) =
    if str_eq r.run_id run_id then f r ∷ runs else r ∷ change_run run_id f runs

unfoldable pub change_execution : String → (Execution → Execution) → List Execution → List Execution
change_execution run_id f [] = []
change_execution run_id f (e ∷ executions) =
    if str_eq e.run_id run_id then f e ∷ executions else e ∷ change_execution run_id f executions

unfoldable pub create_run : String → String → Option ℕ → Store → Store
create_run run_id kind target_id s = record s {
  runs =
      s.runs
      ++ record {
        run_id = run_id;
        kind = kind;
        target_id = target_id;
        status = "queued";
        error = none;
      }
        ∷ [];
}

-- `if error is not None: run.error = error`
abbrev or_kept : Option String → Option String → Option String
or_kept none old = old
or_kept (some e) old = some e

set_found : String → String → Option String → Store → Option Run → Option Raised × Store
unfolding change_run
set_found run_id status error s none = (some run_not_found, s)
set_found run_id status error s (some r) = (
  none,
  record s {
    runs =
        change_run run_id (λ r. record r { status = status; error = or_kept error r.error }) s.runs;
  },
)

-- `_validate_status` first.
unfoldable pub set_status : String → String → Option String → Store → Option Raised × Store
unfolding get_run set_found
set_status run_id status error s =
    if contains valid status
    then set_found run_id status error s (get_run run_id s.runs)
    else (some invalid_status, s)

unfoldable pub create_execution : String → String → Store → Store
create_execution run_id spec_path s = record s {
  executions =
      s.executions
      ++ record {
        run_id = run_id;
        spec_path = spec_path;
        status = "queued";
        exit_code = none;
        output = none;
      }
        ∷ [];
}

finish_found :
    String → String → Option ℤ → Option String → Store → Option Execution → Option Raised × Store
unfolding change_execution
finish_found run_id status exit_code output s none = (some run_not_found, s)
finish_found run_id status exit_code output s (some e) = (
  none,
  record s {
    executions =
        change_execution run_id
          (λ e. record e { status = status; exit_code = exit_code; output = output }) s.executions;
  },
)

unfoldable pub finish_execution :
    String → String → Option ℤ → Option String → Store → Option Raised × Store
unfolding get_execution_by_run_id finish_found
finish_execution run_id status exit_code output s =
    if contains valid status
    then finish_found run_id status exit_code output s (get_execution_by_run_id run_id s.executions)
    else (some invalid_status, s)

pub record RunStatus : Type 0 where
  pub run_id : String
  pub kind : String
  pub status : String
  pub error : Option String

abbrev run_view : Option Run → Option RunStatus
run_view none = none
run_view (some r) =
    some record { run_id = r.run_id; kind = r.kind; status = r.status; error = r.error }

abbrev status_view : Store → String → Option Execution → Option RunStatus
unfolding get_run
status_view s run_id (some e) =
    some record { run_id = e.run_id; kind = "execute"; status = e.status; error = none }
status_view s run_id none = run_view (get_run run_id s.runs)

-- `none` for the RunNotFoundError.
unfoldable pub get_status_by_run_id : Store → String → Option RunStatus
unfolding get_execution_by_run_id status_view
get_status_by_run_id s run_id = status_view s run_id (get_execution_by_run_id run_id s.executions)
