-- ===== src/Execution/Store.antt =====
-- The rows and messages of the execution plane: apps/api/app/models/execution_history.py, the queue
-- exec.jobs and the kill flags in Redis.
use febal_automation_script.Prelude.{ℕ, String, Bool, Option, List, [], ◌∷◌, if◌then◌else◌}
use febal_automation_script.Worker.Job.{TestResult}

pub data RunStatus : Type 0 where
  queued running passed failed killed : RunStatus

-- `created_at` as a number that grows with time.
pub record TestRun : Type 0 where
  pub run_id : String
  pub tier : String
  pub selector : Option String
  pub status : RunStatus
  pub total : ℕ
  pub passed_count : ℕ
  pub failed_count : ℕ
  pub flaky_count : ℕ
  pub created_at : ℕ

-- The tables in the order of their ids, the bodies in the queue, head first, and the runs whose
-- kill flag is set.
pub record World : Type 0 where
  pub runs : List TestRun
  pub results : List TestResult
  pub queue : List String
  pub kill_flags : List String

-- A stable sort: `before b a` when `b` has to stand in front of an `a` that came first.
module _ {A : Type 0} (before : A → A → Bool) where
  unfoldable pub insert_sorted : A → List A → List A
  insert_sorted a [] = a ∷ []
  insert_sorted a (b ∷ l) =
      let rest = insert_sorted a l in if before b a then b ∷ rest else a ∷ b ∷ l

  unfoldable pub sort : List A → List A
  unfolding insert_sorted
  sort [] = []
  sort (a ∷ l) = insert_sorted a (sort l)
