-- ===== src/Runs/Tests.antt =====
-- A run, its execution, a status that is refused and one that is stored.
use febal_automation_script.Prelude.{◌≡◌, refl, List, [], ◌∷◌, none, some}
use febal_automation_script.Prelude.Int.{pos}
use febal_automation_script.Runs.{
  Store, invalid_status, set_status, create_run, create_execution, finish_execution,
}
use febal_automation_script.Runs.Status.{Operation, new_run, new_execution, perform_all, IsValid}

abbrev empty : Store
empty = record { runs = []; executions = [] }

abbrev started : List Operation
started = new_run "r1" "execute" (some 3) ∷ new_execution "r1" "login.py" ∷ []

refused : (set_status "r1" "done" none empty).0 ≡ some invalid_status
unfolding set_status
refused = refl

empty-IsValid : IsValid empty
empty-IsValid = record { runs = tt; executions = tt }

stored : (finish_execution "r1" "passed" (some (pos 0)) none (perform_all started empty)).0 ≡ none
unfolding finish_execution perform_all create_run create_execution
stored = refl
