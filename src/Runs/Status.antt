-- ===== src/Runs/Status.antt =====
-- The statuses that apps/api/app/services/run_service.py stores, and what a poll reads.
use febal_automation_script.Prelude.{
  ℕ, String, str_eq, eq_iff, Bool, true, false, ◌≡◌, refl, List, [], ◌∷◌, Option, none, some,
  contains, All, All-append, WhenSome, if◌then◌else◌, Bool-cases, inl, inr,
}
use febal_automation_script.Prelude.Int.{ℤ}
use febal_automation_script.Runs.{
  valid, Run, Execution, Store, Raised, invalid_status, get_run, get_execution_by_run_id,
  change_run, change_execution, create_run, set_found, set_status, create_execution, finish_found,
  finish_execution, RunStatus, get_status_by_run_id, status_view, run_view,
}

pub data Operation : Type 0 where
  new_run : String → String → Option ℕ → Operation
  status : String → String → Option String → Operation
  new_execution : String → String → Operation
  finish : String → String → Option ℤ → Option String → Operation

unfoldable pub perform : Operation → Store → Store
unfolding create_run set_status create_execution finish_execution
perform (new_run run_id kind target_id) s = create_run run_id kind target_id s
perform (status run_id st error) s = (set_status run_id st error s).1
perform (new_execution run_id spec_path) s = create_execution run_id spec_path s
perform (finish run_id st exit_code output) s = (finish_execution run_id st exit_code output s).1

unfoldable pub perform_all : List Operation → Store → Store
unfolding perform
perform_all [] s = s
perform_all (o ∷ os) s = perform_all os (perform o s)

-- Every stored status is one of the four.
pub record IsValid (s : Store) : Type 0 where
  pub runs : All (λ r. contains valid r.status ≡ true) s.runs
  pub executions : All (λ e. contains valid e.status ≡ true) s.executions

change_run-All :
    (P : Run → Type 0) (run_id : String) (f : Run → Run) (l : List Run)
    → ((r : Run) → P (f r))
    → All P l
    → All P (change_run run_id f l)
unfolding change_run
change_run-All P run_id f [] h k = tt
change_run-All P run_id f (r ∷ l) h k = elim (Bool-cases (str_eq r.run_id run_id)) [
  | inl e ↦ rw e (h r, k.1)
  | inr e ↦ rw e (k.0, change_run-All P run_id f l h k.1)
]

change_execution-All :
    (P : Execution → Type 0) (run_id : String) (f : Execution → Execution) (l : List Execution)
    → ((e : Execution) → P (f e))
    → All P l
    → All P (change_execution run_id f l)
unfolding change_execution
change_execution-All P run_id f [] h k = tt
change_execution-All P run_id f (r ∷ l) h k = elim (Bool-cases (str_eq r.run_id run_id)) [
  | inl e ↦ rw e (h r, k.1)
  | inr e ↦ rw e (k.0, change_execution-All P run_id f l h k.1)
]

set_found-IsValid :
    (run_id st : String) (error : Option String) (s : Store) (o : Option Run)
    → contains valid st ≡ true
    → IsValid s
    → IsValid (set_found run_id st error s o).1
unfolding set_found
set_found-IsValid run_id st error s none v h = h
set_found-IsValid run_id st error s (some r) v h = record {
  runs = change_run-All (λ r. contains valid r.status ≡ true) run_id _ s.runs (λ r. v) h.runs;
  executions = h.executions;
}

finish_found-IsValid :
    (run_id st : String) (exit_code : Option ℤ) (output : Option String) (s : Store)
    (o : Option Execution)
    → contains valid st ≡ true
    → IsValid s
    → IsValid (finish_found run_id st exit_code output s o).1
unfolding finish_found
finish_found-IsValid run_id st exit_code output s none v h = h
finish_found-IsValid run_id st exit_code output s (some r) v h = record {
  runs = h.runs;
  executions =
      change_execution-All (λ r. contains valid r.status ≡ true) run_id _ s.executions (λ r. v)
        h.executions;
}

either-IsValid :
    (b : Bool) (x y : Option Raised × Store)
    → (b ≡ true → IsValid x.1)
    → IsValid y.1
    → IsValid (if b then x else y).1
either-IsValid true x y h k = h refl
either-IsValid false x y h k = k

perform-IsValid : (o : Operation) (s : Store) → IsValid s → IsValid (perform o s)
unfolding perform create_run set_status create_execution finish_execution
perform-IsValid (new_run run_id kind target_id) s h = record {
  runs = All-append (λ r. contains valid r.status ≡ true) s.runs _ h.runs (refl, tt);
  executions = h.executions;
}
perform-IsValid (status run_id st error) s h =
    either-IsValid (contains valid st) (set_found run_id st error s (get_run run_id s.runs))
      (some invalid_status, s)
      (λ v. set_found-IsValid run_id st error s (get_run run_id s.runs) v h) h
perform-IsValid (new_execution run_id spec_path) s h = record {
  runs = h.runs;
  executions =
      All-append (λ r. contains valid r.status ≡ true) s.executions _ h.executions (refl, tt);
}
perform-IsValid (finish run_id st exit_code output) s h =
    let o = get_execution_by_run_id run_id s.executions in
    either-IsValid (contains valid st) (finish_found run_id st exit_code output s o)
      (some invalid_status, s) (λ v. finish_found-IsValid run_id st exit_code output s o v h) h

found-valid :
    (run_id : String) (l : List Execution)
    → All (λ e. contains valid e.status ≡ true) l
    → WhenSome (λ e. contains valid e.status ≡ true) (get_execution_by_run_id run_id l)
unfolding get_execution_by_run_id
found-valid run_id [] h = tt
found-valid run_id (e ∷ l) h = elim (Bool-cases (str_eq e.run_id run_id)) [
  | inl k ↦ rw k h.0
  | inr k ↦ rw k (found-valid run_id l h.1)
]

run-valid :
    (run_id : String) (l : List Run)
    → All (λ e. contains valid e.status ≡ true) l
    → WhenSome (λ e. contains valid e.status ≡ true) (get_run run_id l)
unfolding get_run
run-valid run_id [] h = tt
run-valid run_id (e ∷ l) h = elim (Bool-cases (str_eq e.run_id run_id)) [
  | inl k ↦ rw k h.0
  | inr k ↦ rw k (run-valid run_id l h.1)
]

perform_all-IsValid : (os : List Operation) (s : Store) → IsValid s → IsValid (perform_all os s)
unfolding perform_all
perform_all-IsValid [] s h = h
perform_all-IsValid (o ∷ os) s h = perform_all-IsValid os (perform o s) (perform-IsValid o s h)

viewed-valid :
    (s : Store) (run_id : String) (o : Option Execution)
    → IsValid s
    → WhenSome (λ e. contains valid e.status ≡ true) o
    → WhenSome (λ v. contains valid v.status ≡ true) (status_view s run_id o)
unfolding status_view get_run
viewed-valid s run_id (some e) h k = k
viewed-valid s run_id none h k = of_run (get_run run_id s.runs) (run-valid run_id s.runs h.runs)
  where
    of_run :
        (o : Option Run)
        → WhenSome (λ e. contains valid e.status ≡ true) o
        → WhenSome (λ v. contains valid v.status ≡ true) (run_view o)
    of_run none k = tt
    of_run (some r) k = k

-- After any calls, those that raise included, a poll of any run reads one of the four statuses or
-- that the run is not known.
pub get_status_by_run_id-valid :
    (os : List Operation) (s : Store) (run_id : String)
    → IsValid s
    → WhenSome
        (λ v. contains valid v.status ≡ true)
        (get_status_by_run_id (perform_all os s) run_id)
unfolding get_status_by_run_id
get_status_by_run_id-valid os s run_id h =
    let v = perform_all-IsValid os s h in
    viewed-valid (perform_all os s) run_id
      (get_execution_by_run_id run_id (perform_all os s).executions) v
      (found-valid run_id (perform_all os s).executions v.executions)

abbrev on_found : (Execution → Execution) → Option Execution → Option Execution
on_found f none = none
on_found f (some e) = some (f e)

get_execution-change :
    (run_id : String) (f : Execution → Execution) (l : List Execution)
    → ((e : Execution) → (f e).run_id ≡ e.run_id)
    → get_execution_by_run_id run_id (change_execution run_id f l)
      ≡ on_found f (get_execution_by_run_id run_id l)
unfolding get_execution_by_run_id change_execution
get_execution-change run_id f [] h = refl
get_execution-change run_id f (e ∷ l) h = elim (Bool-cases (str_eq e.run_id run_id)) [
  | inl k ↦ rw k (rw h (rw k refl))
  | inr k ↦ rw k (rw k (get_execution-change run_id f l h))
]

get_execution-run_id :
    (run_id : String) (l : List Execution)
    → WhenSome (λ e. e.run_id ≡ run_id) (get_execution_by_run_id run_id l)
unfolding get_execution_by_run_id
get_execution-run_id run_id [] = tt
get_execution-run_id run_id (e ∷ l) = elim (Bool-cases (str_eq e.run_id run_id)) [
  | inl k ↦ rw k ((eq_iff e.run_id run_id).0 k)
  | inr k ↦ rw k (get_execution-run_id run_id l)
]

-- What a poll reads when an execution has been finished.
abbrev pub finished : String → String → RunStatus
finished run_id st = record { run_id = run_id; kind = "execute"; status = st; error = none }

finish_found-polled :
    (run_id st : String) (exit_code : Option ℤ) (output : Option String) (s : Store)
    (o : Option Execution)
    → get_execution_by_run_id run_id s.executions ≡ o
    → WhenSome (λ e. e.run_id ≡ run_id) o
    → (finish_found run_id st exit_code output s o).0 ≡ none
    → get_status_by_run_id (finish_found run_id st exit_code output s o).1 run_id
      ≡ some (finished run_id st)
unfolding finish_found get_status_by_run_id status_view
finish_found-polled run_id st exit_code output s none e k h = absurd cc
finish_found-polled run_id st exit_code output s (some x) e k h =
    rw
      (get_execution-change run_id
        (λ x. record x { status = st; exit_code = exit_code; output = output }) s.executions
        (λ x. refl))
      (rw e (rw k refl))

either-polled :
    (b : Bool) (x : Option Raised × Store) (s : Store) (v : RunStatus) (run_id : String)
    → (x.0 ≡ none → get_status_by_run_id x.1 run_id ≡ some v)
    → (if b then x else (some invalid_status, s)).0 ≡ none
    → get_status_by_run_id (if b then x else (some invalid_status, s)).1 run_id ≡ some v
either-polled true x s v run_id h k = h k
either-polled false x s v run_id h k = absurd cc

-- When an execution is finished without an error, a poll of the run reads the status it was finished
-- with, from the execution and not from the run.
pub finish_execution-polled :
    (run_id st : String) (exit_code : Option ℤ) (output : Option String) (s : Store)
    → (finish_execution run_id st exit_code output s).0 ≡ none
    → get_status_by_run_id (finish_execution run_id st exit_code output s).1 run_id
      ≡ some (finished run_id st)
unfolding finish_execution
finish_execution-polled run_id st exit_code output s h =
    either-polled (contains valid st) (finish_found run_id st exit_code output s o) s
      (finished run_id st) run_id
      (finish_found-polled run_id st exit_code output s o refl
        (get_execution-run_id run_id s.executions))
      h
  where
    o : Option Execution
    o = get_execution_by_run_id run_id s.executions
