-- ===== src/Scenarios/Routes.antt =====
-- The routes of the review queue that write: apps/api/app/routers/scenarios.py, over the table of
-- scenario_service.py and the gates. The risk of a flow that an answer also shows is left out.
pub mod Vetted
pub mod Shown
pub mod Answers
mod Tests
use febal_automation_script.Prelude.{
  ℕ, String, str_eq, Bool, true, false, ◌&&◌, ◌||◌, List, [], ◌∷◌, map, Option, none, some, any,
  contains, if◌then◌else◌,
}
use febal_automation_script.Prelude.Strings.{append}
use febal_automation_script.Kg.Writer.{Graph}
use febal_automation_script.Gates.{
  ThenRef, query_of, resolve_then_refs, assert_non_vacuous, is_given,
}
use febal_automation_script.Scenarios.{Raised, Scenario, Table, get, set_status, update_gherkin}

pub record ThenRefResult : Type 0 where
  pub then_text : String
  pub resolved : Bool
  pub kg_ref : Option String
  pub reason : Option String

-- A missing value in an f-string.
abbrev text_or_none : Option String → String
text_or_none none = "None"
text_or_none (some s) = s

-- `a or b`
abbrev given_or : Option String → Option String → Option String
given_or a b = if is_given a then a else b

label_for : ThenRef → String → Option String
label_for e kind =
    if str_eq kind "edge"
    then some (append (text_or_none e.edge_type) (append " → " (text_or_none e.entity)))
    else if str_eq kind "element"
    then some (append "element: " (text_or_none e.element_key))
    else if str_eq kind "page"
    then some (append "page: " (text_or_none (given_or e.page_fingerprint e.page_url)))
    else none

unfoldable pub kg_ref_label : ThenRef → Option String → Option String
unfolding label_for
kg_ref_label e none = none
kg_ref_label e (some kind) = label_for e kind

reason_for : ThenRef → String → String
reason_for e kind =
    if str_eq kind "edge"
    then (if is_given e.edge_type && is_given e.entity
        then "ref not found in graph"
        else "no graph-backed outcome")
    else if str_eq kind "element"
    then (if is_given e.element_key then "ref not found in graph" else "no graph-backed outcome")
    else if str_eq kind "page"
    then (if is_given e.page_fingerprint || is_given e.page_url
        then "ref not found in graph"
        else "no graph-backed outcome")
    else "unknown assertion kind"

unfoldable pub vacuous_reason : ThenRef → Option String → String
unfolding reason_for
vacuous_reason e none = "unknown assertion kind"
vacuous_reason e (some kind) = reason_for e kind

-- What the database of the graph gives: `none` when it cannot be reached (in time).
abbrev pub View : Type 0
View = Option Graph

abbrev pub is_asked : Option String → ThenRef → Bool
is_asked kind e = elim (query_of e kind) [ none ↦ false | some q ↦ true ]

abbrev all_texts : List ThenRef → List String
all_texts = map (λ (e : ThenRef). e.then_text)

-- `resolve_then_refs` on a view: without a graph it raises, which is `none`, at the first query.
unfoldable pub resolve_in : View → List ThenRef → Option (List String)
unfolding query_of resolve_then_refs
resolve_in (some g) refs = some (resolve_then_refs g refs).unresolved
resolve_in none refs =
    if any (λ (e : ThenRef). is_asked e.kind e) refs then none else some (all_texts refs)

unfoldable pub result_of : Option (List String) → ThenRef → ThenRefResult
unfolding kg_ref_label vacuous_reason
result_of none e = record {
  then_text = e.then_text;
  resolved = false;
  kg_ref = none;
  reason = some "knowledge graph unreachable";
}
result_of (some unresolved) e =
    if contains unresolved e.then_text
    then record {
      then_text = e.then_text;
      resolved = false;
      kg_ref = none;
      reason = some (vacuous_reason e e.kind);
    }
    else record {
      then_text = e.then_text;
      resolved = true;
      kg_ref = kg_ref_label e e.kind;
      reason = none;
    }

unfoldable pub then_results : View → List ThenRef → List ThenRefResult
unfolding resolve_in result_of
then_results view refs = map (result_of (resolve_in view refs)) refs

-- What both gates make of a text and its annotations.
pub data Verdict : Type 0 where
  passed : Verdict
  generation_error : Verdict
  driver_error : Verdict

abbrev verdict_of : Bool → Verdict
verdict_of true = passed
verdict_of false = generation_error

-- `assert_non_vacuous` on a view.
unfoldable pub assert_in : View → List ThenRef → Verdict
unfolding assert_non_vacuous query_of
assert_in (some g) refs = verdict_of (assert_non_vacuous g refs)
assert_in none refs =
    if any (λ (e : ThenRef). is_asked e.kind e) refs then driver_error else generation_error

-- The 404, the 422 of a GenerationError, the exceptions that nothing catches, and the detail of a row.
pub data Response : Type 0 where
  not_found : Response
  unprocessable : Response
  failed : Response
  detail : Scenario → List ThenRefResult → Response

-- The graph as the gate reads it, and as `_then_results` reads it afterwards.
pub record Views : Type 0 where
  pub gate : View
  pub shown : View

shown_row : View → Table → Option Scenario → Response × Table
unfolding then_results
shown_row view t none = (failed, t)
shown_row view t (some row) = (detail row (then_results view row.then_refs), t)

-- The answer after a write of `scenario_service`.
pub after_write : View → ℕ → Option Raised × Table → Response × Table
unfolding shown_row get
after_write view id (some raised, t) = (failed, t)
after_write view id (none, t) = shown_row view t (get t.rows id)

-- `parses` is the verdict of the Gherkin parser.
module _ (parses : String → Bool) where
  unfoldable pub gates : View → String → List ThenRef → Verdict
  unfolding assert_in
  gates view text refs = if parses text then assert_in view refs else generation_error

  unless_refused : Verdict → Table → Response × Table → Response × Table
  unless_refused passed t done = done
  unless_refused generation_error t done = (unprocessable, t)
  unless_refused driver_error t done = (failed, t)

  edit_found : Views → ℕ → String → List ThenRef → Table → Option Scenario → Response × Table
  unfolding unless_refused gates after_write update_gherkin
  edit_found views id text refs t none = (not_found, t)
  edit_found views id text refs t (some row) =
      unless_refused (gates views.gate text refs) t
        (after_write views.shown id (update_gherkin id text refs t))

  unfoldable pub edit_scenario : Views → ℕ → String → List ThenRef → Table → Response × Table
  unfolding edit_found get
  edit_scenario views id text refs t = edit_found views id text refs t (get t.rows id)

  approve_found : Views → ℕ → Table → Option Scenario → Response × Table
  unfolding unless_refused gates after_write set_status
  approve_found views id t none = (not_found, t)
  approve_found views id t (some row) =
      unless_refused (gates views.gate row.gherkin_text row.then_refs) t
        (after_write views.shown id (set_status id "approved" t))

  unfoldable pub approve_scenario : Views → ℕ → Table → Response × Table
  unfolding approve_found get
  approve_scenario views id t = approve_found views id t (get t.rows id)

reject_found : Views → ℕ → Table → Option Scenario → Response × Table
unfolding after_write set_status
reject_found views id t none = (not_found, t)
reject_found views id t (some row) = after_write views.shown id (set_status id "rejected" t)

unfoldable pub reject_scenario : Views → ℕ → Table → Response × Table
unfolding reject_found get
reject_scenario views id t = reject_found views id t (get t.rows id)
