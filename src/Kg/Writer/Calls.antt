-- ===== src/Kg/Writer/Calls.antt =====
-- The functions of apps/api/app/services/kg/writer.py.
use Prim.Native.String.{String}
use febal_automation_script.Prelude.{ℕ, List, [], ◌∷◌, Option, some}
use febal_automation_script.Kg.Writer.{
  Graph, Outcome, raised, Upsert, EdgeRef, NodeRef, Assignment, write, counted, run_upsert,
  run_link, row_of, page, button, form, workflow, element, business_entity, same, find, set_matched,
  assign_all, with_nodes,
}

abbrev pub page_query : String → String → String → String → Option String → String → Upsert
page_query fingerprint url title run_id shot now = record {
  target = page fingerprint;
  now = now;
  on_create = [];
  always =
      ("run_id", some run_id)
      ∷ ("url", some url)
      ∷ ("title", some title)
      ∷ ("screenshot_path", shot)
      ∷ [];
}

unfoldable pub upsert_page :
    String → String → String → String → Option String → String → Graph → Graph × Outcome
unfolding write run_upsert
upsert_page fingerprint url title run_id shot now g =
    write (run_upsert (page_query fingerprint url title run_id shot now) g)

abbrev pub element_query : String → String → String → String → String → String → String → Upsert
element_query key role label chain_json history_json run_id now = record {
  target = element key;
  now = now;
  on_create = ("role", some role) ∷ ("label", some label) ∷ [];
  always =
      ("run_id", some run_id)
      ∷ ("chain_json", some chain_json)
      ∷ ("history_json", some history_json)
      ∷ [];
}

unfoldable pub upsert_element :
    String → String → String → String → String → String → String → Graph → Graph × Outcome
unfolding write run_upsert
upsert_element key role label chain_json history_json run_id now g =
    write (counted (run_upsert (element_query key role label chain_json history_json run_id now) g))

abbrev pub healed : String → String → String → List Assignment
healed history_json chain_json now =
    ("history_json", some history_json)
    ∷ ("chain_json", some chain_json)
    ∷ ("last_verified", some now)
    ∷ []

-- MATCH, never MERGE: an unknown key is no row.
unfoldable pub append_element_history : String → String → String → String → Graph → Graph × Outcome
unfolding write find set_matched assign_all
append_element_history key history_json chain_json now g =
    let l =
      set_matched same (element key) (assign_all (healed history_json chain_json now)) g.nodes in
    write (counted (with_nodes g l, row_of (find same (element key) l)))

abbrev pub button_query : String → String → String → String → String → String → Upsert
button_query key label role page_fingerprint run_id now = record {
  target = button key;
  now = now;
  on_create = [];
  always =
      ("label", some label)
      ∷ ("role", some role)
      ∷ ("page_fingerprint", some page_fingerprint)
      ∷ ("run_id", some run_id)
      ∷ [];
}

unfoldable pub upsert_button :
    String → String → String → String → String → String → Graph → Graph × Outcome
unfolding write run_upsert
upsert_button key label role page_fingerprint run_id now g =
    write (counted (run_upsert (button_query key label role page_fingerprint run_id now) g))

abbrev pub form_query : String → String → String → String → Upsert
form_query key validation_rules run_id now = record {
  target = form key;
  now = now;
  on_create = [];
  always = ("validation_rules", some validation_rules) ∷ ("run_id", some run_id) ∷ [];
}

unfoldable pub upsert_form : String → String → String → String → Graph → Graph × Outcome
unfolding write run_upsert
upsert_form key validation_rules run_id now g =
    write (counted (run_upsert (form_query key validation_rules run_id now) g))

abbrev pub workflow_query : String → String → String → Upsert
workflow_query name run_id now = record {
  target = workflow name run_id;
  now = now;
  on_create = [];
  always = [];
}

unfoldable pub upsert_workflow : String → String → String → Graph → Graph × Outcome
unfolding write run_upsert
upsert_workflow name run_id now g = write (counted (run_upsert (workflow_query name run_id now) g))

abbrev pub entity_query : String → String → String → Upsert
entity_query name kind now = record {
  target = business_entity name;
  now = now;
  on_create = ("kind", some kind) ∷ [];
  always = ("kind", some kind) ∷ [];
}

unfoldable pub upsert_business_entity : String → String → String → Graph → Graph × Outcome
unfolding write run_upsert
upsert_business_entity name kind now g = write (counted (run_upsert (entity_query name kind now) g))

abbrev pub edge : NodeRef → String → NodeRef → EdgeRef
edge a kind b = record { source = a; kind = kind; order = 0; target = b }

abbrev pub of_run : String → List Assignment
of_run run_id = ("run_id", some run_id) ∷ []

unfoldable pub link_navigates_to : String → String → String → String → Graph → Graph × Outcome
unfolding write run_link
link_navigates_to from_fp to_fp via run_id g = write (
    run_link (edge (page from_fp) "NavigatesTo" (page to_fp)) (("via", some via) ∷ of_run run_id) g)

unfoldable pub link_has_element : String → String → String → Graph → Graph × Outcome
unfolding write run_link
link_has_element page_fp key run_id g =
    write (run_link (edge (page page_fp) "HAS_ELEMENT" (element key)) (of_run run_id) g)

unfoldable pub link_has_button : String → String → String → Graph → Graph × Outcome
unfolding write run_link
link_has_button page_fp key run_id g =
    write (run_link (edge (page page_fp) "HAS_BUTTON" (button key)) (of_run run_id) g)

unfoldable pub link_has_form : String → String → String → Graph → Graph × Outcome
unfolding write run_link
link_has_form page_fp key run_id g =
    write (run_link (edge (page page_fp) "HAS_FORM" (form key)) (of_run run_id) g)

unfoldable pub link_submits : String → String → String → Graph → Graph × Outcome
unfolding write run_link
link_submits page_fp key run_id g =
    write (run_link (edge (page page_fp) "Submits" (form key)) (of_run run_id) g)

-- `_state_change_cypher`, run by `link_creates`, `link_updates` and `link_deletes`.
unfoldable pub state_change : String → String → String → String → Graph → Graph × Outcome
unfolding write run_link
state_change edge_type form_key entity_name run_id g =
    write
      (run_link (edge (form form_key) edge_type (business_entity entity_name)) (of_run run_id) g)

unfoldable pub link_creates : String → String → String → Graph → Graph × Outcome
unfolding state_change
link_creates = state_change "Creates"

unfoldable pub link_updates : String → String → String → Graph → Graph × Outcome
unfolding state_change
link_updates = state_change "Updates"

unfoldable pub link_deletes : String → String → String → Graph → Graph × Outcome
unfolding state_change
link_deletes = state_change "Deletes"

-- The query is a MERGE with a MATCH right after it, which Cypher 5 refuses ("WITH is required between
-- MERGE and MATCH"): the driver raises, whatever the graph holds, and nothing is written.
unfoldable pub link_step : String → ℕ → String → String → Graph → Graph × Outcome
link_step flow order page_fp run_id g = (g, raised)
