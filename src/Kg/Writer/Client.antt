-- ===== src/Kg/Writer/Client.antt =====
-- Any sequence of calls of apps/api/app/services/kg/writer.py, and the two partial maps that a
-- client may take the graph for.
pub mod Refines
pub mod Freshness
pub mod Errors
pub mod Sound
use febal_automation_script.Prelude.{ℕ, String, List, [], ◌∷◌, Option, none, some, if◌then◌else◌}
use febal_automation_script.Kg.Writer.{
  NodeRef, EdgeRef, Assignment, Properties, Upsert, Graph, Outcome, same, same_edge, find,
  assign_all, created, matched, element, page, button, form, business_entity, workflow,
}
use febal_automation_script.Kg.Writer.Calls.{
  upsert_page, upsert_element, append_element_history, upsert_button, upsert_form, upsert_workflow,
  upsert_business_entity, link_navigates_to, link_has_element, link_has_button, link_has_form,
  link_submits, link_creates, link_updates, link_deletes, link_step, page_query, element_query,
  button_query, form_query, workflow_query, entity_query, healed, edge, of_run,
}
use febal_automation_script.Kg.Writer.Reads.{merged, on_some}

-- A call, its arguments in the order of the function's.
pub data Call : Type 0 where
  page_seen : String → String → String → String → Option String → String → Call
  element_seen : String → String → String → String → String → String → String → Call
  element_healed : String → String → String → String → Call
  button_seen : String → String → String → String → String → String → Call
  form_seen : String → String → String → String → Call
  workflow_seen : String → String → String → Call
  entity_seen : String → String → String → Call
  navigates_to : String → String → String → String → Call
  has_element : String → String → String → Call
  has_button : String → String → String → Call
  has_form : String → String → String → Call
  submits : String → String → String → Call
  creates : String → String → String → Call
  updates : String → String → String → Call
  deletes : String → String → String → Call
  step : String → ℕ → String → String → Call

unfoldable pub apply : Call → Graph → Graph × Outcome
unfolding upsert_page upsert_element append_element_history upsert_button upsert_form
    upsert_workflow upsert_business_entity link_navigates_to link_has_element link_has_button
    link_has_form link_submits link_creates link_updates link_deletes link_step
apply (page_seen fp url title run shot now) = upsert_page fp url title run shot now
apply (element_seen k role label chain history run now) =
    upsert_element k role label chain history run now
apply (element_healed k history chain now) = append_element_history k history chain now
apply (button_seen k label role fp run now) = upsert_button k label role fp run now
apply (form_seen k rules run now) = upsert_form k rules run now
apply (workflow_seen name run now) = upsert_workflow name run now
apply (entity_seen name kind now) = upsert_business_entity name kind now
apply (navigates_to a b via run) = link_navigates_to a b via run
apply (has_element p k run) = link_has_element p k run
apply (has_button p k run) = link_has_button p k run
apply (has_form p k run) = link_has_form p k run
apply (submits p k run) = link_submits p k run
apply (creates k name run) = link_creates k name run
apply (updates k name run) = link_updates k name run
apply (deletes k name run) = link_deletes k name run
apply (step flow order p run) = link_step flow order p run

-- A caller that goes on after an error: the graph is what was committed.
unfoldable pub run_calls : List Call → Graph → Graph
unfolding apply
run_calls [] g = g
run_calls (c ∷ cs) g = run_calls cs (apply c g).0

-- What a call asks of the graph.
pub data Query : Type 0 where
  upsert : Upsert → Query
  amend : NodeRef → List Assignment → Query
  link : EdgeRef → List Assignment → Query
  syntax_error : Query

unfoldable pub query : Call → Query
query (page_seen fp url title run shot now) = upsert (page_query fp url title run shot now)
query (element_seen k role label chain history run now) =
    upsert (element_query k role label chain history run now)
query (element_healed k history chain now) = amend (element k) (healed history chain now)
query (button_seen k label role fp run now) = upsert (button_query k label role fp run now)
query (form_seen k rules run now) = upsert (form_query k rules run now)
query (workflow_seen name run now) = upsert (workflow_query name run now)
query (entity_seen name kind now) = upsert (entity_query name kind now)
query (navigates_to a b via run) =
    link (edge (page a) "NavigatesTo" (page b)) (("via", some via) ∷ of_run run)
query (has_element p k run) = link (edge (page p) "HAS_ELEMENT" (element k)) (of_run run)
query (has_button p k run) = link (edge (page p) "HAS_BUTTON" (button k)) (of_run run)
query (has_form p k run) = link (edge (page p) "HAS_FORM" (form k)) (of_run run)
query (submits p k run) = link (edge (page p) "Submits" (form k)) (of_run run)
query (creates k name run) = link (edge (form k) "Creates" (business_entity name)) (of_run run)
query (updates k name run) = link (edge (form k) "Updates" (business_entity name)) (of_run run)
query (deletes k name run) = link (edge (form k) "Deletes" (business_entity name)) (of_run run)
query (step flow order p run) = syntax_error

-- What is known of each node and of each edge.
pub record View : Type 0 where
  pub knows : NodeRef → Option Properties
  pub joins : EdgeRef → Option Properties

unfoldable pub view : Graph → View
unfolding find same same_edge
view g = record { knows = λ r. find same r g.nodes; joins = λ e. find same_edge e g.edges }

unfoldable pub joined :
    EdgeRef → List Assignment → View → Option Properties → Option Properties → View
unfolding same_edge assign_all
joined e sets v (some p) (some q) = record v {
  joins = λ d.
      if same_edge e d
      then some (merged (assign_all sets) (assign_all sets) (v.joins e))
      else v.joins d;
}
joined e sets v none _ = v
joined e sets v (some p) none = v

-- The specification: the same query on the two maps.
unfoldable pub learn : Query → View → View
unfolding same created matched assign_all joined
learn (upsert u) v = record v {
  knows = λ r.
      if same u.target r
      then some (merged (created u) (matched u) (v.knows u.target))
      else v.knows r;
}
learn (amend q sets) v = record v {
  knows = λ r. if same q r then on_some (assign_all sets) (v.knows r) else v.knows r;
}
learn (link e sets) v = joined e sets v (v.knows e.source) (v.knows e.target)
learn syntax_error v = v

unfoldable pub replay : List Call → View → View
unfolding learn query
replay [] v = v
replay (c ∷ cs) v = replay cs (learn (query c) v)
