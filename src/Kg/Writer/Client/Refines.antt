-- ===== src/Kg/Writer/Client/Refines.antt =====
-- The writer's graph against the two partial maps of its client.
use mathlib.Core.Path.{fun_ext}
use febal_automation_script.Prelude.{◌≡◌, refl, ◌∙◌, ap, List, [], ◌∷◌, Option, none, some}
use febal_automation_script.Kg.Writer.{
  NodeRef, EdgeRef, Assignment, Properties, Graph, Upsert, same, same_edge, find, assign_all,
  run_upsert, run_link, link_between, created, matched, write,
}
use febal_automation_script.Kg.Writer.Calls.{
  upsert_page, upsert_element, append_element_history, upsert_button, upsert_form, upsert_workflow,
  upsert_business_entity, link_navigates_to, link_has_element, link_has_button, link_has_form,
  link_submits, state_change, link_creates, link_updates, link_deletes, link_step,
}
use febal_automation_script.Kg.Writer.Reads.{same_iff, same_edge_iff, find-merge, find-set_matched}
use febal_automation_script.Kg.Writer.Client.{
  View, Call, page_seen, element_seen, element_healed, button_seen, form_seen, workflow_seen,
  entity_seen, navigates_to, has_element, has_button, has_form, submits, creates, updates, deletes,
  step, apply, run_calls, upsert, link, query, view, joined, learn, replay,
}

View-ext :
    (v w : View)
    → ((r : NodeRef) → v.knows r ≡ w.knows r)
    → ((e : EdgeRef) → v.joins e ≡ w.joins e)
    → v ≡ w
View-ext v w h k = λ i. record { knows = fun_ext h i; joins = fun_ext k i }

view-upsert : (u : Upsert) (g : Graph) → view (run_upsert u g).0 ≡ learn (upsert u) (view g)
unfolding view run_upsert learn
view-upsert u g =
    View-ext _ _ (λ r. find-merge same same_iff u.target r (created u) (matched u) g.nodes)
      (λ e. refl)

-- An edge query, once what it matches is known.
view-link_between :
    (e : EdgeRef) (sets : List Assignment) (g : Graph) (p q : Option Properties)
    → view (link_between e sets g p q).0 ≡ joined e sets (view g) p q
unfolding view link_between joined
view-link_between e sets g (some p) (some q) =
    View-ext _ _ (λ r. refl)
      (λ d. find-merge same_edge same_edge_iff e d (assign_all sets) (assign_all sets) g.edges)
view-link_between e sets g none q = refl
view-link_between e sets g (some p) none = refl

view-link :
    (e : EdgeRef) (sets : List Assignment) (g : Graph)
    → view (run_link e sets g).0 ≡ learn (link e sets) (view g)
unfolding view run_link learn
view-link e sets g =
    view-link_between e sets g (find same e.source g.nodes) (find same e.target g.nodes)

pub view-apply : (c : Call) (g : Graph) → view (apply c g).0 ≡ learn (query c) (view g)
unfolding apply query write upsert_page upsert_element append_element_history upsert_button
    upsert_form upsert_workflow upsert_business_entity link_navigates_to link_has_element
    link_has_button link_has_form link_submits state_change link_creates link_updates link_deletes
    link_step
view-apply (page_seen fp url title run shot now) g = view-upsert _ g
view-apply (element_seen k role label chain history run now) g = view-upsert _ g
view-apply (element_healed k history chain now) g =
    unfold view learn in
    View-ext _ _ (λ r. find-set_matched same same_iff _ r _ g.nodes) (λ e. refl)
view-apply (button_seen k label role fp run now) g = view-upsert _ g
view-apply (form_seen k rules run now) g = view-upsert _ g
view-apply (workflow_seen name run now) g = view-upsert _ g
view-apply (entity_seen name kind now) g = view-upsert _ g
view-apply (navigates_to a b via run) g = view-link _ _ g
view-apply (has_element p k run) g = view-link _ _ g
view-apply (has_button p k run) g = view-link _ _ g
view-apply (has_form p k run) g = view-link _ _ g
view-apply (submits p k run) g = view-link _ _ g
view-apply (creates k name run) g = view-link _ _ g
view-apply (updates k name run) g = view-link _ _ g
view-apply (deletes k name run) g = view-link _ _ g
view-apply (step flow order p run) g = unfold learn in refl

-- However its functions are called, the graph reads as the two maps on which the same queries are
-- run: nodes by their MERGE keys, edges by their ends, their type and their order.
pub run_calls-refines : (cs : List Call) (g : Graph) → view (run_calls cs g) ≡ replay cs (view g)
unfolding run_calls replay
run_calls-refines [] g = refl
run_calls-refines (c ∷ cs) g = run_calls-refines cs (apply c g).0 ∙ ap (replay cs) (view-apply c g)
