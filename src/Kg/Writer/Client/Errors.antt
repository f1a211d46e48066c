-- ===== src/Kg/Writer/Client/Errors.antt =====
-- The read-back guard of apps/api/app/services/kg/writer.py: which calls raise, and what they leave.
use febal_automation_script.Prelude.{
  Bool, true, false, not, ◌&&◌, ◌≡◌, refl, ◌∙◌, ap, List, [], ◌∷◌, Option, none, some, Option-cases,
  inl, inr, arith, sym,
}
use febal_automation_script.Kg.Writer.{
  NodeRef, EdgeRef, page, element, button, form, business_entity, Graph, Properties, Assignment,
  Upsert, Outcome, raised, returned, same, find, set_matched, merge, run_upsert, run_link,
  link_between, created, matched, row_of, counted, write, with_nodes, assign_all,
}
use febal_automation_script.Kg.Writer.Calls.{
  upsert_page, upsert_element, append_element_history, upsert_button, upsert_form, upsert_workflow,
  upsert_business_entity, link_navigates_to, link_has_element, link_has_button, link_has_form,
  link_submits, state_change, link_creates, link_updates, link_deletes, link_step, of_run, healed,
  page_query, element_query, button_query, form_query, workflow_query, entity_query,
}
use febal_automation_script.Kg.Writer.Reads.{
  same_iff, find-merge, find-set_matched, merged, on_some,
}
use febal_automation_script.Kg.Writer.Client.{
  Call, page_seen, element_seen, element_healed, button_seen, form_seen, workflow_seen, entity_seen,
  navigates_to, has_element, has_button, has_form, submits, creates, updates, deletes, step, apply,
}

unfoldable pub is_raised : Outcome → Bool
is_raised raised = true
is_raised (returned row) = false

abbrev pub is_some : Option Properties → Bool
is_some none = false
is_some (some p) = true

-- Is the node in the graph?
unfoldable pub is_known : Graph → NodeRef → Bool
unfolding find same
is_known g r = is_some (find same r g.nodes)

-- The nodes that a call takes for granted.
unfoldable pub needs : Call → List NodeRef
needs (element_healed k history chain now) = element k ∷ []
needs (navigates_to a b via run) = page a ∷ page b ∷ []
needs (has_element p k run) = page p ∷ element k ∷ []
needs (has_button p k run) = page p ∷ button k ∷ []
needs (has_form p k run) = page p ∷ form k ∷ []
needs (submits p k run) = page p ∷ form k ∷ []
needs (creates k name run) = form k ∷ business_entity name ∷ []
needs (updates k name run) = form k ∷ business_entity name ∷ []
needs (deletes k name run) = form k ∷ business_entity name ∷ []
needs c = []

unfoldable pub all_known : Graph → List NodeRef → Bool
unfolding is_known
all_known g [] = true
all_known g (r ∷ l) = is_known g r && all_known g l

write-row_of :
    (g : Graph) (o : Option Properties) → is_raised (write (g, row_of o)).1 ≡ not (is_some o)
unfolding is_raised write row_of
write-row_of g none = refl
write-row_of g (some p) = refl

write-counted :
    (g : Graph) (o : Option Properties)
    → is_raised (write (counted (g, row_of o))).1 ≡ not (is_some o)
unfolding is_raised write row_of
write-counted g none = refl
write-counted g (some p) = refl

find-upserted :
    (u : Upsert) (g : Graph)
    → find same u.target (merge same u.target (created u) (matched u) g.nodes)
      ≡ some (merged (created u) (matched u) (find same u.target g.nodes))
find-upserted u g =
    find-merge same same_iff u.target u.target (created u) (matched u) g.nodes
    ∙ rw ((same_iff u.target u.target).1 refl) refl

write-run_upsert : (u : Upsert) (g : Graph) → is_raised (write (run_upsert u g)).1 ≡ false
unfolding run_upsert
write-run_upsert u g = rw write-row_of (rw find-upserted refl)

write-counted_upsert :
    (u : Upsert) (g : Graph) → is_raised (write (counted (run_upsert u g))).1 ≡ false
unfolding run_upsert
write-counted_upsert u g = write-counted _ _ ∙ rw find-upserted refl

write-link_between :
    (e : EdgeRef) (sets : List Assignment) (g : Graph) (p q : Option Properties)
    → is_raised (write (link_between e sets g p q)).1 ≡ not (is_some p && is_some q)
unfolding link_between write is_raised row_of
write-link_between e sets g none q = refl
write-link_between e sets g (some p) none = refl
write-link_between e sets g (some p) (some q) = refl

both : (a b : Bool) → not (a && b) ≡ not (a && (b && true))
both a b = ground arith

write-run_link :
    (e : EdgeRef) (sets : List Assignment) (g : Graph)
    → is_raised (write (run_link e sets g)).1 ≡ not (all_known g (e.source ∷ e.target ∷ []))
unfolding run_link all_known is_known
write-run_link e sets g =
    write-link_between e sets g (find same e.source g.nodes) (find same e.target g.nodes)
    ∙ both (is_some (find same e.source g.nodes)) (is_some (find same e.target g.nodes))

-- Is the query of a call one that Cypher accepts?
unfoldable pub is_accepted : Call → Bool
is_accepted (step flow order p run) = false
is_accepted c = true

-- Every step raises; any other call raises exactly when a node that it takes for granted is not in the
-- graph, and an upsert never does.
pub apply-raises :
    (c : Call) (g : Graph) → is_raised (apply c g).1 ≡ not (is_accepted c && all_known g (needs c))
unfolding all_known is_known is_raised is_accepted apply needs upsert_page upsert_element
    append_element_history upsert_button upsert_form upsert_workflow upsert_business_entity
    link_navigates_to link_has_element link_has_button link_has_form link_submits state_change
    link_creates link_updates link_deletes link_step
apply-raises (page_seen fp url title run shot now) g =
    write-run_upsert (page_query fp url title run shot now) g
apply-raises (element_seen k role label chain history run now) g =
    write-counted_upsert (element_query k role label chain history run now) g
apply-raises (button_seen k label role fp run now) g =
    write-counted_upsert (button_query k label role fp run now) g
apply-raises (form_seen k rules run now) g = write-counted_upsert (form_query k rules run now) g
apply-raises (workflow_seen name run now) g = write-counted_upsert (workflow_query name run now) g
apply-raises (entity_seen name kind now) g = write-counted_upsert (entity_query name kind now) g
apply-raises (element_healed k history chain now) g =
    write-counted
      (with_nodes g (set_matched same (element k) (assign_all (healed history chain now)) g.nodes))
      _
    ∙ (rw (find-set_matched same same_iff)
        (rw ((same_iff (element k) (element k)).1 refl) (amended (find same (element k) g.nodes))))
  where
    amended :
        (o : Option Properties)
        → not (is_some (on_some (assign_all (healed history chain now)) o))
          ≡ not (is_some o && true)
    amended none = refl
    amended (some p) = refl
apply-raises (navigates_to a b via run) g = write-run_link _ (("via", some via) ∷ of_run run) g
apply-raises (has_element p k run) g = write-run_link _ (of_run run) g
apply-raises (has_button p k run) g = write-run_link _ (of_run run) g
apply-raises (has_form p k run) g = write-run_link _ (of_run run) g
apply-raises (submits p k run) g = write-run_link _ (of_run run) g
apply-raises (creates p k run) g = write-run_link _ (of_run run) g
apply-raises (updates p k run) g = write-run_link _ (of_run run) g
apply-raises (deletes p k run) g = write-run_link _ (of_run run) g
apply-raises (step flow order p run) g = refl

set_matched-none :
    (r : NodeRef) (f : Properties → Properties) (l : List (NodeRef × Properties))
    → find same r l ≡ none
    → set_matched same r f l ≡ l
unfolding find set_matched
set_matched-none r f [] h = refl
set_matched-none r f ((q, p) ∷ l) h = ground (arith, set_matched-none r f l)

run_link-refused :
    (e : EdgeRef) (sets : List Assignment) (g : Graph) (p q : Option Properties)
    → not (is_some p && is_some q) ≡ true
    → (link_between e sets g p q).0 ≡ g
unfolding link_between
run_link-refused e sets g none q h = refl
run_link-refused e sets g (some p) none h = refl
run_link-refused e sets g (some p) (some q) h = absurd cc

link-refused :
    (e : EdgeRef) (sets : List Assignment) (g : Graph)
    → is_raised (write (run_link e sets g)).1 ≡ true
    → (run_link e sets g).0 ≡ g
unfolding run_link
link-refused e sets g h = run_link-refused e sets g _ _ (
    sym (write-link_between e sets g (find same e.source g.nodes) (find same e.target g.nodes)) ∙ h)

not_known : (b : Bool) → not (b && true) ≡ true → b ≡ false
not_known b h = ground arith

heal-refused :
    (r : NodeRef) (f : Properties → Properties) (g : Graph)
    → is_known g r ≡ false
    → set_matched same r f g.nodes ≡ g.nodes
unfolding is_known
heal-refused r f g h = elim (Option-cases (find same r g.nodes)) [
  | inl e ↦ set_matched-none r f g.nodes e
  | inr (p, e) ↦ absurd (known p e)
]
  where
    known : (p : Properties) → find same r g.nodes ≡ some p → ⊥
    known p e = cc (ap is_some e)

-- A call that raises has written nothing.
pub apply-refused : (c : Call) (g : Graph) → is_raised (apply c g).1 ≡ true → (apply c g).0 ≡ g
unfolding all_known needs is_accepted apply write upsert_page upsert_element append_element_history
    upsert_button upsert_form upsert_workflow upsert_business_entity link_navigates_to
    link_has_element link_has_button link_has_form link_submits state_change link_creates
    link_updates link_deletes link_step
apply-refused (page_seen fp url title run shot now) g h =
    absurd (cc (write-run_upsert (page_query fp url title run shot now) g))
apply-refused (element_seen k role label chain history run now) g h =
    absurd (cc (write-counted_upsert (element_query k role label chain history run now) g))
apply-refused (button_seen k label role fp run now) g h =
    absurd (cc (write-counted_upsert (button_query k label role fp run now) g))
apply-refused (form_seen k rules run now) g h =
    absurd (cc (write-counted_upsert (form_query k rules run now) g))
apply-refused (workflow_seen name run now) g h =
    absurd (cc (write-counted_upsert (workflow_query name run now) g))
apply-refused (entity_seen name kind now) g h =
    absurd (cc (write-counted_upsert (entity_query name kind now) g))
apply-refused (element_healed k history chain now) g h = ap (with_nodes g) (
    heal-refused (element k) _ g
      (not_known _ (sym (apply-raises (element_healed k history chain now) g) ∙ h)))
apply-refused (navigates_to a b via run) g h = link-refused _ (("via", some via) ∷ of_run run) g h
apply-refused (has_element p k run) g h = link-refused _ (of_run run) g h
apply-refused (has_button p k run) g h = link-refused _ (of_run run) g h
apply-refused (has_form p k run) g h = link-refused _ (of_run run) g h
apply-refused (submits p k run) g h = link-refused _ (of_run run) g h
apply-refused (creates p k run) g h = link-refused _ (of_run run) g h
apply-refused (updates p k run) g h = link-refused _ (of_run run) g h
apply-refused (deletes p k run) g h = link-refused _ (of_run run) g h
apply-refused (step flow order p run) g h = refl
