-- ===== src/Gates/Written.antt =====
-- The writer of the knowledge graph and the gate: what the calls of services/kg/writer.py make of the
-- queries of services/gates/assertion_gate.py.
use febal_automation_script.Prelude.{
  String, eq_refl, Bool, true, false, not, ◌||◌, ◌≡◌, ◌↔◌, refl, ◌∙◌, sym, subst, List, [], ◌∷◌,
  Option, none, some, any, arith, WhenSome, if◌then◌else◌, Bool-cases, inl, inr,
}
use febal_automation_script.Kg.Writer.{
  NodeRef, EdgeRef, Properties, Assignment, Graph, find, same, same_edge, page, element, form,
  business_entity,
}
use febal_automation_script.Kg.Writer.Calls.{edge, of_run}
use febal_automation_script.Kg.Writer.Reads.{same_iff, same_edge_iff}
use febal_automation_script.Kg.Writer.Client.{
  Call, page_seen, element_seen, element_healed, button_seen, form_seen, workflow_seen, entity_seen,
  navigates_to, has_element, has_button, has_form, submits, creates, updates, deletes, step, apply,
  View, view, joined, learn, query, link,
}
use febal_automation_script.Kg.Writer.Client.Refines.{view-apply}
use febal_automation_script.Kg.Writer.Client.Errors.{
  is_raised, is_some, is_known, all_known, needs, is_accepted, apply-raises,
}
use febal_automation_script.Explorer.Persist.Returns.{apply-made, known-knows}
use febal_automation_script.Gates.{Query, edge_exists, element_exists, page_exists, answers}

-- The query that a call answers, if it does.
unfoldable pub vouched : Call → Option Query
vouched (page_seen fp url title run shot now) = some (page_exists (some fp) none)
vouched (has_element p k run) = some (element_exists k)
vouched (creates k name run) = some (edge_exists "Creates" name)
vouched (updates k name run) = some (edge_exists "Updates" name)
vouched (deletes k name run) = some (edge_exists "Deletes" name)
vouched c = none

module _ {R : Type 0} (eq : R → R → Bool) (iff : (a b : R) → (eq a b ≡ true) ↔ (a ≡ b)) where
  any-found :
      (f : R × Properties → Bool) (r : R) (l : List (R × Properties))
      → ((p : Properties) → f (r, p) ≡ true)
      → is_some (find eq r l) ≡ true
      → any f l ≡ true
  unfolding find
  any-found f r [] h k = k
  any-found f r ((q, p) ∷ l) h k = elim (Bool-cases (eq q r)) [
    | inl e ↦ rw (subst (λ x. f (x, p) ≡ true) (sym ((iff q r).0 e)) (h p)) refl
    | inr e ↦
        later
          (any-found f r l h (subst (λ b. is_some (if b then some p else find eq r l) ≡ true) e k))
  ]
    where
      later : any f l ≡ true → (f (q, p) || any f l) ≡ true
      later m = ground arith

joined-joins :
    (e : EdgeRef) (sets : List Assignment) (v : View) (p q : Option Properties)
    → is_some p ≡ true
    → is_some q ≡ true
    → is_some ((joined e sets v p q).joins e) ≡ true
unfolding joined
joined-joins e sets v none q h k = absurd cc
joined-joins e sets v (some p) none h k = absurd cc
joined-joins e sets v (some p) (some q) h k = rw ((same_edge_iff e e).1 refl) refl

both_known :
    (g : Graph) (a b : NodeRef)
    → false ≡ not (all_known g (a ∷ b ∷ []))
    → (is_known g a ≡ true) × (is_known g b ≡ true)
unfolding all_known
both_known g a b h = ground arith

known-joins :
    (g : Graph) (e : EdgeRef) → is_some (find same_edge e g.edges) ≡ is_some ((view g).joins e)
unfolding view
known-joins g e = refl

link-joins :
    (e : EdgeRef) (sets : List Assignment) (g : Graph)
    → is_known g e.source ≡ true
    → is_known g e.target ≡ true
    → is_some ((learn (link e sets) (view g)).joins e) ≡ true
unfolding learn
link-joins e sets g h k =
    joined-joins e sets (view g) ((view g).knows e.source) ((view g).knows e.target)
      (sym (known-knows g e.source) ∙ h) (sym (known-knows g e.target) ∙ k)

-- A link that does not raise leaves its edge.
linked :
    (c : Call) (e : EdgeRef) (sets : List Assignment) (g : Graph)
    → query c ≡ link e sets
    → needs c ≡ e.source ∷ e.target ∷ []
    → is_accepted c ≡ true
    → is_raised (apply c g).1 ≡ false
    → is_some (find same_edge e (apply c g).0.edges) ≡ true
linked c e sets g q n a h =
    known-joins (apply c g).0 e
    ∙ rw view-apply (
        rw q (learned (both_known g e.source e.target (sym h ∙ apply-raises c g ∙ rw (a, n) refl))))
  where
    learned :
        (is_known g e.source ≡ true) × (is_known g e.target ≡ true)
        → is_some ((learn (link e sets) (view g)).joins e) ≡ true
    learned k = link-joins e sets g k.0 k.1

edge_found :
    (edge_type form_key name : String) (g : Graph)
    → is_some (find same_edge (edge (form form_key) edge_type (business_entity name)) g.edges)
      ≡ true
    → answers (edge_exists edge_type name) g ≡ true
unfolding answers
edge_found edge_type form_key name g h =
    any-found same_edge same_edge_iff _ (edge (form form_key) edge_type (business_entity name))
      g.edges (λ p. rw (eq_refl edge_type, eq_refl name) refl) h

element_found :
    (page_fp key : String) (g : Graph)
    → is_some (find same_edge (edge (page page_fp) "HAS_ELEMENT" (element key)) g.edges) ≡ true
    → answers (element_exists key) g ≡ true
unfolding answers
element_found page_fp key g h =
    any-found same_edge same_edge_iff _ (edge (page page_fp) "HAS_ELEMENT" (element key)) g.edges
      (λ p. rw eq_refl refl) h

page_found :
    (fp : String) (g : Graph)
    → is_known g (page fp) ≡ true
    → answers (page_exists (some fp) none) g ≡ true
unfolding answers is_known
page_found fp g h = any-found same same_iff _ (page fp) g.nodes (λ p. rw eq_refl refl) h

-- What the writer wrote passes the gate: after a call that does not raise, the query for the page, the
-- element of a page or the outcome edge that it wrote is answered yes.
pub apply-answers :
    (c : Call) (g : Graph)
    → is_raised (apply c g).1 ≡ false
    → WhenSome (λ q. answers q (apply c g).0 ≡ true) (vouched c)
unfolding vouched query needs is_accepted
apply-answers (page_seen fp url title run shot now) g h =
    page_found fp _ (apply-made (page_seen fp url title run shot now) g).0
apply-answers (has_element p k run) g h = element_found p k _ (
    linked (has_element p k run) (edge (page p) "HAS_ELEMENT" (element k)) (of_run run) g refl refl
      refl h)
apply-answers (creates k name run) g h = edge_found "Creates" k name _ (
    linked (creates k name run) (edge (form k) "Creates" (business_entity name)) (of_run run) g refl
      refl refl h)
apply-answers (updates k name run) g h = edge_found "Updates" k name _ (
    linked (updates k name run) (edge (form k) "Updates" (business_entity name)) (of_run run) g refl
      refl refl h)
apply-answers (deletes k name run) g h = edge_found "Deletes" k name _ (
    linked (deletes k name run) (edge (form k) "Deletes" (business_entity name)) (of_run run) g refl
      refl refl h)
apply-answers (element_seen k role label chain history run now) g h = tt
apply-answers (element_healed k history chain now) g h = tt
apply-answers (button_seen k label role fp run now) g h = tt
apply-answers (form_seen k rules run now) g h = tt
apply-answers (workflow_seen name run now) g h = tt
apply-answers (entity_seen name kind now) g h = tt
apply-answers (navigates_to a b via run) g h = tt
apply-answers (has_button p k run) g h = tt
apply-answers (has_form p k run) g h = tt
apply-answers (submits p k run) g h = tt
apply-answers (step flow order p run) g h = tt
