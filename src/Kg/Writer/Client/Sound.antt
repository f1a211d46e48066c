-- ===== src/Kg/Writer/Client/Sound.antt =====
-- The shape of the graph that apps/api/app/services/kg/writer.py keeps.
use febal_automation_script.Prelude.{
  Bool, true, false, ◌≡◌, refl, ap, ◌↔◌, List, [], ◌∷◌, ◌++◌, Option, none, some, Option-cases, inl,
  inr, arith, All, All-append, All-map,
}
use febal_automation_script.Kg.Writer.{
  NodeRef, EdgeRef, Graph, Properties, Assignment, Upsert, same, same_edge, find, set_matched,
  merge, merge_at, run_upsert, run_link, link_between, created, matched, write, with_nodes, element,
  assign_all,
}
use febal_automation_script.Kg.Writer.Calls.{
  upsert_page, upsert_element, append_element_history, upsert_button, upsert_form, upsert_workflow,
  upsert_business_entity, link_navigates_to, link_has_element, link_has_button, link_has_form,
  link_submits, state_change, link_creates, link_updates, link_deletes, link_step, of_run,
  page_query, element_query, button_query, form_query, workflow_query, entity_query, healed,
}
use febal_automation_script.Kg.Writer.Reads.{
  same_iff, same_edge_iff, find-merge, find-set_matched, find-snoc,
}
use febal_automation_script.Kg.Writer.Client.{
  Call, page_seen, element_seen, element_healed, button_seen, form_seen, workflow_seen, entity_seen,
  navigates_to, has_element, has_button, has_form, submits, creates, updates, deletes, step, apply,
  run_calls,
}
use febal_automation_script.Kg.Writer.Client.Errors.{is_known, is_some}

module _ {R : Type 0} (eq : R → R → Bool) where
  -- Nothing stands twice.
  abbrev pub IsDistinct : List (R × Properties) → Type 0
  IsDistinct [] = Unit
  IsDistinct ((q, p) ∷ l) = (is_some (find eq q l) ≡ false) × IsDistinct l

module _ {R : Type 0} (eq : R → R → Bool) (iff : (a b : R) → (eq a b ≡ true) ↔ (a ≡ b)) where
  set_matched-IsDistinct :
      (r : R) (f : Properties → Properties) (l : List (R × Properties))
      → IsDistinct eq l
      → IsDistinct eq (set_matched eq r f l)
  unfolding set_matched
  set_matched-IsDistinct r f [] d = d
  set_matched-IsDistinct r f ((q, p) ∷ l) d =
      (rw (find-set_matched eq iff r q f l) (ground arith), set_matched-IsDistinct r f l d.1)

  snoc-IsDistinct :
      (r : R) (o : Properties) (l : List (R × Properties))
      → find eq r l ≡ none
      → IsDistinct eq l
      → IsDistinct eq (l ++ (r, o) ∷ [])
  unfolding find
  snoc-IsDistinct r o [] h d = (refl, tt)
  snoc-IsDistinct r o ((q, p) ∷ l) h d = (
    ground (arith, find-snoc eq iff r q o l, iff q r, iff r q),
    snoc-IsDistinct r o l (ground arith) d.1,
  )

  pub merge-IsDistinct :
      (r : R) (c m : Properties → Properties) (l : List (R × Properties))
      → IsDistinct eq l
      → IsDistinct eq (merge eq r c m l)
  unfolding merge merge_at
  merge-IsDistinct r c m l d = elim (Option-cases (find eq r l)) [
    | inl h ↦ rw h (snoc-IsDistinct r (c []) l h d)
    | inr (p, h) ↦ rw h (set_matched-IsDistinct r m l d)
  ]

  -- A property of the items told apart survives a MERGE, if the new one has it.
  pub merge-All :
      (P : R → Type 0) (r : R) (c m : Properties → Properties) (l : List (R × Properties))
      → P r
      → All (λ x. P x.0) l
      → All (λ x. P x.0) (merge eq r c m l)
  unfolding merge merge_at
  merge-All P r c m l new h = at_found (find eq r l)
    where
      kept :
          (l : List (R × Properties)) → All (λ x. P x.0) l → All (λ x. P x.0) (set_matched eq r m l)
      kept [] h = tt
      kept ((q, p) ∷ l) h = (h.0, kept l h.1)

      at_found : (o : Option Properties) → All (λ x. P x.0) (merge_at eq r c m l o)
      at_found none = All-append (λ x. P x.0) l ((r, c []) ∷ []) h (new, tt)
      at_found (some p) = kept l h

-- The ends of an edge are in the graph.
abbrev pub Joins : Graph → EdgeRef → Type 0
Joins g e = (is_known g e.source ≡ true) × (is_known g e.target ≡ true)

-- No key names two nodes, no two edges agree in ends, type and order, and no edge dangles.
pub record IsSound (g : Graph) : Type 0 where
  pub nodes_once : IsDistinct same g.nodes
  pub edges_once : IsDistinct same_edge g.edges
  pub closed : All (λ x. Joins g x.0) g.edges

-- New nodes: nothing is forgotten.
nodes-IsSound :
    (g : Graph) (l : List (NodeRef × Properties))
    → IsDistinct same l
    → ((r : NodeRef) → is_known g r ≡ true → is_known (with_nodes g l) r ≡ true)
    → IsSound g
    → IsSound (with_nodes g l)
nodes-IsSound g l d keep s = record {
  nodes_once = d;
  edges_once = s.edges_once;
  closed = All-map (λ x j. (keep _ j.0, keep _ j.1)) g.edges s.closed;
}

merge_keeps :
    (r q : NodeRef) (c m : Properties → Properties) (g : Graph)
    → is_known g q ≡ true
    → is_known (with_nodes g (merge same r c m g.nodes)) q ≡ true
unfolding is_known
merge_keeps r q c m g h = rw (find-merge same same_iff) (ground arith)

amend_keeps :
    (r : NodeRef) (f : Properties → Properties) (g : Graph) (q : NodeRef)
    → is_known g q ≡ true
    → is_known (with_nodes g (set_matched same r f g.nodes)) q ≡ true
unfolding is_known
amend_keeps r f g q h = rw (find-set_matched same same_iff) (ground arith)

merge_nodes-IsSound :
    (r : NodeRef) (c m : Properties → Properties) (g : Graph)
    → IsSound g
    → IsSound (with_nodes g (merge same r c m g.nodes))
merge_nodes-IsSound r c m g s =
    nodes-IsSound g (merge same r c m g.nodes)
      (merge-IsDistinct same same_iff r c m g.nodes s.nodes_once) (λ q. merge_keeps r q c m g) s

amend-IsSound :
    (r : NodeRef) (f : Properties → Properties) (g : Graph)
    → IsSound g
    → IsSound (with_nodes g (set_matched same r f g.nodes))
amend-IsSound r f g s =
    nodes-IsSound g (set_matched same r f g.nodes)
      (set_matched-IsDistinct same same_iff r f g.nodes s.nodes_once) (amend_keeps r f g) s

link-IsSound :
    (e : EdgeRef) (sets : List Assignment) (g : Graph) → IsSound g → IsSound (run_link e sets g).0
unfolding run_link link_between is_known
link-IsSound e sets g s =
    between (find same e.source g.nodes) (find same e.target g.nodes) refl refl
  where
    between :
        (p q : Option Properties)
        → find same e.source g.nodes ≡ p
        → find same e.target g.nodes ≡ q
        → IsSound (link_between e sets g p q).0
    between none q h k = s
    between (some p) none h k = s
    between (some p) (some q) h k = record {
      nodes_once = s.nodes_once;
      edges_once =
          merge-IsDistinct same_edge same_edge_iff e (assign_all sets) (assign_all sets) g.edges
            s.edges_once;
      closed =
          merge-All same_edge same_edge_iff (Joins g) e (assign_all sets) (assign_all sets) g.edges
            (ap is_some h, ap is_some k) s.closed;
    }

upsert-IsSound : (u : Upsert) (g : Graph) → IsSound g → IsSound (run_upsert u g).0
unfolding run_upsert
upsert-IsSound u g s = merge_nodes-IsSound u.target (created u) (matched u) g s

apply-IsSound : (c : Call) (g : Graph) → IsSound g → IsSound (apply c g).0
unfolding apply write run_upsert upsert_page upsert_element append_element_history upsert_button
    upsert_form upsert_workflow upsert_business_entity link_navigates_to link_has_element
    link_has_button link_has_form link_submits state_change link_creates link_updates link_deletes
    link_step
apply-IsSound (page_seen fp url title run shot now) g s =
    upsert-IsSound (page_query fp url title run shot now) g s
apply-IsSound (element_seen k role label chain history run now) g s =
    upsert-IsSound (element_query k role label chain history run now) g s
apply-IsSound (button_seen k label role fp run now) g s =
    upsert-IsSound (button_query k label role fp run now) g s
apply-IsSound (form_seen k rules run now) g s = upsert-IsSound (form_query k rules run now) g s
apply-IsSound (workflow_seen name run now) g s = upsert-IsSound (workflow_query name run now) g s
apply-IsSound (entity_seen name kind now) g s = upsert-IsSound (entity_query name kind now) g s
apply-IsSound (element_healed k history chain now) g s =
    amend-IsSound (element k) (assign_all (healed history chain now)) g s
apply-IsSound (navigates_to a b via run) g s = link-IsSound _ (("via", some via) ∷ of_run run) g s
apply-IsSound (has_element p k run) g s = link-IsSound _ (of_run run) g s
apply-IsSound (has_button p k run) g s = link-IsSound _ (of_run run) g s
apply-IsSound (has_form p k run) g s = link-IsSound _ (of_run run) g s
apply-IsSound (submits p k run) g s = link-IsSound _ (of_run run) g s
apply-IsSound (creates p k run) g s = link-IsSound _ (of_run run) g s
apply-IsSound (updates p k run) g s = link-IsSound _ (of_run run) g s
apply-IsSound (deletes p k run) g s = link-IsSound _ (of_run run) g s
apply-IsSound (step flow order p run) g s = s

-- Whatever is called in whatever order, those that raise included, no key comes to name two nodes,
-- no edge is doubled, and no edge dangles.
pub run_calls-IsSound : (cs : List Call) (g : Graph) → IsSound g → IsSound (run_calls cs g)
unfolding run_calls
run_calls-IsSound [] g s = s
run_calls-IsSound (c ∷ cs) g s = run_calls-IsSound cs (apply c g).0 (apply-IsSound c g s)
