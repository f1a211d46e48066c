-- ===== src/Scenarios/Routes/Vetted.antt =====
-- The quality gates over a whole review: generation, edits, approvals and rejections in any order,
-- as generation.py and routers/scenarios.py of apps/api/app carry them out.
use febal_automation_script.Prelude.{
  ℕ, String, str_eq, Bool, true, false, not, ◌&&◌, ◌||◌, ◌≡◌, refl, ◌∙◌, sym, subst, List, [], ◌∷◌,
  ◌++◌, Option, none, some, any, All, All-map, All-append, All-filter, ◌==◌, arith, Bool-cases, inl,
  inr,
}
use febal_automation_script.Kg.Writer.{Graph}
use febal_automation_script.Gates.{ThenRef, assert_non_vacuous}
use febal_automation_script.Gates.Backed.{assert_non_vacuous_iff}
use febal_automation_script.Generation.{Flow, Reply, Env, generate_scenarios}
use febal_automation_script.Generation.Drafts.{AreDrafts, generate_scenarios-drafts}
use febal_automation_script.Scenarios.{
  approved, rejected, Scenario, Table, get, change, write, set_valid, set_status, edit,
  update_gherkin, validate_status, is_approved, list_approved,
}
use febal_automation_script.Scenarios.Review.{of_All}
use febal_automation_script.Scenarios.Routes.{
  View, Views, Verdict, passed, generation_error, driver_error, Response, after_write, gates,
  unless_refused, edit_found, edit_scenario, approve_found, approve_scenario, reject_found,
  reject_scenario,
}
use febal_automation_script.Scenarios.Routes.Answers.{
  is_passed, gates-is_passed, after_write-table, passes_in,
}

-- What happens to the queue, each with the graph of that moment.
pub data Event : Type 0 where
  generate : (Flow → Reply) → Graph → String → List Flow → Event
  edits : Views → ℕ → String → List ThenRef → Event
  approves : Views → ℕ → Event
  rejects : Views → ℕ → Event

abbrev pub handle : (String → Bool) → Event → Table → Table
handle parses (generate reply graph run_id flows) t =
    (generate_scenarios (record { reply = reply; parses = parses; graph = graph; run_id = run_id })
      flows t).1
handle parses (edits views id text refs) t = (edit_scenario parses views id text refs t).1
handle parses (approves views id) t = (approve_scenario parses views id t).1
handle parses (rejects views id) t = (reject_scenario views id t).1

-- The events in order, the first one first.
abbrev pub handle_all : (String → Bool) → List Event → Table → Table
handle_all parses [] t = t
handle_all parses (e ∷ events) t = handle_all parses events (handle parses e t)

abbrev graph_of : View → List Graph
graph_of none = []
graph_of (some g) = g ∷ []

abbrev approval_graph : Event → List Graph
approval_graph (approves views id) = graph_of views.gate
approval_graph _ = []

-- The graphs that the gate read for approvals, the last one first, before `earlier`.
abbrev pub approval_graphs : List Event → List Graph → List Graph
approval_graphs [] earlier = earlier
approval_graphs (e ∷ events) earlier = approval_graphs events (approval_graph e ++ earlier)

-- The text parses, and one of the graphs backs the annotations.
abbrev pub is_vetted : (String → Bool) → List Graph → Scenario → Bool
is_vetted parses graphs s =
    parses s.gherkin_text && any (λ g. assert_non_vacuous g s.then_refs) graphs

module _ (parses : String → Bool) where
  -- A row that is approved is vetted.
  abbrev IsHonest : List Graph → Scenario → Type 0
  IsHonest graphs s = (not (is_approved s.status) || is_vetted parses graphs s) ≡ true

  IsHonest-more :
      (gs : List Graph) (v : View) (s : Scenario) → IsHonest gs s → IsHonest (graph_of v ++ gs) s
  IsHonest-more gs none s h = h
  IsHonest-more gs (some g) s h = ground (arith, h)

  change-IsHonest :
      (gs : List Graph) (f : Scenario → Scenario) (id : ℕ) (rows : List Scenario) (row : Scenario)
      → get rows id ≡ some row
      → All (IsHonest gs) rows
      → IsHonest gs (f row)
      → All (IsHonest gs) (change f id rows)
  unfolding get change
  change-IsHonest gs f id [] row e h k = tt
  change-IsHonest gs f id (s ∷ rows) row e h k = elim (Bool-cases (s.id == id)) [
    | inl i ↦ rw i (subst (IsHonest gs) (sym (first (rw i at e))) k, h.1)
    | inr i ↦ rw i (h.0, change-IsHonest gs f id rows row (rw i at e) h.1 k)
  ]
    where
      first : ◌≡◌ {A = Option Scenario} (some s) (some row) → f s ≡ f row
      first q = cc

  -- A gated write keeps the rows honest, if it does when the gates pass.
  refused-IsHonest :
      (gs : List Graph) (v : Verdict) (t : Table) (done : Response × Table)
      → All (IsHonest gs) t.rows
      → (is_passed v ≡ true → All (IsHonest gs) done.1.rows)
      → All (IsHonest gs) (unless_refused parses v t done).1.rows
  unfolding unless_refused
  refused-IsHonest gs passed t done h k = k refl
  refused-IsHonest gs generation_error t done h k = h
  refused-IsHonest gs driver_error t done h k = h

  written-IsHonest :
      (gs : List Graph) (view : View) (f : Scenario → Scenario) (id : ℕ) (t : Table)
      (row : Scenario)
      → get t.rows id ≡ some row
      → All (IsHonest gs) t.rows
      → IsHonest gs (f row)
      → All (IsHonest gs) (after_write view id (write f id t (get t.rows id))).1.rows
  unfolding write
  written-IsHonest gs view f id t row e h k =
      rw (e, after_write-table) (change-IsHonest gs f id t.rows row e h k)

  gated-IsHonest :
      (gs : List Graph) (view : View) (row : Scenario)
      → is_passed (gates parses view row.gherkin_text row.then_refs) ≡ true
      → is_vetted parses (graph_of view ++ gs) row ≡ true
  gated-IsHonest gs view row h =
      by_view view (sym (gates-is_passed parses view row.gherkin_text row.then_refs) ∙ h)
    where
      by_view :
          (v : View)
          → passes_in parses v row.gherkin_text row.then_refs ≡ true
          → is_vetted parses (graph_of v ++ gs) row ≡ true
      by_view none k = ground (arith, k)
      by_view (some g) k = ground (arith, k, assert_non_vacuous_iff g row.then_refs)

  edit-IsHonest :
      (gs : List Graph) (views : Views) (id : ℕ) (text : String) (refs : List ThenRef) (t : Table)
      (o : Option Scenario)
      → get t.rows id ≡ o
      → All (IsHonest gs) t.rows
      → All (IsHonest gs) (edit_found parses views id text refs t o).1.rows
  unfolding edit_found update_gherkin edit
  edit-IsHonest gs views id text refs t none e h = h
  edit-IsHonest gs views id text refs t (some row) e h =
      refused-IsHonest gs (gates parses views.gate text refs) t
        (after_write views.shown id (write (edit text refs) id t (get t.rows id))) h
        (λ p. written-IsHonest gs views.shown (edit text refs) id t row e h refl)

  reject-IsHonest :
      (gs : List Graph) (views : Views) (id : ℕ) (t : Table) (o : Option Scenario)
      → get t.rows id ≡ o
      → All (IsHonest gs) t.rows
      → All (IsHonest gs) (reject_found views id t o).1.rows
  unfolding reject_found set_status set_valid validate_status
  reject-IsHonest gs views id t none e h = h
  reject-IsHonest gs views id t (some row) e h =
      written-IsHonest gs views.shown (λ s. record s { status = rejected }) id t row e h refl

  approve-IsHonest :
      (gs : List Graph) (views : Views) (id : ℕ) (t : Table) (o : Option Scenario)
      → get t.rows id ≡ o
      → All (IsHonest gs) t.rows
      → All (IsHonest (graph_of views.gate ++ gs)) (approve_found parses views id t o).1.rows
  unfolding approve_found set_status set_valid validate_status
  approve-IsHonest gs views id t none e h = All-map (IsHonest-more gs views.gate) t.rows h
  approve-IsHonest gs views id t (some row) e h =
      let more = All-map (IsHonest-more gs views.gate) t.rows h in
      refused-IsHonest (graph_of views.gate ++ gs)
        (gates parses views.gate row.gherkin_text row.then_refs) t
        (after_write views.shown id
          (write (λ s. record s { status = approved }) id t (get t.rows id)))
        more
        (λ p.
          written-IsHonest (graph_of views.gate ++ gs) views.shown
            (λ s. record s { status = approved }) id t row e more
            (gated-IsHonest gs views.gate row p))

  drafts-IsHonest :
      (gs : List Graph) (env : Env) (flows : List Flow) (rows : List Scenario)
      → AreDrafts env flows rows
      → All (IsHonest gs) rows
  drafts-IsHonest gs env flows [] h = tt
  drafts-IsHonest gs env [] (row ∷ rows) h = absurd h
  drafts-IsHonest gs env (f ∷ flows) (row ∷ rows) h =
      (rw (h.0.0) refl, drafts-IsHonest gs env flows rows h.1)

  handle-IsHonest :
      (gs : List Graph) (e : Event) (t : Table)
      → All (IsHonest gs) t.rows
      → All (IsHonest (approval_graph e ++ gs)) (handle parses e t).rows
  unfolding edit_scenario approve_scenario reject_scenario
  handle-IsHonest gs (generate reply graph run_id flows) t h =
      let env : Env = record { reply = reply; parses = parses; graph = graph; run_id = run_id } in
      let done = generate_scenarios-drafts env flows t in
      rw done.1
        (All-append (IsHonest gs) t.rows done.0 h (drafts-IsHonest gs env flows done.0 done.2))
  handle-IsHonest gs (edits views id text refs) t h =
      edit-IsHonest gs views id text refs t (get t.rows id) refl h
  handle-IsHonest gs (approves views id) t h = approve-IsHonest gs views id t (get t.rows id) refl h
  handle-IsHonest gs (rejects views id) t h = reject-IsHonest gs views id t (get t.rows id) refl h

  handle_all-IsHonest :
      (gs : List Graph) (events : List Event) (t : Table)
      → All (IsHonest gs) t.rows
      → All (IsHonest (approval_graphs events gs)) (handle_all parses events t).rows
  handle_all-IsHonest gs [] t h = h
  handle_all-IsHonest gs (e ∷ events) t h =
      handle_all-IsHonest (approval_graph e ++ gs) events (handle parses e t)
        (handle-IsHonest gs e t h)

-- Start from a table without approved rows and let generation, edits, approvals and rejections happen
-- in any order. Then every scenario that codegen reads for a run has, as it stands, a text that
-- parses and annotations that passed the gate on the graph of some approval.
pub handle_all-vetted :
    (parses : String → Bool) (events : List Event) (t : Table) (run_id : String)
    → All (λ s. is_approved s.status ≡ false) t.rows
    → All
        (λ s. is_vetted parses (approval_graphs events []) s ≡ true)
        (list_approved run_id (handle_all parses events t))
unfolding list_approved
handle_all-vetted parses events t run_id h =
    All-map
      (λ s m.
        let honest =
          of_All (IsHonest parses (approval_graphs events [])) (handle_all parses events t).rows
            (handle_all-IsHonest parses [] events t fresh) s m.0 in
        vetted (str_eq s.run_id run_id) (is_approved s.status)
          (is_vetted parses (approval_graphs events []) s) m.1 honest)
      _
      (All-filter (λ s. str_eq s.run_id run_id && is_approved s.status)
        (handle_all parses events t).rows)
  where
    fresh : All (IsHonest parses []) t.rows
    fresh = All-map (λ s e. rw e refl) t.rows h

    vetted : (a b c : Bool) → (a && b) ≡ true → (not b || c) ≡ true → c ≡ true
    vetted a b c p q = ground arith
