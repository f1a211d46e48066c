-- ===== src/Generation/Drafts.antt =====
-- The drafts that `generate_scenarios` of apps/api/app/services/generation.py leaves.
use febal_automation_script.Prelude.{
  ℕ, ◌<◌, any, String, Bool, true, false, ◌&&◌, ◌||◌, ◌≡◌, refl, ◌∙◌, ap, sym, List, [], ◌∷◌, ◌++◌,
  map, Option, none, some, length, arith, All, Bool-cases, and-true, subst, inl, inr, append-nil,
  append_assoc,
}
use febal_automation_script.Kg.Writer.{Graph}
use febal_automation_script.Scenarios.{Scenario, Table, create_scenario, new_row, draft}
use febal_automation_script.Gates.{assert_non_vacuous, answers, page_exists, is_given}
use febal_automation_script.Gates.Backed.{assert_non_vacuous_iff, page_backs, page-answered}
use febal_automation_script.Generation.{
  Flow, Pair, refused, Env, terminal_page_fp, given, deterministic_minimal_pair,
  scenario_pair_for_flow, draft_of, passes, accepted_pair, add_id, name_or_default,
  generate_scenarios,
}

-- The draft of a flow: of the run, named after the flow, not edited and not stale, with the text and the
-- annotations of a pair that passed both gates.
abbrev pub IsDraftOf : Env → Flow → Scenario → Type 0
IsDraftOf env f row =
    (row.status ≡ draft)
    × (row.run_id ≡ env.run_id)
    × (row.flow_id ≡ f.id)
    × (row.feature_name ≡ (elim f.name [ none ↦ "Flow" | some name ↦ name ]))
    × (row.edited ≡ false)
    × (row.stale ≡ false)
    × ((pair : Pair) × (scenario_pair_for_flow f (env.reply f) ≡ some pair)
        × (row.gherkin_text ≡ pair.gherkin)
        × (row.then_refs ≡ pair.then_refs)
        × (env.parses pair.gherkin ≡ true)
        × (assert_non_vacuous env.graph pair.then_refs ≡ true))

-- Rows for the first of the flows, in their order.
abbrev pub AreDrafts : Env → List Flow → List Scenario → Type 0
AreDrafts env flows [] = Unit
AreDrafts env [] (row ∷ rows) = ⊥
AreDrafts env (f ∷ flows) (row ∷ rows) = IsDraftOf env f row × AreDrafts env flows rows

-- All flows have their row, and the ids are those of the rows; or, after an error, some have not.
abbrev pub Ended : Option (List ℕ) → List Flow → List Scenario → Type 0
Ended (some ids) flows rows =
    (length rows ≡ length flows) × (ids ≡ map (λ (row : Scenario). row.id) rows)
Ended none flows rows = length rows < length flows

abbrev pub Outcome : Env → List Flow → Table → Option (List ℕ) × Table → Type 0
Outcome env flows t done =
    (rows : List Scenario) × (done.1.rows ≡ t.rows ++ rows)
    × AreDrafts env flows rows
    × Ended done.0 flows rows

accepted_pair-eq :
    (env : Env) (o : Option Pair) (pair : Pair)
    → accepted_pair env o ≡ some pair
    → (o ≡ some pair) × (passes env pair ≡ true)
unfolding accepted_pair
accepted_pair-eq env none pair h = absurd cc
accepted_pair-eq env (some q) pair h = elim (Bool-cases (passes env q)) [
  | inl e ↦ taken e (rw e at h)
  | inr e ↦ absurd (clash (rw e at h))
]
  where
    clash : ◌≡◌ {A = Option Pair} none (some pair) → ⊥
    clash h = cc

    taken :
        passes env q ≡ true
        → ◌≡◌ {A = Option Pair} (some q) (some pair)
        → (◌≡◌ {A = Option Pair} (some q) (some pair)) × (passes env pair ≡ true)
    taken e h =
        (h, sym (ap (λ (o : Option Pair). elim o [ none ↦ true | some p ↦ passes env p ]) h) ∙ e)

passed :
    (env : Env) (pair : Pair)
    → passes env pair ≡ true
    → (env.parses pair.gherkin ≡ true) × (assert_non_vacuous env.graph pair.then_refs ≡ true)
unfolding passes
passed env pair h =
    and-true (env.parses pair.gherkin) (assert_non_vacuous env.graph pair.then_refs) h

add_id-Ended :
    (id : ℕ) (done : Option (List ℕ)) (t : Table) (f : Flow) (flows : List Flow) (row : Scenario)
    (rows : List Scenario)
    → row.id ≡ id
    → Ended done flows rows
    → Ended (add_id id (done, t)).0 (f ∷ flows) (row ∷ rows)
unfolding add_id
add_id-Ended id none t f flows row rows e h = omega (arith, h)
add_id-Ended id (some ids) t f flows row rows e h = (omega (arith, h.0), rw (e, h.1) refl)

add_id-table : (id : ℕ) (done : Option (List ℕ)) (t : Table) → (add_id id (done, t)).1 ≡ t
unfolding add_id
add_id-table id none t = refl
add_id-table id (some ids) t = refl

draft-IsDraftOf :
    (env : Env) (f : Flow) (pair : Pair) (id : ℕ)
    → accepted_pair env (scenario_pair_for_flow f (env.reply f)) ≡ some pair
    → IsDraftOf env f (new_row (draft_of env f pair) id)
unfolding draft_of new_row
draft-IsDraftOf env f pair id e =
    let k = accepted_pair-eq env (scenario_pair_for_flow f (env.reply f)) pair e in
    (
      refl,
      refl,
      refl,
      named f.name,
      refl,
      refl,
      (pair, k.0, refl, refl, (passed env pair k.1).0, (passed env pair k.1).1),
    )
  where
    named : (o : Option String) → name_or_default o ≡ (elim o [ none ↦ "Flow" | some name ↦ name ])
    named none = refl
    named (some name) = refl

-- One flow more in front.
with_row :
    (env : Env) (f : Flow) (flows : List Flow) (t : Table) (pair : Pair)
    → ((u : Table) → Outcome env flows u (generate_scenarios env flows u))
    → accepted_pair env (scenario_pair_for_flow f (env.reply f)) ≡ some pair
    → Outcome env
        (f ∷ flows)
        t
        (add_id t.next_id (generate_scenarios env flows (create_scenario (draft_of env f pair) t)))
unfolding create_scenario
with_row env f flows t pair again e =
    let u = create_scenario (draft_of env f pair) t in
    let rest = again u in
    let done = generate_scenarios env flows u in
    let row = new_row (draft_of env f pair) t.next_id in
    (
      row ∷ rest.0,
      ap (λ (v : Table). v.rows) (add_id-table t.next_id done.0 done.1)
          ∙ rest.1
          ∙ append_assoc t.rows (row ∷ []) rest.0,
      (draft-IsDraftOf env f pair t.next_id e, rest.2),
      add_id-Ended t.next_id done.0 done.1 f flows row rest.0 (unfold new_row in refl) rest.3,
    )

-- The rows that generation adds are drafts for the first flows of the run, in order, each with the run's
-- id, the flow's id and name, and the text and the annotations of the pair of its flow, neither edited
-- nor stale; the parser accepts the text, and the annotations pass the gate. It returns
-- their ids exactly when every flow has its row. When it raises, the rows of the flows before the
-- one that failed stay.
pub generate_scenarios-drafts :
    (env : Env) (flows : List Flow) (t : Table)
    → Outcome env flows t (generate_scenarios env flows t)
unfolding generate_scenarios
generate_scenarios-drafts env [] t = ([], sym (append-nil t.rows), tt, (refl, refl))
generate_scenarios-drafts env (f ∷ flows) t =
    with_pair (accepted_pair env (scenario_pair_for_flow f (env.reply f))) refl
      (generate_scenarios-drafts env flows)
  where
    with_pair :
        (o : Option Pair)
        → accepted_pair env (scenario_pair_for_flow f (env.reply f)) ≡ o
        → ((u : Table) → Outcome env flows u (generate_scenarios env flows u))
        → Outcome env (f ∷ flows) t (elim o as (λ x. Option (List ℕ) × Table) [
          | none ↦ (none, t)
          | some pair ↦
              add_id t.next_id
                (generate_scenarios env flows (create_scenario (draft_of env f pair) t))
        ])
    with_pair none e again = ([], sym (append-nil t.rows), tt, omega arith)
    with_pair (some pair) e again = with_row env f flows t pair again e

-- The terminal page of the flow has a fingerprint, and is in the graph.
abbrev pub has_destination : Graph → Flow → Bool
has_destination g f =
    is_given (given (terminal_page_fp f.node_fps))
    && answers (page_exists (given (terminal_page_fp f.node_fps)) none) g

settled : (b c : Bool) → (b && c) ≡ true → (((b || false) && c) && true) ≡ true
settled b c h = ground arith

minimal-passes :
    (env : Env) (f : Flow)
    → env.parses (deterministic_minimal_pair f).gherkin ≡ true
    → has_destination env.graph f ≡ true
    → passes env (deterministic_minimal_pair f) ≡ true
unfolding passes deterministic_minimal_pair
minimal-passes env f p d =
    rw (p, assert_non_vacuous_iff)
      (settled (is_given (given (terminal_page_fp f.node_fps)))
        (any (page_backs (given (terminal_page_fp f.node_fps)) none) env.graph.nodes)
        (subst (λ b. (is_given (given (terminal_page_fp f.node_fps)) && b) ≡ true)
          (page-answered env.graph (given (terminal_page_fp f.node_fps)) none) d))

minimal-accepted :
    (env : Env) (f : Flow)
    → env.reply f ≡ refused
    → passes env (deterministic_minimal_pair f) ≡ true
    → accepted_pair env (scenario_pair_for_flow f (env.reply f))
      ≡ some (deterministic_minimal_pair f)
unfolding accepted_pair scenario_pair_for_flow
minimal-accepted env f r p = rw r (rw p refl)

add_id-ids :
    (id : ℕ) (done : Option (List ℕ) × Table) (ids : List ℕ)
    → done.0 ≡ some ids
    → (add_id id done).0 ≡ some (id ∷ ids)
unfolding add_id
add_id-ids id (none, t) ids h = absurd cc
add_id-ids id (some js, t) ids h =
    ap (λ (o : Option (List ℕ)). elim o [ none ↦ none | some l ↦ some (id ∷ l) ]) h

-- With a gateway that refuses every call, every flow whose terminal page is in the graph and whose
-- minimal text the parser accepts gets its draft: nothing raises.
pub generate_scenarios-degrades :
    (env : Env) (flows : List Flow) (t : Table)
    → All
        (λ f.
          (env.reply f ≡ refused)
          × (env.parses (deterministic_minimal_pair f).gherkin ≡ true)
          × (has_destination env.graph f ≡ true))
        flows
    → (ids : List ℕ) × ((generate_scenarios env flows t).0 ≡ some ids) × (length ids ≡ length flows)
unfolding generate_scenarios
generate_scenarios-degrades env [] t h = ([], refl, refl)
generate_scenarios-degrades env (f ∷ flows) t h =
    let u = create_scenario (draft_of env f (deterministic_minimal_pair f)) t in
    let rest = generate_scenarios-degrades env flows u h.1 in
    (
      t.next_id ∷ rest.0,
      subst
          (λ o.
            (elim o as (λ x. Option (List ℕ) × Table) [
              | none ↦ (none, t)
              | some pair ↦
                  add_id t.next_id
                    (generate_scenarios env flows (create_scenario (draft_of env f pair) t))
            ]).0
            ≡ some (t.next_id ∷ rest.0))
          (sym (minimal-accepted env f h.0.0 (minimal-passes env f h.0.1 h.0.2)))
          (add_id-ids t.next_id (generate_scenarios env flows u) rest.0 rest.1),
      omega (arith, rest.2),
    )
