-- ===== src/Generation/Tests.antt =====
-- Two flows of a site of two pages, with and without a gateway.
use febal_automation_script.Prelude.{ℕ, String, true, ◌≡◌, refl, List, [], ◌∷◌, some, length}
use febal_automation_script.Prelude.Texts.{codes}
use febal_automation_script.Kg.Writer.{Graph, page}
use febal_automation_script.Scenarios.{Table}
use febal_automation_script.Gates.{answers}
use febal_automation_script.Generation.{
  Flow, Reply, refused, answered, Env, terminal_page_fp, generate_scenarios,
}
use febal_automation_script.Generation.Drafts.{
  Outcome, generate_scenarios-drafts, generate_scenarios-degrades,
}

line_break : codes "\n" ≡ 10 ∷ []
line_break = refl

abbrev site : Graph
site = record { nodes = (page "f1", []) ∷ (page "f2", []) ∷ []; edges = [] }

abbrev flow : String → List String → Flow
flow id fps = record { id = id; name = some "Checkout"; node_fps = fps }

abbrev flows : List Flow
flows = flow "a" ("f1" ∷ "f2" ∷ []) ∷ flow "b" ("f2" ∷ "f1" ∷ []) ∷ []

abbrev env : (Flow → Reply) → Env
env reply = record { reply = reply; parses = λ text. true; graph = site; run_id = "run" }

abbrev table : Table
table = record { rows = []; next_id = 1 }

-- The first flow gets an answer that has no assertion at all.
abbrev vacuous : Flow → Reply
vacuous f = answered (some (record { gherkin = "Feature: x"; then_refs = [] }))

generate_scenarios-drafts_example :
    Outcome (env vacuous) flows table (generate_scenarios (env vacuous) flows table)
generate_scenarios-drafts_example = generate_scenarios-drafts (env vacuous) flows table

two_drafts : (generate_scenarios (env (λ f. refused)) flows table).0 ≡ some (1 ∷ 2 ∷ [])
unfolding generate_scenarios answers
two_drafts = refl

generate_scenarios-degrades_example :
    (ids : List ℕ) × ((generate_scenarios (env (λ f. refused)) flows table).0 ≡ some ids)
    × (length ids ≡ 2)
unfolding terminal_page_fp answers
generate_scenarios-degrades_example =
    generate_scenarios-degrades (env (λ f. refused)) flows table
      ((refl, refl, refl), ((refl, refl, refl), tt))
