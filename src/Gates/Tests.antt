-- ===== src/Gates/Tests.antt =====
-- A checkout that creates an order, and annotations that are and are not backed by it.
use febal_automation_script.Prelude.{
  String, true, false, not, ◌&&◌, ◌≡◌, refl, [], ◌∷◌, none, some, All,
}
use febal_automation_script.Kg.Writer.{Graph, find, set_matched, same, same_edge}
use febal_automation_script.Kg.Writer.Calls.{upsert_form, upsert_business_entity, link_creates}
use febal_automation_script.Kg.Writer.Client.{
  Call, form_seen, entity_seen, creates, apply, run_calls,
}
use febal_automation_script.Kg.Writer.Client.Errors.{is_raised}
use febal_automation_script.Gates.{
  ThenRef, edge_exists, answers, is_empty, resolve_then_refs, assert_non_vacuous, query_for,
}
use febal_automation_script.Gates.Backed.{
  all_backed, IsSafe, assert_non_vacuous_iff, resolve_then_refs-IsSafe,
}
use febal_automation_script.Gates.Written.{vouched, apply-answers}

abbrev graph : Graph
graph =
    run_calls
      (form_seen "f#form:pay" "[]" "run" "monday" ∷ entity_seen "Order" "transaction" "monday" ∷ [])
      (record { nodes = []; edges = [] })

abbrev call : Call
call = creates "f#form:pay" "Order" "run"

abbrev then_edge : String → ThenRef
then_edge edge_type = record {
  then_text = "the order exists";
  kind = some "edge";
  edge_type = some edge_type;
  entity = some "Order";
  element_key = none;
  page_fingerprint = none;
  page_url = none;
}

backed : assert_non_vacuous (apply call graph).0 (then_edge "Creates" ∷ []) ≡ true
unfolding assert_non_vacuous answers apply run_calls upsert_form upsert_business_entity link_creates
    find set_matched same same_edge
backed = refl

injected : (resolve_then_refs graph (then_edge "Creates]->() DELETE (n" ∷ [])).queries ≡ []
unfolding resolve_then_refs query_for
injected = refl

assert_non_vacuous_iff_example : assert_non_vacuous graph (then_edge "Creates" ∷ []) ≡ (
    not (is_empty {A = ThenRef} (then_edge "Creates" ∷ []))
    && all_backed graph (then_edge "Creates" ∷ []))
assert_non_vacuous_iff_example = assert_non_vacuous_iff graph (then_edge "Creates" ∷ [])

resolve_then_refs-IsSafe_example :
    All IsSafe
      (resolve_then_refs graph
        (then_edge "Creates" ∷ then_edge "Creates]->() DELETE (n" ∷ [])).queries
resolve_then_refs-IsSafe_example =
    resolve_then_refs-IsSafe graph (then_edge "Creates" ∷ then_edge "Creates]->() DELETE (n" ∷ [])

not_raised : is_raised (apply call graph).1 ≡ false
unfolding is_raised apply run_calls upsert_form upsert_business_entity link_creates find set_matched
    same same_edge
not_raised = refl

apply-answers_example : answers (edge_exists "Creates" "Order") (apply call graph).0 ≡ true
unfolding vouched
apply-answers_example = apply-answers call graph not_raised
