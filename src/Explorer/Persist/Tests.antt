-- ===== src/Explorer/Persist/Tests.antt =====
-- One step of a crawl: a validation probe of a checkout form.
use febal_automation_script.Prelude.{◌≡◌, refl, [], ◌∷◌, none, some, length}
use febal_automation_script.Prelude.Texts.{codes, is_part, starts_with, strip}
use febal_automation_script.Explorer.Persist.{
  Formats, Seen, map_verb_to_entity, keys_of, persist_calls, persist_to_neo4j, workflow_calls,
  submit_calls, updates_edge,
}
use febal_automation_script.Explorer.Persist.Returns.{expected, persist_to_neo4j-returns}

abbrev formats : Formats
formats = record {
  page_key = λ url. url;
  chain_json = λ chain. "[]";
  history_json = λ history. "[]";
  rules_json = λ rules. "[]";
}

abbrev seen : Seen
seen = record {
  run_id = "run";
  now = "monday";
  page_url = "http://shop/cart";
  title = "Cart";
  current_url = "";
  current_fingerprint = "f2";
  current_screenshot = none;
  pending_action = record { url = ""; label = "" };
  action_menu = record { label = "Checkout"; role = "button"; locator_chain = [] } ∷ [];
  chosen_index = some 0;
  step_number = 4;
  element_history = [];
  workflow_flag = some ("checkout", 2);
  workflow_chain = [];
  validation_submit_result = some record {
    form_id = "pay";
    errors = record { field = codes "name"; message = codes " required " } ∷ [];
  };
}

cart_verb :
    map_verb_to_entity "Add to Cart"
    ≡ some record { name = "Cart"; kind = "collection"; edge = updates_edge }
unfolding map_verb_to_entity is_part starts_with
cart_verb = refl

all_calls : length (persist_calls formats seen (keys_of formats seen)) ≡ 12
unfolding persist_calls keys_of workflow_calls submit_calls is_part starts_with strip
all_calls = refl

-- The same step without the flag.
abbrev unflagged : Seen
unflagged = record seen { workflow_flag = none }

persist_to_neo4j-returns_example :
    (persist_to_neo4j formats unflagged (record { nodes = []; edges = [] })).1
    ≡ expected formats unflagged none
persist_to_neo4j-returns_example =
    persist_to_neo4j-returns formats unflagged (record { nodes = []; edges = [] })
