-- ===== src/Explorer/Persist.antt =====
-- The node of the crawl that writes the knowledge graph: `persist_to_neo4j` of
-- apps/api/app/services/explorer/nodes.py with `extract_validation_rules`, and `map_verb_to_entity`
-- of kg/schema.py. The lines for the progress feed in `out["events"]` are left out.
pub mod Returns
mod Tests
use Prim.Native.String.{String}
use febal_automation_script.Prelude.{
  ℕ, zero, suc, Bool, true, false, List, [], ◌∷◌, ◌++◌, map, Option, none, some, if◌then◌else◌,
  str_eq, Dict, lookup, insert, get_elem?,
}
use febal_automation_script.Prelude.Texts.{codes, lower, is_part, Text, strip}
use febal_automation_script.Prelude.Strings.{append, take_chars, or_string}
use febal_automation_script.Explorer.Locators.{LocatorEntry, Snapshot, merge_locator_history}
use febal_automation_script.Kg.Writer.{Graph, Outcome, raised, returned, Row}
use febal_automation_script.Kg.Writer.Client.{
  Call, page_seen, element_seen, form_seen, workflow_seen, entity_seen, navigates_to, has_element,
  has_form, submits, creates, updates, deletes, step, apply,
}

pub data Edge : Type 0 where
  creates_edge updates_edge deletes_edge : Edge

pub record Entity : Type 0 where
  pub name : String
  pub kind : String
  pub edge : Edge

abbrev cart : Entity
cart = record { name = "Cart"; kind = "collection"; edge = updates_edge }

abbrev order : Entity
order = record { name = "Order"; kind = "transaction"; edge = creates_edge }

abbrev product : Entity
product = record { name = "Product"; kind = "catalog_item"; edge = updates_edge }

unfoldable pub verb_entity_map : List (String × Entity)
verb_entity_map =
    ("add-to-cart", cart)
    ∷ ("add to cart", cart)
    ∷ ("remove", cart)
    ∷ ("checkout", order)
    ∷ ("finish", order)
    ∷ ("inventory", product)
    ∷ ("product", product)
    ∷ []

first_verb : Text → List (String × Entity) → Option Entity
first_verb text [] = none
first_verb text ((verb, entity) ∷ l) =
    if is_part (codes verb) text then some entity else first_verb text l

unfoldable pub map_verb_to_entity : String → Option Entity
unfolding first_verb verb_entity_map
map_verb_to_entity label = first_verb (lower (codes label)) verb_entity_map

-- One error that a form showed; a missing field reads as the empty text.
pub record FormError : Type 0 where
  pub field : Text
  pub message : Text

unfoldable pub extract_validation_rules : List FormError → List FormError
extract_validation_rules [] = []
extract_validation_rules (e ∷ errors) =
    let rest = extract_validation_rules errors in
    elim (strip e.message) [
      | [] ↦ rest
      | c ∷ s ↦ record { field = strip e.field; message = c ∷ s } ∷ rest
    ]

pub record SubmitResult : Type 0 where
  pub form_id : String
  pub errors : List FormError

-- What the node reads of one entry of the action menu.
pub record MenuItem : Type 0 where
  pub label : String
  pub role : String
  pub locator_chain : List LocatorEntry

-- `pending_action`; an absent one has empty texts.
pub record Pending : Type 0 where
  pub url : String
  pub label : String

pub record WorkflowStep : Type 0 where
  pub flow : String
  pub order : ℕ
  pub page_key : String

-- The state that the node reads, the clock and the title of the page among it.
pub record Seen : Type 0 where
  pub run_id : String
  pub now : String
  pub page_url : String
  pub title : String
  pub current_url : String
  pub current_fingerprint : String
  pub current_screenshot : Option String
  pub pending_action : Pending
  pub action_menu : List MenuItem
  pub chosen_index : Option ℕ
  pub step_number : ℕ
  pub element_history : Dict (List Snapshot)
  pub workflow_flag : Option (String × ℕ)
  pub workflow_chain : List WorkflowStep
  pub validation_submit_result : Option SubmitResult

-- What stands outside this file: `page_key` (explorer/actions.py) and `json.dumps`.
pub record Formats : Type 0 where
  pub page_key : String → String
  pub chain_json : List LocatorEntry → String
  pub history_json : List Snapshot → String
  pub rules_json : List FormError → String

abbrev no_item : MenuItem
no_item = record { label = ""; role = "element"; locator_chain = [] }

abbrev first_item : List MenuItem → MenuItem
first_item [] = no_item
first_item (m ∷ menu) = m

abbrev or_first : List MenuItem → Option MenuItem → MenuItem
or_first menu none = first_item menu
or_first menu (some m) = m

unfoldable pub chosen_item : List MenuItem → Option ℕ → MenuItem
chosen_item menu none = first_item menu
chosen_item menu (some i) = or_first menu (get_elem? menu i)

abbrev known_history : Option (List Snapshot) → List Snapshot
known_history none = []
known_history (some l) = l

-- The keys that one step computes.
pub record Keys : Type 0 where
  pub a_url : String
  pub a_key : String
  pub b_url : String
  pub b_key : String
  pub b_title : String
  pub el : MenuItem
  pub el_key : String
  pub merged : List Snapshot

abbrev target_key : Formats → String → String → String
target_key f a_key String.[] = a_key
target_key f a_key (String.◌∷◌ c s) = f.page_key (String.◌∷◌ c s)

unfoldable pub keys_of : Formats → Seen → Keys
unfolding chosen_item merge_locator_history lookup
keys_of f s =
    let a_url = or_string s.current_url s.page_url in
    let a_key = or_string s.current_fingerprint (f.page_key a_url) in
    let el : MenuItem = chosen_item s.action_menu s.chosen_index in
    let el_key =
      take_chars 300 (append a_key (append "#" (append el.role (append ":" el.label)))) in
    record {
      a_url = a_url;
      a_key = a_key;
      b_url = or_string s.pending_action.url a_url;
      b_key = target_key f a_key s.pending_action.url;
      b_title = or_string s.pending_action.label s.title;
      el = el;
      el_key = el_key;
      merged =
          merge_locator_history (known_history (lookup el_key s.element_history)) el.locator_chain
            s.step_number;
    }

workflow_calls : Seen → String → Option (String × ℕ) → List Call
workflow_calls s a_key none = []
workflow_calls s a_key (some (flow, n)) =
    workflow_seen flow s.run_id s.now ∷ step flow n a_key s.run_id ∷ []

-- `link_fn`
link_of : Edge → String → String → String → Call
link_of creates_edge form_key name run_id = creates form_key name run_id
link_of updates_edge form_key name run_id = updates form_key name run_id
link_of deletes_edge form_key name run_id = deletes form_key name run_id

entity_calls : Seen → String → Option Entity → List Call
unfolding link_of
entity_calls s form_key none = []
entity_calls s form_key (some e) =
    entity_seen e.name e.kind s.now ∷ link_of e.edge form_key e.name s.run_id ∷ []

form_calls : Formats → Seen → Keys → String → List FormError → List Call
unfolding map_verb_to_entity entity_calls
form_calls f s k form_id [] = []
form_calls f s k form_id (r ∷ rules) =
    let form_key = take_chars 300 (append k.a_key (append "#form:" form_id)) in
    form_seen form_key (f.rules_json (r ∷ rules)) s.run_id s.now
    ∷ has_form k.a_key form_key s.run_id
    ∷ submits k.a_key form_key s.run_id
    ∷ entity_calls s form_key (map_verb_to_entity k.el.label)

submit_calls : Formats → Seen → Keys → Option SubmitResult → List Call
unfolding extract_validation_rules form_calls
submit_calls f s k none = []
submit_calls f s k (some r) = form_calls f s k r.form_id (extract_validation_rules r.errors)

-- The calls of the writer, in their order.
unfoldable pub persist_calls : Formats → Seen → Keys → List Call
unfolding workflow_calls submit_calls
persist_calls f s k =
    page_seen k.a_key k.a_url s.title s.run_id s.current_screenshot s.now
    ∷ page_seen k.b_key k.b_url k.b_title s.run_id none s.now
    ∷ navigates_to k.a_key k.b_key k.el.label s.run_id
    ∷ element_seen k.el_key k.el.role k.el.label (f.chain_json k.el.locator_chain)
        (f.history_json k.merged) s.run_id s.now
    ∷ has_element k.a_key k.el_key s.run_id
    ∷ (workflow_calls s k.a_key s.workflow_flag ++ submit_calls f s k s.validation_submit_result)

-- Until one raises.
unfoldable pub run_until : List Call → Graph → Graph × Bool
unfolding apply
run_until [] g = (g, true)
run_until (c ∷ cs) g =
    let rest = run_until cs (apply c g).0 in
    elim (apply c g).1 [ raised ↦ ((apply c g).0, false) | returned row ↦ rest ]

pub record Persisted : Type 0 where
  pub last_from_key : String
  pub last_to_key : String
  pub element_history : Dict (List Snapshot)
  pub workflow_chain : List WorkflowStep

pub chain_with : Seen → String → Option (String × ℕ) → List WorkflowStep
chain_with s a_key none = s.workflow_chain
chain_with s a_key (some (flow, n)) =
    s.workflow_chain ++ record { flow = flow; order = n; page_key = a_key } ∷ []

-- `none` if a call of the writer raised.
unfoldable pub persist_to_neo4j : Formats → Seen → Graph → Graph × Option Persisted
unfolding keys_of persist_calls run_until chain_with insert
persist_to_neo4j f s g =
    let k : Keys = keys_of f s in
    let done : Graph × Bool = run_until (persist_calls f s k) g in
    (
      done.0,
      if done.1
          then some record {
            last_from_key = k.a_key;
            last_to_key = k.b_key;
            element_history = insert k.el_key k.merged s.element_history;
            workflow_chain = chain_with s k.a_key s.workflow_flag;
          }
          else none,
    )
