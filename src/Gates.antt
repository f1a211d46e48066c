-- ===== src/Gates.antt =====
-- The gate against vacuous assertions: apps/api/app/services/gates/assertion_gate.py, its existence
-- queries over the graph that kg/writer.py keeps.
pub mod Backed
pub mod Written
mod Tests
use febal_automation_script.Prelude.{
  String, str_eq, Bool, true, false, not, ◌&&◌, ◌||◌, List, [], ◌∷◌, ◌++◌, Option, none, some, any,
  contains, lookup, if◌then◌else◌,
}
use febal_automation_script.Kg.Writer.{NodeRef, EdgeRef, Properties, Graph}

abbrev pub allowed_edge_types : List String
allowed_edge_types = "Creates" ∷ "Updates" ∷ "Deletes" ∷ []

-- One annotation of a Then step, its missing values `none`; a `ref` of another shape has none.
pub record ThenRef : Type 0 where
  pub then_text : String
  pub kind : Option String
  pub edge_type : Option String
  pub entity : Option String
  pub element_key : Option String
  pub page_fingerprint : Option String
  pub page_url : Option String

-- The queries that are sent.
pub data Query : Type 0 where
  edge_exists : String → String → Query
  element_exists : String → Query
  page_exists : Option String → Option String → Query

-- A comparison with null is not true.
abbrev pub equals : Option String → Option String → Bool
equals (some a) (some b) = str_eq a b
equals none b = false
equals (some a) none = false

abbrev is_source : NodeRef → Bool
is_source r = str_eq r.label "Page" || (str_eq r.label "Form" || str_eq r.label "Workflow")

-- The MATCH of each query, for its count to be above 0.
unfoldable pub answers : Query → Graph → Bool
unfolding lookup
answers (edge_exists edge_type entity) g =
    any
      (λ e.
        is_source e.0.source
        && (str_eq e.0.kind edge_type
            && (str_eq e.0.target.label "BusinessEntity" && str_eq e.0.target.key entity)))
      g.edges
answers (element_exists key) g =
    any
      (λ e.
        str_eq e.0.source.label "Page"
        && (str_eq e.0.kind "HAS_ELEMENT"
            && (str_eq e.0.target.label "Element" && str_eq e.0.target.key key)))
      g.edges
answers (page_exists fingerprint url) g =
    any
      (λ n.
        str_eq n.0.label "Page"
        && (equals (some n.0.key) fingerprint || equals (lookup "url" n.1) url))
      g.nodes

-- Python's truth of an optional text.
abbrev pub is_given : Option String → Bool
is_given none = false
is_given (some String.[]) = false
is_given (some (String.◌∷◌ c s)) = true

abbrev text_of : Option String → String
text_of none = ""
text_of (some s) = s

abbrev is_allowed : Option String → Bool
is_allowed none = false
is_allowed (some t) = contains allowed_edge_types t

-- The query for an entry, if it has one.
unfoldable pub query_for : ThenRef → String → Option Query
query_for e kind =
    if str_eq kind "edge"
    then (if is_allowed e.edge_type && is_given e.entity
        then some (edge_exists (text_of e.edge_type) (text_of e.entity))
        else none)
    else if str_eq kind "element"
    then (if is_given e.element_key then some (element_exists (text_of e.element_key)) else none)
    else if str_eq kind "page"
    then (if is_given e.page_fingerprint || is_given e.page_url
        then some (page_exists e.page_fingerprint e.page_url)
        else none)
    else none

unfoldable pub query_of : ThenRef → Option String → Option Query
unfolding query_for
query_of e none = none
query_of e (some kind) = query_for e kind

-- The texts that resolve to nothing, and the queries sent, both in order.
pub record Resolved : Type 0 where
  pub unresolved : List String
  pub queries : List Query

unfoldable pub resolve_entry : Graph → ThenRef → Option Query → Resolved → Resolved
unfolding answers
resolve_entry g e none r = record r { unresolved = e.then_text ∷ r.unresolved }
resolve_entry g e (some q) r = record {
  unresolved = if answers q g then r.unresolved else e.then_text ∷ r.unresolved;
  queries = q ∷ r.queries;
}

unfoldable pub resolve_then_refs : Graph → List ThenRef → Resolved
unfolding query_of resolve_entry
resolve_then_refs g [] = record { unresolved = []; queries = [] }
resolve_then_refs g (e ∷ entries) =
    resolve_entry g e (query_of e e.kind) (resolve_then_refs g entries)

abbrev pub is_empty {ℓ} : {A : Type ℓ} → List A → Bool
is_empty [] = true
is_empty (x ∷ xs) = false

-- `false` for the GenerationError.
unfoldable pub assert_non_vacuous : Graph → List ThenRef → Bool
unfolding resolve_then_refs
assert_non_vacuous g [] = false
assert_non_vacuous g (e ∷ entries) = is_empty (resolve_then_refs g (e ∷ entries)).unresolved
