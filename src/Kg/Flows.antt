-- ===== src/Kg/Flows.antt =====
-- The mining of flows and their signals: services/kg/flows.py, layers 1 and 2. A set of node
-- fingerprints is a list, compared as a set.
pub mod Paths
pub mod Coverage
use febal_automation_script.Prelude.{
  ℕ, zero, suc, ◌+◌, ◌-◌, leb, String, ◌≡◌, Bool, true, false, ◌&&◌, ◌||◌, Option, none, some, List,
  [], ◌∷◌, ◌++◌, any, count, filter, contains, length, map, lookup, not, str_eq, if◌then◌else◌,
  Dict,
}
use febal_automation_script.Prelude.Texts.{Text}
use febal_automation_script.Explorer.Risk.{is_destructive}
use febal_automation_script.Kg.Risk.{Signals}

-- The type of an edge between two pages.
pub data EdgeType : Type 0 where
  navigates_to submits creates updates deletes : EdgeType
  other : String → EdgeType

-- `via` is empty where the edge has none.
pub record Edge : Type 0 where
  pub from : String
  pub to : String
  pub edge_type : EdgeType
  pub via : Text

pub record Node : Type 0 where
  pub label : Text
  pub auth_gated : Bool
  pub form : Bool

pub record Graph : Type 0 where
  pub nodes : List (String × Node)
  pub edges : List Edge

pub record Flow : Type 0 where
  pub node_fps : List String
  pub edge_types : List EdgeType
  pub via : List Text

abbrev pub max_path_length : ℕ
max_path_length = 8

abbrev pub max_flows : ℕ
max_flows = 200

-- `adj.get(node, [])`
abbrev pub outgoing : Graph → String → List Edge
outgoing graph node = filter (λ e. str_eq e.from node) graph.edges

abbrev pub is_traversal : EdgeType → Bool
is_traversal navigates_to = true
is_traversal submits = true
is_traversal _ = false

abbrev pub has_inbound : Graph → String → Bool
has_inbound graph fp = any (λ e. is_traversal e.edge_type && str_eq e.to fp) graph.edges

or_all : List String → List String → List String
or_all [] all = all
or_all (e ∷ entries) all = e ∷ entries

unfoldable pub entry_pages : Graph → List String
unfolding or_all
entry_pages graph =
    let fps = map (λ n. n.0) graph.nodes in
    or_all (filter (λ fp. not (has_inbound graph fp)) fps) fps

-- What the enumeration collects: the flows, the node sets seen, and whether something was cut.
pub record Mined : Type 0 where
  pub flows : List Flow
  pub seen_node_sets : List (List String)
  pub bounded : Bool

abbrev pub is_subset : List String → List String → Bool
is_subset [] ys = true
is_subset (x ∷ xs) ys = contains ys x && is_subset xs ys

-- `frozenset(xs) == frozenset(ys)`
abbrev pub same_set : List String → List String → Bool
same_set xs ys = is_subset xs ys && is_subset ys xs

abbrev pub flow_of : List String → List Edge → Flow
flow_of path edges = record {
  node_fps = path;
  edge_types = map (λ e. e.edge_type) edges;
  via = map (λ e. e.via) edges;
}

-- A step of the enumeration tells whether to go on.
unfoldable pub emit : List String → List Edge → Mined → Bool × Mined
emit path edges m =
    if leb max_flows (length m.flows)
    then (false, record m { bounded = true })
    else if any (same_set path) m.seen_node_sets
    then (true, m)
    else (
      true,
      record m {
        flows = m.flows ++ flow_of path edges ∷ [];
        seen_node_sets = m.seen_node_sets ++ path ∷ [];
      },
    )

unfoldable pub and_then : (Mined → Bool × Mined) → Bool × Mined → Bool × Mined
and_then rest (false, m) = (false, m)
and_then rest (true, m) = rest m

unfoldable pub each {ℓ} : {A : Type ℓ} → (A → Mined → Bool × Mined) → List A → Mined → Bool × Mined
each f [] m = (true, m)
each f (a ∷ rest) m = and_then (each f rest) (f a m)

-- `left` is by how many nodes the path is shorter than `max_path_length`.
unfoldable pub walk : Graph → ℕ → String → List String → List Edge → Mined → Bool × Mined
walk graph zero node path edges m =
    and_then (λ t. (true, record t { bounded = true })) (emit path edges m)
walk graph (suc left) node path edges m =
    and_then
      (each
        (λ e t. elim (contains path e.to) [
          | true ↦ (true, t)
          | false ↦ walk graph left e.to (path ++ e.to ∷ []) (edges ++ e ∷ []) t
        ])
        (outgoing graph node))
      (emit path edges m)

abbrev pub nothing : Mined
nothing = record { flows = []; seen_node_sets = []; bounded = false }

unfoldable pub mine_flows : Graph → Mined
mine_flows graph =
    (each (λ entry. walk graph (max_path_length - 1) entry (entry ∷ []) []) (entry_pages graph)
      nothing).1

is_state_change : EdgeType → Bool
is_state_change submits = true
is_state_change creates = true
is_state_change updates = true
is_state_change deletes = true
is_state_change _ = false

label_of : Option Node → Text
label_of none = []
label_of (some n) = n.label

is_auth_gated : Option Node → Bool
is_auth_gated none = false
is_auth_gated (some n) = n.auth_gated

has_form : Option Node → Bool
has_form none = false
has_form (some n) = n.form

unfoldable pub extract_signals : Flow → Graph → Signals
unfolding label_of is_auth_gated has_form is_state_change
extract_signals path graph = record {
  has_destructive =
      any (λ fp. is_destructive (label_of (lookup fp graph.nodes)) [] false) path.node_fps;
  state_change_edges = count is_state_change path.edge_types;
  auth_gated_steps = count (λ fp. is_auth_gated (lookup fp graph.nodes)) path.node_fps;
  form_count = count (λ fp. has_form (lookup fp graph.nodes)) path.node_fps;
  path_length = length path.node_fps;
}
