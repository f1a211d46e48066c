-- ===== src/Kg/Writer.antt =====
-- apps/api/app/services/kg/writer.py, over the labels and edge types of kg/schema.py. A graph is
-- its nodes and its edges; each query text of the writer is written out as the clauses MERGE,
-- MATCH, ON CREATE SET, ON MATCH SET and SET that it consists of, with the meaning that Cypher
-- documents for them. A property set to null is removed.
pub mod Calls
pub mod Reads
pub mod Client
mod Tests
use Prim.Native.String.{String}
use text.Mathlib.Text.{◌==◌ as str_eq}
use febal_automation_script.Prelude.{
  ℕ, Bool, ◌&&◌, List, [], ◌∷◌, ◌++◌, Option, none, some, ◌==◌, if◌then◌else◌, Dict, lookup, insert,
}

-- A node by its label and the values its MERGE pattern names: a fingerprint, a key or a name, and
-- for a workflow its run too.
pub record NodeRef : Type 0 where
  pub label : String
  pub key : String
  pub scope : String

unfoldable pub same : NodeRef → NodeRef → Bool
same a b = str_eq a.label b.label && (str_eq a.key b.key && str_eq a.scope b.scope)

abbrev pub page : String → NodeRef
page fingerprint = record { label = "Page"; key = fingerprint; scope = "" }

abbrev pub button : String → NodeRef
button key = record { label = "Button"; key = key; scope = "" }

abbrev pub form : String → NodeRef
form key = record { label = "Form"; key = key; scope = "" }

abbrev pub workflow : String → String → NodeRef
workflow name run_id = record { label = "Workflow"; key = name; scope = run_id }

abbrev pub element : String → NodeRef
element key = record { label = "Element"; key = key; scope = "" }

abbrev pub business_entity : String → NodeRef
business_entity name = record { label = "BusinessEntity"; key = name; scope = "" }

-- An edge by the values its MERGE pattern names; `order` is what a STEP pattern names, 0 for the others.
pub record EdgeRef : Type 0 where
  pub source : NodeRef
  pub kind : String
  pub order : ℕ
  pub target : NodeRef

unfoldable pub same_edge : EdgeRef → EdgeRef → Bool
unfolding same
same_edge a b =
    same a.source b.source
    && (str_eq a.kind b.kind && (a.order == b.order && same a.target b.target))

abbrev pub Properties : Type 0
Properties = Dict String

-- One item of a SET clause.
abbrev pub Assignment : Type 0
Assignment = String × Option String

unfoldable pub unset : String → Properties → Properties
unset k [] = []
unset k ((j, v) ∷ d) = let rest = unset k d in if str_eq j k then rest else (j, v) ∷ rest

unfoldable pub assign : Assignment → Properties → Properties
unfolding unset insert
assign (k, some v) d = insert k v d
assign (k, none) d = unset k d

unfoldable pub assign_all : List Assignment → Properties → Properties
unfolding assign
assign_all [] d = d
assign_all (a ∷ l) d = assign_all l (assign a d)

pub record Graph : Type 0 where
  pub nodes : List (NodeRef × Properties)
  pub edges : List (EdgeRef × Properties)

-- The clauses, for any kind of item that is told apart by a test.
module _ {R : Type 0} (eq : R → R → Bool) where
  -- MATCH (first row)
  unfoldable pub find : R → List (R × Properties) → Option Properties
  find r [] = none
  find r ((q, p) ∷ l) = if eq q r then some p else find r l

  -- SET, of every row matched
  unfoldable pub set_matched :
      R → (Properties → Properties) → List (R × Properties) → List (R × Properties)
  set_matched r f [] = []
  set_matched r f ((q, p) ∷ l) = (q, if eq q r then f p else p) ∷ set_matched r f l

  merge_at :
      R
      → (Properties → Properties)
      → (Properties → Properties)
      → List (R × Properties)
      → Option Properties
      → List (R × Properties)
  unfolding set_matched
  merge_at r created matched l none = l ++ (r, created []) ∷ []
  merge_at r created matched l (some p) = set_matched r matched l

  -- MERGE ... ON CREATE SET ... ON MATCH SET ...
  unfoldable pub merge :
      R
      → (Properties → Properties)
      → (Properties → Properties)
      → List (R × Properties)
      → List (R × Properties)
  unfolding find merge_at
  merge r created matched l = merge_at r created matched l (find r l)

-- The record that a query returns: its count and what `_UPSERT_PAGE` reads back.
pub record Row : Type 0 where
  pub n : ℕ
  pub first_seen : Option String
  pub last_verified : Option String

pub data Outcome : Type 0 where
  returned : Row → Outcome
  raised : Outcome

-- `_write`: the transaction has committed when the count is read, so that the graph is the new
-- one on both branches.
unfoldable pub write : Graph × Row → Graph × Outcome
write (g, row) = (g, if row.n == 0 then raised else returned row)

-- `SET x.last_verified=coalesce(x.last_verified,$now)`
unfoldable pub coalesce_verified : String → Properties → Properties
unfolding lookup insert
coalesce_verified now d = elim (lookup "last_verified" d) [
  | none ↦ insert "last_verified" now d
  | some v ↦ insert "last_verified" v d
]

-- The node queries: one MERGE, with what ON CREATE sets besides `first_seen`, and what the last
-- SET sets besides `last_verified`.
pub record Upsert : Type 0 where
  pub target : NodeRef
  pub now : String
  pub on_create : List Assignment
  pub always : List Assignment

unfoldable pub created : Upsert → Properties → Properties
unfolding insert assign_all coalesce_verified
created u d =
    assign_all u.always
      (coalesce_verified u.now (assign_all u.on_create (insert "first_seen" u.now d)))

unfoldable pub matched : Upsert → Properties → Properties
unfolding insert assign_all coalesce_verified
matched u d = assign_all u.always (coalesce_verified u.now (insert "last_verified" u.now d))

abbrev pub with_nodes : Graph → List (NodeRef × Properties) → Graph
with_nodes g l = record g { nodes = l }

-- A MERGE on a node returns the node that it matched or made.
abbrev pub row_of : Option Properties → Row
unfolding lookup
row_of none = record { n = 0; first_seen = none; last_verified = none }
row_of (some p) = record {
  n = 1;
  first_seen = lookup "first_seen" p;
  last_verified = lookup "last_verified" p;
}

unfoldable pub run_upsert : Upsert → Graph → Graph × Row
unfolding same find merge created matched
run_upsert u g =
    let l = merge same u.target (created u) (matched u) g.nodes in
    (with_nodes g l, row_of (find same u.target l))

-- A query that returns only its count.
abbrev pub counted : Graph × Row → Graph × Row
counted (g, row) = (g, record row { first_seen = none; last_verified = none })

-- The edge queries between two matched nodes.
link_between :
    EdgeRef → List Assignment → Graph → Option Properties → Option Properties → Graph × Row
unfolding merge same_edge assign_all
link_between e sets g (some p) (some q) = (
  record g { edges = merge same_edge e (assign_all sets) (assign_all sets) g.edges },
  row_of (some []),
)
link_between e sets g none _ = (g, row_of none)
link_between e sets g (some p) none = (g, row_of none)

unfoldable pub run_link : EdgeRef → List Assignment → Graph → Graph × Row
unfolding same find link_between
run_link e sets g = link_between e sets g (find same e.source g.nodes) (find same e.target g.nodes)
