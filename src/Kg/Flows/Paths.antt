-- ===== src/Kg/Flows/Paths.antt =====
-- Every mined flow is a simple path of the graph.
use febal_automation_script.Prelude.{
  ℕ, zero, suc, ◌+◌, ◌≤◌, leb, String, ◌≡◌, refl, ap, Bool, true, false, Bool-cases, inl, inr, List,
  [], ◌∷◌, ◌++◌, any, contains, length, length-append, map, str_eq, All, All-append, All-map,
  All-filter, IsIn, here, there, IsUnique, IsUnique-snoc, arith,
}
use febal_automation_script.Kg.Flows.{
  Edge, Graph, Flow, Mined, max_path_length, max_flows, outgoing, entry_pages, same_set, flow_of,
  emit, and_then, each, walk, nothing, mine_flows,
}

-- A path from an entry page along edges of the graph that visits no page twice: its pages, its
-- edges and its last page.
pub data Trail (graph : Graph) : List String → List Edge → String → Type 0 where
  entry : (n : String) → IsIn n (entry_pages graph) → Trail graph (n ∷ []) [] n
  hop :
      (path : List String) (edges : List Edge) (n : String) (e : Edge)
      → Trail graph path edges n
      → IsIn e graph.edges
      → str_eq e.from n ≡ true
      → contains path e.to ≡ false
      → Trail graph (path ++ e.to ∷ []) (edges ++ e ∷ []) e.to

Trail-IsUnique :
    (graph : Graph) (path : List String) (edges : List Edge) (n : String)
    → Trail graph path edges n
    → IsUnique path
Trail-IsUnique graph _ _ _ (entry n h) = (refl, tt)
Trail-IsUnique graph _ _ _ (hop path edges n e t m f c) =
    IsUnique-snoc path e.to (Trail-IsUnique graph path edges n t) c

-- What a flow records of a trail of at most eight pages.
abbrev pub IsFlow : Graph → Flow → Type 0
IsFlow graph f =
    (edges : List Edge) × (n : String) × Trail graph f.node_fps edges n
    × IsUnique f.node_fps
    × (length f.node_fps ≤ max_path_length)
    × (f ≡ flow_of f.node_fps edges)

-- No two of the node sets are the same set.
abbrev pub AreDistinct : List (List String) → Type 0
AreDistinct [] = Unit
AreDistinct (x ∷ xs) = All (λ y. same_set y x ≡ false) xs × AreDistinct xs

abbrev pub IsMined : Graph → Mined → Type 0
IsMined graph m =
    All (IsFlow graph) m.flows
    × (length m.flows ≤ max_flows)
    × (map (λ f. f.node_fps) m.flows ≡ m.seen_node_sets)
    × AreDistinct m.seen_node_sets

AreDistinct-snoc :
    (xs : List (List String)) (p : List String)
    → AreDistinct xs
    → any (same_set p) xs ≡ false
    → AreDistinct (xs ++ p ∷ [])
AreDistinct-snoc [] p d h = (tt, tt)
AreDistinct-snoc (x ∷ xs) p d h = (
  All-append (λ y. same_set y x ≡ false) xs (p ∷ []) d.0 (ground arith, tt),
  AreDistinct-snoc xs p d.1 (ground arith),
)

fps-snoc :
    (fs : List Flow) (f : Flow)
    → map (λ g. g.node_fps) (fs ++ f ∷ []) ≡ map (λ g. g.node_fps) fs ++ f.node_fps ∷ []
fps-snoc [] f = refl
fps-snoc (g ∷ fs) f = ap (λ l. g.node_fps ∷ l) (fps-snoc fs f)

emit-IsMined :
    (graph : Graph) (path : List String) (edges : List Edge) (m : Mined)
    → IsFlow graph (flow_of path edges)
    → IsMined graph m
    → IsMined graph (emit path edges m).1
unfolding emit
emit-IsMined graph path edges m f h = elim (Bool-cases (leb max_flows (length m.flows))) [
  | inl e ↦ rw e h
  | inr e ↦ rw e (elim (Bool-cases (any (same_set path) m.seen_node_sets)) [
    | inl s ↦ rw s h
    | inr s ↦ rw s (
      All-append (IsFlow graph) m.flows (flow_of path edges ∷ []) h.0 (f, tt),
      ground (arith, length-append m.flows (flow_of path edges ∷ [])),
      rw (fps-snoc m.flows (flow_of path edges), h.2) refl,
      AreDistinct-snoc m.seen_node_sets path h.3 s,
    )
  ])
]

-- What each step keeps, the whole sequence keeps.
and_then-keeps :
    (P : Mined → Type 0) (rest : Mined → Bool × Mined) (r : Bool × Mined)
    → ((m : Mined) → P m → P (rest m).1)
    → P r.1
    → P (and_then rest r).1
unfolding and_then
and_then-keeps P rest (false, m) k h = h
and_then-keeps P rest (true, m) k h = k m h

each-keeps {ℓ} :
    {A : Type ℓ} (P : Mined → Type 0) (Q : A → Type ℓ) (f : A → Mined → Bool × Mined) (xs : List A)
    → ((a : A) (m : Mined) → Q a → P m → P (f a m).1)
    → (m : Mined) → All Q xs
    → P m
    → P (each f xs m).1
unfolding each
each-keeps P Q f [] k m q h = h
each-keeps P Q f (a ∷ rest) k m q h =
    and_then-keeps P (each f rest) (f a m) (λ t p. each-keeps P Q f rest k t q.1 p) (k a m q.0 h)

skip-keeps :
    (P : Mined → Type 0) (b : Bool) (t : Mined) (r : Bool × Mined)
    → (b ≡ false → P r.1)
    → P t
    → P (elim b as (λ x. Bool × Mined) [ true ↦ (true, t) | false ↦ r ]).1
skip-keeps P true t r k h = h
skip-keeps P false t r k h = k refl

IsFlow-of :
    (graph : Graph) (path : List String) (edges : List Edge) (n : String)
    → Trail graph path edges n
    → length path ≤ max_path_length
    → IsFlow graph (flow_of path edges)
IsFlow-of graph path edges n t l = (edges, n, t, Trail-IsUnique graph path edges n t, l, refl)

walk-IsMined :
    (graph : Graph) (left : ℕ) (node : String) (path : List String) (edges : List Edge) (m : Mined)
    → Trail graph path edges node
    → length path + left ≡ 8
    → IsMined graph m
    → IsMined graph (walk graph left node path edges m).1
unfolding walk
walk-IsMined graph zero node path edges m t l h =
    and_then-keeps (IsMined graph) _ (emit path edges m) (λ m' h'. h')
      (emit-IsMined graph path edges m (IsFlow-of graph path edges node t (omega arith)) h)
walk-IsMined graph (suc left) node path edges m t l h =
    and_then-keeps (IsMined graph) _ (emit path edges m)
      (λ m' h'.
        each-keeps (IsMined graph) (λ e. IsIn e graph.edges × (str_eq e.from node ≡ true)) _
          (outgoing graph node)
          (λ e s q p.
            skip-keeps (IsMined graph) (contains path e.to) s
              (walk graph left e.to (path ++ e.to ∷ []) (edges ++ e ∷ []) s)
              (λ c.
                walk-IsMined graph left e.to (path ++ e.to ∷ []) (edges ++ e ∷ []) s
                  (hop path edges node e t q.0 q.1 c)
                  (omega (arith, length-append path (e.to ∷ []))) p)
              p)
          m' (All-filter (λ e. str_eq e.from node) graph.edges) h')
      (emit-IsMined graph path edges m (IsFlow-of graph path edges node t (omega arith)) h)

All-IsIn : {A : Type 0} (xs : List A) → All (λ x. IsIn x xs) xs
All-IsIn [] = tt
All-IsIn (x ∷ xs) = (here refl, All-map (λ y m. there m) xs (All-IsIn xs))

-- Each mined flow is a path of the graph from an entry page that visits no page twice and has at most
-- eight pages, recorded with its edges' types; there are at most 200, and no two of them visit the
-- same set of pages.
pub mine_flows-IsMined : (graph : Graph) → IsMined graph (mine_flows graph)
unfolding mine_flows
mine_flows-IsMined graph =
    each-keeps (IsMined graph) (λ n. IsIn n (entry_pages graph)) _ (entry_pages graph)
      (λ n m q p. walk-IsMined graph 7 n (n ∷ []) [] m (entry n q) refl p) nothing
      (All-IsIn (entry_pages graph)) (tt, omega arith, refl, tt)
