-- ===== src/Kg/Flows/Coverage.antt =====
-- No path is missed while fewer than two hundred flows are mined.
use febal_automation_script.Prelude.{
  ℕ, zero, suc, ◌+◌, ◌≤◌, ◌<◌, leb, String, ◌≡◌, refl, sym, ap, ◌∙◌, subst, Bool, true, false, ◌||◌,
  Bool-cases, inl, inr, List, [], ◌∷◌, ◌++◌, any, contains, length, length-append, map, str_eq,
  IsIn, IsIn-filter, here, there, arith, eq_refl,
}
use febal_automation_script.Kg.Flows.{
  Edge, Graph, Flow, Mined, max_flows, outgoing, entry_pages, is_subset, same_set, flow_of, emit,
  and_then, each, walk, nothing, mine_flows,
}
use febal_automation_script.Kg.Flows.Paths.{Trail, entry, hop, mine_flows-IsMined}

-- The path's set of pages was seen, or the flows are full.
is_done : Mined → List String → Bool
is_done m path = any (same_set path) m.seen_node_sets || leb max_flows (length m.flows)

is_subset-cons :
    (xs ys : List String) (y : String) → is_subset xs ys ≡ true → is_subset xs (y ∷ ys) ≡ true
is_subset-cons [] ys y h = refl
is_subset-cons (x ∷ xs) ys y h = ground (arith, is_subset-cons xs ys y, h)

is_subset_refl : (xs : List String) → is_subset xs xs ≡ true
is_subset_refl [] = refl
is_subset_refl (x ∷ xs) = ground (arith, eq_refl x, is_subset-cons xs xs x (is_subset_refl xs))

any-append :
    (p : List String → Bool) (xs ys : List (List String))
    → any p (xs ++ ys) ≡ (any p xs || any p ys)
any-append p [] ys = refl
any-append p (x ∷ xs) ys = ground (arith, any-append p xs ys)

-- A step that stops the enumeration leaves the flows full, and what was done stays done.
record IsStep (m : Mined) (r : Bool × Mined) : Type 0 where
  full : r.0 ≡ false → max_flows ≤ length r.1.flows
  grows : (path : List String) → is_done m path ≡ true → is_done r.1 path ≡ true

emit-IsStep : (path : List String) (edges : List Edge) (m : Mined) → IsStep m (emit path edges m)
unfolding emit is_done
emit-IsStep path edges m = elim (Bool-cases (leb max_flows (length m.flows))) [
  | inl e ↦ rw e (record { full = λ _. ground (arith, e); grows = λ p h. h })
  | inr e ↦ rw e (elim (Bool-cases (any (same_set path) m.seen_node_sets)) [
    | inl s ↦ rw s (record { full = λ q. absurd cc; grows = λ p h. h })
    | inr s ↦ rw s (record {
      full = λ q. absurd cc;
      grows = λ p h. ground (
        arith,
        h,
        any-append (same_set p) m.seen_node_sets (path ∷ []),
        length-append m.flows (flow_of path edges ∷ []),
      );
    })
  ])
]

emit-done :
    (path : List String) (edges : List Edge) (m : Mined) → is_done (emit path edges m).1 path ≡ true
unfolding emit is_done
emit-done path edges m = elim (Bool-cases (leb max_flows (length m.flows))) [
  | inl e ↦ rw e (ground (arith, e))
  | inr e ↦ rw e (elim (Bool-cases (any (same_set path) m.seen_node_sets)) [
    | inl s ↦ rw s (ground (arith, s))
    | inr s ↦ rw s (
        ground
          (arith, any-append (same_set path) m.seen_node_sets (path ∷ []), is_subset_refl path))
  ])
]

and_then-IsStep :
    (m : Mined) (rest : Mined → Bool × Mined) (r : Bool × Mined)
    → IsStep m r
    → ((t : Mined) → IsStep t (rest t))
    → IsStep m (and_then rest r)
unfolding and_then
and_then-IsStep m rest (false, t) h k = h
and_then-IsStep m rest (true, t) h k = record {
  full = (k t).full;
  grows = λ p d. (k t).grows p (h.grows p d);
}

-- What the first part has done or what the second does is done after both.
and_then-first :
    (m : Mined) (rest : Mined → Bool × Mined) (r : Bool × Mined) (path : List String)
    → ((t : Mined) → IsStep t (rest t))
    → is_done r.1 path ≡ true
    → is_done (and_then rest r).1 path ≡ true
unfolding and_then
and_then-first m rest (false, t) path k d = d
and_then-first m rest (true, t) path k d = (k t).grows path d

and_then-second :
    (m : Mined) (rest : Mined → Bool × Mined) (r : Bool × Mined) (path : List String)
    → IsStep m r
    → ((t : Mined) → is_done (rest t).1 path ≡ true)
    → is_done (and_then rest r).1 path ≡ true
unfolding and_then is_done
and_then-second m rest (false, t) path h k = ground (arith, h.full refl)
and_then-second m rest (true, t) path h k = k t

module _ {A : Type 0} (f : A → Mined → Bool × Mined)
    (steps : (a : A) (m : Mined) → IsStep m (f a m)) where
  each-IsStep : (xs : List A) (m : Mined) → IsStep m (each f xs m)
  unfolding each
  each-IsStep [] m = record { full = λ q. absurd cc; grows = λ p d. d }
  each-IsStep (x ∷ xs) m = and_then-IsStep m (each f xs) (f x m) (steps x m) (λ t. each-IsStep xs t)

  -- What one element of the list does in whatever state is done after all.
  each-done :
      (a : A) (path : List String)
      → ((t : Mined) → is_done (f a t).1 path ≡ true)
      → (xs : List A) → IsIn a xs
      → (m : Mined) → is_done (each f xs m).1 path ≡ true
  unfolding each
  each-done a path d [] i m = elim i [ ]
  each-done a path d (x ∷ xs) (here e) m =
      and_then-first m (each f xs) (f x m) path (λ t. each-IsStep xs t)
        (subst (λ y. is_done (f y m).1 path ≡ true) (sym e) (d m))
  each-done a path d (x ∷ xs) (there i) m =
      and_then-second m (each f xs) (f x m) path (steps x m) (λ t. each-done a path d xs i t)

skip-IsStep :
    (b : Bool) (m : Mined) (r : Bool × Mined)
    → IsStep m r
    → IsStep m (elim b as (λ x. Bool × Mined) [ true ↦ (true, m) | false ↦ r ])
skip-IsStep true m r h = record { full = λ q. absurd cc; grows = λ p d. d }
skip-IsStep false m r h = h

mark-IsStep : (m : Mined) → IsStep m (true, record m { bounded = true })
unfolding is_done
mark-IsStep m = record { full = λ q. absurd cc; grows = λ p d. d }

walk-IsStep :
    (graph : Graph) (left : ℕ) (node : String) (path : List String) (edges : List Edge) (m : Mined)
    → IsStep m (walk graph left node path edges m)
unfolding walk
walk-IsStep graph zero node path edges m =
    and_then-IsStep m _ (emit path edges m) (emit-IsStep path edges m) mark-IsStep
walk-IsStep graph (suc left) node path edges m =
    and_then-IsStep m _ (emit path edges m) (emit-IsStep path edges m) (λ t.
      each-IsStep _
        (λ e s.
          skip-IsStep (contains path e.to) s _
            (walk-IsStep graph left e.to (path ++ e.to ∷ []) (edges ++ e ∷ []) s))
        (outgoing graph node) t)

-- From a path and its last page, edges to pages that are not on it lead to the path `to`.
data Reaches (graph : Graph) (to : List String) : List String → String → Type 0 where
  there_yet : (n : String) → Reaches graph to to n
  go :
      (path : List String) (n : String) (e : Edge)
      → IsIn e graph.edges
      → str_eq e.from n ≡ true
      → contains path e.to ≡ false
      → Reaches graph to (path ++ e.to ∷ []) e.to
      → Reaches graph to path n

Reaches-length :
    (graph : Graph) (to path : List String) (n : String)
    → Reaches graph to path n
    → length path ≤ length to
Reaches-length graph to _ _ (there_yet n) = omega arith
Reaches-length graph to _ _ (go path n e i f c r) =
    omega
      (arith, Reaches-length graph to (path ++ e.to ∷ []) e.to r, length-append path (e.to ∷ []))

from_entry :
    (graph : Graph) (to path : List String) (edges : List Edge) (n : String)
    → Trail graph path edges n
    → Reaches graph to path n
    → (s : String) × IsIn s (entry_pages graph) × Reaches graph to (s ∷ []) s
from_entry graph to _ _ _ (entry n h) r = (n, h, r)
from_entry graph to _ _ _ (hop path edges n e t m f c) r =
    from_entry graph to path edges n t (go path n e m f c r)

skip-done :
    (b : Bool) (t : Mined) (r : Bool × Mined) (to : List String)
    → b ≡ false
    → is_done r.1 to ≡ true
    → is_done (elim b as (λ x. Bool × Mined) [ true ↦ (true, t) | false ↦ r ]).1 to ≡ true
skip-done true t r to h d = absurd cc
skip-done false t r to h d = d

walk-Reaches :
    (graph : Graph) (left : ℕ) (node : String) (path : List String) (edges : List Edge)
    (to : List String)
    → Reaches graph to path node
    → length path + left ≡ 8
    → length to ≤ 8
    → (m : Mined) → is_done (walk graph left node path edges m).1 to ≡ true
unfolding walk
walk-Reaches graph zero node _ edges to (there_yet n) l k m =
    and_then-first m _ (emit to edges m) to mark-IsStep (emit-done to edges m)
walk-Reaches graph zero node _ edges to (go path n e i f c r) l k m = absurd (
    omega
      (arith, Reaches-length graph to (path ++ e.to ∷ []) e.to r, length-append path (e.to ∷ [])))
walk-Reaches graph (suc left) node _ edges to (there_yet n) l k m =
    and_then-first m _ (emit to edges m) to
      (λ t.
        each-IsStep _
          (λ e s.
            skip-IsStep (contains to e.to) s _
              (walk-IsStep graph left e.to (to ++ e.to ∷ []) (edges ++ e ∷ []) s))
          (outgoing graph node) t)
      (emit-done to edges m)
walk-Reaches graph (suc left) node _ edges to (go path n e i f c r) l k m =
    and_then-second m _ (emit path edges m) to (emit-IsStep path edges m) (
      each-done _
        (λ d s.
          skip-IsStep (contains path d.to) s _
            (walk-IsStep graph left d.to (path ++ d.to ∷ []) (edges ++ d ∷ []) s))
        e to
        (λ s. skip-done (contains path e.to) s _ to c (
          walk-Reaches graph left e.to (path ++ e.to ∷ []) (edges ++ e ∷ []) to r
            (omega (arith, length-append path (e.to ∷ []))) k s))
        (outgoing graph node) (IsIn-filter (λ d. str_eq d.from node) e graph.edges i f))

any-map :
    (p : List String → Bool) (fs : List Flow)
    → any p (map (λ f. f.node_fps) fs) ≡ any (λ f. p f.node_fps) fs
any-map p [] = refl
any-map p (f ∷ fs) = ap (λ b. p f.node_fps || b) (any-map p fs)

-- While fewer than 200 flows are mined, every path from an entry page that visits no page twice and
-- has at most eight pages is covered: a mined flow visits the same set of pages.
pub mine_flows-covers :
    (graph : Graph) (path : List String) (edges : List Edge) (n : String)
    → Trail graph path edges n
    → length path ≤ 8
    → length (mine_flows graph).flows < 200
    → any (λ f. same_set path f.node_fps) (mine_flows graph).flows ≡ true
unfolding mine_flows is_done
mine_flows-covers graph path edges n t l few =
    let (s, i, r) = from_entry graph path path edges n t (there_yet n) in
    let done =
      each-done (λ e. walk graph 7 e (e ∷ []) []) (λ e m. walk-IsStep graph 7 e (e ∷ []) [] m) s
        path (walk-Reaches graph 7 s (s ∷ []) [] path r refl l) (entry_pages graph) i nothing in
    sym (any-map (same_set path) (mine_flows graph).flows)
    ∙ (ap (λ l. any (same_set path) l) (mine_flows-IsMined graph).2 ∙ ground (arith, done, few))
