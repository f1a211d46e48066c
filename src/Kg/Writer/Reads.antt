-- ===== src/Kg/Writer/Reads.antt =====
-- What a MATCH sees after the clauses MERGE and SET of a query.
use febal_automation_script.Prelude.{
  ◌≡◌, refl, ◌↔◌, Bool, true, List, [], ◌∷◌, ◌++◌, Option, none, some, arith, String, str_eq,
  eq_iff, if◌then◌else◌, Option-cases, inl, inr, lookup, lookup-insert,
}
use febal_automation_script.Kg.Writer.{
  NodeRef, EdgeRef, same, same_edge, Properties, find, set_matched, merge, merge_at, unset, assign,
}

pub same_iff : (a b : NodeRef) → (same a b ≡ true) ↔ (a ≡ b)
unfolding same
same_iff a b = (
  λ h. ground (arith, eq_iff a.label b.label, eq_iff a.key b.key, eq_iff a.scope b.scope),
  λ e. ground (arith, eq_iff a.label b.label, eq_iff a.key b.key, eq_iff a.scope b.scope),
)

pub same_edge_iff : (a b : EdgeRef) → (same_edge a b ≡ true) ↔ (a ≡ b)
unfolding same_edge
same_edge_iff a b = (
  λ h. ground (arith, same_iff a.source b.source, eq_iff a.kind b.kind, same_iff a.target b.target),
  λ e. ground (arith, same_iff a.source b.source, eq_iff a.kind b.kind, same_iff a.target b.target),
)

-- What a MERGE leaves on the item it names.
abbrev pub merged :
    (Properties → Properties) → (Properties → Properties) → Option Properties → Properties
merged created matched none = created []
merged created matched (some p) = matched p

abbrev pub on_some : (Properties → Properties) → Option Properties → Option Properties
on_some f none = none
on_some f (some p) = some (f p)

module _ {R : Type 0} (eq : R → R → Bool) (iff : (a b : R) → (eq a b ≡ true) ↔ (a ≡ b)) where
  pub find-set_matched :
      (q r : R) (f : Properties → Properties) (l : List (R × Properties))
      → find eq r (set_matched eq q f l) ≡ (if eq q r then on_some f (find eq r l) else find eq r l)
  unfolding find set_matched
  find-set_matched q r f [] = ground arith
  find-set_matched q r f ((j, p) ∷ l) =
      ground (arith, iff j q, iff j r, iff q r, find-set_matched q r f l)

  pub find-snoc :
      (q r : R) (p : Properties) (l : List (R × Properties))
      → find eq q l ≡ none
      → find eq r (l ++ (q, p) ∷ []) ≡ (if eq q r then some p else find eq r l)
  unfolding find
  find-snoc q r p [] h = refl
  find-snoc q r p ((j, w) ∷ l) h = ground (arith, iff j q, iff j r, iff q r, find-snoc q r p l)

  pub find-merge :
      (q r : R) (c m : Properties → Properties) (l : List (R × Properties))
      → find eq r (merge eq q c m l)
        ≡ (if eq q r then some (merged c m (find eq q l)) else find eq r l)
  unfolding merge merge_at
  find-merge q r c m l = elim (Option-cases (find eq q l)) [
    | inl h ↦ rw h (find-snoc q r (c []) l h)
    | inr (p, h) ↦ rw h (ground (arith, iff q r, find-set_matched q r m l))
  ]

pub lookup-unset :
    (k j : String) (d : Properties)
    → lookup j (unset k d) ≡ (if str_eq k j then none else lookup j d)
unfolding lookup unset
lookup-unset k j [] = ground arith
lookup-unset k j ((i, w) ∷ d) =
    ground (arith, eq_iff k j, eq_iff i k, eq_iff i j, lookup-unset k j d)

pub lookup-assign :
    (k j : String) (v : Option String) (d : Properties)
    → lookup j (assign (k, v) d) ≡ (if str_eq k j then v else lookup j d)
unfolding assign
lookup-assign k j none d = lookup-unset k j d
lookup-assign k j (some v) d = lookup-insert k j v d
