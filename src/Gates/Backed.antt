-- ===== src/Gates/Backed.antt =====
-- What passes the gate of apps/api/app/services/gates/assertion_gate.py, and what it asks the graph.
use febal_automation_script.Prelude.{
  String, str_eq, eq_iff, Bool, true, false, not, ◌&&◌, ◌||◌, ◌≡◌, refl, ◌∙◌, List, [], ◌∷◌, Option,
  none, some, contains, arith, All, if◌then◌else◌, Bool-cases, inl, inr, subst, sym, ap, any,
  lookup, WhenSome, and-true,
}
use febal_automation_script.Kg.Writer.{Graph, NodeRef, EdgeRef, Properties}
use febal_automation_script.Gates.{
  ThenRef, Query, edge_exists, element_exists, page_exists, answers, query_for, query_of, Resolved,
  resolve_entry, resolve_then_refs, assert_non_vacuous, is_empty, allowed_edge_types, is_given,
  is_allowed, text_of, equals,
}

-- The annotation gives this value.
abbrev pub says : Option String → String → Bool
says none s = false
says (some t) s = str_eq s t

abbrev pub is_filled : String → Bool
is_filled String.[] = false
is_filled (String.◌∷◌ c s) = true

-- An outcome edge of the graph of the annotated type, on the annotated entity.
abbrev pub edge_backs : Option String → Option String → EdgeRef × Properties → Bool
edge_backs edge_type entity x =
    contains ("Creates" ∷ "Updates" ∷ "Deletes" ∷ []) x.0.kind
    && (says edge_type x.0.kind
        && ((str_eq x.0.source.label "Page"
              || (str_eq x.0.source.label "Form" || str_eq x.0.source.label "Workflow"))
            && (str_eq x.0.target.label "BusinessEntity"
                && (is_filled x.0.target.key && says entity x.0.target.key))))

-- The edge from a page to the annotated element.
abbrev pub element_backs : Option String → EdgeRef × Properties → Bool
element_backs element_key x =
    str_eq x.0.source.label "Page"
    && (str_eq x.0.kind "HAS_ELEMENT"
        && (str_eq x.0.target.label "Element"
            && (is_filled x.0.target.key && says element_key x.0.target.key)))

abbrev pub says_also : Option String → Option String → Bool
says_also o none = false
says_also o (some s) = says o s

-- A page with the annotated fingerprint or URL.
abbrev pub page_backs : Option String → Option String → NodeRef × Properties → Bool
page_backs fingerprint url n =
    str_eq n.0.label "Page" && (says fingerprint n.0.key || says_also url (lookup "url" n.1))

-- Is an entry backed by the graph: by an outcome edge on its entity, an element of a page, or a page?
abbrev pub is_backed_by : Graph → ThenRef → String → Bool
is_backed_by g e kind =
    (str_eq kind "edge" && any (edge_backs e.edge_type e.entity) g.edges)
    || ((str_eq kind "element" && any (element_backs e.element_key) g.edges)
        || (str_eq kind "page"
            && ((is_given e.page_fingerprint || is_given e.page_url)
                && any (page_backs e.page_fingerprint e.page_url) g.nodes)))

abbrev pub is_backed : Graph → ThenRef → Option String → Bool
is_backed g e none = false
is_backed g e (some kind) = is_backed_by g e kind

abbrev pub all_backed : Graph → List ThenRef → Bool
all_backed g [] = true
all_backed g (e ∷ entries) = is_backed g e e.kind && all_backed g entries

unfoldable pub answered : Graph → Option Query → Bool
unfolding answers
answered g none = false
answered g (some q) = answers q g

answered-if :
    (g : Graph) (b : Bool) (q : Query)
    → answered g (if b then some q else none) ≡ (b && answers q g)
unfolding answered answers
answered-if g true q = refl
answered-if g false q = refl

only_first : (a : Bool) → a ≡ (a || (false || false))
only_first a = ground arith

only_second : (a : Bool) → a ≡ (false || (a || false))
only_second a = ground arith

none_given : (a b : Bool) → ((a && false) && b) ≡ false
none_given a b = ground arith

filled :
    (key name : String) → (is_filled name && str_eq key name) ≡ (is_filled key && str_eq key name)
filled key name = elim (Bool-cases (str_eq key name)) [
  | inl e ↦
      subst (λ k. (is_filled name && str_eq k name) ≡ (is_filled k && str_eq k name))
        (sym ((eq_iff key name).0 e)) refl
  | inr e ↦ rw e (ground arith)
]

any-and :
    {A : Type 0} (b : Bool) (p q : A → Bool) (xs : List A)
    → ((x : A) → (b && p x) ≡ q x)
    → (b && any p xs) ≡ any q xs
any-and b p q [] h = ground arith
any-and b p q (x ∷ xs) h = ground (arith, h x, any-and b p q xs h)

any-false : {A : Type 0} (q : A → Bool) (xs : List A) → ((x : A) → false ≡ q x) → false ≡ any q xs
any-false q [] h = refl
any-false q (x ∷ xs) h = ground (arith, h x, any-false q xs h)

given_filled : (s : String) → is_given (some s) ≡ is_filled s
given_filled String.[] = refl
given_filled (String.◌∷◌ c s) = refl

-- The tests of a query on a given value are those of the value in the graph.
edge_tests :
    (t name kind key : String) (from to : Bool)
    → ((contains allowed_edge_types t && is_filled name)
        && (from && (str_eq kind t && (to && str_eq key name))))
      ≡ (contains ("Creates" ∷ "Updates" ∷ "Deletes" ∷ []) kind
          && (str_eq kind t && (from && (to && (is_filled key && str_eq key name)))))
edge_tests t name kind key from to = elim (Bool-cases (str_eq kind t)) [
  | inr e ↦ rw e (ground arith)
  | inl e ↦
      subst
        (λ k.
          ((contains allowed_edge_types t && is_filled name)
            && (from && (str_eq k t && (to && str_eq key name))))
          ≡ (contains ("Creates" ∷ "Updates" ∷ "Deletes" ∷ []) k
              && (str_eq k t && (from && (to && (is_filled key && str_eq key name))))))
        (sym ((eq_iff kind t).0 e))
        (by_key (contains allowed_edge_types t) (str_eq t t) (filled key name))
]
  where
    by_key :
        (a b : Bool)
        → (is_filled name && str_eq key name) ≡ (is_filled key && str_eq key name)
        → ((a && is_filled name) && (from && (b && (to && str_eq key name))))
          ≡ (a && (b && (from && (to && (is_filled key && str_eq key name)))))
    by_key a b h = ground (arith, h)

element_tests :
    (name key : String) (from kind to : Bool)
    → (is_filled name && (from && (kind && (to && str_eq key name))))
      ≡ (from && (kind && (to && (is_filled key && str_eq key name))))
element_tests name key from kind to = ground (arith, filled key name)

edge-answered :
    (g : Graph) (t name : Option String)
    → ((is_allowed t && is_given name) && answers (edge_exists (text_of t) (text_of name)) g)
      ≡ any (edge_backs t name) g.edges
unfolding answers
edge-answered g none name = any-false _ g.edges (λ x. ground arith)
edge-answered g (some t) none =
    none_given (contains allowed_edge_types t) _ ∙ any-false _ g.edges (λ x. ground arith)
edge-answered g (some t) (some name) = rw given_filled (
    any-and _ _ _ g.edges (λ x.
      edge_tests t name x.0.kind x.0.target.key
        (str_eq x.0.source.label "Page"
          || (str_eq x.0.source.label "Form" || str_eq x.0.source.label "Workflow"))
        (str_eq x.0.target.label "BusinessEntity")))

element-answered :
    (g : Graph) (name : Option String)
    → (is_given name && answers (element_exists (text_of name)) g)
      ≡ any (element_backs name) g.edges
unfolding answers
element-answered g none = any-false _ g.edges (λ x. ground arith)
element-answered g (some name) = rw given_filled (
    any-and _ _ _ g.edges (λ x.
      element_tests name x.0.target.key (str_eq x.0.source.label "Page")
        (str_eq x.0.kind "HAS_ELEMENT") (str_eq x.0.target.label "Element")))

pub page-answered :
    (g : Graph) (fingerprint url : Option String)
    → answers (page_exists fingerprint url) g ≡ any (page_backs fingerprint url) g.nodes
unfolding answers
page-answered g fingerprint url = any-and true _ _ g.nodes (λ n.
    ap (λ b. str_eq n.0.label "Page" && b)
      (either (says-equals fingerprint n.0.key) (also-equals url (lookup "url" n.1))))
  where
    either : {a b c d : Bool} → a ≡ b → c ≡ d → (a || c) ≡ (b || d)
    either p q = cc

    says-equals : (o : Option String) (s : String) → equals (some s) o ≡ says o s
    says-equals none s = refl
    says-equals (some t) s = refl

    also-equals : (o p : Option String) → equals p o ≡ says_also o p
    also-equals none none = refl
    also-equals (some t) none = refl
    also-equals none (some s) = refl
    also-equals (some t) (some s) = refl

answered-query_for :
    (g : Graph) (e : ThenRef) (kind : String)
    → answered g (query_for e kind) ≡ is_backed_by g e kind
unfolding query_for
answered-query_for g e kind = elim (Bool-cases (str_eq kind "edge")) [
  | inl h ↦
      subst (λ k. answered g (query_for e k) ≡ is_backed_by g e k) (sym ((eq_iff kind "edge").0 h))
        (answered-if g (is_allowed e.edge_type && is_given e.entity)
            (edge_exists (text_of e.edge_type) (text_of e.entity))
          ∙ edge-answered g e.edge_type e.entity
          ∙ only_first (any (edge_backs e.edge_type e.entity) g.edges))
  | inr h ↦ elim (Bool-cases (str_eq kind "element")) [
    | inl k ↦
        subst (λ k. answered g (query_for e k) ≡ is_backed_by g e k)
          (sym ((eq_iff kind "element").0 k))
          (answered-if g (is_given e.element_key) (element_exists (text_of e.element_key))
            ∙ element-answered g e.element_key
            ∙ only_second (any (element_backs e.element_key) g.edges))
    | inr k ↦ elim (Bool-cases (str_eq kind "page")) [
      | inl l ↦
          rw (h, k, l)
            (answered-if g (is_given e.page_fingerprint || is_given e.page_url)
                (page_exists e.page_fingerprint e.page_url)
              ∙ ap (λ b. (is_given e.page_fingerprint || is_given e.page_url) && b)
                  (page-answered g e.page_fingerprint e.page_url))
      | inr l ↦ rw (h, k, l) (unfold answered in refl)
    ]
  ]
]

pub answered-query_of :
    (g : Graph) (e : ThenRef) (kind : Option String)
    → answered g (query_of e kind) ≡ is_backed g e kind
unfolding answered query_of
answered-query_of g e none = refl
answered-query_of g e (some kind) = answered-query_for g e kind

resolve_entry-is_empty :
    (g : Graph) (e : ThenRef) (o : Option Query) (r : Resolved)
    → is_empty (resolve_entry g e o r).unresolved ≡ (answered g o && is_empty r.unresolved)
unfolding resolve_entry answered
resolve_entry-is_empty g e none r = refl
resolve_entry-is_empty g e (some q) r = ground arith

resolved-is_empty :
    (g : Graph) (entries : List ThenRef)
    → is_empty (resolve_then_refs g entries).unresolved ≡ all_backed g entries
unfolding resolve_then_refs
resolved-is_empty g [] = refl
resolved-is_empty g (e ∷ entries) =
    resolve_entry-is_empty g e (query_of e e.kind) (resolve_then_refs g entries)
    ∙ rw (answered-query_of g e e.kind, resolved-is_empty g entries) refl

-- A scenario passes the gate exactly when it has a Then annotation and each of them is backed by the
-- graph: an edge annotation by a Creates, Updates or Deletes edge of its type from a page, a form or a
-- workflow to its entity, an element annotation by an edge from a page to its element, a page
-- annotation by a page with its fingerprint or its URL; an annotation of any other kind, or without
-- its values, is not.
pub assert_non_vacuous_iff :
    (g : Graph) (entries : List ThenRef)
    → assert_non_vacuous g entries ≡ (not (is_empty entries) && all_backed g entries)
unfolding assert_non_vacuous
assert_non_vacuous_iff g [] = refl
assert_non_vacuous_iff g (e ∷ entries) = resolved-is_empty g (e ∷ entries)

-- The edge type of a query is one of the three constants.
abbrev pub IsSafe : Query → Type 0
IsSafe (edge_exists edge_type entity) = contains allowed_edge_types edge_type ≡ true
IsSafe q = Unit

IsSafe-if :
    (b : Bool) (q : Query) → (b ≡ true → IsSafe q) → WhenSome IsSafe (if b then some q else none)
IsSafe-if true q f = f refl
IsSafe-if false q f = tt

allowed_text :
    (o : Option String) → is_allowed o ≡ true → contains allowed_edge_types (text_of o) ≡ true
allowed_text none h = absurd cc
allowed_text (some t) h = h

IsSafe-query_for : (e : ThenRef) (kind : String) → WhenSome IsSafe (query_for e kind)
unfolding query_for
IsSafe-query_for e kind = elim (Bool-cases (str_eq kind "edge")) [
  | inl h ↦ rw h (
      IsSafe-if (is_allowed e.edge_type && is_given e.entity)
        (edge_exists (text_of e.edge_type) (text_of e.entity))
        (λ b. allowed_text e.edge_type (and-true (is_allowed e.edge_type) (is_given e.entity) b).0))
  | inr h ↦ elim (Bool-cases (str_eq kind "element")) [
    | inl k ↦
        rw (h, k)
          (IsSafe-if (is_given e.element_key) (element_exists (text_of e.element_key)) (λ b. tt))
    | inr k ↦ elim (Bool-cases (str_eq kind "page")) [
      | inl l ↦
          rw (h, k, l)
            (IsSafe-if (is_given e.page_fingerprint || is_given e.page_url)
              (page_exists e.page_fingerprint e.page_url) (λ b. tt))
      | inr l ↦ rw (h, k, l) tt
    ]
  ]
]

IsSafe-query_of : (e : ThenRef) (kind : Option String) → WhenSome IsSafe (query_of e kind)
unfolding query_of
IsSafe-query_of e none = tt
IsSafe-query_of e (some kind) = IsSafe-query_for e kind

resolve_entry-IsSafe :
    (g : Graph) (e : ThenRef) (o : Option Query) (r : Resolved)
    → WhenSome IsSafe o
    → All IsSafe r.queries
    → All IsSafe (resolve_entry g e o r).queries
unfolding resolve_entry
resolve_entry-IsSafe g e none r h k = k
resolve_entry-IsSafe g e (some q) r h k = (h, k)

-- Whatever annotations the model gave, every edge query that is sent has one of the three constant
-- edge types for its relationship type.
pub resolve_then_refs-IsSafe :
    (g : Graph) (entries : List ThenRef) → All IsSafe (resolve_then_refs g entries).queries
unfolding resolve_then_refs
resolve_then_refs-IsSafe g [] = tt
resolve_then_refs-IsSafe g (e ∷ entries) =
    resolve_entry-IsSafe g e (query_of e e.kind) (resolve_then_refs g entries)
      (IsSafe-query_of e e.kind) (resolve_then_refs-IsSafe g entries)
