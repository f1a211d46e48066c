-- ===== src/Codegen/Tops.antt =====
-- The two mappings of apps/api/app/services/codegen/locators.py agree, and what they hold for a name.
use febal_automation_script.Prelude.{
  String, Bool, true, false, ◌&&◌, ◌≡◌, refl, ◌∙◌, ap, sym, subst, List, [], ◌∷◌, map, Option, none,
  some, if◌then◌else◌, Bool-cases, inl, inr,
}
use febal_automation_script.Prelude.Texts.{Text, text_eq, text_eq-eq}
use febal_automation_script.Codegen.{
  ChainEntry, Row, top_chain_entry, attr_name, Attrs, set_default, is_on_page, add_locator,
  locators_from, page_object_locators, add_chain, chains_from, page_object_chains,
}

-- Each name with the top of its chain.
abbrev pub tops : Attrs (List ChainEntry) → Attrs (Option String)
tops = map (λ (kc : Text × List ChainEntry). (kc.0, top_chain_entry kc.1))

abbrev pub found : Attrs String → Attrs (Option String)
found = map (λ (kl : Text × String). (kl.0, some kl.1))

set_default-map :
    {V W : Type 0} (f : V → W) (name : Text) (v : V) (attrs : Attrs V)
    → map (λ (kv : Text × V). (kv.0, f kv.1)) (set_default name v attrs)
      ≡ set_default name (f v) (map (λ (kv : Text × V). (kv.0, f kv.1)) attrs)
unfolding set_default
set_default-map f name v [] = refl
set_default-map f name v ((k, w) ∷ attrs) = elim (Bool-cases (text_eq k name)) [
  | inl e ↦ rw e refl
  | inr e ↦ rw e (rw (set_default-map f name v attrs) refl)
]

add-agree :
    (name : Text) (o : Option String) (chain : List ChainEntry) (attrs : Attrs String)
    (chains : Attrs (List ChainEntry))
    → top_chain_entry chain ≡ o
    → found attrs ≡ tops chains
    → found (add_locator name o attrs) ≡ tops (add_chain name o chain chains)
unfolding add_locator add_chain
add-agree name none chain attrs chains e h = h
add-agree name (some l) chain attrs chains e h =
    set_default-map some name l attrs
    ∙ ap (set_default name (some l)) h
    ∙ ap (λ o. set_default name o (tops chains)) (sym e)
    ∙ sym (set_default-map top_chain_entry name chain chains)

from-agree :
    (fp : String) (rows : List Row) (attrs : Attrs String) (chains : Attrs (List ChainEntry))
    → found attrs ≡ tops chains
    → found (locators_from fp attrs rows) ≡ tops (chains_from fp chains rows)
unfolding locators_from chains_from
from-agree fp [] attrs chains h = h
from-agree fp (row ∷ rows) attrs chains h =
    from-agree fp rows _ _ (on_page (is_on_page fp row.page_fp))
  where
    on_page :
        (b : Bool)
        → found (
            if b
            then add_locator (attr_name row.role row.label) (top_chain_entry row.chain) attrs
            else attrs)
          ≡ tops (
              if b
              then add_chain
                  (attr_name row.role row.label)
                  (top_chain_entry row.chain)
                  row.chain
                  chains
              else chains)
    on_page true =
        add-agree (attr_name row.role row.label) (top_chain_entry row.chain) row.chain attrs chains
          refl h
    on_page false = h

-- For a page the locators are, in order and under the same names, the tops of the chains: every name
-- has both, and its locator is the first entry of its chain.
pub page_object_locators-tops :
    (fp : String) (rows : List Row)
    → found (page_object_locators fp rows) ≡ tops (page_object_chains fp rows)
unfolding page_object_locators page_object_chains
page_object_locators-tops fp rows = from-agree fp rows [] [] refl

-- `attrs.get(name)`
abbrev pub value_at : Text → Attrs String → Option String
value_at name [] = none
value_at name ((k, v) ∷ attrs) = if text_eq k name then some v else value_at name attrs

abbrev pub first_of : Option String → Option String → Option String
first_of none o = o
first_of (some s) o = some s

-- The top of the first row of the page that has the name and a usable chain.
abbrev pub first_locator : String → Text → List Row → Option String
first_locator fp name [] = none
first_locator fp name (row ∷ rows) =
    first_of
      (if is_on_page fp row.page_fp && text_eq (attr_name row.role row.label) name
        then top_chain_entry row.chain
        else none)
      (first_locator fp name rows)

first_of_assoc : (a b c : Option String) → first_of (first_of a b) c ≡ first_of a (first_of b c)
first_of_assoc none b c = refl
first_of_assoc (some s) b c = refl

first_of-none : (o : Option String) → first_of o none ≡ o
first_of-none none = refl
first_of-none (some s) = refl

value_at-set_default :
    (j k : Text) (v : String) (attrs : Attrs String)
    → value_at j (set_default k v attrs)
      ≡ first_of (value_at j attrs) (if text_eq k j then some v else none)
unfolding set_default
value_at-set_default j k v [] = refl
value_at-set_default j k v ((i, w) ∷ attrs) = elim (Bool-cases (text_eq i k)) [
  | inl e ↦ rw e (
      subst
        (λ x.
          (if text_eq i j then some w else value_at j attrs)
          ≡ first_of (if text_eq i j then some w else value_at j attrs)
              (if text_eq x j then some v else none))
        (text_eq-eq i k e) (at_i (text_eq i j)))
  | inr e ↦ rw e (past (text_eq i j) (value_at-set_default j k v attrs))
]
  where
    at_i :
        (b : Bool)
        → (if b then some w else value_at j attrs)
          ≡ first_of (if b then some w else value_at j attrs) (if b then some v else none)
    at_i true = refl
    at_i false = sym (first_of-none (value_at j attrs))

    past :
        (b : Bool)
        → value_at j (set_default k v attrs)
          ≡ first_of (value_at j attrs) (if text_eq k j then some v else none)
        → (if b then some w else value_at j (set_default k v attrs))
          ≡ first_of (if b then some w else value_at j attrs) (if text_eq k j then some v else none)
    past true h = refl
    past false h = h

value_at-add_locator :
    (j k : Text) (o : Option String) (attrs : Attrs String)
    → value_at j (add_locator k o attrs)
      ≡ first_of (value_at j attrs) (if text_eq k j then o else none)
unfolding add_locator
value_at-add_locator j k none attrs = by_text (text_eq k j)
  where
    by_text : (b : Bool) → value_at j attrs ≡ first_of (value_at j attrs) (if b then none else none)
    by_text true = sym (first_of-none (value_at j attrs))
    by_text false = sym (first_of-none (value_at j attrs))
value_at-add_locator j k (some v) attrs = value_at-set_default j k v attrs

value_at-from :
    (fp : String) (j : Text) (rows : List Row) (attrs : Attrs String)
    → value_at j (locators_from fp attrs rows)
      ≡ first_of (value_at j attrs) (first_locator fp j rows)
unfolding locators_from
value_at-from fp j [] attrs = sym (first_of-none (value_at j attrs))
value_at-from fp j (row ∷ rows) attrs =
    value_at-from fp j rows _
    ∙ ap (λ o. first_of o (first_locator fp j rows)) (on_page (is_on_page fp row.page_fp))
    ∙ first_of_assoc (value_at j attrs) _ (first_locator fp j rows)
  where
    on_page :
        (b : Bool)
        → value_at j (
            if b
            then add_locator (attr_name row.role row.label) (top_chain_entry row.chain) attrs
            else attrs)
          ≡ first_of (value_at j attrs) (
              if b && text_eq (attr_name row.role row.label) j
              then top_chain_entry row.chain
              else none)
    on_page true =
        value_at-add_locator j (attr_name row.role row.label) (top_chain_entry row.chain) attrs
    on_page false = sym (first_of-none (value_at j attrs))

-- What a name of the page object stands for is the top of the chain of the first row of the page with
-- this name and a usable chain, and nothing when there is no such row: no locator is made up.
pub page_object_locators-first :
    (fp : String) (name : Text) (rows : List Row)
    → value_at name (page_object_locators fp rows) ≡ first_locator fp name rows
unfolding page_object_locators
page_object_locators-first fp name rows = value_at-from fp name rows []
