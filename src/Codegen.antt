-- ===== src/Codegen.antt =====
-- The locators of a page object: apps/api/app/services/codegen/locators.py, over the rows of the
-- element repository.
pub mod Tops
mod Tests
use febal_automation_script.Prelude.{
  String, Bool, true, false, not, ◌&&◌, ◌||◌, ◌==◌, leb, List, [], ◌∷◌, ◌++◌, Option, none, some,
  str_eq, ℕ, if◌then◌else◌,
}
use mathlib.Core.List.{reverse}
use febal_automation_script.Prelude.Texts.{Text, codes, strip, lower, text_eq}

-- An entry of a chain as json.loads gives it: an object with its value, if that is a text, a text, or
-- anything else.
pub data ChainEntry : Type 0 where
  entry_dict : Option String → ChainEntry
  entry_text : String → ChainEntry
  entry_other : ChainEntry

pub record Row : Type 0 where
  pub page_fp : Option String
  pub role : Option String
  pub label : Option String
  pub chain : List ChainEntry

abbrev non_empty : Option String → Option String
non_empty none = none
non_empty (some String.[]) = none
non_empty (some (String.◌∷◌ c s)) = some (String.◌∷◌ c s)

unfoldable pub top_chain_entry : List ChainEntry → Option String
top_chain_entry [] = none
top_chain_entry (entry_dict value ∷ chain) = non_empty value
top_chain_entry (entry_text s ∷ chain) = non_empty (some s)
top_chain_entry (entry_other ∷ chain) = none

abbrev pub is_digit : ℕ → Bool
is_digit c = leb b'0' c && leb c b'9'

abbrev is_ident : ℕ → Bool
is_ident c = is_digit c || ((leb b'a' c && leb c b'z') || (leb b'A' c && leb c b'Z'))

-- `_NON_IDENT.sub("_", raw)`: one underscore for a run of other characters; `after` is in a run.
unfoldable pub sub_non_ident : Bool → Text → Text
sub_non_ident after [] = []
sub_non_ident after (c ∷ s) =
    let kept = sub_non_ident false s in
    let rest = sub_non_ident true s in
    if is_ident c then c ∷ kept else if after then rest else b'_' ∷ rest

skip_underscores : Text → Text
skip_underscores [] = []
skip_underscores (c ∷ s) = let rest = skip_underscores s in if c == b'_' then rest else c ∷ s

-- `name.strip("_")`
abbrev strip_underscores : Text → Text
strip_underscores s = reverse (skip_underscores (reverse (skip_underscores s)))

-- `role or ""`
abbrev or_empty : Option String → Text
or_empty none = []
or_empty (some s) = codes s

abbrev as_identifier : Text → Text
as_identifier [] = codes "element"
as_identifier (c ∷ s) = if is_digit c then codes "el_" ++ c ∷ s else c ∷ s

unfoldable pub attr_name : Option String → Option String → Text
unfolding strip sub_non_ident skip_underscores
attr_name role label = as_identifier (
    strip_underscores
      (sub_non_ident false (lower (strip (or_empty role ++ b' ' ∷ or_empty label)))))

abbrev pub Attrs {ℓ} : Type ℓ → Type ℓ
Attrs V = List (Text × V)

-- `attrs.setdefault(name, value)`
unfoldable pub set_default {ℓ} : {V : Type ℓ} → Text → V → Attrs V → Attrs V
set_default name v [] = (name, v) ∷ []
set_default name v ((k, w) ∷ attrs) =
    if text_eq k name then (k, w) ∷ attrs else (k, w) ∷ set_default name v attrs

abbrev pub is_on_page : String → Option String → Bool
is_on_page fp none = false
is_on_page fp (some p) = str_eq p fp

add_locator : Text → Option String → Attrs String → Attrs String
unfolding set_default
add_locator name none attrs = attrs
add_locator name (some locator) attrs = set_default name locator attrs

unfoldable pub locators_from : String → Attrs String → List Row → Attrs String
unfolding add_locator top_chain_entry attr_name
locators_from fp attrs [] = attrs
locators_from fp attrs (row ∷ rows) =
    locators_from fp
      (if is_on_page fp row.page_fp
        then add_locator (attr_name row.role row.label) (top_chain_entry row.chain) attrs
        else attrs)
      rows

unfoldable pub page_object_locators : String → List Row → Attrs String
unfolding locators_from
page_object_locators fp rows = locators_from fp [] rows

add_chain :
    Text → Option String → List ChainEntry → Attrs (List ChainEntry) → Attrs (List ChainEntry)
unfolding set_default
add_chain name none chain chains = chains
add_chain name (some locator) chain chains = set_default name chain chains

unfoldable pub chains_from : String → Attrs (List ChainEntry) → List Row → Attrs (List ChainEntry)
unfolding add_chain top_chain_entry attr_name
chains_from fp chains [] = chains
chains_from fp chains (row ∷ rows) =
    chains_from fp
      (if is_on_page fp row.page_fp
        then add_chain (attr_name row.role row.label) (top_chain_entry row.chain) row.chain chains
        else chains)
      rows

unfoldable pub page_object_chains : String → List Row → Attrs (List ChainEntry)
unfolding chains_from
page_object_chains fp rows = chains_from fp [] rows
