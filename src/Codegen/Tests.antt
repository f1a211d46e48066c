-- ===== src/Codegen/Tests.antt =====
-- A page with two buttons of one name, the first of them without a locator.
use febal_automation_script.Prelude.{String, ◌≡◌, refl, List, [], ◌∷◌, some, none}
use febal_automation_script.Prelude.Texts.{Text, codes, text_eq}
use febal_automation_script.Codegen.{
  ChainEntry, entry_dict, entry_text, Row, attr_name, top_chain_entry, page_object_locators,
}
use febal_automation_script.Codegen.Tops.{value_at, page_object_locators-first}

abbrev button : String → List ChainEntry → Row
button fp chain = record {
  page_fp = some fp;
  role = some "button";
  label = some " Add to cart!";
  chain = chain;
}

abbrev rows : List Row
rows =
    button "p" []
    ∷ button "q" (entry_text "#other" ∷ [])
    ∷ button "p" (entry_dict (some "#add") ∷ [])
    ∷ button "p" (entry_text "#late" ∷ [])
    ∷ []

abbrev add_to_cart : Text
add_to_cart = codes "button_add_to_cart"

named : attr_name (some "button") (some " Add to cart!") ≡ add_to_cart
unfolding attr_name
named = refl

digit_first : attr_name none (some "2nd") ≡ codes "el_2nd"
unfolding attr_name
digit_first = refl

nameless : attr_name none (some "---") ≡ codes "element"
unfolding attr_name
nameless = refl

page_object_locators-first_example :
    value_at add_to_cart (page_object_locators "p" rows) ≡ some "#add"
unfolding attr_name top_chain_entry text_eq
page_object_locators-first_example = page_object_locators-first "p" add_to_cart rows
