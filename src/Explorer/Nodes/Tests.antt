-- ===== src/Explorer/Nodes/Tests.antt =====
-- A page with a link and a dangerous control, on a site whose URLs split at the first slash.
use febal_automation_script.Prelude.{refl, false, none, some, [], ◌∷◌}
use febal_automation_script.Prelude.Texts.{codes, text_eq}
use febal_automation_script.Explorer.Converge.{initial}
use febal_automation_script.Explorer.Locators.{Attrs}
use febal_automation_script.Explorer.Actions.{Urls, same_origin, Element, MenuEntry, IsHome}
use febal_automation_script.Explorer.Nodes.{Crawl, act, navigate, enumerate_node}
use febal_automation_script.Explorer.Nodes.Safety.{
  IsGated, VisitsInScope, act-IsGated, lap_in_scope,
}

-- Every URL is of the one site.
abbrev urls : Urls
urls = record {
  urlsplit = λ url. record { scheme = codes "https"; netloc = codes "Shop.example"; path = url };
  urlunsplit = λ u. "https://Shop.example/";
  urljoin = λ page href. href;
}

abbrev attrs : Attrs
attrs = record {
  data_testid = [];
  data_test = codes " item ";
  aria_label = [];
  role = codes "link";
  text = codes "Cart";
  xpath = codes "/html/a";
}

abbrev link : Element
link = record {
  role = codes "link";
  tag_name = codes "a";
  inner_text = codes "Cart";
  aria_label = [];
  href = codes "/cart";
  attrs = attrs;
}

abbrev entry : MenuEntry
entry = record {
  index = 1;
  role = codes "button";
  label = codes "Save";
  url = [];
  locator_chain = [];
}

abbrev crawl : Crawl
crawl = record {
  counters =
      initial (record { key = "https://Shop.example/a"; url = codes "/a"; label = codes "A" } ∷ []);
  base_url = codes "/";
  sandbox = false;
  origin_allowlist = codes "/" ∷ [];
  visited_keys = [];
  action_menu = entry ∷ [];
  pending_action = some entry;
}

act-IsGated_example : IsGated urls crawl (act urls 2 crawl)
act-IsGated_example = act-IsGated urls 2 crawl refl

-- The page offers the link and a handle that cannot be read.
lap_in_scope_example :
    let acted = record crawl { pending_action = (act urls 2 crawl).pending_action } in
    let (visit, t) = navigate urls (λ u. u) (codes "/") acted in
    VisitsInScope urls crawl visit
    × IsHome urls crawl.base_url
        (enumerate_node urls (codes "/a") (some link ∷ none ∷ []) t).frontier
unfolding same_origin text_eq
lap_in_scope_example =
    lap_in_scope urls (λ u. u) (codes "/") (codes "/a") 2 (some link ∷ none ∷ []) crawl refl
      (refl, tt)
