-- ===== src/Kg/Coverage/Tests.antt =====
-- A shop of which only the cart has been discovered, on another host.
use febal_automation_script.Prelude.{String, str_eq, ◌≡◌, refl, [], ◌∷◌, some, none, if◌then◌else◌}
use febal_automation_script.Kg.Coverage.{
  GroundTruth, FoundPage, TruthPage, normalize_url, rstrip_slash, compute_coverage,
}

-- The path of the one URL with a host.
abbrev path_of : String → String
path_of url = if str_eq url "http://shop:80/cart/" then "/cart/" else url

abbrev page : String → String → TruthPage
page name url = record { name = name; url = some url; fingerprint = none }

abbrev truth : GroundTruth
truth = record {
  pages = page "cart" "/cart" ∷ page "home" "/" ∷ [];
  flows = ("cart" ∷ []) ∷ ("home" ∷ "cart" ∷ []) ∷ [] ∷ [];
}

abbrev cart : FoundPage
cart = record { url = some "http://shop:80/cart/"; fingerprint = some "" }

slashes : rstrip_slash "/a//b///" ≡ "/a//b"
unfolding rstrip_slash
slashes = refl

the_root : normalize_url path_of (some "//") ≡ "/"
unfolding normalize_url
the_root = refl

one_of_two : (compute_coverage path_of truth (cart ∷ [])).matched ≡ "cart" ∷ []
unfolding compute_coverage normalize_url
one_of_two = refl

-- A flow without pages is covered even when nothing has been discovered.
empty_flow : (compute_coverage path_of truth []).flows_covered ≡ 1
unfolding compute_coverage normalize_url
empty_flow = refl
