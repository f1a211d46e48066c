-- ===== src/Kg/Coverage.antt =====
-- The coverage of a hand-labelled ground truth: apps/api/app/services/kg/coverage.py. The percentages,
-- which are rounded quotients of the counts, are left out.
pub mod Grows
mod Tests
use febal_automation_script.Prelude.{
  ℕ, Bool, true, false, ◌&&◌, ◌||◌, List, [], ◌∷◌, map, filter, count, length, contains, Option,
  none, some, String, str_eq, if◌then◌else◌,
}

pub record TruthPage : Type 0 where
  pub name : String
  pub url : Option String
  pub fingerprint : Option String

-- The pages of a flow by their names.
abbrev pub TruthFlow : Type 0
TruthFlow = List String

pub record GroundTruth : Type 0 where
  pub pages : List TruthPage
  pub flows : List TruthFlow

-- A page of the graph.
pub record FoundPage : Type 0 where
  pub url : Option String
  pub fingerprint : Option String

abbrev or_root : String → String
or_root String.[] = "/"
or_root (String.◌∷◌ c s) = String.◌∷◌ c s

-- A slash in front of what is left of the rest, unless nothing is.
abbrev keep_slash : String → String → String
keep_slash first String.[] = if str_eq first "/" then "" else first
keep_slash String.[] (String.◌∷◌ c s) = String.◌∷◌ c s
keep_slash (String.◌∷◌ d t) (String.◌∷◌ c s) = String.◌∷◌ d (String.◌∷◌ c s)

-- `path.rstrip("/")`
unfoldable pub rstrip_slash : String → String
rstrip_slash String.[] = ""
rstrip_slash (String.◌∷◌ c s) = keep_slash (String.◌∷◌ c "") (rstrip_slash s)

unfoldable pub canonical : String → String
unfolding rstrip_slash
canonical path = if str_eq path "/" then path else or_root (rstrip_slash path)

-- An empty fingerprint counts as none.
abbrev in_fps : Option String → List String → Bool
in_fps none fps = false
in_fps (some String.[]) fps = false
in_fps (some (String.◌∷◌ c s)) fps = contains fps (String.◌∷◌ c s)

abbrev cons_given : Option String → List String → List String
cons_given none fps = fps
cons_given (some String.[]) fps = fps
cons_given (some (String.◌∷◌ c s)) fps = String.◌∷◌ c s ∷ fps

abbrev pub fps_of : List FoundPage → List String
fps_of [] = []
fps_of (p ∷ found) = cons_given p.fingerprint (fps_of found)

pub record Coverage : Type 0 where
  pub screens_total : ℕ
  pub screens_covered : ℕ
  pub flows_total : ℕ
  pub flows_covered : ℕ
  pub matched : List String

-- All its pages are matched.
abbrev pub is_reached : List String → TruthFlow → Bool
is_reached names [] = true
is_reached names (name ∷ flow) = contains names name && is_reached names flow

-- `path_of` is the path of `urlsplit`.
module _ (path_of : String → String) where
  unfoldable pub normalize_url : Option String → String
  unfolding canonical
  normalize_url none = "/"
  normalize_url (some String.[]) = "/"
  normalize_url (some (String.◌∷◌ c s)) = canonical (or_root (path_of (String.◌∷◌ c s)))

  abbrev pub urls_of : List FoundPage → List String
  urls_of = map (λ (p : FoundPage). normalize_url p.url)

  unfoldable pub page_matches : TruthPage → List String → List String → Bool
  unfolding normalize_url
  page_matches g urls fps = in_fps g.fingerprint fps || contains urls (normalize_url g.url)

  abbrev pub matched_pages : GroundTruth → List FoundPage → List TruthPage
  matched_pages gt found = filter (λ g. page_matches g (urls_of found) (fps_of found)) gt.pages

  unfoldable pub compute_coverage : GroundTruth → List FoundPage → Coverage
  unfolding page_matches
  compute_coverage gt found =
      let matched = map (λ (g : TruthPage). g.name) (matched_pages gt found) in
      record {
        screens_total = length gt.pages;
        screens_covered = length (matched_pages gt found);
        flows_total = length gt.flows;
        flows_covered = count (is_reached matched) gt.flows;
        matched = matched;
      }
