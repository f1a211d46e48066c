-- ===== src/Explorer/Actions.antt =====
-- The action menu and the frontier candidates of a page (services/explorer/actions.py). `urlsplit`,
-- `urlunsplit` and `urljoin` are Python's, taken as parameters.
use mathlib.Core.List.{reverse}
use febal_automation_script.Prelude.{
  ℕ, suc, String, Bool, ◌&&◌, ◌==◌, Option, none, some, List, [], ◌∷◌, ◌++◌, take, if◌then◌else◌,
  ◌≡◌, true, All, All-append, Bool-cases, inl, inr,
}
use febal_automation_script.Prelude.Texts.{Text, codes, strip, text_eq}
use febal_automation_script.Explorer.Risk.{Url}
use febal_automation_script.Explorer.Locators.{Attrs, LocatorEntry, or_text, build_locator_chain}
use febal_automation_script.Explorer.Converge.{FrontierEntry}

-- `urlunsplit` is given the scheme, the network location and the path.
pub record Urls : Type 0 where
  pub urlsplit : Text → Url
  pub urlunsplit : Url → String
  pub urljoin : Text → Text → Text

skip_slashes : Text → Text
skip_slashes [] = []
skip_slashes (c ∷ s) = let rest = skip_slashes s in if c == b'/' then rest else c ∷ s

-- `path.rstrip("/") or "/"`
unfoldable pub page_key : Urls → Text → String
unfolding skip_slashes
page_key urls url =
    let parts = urls.urlsplit url in
    urls.urlunsplit
      (record parts { path = or_text (reverse (skip_slashes (reverse parts.path))) (codes "/") })

unfoldable pub same_origin : Urls → Text → Text → Bool
same_origin urls url base_url =
    let u = urls.urlsplit url in
    let b = urls.urlsplit base_url in text_eq u.scheme b.scheme && text_eq u.netloc b.netloc

-- What an element handle answers; an absent attribute reads as the empty text.
pub record Element : Type 0 where
  pub role : Text
  pub tag_name : Text
  pub inner_text : Text
  pub aria_label : Text
  pub href : Text
  pub attrs : Attrs

-- A missing `url` is the empty text, and so is the confirmation text, which no entry has.
pub record MenuEntry : Type 0 where
  pub index : ℕ
  pub role : Text
  pub label : Text
  pub url : Text
  pub locator_chain : List LocatorEntry

entry_url : Urls → Text → Text → Text
entry_url urls page_url [] = []
entry_url urls page_url (c ∷ href) = urls.urljoin page_url (c ∷ href)

candidate_of : Urls → Text → Text → Text → Text → List FrontierEntry
unfolding page_key same_origin
candidate_of urls page_url base_url [] label = []
candidate_of urls page_url base_url (c ∷ href) label =
    let absolute = urls.urljoin page_url (c ∷ href) in
    if same_origin urls absolute base_url
    then record { key = page_key urls absolute; url = absolute; label = label } ∷ []
    else []

label_of : Element → Text
label_of e = take 80 (strip (or_text e.inner_text e.aria_label))

describe_element : Urls → ℕ → Text → Text → Element → MenuEntry × List FrontierEntry
unfolding entry_url candidate_of label_of
describe_element urls i page_url base_url e = (
  record {
    index = i;
    role = or_text e.role (or_text e.tag_name (codes "element"));
    label = label_of e;
    url = entry_url urls page_url e.href;
    locator_chain = build_locator_chain e.attrs;
  },
  candidate_of urls page_url base_url e.href (label_of e),
)

-- The handles in order; `none` is one whose read times out or fails, which is left out, but counts.
unfoldable pub enumerate_actions :
    Urls → Text → Text → ℕ → List (Option Element) → List MenuEntry × List FrontierEntry
unfolding describe_element
enumerate_actions urls page_url base_url i [] = ([], [])
enumerate_actions urls page_url base_url i (none ∷ handles) =
    enumerate_actions urls page_url base_url (suc i) handles
enumerate_actions urls page_url base_url i (some e ∷ handles) =
    let (menu, candidates) = enumerate_actions urls page_url base_url (suc i) handles in
    let (entry, candidate) = describe_element urls i page_url base_url e in
    (entry ∷ menu, candidate ++ candidates)

-- Every URL of the frontier is of the origin of the target.
abbrev pub IsHome : Urls → Text → List FrontierEntry → Type 0
IsHome urls base_url fs = All (λ f. same_origin urls f.url base_url ≡ true) fs

candidate_of-IsHome :
    (urls : Urls) (page_url base_url href label : Text)
    → IsHome urls base_url (candidate_of urls page_url base_url href label)
unfolding candidate_of
candidate_of-IsHome urls page_url base_url [] label = tt
candidate_of-IsHome urls page_url base_url (c ∷ href) label =
    elim (Bool-cases (same_origin urls (urls.urljoin page_url (c ∷ href)) base_url)) [
      | inl e ↦ rw e (e, tt)
      | inr e ↦ rw e tt
    ]

pub enumerate_actions-IsHome :
    (urls : Urls) (page_url base_url : Text) (i : ℕ) (handles : List (Option Element))
    → IsHome urls base_url (enumerate_actions urls page_url base_url i handles).1
unfolding enumerate_actions
enumerate_actions-IsHome urls page_url base_url i [] = tt
enumerate_actions-IsHome urls page_url base_url i (none ∷ hs) =
    enumerate_actions-IsHome urls page_url base_url (suc i) hs
enumerate_actions-IsHome urls page_url base_url i (some e ∷ hs) =
    All-append _ (candidate_of urls page_url base_url e.href (label_of e)) _
      (candidate_of-IsHome urls page_url base_url e.href (label_of e))
      (enumerate_actions-IsHome urls page_url base_url (suc i) hs)
