-- ===== src/Explorer/Locators.antt =====
-- The prioritized locator chain of an element and its history (services/explorer/locators.py).
use febal_automation_script.Prelude.{
  ℕ, ◌<◌, ◌≤◌, Option, none, some, List, [], ◌∷◌, ◌++◌, arith, length, take,
}
use febal_automation_script.Prelude.Texts.{Text, strip}

pub data Strategy : Type 0 where
  test_id aria_label role text xpath : Strategy

pub record LocatorEntry : Type 0 where
  pub strategy : Strategy
  pub value : Text
  pub name : Option Text

-- The attributes that are read; one that is absent reads as the empty text.
pub record Attrs : Type 0 where
  pub data_testid : Text
  pub data_test : Text
  pub aria_label : Text
  pub role : Text
  pub text : Text
  pub xpath : Text

-- `a or b`
abbrev pub or_text : Text → Text → Text
or_text [] b = b
or_text (c ∷ s) b = c ∷ s

abbrev some_text : Text → Option Text
some_text [] = none
some_text (c ∷ s) = some (c ∷ s)

-- A tier is emitted only if it has a value.
tier : Strategy → Text → Option Text → List LocatorEntry
tier strategy [] name = []
tier strategy (c ∷ s) name = record { strategy = strategy; value = c ∷ s; name = name } ∷ []

unfoldable pub build_locator_chain : Attrs → List LocatorEntry
unfolding tier
build_locator_chain a =
    let name = take 80 (strip a.text) in
    tier test_id (strip (or_text a.data_testid a.data_test)) none
    ++ (tier aria_label (strip a.aria_label) none
        ++ (tier role (strip a.role) (some_text name)
            ++ (tier text name none ++ tier xpath (strip a.xpath) none)))

pub record Snapshot : Type 0 where
  pub step : ℕ
  pub chain : List LocatorEntry

unfoldable pub merge_locator_history : List Snapshot → List LocatorEntry → ℕ → List Snapshot
merge_locator_history existing new_chain step =
    existing ++ record { step = step; chain = new_chain } ∷ []

abbrev pub rank : Strategy → ℕ
rank test_id = 5
rank aria_label = 4
rank role = 3
rank text = 2
rank xpath = 1

-- Every entry has a value, is of a lower tier than those before it, and is below `top`.
abbrev pub IsRanked : ℕ → List LocatorEntry → Type 0
IsRanked top [] = Unit
IsRanked top (e ∷ es) =
    (rank e.strategy < top) × (0 < length e.value) × IsRanked (rank e.strategy) es

IsRanked-tier :
    (top : ℕ) (s : Strategy) (value : Text) (name : Option Text) (rest : List LocatorEntry)
    → rank s < top
    → ((below : ℕ) → rank s ≤ below → IsRanked below rest)
    → IsRanked top (tier s value name ++ rest)
unfolding tier
IsRanked-tier top s [] name rest h r = r top (omega arith)
IsRanked-tier top s (c ∷ v) name rest h r = (h, omega arith, r (rank s) (omega arith))

IsRanked-xpath : (top : ℕ) (value : Text) → 1 < top → IsRanked top (tier xpath value none)
unfolding tier
IsRanked-xpath top [] h = tt
IsRanked-xpath top (c ∷ v) h = (h, omega arith, tt)

-- The chain of any element goes down the tiers in the order of healing, each tier at most once and
-- only with a value.
pub build_locator_chain-IsRanked : (a : Attrs) → IsRanked 6 (build_locator_chain a)
unfolding build_locator_chain
build_locator_chain-IsRanked a =
    let name : Text = take 80 (strip a.text) in
    let last = tier xpath (strip a.xpath) none in
    let low = tier text name none ++ last in
    let mid = tier role (strip a.role) (some_text name) ++ low in
    IsRanked-tier 6 test_id (strip (or_text a.data_testid a.data_test)) none
      (tier aria_label (strip a.aria_label) none ++ mid) (omega arith)
      λ b h. IsRanked-tier b aria_label (strip a.aria_label) none mid (omega arith) λ c k.
        IsRanked-tier c role (strip a.role) (some_text name) low (omega arith) λ d l.
          IsRanked-tier d text name none last (omega arith)
            λ e m. IsRanked-xpath e (strip a.xpath) (omega arith)
