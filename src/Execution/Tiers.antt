-- ===== src/Execution/Tiers.antt =====
-- Tiers: the marker tokens and the flows of apps/api/app/services/exec_service.py.
use febal_automation_script.Prelude.{
  String, str_eq, eq_iff, Bool, true, false, ◌&&◌, ◌||◌, ◌≡◌, refl, ◌∙◌, ap, subst, List, [], ◌∷◌,
  map, filter, Option, none, some, contains, arith, All, WhenSome, if◌then◌else◌, Bool-cases, inl,
  inr, lookup, any, IsUnique,
}
use febal_automation_script.Scenarios.{Scenario, is_approved}
use febal_automation_script.Execution.Store.{World, sort, insert_sorted}
use febal_automation_script.Execution.Rank.{FlowRisk}
use febal_automation_script.Execution.{
  resolve_tier, tier_selector, valid_tiers, distinct, approved_flows, resolve_flows_for_tier,
}

abbrev pub marker_tokens : List String
marker_tokens = "-m" ∷ "smoke" ∷ "sanity" ∷ "regression" ∷ []

abbrev pub is_none : Option (List String) → Bool
is_none none = true
is_none (some l) = false

-- A tier is refused exactly when it is none of the five; otherwise the tokens for pytest are
-- constants of the code, never the text that the client sent.
pub resolve_tier_lem :
    (tier : String)
    → (is_none (resolve_tier tier) ≡ (if contains valid_tiers tier then false else true))
      × WhenSome (λ l. All (λ t. contains marker_tokens t ≡ true) l) (resolve_tier tier)
unfolding resolve_tier tier_selector lookup
resolve_tier_lem tier = elim (Bool-cases (str_eq "smoke" tier)) [
  | inl e ↦ rw e (refl, (refl, (refl, tt)))
  | inr e ↦ rw e (elim (Bool-cases (str_eq "sanity" tier)) [
    | inl e ↦ rw e (refl, (refl, (refl, tt)))
    | inr e ↦ rw e (elim (Bool-cases (str_eq "regression" tier)) [
      | inl e ↦ rw e (refl, (refl, (refl, tt)))
      | inr e ↦ rw e (elim (Bool-cases (str_eq "full" tier)) [
        | inl e ↦ rw e (refl, tt)
        | inr e ↦ rw e (elim (Bool-cases (str_eq "risk-based" tier)) [
          | inl e ↦ rw e (refl, tt)
          | inr e ↦ rw e (refl, tt)
        ])
      ])
    ])
  ])
]

contains-insert_sorted :
    (collate : String → String → Bool) (a b : String) (l : List String)
    → contains (insert_sorted collate a l) b ≡ contains (a ∷ l) b
unfolding insert_sorted
contains-insert_sorted collate a b [] = refl
contains-insert_sorted collate a b (c ∷ l) = ground (arith, contains-insert_sorted collate a b l)

contains-sort :
    (collate : String → String → Bool) (b : String) (l : List String)
    → contains (sort collate l) b ≡ contains l b
unfolding sort
contains-sort collate b [] = refl
contains-sort collate b (a ∷ l) =
    contains-insert_sorted collate a b (sort collate l)
    ∙ ap (λ x. str_eq a b || x) (contains-sort collate b l)

same_contains :
    (a b : String) (l : List String) → str_eq a b ≡ true → contains l a ≡ true → contains l b ≡ true
same_contains a b l e h = subst (λ c. contains l c ≡ true) ((eq_iff a b).0 e) h

contains-distinct : (b : String) (l : List String) → contains (distinct l) b ≡ contains l b
unfolding distinct
contains-distinct b [] = refl
contains-distinct b (a ∷ l) = elim (Bool-cases (contains (distinct l) a)) [
  | inl e ↦ rw e (ground (arith, contains-distinct b l, eq_iff a b, same_contains a b (distinct l)))
  | inr e ↦ rw e (ground (arith, contains-distinct b l))
]

insert_sorted-IsUnique :
    (collate : String → String → Bool) (a : String) (l : List String)
    → IsUnique l
    → contains l a ≡ false
    → IsUnique (insert_sorted collate a l)
unfolding insert_sorted
insert_sorted-IsUnique collate a [] u h = (refl, tt)
insert_sorted-IsUnique collate a (b ∷ l) u h = elim (Bool-cases (collate b a)) [
  | inl e ↦ rw e (
    contains-insert_sorted collate a b l ∙ ground (arith, eq_iff a b, eq_iff b a, u.0, h),
    insert_sorted-IsUnique collate a l u.1 (ground arith),
  )
  | inr e ↦ rw e (h, u)
]

sort-IsUnique :
    (collate : String → String → Bool) (l : List String) → IsUnique l → IsUnique (sort collate l)
unfolding sort
sort-IsUnique collate [] u = tt
sort-IsUnique collate (a ∷ l) u =
    insert_sorted-IsUnique collate a (sort collate l) (sort-IsUnique collate l u.1)
      (contains-sort collate a l ∙ u.0)

distinct-IsUnique : (l : List String) → IsUnique (distinct l)
unfolding distinct
distinct-IsUnique [] = tt
distinct-IsUnique (a ∷ l) = elim (Bool-cases (contains (distinct l) a)) [
  | inl e ↦ rw e (distinct-IsUnique l)
  | inr e ↦ rw e (e, distinct-IsUnique l)
]

contains-approved :
    (fid : String) (scenarios : List Scenario)
    → contains
        (map (λ (s : Scenario). s.flow_id) (filter (λ s. is_approved s.status) scenarios))
        fid
      ≡ any (λ s. is_approved s.status && str_eq s.flow_id fid) scenarios
contains-approved fid [] = refl
contains-approved fid (s ∷ scenarios) =
    first (is_approved s.status) (contains-approved fid scenarios)
  where
    first :
        (b : Bool)
        → contains
            (map (λ (s : Scenario). s.flow_id) (filter (λ s. is_approved s.status) scenarios))
            fid
          ≡ any (λ s. is_approved s.status && str_eq s.flow_id fid) scenarios
        → contains
            (map
              (λ (s : Scenario). s.flow_id)
              (elim b [
                | true ↦ s ∷ filter (λ s. is_approved s.status) scenarios
                | false ↦ filter (λ s. is_approved s.status) scenarios
              ]))
            fid
          ≡ ((b && str_eq s.flow_id fid)
              || any (λ s. is_approved s.status && str_eq s.flow_id fid) scenarios)
    first true h = ap (λ x. str_eq s.flow_id fid || x) h
    first false h = h

-- For every tier but risk-based the jobs are one for each flow that has an approved scenario: no
-- flow twice, and a flow exactly when a scenario of it is approved. The tier makes no difference.
pub resolve_flows_for_tier-approved :
    (collate : String → String → Bool) (scenarios : List Scenario) (records : List FlowRisk)
    (w : World) (tier fid : String)
    → str_eq tier "risk-based" ≡ false
    → IsUnique (resolve_flows_for_tier collate scenarios records w tier)
      × (contains (resolve_flows_for_tier collate scenarios records w tier) fid
          ≡ any (λ s. is_approved s.status && str_eq s.flow_id fid) scenarios)
unfolding resolve_flows_for_tier approved_flows
resolve_flows_for_tier-approved collate scenarios records w tier fid h =
    let flows = map (λ (s : Scenario). s.flow_id) (filter (λ s. is_approved s.status) scenarios) in
    rw h (
      sort-IsUnique collate (distinct flows) (distinct-IsUnique flows),
      contains-sort collate fid (distinct flows)
          ∙ contains-distinct fid flows
          ∙ contains-approved fid scenarios,
    )
