-- ===== src/Healing/Outcome.antt =====
-- The outcome of a heal (services/healing/confidence.py) and the statistics per element
-- (services/healing/stats.py). A confidence is in thousandths.
use febal_automation_script.Prelude.{
  ℕ, ◌+◌, ◌≤◌, ◌<◌, ◌≡◌, ◌≢◌, ◌⊎◌, inl, inr, Bool-cases, Bool, true, false, ◌&&◌, not, Option, some,
  List, [], ◌∷◌, count, filter, length, leb, ◌==◌, String, str_eq, arith, if◌then◌else◌,
}

pub data Outcome : Type 0 where
  auto_heal quarantine fail_as_defect applied rejected : Outcome

unfoldable pub heal_outcome : ℕ → ℕ → ℕ → ℕ → Outcome
heal_outcome conf live_match_count high med =
    if not (live_match_count == 1)
    then fail_as_defect
    else if leb high conf
    then auto_heal
    else if leb med conf
    then quarantine
    else fail_as_defect

-- What an outcome says of the confidence and of the matches in the live page.
abbrev pub Warrants : ℕ → ℕ → ℕ → ℕ → Outcome → Type 0
Warrants conf matches high med auto_heal = (matches ≡ 1) × (high ≤ conf)
Warrants conf matches high med quarantine = (matches ≡ 1) × (med ≤ conf) × (conf < high)
Warrants conf matches high med fail_as_defect = (matches ≢ 1) ⊎ ((conf < high) × (conf < med))
Warrants conf matches high med _ = ⊥

-- An element heals by itself only at the high threshold and with exactly one match, and is held for
-- review only between the thresholds and with one match; all else fails, and nothing else comes out.
pub heal_outcome_lem :
    (conf matches high med : ℕ)
    → Warrants conf matches high med (heal_outcome conf matches high med)
unfolding heal_outcome
heal_outcome_lem conf matches high med = elim (Bool-cases (matches == 1)) [
  | inr a ↦ rw a (inl (ground (arith, a)))
  | inl a ↦ rw a (elim (Bool-cases (leb high conf)) [
    | inl b ↦ rw b (ground (arith, a), ground (arith, b))
    | inr b ↦ rw b (elim (Bool-cases (leb med conf)) [
      | inl c ↦ rw c (ground (arith, a), ground (arith, c), ground (arith, b))
      | inr c ↦ rw c (inr (ground (arith, b), ground (arith, c)))
    ])
  ])
]

-- A row of heal_audit, as far as the statistics read it.
pub record AuditRow : Type 0 where
  pub element_key : String
  pub outcome : Outcome
  pub reviewed_outcome : Option Outcome

abbrev pub is_healed : Outcome → Bool
is_healed auto_heal = true
is_healed applied = true
is_healed _ = false

abbrev pub is_auto : Outcome → Bool
is_auto auto_heal = true
is_auto _ = false

abbrev pub is_rejected : Option Outcome → Bool
is_rejected (some rejected) = true
is_rejected _ = false

-- The counts of an element; its rates are healed / attempts, and rejected_heals / auto_heals or zero.
pub record HealStats : Type 0 where
  pub attempts : ℕ
  pub healed : ℕ
  pub auto_heals : ℕ
  pub rejected_heals : ℕ

unfoldable pub heal_stats : String → List AuditRow → HealStats
heal_stats element_key rows =
    let mine = filter (λ r. str_eq r.element_key element_key) rows in
    record {
      attempts = length mine;
      healed = count (λ r. is_healed r.outcome && not (is_rejected r.reviewed_outcome)) mine;
      auto_heals = count (λ r. is_auto r.outcome) mine;
      rejected_heals = count (λ r. is_rejected r.reviewed_outcome) mine;
    }

count-le {ℓ} :
    {A : Type ℓ} (p q : A → Bool) (xs : List A)
    → ((a : A) → p a ≡ true → q a ≡ false)
    → count p xs + count q xs ≤ length xs
count-le p q [] h = omega arith
count-le p q (x ∷ xs) h = elim (Bool-cases (p x)) [
  | inl e ↦ rw (e, h x e) (omega (arith, count-le p q xs h))
  | inr e ↦ rw e (elim (Bool-cases (q x)) [
    | inl f ↦ rw f (omega (arith, count-le p q xs h))
    | inr f ↦ rw f (omega (arith, count-le p q xs h))
  ])
]

-- The landed heals and the rejected ones of an element are different attempts, so the success rate is
-- at most one, less the share of the rejected.
pub heal_stats-healed :
    (element_key : String) (rows : List AuditRow)
    → let s = heal_stats element_key rows in s.healed + s.rejected_heals ≤ s.attempts
unfolding heal_stats
heal_stats-healed element_key rows =
    count-le (λ r. is_healed r.outcome && not (is_rejected r.reviewed_outcome))
      (λ r. is_rejected r.reviewed_outcome) (filter (λ r. str_eq r.element_key element_key) rows)
      (λ r h. ground (arith, h))
