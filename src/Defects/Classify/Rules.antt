-- ===== src/Defects/Classify/Rules.antt =====
-- The order of the rules, and what a confidence can be.
use febal_automation_script.Prelude.{
  ◌-◌, ◌≤◌, ◌≡◌, refl, Bool, true, false, ◌&&◌, ◌||◌, not, List, [], ◌∷◌, ◌++◌, count, length, All,
  arith, Bool-cases, inl, inr, String,
}
use febal_automation_script.Prelude.Int.{◌+ℤ◌, ◌*ℤ◌, clamp_100}
use febal_automation_script.Defects.Classify.{
  Patterns, Evidence, Class, infrastructure, automation, product_defect, Signal, signal, is_down,
  health_of, has_infra_signature, is_unhealed, classify_rules, if_cited, heal_signal, or_default,
  ClassifierWeights, same_class, class_of, corroboration, conflict, classify,
}

-- The environment is broken by the error text, by its health or by a timeout before the page loads.
abbrev pub is_broken : Patterns → Evidence → Bool
is_broken re e =
    has_infra_signature e.error_text
    || is_down (health_of re e)
    || (re.timed_out e.error_text && not e.page_loaded)

-- The class that the precedence gives: a broken environment, then an unhealed locator.
abbrev pub Follows : Bool → Bool → Class → Type 0
Follows true unhealed cls = cls ≡ infrastructure
Follows false true cls = cls ≡ automation
Follows false false cls = cls ≡ product_defect

-- Signals of one class, from one to three.
abbrev pub AreOf : Class → List Signal → Type 0
AreOf cls cited = All (λ s. class_of s ≡ cls) cited × (1 ≤ length cited) × (length cited ≤ 3)

drifted :
    (locator loaded : Bool) (name : String)
    → AreOf automation (
        signal automation name ∷ if_cited locator automation "locator-miss"
        ++ if_cited loaded automation "page-loaded")
drifted true true name = ((refl, (refl, (refl, tt))), omega arith, omega arith)
drifted true false name = ((refl, (refl, tt)), omega arith, omega arith)
drifted false true name = ((refl, (refl, tt)), omega arith, omega arith)
drifted false false name = ((refl, tt), omega arith, omega arith)

faulty :
    (product loaded : Bool)
    → AreOf product_defect (
        or_default (
          if_cited product product_defect "assertion-or-api"
          ++ if_cited loaded product_defect "page-loaded"))
unfolding or_default
faulty true true = ((refl, (refl, tt)), omega arith, omega arith)
faulty true false = ((refl, tt), omega arith, omega arith)
faulty false true = ((refl, tt), omega arith, omega arith)
faulty false false = ((refl, tt), omega arith, omega arith)

classify_rules_lem :
    (re : Patterns) (e : Evidence)
    → let r = classify_rules re e in
      Follows (is_broken re e) (is_unhealed e.heal_outcome) r.0 × AreOf r.0 r.1
unfolding classify_rules
classify_rules_lem re e = elim (Bool-cases (has_infra_signature e.error_text)) [
  | inl a ↦ rw a (elim (Bool-cases (is_down (health_of re e))) [
    | inl b ↦ rw b (refl, ((refl, (refl, tt)), omega arith, omega arith))
    | inr b ↦ rw b (refl, ((refl, tt), omega arith, omega arith))
  ])
  | inr a ↦ rw a (elim (Bool-cases (is_down (health_of re e))) [
    | inl b ↦ rw b (refl, ((refl, tt), omega arith, omega arith))
    | inr b ↦ rw b (elim (Bool-cases (re.timed_out e.error_text && not e.page_loaded)) [
      | inl c ↦ rw c (refl, ((refl, tt), omega arith, omega arith))
      | inr c ↦ rw c (elim (Bool-cases (is_unhealed e.heal_outcome)) [
        | inl d ↦
            rw d
              (refl, drifted (re.locator e.error_text) e.page_loaded (heal_signal e.heal_outcome))
        | inr d ↦ rw d (refl, faulty (re.product e.error_text) e.page_loaded)
      ])
    ])
  ])
]

count-same :
    (cls : Class) (cited : List Signal)
    → All (λ s. class_of s ≡ cls) cited
    → (corroboration cls cited ≡ length cited - 1) × (conflict cls cited ≡ 0)
unfolding corroboration conflict
count-same cls cited h = let (a, b) = counts cls cited h in (rw a refl, b)
  where
    same_refl : (c : Class) → same_class c c ≡ true
    same_refl infrastructure = refl
    same_refl automation = refl
    same_refl product_defect = refl

    counts :
        (c : Class) (xs : List Signal)
        → All (λ s. class_of s ≡ c) xs
        → (count (λ s. same_class c (class_of s)) xs ≡ length xs)
          × (count (λ s. not (same_class c (class_of s))) xs ≡ 0)
    counts c [] k = (refl, refl)
    counts c (x ∷ xs) k =
        let (a, b) = counts c xs k.1 in
        (rw (k.0, same_refl c, a) (omega arith), rw (k.0, same_refl c) (omega (arith, b)))

-- The class is an infrastructure failure if the environment is broken, else an automation failure if
-- the locator was left unhealed, else a product defect. One to three signals are cited, all of that
-- class, so no signal conflicts: the confidence depends on their number only.
pub classify_lem :
    (re : Patterns) (e : Evidence) (w : ClassifierWeights)
    → let d = classify re e w in
      Follows (is_broken re e) (is_unhealed e.heal_outcome) d.classification
      × AreOf d.classification d.cited
      × (d.confidence
          ≡ clamp_100 (
              w.strong_class_signal
              +ℤ w.corroborating_signal *ℤ (length d.cited - 1)
              +ℤ w.weak_or_conflicting *ℤ 0))
unfolding classify
classify_lem re e w =
    let (f, a) = classify_rules_lem re e in
    let (c, d) = count-same _ _ a.0 in (f, a, rw (c, d) refl)
