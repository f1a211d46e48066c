-- ===== src/Execution/Rank/Order.antt =====
-- The order of the risk-based suite.
use native.Mathlib.Nat.{le_of_mul-le-mul_right, mul-le-mul_right}
use febal_automation_script.Prelude.{
  ℕ, ◌*◌, ◌≤◌, ◌<◌, zero, suc, true, false, ◌≡◌, refl, ◌⊎◌, inl, inr, List, [], ◌∷◌, map, take,
  length, arith, All, All-map, IsIn, here, there, Bool-cases, Dict, subst,
}
use febal_automation_script.Execution.Store.{World, sort, insert_sorted}
use febal_automation_script.Execution.Rank.{
  RiskRankWeights, FlowRisk, Ranked, Rate, combine, is_above, rank_risk_flows, failure_rate,
}

-- `a` has at most the combined risk of `b`, as fractions.
abbrev pub IsAtMost : Ranked → Ranked → Type 0
IsAtMost a b = a.numerator * b.denominator ≤ b.numerator * a.denominator

abbrev pub IsDescending : List Ranked → Type 0
IsDescending [] = Unit
IsDescending (a ∷ l) = All (λ b. IsAtMost b a) l × IsDescending l

abbrev IsPositive : Ranked → Type 0
IsPositive a = 0 < a.denominator

IsAtMost-trans : (a b c : Ranked) → IsPositive b → IsAtMost a b → IsAtMost b c → IsAtMost a c
IsAtMost-trans a b c p h k =
    le_of_mul-le-mul_right {k = b.denominator}
      (omega (arith, mul-le-mul_right c.denominator h, mul-le-mul_right a.denominator k)) p

above-IsAtMost : (a b : Ranked) → is_above b a ≡ true → IsAtMost a b
above-IsAtMost a b h = ground arith

not_above-IsAtMost : (a b : Ranked) → is_above b a ≡ false → IsAtMost b a
not_above-IsAtMost a b h = ground arith

insert-All :
    (P : Ranked → Type 0) (a : Ranked) (l : List Ranked)
    → P a
    → All P l
    → All P (insert_sorted is_above a l)
unfolding insert_sorted
insert-All P a [] p h = (p, tt)
insert-All P a (b ∷ l) p h = elim (Bool-cases (is_above b a)) [
  | inl e ↦ rw e (h.0, insert-All P a l p h.1)
  | inr e ↦ rw e (p, h)
]

insert-IsDescending :
    (a : Ranked) (l : List Ranked)
    → IsPositive a
    → All IsPositive l
    → IsDescending l
    → IsDescending (insert_sorted is_above a l)
unfolding insert_sorted
insert-IsDescending a [] p ps h = (tt, tt)
insert-IsDescending a (b ∷ l) p ps h = elim (Bool-cases (is_above b a)) [
  | inl e ↦ rw e (
    insert-All (λ c. IsAtMost c b) a l (above-IsAtMost a b e) h.0,
    insert-IsDescending a l p ps.1 h.1,
  )
  | inr e ↦ rw e (
    (
      not_above-IsAtMost a b e,
      All-map (λ c k. IsAtMost-trans c b a ps.0 k (not_above-IsAtMost a b e)) l h.0,
    ),
    h,
  )
]

sort-All : (P : Ranked → Type 0) (l : List Ranked) → All P l → All P (sort is_above l)
unfolding sort
sort-All P [] h = tt
sort-All P (a ∷ l) h = insert-All P a (sort is_above l) h.0 (sort-All P l h.1)

sort-IsDescending : (l : List Ranked) → All IsPositive l → IsDescending (sort is_above l)
unfolding sort
sort-IsDescending [] h = tt
sort-IsDescending (a ∷ l) h =
    insert-IsDescending a (sort is_above l) h.0 (sort-All IsPositive l h.1)
      (sort-IsDescending l h.1)

IsIn-insert_self : (a : Ranked) (l : List Ranked) → IsIn a (insert_sorted is_above a l)
unfolding insert_sorted
IsIn-insert_self a [] = here refl
IsIn-insert_self a (b ∷ l) = elim (Bool-cases (is_above b a)) [
  | inl e ↦ rw e (there (IsIn-insert_self a l))
  | inr e ↦ rw e (here refl)
]

IsIn-insert : (a c : Ranked) (l : List Ranked) → IsIn c l → IsIn c (insert_sorted is_above a l)
unfolding insert_sorted
IsIn-insert a c [] m = elim m [ ]
IsIn-insert a c (b ∷ l) (here e) = elim (Bool-cases (is_above b a)) [
  | inl h ↦ rw h (here e)
  | inr h ↦ rw h (there (here e))
]
IsIn-insert a c (b ∷ l) (there m) = elim (Bool-cases (is_above b a)) [
  | inl h ↦ rw h (there (IsIn-insert a c l m))
  | inr h ↦ rw h (there (there m))
]

IsIn-sort : (c : Ranked) (l : List Ranked) → IsIn c l → IsIn c (sort is_above l)
unfolding sort
IsIn-sort c [] m = elim m [ ]
IsIn-sort c (a ∷ l) (here e) =
    subst (λ x. IsIn x (insert_sorted is_above a (sort is_above l))) e
      (IsIn-insert_self a (sort is_above l))
IsIn-sort c (a ∷ l) (there m) = IsIn-insert a c (sort is_above l) (IsIn-sort c l m)

take-All : (P : Ranked → Type 0) (n : ℕ) (l : List Ranked) → All P l → All P (take n l)
take-All P zero l h = tt
take-All P (suc n) [] h = tt
take-All P (suc n) (a ∷ l) h = (h.0, take-All P n l h.1)

take-IsDescending : (n : ℕ) (l : List Ranked) → IsDescending l → IsDescending (take n l)
take-IsDescending zero l h = tt
take-IsDescending (suc n) [] h = tt
take-IsDescending (suc n) (a ∷ l) h =
    (take-All (λ b. IsAtMost b a) n l h.0, take-IsDescending n l h.1)

length-take : (n : ℕ) (l : List Ranked) → length (take n l) ≤ n
length-take zero l = omega arith
length-take (suc n) [] = omega arith
length-take (suc n) (a ∷ l) = omega (arith, length-take n l)

-- A flow is in the suite, or the suite is full of flows with at least its risk.
abbrev pub IsServed : ℕ → List Ranked → Ranked → Type 0
IsServed n l a = IsIn a l ⊎ ((length l ≡ n) × All (λ b. IsAtMost a b) l)

IsServed-cons :
    (n : ℕ) (l : List Ranked) (a b : Ranked)
    → IsAtMost b a
    → IsServed n l b
    → IsServed (suc n) (a ∷ l) b
IsServed-cons n l a b k (inl m) = inl (there m)
IsServed-cons n l a b k (inr h) = inr (omega (arith, h.0), (k, h.1))

All-IsIn : (P : Ranked → Type 0) (l : List Ranked) (a : Ranked) → All P l → IsIn a l → P a
All-IsIn P [] a h m = elim m [ ]
All-IsIn P (b ∷ l) a h (here e) = subst P e h.0
All-IsIn P (b ∷ l) a h (there m) = All-IsIn P l a h.1 m

take-IsServed :
    (n : ℕ) (l : List Ranked) (a : Ranked) → IsDescending l → IsIn a l → IsServed n (take n l) a
take-IsServed zero l a d m = inr (refl, tt)
take-IsServed (suc n) [] a d m = elim m [ ]
take-IsServed (suc n) (b ∷ l) a d (here e) = inl (here e)
take-IsServed (suc n) (b ∷ l) a d (there m) =
    IsServed-cons n (take n l) b a (All-IsIn (λ c. IsAtMost c b) l a d.0 m)
      (take-IsServed n l a d.1 m)

combined-IsPositive :
    (weights : RiskRankWeights) (rates : Dict Rate) (records : List FlowRisk)
    → All IsPositive (map (combine weights rates) records)
unfolding combine
combined-IsPositive weights rates [] = tt
combined-IsPositive weights rates (r ∷ records) =
    (ground arith, combined-IsPositive weights rates records)

All-IsIn_self : (l : List Ranked) → All (λ a. IsIn a l) l
All-IsIn_self [] = tt
All-IsIn_self (a ∷ l) = (here refl, All-map (λ b m. there m) l (All-IsIn_self l))

-- The combined risk of every flow, whatever its place.
abbrev pub combined : RiskRankWeights → List FlowRisk → World → List Ranked
combined weights records w =
    map (combine weights (failure_rate w (map (λ (r : FlowRisk). r.id) records) 10)) records

-- The risk-based suite has at most `top_n` flows, of falling combined risk; each of them has the
-- combined risk of a flow of the graph; and every flow of the graph is in it, or it is full of flows
-- whose combined risk is at least that flow's.
pub rank_risk_flows-IsTop :
    (weights : RiskRankWeights) (records : List FlowRisk) (w : World)
    → (length (rank_risk_flows weights records w) ≤ weights.top_n)
      × IsDescending (rank_risk_flows weights records w)
      × All (λ a. IsIn a (combined weights records w)) (rank_risk_flows weights records w)
      × ((a : Ranked)
          → IsIn a (combined weights records w)
          → IsServed weights.top_n (rank_risk_flows weights records w) a)
unfolding rank_risk_flows
rank_risk_flows-IsTop weights records w =
    let l = combined weights records w in
    let d = sort-IsDescending l (combined-IsPositive weights _ records) in
    (
      length-take weights.top_n (sort is_above l),
      take-IsDescending weights.top_n (sort is_above l) d,
      take-All (λ a. IsIn a l) weights.top_n (sort is_above l)
          (sort-All (λ a. IsIn a l) l (All-IsIn_self l)),
      λ a m. take-IsServed weights.top_n (sort is_above l) a d (IsIn-sort a l m),
    )
