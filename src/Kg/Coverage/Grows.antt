-- ===== src/Kg/Coverage/Grows.antt =====
-- Coverage is a share of the ground truth, and grows with what is discovered:
-- apps/api/app/services/kg/coverage.py.
use febal_automation_script.Prelude.{
  ℕ, suc, ◌+◌, ◌≤◌, any, Bool, true, false, ◌&&◌, ◌||◌, ◌≡◌, refl, ◌∙◌, ap, sym, List, [], ◌∷◌,
  ◌++◌, map, filter, count, length, contains, Option, none, some, String, str_eq, arith, and-true,
}
use febal_automation_script.Kg.Coverage.{
  TruthPage, TruthFlow, GroundTruth, FoundPage, in_fps, cons_given, fps_of, normalize_url, urls_of,
  page_matches, is_reached, compute_coverage,
}

-- One list of names holds what the other holds.
abbrev Holds : List String → List String → Type 0
Holds xs ys = (a : String) → contains xs a ≡ true → contains ys a ≡ true

-- The greater part of a count.
add_le :
    (b c : Bool) (m n : ℕ)
    → (b ≡ true → c ≡ true)
    → m ≤ n
    → (elim b as (λ x. ℕ) [ true ↦ 1 | false ↦ 0 ]) + m
      ≤ (elim c as (λ x. ℕ) [ true ↦ 1 | false ↦ 0 ]) + n
add_le true true m n h k = omega (arith, k)
add_le true false m n h k = absurd (clash (h refl))
  where
    clash : false ≡ true → ⊥
    clash e = cc
add_le false true m n h k = omega (arith, k)
add_le false false m n h k = omega (arith, k)

count_le :
    {A : Type 0} (p q : A → Bool) (xs : List A)
    → ((a : A) → p a ≡ true → q a ≡ true)
    → count p xs ≤ count q xs
count_le p q [] h = omega arith
count_le p q (x ∷ xs) h = add_le (p x) (q x) (count p xs) (count q xs) (h x) (count_le p q xs h)

length-filter : {A : Type 0} (p : A → Bool) (xs : List A) → length (filter p xs) ≡ count p xs
length-filter p [] = refl
length-filter {A = A} p (x ∷ xs) = first (p x) (length-filter p xs)
  where
    first :
        (b : Bool)
        → length (filter p xs) ≡ count p xs
        → length (elim b as (λ c. List A) [ true ↦ x ∷ filter p xs | false ↦ filter p xs ])
          ≡ (elim b as (λ c. ℕ) [ true ↦ 1 | false ↦ 0 ]) + count p xs
    first true e = omega (arith, e)
    first false e = omega (arith, e)

filter_le :
    {A : Type 0} (p q : A → Bool) (xs : List A)
    → ((a : A) → p a ≡ true → q a ≡ true)
    → length (filter p xs) ≤ length (filter q xs)
filter_le p q xs h = omega (arith, length-filter p xs, length-filter q xs, count_le p q xs h)

count-length_le : {A : Type 0} (p : A → Bool) (xs : List A) → count p xs ≤ length xs
count-length_le p [] = omega arith
count-length_le p (x ∷ xs) = at_most (p x) (count-length_le p xs)
  where
    at_most :
        (b : Bool)
        → count p xs ≤ length xs
        → (elim b as (λ c. ℕ) [ true ↦ 1 | false ↦ 0 ]) + count p xs ≤ suc (length xs)
    at_most true e = omega (arith, e)
    at_most false e = omega (arith, e)

-- The names of a filtered list.
contains-names :
    (p : TruthPage → Bool) (a : String) (xs : List TruthPage)
    → contains (map (λ (g : TruthPage). g.name) (filter p xs)) a
      ≡ any (λ (g : TruthPage). p g && str_eq g.name a) xs
contains-names p a [] = refl
contains-names p a (x ∷ xs) = first (p x) (contains-names p a xs)
  where
    first :
        (b : Bool)
        → contains (map (λ (g : TruthPage). g.name) (filter p xs)) a
          ≡ any (λ (g : TruthPage). p g && str_eq g.name a) xs
        → contains
            (map
              (λ (g : TruthPage). g.name)
              (elim b as (λ c. List TruthPage) [ true ↦ x ∷ filter p xs | false ↦ filter p xs ]))
            a
          ≡ ((b && str_eq x.name a) || any (λ (g : TruthPage). p g && str_eq g.name a) xs)
    first true e = ap (λ c. str_eq x.name a || c) e
    first false e = e

any_more :
    {A : Type 0} (p q : A → Bool) (xs : List A)
    → ((a : A) → p a ≡ true → q a ≡ true)
    → any p xs ≡ true
    → any q xs ≡ true
any_more p q [] h e = e
any_more p q (x ∷ xs) h e = ground (arith, h x, any_more p q xs h)

names-Holds :
    (p q : TruthPage → Bool) (xs : List TruthPage)
    → ((g : TruthPage) → p g ≡ true → q g ≡ true)
    → Holds
        (map (λ (g : TruthPage). g.name) (filter p xs))
        (map (λ (g : TruthPage). g.name) (filter q xs))
names-Holds p q xs h a e =
    contains-names q a xs
    ∙ any_more (λ g. p g && str_eq g.name a) (λ g. q g && str_eq g.name a) xs
        (λ g k. let (m, n) = and-true (p g) (str_eq g.name a) k in rw (h g m, n) refl)
        (sym (contains-names p a xs) ∙ e)

is_reached-Holds :
    (xs ys : List String)
    → Holds xs ys
    → (flow : TruthFlow) → is_reached xs flow ≡ true
    → is_reached ys flow ≡ true
is_reached-Holds xs ys h [] e = refl
is_reached-Holds xs ys h (name ∷ flow) e =
    let (m, n) = and-true (contains xs name) (is_reached xs flow) e in
    rw (h name m, is_reached-Holds xs ys h flow n) refl

fps-Holds : (found more : List FoundPage) → Holds (fps_of found) (fps_of (found ++ more))
fps-Holds [] more a e = absurd cc
fps-Holds (p ∷ found) more a e = given p.fingerprint (fps-Holds found more a) e
  where
    given :
        (o : Option String)
        → (contains (fps_of found) a ≡ true → contains (fps_of (found ++ more)) a ≡ true)
        → contains (cons_given o (fps_of found)) a ≡ true
        → contains (cons_given o (fps_of (found ++ more))) a ≡ true
    given none h k = h k
    given (some String.[]) h k = h k
    given (some (String.◌∷◌ c s)) h k = ground (arith, h, k)

in_fps-Holds :
    (o : Option String) (xs ys : List String)
    → Holds xs ys
    → in_fps o xs ≡ true
    → in_fps o ys ≡ true
in_fps-Holds none xs ys h e = e
in_fps-Holds (some String.[]) xs ys h e = e
in_fps-Holds (some (String.◌∷◌ c s)) xs ys h e = h (String.◌∷◌ c s) e

module _ (path_of : String → String) where
  urls-Holds :
      (found more : List FoundPage)
      → Holds (urls_of path_of found) (urls_of path_of (found ++ more))
  urls-Holds [] more a e = absurd cc
  urls-Holds (p ∷ found) more a e = ground (arith, urls-Holds found more a, e)

  matches_more :
      (found more : List FoundPage) (g : TruthPage)
      → page_matches path_of g (urls_of path_of found) (fps_of found) ≡ true
      → page_matches path_of g (urls_of path_of (found ++ more)) (fps_of (found ++ more)) ≡ true
  unfolding page_matches
  matches_more found more g e = ground (
    arith,
    e,
    in_fps-Holds g.fingerprint (fps_of found) (fps_of (found ++ more)) (fps-Holds found more),
    urls-Holds found more (normalize_url path_of g.url),
  )

-- Discovering more pages never lowers the pages and flows that are covered, and these are never more
-- than those of the ground truth.
pub compute_coverage-grows :
    (path_of : String → String) (gt : GroundTruth) (found more : List FoundPage)
    → let before = compute_coverage path_of gt found in
      let after = compute_coverage path_of gt (found ++ more) in
      (before.screens_covered ≤ after.screens_covered)
      × (after.screens_covered ≤ after.screens_total)
      × (before.flows_covered ≤ after.flows_covered)
      × (after.flows_covered ≤ after.flows_total)
unfolding compute_coverage
compute_coverage-grows path_of gt found more =
    let p : TruthPage → Bool = λ g. page_matches path_of g (urls_of path_of found) (fps_of found) in
    let q : TruthPage → Bool =
      λ g. page_matches path_of g (urls_of path_of (found ++ more)) (fps_of (found ++ more)) in
    let held = names-Holds p q gt.pages (matches_more path_of found more) in
    (
      filter_le p q gt.pages (matches_more path_of found more),
      omega (arith, length-filter q gt.pages, count-length_le q gt.pages),
      count_le _ _ gt.flows (is_reached-Holds _ _ held),
      count-length_le _ gt.flows,
    )
