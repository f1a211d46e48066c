-- ===== src/Prelude/Lists.antt =====
-- Lists measured by native numbers, predicates on all elements, and lists of texts as sets.
use Prim.Native.Nat.{ℕ, zero, suc, ◌+◌}
use Prim.Native.String.{String}
use mathlib.Core.Path.{◌≡◌, refl, ap, ◌∙◌}
use mathlib.Core.Bool.{Bool, true, false, ◌||◌}
use mathlib.Core.List.{List, [], ◌∷◌, ◌++◌}
use mathlib.Core.Option.{Option, none, some}
use native.Mathlib.Omega.{arith}
use text.Mathlib.Text.{◌==◌ as str_eq}
use text.Mathlib.TextEquality.{eq_iff}
use text.Mathlib.TextPositions.{eq_refl}

module _ {ℓ} {A : Type ℓ} where
  abbrev pub length : List A → ℕ
  length [] = 0
  length (x ∷ xs) = suc (length xs)

  abbrev pub get_elem? : List A → ℕ → Option A
  get_elem? [] i = none
  get_elem? (x ∷ xs) zero = some x
  get_elem? (x ∷ xs) (suc i) = get_elem? xs i

  abbrev pub take : ℕ → List A → List A
  take zero xs = []
  take (suc n) [] = []
  take (suc n) (x ∷ xs) = x ∷ take n xs

  -- Python's `any(p(x) for x in xs)`.
  abbrev pub any : (A → Bool) → List A → Bool
  any p [] = false
  any p (x ∷ xs) = p x || any p xs

  -- Python's `sum(1 for x in xs if p(x))`.
  abbrev pub count : (A → Bool) → List A → ℕ
  count p [] = 0
  count p (x ∷ xs) = (elim (p x) [ true ↦ 1 | false ↦ 0 ]) + count p xs

  -- Python's `[x for x in xs if p(x)]`.
  abbrev pub filter : (A → Bool) → List A → List A
  filter p [] = []
  filter p (x ∷ xs) = elim (p x) [ true ↦ x ∷ filter p xs | false ↦ filter p xs ]

  pub length-append : (xs ys : List A) → length (xs ++ ys) ≡ length xs + length ys
  length-append [] ys = omega arith
  length-append (x ∷ xs) ys = omega (arith, length-append xs ys)

module _ {ℓ κ} {A : Type ℓ} where
  abbrev pub All : (A → Type κ) → List A → Type κ
  All P [] = Unit
  All P (x ∷ xs) = P x × All P xs

  pub All-append : (P : A → Type κ) (xs ys : List A) → All P xs → All P ys → All P (xs ++ ys)
  All-append P [] ys h k = k
  All-append P (x ∷ xs) ys h k = (h.0, All-append P xs ys h.1 k)

  pub All-map : {P Q : A → Type κ} (f : (a : A) → P a → Q a) (xs : List A) → All P xs → All Q xs
  All-map f [] h = tt
  All-map f (x ∷ xs) h = (f x h.0, All-map f xs h.1)

-- `x in xs` for texts.
abbrev pub contains : List String → String → Bool
contains xs a = any (λ x. str_eq x a) xs

pub contains-append :
    (xs ys : List String) (a : String) → contains (xs ++ ys) a ≡ (contains xs a || contains ys a)
contains-append [] ys a = refl
contains-append (x ∷ xs) ys a = ground (arith, contains-append xs ys a)

pub contains-snoc : (xs : List String) (a : String) → contains (xs ++ a ∷ []) a ≡ true
contains-snoc xs a = rw contains-append (ground (arith, eq_refl a))

-- No text stands twice.
abbrev pub IsUnique : List String → Type 0
IsUnique [] = Unit
IsUnique (x ∷ xs) = (contains xs x ≡ false) × IsUnique xs

-- Some member of the list has the property.
pub data Any {ℓ} {A : Type ℓ} (P : A → Type 0) : List A → Type ℓ where
  here : {a : A} {l : List A} → P a → Any P (a ∷ l)
  there : {a : A} {l : List A} → Any P l → Any P (a ∷ l)

-- `a in xs`
abbrev pub IsIn : {A : Type 0} → A → List A → Type 0
IsIn a xs = Any (λ x. x ≡ a) xs

pub All-filter :
    {A : Type 0} (p : A → Bool) (xs : List A) → All (λ x. IsIn x xs × (p x ≡ true)) (filter p xs)
All-filter p [] = tt
All-filter p (x ∷ xs) =
    by_test (All-map (λ y m. (there m.0, m.1)) (filter p xs) (All-filter p xs)) (p x) refl
  where
    by_test :
        All (λ y. IsIn y (x ∷ xs) × (p y ≡ true)) (filter p xs)
        → (b : Bool) → p x ≡ b
        → All
            (λ y. IsIn y (x ∷ xs) × (p y ≡ true))
            (elim b [ true ↦ x ∷ filter p xs | false ↦ filter p xs ])
    by_test rest true e = ((here refl, e), rest)
    by_test rest false e = rest

pub IsIn-filter :
    {A : Type 0} (p : A → Bool) (a : A) (xs : List A)
    → IsIn a xs
    → p a ≡ true
    → IsIn a (filter p xs)
IsIn-filter p a [] i h = elim i [ ]
IsIn-filter p a (x ∷ xs) (here e) h = first (p x) (ap p e ∙ h)
  where
    first : (b : Bool) → b ≡ true → IsIn a (elim b [ true ↦ x ∷ filter p xs | false ↦ filter p xs ])
    first true q = here e
    first false q = absurd cc
IsIn-filter p a (x ∷ xs) (there m) h = kept (IsIn-filter p a xs m h) (p x)
  where
    kept :
        IsIn a (filter p xs)
        → (b : Bool) → IsIn a (elim b [ true ↦ x ∷ filter p xs | false ↦ filter p xs ])
    kept i true = there i
    kept i false = i

pub IsUnique-snoc :
    (xs : List String) (a : String) → IsUnique xs → contains xs a ≡ false → IsUnique (xs ++ a ∷ [])
IsUnique-snoc [] a u h = (refl, tt)
IsUnique-snoc (x ∷ xs) a u h = (
  rw contains-append (ground (arith, eq_iff a x, eq_iff x a, u.0)),
  IsUnique-snoc xs a u.1 (ground arith),
)
