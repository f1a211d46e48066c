-- ===== src/Prelude/Texts.antt =====
-- Texts as lists of code points: `strip`, `lower`, `in` and slices of Python's `str`.
use Prim.Native.Nat.{ℕ, ◌+◌}
use Prim.Native.Char.{code}
use Prim.Native.String.{String}
use mathlib.Core.Path.{◌≡◌, refl, ap}
use mathlib.Core.Bool.{Bool, true, false, ◌&&◌, ◌||◌}
use mathlib.Core.List.{List, [], ◌∷◌, ◌++◌, map, reverse}
use native.Mathlib.Omega.{arith}
use febal_automation_script.Prelude.Tests.{leb, ◌==◌, if◌then◌else◌, Bool-cases, and-true}
use mathlib.Core.Logic.{inl, inr}

abbrev pub Text : Type 0
Text = List ℕ

abbrev pub codes : String → Text
codes String.[] = []
codes (String.◌∷◌ c s) = code c ∷ codes s

-- `str.isspace` of one character.
abbrev pub is_space : ℕ → Bool
is_space c =
    (leb 9 c && leb c 13)
    || (leb 28 c && leb c 32)
    || c == 133
    || c == 160
    || c == 5760
    || (leb 8192 c && leb c 8202)
    || c == 8232
    || c == 8233
    || c == 8239
    || c == 8287
    || c == 12288

unfoldable pub skip_spaces : Text → Text
skip_spaces [] = []
skip_spaces (c ∷ s) = let rest = skip_spaces s in if is_space c then rest else c ∷ s

-- `s.strip()`
unfoldable pub strip : Text → Text
unfolding skip_spaces
strip s = reverse (skip_spaces (reverse (skip_spaces s)))

-- `s.lower()`, of an ASCII text.
abbrev pub lower_code : ℕ → ℕ
lower_code c = if leb b'A' c && leb c b'Z' then c + 32 else c

abbrev pub lower : Text → Text
lower = map lower_code

unfoldable pub text_eq : Text → Text → Bool
text_eq [] [] = true
text_eq (a ∷ s) (b ∷ t) = a == b && text_eq s t
text_eq _ _ = false

unfoldable pub starts_with : Text → Text → Bool
starts_with [] t = true
starts_with (a ∷ s) [] = false
starts_with (a ∷ s) (b ∷ t) = a == b && starts_with s t

-- `part in text`
unfoldable pub is_part : Text → Text → Bool
unfolding starts_with
is_part part [] = starts_with part []
is_part part (c ∷ text) = starts_with part (c ∷ text) || is_part part text

pub text_eq-eq : (s t : Text) → text_eq s t ≡ true → s ≡ t
unfolding text_eq
text_eq-eq [] [] h = refl
text_eq-eq [] (b ∷ t) h = cc
text_eq-eq (a ∷ s) [] h = cc
text_eq-eq (a ∷ s) (b ∷ t) h =
    let (p, q) = and-true (a == b) (text_eq s t) h in ground (arith, text_eq-eq s t q)

pub text_eq_refl : (s : Text) → text_eq s s ≡ true
unfolding text_eq
text_eq_refl [] = refl
text_eq_refl (a ∷ s) = ground (arith, text_eq_refl s)

starts_with-split : (s t : Text) → starts_with s t ≡ true → (rest : Text) × (t ≡ s ++ rest)
unfolding starts_with
starts_with-split [] t h = (t, refl)
starts_with-split (a ∷ s) [] h = cc
starts_with-split (a ∷ s) (b ∷ t) h =
    let (p, q) = and-true (a == b) (starts_with s t) h in
    let (rest, e) = starts_with-split s t q in (rest, ground arith)

starts_with-append : (s rest : Text) → starts_with s (s ++ rest) ≡ true
unfolding starts_with
starts_with-append [] rest = refl
starts_with-append (a ∷ s) rest = ground (arith, starts_with-append s rest)

-- A part is found only where it stands,
pub is_part-split :
    (part text : Text) → is_part part text ≡ true → (p s : Text) × (text ≡ p ++ (part ++ s))
unfolding is_part
is_part-split part [] h = let (rest, e) = starts_with-split part [] h in ([], rest, e)
is_part-split part (c ∷ text) h = elim (Bool-cases (starts_with part (c ∷ text))) [
  | inl e ↦ let (rest, z) = starts_with-split part (c ∷ text) e in ([], rest, z)
  | inr e ↦ let (p, s, z) = is_part-split part text (ground arith) in (c ∷ p, s, ap (λ t. c ∷ t) z)
]

-- and wherever it stands.
pub is_part-append : (p part s : Text) → is_part part (p ++ (part ++ s)) ≡ true
unfolding is_part
is_part-append [] [] [] = refl
is_part-append [] [] (c ∷ s) = refl
is_part-append [] (a ∷ part) s = ground (arith, starts_with-append (a ∷ part) s)
is_part-append (c ∷ p) part s = ground (arith, is_part-append p part s)
