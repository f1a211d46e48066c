-- ===== src/Prelude/Strings.antt =====
-- Texts as strings: f-strings, slices, `or` and `" ".join`.
use Prim.Native.Nat.{ℕ, zero, suc}
use Prim.Native.String.{String}
use mathlib.Core.List.{List, [], ◌∷◌}

abbrev pub append : String → String → String
append String.[] t = t
append (String.◌∷◌ c s) t = String.◌∷◌ c (append s t)

abbrev pub take_chars : ℕ → String → String
take_chars zero s = ""
take_chars (suc n) String.[] = ""
take_chars (suc n) (String.◌∷◌ c s) = String.◌∷◌ c (take_chars n s)

-- `a or b`
abbrev pub or_string : String → String → String
or_string String.[] b = b
or_string (String.◌∷◌ c s) b = String.◌∷◌ c s

-- `separator.join(parts)`
abbrev pub join : String → List String → String
join separator [] = ""
join separator (s ∷ []) = s
join separator (s ∷ t ∷ parts) = append s (append separator (join separator (t ∷ parts)))
