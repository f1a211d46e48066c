-- ===== src/Prelude/Dicts.antt =====
-- Python's `dict` with texts for keys, and the counters of Redis: association lists.
use Prim.Native.Nat.{ℕ, ◌+◌}
use Prim.Native.String.{String}
use mathlib.Core.Path.{◌≡◌, refl}
use mathlib.Core.List.{List, [], ◌∷◌}
use mathlib.Core.Option.{Option, none, some}
use native.Mathlib.Omega.{arith}
use text.Mathlib.Text.{◌==◌ as str_eq}
use text.Mathlib.TextEquality.{eq_iff}
use febal_automation_script.Prelude.Tests.{if◌then◌else◌}

abbrev pub Dict {ℓ} : Type ℓ → Type ℓ
Dict V = List (String × V)

module _ {ℓ} {V : Type ℓ} where
  -- `d.get(k)`
  unfoldable pub lookup : String → Dict V → Option V
  lookup k [] = none
  lookup k ((j, v) ∷ d) = if str_eq j k then some v else lookup k d

  -- `d[k] = v`
  unfoldable pub insert : String → V → Dict V → Dict V
  insert k v [] = (k, v) ∷ []
  insert k v ((j, w) ∷ d) = if str_eq j k then (j, v) ∷ d else (j, w) ∷ insert k v d

  pub lookup-insert :
      (k j : String) (v : V) (d : Dict V)
      → lookup j (insert k v d) ≡ (if str_eq k j then some v else lookup j d)
  unfolding lookup insert
  lookup-insert k j v [] = refl
  lookup-insert k j v ((i, w) ∷ d) =
      ground (arith, eq_iff k j, eq_iff i k, eq_iff i j, lookup-insert k j v d)

abbrev pub or_zero : Option ℕ → ℕ
or_zero none = 0
or_zero (some n) = n

-- `d.get(k, 0)`
abbrev pub count_at : String → Dict ℕ → ℕ
count_at k d = or_zero (lookup k d)

-- `INCRBY k n`
abbrev pub add_at : String → ℕ → Dict ℕ → Dict ℕ
add_at k n d = insert k (count_at k d + n) d

pub count_at-add_at :
    (k j : String) (n : ℕ) (d : Dict ℕ)
    → count_at j (add_at k n d) ≡ (if str_eq k j then count_at j d + n else count_at j d)
count_at-add_at k j n d = ground (arith, lookup-insert k j (count_at k d + n) d, eq_iff k j)
