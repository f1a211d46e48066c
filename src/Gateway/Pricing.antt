-- ===== src/Gateway/Pricing.antt =====
-- The price table and the cost of a call (core/llm_pricing.py).
-- A price is in cents for a million tokens, so that a token costs a hundredth of it in
-- micro-dollars; a date is the number yyyymmdd.
use Prim.Native.Char.{code}
use febal_automation_script.Prelude.{
  ℕ, ◌+◌, ◌*◌, ◌/◌, ◌≤◌, String, ◌≡◌, Bool, ◌&&◌, Option, none, some, List, [], ◌∷◌, arith, leb,
  ◌==◌, if◌then◌else◌, str_eq, eq_iff, All,
}

pub record PriceRow : Type 0 where
  pub model : String
  pub input_per_mtok : ℕ
  pub output_per_mtok : ℕ
  pub effective_date : ℕ

abbrev pub pricing : List PriceRow
pricing =
    record {
      model = "claude-sonnet-4-5";
      input_per_mtok = 300;
      output_per_mtok = 1500;
      effective_date = 20260101;
    }
    ∷ record {
      model = "gpt-4.1";
      input_per_mtok = 200;
      output_per_mtok = 800;
      effective_date = 20260101;
    }
    ∷ []

-- `model.partition(":")`: what stands behind the first colon, if there is one.
after_colon : String → Option String
after_colon String.[] = none
after_colon (String.◌∷◌ c s) = if code c == b':' then some s else after_colon s

bare_of : Option String → String → String
bare_of (some rest) model = rest
bare_of none model = model

unfoldable pub bare_model : String → String
unfolding after_colon bare_of
bare_model model = bare_of (after_colon model) model

eligible : String → ℕ → PriceRow → Bool
eligible bare at row = str_eq row.model bare && leb row.effective_date at

later_of : Option PriceRow → PriceRow → PriceRow
later_of none row = row
later_of (some best) row = if leb best.effective_date row.effective_date then row else best

-- `sorted(eligible rows, key=effective_date)[-1]`: the sort is stable, so of two rows with one date
-- the one further down the table is last.
latest : String → ℕ → Option PriceRow → List PriceRow → Option PriceRow
latest bare at best [] = best
latest bare at best (row ∷ rows) =
    latest bare at (if eligible bare at row then some (later_of best row) else best) rows

-- `none` is `UnknownModelPriceError`.
unfoldable pub lookup_price : List PriceRow → String → ℕ → Option PriceRow
unfolding latest eligible later_of
lookup_price rows model at = latest (bare_model model) at none rows

-- Rounded half up to a whole micro-dollar.
unfoldable pub compute_cost : PriceRow → ℕ → ℕ → ℕ
compute_cost price input_tokens output_tokens =
    (input_tokens * price.input_per_mtok + output_tokens * price.output_per_mtok + 50) / 100

-- A call with no more tokens costs no more.
pub compute_cost_mono :
    (p : PriceRow) (i i' o o' : ℕ) → i ≤ i' → o ≤ o' → compute_cost p i o ≤ compute_cost p i' o'
unfolding compute_cost
compute_cost_mono p i i' o o' h k =
    omega (arith, mul_mono i i' p.input_per_mtok h, mul_mono o o' p.output_per_mtok k)
  where
    mul_mono : (a b c : ℕ) → a ≤ b → a * c ≤ b * c
    mul_mono a b c l = grind arith

-- The result of a price lookup: the eligible row that no eligible row outdates, or no eligible row.
abbrev pub IsPriceFor : String → ℕ → List PriceRow → Option PriceRow → Type 0
IsPriceFor bare at rows none = All (λ r. (r.model ≡ bare) → (r.effective_date ≤ at) → ⊥) rows
IsPriceFor bare at rows (some best) =
    (best.model ≡ bare)
    × (best.effective_date ≤ at)
    × All
        (λ r. (r.model ≡ bare) → (r.effective_date ≤ at) → (r.effective_date ≤ best.effective_date))
        rows

-- The same of the loop, which starts from an eligible row or from none.
abbrev IsEligible : String → ℕ → Option PriceRow → Type 0
IsEligible bare at none = Unit
IsEligible bare at (some b) = (b.model ≡ bare) × (b.effective_date ≤ at)

abbrev IsNoEarlier : Option PriceRow → Option PriceRow → Type 0
IsNoEarlier none result = Unit
IsNoEarlier (some b) none = ⊥
IsNoEarlier (some b) (some x) = b.effective_date ≤ x.effective_date

abbrev next_best : String → ℕ → Option PriceRow → PriceRow → Option PriceRow
next_best bare at best row = if eligible bare at row then some (later_of best row) else best

IsEligible-next_best :
    (bare : String) (at : ℕ) (best : Option PriceRow) (row : PriceRow)
    → IsEligible bare at best
    → IsEligible bare at (next_best bare at best row)
unfolding eligible later_of
IsEligible-next_best bare at none row e = ground (arith, eq_iff row.model bare)
IsEligible-next_best bare at (some b) row e = ground (arith, eq_iff row.model bare)

next_best-step :
    (bare : String) (at : ℕ) (best : Option PriceRow) (row : PriceRow) (rows : List PriceRow)
    (result : Option PriceRow)
    → IsPriceFor bare at rows result × IsNoEarlier (next_best bare at best row) result
    → IsPriceFor bare at (row ∷ rows) result × IsNoEarlier best result
unfolding eligible later_of
next_best-step bare at none row rows none h = ground (arith, eq_iff row.model bare)
next_best-step bare at none row rows (some x) h = ground (arith, eq_iff row.model bare)
next_best-step bare at (some b) row rows none h = ground (arith, eq_iff row.model bare)
next_best-step bare at (some b) row rows (some x) h = ground (arith, eq_iff row.model bare)

latest_lem :
    (bare : String) (at : ℕ) (best : Option PriceRow) (rows : List PriceRow)
    → IsEligible bare at best
    → IsPriceFor bare at rows (latest bare at best rows)
      × IsNoEarlier best (latest bare at best rows)
unfolding latest
latest_lem bare at none [] e = (tt, tt)
latest_lem bare at (some b) [] e = ((e.0, e.1, tt), omega arith)
latest_lem bare at best (row ∷ rows) e =
    next_best-step bare at best row rows _ (
      latest_lem bare at (next_best bare at best row) rows
        (IsEligible-next_best bare at best row e))

-- Whatever the table, a lookup returns a row of the bare model that is in force at the date and that
-- no other such row outdates, and it fails only if the table has no such row.
pub lookup_price_correct :
    (rows : List PriceRow) (model : String) (at : ℕ)
    → IsPriceFor (bare_model model) at rows (lookup_price rows model at)
unfolding lookup_price
lookup_price_correct rows model at = (latest_lem (bare_model model) at none rows tt).0
