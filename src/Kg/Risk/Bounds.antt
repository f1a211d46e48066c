-- ===== src/Kg/Risk/Bounds.antt =====
-- Riskier signals never lower the score.
use febal_automation_script.Prelude.{
  ℕ, zero, suc, ◌*◌, ◌≤◌, ◌≡◌, refl, Bool, true, false, arith, if◌then◌else◌,
}
use febal_automation_script.Prelude.Int.{
  ℤ, pos, negsuc, ◌+ℤ◌, ◌*ℤ◌, ◌≤ℤ◌, clamp_100, clamp_100_le, clamp_100_mono, +ℤ_parts, *ℤ_parts,
}
use febal_automation_script.Kg.Risk.{
  RiskWeights, Signals, raw, risk_score, risk_tier, Tier, low, medium, high,
}

abbrev pub IsNonneg : RiskWeights → Type 0
IsNonneg w =
    (pos 0 ≤ℤ w.destructive_action)
    × (pos 0 ≤ℤ w.per_state_change)
    × (pos 0 ≤ℤ w.auth_gated_step)
    × (pos 0 ≤ℤ w.per_form)
    × (pos 0 ≤ℤ w.depth)

-- No signal is weaker on the left.
abbrev pub IsMilder : Signals → Signals → Type 0
IsMilder s t =
    (s.has_destructive ≡ true → t.has_destructive ≡ true)
    × (s.state_change_edges ≤ t.state_change_edges)
    × (s.auth_gated_steps ≤ t.auth_gated_steps)
    × (s.form_count ≤ t.form_count)
    × (s.path_length ≤ t.path_length)

times_mono : (a m n : ℕ) → m ≤ n → a * m ≤ a * n
times_mono zero m n h = omega arith
times_mono (suc a) m n h = omega (arith, times_mono a m n h)

*ℤ_mono : (a : ℤ) (m n : ℕ) → pos 0 ≤ℤ a → m ≤ n → a *ℤ m ≤ℤ a *ℤ n
*ℤ_mono (pos a) m n h k = omega (arith, times_mono a m n k, *ℤ_parts (pos a) m, *ℤ_parts (pos a) n)
*ℤ_mono (negsuc a) m n h k = absurd (omega arith)

+ℤ_mono : (a b c d : ℤ) → a ≤ℤ b → c ≤ℤ d → a +ℤ c ≤ℤ b +ℤ d
+ℤ_mono a b c d h k = omega (arith, +ℤ_parts a c, +ℤ_parts b d)

if_mono :
    (p q : Bool) (a : ℤ)
    → pos 0 ≤ℤ a
    → (p ≡ true → q ≡ true)
    → (if p then a else pos 0) ≤ℤ (if q then a else pos 0)
if_mono true true a h k = omega arith
if_mono true false a h k = absurd (let e = k refl in cc)
if_mono false true a h k = h
if_mono false false a h k = omega arith

-- The order of the tiers: low, medium, high.
abbrev pub rank : Tier → ℕ
rank low = 0
rank medium = 1
rank high = 2

raw_mono : (s t : Signals) (w : RiskWeights) → IsNonneg w → IsMilder s t → raw s w ≤ℤ raw t w
raw_mono s t w (wa, wb, wc, wd, we) (a, b, c, d, e) =
    +ℤ_mono _ _ _ _
      (+ℤ_mono _ _ _ _
        (+ℤ_mono _ _ _ _
          (+ℤ_mono _ _ _ _ (if_mono s.has_destructive t.has_destructive w.destructive_action wa a)
            (*ℤ_mono w.per_state_change _ _ wb b))
          (*ℤ_mono w.auth_gated_step _ _ wc c))
        (*ℤ_mono w.per_form _ _ wd d))
      (*ℤ_mono w.depth _ _ we e)

rank_mono : (m n : ℕ) → m ≤ n → rank (risk_tier m) ≤ rank (risk_tier n)
unfolding risk_tier
rank_mono m n h = ground arith

-- With weights that are not negative, a flow whose signals are all at least as strong as another's has
-- a score at least as high, of at most 100, and a tier at least as high.
pub risk_score_mono :
    (s t : Signals) (w : RiskWeights)
    → IsNonneg w
    → IsMilder s t
    → (risk_score s w ≤ risk_score t w)
      × (risk_score t w ≤ 100)
      × (rank (risk_tier (risk_score s w)) ≤ rank (risk_tier (risk_score t w)))
unfolding risk_score
risk_score_mono s t w n m =
    let h = clamp_100_mono (raw s w) (raw t w) (raw_mono s t w n m) in
    (h, clamp_100_le (raw t w), rank_mono (clamp_100 (raw s w)) (clamp_100 (raw t w)) h)
