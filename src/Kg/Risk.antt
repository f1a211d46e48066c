-- ===== src/Kg/Risk.antt =====
-- The risk of a flow: services/kg/risk.py. The weights may be negative.
pub mod Bounds
use febal_automation_script.Prelude.{ℕ, Bool, true, false, leb, if◌then◌else◌}
use febal_automation_script.Prelude.Int.{ℤ, pos, ◌+ℤ◌, ◌*ℤ◌, clamp_100}

pub record RiskWeights : Type 0 where
  pub destructive_action : ℤ
  pub per_state_change : ℤ
  pub auth_gated_step : ℤ
  pub per_form : ℤ
  pub depth : ℤ

abbrev pub default_weights : RiskWeights
default_weights = record {
  destructive_action = pos 40;
  per_state_change = pos 8;
  auth_gated_step = pos 6;
  per_form = pos 5;
  depth = pos 3;
}

pub record Signals : Type 0 where
  pub has_destructive : Bool
  pub state_change_edges : ℕ
  pub auth_gated_steps : ℕ
  pub form_count : ℕ
  pub path_length : ℕ

abbrev pub raw : Signals → RiskWeights → ℤ
raw s w =
    (if s.has_destructive then w.destructive_action else pos 0)
    +ℤ w.per_state_change *ℤ s.state_change_edges
    +ℤ w.auth_gated_step *ℤ s.auth_gated_steps
    +ℤ w.per_form *ℤ s.form_count
    +ℤ w.depth *ℤ s.path_length

unfoldable pub risk_score : Signals → RiskWeights → ℕ
risk_score signals w = clamp_100 (raw signals w)

pub data Tier : Type 0 where
  low medium high : Tier

unfoldable pub risk_tier : ℕ → Tier
risk_tier score = if leb 67 score then high else if leb 34 score then medium else low
