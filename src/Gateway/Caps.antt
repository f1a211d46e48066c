-- ===== src/Gateway/Caps.antt =====
-- The spending caps and their clamp (`_effective_caps`, `_check` and `_check_tok` of
-- services/llm_gateway.py).
use febal_automation_script.Prelude.{ℕ, ◌≤◌, Option, none, some, arith, min}

-- `settings.llm_*_cap`, and the caps in force for one call.
pub record Caps : Type 0 where
  pub per_call_usd : ℕ
  pub run_usd : ℕ
  pub day_usd : ℕ
  pub per_call_tok : ℕ
  pub run_tok : ℕ
  pub day_tok : ℕ

-- `run_budget_overrides`: a missing key is `none`, and a missing dict has no key.
pub record CapOverrides : Type 0 where
  pub per_call_usd_cap : Option ℕ
  pub run_usd_cap : Option ℕ
  pub daily_usd_cap : Option ℕ
  pub per_call_token_cap : Option ℕ
  pub run_token_cap : Option ℕ
  pub daily_token_cap : Option ℕ

abbrev pub no_overrides : CapOverrides
no_overrides = record {
  per_call_usd_cap = none;
  run_usd_cap = none;
  daily_usd_cap = none;
  per_call_token_cap = none;
  run_token_cap = none;
  daily_token_cap = none;
}

clamp : Option ℕ → ℕ → ℕ
clamp none global_cap = global_cap
clamp (some override) global_cap = min override global_cap

unfoldable pub effective_caps : Caps → CapOverrides → Caps
unfolding clamp
effective_caps global o = record {
  per_call_usd = clamp o.per_call_usd_cap global.per_call_usd;
  run_usd = clamp o.run_usd_cap global.run_usd;
  day_usd = clamp o.daily_usd_cap global.day_usd;
  per_call_tok = clamp o.per_call_token_cap global.per_call_tok;
  run_tok = clamp o.run_token_cap global.run_tok;
  day_tok = clamp o.daily_token_cap global.day_tok;
}

-- Every cap of `a` is at most that of `b`.
pub record IsTighter (a b : Caps) : Type 0 where
  pub per_call_usd : a.per_call_usd ≤ b.per_call_usd
  pub run_usd : a.run_usd ≤ b.run_usd
  pub day_usd : a.day_usd ≤ b.day_usd
  pub per_call_tok : a.per_call_tok ≤ b.per_call_tok
  pub run_tok : a.run_tok ≤ b.run_tok
  pub day_tok : a.day_tok ≤ b.day_tok

clamp-le : (o : Option ℕ) (g : ℕ) → clamp o g ≤ g
unfolding clamp
clamp-le none g = omega arith
clamp-le (some n) g = omega arith

-- Overrides only ever tighten: no effective cap passes the global one.
pub effective_caps-IsTighter : (g : Caps) (o : CapOverrides) → IsTighter (effective_caps g o) g
unfolding effective_caps
effective_caps-IsTighter g o = record {
  per_call_usd = clamp-le o.per_call_usd_cap g.per_call_usd;
  run_usd = clamp-le o.run_usd_cap g.run_usd;
  day_usd = clamp-le o.daily_usd_cap g.day_usd;
  per_call_tok = clamp-le o.per_call_token_cap g.per_call_tok;
  run_tok = clamp-le o.run_token_cap g.run_tok;
  day_tok = clamp-le o.daily_token_cap g.day_tok;
}
