-- ===== src/Gateway/Complete/Spend.antt =====
-- The caps bound what is spent.
use febal_automation_script.Prelude.{ℕ, ◌+◌, ◌≤◌, String, count_at}
use febal_automation_script.Gateway.Caps.{Caps}
use febal_automation_script.Gateway.State.{World, Host}
use febal_automation_script.Gateway.Complete.{Call, estimate_input_tokens}
use febal_automation_script.Gateway.Complete.Keeps.{IsReported}

-- What a passed pre-check says.
record HasRoom (caps : Caps) (cost tok : ℕ) (w : World) (today run_id : String) : Type 0 where
  one_usd : cost ≤ caps.per_call_usd
  one_tok : tok ≤ caps.per_call_tok
  run_usd : count_at run_id w.run_usd + cost ≤ caps.run_usd
  run_tok : count_at run_id w.run_tok + tok ≤ caps.run_tok
  day_usd : count_at today w.day_usd + cost ≤ caps.day_usd
  day_tok : count_at today w.day_tok + tok ≤ caps.day_tok

-- No counter is above the global cap of its scope.
pub record IsWithinCaps (caps : Caps) (w : World) : Type 0 where
  pub run_usd_at : (r : String) → count_at r w.run_usd ≤ caps.run_usd
  pub run_tok_at : (r : String) → count_at r w.run_tok ≤ caps.run_tok
  pub day_usd_at : (d : String) → count_at d w.day_usd ≤ caps.day_usd
  pub day_tok_at : (d : String) → count_at d w.day_tok ≤ caps.day_tok

-- The provider reports no more input than the gateway estimates, and no more output than allowed.
abbrev pub IsHonest : Host → Type 0
IsHonest h =
    (c : Call) (i o : ℕ)
    → IsReported h c i o
    → (i ≤ estimate_input_tokens h c) × (o ≤ c.request.max_tokens)
