-- ===== src/Gateway/Complete/Tests.antt =====
-- The gateway at a concrete host: a provider that replies with five and at most seven tokens after
-- one transient failure.
use febal_automation_script.Prelude.{
  ℕ, ◌+◌, ◌≤◌, ◌<◌, min, String, ◌≡◌, refl, ap, sym, subst, Bool, true, false, Option, none, some,
  List, [], ◌∷◌, arith, lookup, insert, str_eq, count_at, if◌then◌else◌,
}
use febal_automation_script.Gateway.Pricing.{bare_model, lookup_price, compute_cost}
use febal_automation_script.Gateway.Caps.{Caps, no_overrides, effective_caps}
use febal_automation_script.Gateway.State.{
  kill_switch_active, budget_exceeded, storage_failed, no_fault, ledger_fails, per_call, usd,
  Result, ok, err, Request, LlmResult, Usage, Outcome, replied, transient, Prompt, World, Host,
  is_set, or_else,
}
use febal_automation_script.Gateway.Reserve.{estimate_of, provider_of, pre_check, invoke, usage_of}
use febal_automation_script.Gateway.Complete.{complete, complete_all}
use febal_automation_script.Gateway.Complete.Repeat.{complete-trips}
use febal_automation_script.Gateway.Complete.Accounting.{IsBalanced, complete_all-IsBalanced}
use febal_automation_script.Gateway.Complete.Results.{IsCharged, Leaves, complete-err, complete-ok}

abbrev usage : ℕ → Usage
usage o = record { input_tokens = some 5; output_tokens = some o }

abbrev answer : Prompt → ℕ → Outcome
answer p n =
    if febal_automation_script.Prelude.leb n 0
    then transient
    else replied (record { content = some "7"; usage_metadata = some (usage (min 7 p.max_tokens)) })

abbrev global : Caps
global = record {
  per_call_usd = 1000;
  run_usd = 2000;
  day_usd = 5000;
  per_call_tok = 100;
  run_tok = 200;
  day_tok = 500;
}

abbrev host : Host
host = record {
  digest = λ p. p.model;
  tokenizer = λ p m ms. some 10;
  provider = answer;
  caps = global;
  default_model = "openai:gpt-4.1";
}

abbrev empty : World
empty = record {
  killswitch = none;
  cache = [];
  day_usd = [];
  day_tok = [];
  run_usd = [];
  run_tok = [];
  ledger = [];
  calls = 0;
}

abbrev ask : ℕ → Request
ask n = record {
  messages = record { role = "user"; content = "pick" } ∷ [];
  operation_type = "explore.decide";
  run_id = some "r1";
  model = none;
  temperature = 0;
  max_tokens = n;
  no_cache = false;
  overrides = no_overrides;
  today = "20260701";
  date = 20260701;
  fresh_id = "f";
  fault = no_fault;
}

abbrev paid : LlmResult
paid = record {
  content = some "7";
  input_tokens = 5;
  output_tokens = 7;
  cost_usd = 66;
  cache_hit = false;
  provider = "openai";
  model = "openai:gpt-4.1";
  run_id = "r1";
  operation_type = "explore.decide";
}

abbrev after_one : World
after_one = (complete host empty (ask 20)).1

first_paid : complete host empty (ask 20) ≡ (ok paid, after_one)
unfolding complete lookup_price compute_cost bare_model effective_caps is_set or_else estimate_of
    provider_of pre_check invoke usage_of lookup insert
first_paid = refl

too_many : complete host empty (ask 200) ≡ (err (budget_exceeded per_call usd), empty)
unfolding complete lookup_price compute_cost bare_model effective_caps is_set or_else estimate_of
    provider_of pre_check invoke usage_of lookup insert
too_many = refl

empty-IsBalanced : IsBalanced empty
unfolding lookup
empty-IsBalanced = record { usd_at = λ r. refl; tok_at = λ r. refl }

complete_all-IsBalanced_example : IsBalanced (complete_all host empty (ask 20 ∷ ask 20 ∷ []))
complete_all-IsBalanced_example =
    complete_all-IsBalanced host empty (ask 20 ∷ ask 20 ∷ []) (refl, (refl, tt)) empty-IsBalanced

-- The same call, whose ledger row cannot be committed: it is paid for and leaves no row.
abbrev unlogged : Request
unlogged = record (ask 20) { fault = ledger_fails }

abbrev after_unlogged : World
after_unlogged = (complete host empty unlogged).1

unlogged_paid :
    (count_at "r1" after_unlogged.run_usd ≡ 66)
    × (after_unlogged.ledger ≡ [])
    × ((complete host empty unlogged).0 ≡ err storage_failed)
unfolding complete lookup_price compute_cost bare_model effective_caps is_set or_else estimate_of
    provider_of pre_check invoke usage_of lookup insert
unlogged_paid = (refl, refl, refl)

complete-err_example : Leaves (ask 200) empty empty (budget_exceeded per_call usd)
complete-err_example =
    complete-err host empty empty (ask 200) (budget_exceeded per_call usd) too_many

complete-ok_example : IsCharged empty after_one (ask 20) paid
complete-ok_example = complete-ok host empty after_one (ask 20) paid first_paid

-- A day of 66 micro-dollars is spent by the one call, but a reservation of its bound must fit.
abbrev tight : Host
tight = record host { caps = record global { day_usd = 60 } }

abbrev costly : Prompt → ℕ → Outcome
costly p n = replied (record { content = some "7"; usage_metadata = some (usage 9) })

abbrev overrun : Host
overrun = record tight { provider = costly }

abbrev spent : World
spent = (complete overrun empty (ask 4)).1

abbrev overpaid : LlmResult
overpaid = record paid { output_tokens = 9; cost_usd = 82 }

overspent : complete overrun empty (ask 4) ≡ (ok overpaid, spent)
unfolding complete lookup_price compute_cost bare_model effective_caps is_set or_else estimate_of
    provider_of pre_check invoke usage_of lookup insert
overspent = refl

spent_full : 60 ≤ count_at "20260701" spent.day_usd
unfolding complete lookup_price compute_cost bare_model effective_caps is_set or_else estimate_of
    provider_of pre_check invoke usage_of lookup insert
spent_full = omega arith

complete-trips_example :
    (complete_all overrun spent (ask 9 ∷ ask 4 ∷ []) ≡ spent)
    × ((complete overrun (complete_all overrun spent (ask 9 ∷ ask 4 ∷ [])) (ask 5)).0
        ≡ err (kill_switch_active "daily-budget-exhausted"))
complete-trips_example =
    complete-trips overrun empty spent (ask 4) overpaid (ask 9 ∷ ask 4 ∷ []) (ask 5) overspent refl
      spent_full
