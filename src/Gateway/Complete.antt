-- ===== src/Gateway/Complete.antt =====
-- `complete` and the functions that it calls (services/llm_gateway.py), in the order of the code:
-- kill-switch, price, cache lookup, pre-check, provider, reconcile, cache write, auto-trip, ledger.
pub mod Keeps
pub mod KillSwitch
pub mod Accounting
pub mod Spend
pub mod Results
pub mod Repeat
mod Tests
use febal_automation_script.Prelude.{
  ℕ, ◌+◌, String, Bool, true, false, ◌&&◌, not, Option, none, some, List, [], ◌∷◌, ◌++◌, lookup,
  insert, count_at, add_at, leb, ◌==◌, if◌then◌else◌,
}
use febal_automation_script.Gateway.Pricing.{PriceRow, pricing, lookup_price, compute_cost}
use febal_automation_script.Gateway.Caps.{effective_caps}
use febal_automation_script.Gateway.State.{
  kill_switch_active, unknown_model_price, missing_usage_metadata, transient_provider_error,
  storage_failed, Fault, no_fault, counters_fail, cache_fails, trip_fails, ledger_fails,
  refresh_fails, provider_failed, Result, ok, err, Request, CachedResult, LlmUsage, LlmResult,
  Outcome, replied, transient, failed, Prompt, World, Host, is_set, or_else,
}
use febal_automation_script.Gateway.Reserve.{estimate_of, provider_of, pre_check, invoke, usage_of}

-- A call whose model, run id and price are resolved.
pub record Call : Type 0 where
  pub request : Request
  pub run_id : String
  pub model_str : String
  pub provider : String
  pub price : PriceRow
  pub cache_key : Option String

pub usage_row : Call → ℕ → ℕ → ℕ → Bool → LlmUsage
usage_row c input_tokens output_tokens cost hit = record {
  run_id = c.run_id;
  operation_type = c.request.operation_type;
  provider = c.provider;
  model = c.model_str;
  input_tokens = input_tokens;
  output_tokens = output_tokens;
  cost_usd = cost;
  cache_hit = hit;
}

pub result_of : Call → Option String → ℕ → ℕ → ℕ → Bool → LlmResult
result_of c content input_tokens output_tokens cost hit = record {
  content = content;
  input_tokens = input_tokens;
  output_tokens = output_tokens;
  cost_usd = cost;
  cache_hit = hit;
  provider = c.provider;
  model = c.model_str;
  run_id = c.run_id;
  operation_type = c.request.operation_type;
}

-- (5) Every counter grows by what the provider reports, not by what was reserved.
pub reconcile : Call → ℕ → ℕ → World → World
reconcile c cost total w = record w {
  day_usd = add_at c.request.today cost w.day_usd;
  day_tok = add_at c.request.today total w.day_tok;
  run_usd = add_at c.run_id cost w.run_usd;
  run_tok = add_at c.run_id total w.run_tok;
}

-- (6) Only a cacheable call has a key.
pub cache_write : Option String → CachedResult → World → World
cache_write none r w = w
cache_write (some key) r w = record w { cache = insert key r w.cache }

-- (7) The daily cap of the settings, not the one that an override tightened.
pub auto_trip : Host → String → World → World
auto_trip h today w =
    if leb h.caps.day_usd (count_at today w.day_usd)
    then record w { killswitch = some "daily-budget-exhausted" }
    else w

-- (8)
pub log_usage : LlmUsage → World → World
log_usage row w = record w { ledger = w.ledger ++ row ∷ [] }

pub account : Host → Call → Option String → ℕ → ℕ → World → Result LlmResult × World
unfolding reconcile cache_write auto_trip log_usage usage_row result_of
account h c content input_tokens output_tokens w =
    let cost = compute_cost c.price input_tokens output_tokens in
    let reply : CachedResult = record {
      content = content;
      input_tokens = input_tokens;
      output_tokens = output_tokens;
    } in
    let w' =
      auto_trip h c.request.today
        (cache_write c.cache_key reply (reconcile c cost (input_tokens + output_tokens) w)) in
    (
      ok (result_of c content input_tokens output_tokens cost false),
      log_usage (usage_row c input_tokens output_tokens cost false) w',
    )

-- Is there a daily cap to trip?
pub is_exhausted : Host → String → World → Bool
is_exhausted h today w = leb h.caps.day_usd (count_at today w.day_usd)

-- What the writes leave when one of them fails: those before it are not undone. The cache is written
-- only with a key, and the kill-switch only when the cap is reached.
pub account_until : Host → Call → Option String → ℕ → ℕ → World → Fault → Result LlmResult × World
unfolding account reconcile cache_write auto_trip is_exhausted
account_until h c content i o w no_fault = account h c content i o w
account_until h c content i o w counters_fail = (err storage_failed, w)
account_until h c content i o w cache_fails =
    let counted = reconcile c (compute_cost c.price i o) (i + o) w in
    elim c.cache_key [ none ↦ account h c content i o w | some key ↦ (err storage_failed, counted) ]
account_until h c content i o w trip_fails =
    let reply : CachedResult = record { content = content; input_tokens = i; output_tokens = o } in
    let cached = cache_write c.cache_key reply (reconcile c (compute_cost c.price i o) (i + o) w) in
    if is_exhausted h c.request.today cached
    then (err storage_failed, cached)
    else account h c content i o w
account_until h c content i o w ledger_fails =
    let reply : CachedResult = record { content = content; input_tokens = i; output_tokens = o } in
    let cached = cache_write c.cache_key reply (reconcile c (compute_cost c.price i o) (i + o) w) in
    (err storage_failed, auto_trip h c.request.today cached)
account_until h c content i o w refresh_fails = (err storage_failed, (account h c content i o w).1)

pub with_usage : Host → Call → Option String → Option (ℕ × ℕ) → World → Result LlmResult × World
unfolding account_until
with_usage h c content none w = (err (missing_usage_metadata c.request.operation_type), w)
with_usage h c content (some (i, o)) w = account_until h c content i o w c.request.fault

pub settle : Host → Call → Outcome → World → Result LlmResult × World
unfolding with_usage usage_of
settle h c transient w = (err transient_provider_error, w)
settle h c failed w = (err provider_failed, w)
settle h c (replied r) w = with_usage h c r.content (usage_of r.usage_metadata) w

-- (4)
pub prompt_of : Call → Prompt
prompt_of c = record {
  model = c.model_str;
  messages = c.request.messages;
  temperature = c.request.temperature;
  max_tokens = c.request.max_tokens;
}

pub call_provider : Host → Call → Result (Unit {0}) → World → Result LlmResult × World
unfolding settle prompt_of
call_provider h c (err e) w = (err e, w)
call_provider h c (ok _) w =
    let (outcome, calls) = invoke h (prompt_of c) w in
    settle h c outcome (record w { calls = calls })

pub estimate_input_tokens : Host → Call → ℕ
unfolding estimate_of
estimate_input_tokens h c =
    estimate_of (h.tokenizer c.provider c.model_str c.request.messages) c.request.messages

-- (3) Reserve the estimated input and the most that the call may put out.
pub reserve : Host → Call → World → Result (Unit {0})
unfolding pre_check estimate_input_tokens
reserve h c w =
    let est_in = estimate_input_tokens h c in
    pre_check (effective_caps h.caps c.request.overrides)
      (compute_cost c.price est_in c.request.max_tokens) (est_in + c.request.max_tokens) w
      c.request.today c.run_id

pub metered : Host → Call → World → Result LlmResult × World
unfolding reserve call_provider
metered h c w = call_provider h c (reserve h c w) w

-- A hit costs nothing: one ledger row, and no counter is touched.
pub serve_cache_hit : Call → CachedResult → World → Result LlmResult × World
unfolding log_usage usage_row result_of
serve_cache_hit c r w = (
  ok (result_of c r.content r.input_tokens r.output_tokens 0 true),
  log_usage (usage_row c r.input_tokens r.output_tokens 0 true) w,
)

-- On a hit the ledger row is the only write.
pub serve_hit : Call → CachedResult → World → Fault → Result LlmResult × World
unfolding serve_cache_hit
serve_hit c r w ledger_fails = (err storage_failed, w)
serve_hit c r w refresh_fails = (err storage_failed, (serve_cache_hit c r w).1)
serve_hit c r w no_fault = serve_cache_hit c r w
serve_hit c r w counters_fail = serve_cache_hit c r w
serve_hit c r w cache_fails = serve_cache_hit c r w
serve_hit c r w trip_fails = serve_cache_hit c r w

pub look_up : Option String → World → Option CachedResult
look_up none w = none
look_up (some key) w = lookup key w.cache

pub hit_or_metered : Host → Call → Option CachedResult → World → Result LlmResult × World
unfolding serve_hit metered
hit_or_metered h c (some r) w = serve_hit c r w c.request.fault
hit_or_metered h c none w = metered h c w

pub cache_key : Host → Request → String → String → Option String
cache_key h q provider model =
    if q.temperature == 0 && not q.no_cache
    then some (
        h.digest (record {
          provider = provider;
          model = model;
          messages = q.messages;
          temperature = q.temperature;
          max_tokens = q.max_tokens;
        }))
    else none

pub call_of : Host → Request → PriceRow → Call
unfolding cache_key provider_of
call_of h q price =
    let model_str = or_else q.model h.default_model in
    let provider = provider_of model_str in
    record {
      request = q;
      run_id = or_else q.run_id q.fresh_id;
      model_str = model_str;
      provider = provider;
      price = price;
      cache_key = cache_key h q provider model_str;
    }

pub with_price : Host → Request → Option PriceRow → World → Result LlmResult × World
unfolding call_of hit_or_metered look_up
with_price h q none w = (err (unknown_model_price (or_else q.model h.default_model)), w)
with_price h q (some price) w =
    let c = call_of h q price in hit_or_metered h c (look_up c.cache_key w) w

pub reason_of : Option String → String
reason_of none = ""
reason_of (some s) = s

-- (1), the price, and (2).
pub complete : Host → World → Request → Result LlmResult × World
unfolding with_price reason_of
complete h w q =
    if is_set w.killswitch
    then (err (kill_switch_active (reason_of w.killswitch)), w)
    else with_price h q (lookup_price pricing (or_else q.model h.default_model) q.date) w

-- A sequence of calls; a refused one leaves what it has written.
pub complete_all : Host → World → List Request → World
complete_all h w [] = w
complete_all h w (q ∷ qs) = complete_all h (complete h w q).1 qs
