-- ===== src/Gateway/State.antt =====
-- What a gateway call reads and writes: its arguments, the Redis keys, the usage ledger and the
-- provider (services/llm_gateway.py, models/llm_usage.py). A Redis counter that does not exist
-- reads as 0, and keys do not expire in the course of the modelled calls.
use febal_automation_script.Prelude.{
  ℕ, String, Bool, false, Option, none, some, List, Dict, str_eq, if◌then◌else◌, not,
}
use febal_automation_script.Gateway.Caps.{Caps, CapOverrides}

pub data Scope : Type 0 where
  per_call per_run per_day : Scope

pub data Axis : Type 0 where
  usd tokens : Axis

pub data GatewayError : Type 0 where
  kill_switch_active : String → GatewayError
  unknown_model_price : String → GatewayError
  budget_exceeded : Scope → Axis → GatewayError
  missing_usage_metadata : String → GatewayError
  transient_provider_error : GatewayError
  provider_failed : GatewayError
  storage_failed : GatewayError

pub data Result {ℓ} (A : Type ℓ) : Type ℓ where
  ok : A → Result A
  err : GatewayError → Result A

pub record Message : Type 0 where
  pub role : String
  pub content : String

-- What fails at Redis or at the database in the course of a call, if anything does: the transaction of
-- the counters, the write of the cache or of the kill-switch, the commit of the ledger row, or the
-- refresh of the row after it.
pub data Fault : Type 0 where
  no_fault counters_fail cache_fails trip_fails ledger_fails refresh_fails : Fault

-- The arguments of `complete`, with the date and the random id that it takes from the host, and what
-- fails.
-- The temperature is in thousandths; only whether it is 0 matters.
pub record Request : Type 0 where
  pub messages : List Message
  pub operation_type : String
  pub run_id : Option String
  pub model : Option String
  pub temperature : ℕ
  pub max_tokens : ℕ
  pub no_cache : Bool
  pub overrides : CapOverrides
  pub today : String
  pub date : ℕ
  pub fresh_id : String
  pub fault : Fault

-- What is cached of a response (`_serialize_result`).
pub record CachedResult : Type 0 where
  pub content : Option String
  pub input_tokens : ℕ
  pub output_tokens : ℕ

-- What the cache key is a digest of (`_cache_key`).
pub record CachePayload : Type 0 where
  pub provider : String
  pub model : String
  pub messages : List Message
  pub temperature : ℕ
  pub max_tokens : ℕ

pub record LlmUsage : Type 0 where
  pub run_id : String
  pub operation_type : String
  pub provider : String
  pub model : String
  pub input_tokens : ℕ
  pub output_tokens : ℕ
  pub cost_usd : ℕ
  pub cache_hit : Bool

pub record LlmResult : Type 0 where
  pub content : Option String
  pub input_tokens : ℕ
  pub output_tokens : ℕ
  pub cost_usd : ℕ
  pub cache_hit : Bool
  pub provider : String
  pub model : String
  pub run_id : String
  pub operation_type : String

-- `usage_metadata`: a key may be missing.
pub record Usage : Type 0 where
  pub input_tokens : Option ℕ
  pub output_tokens : Option ℕ

pub record Response : Type 0 where
  pub content : Option String
  pub usage_metadata : Option Usage

-- How one round trip to the provider ends.
pub data Outcome : Type 0 where
  replied : Response → Outcome
  transient : Outcome
  failed : Outcome

-- What a round trip sends: `init_chat_model(model_str, temperature, max_tokens)` and the messages.
pub record Prompt : Type 0 where
  pub model : String
  pub messages : List Message
  pub temperature : ℕ
  pub max_tokens : ℕ

-- Redis, the ledger, and the number of completions that the provider was asked for so far. The count of
-- tokens that a pre-check may ask for does not count, nor does it cost anything.
pub record World : Type 0 where
  pub killswitch : Option String
  pub cache : Dict CachedResult
  pub day_usd : Dict ℕ
  pub day_tok : Dict ℕ
  pub run_usd : Dict ℕ
  pub run_tok : Dict ℕ
  pub ledger : List LlmUsage
  pub calls : ℕ

-- What the gateway does not implement: SHA-256 of the canonical JSON, the providers' tokenizers
-- (`none` where one is missing or raises; that of Anthropic asks the provider), and the provider, whose n-th round trip with
-- a prompt ends as `provider prompt n`.
pub record Host : Type 0 where
  pub digest : CachePayload → String
  pub tokenizer : String → String → List Message → Option ℕ
  pub provider : Prompt → ℕ → Outcome
  pub caps : Caps
  pub default_model : String

-- Python's truth value of an optional text.
unfoldable pub is_set : Option String → Bool
is_set none = false
is_set (some s) = not (str_eq s "")

-- `a or b`
unfoldable pub or_else : Option String → String → String
unfolding is_set
or_else none b = b
or_else (some a) b = if is_set (some a) then a else b
