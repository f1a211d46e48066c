-- ===== src/Gateway.antt =====
-- The metered LLM gateway: apps/api/app/services/llm_gateway.py and
-- apps/api/app/core/llm_pricing.py. Money is a natural number of micro-dollars.
pub mod Pricing
pub mod Caps
pub mod State
pub mod Reserve
pub mod Complete
