-- ===== src/Gateway/Reserve.antt =====
-- The estimate and the budget check before a call, and the provider round trip with its retries
-- (services/llm_gateway.py).
use native.Mathlib.Nat.{add-zero}
use febal_automation_script.Prelude.{
  ℕ, zero, suc, ◌+◌, ◌/◌, ◌≤◌, ◌<◌, ◌≡◌, refl, String, Option, none, some, List, [], ◌∷◌, count_at,
  max, ltb, ◌==◌, if◌then◌else◌, arith,
}
use febal_automation_script.Gateway.Caps.{Caps}
use febal_automation_script.Gateway.State.{
  Scope, per_call, per_run, per_day, Axis, usd, tokens, budget_exceeded, Result, ok, err, Message,
  Usage, Outcome, replied, transient, failed, Prompt, World, Host,
}

text_length : String → ℕ
text_length String.[] = 0
text_length (String.◌∷◌ c s) = suc (text_length s)

chars : List Message → ℕ
chars [] = 0
chars (m ∷ ms) = text_length m.content + chars ms

unfoldable pub char4_estimate : List Message → ℕ
unfolding chars text_length
char4_estimate messages = max 1 (chars messages / 4)

-- The provider's tokenizer, or the fallback where it is missing or raises.
unfoldable pub estimate_of : Option ℕ → List Message → ℕ
unfolding char4_estimate
estimate_of (some n) messages = n
estimate_of none messages = char4_estimate messages

-- `model_str.partition(":")[0]`, and "" where there is no colon.
provider_from : Option String → String → String
provider_from (some p) model = p
provider_from none model = ""

before_colon : String → Option String
before_colon String.[] = none
before_colon (String.◌∷◌ c s) =
    if Prim.Native.Char.code c == b':'
    then some String.[]
    else elim (before_colon s) [ none ↦ none | some p ↦ some (String.◌∷◌ c p) ]

unfoldable pub provider_of : String → String
unfolding before_colon provider_from
provider_of model = provider_from (before_colon model) model

-- `_check` and `_check_tok`: the first breach refuses.
unfoldable pub guard_cap : ℕ → ℕ → Scope → Axis → Result (Unit {0}) → Result (Unit {0})
guard_cap value cap scope axis rest =
    if ltb cap value then err (budget_exceeded scope axis) else rest

unfoldable pub pre_check : Caps → ℕ → ℕ → World → String → String → Result (Unit {0})
unfolding guard_cap
pre_check caps reserved_cost reserved_tokens w today run_id =
    guard_cap reserved_cost caps.per_call_usd per_call usd (
      guard_cap reserved_tokens caps.per_call_tok per_call tokens (
        guard_cap (count_at run_id w.run_usd + reserved_cost) caps.run_usd per_run usd (
          guard_cap (count_at run_id w.run_tok + reserved_tokens) caps.run_tok per_run tokens (
            guard_cap (count_at today w.day_usd + reserved_cost) caps.day_usd per_day usd (
              guard_cap (count_at today w.day_tok + reserved_tokens) caps.day_tok per_day tokens
                (ok tt))))))

-- One more attempt after a transient failure, while `attempts` are left.
retry_invoke : (ℕ → Outcome) → ℕ → ℕ → Outcome × ℕ
retry_invoke provider zero calls = (transient, calls)
retry_invoke provider (suc attempts) calls = elim (provider calls) [
  | transient ↦ retry_invoke provider attempts (calls + 1)
  | failed ↦ (failed, calls + 1)
  | replied r ↦ (replied r, calls + 1)
]

-- `_invoke`: four attempts in all, and the last failure is raised.
unfoldable pub invoke : Host → Prompt → World → Outcome × ℕ
unfolding retry_invoke
invoke h prompt w = retry_invoke (h.provider prompt) 4 w.calls

-- The counts, if the response has both.
unfoldable pub usage_of : Option Usage → Option (ℕ × ℕ)
usage_of none = none
usage_of (some u) = elim u.input_tokens [
  | none ↦ none
  | some i ↦ elim u.output_tokens [ none ↦ none | some o ↦ some (i, o) ]
]

-- Of at most k + 1 round trips from `calls` on, the n-th ended as `o`, and all before it failed in
-- a way that is retried.
abbrev pub EndsAt : (ℕ → Outcome) → ℕ → ℕ → Outcome × ℕ → Type 0
EndsAt provider k calls (o, calls') =
    (n : ℕ) × (n ≤ k)
    × (calls' ≡ calls + n + 1)
    × ((j : ℕ) → j < n → provider (calls + j) ≡ transient)
    × (provider (calls + n) ≡ o)
    × (o ≡ transient → n ≡ k)

EndsAt-first :
    (provider : ℕ → Outcome) (k calls : ℕ) (o : Outcome)
    → provider calls ≡ o
    → (o ≡ transient → k ≡ 0)
    → EndsAt provider k calls (o, calls + 1)
EndsAt-first provider k calls o e last = (
  0,
  omega arith,
  omega arith,
  λ j h. absurd (omega arith),
  rw add-zero e,
  λ t. omega (arith, last t),
)

EndsAt-later :
    (provider : ℕ → Outcome) (k calls : ℕ) (r : Outcome × ℕ)
    → provider calls ≡ transient
    → EndsAt provider k (calls + 1) r
    → EndsAt provider (suc k) calls r
EndsAt-later provider k calls r e (n, fits, made, before, at, last) =
    (n + 1, omega arith, omega arith, earlier, (rw shift at), λ t. omega (arith, last t))
  where
    shift : calls + (n + 1) ≡ calls + 1 + n
    shift = omega arith

    earlier : (j : ℕ) → j < n + 1 → provider (calls + j) ≡ transient
    earlier zero h = rw add-zero e
    earlier (suc j) h =
        let p : calls + suc j ≡ calls + 1 + j = omega arith in rw p (before j (omega arith))

retry_invoke-EndsAt :
    (provider : ℕ → Outcome) (k calls : ℕ)
    → EndsAt provider k calls (retry_invoke provider (suc k) calls)
unfolding retry_invoke
retry_invoke-EndsAt provider zero calls = on (provider calls) refl
  where
    on :
        (o : Outcome)
        → provider calls ≡ o
        → EndsAt provider 0 calls (elim o as (λ _. Outcome × ℕ) [
          | transient ↦ (transient, calls + 1)
          | failed ↦ (failed, calls + 1)
          | replied r ↦ (replied r, calls + 1)
        ])
    on transient e = EndsAt-first provider 0 calls transient e (λ _. refl)
    on failed e = EndsAt-first provider 0 calls failed e (λ _. refl)
    on (replied r) e = EndsAt-first provider 0 calls (replied r) e (λ _. refl)
retry_invoke-EndsAt provider (suc k) calls =
    on (provider calls) refl (retry_invoke-EndsAt provider k (calls + 1))
  where
    rest : Outcome × ℕ
    rest = retry_invoke provider (suc k) (calls + 1)

    on :
        (o : Outcome)
        → provider calls ≡ o
        → EndsAt provider k (calls + 1) rest
        → EndsAt provider (suc k) calls (elim o as (λ _. Outcome × ℕ) [
          | transient ↦ rest
          | failed ↦ (failed, calls + 1)
          | replied r ↦ (replied r, calls + 1)
        ])
    on transient e ih = EndsAt-later provider k calls rest e ih
    on failed e ih = EndsAt-first provider (suc k) calls failed e (λ t. cc)
    on (replied r) e ih = EndsAt-first provider (suc k) calls (replied r) e (λ t. cc)

-- A call makes one to four round trips: it ends with the first outcome that is not transient, and
-- with a transient one only after four of them.
pub invoke_lem :
    (h : Host) (prompt : Prompt) (w : World)
    → EndsAt (h.provider prompt) 3 w.calls (invoke h prompt w)
unfolding invoke
invoke_lem h prompt w = retry_invoke-EndsAt (h.provider prompt) 3 w.calls
