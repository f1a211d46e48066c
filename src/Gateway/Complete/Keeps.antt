-- ===== src/Gateway/Complete/Keeps.antt =====
-- One rule for what every call of the gateway keeps, and who made the call.
use febal_automation_script.Prelude.{
  ℕ, ◌+◌, String, ◌≡◌, refl, Option, none, some, List, [], ◌∷◌, Bool-cases, inl, inr, ◌⊎◌, ◌≢◌, All,
  Bool, true, false, arith, add_at, if◌then◌else◌,
}
use febal_automation_script.Gateway.Pricing.{PriceRow, pricing, lookup_price, compute_cost}
use febal_automation_script.Gateway.State.{
  GatewayError, kill_switch_active, unknown_model_price, budget_exceeded, missing_usage_metadata,
  transient_provider_error, provider_failed, storage_failed, Fault, no_fault, counters_fail,
  cache_fails, trip_fails, ledger_fails, refresh_fails, Result, ok, err, Request, CachedResult,
  LlmResult, Response, Outcome, replied, transient, failed, World, Host, is_set, or_else,
}
use febal_automation_script.Gateway.Reserve.{invoke, usage_of, invoke_lem}
use febal_automation_script.Gateway.Complete.{
  Call, call_of, prompt_of, reserve, account, account_until, reconcile, cache_write, auto_trip,
  is_exhausted, serve_hit, with_usage, settle, call_provider, metered, look_up, serve_cache_hit,
  hit_or_metered, with_price, complete, complete_all,
}

-- The provider was asked with the call's prompt, and reported `i` and `o` tokens.
pub record IsReported (h : Host) (c : Call) (i o : ℕ) : Type 0 where
  pub trip : ℕ
  pub response : Response
  pub replied_with : h.provider (prompt_of c) trip ≡ replied response
  pub counts : usage_of response.usage_metadata ≡ some (i, o)

-- Refused before a completion is asked for.
abbrev pub IsRefusal : GatewayError → Type 0
IsRefusal (kill_switch_active r) = Unit
IsRefusal (unknown_model_price m) = Unit
IsRefusal (budget_exceeded s a) = Unit
IsRefusal (missing_usage_metadata t) = ⊥
IsRefusal transient_provider_error = ⊥
IsRefusal provider_failed = ⊥
IsRefusal storage_failed = ⊥

abbrev pub price_of : Host → Request → Option PriceRow
price_of h q = lookup_price pricing (or_else q.model h.default_model) q.date

-- The four counters have grown by the cost and the tokens of a call.
pub record IsCounted (c : Call) (i o : ℕ) (v w' : World) : Type 0 where
  pub day_usd : w'.day_usd ≡ add_at c.request.today (compute_cost c.price i o) v.day_usd
  pub day_tok : w'.day_tok ≡ add_at c.request.today (i + o) v.day_tok
  pub run_usd : w'.run_usd ≡ add_at c.run_id (compute_cost c.price i o) v.run_usd
  pub run_tok : w'.run_tok ≡ add_at c.run_id (i + o) v.run_tok

-- What a write that fails leaves: no ledger row, and all the counters or none.
abbrev pub IsCut : Call → ℕ → ℕ → World → World → Type 0
IsCut c i o v w' = (w' ≡ v) ⊎ ((w'.ledger ≡ v.ledger) × IsCounted c i o v w')

-- The writes all succeed, with the row read back or not, or one fails.
abbrev Settled :
    Host → Call → Option String → ℕ → ℕ → World → Fault → Result LlmResult × World → Type 0
Settled h c content i o v f end =
    (end ≡ account h c content i o v)
    ⊎ ((f ≡ refresh_fails) × (end ≡ (err storage_failed, (account h c content i o v).1))
        ⊎ ((f ≢ no_fault) × ((w' : World) × (end ≡ (err storage_failed, w')) × IsCut c i o v w')))

account_until-Settled :
    (h : Host) (c : Call) (content : Option String) (i o : ℕ) (v : World) (f : Fault)
    → Settled h c content i o v f (account_until h c content i o v f)
unfolding account_until reconcile cache_write auto_trip
account_until-Settled h c content i o v no_fault = inl refl
account_until-Settled h c content i o v counters_fail = inr (inr (λ e. cc, (v, refl, inl refl)))
account_until-Settled h c content i o v cache_fails = by_key c.cache_key
  where
    by_key :
        (key : Option String)
        → Settled h c content i o v cache_fails (elim key as (λ _. Result LlmResult × World) [
          | none ↦ account h c content i o v
          | some k ↦ (err storage_failed, reconcile c (compute_cost c.price i o) (i + o) v)
        ])
    by_key none = inl refl
    by_key (some k) = inr (
        inr (
          λ e. cc,
          (
            _,
            refl,
            inr (refl, record { day_usd = refl; day_tok = refl; run_usd = refl; run_tok = refl }),
          ),
        ))
account_until-Settled h c content i o v trip_fails = by_cap (is_exhausted h c.request.today cached)
  where
    cached : World
    cached =
        cache_write c.cache_key (record { content = content; input_tokens = i; output_tokens = o })
          (reconcile c (compute_cost c.price i o) (i + o) v)

    by_cap :
        (b : Bool)
        → Settled h c content i o v trip_fails
            (if b then (err storage_failed, cached) else account h c content i o v)
    by_cap false = inl refl
    by_cap true = inr (
        inr (
          λ e. cc,
          (
            cached,
            refl,
            inr (
              ground arith,
              record {
                day_usd = ground arith;
                day_tok = ground arith;
                run_usd = ground arith;
                run_tok = ground arith;
              },
            ),
          ),
        ))
account_until-Settled h c content i o v ledger_fails = inr (
    inr (
      λ e. cc,
      (
        _,
        refl,
        inr (
          ground arith,
          record {
            day_usd = ground arith;
            day_tok = ground arith;
            run_usd = ground arith;
            run_tok = ground arith;
          },
        ),
      ),
    ))
account_until-Settled h c content i o v refresh_fails = inr (inl (refl, refl))

-- How a call ends: refused or failed, with at most the number of completions asked for changed; served from
-- the cache; or paid for, after a pre-check that passed and a reply with usage counts; or cut
-- short after such a reply, by a write that fails; or with a ledger row that is not read back.
pub data Ends (h : Host) (w : World) (q : Request) (end : Result LlmResult × World) : Type 0 where
  stopped :
      (e : GatewayError) (n : ℕ)
      → (IsRefusal e → n ≡ w.calls)
      → end ≡ (err e, record w { calls = n })
      → Ends h w q end
  hit :
      (price : PriceRow) (r : CachedResult)
      → price_of h q ≡ some price
      → look_up (call_of h q price).cache_key w ≡ some r
      → end ≡ serve_cache_hit (call_of h q price) r w
      → Ends h w q end
  paid :
      (price : PriceRow) (n i o : ℕ) (content : Option String)
      → price_of h q ≡ some price
      → reserve h (call_of h q price) w ≡ ok tt
      → IsReported h (call_of h q price) i o
      → end ≡ account h (call_of h q price) content i o (record w { calls = n })
      → Ends h w q end
  hit_unread :
      (price : PriceRow) (r : CachedResult)
      → price_of h q ≡ some price
      → look_up (call_of h q price).cache_key w ≡ some r
      → q.fault ≡ refresh_fails
      → end ≡ (err storage_failed, (serve_cache_hit (call_of h q price) r w).1)
      → Ends h w q end
  paid_unread :
      (price : PriceRow) (n i o : ℕ) (content : Option String)
      → price_of h q ≡ some price
      → reserve h (call_of h q price) w ≡ ok tt
      → IsReported h (call_of h q price) i o
      → q.fault ≡ refresh_fails
      → end ≡ (
        err storage_failed,
        (account h (call_of h q price) content i o (record w { calls = n })).1,
      )
      → Ends h w q end
  broke :
      (price : PriceRow) (n i o : ℕ) (w' : World)
      → price_of h q ≡ some price
      → reserve h (call_of h q price) w ≡ ok tt
      → IsReported h (call_of h q price) i o
      → q.fault ≢ no_fault
      → IsCut (call_of h q price) i o (record w { calls = n }) w'
      → end ≡ (err storage_failed, w')
      → Ends h w q end

module _ (h : Host) (w : World) (q : Request) where
  module _ (price : PriceRow) (priced : price_of h q ≡ some price) where
    abbrev c : Call
    c = call_of h q price

    settle-Ends :
        (out : Outcome) (n trip : ℕ)
        → reserve h c w ≡ ok tt
        → h.provider (prompt_of c) trip ≡ out
        → Ends h w q (settle h c out (record w { calls = n }))
    unfolding settle call_of
    settle-Ends transient n trip r e = stopped _ n (λ f. absurd f) refl
    settle-Ends failed n trip r e = stopped _ n (λ f. absurd f) refl
    settle-Ends (replied resp) n trip r e = on (usage_of resp.usage_metadata) refl
      where
        on :
            (u : Option (ℕ × ℕ))
            → usage_of resp.usage_metadata ≡ u
            → Ends h w q (with_usage h c resp.content u (record w { calls = n }))
        on none z = stopped _ n (λ f. absurd f) refl
        on (some (i, o)) z =
            let rep : IsReported h c i o = record {
              trip = trip;
              response = resp;
              replied_with = e;
              counts = z;
            } in
            elim (account_until-Settled h c resp.content i o (record w { calls = n })
              c.request.fault) [
                | inl k ↦ paid price n i o resp.content priced r rep k
                | inr (inl (unread, k)) ↦ paid_unread price n i o resp.content priced r rep unread k
                | inr (inr (broken, (w', k, cut))) ↦ broke price n i o w' priced r rep broken cut k
              ]

    metered-Ends : Ends h w q (metered h c w)
    unfolding metered call_provider
    metered-Ends = on (reserve h c w) refl
      where
        on : (r : Result (Unit {0})) → reserve h c w ≡ r → Ends h w q (call_provider h c r w)
        on (err e) z = stopped e w.calls (λ _. refl) refl
        on (ok _) z =
            let (out, calls) = invoke h (prompt_of c) w in
            let (n, _, _, _, at, _) = invoke_lem h (prompt_of c) w in
            settle-Ends out calls (w.calls + n) z at

    hit_or_metered-Ends :
        (o : Option CachedResult) → look_up c.cache_key w ≡ o → Ends h w q (hit_or_metered h c o w)
    unfolding hit_or_metered serve_hit call_of
    hit_or_metered-Ends (some r) found = on q.fault refl
      where
        on : (f : Fault) → q.fault ≡ f → Ends h w q (serve_hit c r w f)
        on ledger_fails k = stopped _ w.calls (λ e. absurd e) refl
        on no_fault k = hit price r priced found refl
        on counters_fail k = hit price r priced found refl
        on cache_fails k = hit price r priced found refl
        on trip_fails k = hit price r priced found refl
        on refresh_fails k = hit_unread price r priced found k refl
    hit_or_metered-Ends none found = metered-Ends

  with_price-Ends : (o : Option PriceRow) → price_of h q ≡ o → Ends h w q (with_price h q o w)
  unfolding with_price
  with_price-Ends none p = stopped _ w.calls (λ _. refl) refl
  with_price-Ends (some price) p = hit_or_metered-Ends price p _ refl

  pub complete-Ends : Ends h w q (complete h w q)
  unfolding complete
  complete-Ends = elim (Bool-cases (is_set w.killswitch)) [
    | inl killed ↦ rw killed (stopped _ w.calls (λ _. refl) refl)
    | inr live ↦ rw live (with_price-Ends _ refl)
  ]

module _ (h : Host) (P : World → Type 0) (Q : Request → Type 0)
    (calls_ok : (w : World) (n : ℕ) → P w → P (record w { calls = n }))
    (hit_ok : (c : Call) (r : CachedResult) (w : World) → P w → P (serve_cache_hit c r w).1)
    (account_ok : (c : Call) (w : World) (n i o : ℕ) (content : Option String)
      → reserve h c w ≡ ok tt
      → IsReported h c i o
      → P w
      → P (account h c content i o (record w { calls = n })).1)
    (broken_ok : (q : Request) (c : Call) (w w' : World) (n i o : ℕ)
      → Q q
      → q.fault ≢ no_fault
      → reserve h c w ≡ ok tt
      → IsReported h c i o
      → IsCut c i o (record w { calls = n }) w'
      → P w
      → P w') where
  complete-keeps : (w : World) (q : Request) → Q q → P w → P (complete h w q).1
  complete-keeps w q k p = elim (complete-Ends h w q) [
    | stopped e n f z ↦ rw z (calls_ok w n p)
    | hit price r b found z ↦ rw z (hit_ok (call_of h q price) r w p)
    | paid price n i o content b r g z ↦ rw z (account_ok (call_of h q price) w n i o content r g p)
    | hit_unread price r b found f z ↦ rw z (hit_ok (call_of h q price) r w p)
    | paid_unread price n i o content b r g f z ↦
        rw z (account_ok (call_of h q price) w n i o content r g p)
    | broke price n i o w' b r g f cut z ↦
        rw z (broken_ok q (call_of h q price) w w' n i o k f r g cut p)
  ]

  -- Whatever a single call keeps, a sequence of calls keeps.
  pub complete_all-keeps :
      (w : World) (qs : List Request) → All Q qs → P w → P (complete_all h w qs)
  unfolding complete_all
  complete_all-keeps w [] k p = p
  complete_all-keeps w (q ∷ qs) k p =
      complete_all-keeps (complete h w q).1 qs k.1 (complete-keeps w q k.0 p)

-- For what no failing write can break.
pub All-any : (qs : List Request) → All (λ _. Unit {0}) qs
All-any [] = tt
All-any (q ∷ qs) = (tt, All-any qs)
