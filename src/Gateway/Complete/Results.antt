-- ===== src/Gateway/Complete/Results.antt =====
-- What one call returns and writes, on success, on refusal and on a repeated call.
use febal_automation_script.Prelude.{
  ℕ, ◌+◌, String, ◌≡◌, refl, ◌∙◌, sym, ap, subst, true, false, Option, [], ◌∷◌, ◌++◌, add_at, When,
  inl, inr, ◌⊎◌, if◌then◌else◌,
}
use febal_automation_script.Gateway.Pricing.{PriceRow, compute_cost}
use febal_automation_script.Gateway.State.{
  GatewayError, kill_switch_active, unknown_model_price, budget_exceeded, missing_usage_metadata,
  transient_provider_error, provider_failed, storage_failed, refresh_fails, LlmUsage, Result, ok,
  err, Request, CachedResult, LlmResult, World, Host,
}
use febal_automation_script.Gateway.Complete.{
  Call, call_of, usage_row, result_of, account, serve_cache_hit, complete,
}
use febal_automation_script.Gateway.Complete.Accounting.{
  run_usd-account, run_tok-account, day_usd-account, day_tok-account, ledger-account,
}
use febal_automation_script.Gateway.Complete.Keeps.{
  IsRefusal, IsCut, stopped, hit, paid, broke, hit_unread, paid_unread, complete-Ends,
}

-- What an error leaves of the state: all of it after a refusal, all but the number of completions asked
-- for after a failure of the provider; after a failure of Redis or of the database the ledger, or one row
-- more if only the refresh of the row has failed.
abbrev pub Leaves : Request → World → World → GatewayError → Type 0
Leaves q w w' (kill_switch_active reason) = w' ≡ w
Leaves q w w' (unknown_model_price model) = w' ≡ w
Leaves q w w' (budget_exceeded scope axis) = w' ≡ w
Leaves q w w' storage_failed =
    (w'.ledger ≡ w.ledger)
    ⊎ ((q.fault ≡ refresh_fails) × ((row : LlmUsage) × (w'.ledger ≡ w.ledger ++ row ∷ [])))
Leaves q w w' _ = w' ≡ record w { calls = w'.calls }

Leaves-of :
    (q : Request) (w w' : World) (e : GatewayError)
    → (w' ≡ record w { calls = w'.calls }) × (IsRefusal e → w' ≡ w)
    → Leaves q w w' e
Leaves-of q w w' (kill_switch_active reason) (a, b) = b tt
Leaves-of q w w' (unknown_model_price model) (a, b) = b tt
Leaves-of q w w' (budget_exceeded scope axis) (a, b) = b tt
Leaves-of q w w' (missing_usage_metadata t) (a, b) = a
Leaves-of q w w' transient_provider_error (a, b) = a
Leaves-of q w w' provider_failed (a, b) = a
Leaves-of q w w' storage_failed (a, b) = inl (rw a refl)

ledger-IsCut : (c : Call) (i o : ℕ) (v w' : World) → IsCut c i o v w' → w'.ledger ≡ v.ledger
ledger-IsCut c i o v w' (inl same) = ap (λ u. u.ledger) same
ledger-IsCut c i o v w' (inr (kept, counted)) = kept

ledger-hit :
    (c : Call) (r : CachedResult) (w : World)
    → (row : LlmUsage) × ((serve_cache_hit c r w).1.ledger ≡ w.ledger ++ row ∷ [])
unfolding serve_cache_hit
ledger-hit c r w = (_, refl)

module _ (h : Host) (w w' : World) (q : Request) where
  error_or : GatewayError → Result LlmResult → GatewayError
  error_or e (ok r) = e
  error_or e (err x) = x

  stopped-World :
      (e f : GatewayError) (n : ℕ)
      → ◌≡◌ {A = Result LlmResult × World} (err e, w') (err f, record w { calls = n })
      → (IsRefusal f → n ≡ w.calls)
      → (w' ≡ record w { calls = w'.calls }) × (IsRefusal e → w' ≡ w)
  unfolding error_or
  stopped-World e f n z same =
      let m : w' ≡ record w { calls = n } = ap (λ p. p.1) z in
      let k : e ≡ f = ap (λ p. error_or e p.0) z in
      (rw m refl, λ r. m ∙ ap (λ t. record w { calls = t }) (same (subst IsRefusal k r)))

  broken-Leaves :
      (e : GatewayError) (v : World)
      → ◌≡◌ {A = Result LlmResult × World} (err e, w') (err storage_failed, v)
      → Leaves q w v storage_failed
      → Leaves q w w' e
  unfolding error_or
  broken-Leaves e v z kept =
      let m : w' ≡ v = ap (λ p. p.1) z in
      let k : e ≡ storage_failed = ap (λ p. error_or e p.0) z in
      subst (Leaves q w w') (sym k) (subst (λ u. Leaves q w u storage_failed) (sym m) kept)

  -- A call that raises adds no ledger row, unless all that fails is the refresh of the row. Unless the
  -- error is that of Redis or of the database, it writes nothing at all; and one that is refused (by the kill-switch,
  -- for want of a price or by the pre-check) has not asked the provider for a completion either.
  pub complete-err : (e : GatewayError) → complete h w q ≡ (err e, w') → Leaves q w w' e
  unfolding serve_cache_hit account call_of
  complete-err e z = elim (complete-Ends h w q) [
    | stopped f n same y ↦ Leaves-of q w w' e (stopped-World e f n (sym z ∙ y) same)
    | hit price r p found y ↦ cc
    | paid price n i o content p r g y ↦ cc
    | broke price n i o v p r g f cut y ↦
        broken-Leaves e v (sym z ∙ y)
          (inl (ledger-IsCut (call_of h q price) i o (record w { calls = n }) v cut))
    | hit_unread price r p found f y ↦
        broken-Leaves e _ (sym z ∙ y) (inr (f, ledger-hit (call_of h q price) r w))
    | paid_unread price n i o content p r g f y ↦
        broken-Leaves e _ (sym z ∙ y)
          (inr (f, (_, ledger-account h (call_of h q price) (record w { calls = n }) i o content)))
  ]

-- What a successful call has done: one ledger row with its counts and its cost; nothing else from the
-- cache; and otherwise each of the four counters has grown by just the cost and the tokens.
pub record IsCharged (w w' : World) (q : Request) (r : LlmResult) : Type 0 where
  pub row :
      w'.ledger
      ≡ w.ledger
        ++ record {
          run_id = r.run_id;
          operation_type = r.operation_type;
          provider = r.provider;
          model = r.model;
          input_tokens = r.input_tokens;
          output_tokens = r.output_tokens;
          cost_usd = r.cost_usd;
          cache_hit = r.cache_hit;
        }
          ∷ []
  pub free : When r.cache_hit ((r.cost_usd ≡ 0) × (w' ≡ record w { ledger = w'.ledger }))
  pub run_usd :
      w'.run_usd ≡ (if r.cache_hit then w.run_usd else add_at r.run_id r.cost_usd w.run_usd)
  pub day_usd :
      w'.day_usd ≡ (if r.cache_hit then w.day_usd else add_at q.today r.cost_usd w.day_usd)
  pub run_tok : w'.run_tok ≡ (
      if r.cache_hit
      then w.run_tok
      else add_at r.run_id (r.input_tokens + r.output_tokens) w.run_tok)
  pub day_tok : w'.day_tok ≡ (
      if r.cache_hit
      then w.day_tok
      else add_at q.today (r.input_tokens + r.output_tokens) w.day_tok)

abbrev result_or : LlmResult → Result LlmResult → LlmResult
result_or d (ok r) = r
result_or d (err e) = d

IsCharged-along :
    (w w' v : World) (q : Request) (r s : LlmResult)
    → ◌≡◌ {A = Result LlmResult × World} (ok r, w') (ok s, v)
    → IsCharged w v q s
    → IsCharged w w' q r
IsCharged-along w w' v q r s z charged =
    let m : w' ≡ v = ap (λ p. p.1) z in
    let k : r ≡ s = ap (λ p. result_or r p.0) z in rw (m, k) charged

IsCharged-hit :
    (h : Host) (w : World) (q : Request) (price : PriceRow) (s : CachedResult)
    → IsCharged w
        (serve_cache_hit (call_of h q price) s w).1
        q
        (result_of (call_of h q price) s.content s.input_tokens s.output_tokens 0 true)
unfolding serve_cache_hit
IsCharged-hit h w q price s = record {
  row = refl;
  free = (refl, refl);
  run_usd = refl;
  day_usd = refl;
  run_tok = refl;
  day_tok = refl;
}

IsCharged-paid :
    (h : Host) (w : World) (q : Request) (price : PriceRow) (n i o : ℕ) (content : Option String)
    → IsCharged w
        (account h (call_of h q price) content i o (record w { calls = n })).1
        q
        (result_of (call_of h q price) content i o (compute_cost price i o) false)
unfolding call_of result_of usage_row
IsCharged-paid h w q price n i o content =
    let c = call_of h q price in
    let v : World = record w { calls = n } in
    record {
      row = ledger-account h c v i o content;
      free = tt;
      run_usd = run_usd-account h c v i o content;
      day_usd = day_usd-account h c v i o content;
      run_tok = run_tok-account h c v i o content;
      day_tok = day_tok-account h c v i o content;
    }

module _ (h : Host) (w w' : World) (q : Request) (r : LlmResult) where
  -- A successful call charges what its result says.
  pub complete-ok : complete h w q ≡ (ok r, w') → IsCharged w w' q r
  unfolding serve_cache_hit account call_of
  complete-ok z = elim (complete-Ends h w q) [
    | stopped f n same y ↦ cc
    | hit price s p found y ↦ IsCharged-along w w' _ q r _ (sym z ∙ y) (IsCharged-hit h w q price s)
    | paid price n i o content p s g y ↦
        IsCharged-along w w' _ q r _ (sym z ∙ y) (IsCharged-paid h w q price n i o content)
    | broke price n i o v p s g f cut y ↦ cc
    | hit_unread price s p found f y ↦ cc
    | paid_unread price n i o content p s g f y ↦ cc
  ]
