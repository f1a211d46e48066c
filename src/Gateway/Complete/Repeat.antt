-- ===== src/Gateway/Complete/Repeat.antt =====
-- What a call does to the calls after it: the cache, and the trip of the kill-switch.
use febal_automation_script.Prelude.{
  ℕ, ◌≤◌, String, ◌≡◌, refl, ◌∙◌, sym, ap, true, false, Option, some, List, arith, count_at,
}
use febal_automation_script.Gateway.State.{
  kill_switch_active, Result, ok, err, Request, CachedResult, LlmResult, World, Host, is_set,
}
use febal_automation_script.Gateway.Complete.{
  Call, call_of, account, serve_cache_hit, complete, reason_of, complete_all,
}
use febal_automation_script.Gateway.Complete.KillSwitch.{complete_all-killed}
use febal_automation_script.Gateway.Complete.Keeps.{
  stopped, hit, paid, broke, hit_unread, paid_unread, complete-Ends,
}

abbrev reply : Option String → ℕ → ℕ → CachedResult
reply content i o = record { content = content; input_tokens = i; output_tokens = o }

-- The same result, free of charge.
abbrev pub for_free : LlmResult → LlmResult
for_free r = record r { cost_usd = 0; cache_hit = true }

abbrev result_or : LlmResult → Result LlmResult → LlmResult
result_or d (ok r) = r
result_or d (err e) = d

-- What the auto-trip looks at, and what it sets.
killswitch-account :
    (h : Host) (c : Call) (w : World) (i o : ℕ) (content : Option String)
    → h.caps.day_usd ≤ count_at c.request.today (account h c content i o w).1.day_usd
    → (account h c content i o w).1.killswitch ≡ some "daily-budget-exhausted"
unfolding account
killswitch-account h c w i o content full = ground arith

module _ (h : Host) (w w' : World) (q : Request) (r : LlmResult) where
  -- If the call that was paid last has brought the day to the daily cap of the settings, no later call
  -- changes anything, so nothing more is spent and no completion is asked for, and every later call is
  -- refused with the exhausted budget as the reason.
  pub complete-trips :
      (qs : List Request) (later : Request)
      → complete h w q ≡ (ok r, w')
      → r.cache_hit ≡ false
      → h.caps.day_usd ≤ count_at q.today w'.day_usd
      → (complete_all h w' qs ≡ w')
        × ((complete h (complete_all h w' qs) later).0
            ≡ err (kill_switch_active "daily-budget-exhausted"))
  unfolding serve_cache_hit account call_of is_set reason_of
  complete-trips qs later z fresh full = elim (complete-Ends h w q) [
    | stopped f k same y ↦ cc
    | hit price s p found y ↦
        let k : r.cache_hit ≡ true = ap (λ p. (result_or r p.0).cache_hit) (sym z ∙ y) in cc
    | paid price k i o content p s g y ↦
        let m : w' ≡ (account h (call_of h q price) content i o (record w { calls = k })).1 =
          ap (λ p. p.1) (sym z ∙ y) in
        let tripped : w'.killswitch ≡ some "daily-budget-exhausted" =
          rw m (killswitch-account h (call_of h q price) _ i o content (rw m at full)) in
        let (still, refused) = complete_all-killed h w' qs later (rw tripped refl) in
        (still, refused ∙ ap (λ r. err (kill_switch_active (reason_of r))) tripped)
    | broke price k i o v p s g f cut y ↦ cc
    | hit_unread price s p found f y ↦ cc
    | paid_unread price k i o content p s g f y ↦ cc
  ]
