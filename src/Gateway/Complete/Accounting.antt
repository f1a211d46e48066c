-- ===== src/Gateway/Complete/Accounting.antt =====
-- The counters of a run against the sums of its ledger rows.
use febal_automation_script.Prelude.{
  ℕ, ◌+◌, ◌≤◌, String, ◌≡◌, false, All, ◌&&◌, not, Option, List, [], ◌∷◌, ◌++◌, arith, count_at,
  add_at, count_at-add_at, if◌then◌else◌, str_eq,
}
use febal_automation_script.Gateway.Pricing.{compute_cost}
use febal_automation_script.Gateway.State.{Request, CachedResult, LlmUsage, World, Host, no_fault}
use febal_automation_script.Gateway.Complete.{
  Call, usage_row, account, serve_cache_hit, complete_all,
}
use febal_automation_script.Gateway.Complete.Keeps.{complete_all-keeps}

-- What the rows of a run add up to; rows that the cache served do not count.
abbrev pub ledger_sum : (LlmUsage → ℕ) → String → List LlmUsage → ℕ
ledger_sum f run_id [] = 0
ledger_sum f run_id (row ∷ rows) =
    (if str_eq row.run_id run_id && not row.cache_hit then f row else 0) + ledger_sum f run_id rows

ledger_sum-snoc :
    (f : LlmUsage → ℕ) (run_id : String) (rows : List LlmUsage) (row : LlmUsage)
    → ledger_sum f run_id (rows ++ row ∷ [])
      ≡ ledger_sum f run_id rows
        + (if str_eq row.run_id run_id && not row.cache_hit then f row else 0)
ledger_sum-snoc f run_id [] row = omega arith
ledger_sum-snoc f run_id (r ∷ rows) row = omega (arith, ledger_sum-snoc f run_id rows row)

abbrev pub total_tokens : LlmUsage → ℕ
total_tokens row = row.input_tokens + row.output_tokens

-- Both counters of every run are the sums of the run's rows.
pub record IsBalanced (w : World) : Type 0 where
  pub usd_at : (r : String) → count_at r w.run_usd ≡ ledger_sum (λ row. row.cost_usd) r w.ledger
  pub tok_at : (r : String) → count_at r w.run_tok ≡ ledger_sum total_tokens r w.ledger

hit-IsBalanced :
    (c : Call) (r : CachedResult) (w : World) → IsBalanced w → IsBalanced (serve_cache_hit c r w).1
unfolding serve_cache_hit
hit-IsBalanced c r w b = record {
  usd_at = λ k. rw ledger_sum-snoc (ground (arith, b.usd_at k));
  tok_at = λ k. rw ledger_sum-snoc (ground (arith, b.tok_at k));
}

-- What a settled call writes, field by field.
module _ (h : Host) (c : Call) (w : World) (i o : ℕ) (content : Option String) where
  abbrev after : World
  after = (account h c content i o w).1

  abbrev cost : ℕ
  cost = compute_cost c.price i o

  pub run_usd-account : after.run_usd ≡ add_at c.run_id cost w.run_usd
  unfolding account
  run_usd-account = ground arith

  pub run_tok-account : after.run_tok ≡ add_at c.run_id (i + o) w.run_tok
  unfolding account
  run_tok-account = ground arith

  pub day_usd-account : after.day_usd ≡ add_at c.request.today cost w.day_usd
  unfolding account
  day_usd-account = ground arith

  pub day_tok-account : after.day_tok ≡ add_at c.request.today (i + o) w.day_tok
  unfolding account
  day_tok-account = ground arith

  pub ledger-account : after.ledger ≡ w.ledger ++ usage_row c i o cost false ∷ []
  unfolding account
  ledger-account = ground arith

  account-IsBalanced : IsBalanced w → IsBalanced after
  unfolding usage_row
  account-IsBalanced b = record {
    usd_at = λ k.
        rw (run_usd-account, ledger-account, ledger_sum-snoc, count_at-add_at)
          (ground (arith, b.usd_at k));
    tok_at = λ k.
        rw (run_tok-account, ledger-account, ledger_sum-snoc, count_at-add_at)
          (ground (arith, b.tok_at k));
  }

calls-IsBalanced : (w : World) (n : ℕ) → IsBalanced w → IsBalanced (record w { calls = n })
calls-IsBalanced w n b = record { usd_at = b.usd_at; tok_at = b.tok_at }

-- Whatever calls are made, refused, served from the cache or failed by the provider, the counters of
-- every run stay the sums of its metered ledger rows, as long as neither Redis nor the database
-- fails.
pub complete_all-IsBalanced :
    (h : Host) (w : World) (qs : List Request)
    → All (λ q. q.fault ≡ no_fault) qs
    → IsBalanced w
    → IsBalanced (complete_all h w qs)
complete_all-IsBalanced h =
    complete_all-keeps h IsBalanced (λ q. q.fault ≡ no_fault) calls-IsBalanced hit-IsBalanced
      (λ c w n i o content r reported b.
        account-IsBalanced h c (record w { calls = n }) i o content (calls-IsBalanced w n b))
      (λ q c w w' n i o sound broken r reported cut b. absurd (broken sound))

-- No counter of a run is below the sum of the run's rows.
pub record IsCovered (w : World) : Type 0 where
  pub usd_above : (r : String) → ledger_sum (λ row. row.cost_usd) r w.ledger ≤ count_at r w.run_usd
  pub tok_above : (r : String) → ledger_sum total_tokens r w.ledger ≤ count_at r w.run_tok
