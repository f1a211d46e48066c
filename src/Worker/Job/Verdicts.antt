-- ===== src/Worker/Job/Verdicts.antt =====
-- What the exit codes and the verdict of a flow say of each other.
use febal_automation_script.Prelude.{
  ℕ, zero, suc, ◌+◌, ◌≤◌, ltb, ◌≡◌, refl, ap, true, false, ◌&&◌, Bool-cases, Option, none, some,
  List, [], ◌∷◌, ◌++◌, any, length, length-append, All, All-append, arith, map, inl, inr, ◌≢◌,
}
use febal_automation_script.Prelude.Int.{ℤ, pos, negsuc}
use febal_automation_script.Prelude.Texts.{Text}
use febal_automation_script.Worker.Classifier.{
  VerdictName, passed, flaky, product_failure, is_zero, classify_retry, HealOutcome, event,
  is_auto_heal, is_quarantine, is_fail_as_defect, reconcile_verdict,
}
use febal_automation_script.Worker.Job.{
  Surroundings, Job, Done, record_ingested, record_flow, exit_code_of, attempt_loop, max_attempts,
  run_flow_job,
}

abbrev pub IsFailure : ℤ → Type 0
IsFailure code = is_zero code ≡ false

-- Only the last attempt may pass.
pub data Tried : List ℤ → Type 0 where
  gave_up : (fails : List ℤ) → All IsFailure fails → Tried fails
  passed_last : (fails : List ℤ) → All IsFailure fails → Tried (fails ++ pos 0 ∷ [])

is_zero-pos : (code : ℤ) → is_zero code ≡ true → code ≡ pos 0
is_zero-pos (pos zero) h = refl
is_zero-pos (pos (suc n)) h = cc
is_zero-pos (negsuc n) h = cc

attempt_loop-Tried :
    (env : Surroundings) (left attempt : ℕ) (codes : List ℤ) (last : Option Text)
    → All IsFailure codes
    → Tried (attempt_loop env left attempt codes last).0
unfolding attempt_loop
attempt_loop-Tried env zero attempt codes last h = gave_up codes h
attempt_loop-Tried env (suc left) attempt codes last h =
    elim (Bool-cases (ltb 1 attempt && env.is_killed attempt)) [
      | inl e ↦ rw e (gave_up codes h)
      | inr e ↦
          rw e (elim (Bool-cases (is_zero (exit_code_of (env.run_spec_once attempt).exit_code))) [
            | inl z ↦ rw (z, is_zero-pos _ z) (passed_last codes h)
            | inr z ↦ rw z (
                attempt_loop-Tried env left (suc attempt) _ _
                  (All-append IsFailure codes _ h (z, tt)))
          ])
    ]

attempt_loop-length :
    (env : Surroundings) (left attempt : ℕ) (codes : List ℤ) (last : Option Text)
    → length (attempt_loop env left attempt codes last).0 ≤ length codes + left
unfolding attempt_loop
attempt_loop-length env zero attempt codes last = omega arith
attempt_loop-length env (suc left) attempt codes last =
    let code = exit_code_of (env.run_spec_once attempt).exit_code in
    ground (
      arith,
      length-append codes (code ∷ []),
      attempt_loop-length env left (suc attempt) (codes ++ code ∷ [])
          (env.run_spec_once attempt).output,
    )

attempt_loop-grows :
    (env : Surroundings) (left attempt : ℕ) (codes : List ℤ) (last : Option Text)
    → length codes ≤ length (attempt_loop env left attempt codes last).0
unfolding attempt_loop
attempt_loop-grows env zero attempt codes last = omega arith
attempt_loop-grows env (suc left) attempt codes last =
    let r = env.run_spec_once attempt in
    let code = exit_code_of r.exit_code in
    ground (
      arith,
      length-append codes (code ∷ []),
      attempt_loop-grows env left (suc attempt) (codes ++ code ∷ []) r.output,
    )

-- The kill flag is not read again before the first attempt.
attempt_loop-starts :
    (env : Surroundings) (left : ℕ) → 1 ≤ length (attempt_loop env (suc left) 1 [] none).0
unfolding attempt_loop
attempt_loop-starts env left =
    let r = env.run_spec_once 1 in
    ground (arith, attempt_loop-grows env left 2 (exit_code_of r.exit_code ∷ []) r.output)

-- What a verdict says of the exit codes behind it.
abbrev pub Explains : VerdictName → List ℤ → Type 0
Explains passed codes = codes ≡ pos 0 ∷ []
Explains flaky codes =
    (fails : List ℤ) × (fails ≢ []) × All IsFailure fails × (codes ≡ fails ++ pos 0 ∷ [])
Explains product_failure codes = All IsFailure codes
Explains _ codes = ⊥

-- What a job that runs to its end leaves.
pub run_flow_job-recorded :
    (env : Surroundings) (job : Job) (outcomes : List HealOutcome)
    → env.is_killed 1 ≡ false
    → env.journal_outcomes ≡ some outcomes
    → let ran = attempt_loop env max_attempts 1 [] none in
      run_flow_job env job ≡ some (record_flow env job outcomes ran.0 ran.1)
unfolding run_flow_job record_ingested
run_flow_job-recorded env job outcomes k r = rw k (
    ap
      (λ o.
        record_ingested env job o (attempt_loop env max_attempts 1 [] none).0
          (attempt_loop env max_attempts 1 [] none).1)
      r)

-- A flow that is not killed at the start, and whose journal is ingested, is tried between one and
-- three times, every attempt but the last has failed, and the row holds the codes and their number.
pub run_flow_job-attempts :
    (env : Surroundings) (job : Job) (outcomes : List HealOutcome)
    → env.is_killed 1 ≡ false
    → env.journal_outcomes ≡ some outcomes
    → (d : Done) × (run_flow_job env job ≡ some d)
      × (1 ≤ d.row.attempts)
      × (d.row.attempts ≤ 3)
      × (length d.row.exit_codes ≡ d.row.attempts)
      × Tried d.row.exit_codes
unfolding record_flow classify_retry
run_flow_job-attempts env job outcomes k r = (
  _,
  run_flow_job-recorded env job outcomes k r,
  attempt_loop-starts env 2,
  attempt_loop-length env max_attempts 1 [] none,
  refl,
  attempt_loop-Tried env max_attempts 1 [] none tt,
)

any-failures : (codes : List ℤ) → All IsFailure codes → any is_zero codes ≡ false
any-failures [] h = refl
any-failures (c ∷ codes) h = rw h.0 (any-failures codes h.1)

any-snoc : (codes : List ℤ) → any is_zero (codes ++ pos 0 ∷ []) ≡ true
any-snoc [] = refl
any-snoc (c ∷ codes) = ground (arith, any-snoc codes)

classify_retry-Explains :
    (codes : List ℤ) → Tried codes → Explains (classify_retry codes).verdict codes
unfolding classify_retry
classify_retry-Explains codes (gave_up _ h) = rw (any-failures codes h) h
classify_retry-Explains codes (passed_last [] h) = refl
classify_retry-Explains codes (passed_last (c ∷ fails) h) =
    rw (any-snoc (c ∷ fails), several) (c ∷ fails, λ e. absurd (cons-not_nil e), h, refl)
  where
    several : ltb 1 (length (c ∷ fails ++ pos 0 ∷ [])) ≡ true
    several = ground (arith, length-append fails (pos 0 ∷ []))

    cons-not_nil : (c ∷ fails) ≢ []
    cons-not_nil e = cc

-- If the journal is ingested without a heal, a quarantine or a defect, a flow that is not killed is
-- recorded, and its verdict says what its exit codes are: passed is a single zero, flaky is failures
-- and then a zero, and a product failure is failures only. It is no other verdict.
pub run_flow_job-Explains :
    (env : Surroundings) (job : Job) (outcomes : List HealOutcome)
    → env.is_killed 1 ≡ false
    → env.journal_outcomes ≡ some outcomes
    → (let events = map (λ o. event (some o)) outcomes in
        (any is_auto_heal events ≡ false)
        × (any is_quarantine events ≡ false)
        × (any is_fail_as_defect events ≡ false))
    → (d : Done) × (run_flow_job env job ≡ some d) × Explains d.row.verdict d.row.exit_codes
unfolding record_flow reconcile_verdict
run_flow_job-Explains env job outcomes k r (a, q, d) = (
  _,
  run_flow_job-recorded env job outcomes k r,
  rw (a, q, d) (classify_retry-Explains _ (attempt_loop-Tried env max_attempts 1 [] none tt)),
)
