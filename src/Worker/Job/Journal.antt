-- ===== src/Worker/Job/Journal.antt =====
-- What the journal makes of the verdict of a flow.
use febal_automation_script.Prelude.{
  ltb, ◌≡◌, refl, Bool, true, false, Bool-cases, ◌||◌, WhenSome, Option, none, some, List, [], any,
  length, if◌then◌else◌, map, inl, inr, ◌≢◌, ◌↔◌,
}
use febal_automation_script.Prelude.Int.{ℤ}
use febal_automation_script.Prelude.Texts.{Text}
use febal_automation_script.Worker.Classifier.{
  VerdictName, passed, flaky, product_failure, auto_healed, quarantined, aborted, is_zero,
  classify_retry, HealOutcome, JournalEvent, event, is_auto_heal, is_quarantine, is_fail_as_defect,
  reconcile_verdict,
}
use febal_automation_script.Worker.Job.{
  Surroundings, Job, Done, record_flow, record_ingested, attempt_loop, max_attempts, run_flow_job,
}

-- What comes of a verdict: aborted if the run is killed first; else an auto-heal comes before a
-- quarantine, a quarantine before a defect, and a defect before the exit codes.
abbrev pub Overrides : VerdictName → Bool → Bool → Bool → Bool → VerdictName → Type 0
Overrides base true a q d v = v ≡ aborted
Overrides base false true q d v = v ≡ auto_healed
Overrides base false false true d v = v ≡ quarantined
Overrides base false false false true v = v ≡ product_failure
Overrides base false false false false v = v ≡ base

reconcile_verdict-Overrides :
    (base : VerdictName) (events : List JournalEvent)
    → Overrides base false
        (any is_auto_heal events)
        (any is_quarantine events)
        (any is_fail_as_defect events)
        (reconcile_verdict base events)
unfolding reconcile_verdict
reconcile_verdict-Overrides base events =
    by_tests (any is_auto_heal events) (any is_quarantine events) (any is_fail_as_defect events)
  where
    by_tests :
        (a q d : Bool)
        → Overrides base false a q d (
            if a
            then auto_healed
            else if q
            then quarantined
            else if d
            then product_failure
            else base)
    by_tests true q d = refl
    by_tests false true d = refl
    by_tests false false true = refl
    by_tests false false false = refl

reconcile_verdict-aborted :
    (codes : List ℤ) (events : List JournalEvent)
    → reconcile_verdict (classify_retry codes).verdict events ≢ aborted
unfolding reconcile_verdict classify_retry
reconcile_verdict-aborted codes events =
    never (any is_auto_heal events) (any is_quarantine events) (any is_fail_as_defect events)
      (any is_zero codes) (ltb 1 (length codes))
  where
    never :
        (a q d p r : Bool)
        → (if a
            then auto_healed
            else if q
            then quarantined
            else if d
            then product_failure
            else if p
            then (if r then flaky else passed)
            else product_failure)
          ≢ aborted
    never true q d p r h = cc
    never false true d p r h = cc
    never false false true p r h = cc
    never false false false true true h = cc
    never false false false true false h = cc
    never false false false false r h = cc

abbrev pub is_some : Option Done → Bool
is_some none = false
is_some (some d) = true

abbrev pub is_ingested : Option (List HealOutcome) → Bool
is_ingested none = false
is_ingested (some outcomes) = true

abbrev pub events_of : Option (List HealOutcome) → List JournalEvent
events_of none = []
events_of (some outcomes) = map (λ o. event (some o)) outcomes

-- What the verdicts of a job are.
abbrev pub IsSettled : Bool → List JournalEvent → Done → Type 0
IsSettled killed events d =
    (d.returned.verdict ≡ d.row.verdict)
    × (d.published.test_status ≡ d.row.verdict)
    × Overrides (classify_retry d.row.exit_codes).verdict killed (any is_auto_heal events)
        (any is_quarantine events) (any is_fail_as_defect events) d.row.verdict
    × ((d.row.verdict ≡ aborted) ↔ (killed ≡ true))

record_ingested-IsSettled :
    (env : Surroundings) (job : Job) (o : Option (List HealOutcome)) (codes : List ℤ)
    (last : Option Text)
    → (is_some (record_ingested env job o codes last) ≡ is_ingested o)
      × WhenSome (IsSettled false (events_of o)) (record_ingested env job o codes last)
unfolding record_ingested record_flow
record_ingested-IsSettled env job none codes last = (refl, tt)
record_ingested-IsSettled env job (some outcomes) codes last = (
  refl,
  (
    refl,
    refl,
    reconcile_verdict-Overrides (classify_retry codes).verdict (events_of (some outcomes)),
    (λ q. absurd (reconcile_verdict-aborted codes (events_of (some outcomes)) q), λ q. absurd cc),
  ),
)

-- A job is recorded exactly when the run is killed before the flow starts or the journal is ingested.
-- The verdict that is then recorded, returned and published is one and the same: aborted if the run is
-- killed before the flow starts, and else the journal's strongest event, whatever the exit codes, or
-- else the verdict of the exit codes. It is aborted only if the run was killed then.
pub run_flow_job-verdict :
    (env : Surroundings) (job : Job)
    → (is_some (run_flow_job env job) ≡ (env.is_killed 1 || is_ingested env.journal_outcomes))
      × WhenSome
          (IsSettled (env.is_killed 1) (events_of env.journal_outcomes))
          (run_flow_job env job)
unfolding run_flow_job
run_flow_job-verdict env job = elim (Bool-cases (env.is_killed 1)) [
  | inl e ↦ rw e (refl, (refl, refl, refl, (λ q. refl, λ q. refl)))
  | inr e ↦ rw e (
      record_ingested-IsSettled env job env.journal_outcomes
        (attempt_loop env max_attempts 1 [] none).0 (attempt_loop env max_attempts 1 [] none).1)
]
