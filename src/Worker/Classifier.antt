-- ===== src/Worker/Classifier.antt =====
-- The verdict of a flow: services/worker/classifier.py.
use febal_automation_script.Prelude.{
  ℕ, zero, ltb, String, Bool, true, false, Option, some, List, any, length, if◌then◌else◌,
}
use febal_automation_script.Prelude.Int.{ℤ, pos}

pub data VerdictName : Type 0 where
  passed flaky product_failure auto_healed quarantined aborted : VerdictName

-- The dict that the worker returns.
pub record Verdict : Type 0 where
  pub verdict : VerdictName
  pub attempts : ℕ
  pub passed : Bool
  pub exit_codes : List ℤ

abbrev pub is_zero : ℤ → Bool
is_zero (pos zero) = true
is_zero _ = false

unfoldable pub classify_retry : List ℤ → Verdict
classify_retry codes =
    let passes = any is_zero codes in
    let retried = ltb 1 (length codes) in
    record {
      verdict =
          if passes
          then (if retried then VerdictName.flaky else VerdictName.passed)
          else VerdictName.product_failure;
      attempts = length codes;
      passed = passes;
      exit_codes = codes;
    }

-- The outcome that a journal event reports.
pub data HealOutcome : Type 0 where
  auto_heal quarantine fail_as_defect : HealOutcome
  other : String → HealOutcome

-- An entry of the journal: a dict, whose outcome may be missing, or something else.
pub data JournalEvent : Type 0 where
  event : Option HealOutcome → JournalEvent
  not_a_dict : JournalEvent

abbrev pub is_auto_heal : JournalEvent → Bool
is_auto_heal (event (some auto_heal)) = true
is_auto_heal _ = false

abbrev pub is_quarantine : JournalEvent → Bool
is_quarantine (event (some quarantine)) = true
is_quarantine _ = false

abbrev pub is_fail_as_defect : JournalEvent → Bool
is_fail_as_defect (event (some fail_as_defect)) = true
is_fail_as_defect _ = false

unfoldable pub reconcile_verdict : VerdictName → List JournalEvent → VerdictName
reconcile_verdict exit_verdict journal_events =
    if any is_auto_heal journal_events
    then auto_healed
    else if any is_quarantine journal_events
    then quarantined
    else if any is_fail_as_defect journal_events
    then product_failure
    else exit_verdict
