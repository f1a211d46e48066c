-- ===== src/Stability/Acceptance.antt =====
-- When a spec is accepted.
use febal_automation_script.Prelude.{
  ℕ, zero, suc, ◌+◌, ◌≤◌, ◌≡◌, refl, Bool, true, false, ◌&&◌, not, Bool-cases, inl, inr, none, some,
  [], ◌∷◌, count, ◌==◌, arith,
}
use febal_automation_script.Prelude.Texts.{Text}
use febal_automation_script.Worker.Job.{SpecRun}
use febal_automation_script.Stability.{
  passed, stability_loop, run_stability, run_seeded_bug, accept_spec,
}

-- All of the `n` runs from the i-th on pass.
abbrev pub all_pass : (ℕ → SpecRun) → ℕ → ℕ → Bool
all_pass run zero i = true
all_pass run (suc n) i = passed (run i) && all_pass run n (suc i)

stability_loop-count :
    (run : ℕ → SpecRun) (n i : ℕ)
    → (count passed (stability_loop run n i) ≤ n)
      × ((count passed (stability_loop run n i) == n) ≡ all_pass run n i)
unfolding stability_loop
stability_loop-count run zero i = (omega arith, refl)
stability_loop-count run (suc n) i =
    let (a, b) = stability_loop-count run n (suc i) in
    elim (Bool-cases (passed (run i))) [
      | inl e ↦ rw (e, count-cons run n i e) (omega (arith, a), ground (arith, b))
      | inr e ↦ rw (e, count-last run i e) (omega arith, ground arith)
    ]
  where
    count-cons :
        (run : ℕ → SpecRun) (n i : ℕ)
        → passed (run i) ≡ true
        → count passed (run i ∷ stability_loop run n (suc i))
          ≡ 1 + count passed (stability_loop run n (suc i))
    count-cons run n i e = ground (arith, e)

    count-last :
        (run : ℕ → SpecRun) (i : ℕ) → passed (run i) ≡ false → count passed (run i ∷ []) ≡ 0
    count-last run i e = ground (arith, e)

-- With the URL of the build that has the bug, a spec is accepted if and only if all of its runs pass
-- against the standard build and the run against the other build does not. Without it there is no
-- answer, however the runs went.
pub accept_spec_iff :
    (run : ℕ → SpecRun) (n : ℕ) (bug_run : Text → SpecRun) (c : ℕ) (url : Text)
    → (accept_spec run n bug_run (c ∷ url)
        ≡ some (all_pass run n 1 && not (passed (bug_run (c ∷ url)))))
      × (accept_spec run n bug_run [] ≡ none)
unfolding accept_spec run_stability run_seeded_bug
accept_spec_iff run n bug_run c url = (rw (stability_loop-count run n 1).1 refl, refl)
