-- ===== src/Defects/Pipeline/Autonomy.antt =====
-- The gate of the autonomy.
use febal_automation_script.Prelude.{
  ℕ, ◌≤◌, leb, String, ◌≡◌, ◌≢◌, refl, true, false, ◌&&◌, Bool-cases, and-true, inl, inr, ◌⊎◌, none,
  List, [], ◌∷◌, length, ◌∙◌, All, arith,
}
use febal_automation_script.Defects.Classify.{Class, infrastructure, automation, product_defect}
use febal_automation_script.Defects.Pipeline.{
  Settings, may_autofile, Defect, draft, applied, JiraCall, file_or_update, Failure, FileResult,
  Action, create, update, no_file, Site, is_product, filed, draft_of, run_defect_pipeline, run_all,
}

-- What justifies a defect's status: it is a draft without an issue, or applied by the autonomy, for a
-- product defect whose confidence reaches the threshold.
abbrev pub IsJustified : Site → Defect → Type 0
IsJustified site d =
    ((d.status ≡ draft) × (d.jira_key ≡ none))
    ⊎ ((d.status ≡ applied)
        × (d.classification ≡ product_defect)
        × (site.settings.jira_autonomous_enabled ≡ true)
        × (site.settings.jira_confidence_threshold ≤ d.confidence))

may_autofile-off :
    (settings : Settings) (conf : ℕ)
    → settings.jira_autonomous_enabled ≡ false
    → may_autofile settings conf ≡ false
unfolding may_autofile
may_autofile-off settings conf h = rw h refl

filed-IsJustified :
    (site : Site) (d : Defect) (result : FileResult)
    → (d.status ≡ draft) × (d.jira_key ≡ none)
    → is_product d.classification ≡ true
    → may_autofile site.settings d.confidence ≡ true
    → IsJustified site (filed d result)
unfolding filed may_autofile
filed-IsJustified site d result h p m = by_action result.action
  where
    class_eq : (c : Class) → is_product c ≡ true → c ≡ product_defect
    class_eq product_defect q = refl
    class_eq automation q = absurd cc
    class_eq infrastructure q = absurd cc

    gate :
        (d.classification ≡ product_defect)
        × (site.settings.jira_autonomous_enabled ≡ true)
        × (site.settings.jira_confidence_threshold ≤ d.confidence)
    gate = (
      class_eq d.classification p,
      (and-true site.settings.jira_autonomous_enabled
          (leb site.settings.jira_confidence_threshold d.confidence) m).0,
      ground (arith, m),
    )

    by_action :
        (a : Action)
        → IsJustified site (elim a as (λ x. Defect) [
          | create ↦ record d { jira_key = result.jira_key; status = applied }
          | update ↦ record d { jira_key = result.jira_key; status = applied }
          | no_file ↦ d
        ])
    by_action create = inr (refl, gate.0, gate.1, gate.2)
    by_action update = inr (refl, gate.0, gate.1, gate.2)
    by_action no_file = inl h

run_defect_pipeline-IsJustified :
    (site : Site) (run_id : String) (f : Failure) (counter : ℕ) (calls : List JiraCall)
    → let r = run_defect_pipeline site run_id f counter calls in
      IsJustified site r.0
      × (site.settings.jira_autonomous_enabled ≡ false → (r.1 ≡ counter) × (r.2 ≡ calls))
unfolding run_defect_pipeline draft_of
run_defect_pipeline-IsJustified site run_id f counter calls =
    let defect = draft_of site run_id f in
    elim (Bool-cases
      (is_product defect.classification && may_autofile site.settings defect.confidence)) [
        | inl e ↦
            let (p, m) =
              and-true (is_product defect.classification)
                (may_autofile site.settings defect.confidence) e in
            rw e (
              filed-IsJustified site defect
                  (file_or_update site.jira site.settings site.inside defect f.artifacts counter
                    calls).0
                  (refl, refl) p m,
              λ h. absurd (off site.settings defect.confidence h m),
            )
        | inr e ↦ rw e (inl (refl, refl), λ h. (refl, refl))
      ]
  where
    off :
        (settings : Settings) (conf : ℕ)
        → settings.jira_autonomous_enabled ≡ false
        → may_autofile settings conf ≢ true
    off settings conf h m = ground (arith, may_autofile-off settings conf h, m)

-- Every defect of a run is justified, and there is one for each failure: it is a draft without an
-- issue, or the autonomy is on and it is a product defect whose confidence reaches the threshold.
pub run_all-IsJustified :
    (site : Site) (run_id : String) (failures : List Failure) (counter : ℕ) (calls : List JiraCall)
    → let r = run_all site run_id failures counter calls in
      All (IsJustified site) r.0 × (length r.0 ≡ length failures)
unfolding run_all
run_all-IsJustified site run_id [] counter calls = (tt, refl)
run_all-IsJustified site run_id (f ∷ failures) counter calls =
    let r = run_defect_pipeline site run_id f counter calls in
    let (a, b) = run_all-IsJustified site run_id failures r.1 r.2 in
    (((run_defect_pipeline-IsJustified site run_id f counter calls).0, a), omega (arith, b))

-- With the autonomy off a run makes no call to Jira and leaves the counter as it is.
pub run_all-off :
    (site : Site) (run_id : String) (failures : List Failure) (counter : ℕ) (calls : List JiraCall)
    → site.settings.jira_autonomous_enabled ≡ false
    → let r = run_all site run_id failures counter calls in (r.1 ≡ counter) × (r.2 ≡ calls)
unfolding run_all
run_all-off site run_id [] counter calls h = (refl, refl)
run_all-off site run_id (f ∷ failures) counter calls h =
    let r = run_defect_pipeline site run_id f counter calls in
    let (a, b) = (run_defect_pipeline-IsJustified site run_id f counter calls).1 h in
    let (c, d) = run_all-off site run_id failures r.1 r.2 h in (c ∙ a, d ∙ b)
