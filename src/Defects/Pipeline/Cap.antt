-- ===== src/Defects/Pipeline/Cap.antt =====
-- The cap on new issues: services/defects/pipeline.py.
use febal_automation_script.Prelude.{
  ℕ, suc, ◌+◌, ◌≤◌, ◌<◌, leb, String, ◌≡◌, refl, ap, ◌&&◌, Bool-cases, inl, inr, Option, none, some,
  List, [], ◌∷◌, ◌++◌, length, length-append, append-nil, ◌∙◌, arith,
}
use febal_automation_script.Prelude.Texts.{Text}
use febal_automation_script.Defects.Pipeline.{
  may_autofile, Defect, JiraCall, searched, created, commented, linked, attached,
  safe_artifact_paths, attach_all, create_or_not, on_search, file_or_update, Failure, Site,
  is_product, draft_of, run_defect_pipeline, run_all,
}

-- The fingerprints of the issues that were created.
abbrev pub created_fps : List JiraCall → List String
created_fps [] = []
created_fps (created fp ∷ calls) = fp ∷ created_fps calls
created_fps (_ ∷ calls) = created_fps calls

created_fps-append : (a b : List JiraCall) → created_fps (a ++ b) ≡ created_fps a ++ created_fps b
created_fps-append [] b = refl
created_fps-append (created fp ∷ a) b = ap (λ l. fp ∷ l) (created_fps-append a b)
created_fps-append (searched fp ∷ a) b = created_fps-append a b
created_fps-append (commented k ∷ a) b = created_fps-append a b
created_fps-append (linked k ∷ a) b = created_fps-append a b
created_fps-append (attached k p ∷ a) b = created_fps-append a b

created_fps-attach_all :
    (key : Option String) (paths : List Text) → created_fps (attach_all key paths) ≡ []
created_fps-attach_all key [] = refl
created_fps-attach_all key (p ∷ paths) = created_fps-attach_all key paths

-- How a step leaves the counter and the calls: the counter stays within the cap and counts the issues
-- created.
abbrev pub Keeps : Site → ℕ → List JiraCall → ℕ → List JiraCall → Type 0
Keeps site counter calls counter' calls' =
    (counter ≤ site.settings.jira_max_tickets_per_run
      → counter' ≤ site.settings.jira_max_tickets_per_run)
    × (length (created_fps calls') + counter ≡ length (created_fps calls) + counter')

-- A call that creates nothing.
Keeps-same :
    (site : Site) (counter : ℕ) (calls calls' : List JiraCall)
    → created_fps calls' ≡ created_fps calls
    → Keeps site counter calls counter calls'
Keeps-same site counter calls calls' e = (λ h. h, rw e refl)

fps-asked :
    (calls : List JiraCall) (fp : String)
    → created_fps (calls ++ searched fp ∷ []) ≡ created_fps calls
fps-asked calls fp =
    rw (created_fps-append calls (searched fp ∷ [])) (append-nil (created_fps calls))

fps-updated :
    (calls : List JiraCall) (key : Option String) (paths : List Text)
    → created_fps (calls ++ commented key ∷ attach_all key paths) ≡ created_fps calls
fps-updated calls key paths =
    rw
      (
        created_fps-append calls (commented key ∷ attach_all key paths),
        created_fps-attach_all key paths,
      )
      (append-nil (created_fps calls))

fps-created :
    (calls : List JiraCall) (fp : String) (key : Option String) (paths : List Text)
    → created_fps (calls ++ (created fp ∷ (attach_all key paths ++ linked key ∷ [])))
      ≡ created_fps calls ++ fp ∷ []
fps-created calls fp key paths =
    rw
      (
        created_fps-append calls (created fp ∷ (attach_all key paths ++ linked key ∷ [])),
        created_fps-append (attach_all key paths) (linked key ∷ []),
        created_fps-attach_all key paths,
      )
      refl

-- A call that creates an issue.
Keeps-created :
    (site : Site) (fp : String) (counter : ℕ) (calls calls' : List JiraCall)
    → counter < site.settings.jira_max_tickets_per_run
    → created_fps calls' ≡ created_fps calls ++ fp ∷ []
    → Keeps site counter calls (suc counter) calls'
Keeps-created site fp counter calls calls' l e =
    (λ h. omega arith, rw e (omega (arith, length-append (created_fps calls) (fp ∷ []))))

file_or_update-Keeps :
    (site : Site) (defect : Defect) (artifacts : List Text) (counter : ℕ) (calls : List JiraCall)
    → let r = file_or_update site.jira site.settings site.inside defect artifacts counter calls in
      Keeps site counter calls r.0.counter r.1
unfolding file_or_update on_search create_or_not
file_or_update-Keeps site defect artifacts counter calls =
    by_search (site.jira.search_jql calls defect.fingerprint) refl
  where
    paths : List Text
    paths = safe_artifact_paths site.inside artifacts

    asked : List JiraCall
    asked = calls ++ searched defect.fingerprint ∷ []

    by_search :
        (found : Option (Option String))
        → site.jira.search_jql calls defect.fingerprint ≡ found
        → let r = on_search site.jira site.settings defect paths counter asked found in
          Keeps site counter calls r.0.counter r.1
    by_search (some key) e =
        Keeps-same site counter calls (asked ++ commented key ∷ attach_all key paths)
          (fps-updated asked key paths ∙ fps-asked calls defect.fingerprint)
    by_search none e = elim (Bool-cases (leb site.settings.jira_max_tickets_per_run counter)) [
      | inl b ↦ rw b (Keeps-same site counter calls asked (fps-asked calls defect.fingerprint))
      | inr b ↦ rw b (
          Keeps-created site defect.fingerprint counter calls
            (asked
              ++ (created defect.fingerprint
                  ∷ (attach_all (site.jira.create_issue asked defect.fingerprint) paths
                      ++ linked (site.jira.create_issue asked defect.fingerprint) ∷ [])))
            (ground (arith, b))
            (fps-created asked defect.fingerprint (site.jira.create_issue asked defect.fingerprint)
                paths
              ∙ ap (λ l. l ++ defect.fingerprint ∷ []) (fps-asked calls defect.fingerprint)))
    ]

run_defect_pipeline-Keeps :
    (site : Site) (run_id : String) (f : Failure) (counter : ℕ) (calls : List JiraCall)
    → let r = run_defect_pipeline site run_id f counter calls in Keeps site counter calls r.1 r.2
unfolding run_defect_pipeline
run_defect_pipeline-Keeps site run_id f counter calls =
    let defect = draft_of site run_id f in
    elim (Bool-cases
      (is_product defect.classification && may_autofile site.settings defect.confidence)) [
        | inl e ↦ rw e (file_or_update-Keeps site defect f.artifacts counter calls)
        | inr e ↦ rw e (Keeps-same site counter calls calls refl)
      ]

run_all-Keeps :
    (site : Site) (run_id : String) (failures : List Failure) (counter : ℕ) (calls : List JiraCall)
    → let r = run_all site run_id failures counter calls in Keeps site counter calls r.1 r.2
unfolding run_all
run_all-Keeps site run_id [] counter calls = (λ h. h, refl)
run_all-Keeps site run_id (f ∷ failures) counter calls =
    let r = run_defect_pipeline site run_id f counter calls in
    let (a, b) = run_defect_pipeline-Keeps site run_id f counter calls in
    let (a', b') = run_all-Keeps site run_id failures r.1 r.2 in
    (λ h. a' (a h), omega (arith, b, b'))

-- Over the failures of a run whose counter starts within the cap: the counter ends within the cap, and
-- it has grown by the number of issues that were created.
pub run_all-cap :
    (site : Site) (run_id : String) (failures : List Failure) (counter : ℕ) (calls : List JiraCall)
    → counter ≤ site.settings.jira_max_tickets_per_run
    → let r = run_all site run_id failures counter calls in
      (r.1 ≤ site.settings.jira_max_tickets_per_run)
      × (length (created_fps r.2) + counter ≡ length (created_fps calls) + r.1)
run_all-cap site run_id failures counter calls h =
    let k = run_all-Keeps site run_id failures counter calls in (k.0 h, k.1)
