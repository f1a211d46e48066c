-- ===== src/Healing/Journal/Effects.antt =====
-- What the ingestion of a journal does.
use febal_automation_script.Prelude.{
  String, ◌≡◌, refl, ap, Bool, true, Bool-cases, inl, inr, Option, none, some, List, [], ◌∷◌, ◌++◌,
  map, All, All-map, All-append, Mem, mem-cons_self, mem-cons_of_mem,
}
use febal_automation_script.Prelude.Texts.{Text}
use febal_automation_script.Healing.Outcome.{
  Outcome, auto_heal, quarantine, fail_as_defect, applied, rejected, is_healed,
}
use febal_automation_script.Healing.Journal.{
  HealEntry, selector_from_chain, Effect, rewritten, appended, or_chain, append_history,
  apply_rewrite, effects_of, audit_row, ingest_entries,
}

-- An effect comes from an entry of the list: a page object is rewritten only for an auto-heal, to the
-- value that its chain begins with, and the graph hears only of auto-heals and of applied heals.
abbrev pub IsWarranted : (Text → Text → Bool) → List HealEntry → Effect → Type 0
IsWarranted resolves es (rewritten key selector) =
    (e : HealEntry) × Mem e es
    × (e.outcome ≡ auto_heal)
    × (e.element_key ≡ key)
    × (selector_from_chain e.after_chain ≡ some selector)
    × (resolves key selector ≡ true)
IsWarranted resolves es (appended key chain) =
    (e : HealEntry) × Mem e es
    × (is_healed e.outcome ≡ true)
    × (e.element_key ≡ key)
    × (or_chain e.after_chain e.before_chain ≡ chain)

IsWarranted-later :
    (resolves : Text → Text → Bool) (e : HealEntry) (es : List HealEntry) (f : Effect)
    → IsWarranted resolves es f
    → IsWarranted resolves (e ∷ es) f
IsWarranted-later resolves e es (rewritten k s) (d, m, o, k', c, r) =
    (d, mem-cons_of_mem e m, o, k', c, r)
IsWarranted-later resolves e es (appended k c) (d, m, o, k', q) = (d, mem-cons_of_mem e m, o, k', q)

effects_of-IsWarranted :
    (resolves : Text → Text → Bool) (e : HealEntry) (es : List HealEntry)
    → All (IsWarranted resolves (e ∷ es)) (effects_of resolves e)
unfolding effects_of apply_rewrite
effects_of-IsWarranted resolves e es = by_outcome e.outcome refl
  where
    by_selector :
        (s : Option Text)
        → selector_from_chain e.after_chain ≡ s
        → e.outcome ≡ auto_heal
        → All (IsWarranted resolves (e ∷ es)) (apply_rewrite resolves e.element_key s)
    by_selector none h o = tt
    by_selector (some s) h o = elim (Bool-cases (resolves e.element_key s)) [
      | inl r ↦ rw r ((e, mem-cons_self, o, refl, h, r), tt)
      | inr r ↦ rw r tt
    ]

    history : is_healed e.outcome ≡ true → All (IsWarranted resolves (e ∷ es)) (append_history e)
    history h = ((e, mem-cons_self, h, refl, refl), tt)

    by_outcome :
        (o : Outcome)
        → e.outcome ≡ o
        → All (IsWarranted resolves (e ∷ es)) (elim o as (λ x. List Effect) [
          | auto_heal ↦
              apply_rewrite resolves e.element_key (selector_from_chain e.after_chain)
              ++ append_history e
          | applied ↦ append_history e
          | quarantine ↦ []
          | fail_as_defect ↦ []
          | rejected ↦ []
        ])
    by_outcome auto_heal h =
        All-append (IsWarranted resolves (e ∷ es)) _ (append_history e)
          (by_selector (selector_from_chain e.after_chain) refl h) (history (rw h refl))
    by_outcome applied h = history (rw h refl)
    by_outcome quarantine h = tt
    by_outcome fail_as_defect h = tt
    by_outcome rejected h = tt

-- Each entry gets one audit row and one outcome, in order, whatever becomes of its effects; and every
-- effect is warranted by an entry.
pub ingest_entries_lem :
    (resolves : Text → Text → Bool) (run_id flow_id : String) (es : List HealEntry)
    → let r = ingest_entries resolves run_id flow_id es in
      (r.rows ≡ map (audit_row run_id flow_id) es)
      × (r.outcomes ≡ map (λ e. e.outcome) es)
      × All (IsWarranted resolves es) r.effects
unfolding ingest_entries
ingest_entries_lem resolves run_id flow_id [] = (refl, refl, tt)
ingest_entries_lem resolves run_id flow_id (e ∷ es) =
    let rest = ingest_entries resolves run_id flow_id es in
    let (a, b, c) = ingest_entries_lem resolves run_id flow_id es in
    (
      ap (λ l. audit_row run_id flow_id e ∷ l) a,
      ap (λ l. e.outcome ∷ l) b,
      All-append (IsWarranted resolves (e ∷ es)) (effects_of resolves e) rest.effects
          (effects_of-IsWarranted resolves e es)
          (All-map (λ f h. IsWarranted-later resolves e es f h) rest.effects c),
    )
