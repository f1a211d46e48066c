-- ===== src/Scenarios/Routes/Answers.antt =====
-- What the routes of apps/api/app/routers/scenarios.py answer, and what they leave in the table.
use febal_automation_script.Prelude.{
  WhenSome-some, subst, ℕ, String, Bool, true, false, not, ◌&&◌, ◌≡◌, refl, ◌∙◌, ap, List, [], ◌∷◌,
  Option, none, some, any, ◌==◌, arith, if◌then◌else◌, Bool-cases, inl, inr,
}
use febal_automation_script.Gates.{ThenRef, assert_non_vacuous, is_empty}
use febal_automation_script.Gates.Backed.{all_backed, assert_non_vacuous_iff}
use febal_automation_script.Scenarios.{
  Raised, Scenario, Table, get, change, write, set_valid, set_status, edit, update_gherkin,
  validate_status, approved, draft,
}
use febal_automation_script.Scenarios.Routes.{
  then_results, View, Views, is_asked, Verdict, passed, generation_error, driver_error, verdict_of,
  assert_in, Response, not_found, unprocessable, failed, detail, shown_row, after_write, gates,
  unless_refused, edit_found, edit_scenario, approve_found, approve_scenario,
}
use febal_automation_script.Scenarios.Routes.Shown.{backed_in}

abbrev pub is_detail : Response → Bool
is_detail (detail row results) = true
is_detail not_found = false
is_detail unprocessable = false
is_detail failed = false

-- The row that is found is the row that changes.
pub get-change :
    (f : Scenario → Scenario)
    → ((s : Scenario) → (f s).id ≡ s.id)
    → (id : ℕ) (rows : List Scenario) (row : Scenario) → get rows id ≡ some row
    → get (change f id rows) id ≡ some (f row)
unfolding get change
get-change f k id [] row h = absurd cc
get-change f k id (s ∷ rows) row h = elim (Bool-cases (s.id == id)) [
  | inl e ↦ rw e (
      rw (ap (λ n. n == id) (k s) ∙ e)
        (ap (λ (o : Option Scenario). elim o [ none ↦ none | some r ↦ some (f r) ]) (rw e at h)))
  | inr e ↦ rw e (rw e (get-change f k id rows row (rw e at h)))
]

-- Both gates: the text parses, there is an annotation, and the graph backs each.
abbrev pub passes_in : (String → Bool) → View → String → List ThenRef → Bool
passes_in parses view text refs = parses text && (not (is_empty refs) && backed_in view refs)

abbrev pub is_row : Option Scenario → Bool
is_row none = false
is_row (some row) = true

abbrev pub is_passed : Verdict → Bool
is_passed passed = true
is_passed generation_error = false
is_passed driver_error = false

none_passes : (a b c : Bool) → (a && (b && false)) ≡ false
none_passes a b c = ground arith

pub gates-is_passed :
    (parses : String → Bool) (view : View) (text : String) (refs : List ThenRef)
    → is_passed (gates parses view text refs) ≡ passes_in parses view text refs
unfolding gates assert_in
gates-is_passed parses (some g) text refs =
    by_verdict (parses text) (assert_non_vacuous g refs) (assert_non_vacuous_iff g refs)
  where
    by_verdict :
        (b c : Bool)
        → c ≡ (not (is_empty refs) && all_backed g refs)
        → is_passed (if b then verdict_of c else generation_error)
          ≡ (b && (not (is_empty refs) && all_backed g refs))
    by_verdict true true e = e
    by_verdict true false e = e
    by_verdict false c e = refl
gates-is_passed parses none text refs =
    by_asked (parses text) (any (λ (e : ThenRef). is_asked e.kind e) refs)
  where
    by_asked :
        (b c : Bool)
        → is_passed (if b then (if c then driver_error else generation_error) else generation_error)
          ≡ (b && (not (is_empty refs) && false))
    by_asked true true = ground arith
    by_asked true false = ground arith
    by_asked false c = refl

-- The first row with the id makes way for another.
abbrev pub put : ℕ → Scenario → List Scenario → List Scenario
put id new [] = []
put id new (s ∷ rows) = if s.id == id then new ∷ rows else s ∷ put id new rows

change-put :
    (f : Scenario → Scenario) (id : ℕ) (rows : List Scenario) (row : Scenario)
    → get rows id ≡ some row
    → change f id rows ≡ put id (f row) rows
unfolding get change
change-put f id [] row h = refl
change-put f id (s ∷ rows) row h = elim (Bool-cases (s.id == id)) [
  | inl e ↦
      rw e (ap (λ x. x ∷ rows) (ap f (WhenSome-some (λ r. s ≡ r) (some s) refl row (rw e at h))))
  | inr e ↦ rw e (ap (λ x. s ∷ x) (change-put f id rows row (rw e at h)))
]

-- What a write of the row that was found answers and leaves.
after_write-row :
    (view : View) (f : Scenario → Scenario) (id : ℕ) (t : Table) (row : Scenario)
    → ((s : Scenario) → (f s).id ≡ s.id)
    → get t.rows id ≡ some row
    → after_write view id (write f id t (get t.rows id)) ≡ (
      detail (f row) (then_results view (f row).then_refs),
      record t { rows = put id (f row) t.rows },
    )
unfolding after_write shown_row write
after_write-row view f id t row k h = rw h (
    rw (get-change f k id t.rows row h) (
      ap (λ rows. (detail (f row) (then_results view (f row).then_refs), record t { rows = rows }))
        (change-put f id t.rows row h)))

pub after_write-table :
    (view : View) (id : ℕ) (o : Option Raised) (t : Table) → (after_write view id (o, t)).1 ≡ t
unfolding after_write shown_row
after_write-table view id (some raised) t = refl
after_write-table view id none t = shown (get t.rows id)
  where
    shown : (o : Option Scenario) → (shown_row view t o).1 ≡ t
    shown none = refl
    shown (some row) = refl

abbrev pub Either : Bool → Type 0 → Type 0 → Type 0
Either true A B = A
Either false A B = B

-- The answer is no detail, and the table is as it was.
abbrev pub IsRefused : Table → Response × Table → Type 0
IsRefused t done = (is_detail done.0 ≡ false) × (done.1 ≡ t)

-- What a gated write answers and leaves, from what the write does.
unless_refused-Either :
    (parses : String → Bool) (v : Verdict) (t : Table) (done end : Response × Table)
    → done ≡ end
    → Either
        (is_passed v)
        (unless_refused parses v t done ≡ end)
        (IsRefused t (unless_refused parses v t done))
unfolding unless_refused
unless_refused-Either parses passed t done end h = h
unless_refused-Either parses generation_error t done end h = (refl, refl)
unless_refused-Either parses driver_error t done end h = (refl, refl)

-- The row after an edit, and the row after an approval.
abbrev pub edited_row : String → List ThenRef → Scenario → Scenario
edited_row text refs row = record {
  id = row.id;
  run_id = row.run_id;
  flow_id = row.flow_id;
  feature_name = row.feature_name;
  gherkin_text = text;
  then_refs = refs;
  status = draft;
  edited = true;
  stale = row.stale;
}

abbrev pub approved_row : Scenario → Scenario
approved_row row = record {
  id = row.id;
  run_id = row.run_id;
  flow_id = row.flow_id;
  feature_name = row.feature_name;
  gherkin_text = row.gherkin_text;
  then_refs = row.then_refs;
  status = approved;
  edited = row.edited;
  stale = row.stale;
}

-- What an edit comes to, by the row that it finds.
abbrev pub IsEdit :
    (String → Bool)
    → Views
    → ℕ
    → String
    → List ThenRef
    → Table
    → Response × Table
    → Option Scenario
    → Type 0
IsEdit parses views id text refs t done none = done ≡ (not_found, t)
IsEdit parses views id text refs t done (some row) =
    Either (passes_in parses views.gate text refs)
      (done ≡ (
        detail (edited_row text refs row) (then_results views.shown refs),
        record t { rows = put id (edited_row text refs row) t.rows },
      ))
      (IsRefused t done)

-- An edit of no row is answered as not found. One whose text and annotations pass both gates replaces
-- the row by a draft that has them and is marked as edited, the other fields and rows as they were,
-- and is answered with that row; any other edit is answered with an error and leaves the table as
-- it was.
pub edit_scenario-saves :
    (parses : String → Bool) (views : Views) (id : ℕ) (text : String) (refs : List ThenRef)
    (t : Table)
    → IsEdit parses views id text refs t (edit_scenario parses views id text refs t) (get t.rows id)
unfolding edit_scenario edit_found update_gherkin edit
edit_scenario-saves parses views id text refs t = found (get t.rows id) refl
  where
    found :
        (o : Option Scenario)
        → get t.rows id ≡ o
        → IsEdit parses views id text refs t (edit_found parses views id text refs t o) o
    found none e = refl
    found (some row) e =
        subst
          (λ b.
            Either b
              (edit_found parses views id text refs t (some row) ≡ (
                detail (edited_row text refs row) (then_results views.shown refs),
                record t { rows = put id (edited_row text refs row) t.rows },
              ))
              (IsRefused t (edit_found parses views id text refs t (some row))))
          (gates-is_passed parses views.gate text refs)
          (unless_refused-Either parses (gates parses views.gate text refs) t _ _
            (after_write-row views.shown (edit text refs) id t row (λ s. refl) e))

-- What an approval comes to, by the row that it finds.
abbrev pub IsApproval :
    (String → Bool) → Views → ℕ → Table → Response × Table → Option Scenario → Type 0
IsApproval parses views id t done none = done ≡ (not_found, t)
IsApproval parses views id t done (some row) =
    Either (passes_in parses views.gate row.gherkin_text row.then_refs)
      (done ≡ (
        detail (approved_row row) (then_results views.shown row.then_refs),
        record t { rows = put id (approved_row row) t.rows },
      ))
      (IsRefused t done)

-- An approval of no row is answered as not found. If the row's own text and annotations pass both gates
-- at that moment, its status becomes approved, the other fields and rows as they were, and it is
-- answered with that row; otherwise the answer is an error and the table is left as it was.
pub approve_scenario-approves :
    (parses : String → Bool) (views : Views) (id : ℕ) (t : Table)
    → IsApproval parses views id t (approve_scenario parses views id t) (get t.rows id)
unfolding approve_scenario approve_found set_status set_valid validate_status
approve_scenario-approves parses views id t = found (get t.rows id) refl
  where
    found :
        (o : Option Scenario)
        → get t.rows id ≡ o
        → IsApproval parses views id t (approve_found parses views id t o) o
    found none e = refl
    found (some row) e =
        subst
          (λ b.
            Either b
              (approve_found parses views id t (some row) ≡ (
                detail (approved_row row) (then_results views.shown row.then_refs),
                record t { rows = put id (approved_row row) t.rows },
              ))
              (IsRefused t (approve_found parses views id t (some row))))
          (gates-is_passed parses views.gate row.gherkin_text row.then_refs)
          (unless_refused-Either parses (gates parses views.gate row.gherkin_text row.then_refs) t _
            _
            (after_write-row views.shown (λ s. record s { status = approved }) id t row (λ s. refl)
              e))
