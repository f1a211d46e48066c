-- ===== src/Scenarios/Routes/Shown.antt =====
-- What `_then_results` of apps/api/app/routers/scenarios.py shows of the annotations of a row.
use febal_automation_script.Prelude.{
  String, str_eq, Bool, true, false, not, ◌&&◌, ◌||◌, ◌≡◌, refl, ◌∙◌, ap, subst, List, [], ◌∷◌, map,
  filter, Option, none, some, any, contains, arith, if◌then◌else◌, eq_refl, ◌++◌, append_assoc,
  contains-append,
}
use febal_automation_script.Kg.Writer.{Graph}
use febal_automation_script.Gates.{
  ThenRef, Query, query_of, answers, Resolved, resolve_entry, resolve_then_refs,
}
use febal_automation_script.Gates.Backed.{is_backed, all_backed, answered, answered-query_of}
use febal_automation_script.Scenarios.Routes.{
  ThenRefResult, View, is_asked, all_texts, resolve_in, result_of, then_results,
}

-- The annotations with this text.
abbrev pub with_text : String → List ThenRef → List ThenRef
with_text text = filter (λ e. str_eq e.then_text text)

-- Does the graph, if it can be reached, back every annotation?
abbrev pub backed_in : View → List ThenRef → Bool
backed_in none refs = false
backed_in (some g) refs = all_backed g refs

resolve_entry-contains :
    (g : Graph) (e : ThenRef) (o : Option Query) (r : Resolved) (text : String)
    → contains (resolve_entry g e o r).unresolved text
      ≡ ((str_eq e.then_text text && not (answered g o)) || contains r.unresolved text)
unfolding resolve_entry answered
resolve_entry-contains g e none r text = ground arith
resolve_entry-contains g e (some q) r text = by_answer (answers q g)
  where
    by_answer :
        (b : Bool)
        → contains (if b then r.unresolved else e.then_text ∷ r.unresolved) text
          ≡ ((str_eq e.then_text text && not b) || contains r.unresolved text)
    by_answer true = ground arith
    by_answer false = ground arith

-- A text is reported exactly when some annotation with this text is not backed.
resolved-contains :
    (g : Graph) (text : String) (refs : List ThenRef)
    → contains (resolve_then_refs g refs).unresolved text ≡ not (all_backed g (with_text text refs))
unfolding resolve_then_refs
resolved-contains g text [] = refl
resolved-contains g text (e ∷ refs) =
    resolve_entry-contains g e (query_of e e.kind) (resolve_then_refs g refs) text
    ∙ rw (answered-query_of g e e.kind, resolved-contains g text refs)
        (by_text (str_eq e.then_text text))
  where
    by_text :
        (b : Bool)
        → ((b && not (is_backed g e e.kind)) || not (all_backed g (with_text text refs)))
          ≡ not (
              all_backed g
                (elim b [ true ↦ e ∷ with_text text refs | false ↦ with_text text refs ]))
    by_text true = ground arith
    by_text false = refl

result_of-resolved :
    (unresolved : List String) (e : ThenRef)
    → (result_of (some unresolved) e).resolved ≡ not (contains unresolved e.then_text)
unfolding result_of
result_of-resolved unresolved e = ground arith

resolved-some :
    (g : Graph) (all refs : List ThenRef)
    → map
        (λ (r : ThenRefResult). r.resolved)
        (map (result_of (some (resolve_then_refs g all).unresolved)) refs)
      ≡ map (λ (e : ThenRef). all_backed g (with_text e.then_text all)) refs
resolved-some g all [] = refl
resolved-some g all (e ∷ refs) =
    rw
      (
        result_of-resolved (resolve_then_refs g all).unresolved e,
        resolved-contains g e.then_text all,
        resolved-some g all refs,
      )
      (ap (λ b. b ∷ map (λ (e : ThenRef). all_backed g (with_text e.then_text all)) refs)
        (twice (all_backed g (with_text e.then_text all))))
  where
    twice : (b : Bool) → not (not b) ≡ b
    twice b = ground arith

-- Without a graph no annotation is confirmed.
none_resolved :
    (o : Option (List String)) (refs : List ThenRef)
    → ((e : ThenRef) → (result_of o e).resolved ≡ false)
    → map (λ (r : ThenRefResult). r.resolved) (map (result_of o) refs) ≡ map (λ e. false) refs
none_resolved o [] h = refl
none_resolved o (e ∷ refs) h = rw (h e, none_resolved o refs h) refl

all_unresolved :
    (texts : List String) (refs : List ThenRef)
    → map
        (λ (r : ThenRefResult). r.resolved)
        (map (result_of (some (texts ++ all_texts refs))) refs)
      ≡ map (λ e. false) refs
all_unresolved texts [] = refl
all_unresolved texts (e ∷ refs) =
    rw
      (
        result_of-resolved (texts ++ all_texts (e ∷ refs)) e,
        contains-append texts (all_texts (e ∷ refs)) e.then_text,
        eq_refl e.then_text,
      )
      (ap2_cons (or_true (contains texts e.then_text)) (
        subst
          (λ l.
            map (λ (r : ThenRefResult). r.resolved) (map (result_of (some l)) refs)
            ≡ map (λ e. false) refs)
          (append_assoc texts (e.then_text ∷ []) (all_texts refs))
          (all_unresolved (texts ++ e.then_text ∷ []) refs)))
  where
    or_true : (b : Bool) → not (b || true) ≡ false
    or_true b = ground arith

    ap2_cons : {a b : Bool} {l m : List Bool} → a ≡ b → l ≡ m → ◌≡◌ {A = List Bool} (a ∷ l) (b ∷ m)
    ap2_cons e f = cc

-- Each annotation is shown as resolved exactly when the graph can be reached and backs every annotation
-- with the same text.
pub then_results-resolved :
    (view : View) (refs : List ThenRef)
    → map (λ (r : ThenRefResult). r.resolved) (then_results view refs)
      ≡ map (λ (e : ThenRef). backed_in view (with_text e.then_text refs)) refs
unfolding then_results resolve_in
then_results-resolved (some g) refs = resolved-some g refs refs
then_results-resolved none refs = by_asked (any (λ (e : ThenRef). is_asked e.kind e) refs)
  where
    by_asked :
        (b : Bool)
        → map
            (λ (r : ThenRefResult). r.resolved)
            (map (result_of (if b then none else some (all_texts refs))) refs)
          ≡ map (λ (e : ThenRef). false) refs
    by_asked true = none_resolved none refs (λ e. unfold result_of in refl)
    by_asked false = all_unresolved [] refs
