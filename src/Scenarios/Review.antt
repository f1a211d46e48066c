-- ===== src/Scenarios/Review.antt =====
-- Codegen reads only what a reviewer has approved as it stands.
use febal_automation_script.Prelude.{
  ℕ, String, ◌≡◌, refl, subst, sym, true, ◌&&◌, and-true, Bool-cases, inl, inr, ◌⊎◌, Option, none,
  some, List, [], ◌∷◌, All, All-append, All-map, All-filter, here, there, IsIn, IsIn-filter, str_eq,
  eq_iff, ◌==◌, arith,
}
use febal_automation_script.Scenarios.{
  Status, draft, approved, rejected, Scenario, Table, validate_status, NewScenario, new_row,
  create_scenario, get, change, write, set_valid, set_status, edit, update_gherkin, is_approved,
  list_approved,
}
use febal_automation_script.Gates.{ThenRef}

-- The operations that write.
pub data Op : Type 0 where
  create : NewScenario → Op
  set : ℕ → String → Op
  update : ℕ → String → List ThenRef → Op

abbrev pub apply : Op → Table → Table
apply (create n) t = create_scenario n t
apply (set id status) t = (set_status id status t).1
apply (update id gherkin_text then_refs) t = (update_gherkin id gherkin_text then_refs t).1

change-rows :
    (f : Scenario → Scenario) (id : ℕ) (rows : List Scenario)
    → All
        (λ s. IsIn s rows ⊎ ((r : Scenario) × (s ≡ f r) × ((r.id == id) ≡ true)))
        (change f id rows)
unfolding change
change-rows f id [] = tt
change-rows f id (s ∷ rows) = elim (Bool-cases (s.id == id)) [
  | inl e ↦ rw e (inr (s, refl, e), old rows (λ r m. there m))
  | inr e ↦ rw e (
    inl (here refl),
    All-map (λ r h. elim h [ inl m ↦ inl (there m) | inr q ↦ inr q ]) (change f id rows)
        (change-rows f id rows),
  )
]
  where
    old :
        (l : List Scenario)
        → ((r : Scenario) → IsIn r l → IsIn r (s ∷ rows))
        → All (λ r. IsIn r (s ∷ rows) ⊎ ((q : Scenario) × (r ≡ f q) × ((q.id == id) ≡ true))) l
    old [] h = tt
    old (r ∷ l) h = (inl (h r (here refl)), old l (λ q m. h q (there m)))

pub of_All : {A : Type 0} (P : A → Type 0) (xs : List A) → All P xs → (a : A) → IsIn a xs → P a
of_All P [] h a i = elim i [ ]
of_All P (x ∷ xs) h a (here e) = subst P e h.0
of_All P (x ∷ xs) h a (there i) = of_All P xs h.1 a i

-- The scenario was approved before, with the same text, or the operation has just approved it.
abbrev pub IsReviewed : String → Table → Op → Scenario → Type 0
IsReviewed run_id t op s = IsIn s (list_approved run_id t) ⊎ (op ≡ set s.id "approved")

-- What is in the table and approved for the run after a change of its rows.
approved-rows :
    (run_id : String) (t t' : Table) (op : Op)
    → All (λ s. IsIn s t.rows ⊎ (is_approved s.status ≡ true → op ≡ set s.id "approved")) t'.rows
    → All (IsReviewed run_id t op) (list_approved run_id t')
unfolding list_approved
approved-rows run_id t t' op h =
    All-map
      (λ s m.
        let (a, b) = and-true (str_eq s.run_id run_id) (is_approved s.status) m.1 in
        elim (of_All _ t'.rows h s m.0) [
          | inl i ↦
              inl (IsIn-filter (λ r. str_eq r.run_id run_id && is_approved r.status) s t.rows i m.1)
          | inr k ↦ inr (k b)
        ])
      _ (All-filter (λ s. str_eq s.run_id run_id && is_approved s.status) t'.rows)

abbrev Warrant : Table → Op → Scenario → Type 0
Warrant t op s = IsIn s t.rows ⊎ (is_approved s.status ≡ true → op ≡ set s.id "approved")

All-IsIn : (xs : List Scenario) → All (λ s. IsIn s xs) xs
All-IsIn [] = tt
All-IsIn (x ∷ xs) = (here refl, All-map (λ y m. there m) xs (All-IsIn xs))

unchanged : (t : Table) (op : Op) → All (Warrant t op) t.rows
unchanged t op = All-map (λ s m. inl m) t.rows (All-IsIn t.rows)

-- What a change of one row leaves, if the changed row is warranted.
write-Warrant :
    (f : Scenario → Scenario) (id : ℕ) (t : Table) (op : Op) (found : Option Scenario)
    → ((r : Scenario)
        → (r.id == id) ≡ true
        → is_approved (f r).status ≡ true
        → op ≡ set (f r).id "approved")
    → All (Warrant t op) (write f id t found).1.rows
unfolding write
write-Warrant f id t op none k = unchanged t op
write-Warrant f id t op (some s) k =
    All-map
      (λ r h. elim h [ inl m ↦ inl m | inr (q, e, i) ↦ inr (λ a. rw e (k q i (rw (sym e) a))) ])
      (change f id t.rows) (change-rows f id t.rows)

-- A status that is read as approved is the text "approved".
abbrev IsRead : String → Option Status → Type 0
IsRead status (some approved) = status ≡ "approved"
IsRead status _ = Unit

validate_status-IsRead : (status : String) → IsRead status (validate_status status)
unfolding validate_status
validate_status-IsRead status = elim (Bool-cases (str_eq status "draft")) [
  | inl e ↦ rw e tt
  | inr e ↦ rw e (elim (Bool-cases (str_eq status "approved")) [
    | inl a ↦ rw a ((eq_iff status "approved").0 a)
    | inr a ↦
        rw a (elim (Bool-cases (str_eq status "rejected")) [ inl r ↦ rw r tt | inr r ↦ rw r tt ])
  ])
]

set-Warrant :
    (id : ℕ) (status : String) (t : Table) (o : Option Status)
    → IsRead status o
    → All (Warrant t (set id status)) (set_valid id t o).1.rows
unfolding set_valid
set-Warrant id status t none h = unchanged t (set id status)
set-Warrant id status t (some draft) h =
    write-Warrant (λ s. record s { status = draft }) id t (set id status) (get t.rows id)
      (λ r i a. absurd cc)
set-Warrant id status t (some rejected) h =
    write-Warrant (λ s. record s { status = rejected }) id t (set id status) (get t.rows id)
      (λ r i a. absurd cc)
set-Warrant id status t (some approved) h =
    write-Warrant (λ s. record s { status = approved }) id t (set id status) (get t.rows id)
      (λ r i a. let e : r.id ≡ id = ground (arith, i) in rw (h, e) refl)

apply-Warrant : (t : Table) (op : Op) → All (Warrant t op) (apply op t).rows
unfolding create_scenario new_row set_status update_gherkin edit
apply-Warrant t (create n) =
    All-append (Warrant t (create n)) t.rows (new_row n t.next_id ∷ []) (unchanged t (create n))
      (inr (λ a. absurd cc), tt)
apply-Warrant t (set id status) =
    set-Warrant id status t (validate_status status) (validate_status-IsRead status)
apply-Warrant t (update id gherkin_text then_refs) =
    write-Warrant (edit gherkin_text then_refs) id t (update id gherkin_text then_refs)
      (get t.rows id) (λ r i a. absurd cc)

-- Whatever is done to the table, each scenario that codegen reads for a run is one that it read before,
-- text included, or one that the operation has just approved.
pub apply-IsReviewed :
    (run_id : String) (t : Table) (op : Op)
    → All (IsReviewed run_id t op) (list_approved run_id (apply op t))
apply-IsReviewed run_id t op = approved-rows run_id t (apply op t) op (apply-Warrant t op)
