-- ===== src/Kg/Writer/Client/Freshness.antt =====
-- `first_seen` and `last_verified` under the calls of apps/api/app/services/kg/writer.py.
use febal_automation_script.Prelude.{
  String, Bool, false, ◌≡◌, refl, ◌∙◌, ap, List, [], ◌∷◌, Option, none, some, arith, str_eq,
  if◌then◌else◌, lookup, lookup-insert, insert, Bool-cases, inl, inr, any, WhenSome, subst, sym,
}
use febal_automation_script.Kg.Writer.{
  NodeRef, page, element, button, form, workflow, business_entity, Graph, Properties, Assignment,
  Upsert, EdgeRef, same, created, matched, assign, assign_all, coalesce_verified,
}
use febal_automation_script.Kg.Writer.Reads.{merged, on_some, same_iff, lookup-assign}
use febal_automation_script.Kg.Writer.Client.{
  View, view, Query, upsert, amend, link, syntax_error, learn, joined, Call, query, run_calls,
  replay, apply, page_seen, element_seen, element_healed, button_seen, form_seen, workflow_seen,
  entity_seen, navigates_to, has_element, has_button, has_form, submits, creates, updates, deletes,
  step,
}
use febal_automation_script.Kg.Writer.Client.Refines.{run_calls-refines, view-apply}

-- Does a SET clause name the property?
abbrev names : String → List Assignment → Bool
names k l = any (λ a. str_eq a.0 k) l

lookup-assign_all :
    (k : String) (l : List Assignment) (d : Properties)
    → names k l ≡ false
    → lookup k (assign_all l d) ≡ lookup k d
unfolding assign_all
lookup-assign_all k [] d h = refl
lookup-assign_all k ((j, v) ∷ l) d h =
    ground (arith, lookup-assign_all k l (assign (j, v) d), lookup-assign j k v d)

lookup-coalesce_verified :
    (k now : String) (d : Properties)
    → str_eq "last_verified" k ≡ false
    → lookup k (coalesce_verified now d) ≡ lookup k d
unfolding coalesce_verified
lookup-coalesce_verified k now d h = set (lookup "last_verified" d)
  where
    set :
        (o : Option String)
        → lookup k
            (elim o [ none ↦ insert "last_verified" now d | some v ↦ insert "last_verified" v d ])
          ≡ lookup k d
    set none = rw lookup-insert (rw h)
    set (some v) = rw lookup-insert (rw h)

-- Under an UPSERT whose SET clauses leave both dates alone.
module _ (u : Upsert) where
  matched-first_seen :
      (d : Properties)
      → names "first_seen" u.always ≡ false
      → lookup "first_seen" (matched u d) ≡ lookup "first_seen" d
  unfolding matched
  matched-first_seen d h =
      lookup-assign_all _ u.always _ h
      ∙ lookup-coalesce_verified "first_seen" u.now (insert "last_verified" u.now d) refl
      ∙ lookup-insert "last_verified" "first_seen" u.now d

  created-first_seen :
      names "first_seen" u.on_create ≡ false
      → names "first_seen" u.always ≡ false
      → lookup "first_seen" (created u []) ≡ some u.now
  unfolding created
  created-first_seen k h =
      lookup-assign_all _ u.always _ h
      ∙ lookup-coalesce_verified "first_seen" u.now
          (assign_all u.on_create (insert "first_seen" u.now [])) refl
      ∙ lookup-assign_all _ u.on_create (insert "first_seen" u.now []) k
      ∙ lookup-insert "first_seen" "first_seen" u.now []

lookup-coalesced :
    (now : String) (d : Properties)
    → lookup "last_verified" (coalesce_verified now d)
      ≡ (elim (lookup "last_verified" d) [ none ↦ some now | some v ↦ some v ])
unfolding coalesce_verified
lookup-coalesced now d = set (lookup "last_verified" d)
  where
    set :
        (o : Option String)
        → lookup "last_verified"
            (elim o [ none ↦ insert "last_verified" now d | some v ↦ insert "last_verified" v d ])
          ≡ (elim o [ none ↦ some now | some v ↦ some v ])
    set none = lookup-insert "last_verified" "last_verified" now d
    set (some v) = lookup-insert "last_verified" "last_verified" v d

module _ (u : Upsert) where
  matched-last_verified :
      (d : Properties)
      → names "last_verified" u.always ≡ false
      → lookup "last_verified" (matched u d) ≡ some u.now
  unfolding matched
  matched-last_verified d h =
      lookup-assign_all _ u.always _ h
      ∙ lookup-coalesced u.now (insert "last_verified" u.now d)
      ∙ ap (λ (o : Option String). elim o [ none ↦ some u.now | some v ↦ some v ])
          (lookup-insert "last_verified" "last_verified" u.now d)

  created-last_verified :
      names "last_verified" u.on_create ≡ false
      → names "last_verified" u.always ≡ false
      → lookup "last_verified" (created u []) ≡ some u.now
  unfolding created
  created-last_verified k h =
      lookup-assign_all _ u.always _ h
      ∙ lookup-coalesced u.now (assign_all u.on_create (insert "first_seen" u.now []))
      ∙ ap (λ (o : Option String). elim o [ none ↦ some u.now | some v ↦ some v ])
          (lookup-assign_all _ u.on_create _ k
            ∙ lookup-insert "first_seen" "last_verified" u.now [])

-- A property of a node that may not be there.
unfoldable pub read : String → Option Properties → Option String
unfolding lookup
read k none = none
read k (some p) = lookup k p

abbrev Spares : String → Query → Type 0
Spares k (upsert u) = (names k u.on_create ≡ false) × (names k u.always ≡ false)
Spares k (amend r sets) = names k sets ≡ false
Spares k (link e sets) = Unit
Spares k syntax_error = Unit

query-Spares : (c : Call) → Spares "first_seen" (query c)
unfolding query
query-Spares (page_seen fp url title run shot now) = (refl, refl)
query-Spares (element_seen k role label chain history run now) = (refl, refl)
query-Spares (element_healed k history chain now) = refl
query-Spares (button_seen k label role fp run now) = (refl, refl)
query-Spares (form_seen k rules run now) = (refl, refl)
query-Spares (workflow_seen name run now) = (refl, refl)
query-Spares (entity_seen name kind now) = (refl, refl)
query-Spares (navigates_to a b via run) = tt
query-Spares (has_element p k run) = tt
query-Spares (has_button p k run) = tt
query-Spares (has_form p k run) = tt
query-Spares (submits p k run) = tt
query-Spares (creates k name run) = tt
query-Spares (updates k name run) = tt
query-Spares (deletes k name run) = tt
query-Spares (step flow order p run) = tt

-- A node keeps its date when the same node is merged again.
merged-first_seen :
    (u : Upsert) (o : Option Properties) (t : String)
    → names "first_seen" u.always ≡ false
    → read "first_seen" o ≡ some t
    → lookup "first_seen" (merged (created u) (matched u) o) ≡ some t
unfolding read
merged-first_seen u none t k h = absurd cc
merged-first_seen u (some p) t k h = matched-first_seen u p k ∙ h

on_some-first_seen :
    (sets : List Assignment) (o : Option Properties) (t : String)
    → names "first_seen" sets ≡ false
    → read "first_seen" o ≡ some t
    → read "first_seen" (on_some (assign_all sets) o) ≡ some t
unfolding read
on_some-first_seen sets none t k h = absurd cc
on_some-first_seen sets (some p) t k h = lookup-assign_all _ sets p k ∙ h

pub joined-knows :
    (e : EdgeRef) (sets : List Assignment) (v : View) (p q : Option Properties)
    → (joined e sets v p q).knows ≡ v.knows
unfolding joined
joined-knows e sets v (some p) (some q) = refl
joined-knows e sets v none q = refl
joined-knows e sets v (some p) none = refl

-- What a MERGE or SET on one node `q` does to what is read of a node `r`.
read-update :
    (q r : NodeRef) (f : Option Properties) (v : NodeRef → Option Properties) (t : String)
    → (read "first_seen" (v q) ≡ some t → read "first_seen" f ≡ some t)
    → read "first_seen" (v r) ≡ some t
    → read "first_seen" (if same q r then f else v r) ≡ some t
read-update q r f v t k h = elim (Bool-cases (same q r)) [
  | inl e ↦ rw e (k (subst (λ x. read "first_seen" (v x) ≡ some t) (sym ((same_iff q r).0 e)) h))
  | inr e ↦ rw e h
]

learn-first_seen :
    (q : Query) (v : View) (r : NodeRef) (t : String)
    → Spares "first_seen" q
    → read "first_seen" (v.knows r) ≡ some t
    → read "first_seen" ((learn q v).knows r) ≡ some t
unfolding learn read
learn-first_seen (upsert u) v r t s h =
    read-update u.target r _ v.knows t (λ k. merged-first_seen u (v.knows u.target) t s.1 k) h
learn-first_seen (amend q sets) v r t s h = elim (Bool-cases (same q r)) [
  | inl e ↦ rw e (on_some-first_seen sets (v.knows r) t s h)
  | inr e ↦ rw e h
]
learn-first_seen (link e sets) v r t s h = rw joined-knows h
learn-first_seen syntax_error v r t s h = h

replay-first_seen :
    (cs : List Call) (v : View) (r : NodeRef) (t : String)
    → read "first_seen" (v.knows r) ≡ some t
    → read "first_seen" ((replay cs v).knows r) ≡ some t
unfolding replay
replay-first_seen [] v r t h = h
replay-first_seen (c ∷ cs) v r t h =
    replay-first_seen cs (learn (query c) v) r t
      (learn-first_seen (query c) v r t (query-Spares c) h)

-- The date at which a node was first seen is never changed, whatever calls of the writer follow.
pub run_calls-first_seen :
    (cs : List Call) (g : Graph) (r : NodeRef) (t : String)
    → read "first_seen" ((view g).knows r) ≡ some t
    → read "first_seen" ((view (run_calls cs g)).knows r) ≡ some t
run_calls-first_seen cs g r t h = rw run_calls-refines (replay-first_seen cs (view g) r t h)

-- The node that an upsert is about, and its `now`.
unfoldable pub stamped : Call → Option (NodeRef × String)
stamped (page_seen fp url title run shot now) = some (page fp, now)
stamped (element_seen k role label chain history run now) = some (element k, now)
stamped (button_seen k label role fp run now) = some (button k, now)
stamped (form_seen k rules run now) = some (form k, now)
stamped (workflow_seen name run now) = some (workflow name run, now)
stamped (entity_seen name kind now) = some (business_entity name, now)
stamped c = none

-- The date that a node should carry: the one it had, or now if it is new.
abbrev pub first_date : Option Properties → String → Option String
unfolding lookup
first_date none now = some now
first_date (some p) now = lookup "first_seen" p

abbrev pub IsFresh : Option Properties → Option Properties → String → Type 0
IsFresh before after now =
    (read "last_verified" after ≡ some now) × (read "first_seen" after ≡ first_date before now)

merged-IsFresh :
    (u : Upsert) (o : Option Properties)
    → Spares "first_seen" (upsert u)
    → Spares "last_verified" (upsert u)
    → IsFresh o (some (merged (created u) (matched u) o)) u.now
unfolding read
merged-IsFresh u none s k = (created-last_verified u k.0 k.1, created-first_seen u s.0 s.1)
merged-IsFresh u (some p) s k = (matched-last_verified u p k.1, matched-first_seen u p s.1)

learn-IsFresh :
    (u : Upsert) (v : View)
    → Spares "first_seen" (upsert u)
    → Spares "last_verified" (upsert u)
    → IsFresh (v.knows u.target) ((learn (upsert u) v).knows u.target) u.now
unfolding learn
learn-IsFresh u v s k =
    rw ((same_iff u.target u.target).1 refl) (merged-IsFresh u (v.knows u.target) s k)

-- After any of the six upserts the node was last verified now, and was first seen when it was
-- before, or now if it is new.
pub apply-IsFresh :
    (c : Call) (g : Graph)
    → WhenSome (λ s. IsFresh ((view g).knows s.0) ((view (apply c g).0).knows s.0) s.1) (stamped c)
unfolding stamped
apply-IsFresh (page_seen fp url title run shot now) g =
    rw view-apply (unfold query in learn-IsFresh _ (view g) (refl, refl) (refl, refl))
apply-IsFresh (element_seen k role label chain history run now) g =
    rw view-apply (unfold query in learn-IsFresh _ (view g) (refl, refl) (refl, refl))
apply-IsFresh (button_seen k label role fp run now) g =
    rw view-apply (unfold query in learn-IsFresh _ (view g) (refl, refl) (refl, refl))
apply-IsFresh (form_seen k rules run now) g =
    rw view-apply (unfold query in learn-IsFresh _ (view g) (refl, refl) (refl, refl))
apply-IsFresh (workflow_seen name run now) g =
    rw view-apply (unfold query in learn-IsFresh _ (view g) (refl, refl) (refl, refl))
apply-IsFresh (entity_seen name kind now) g =
    rw view-apply (unfold query in learn-IsFresh _ (view g) (refl, refl) (refl, refl))
apply-IsFresh (element_healed k history chain now) g = tt
apply-IsFresh (navigates_to a b via run) g = tt
apply-IsFresh (has_element p k run) g = tt
apply-IsFresh (has_button p k run) g = tt
apply-IsFresh (has_form p k run) g = tt
apply-IsFresh (submits p k run) g = tt
apply-IsFresh (creates p k run) g = tt
apply-IsFresh (updates p k run) g = tt
apply-IsFresh (deletes p k run) g = tt
apply-IsFresh (step flow order p run) g = tt
