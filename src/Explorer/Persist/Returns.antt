-- ===== src/Explorer/Persist/Returns.antt =====
-- What `persist_to_neo4j` of apps/api/app/services/explorer/nodes.py returns, and when it raises.
use febal_automation_script.Prelude.{
  String, ℕ, Bool, true, false, ◌||◌, any, if◌then◌else◌, ◌≡◌, refl, ◌∙◌, sym, List, [], ◌∷◌, ◌++◌,
  Option, none, some, arith, All, All-map, All-append, subst, IsIn, here, there, insert,
}
use febal_automation_script.Kg.Writer.{
  NodeRef, Graph, Outcome, raised, returned, Properties, page, form, element, business_entity, Row,
}
use febal_automation_script.Kg.Writer.Client.{
  Call, page_seen, element_seen, element_healed, button_seen, form_seen, workflow_seen, entity_seen,
  navigates_to, has_element, has_button, has_form, submits, creates, updates, deletes, step, apply,
  View, view, Query, upsert, amend, link, syntax_error, query, learn,
}
use febal_automation_script.Kg.Writer.Client.Refines.{view-apply}
use febal_automation_script.Kg.Writer.Client.Freshness.{joined-knows}
use febal_automation_script.Kg.Writer.Client.Errors.{
  is_raised, is_known, is_some, needs, is_accepted, all_known, apply-raises,
}
use febal_automation_script.Kg.Writer.Reads.{same_iff, on_some}
use febal_automation_script.Explorer.Persist.{
  Formats, Seen, Keys, Entity, Edge, creates_edge, updates_edge, deletes_edge, FormError,
  SubmitResult, keys_of, persist_calls, workflow_calls, link_of, entity_calls, form_calls,
  submit_calls, map_verb_to_entity, extract_validation_rules, run_until, persist_to_neo4j,
  Persisted, chain_with,
}

on_some-is_some :
    (f : Properties → Properties) (o : Option Properties) → is_some (on_some f o) ≡ is_some o
on_some-is_some f none = refl
on_some-is_some f (some p) = refl

raised_clash : is_raised raised ≡ false → ⊥
unfolding is_raised
raised_clash h = cc h

learn-knows :
    (q : Query) (v : View) (r : NodeRef)
    → is_some (v.knows r) ≡ true
    → is_some ((learn q v).knows r) ≡ true
unfolding learn
learn-knows (upsert u) v r h = ground arith
learn-knows (amend q sets) v r h = ground (arith, on_some-is_some (λ p. p) (v.knows r))
learn-knows (link e sets) v r h = rw joined-knows h
learn-knows syntax_error v r h = h

-- The node that a query is sure to leave in the graph.
abbrev pub made : Query → List NodeRef
made (upsert u) = u.target ∷ []
made q = []

pub known-knows : (g : Graph) (r : NodeRef) → is_known g r ≡ is_some ((view g).knows r)
unfolding is_known view
known-knows g r = refl

-- No call of the writer removes a node.
pub apply-keeps :
    (c : Call) (g : Graph) (r : NodeRef) → is_known g r ≡ true → is_known (apply c g).0 r ≡ true
apply-keeps c g r h =
    known-knows (apply c g).0 r
    ∙ rw view-apply (learn-knows (query c) (view g) r (sym (known-knows g r) ∙ h))

learn-made : (q : Query) (v : View) → All (λ r. is_some ((learn q v).knows r) ≡ true) (made q)
unfolding learn
learn-made (upsert u) v = (rw ((same_iff u.target u.target).1 refl) refl, tt)
learn-made (amend q sets) v = tt
learn-made (link e sets) v = tt
learn-made syntax_error v = tt

pub apply-made :
    (c : Call) (g : Graph) → All (λ r. is_known (apply c g).0 r ≡ true) (made (query c))
apply-made c g =
    All-map (λ r h. known-knows (apply c g).0 r ∙ rw view-apply h) (made (query c))
      (learn-made (query c) (view g))

-- Every call finds what it needs among the nodes `ks` and those that the calls before it made.
abbrev AreSupported : List NodeRef → List Call → Type 0
AreSupported ks [] = Unit
AreSupported ks (c ∷ cs) =
    (is_accepted c ≡ true) × All (λ r. IsIn r ks) (needs c) × AreSupported (made (query c) ++ ks) cs

IsIn-known :
    (g : Graph) (ks : List NodeRef) (r : NodeRef)
    → All (λ q. is_known g q ≡ true) ks
    → IsIn r ks
    → is_known g r ≡ true
IsIn-known g [] r a m = elim m [ ]
IsIn-known g (k ∷ ks) r a (here e) = subst (λ q. is_known g q ≡ true) e a.0
IsIn-known g (k ∷ ks) r a (there m) = IsIn-known g ks r a.1 m

all_known-of :
    (g : Graph) (ns : List NodeRef) → All (λ r. is_known g r ≡ true) ns → all_known g ns ≡ true
unfolding all_known
all_known-of g [] h = refl
all_known-of g (r ∷ ns) h = rw (h.0, all_known-of g ns h.1) refl

run_until-returns :
    (ks : List NodeRef) (cs : List Call) (g : Graph)
    → All (λ r. is_known g r ≡ true) ks
    → AreSupported ks cs
    → (run_until cs g).1 ≡ true
unfolding run_until
run_until-returns ks [] g a s = refl
run_until-returns ks (c ∷ cs) g a s =
    go (apply c g).1
      (apply-raises c g
        ∙ rw (s.0, all_known-of g (needs c) (All-map (λ r m. IsIn-known g ks r a m) (needs c) s.1))
            refl)
      (run_until-returns (made (query c) ++ ks) cs (apply c g).0
        (All-append _ (made (query c)) ks (apply-made c g)
          (All-map (λ r h. apply-keeps c g r h) ks a))
        s.2)
  where
    go :
        (o : Outcome)
        → is_raised o ≡ false
        → (run_until cs (apply c g).0).1 ≡ true
        → (elim o as (λ _. Graph × Bool) [
          | raised ↦ ((apply c g).0, false)
          | returned row ↦ run_until cs (apply c g).0
        ]).1
          ≡ true
    go raised h k = absurd (raised_clash h)
    go (returned row) h k = k

link_of-AreSupported :
    (ks : List NodeRef) (e : Edge) (form_key name run_id : String)
    → IsIn (form form_key) ks
    → IsIn (business_entity name) ks
    → AreSupported ks (link_of e form_key name run_id ∷ [])
unfolding link_of needs query is_accepted
link_of-AreSupported ks creates_edge form_key name run_id m n = (refl, (m, (n, tt)), tt)
link_of-AreSupported ks updates_edge form_key name run_id m n = (refl, (m, (n, tt)), tt)
link_of-AreSupported ks deletes_edge form_key name run_id m n = (refl, (m, (n, tt)), tt)

entity_calls-AreSupported :
    (ks : List NodeRef) (s : Seen) (form_key : String) (o : Option Entity)
    → IsIn (form form_key) ks
    → AreSupported ks (entity_calls s form_key o)
unfolding entity_calls needs query is_accepted
entity_calls-AreSupported ks s form_key none m = tt
entity_calls-AreSupported ks s form_key (some e) m = (
  refl,
  tt,
  link_of-AreSupported (business_entity e.name ∷ ks) e.edge form_key e.name s.run_id (there m)
      (here refl),
)

form_calls-AreSupported :
    (ks : List NodeRef) (f : Formats) (s : Seen) (k : Keys) (form_id : String)
    (rules : List FormError)
    → IsIn (page k.a_key) ks
    → AreSupported ks (form_calls f s k form_id rules)
unfolding form_calls needs query is_accepted
form_calls-AreSupported ks f s k form_id [] m = tt
form_calls-AreSupported ks f s k form_id (r ∷ rules) m = (
  refl,
  tt,
  (
    refl,
    (there m, (here refl, tt)),
    (
      refl,
      (there m, (here refl, tt)),
      entity_calls-AreSupported _ s _ (map_verb_to_entity k.el.label) (here refl),
    ),
  ),
)

submit_calls-AreSupported :
    (ks : List NodeRef) (f : Formats) (s : Seen) (k : Keys) (o : Option SubmitResult)
    → IsIn (page k.a_key) ks
    → AreSupported ks (submit_calls f s k o)
unfolding submit_calls
submit_calls-AreSupported ks f s k none m = tt
submit_calls-AreSupported ks f s k (some r) m =
    form_calls-AreSupported ks f s k r.form_id (extract_validation_rules r.errors) m

-- The calls of a step without a flag.
unflagged-AreSupported :
    (f : Formats) (s : Seen) (k : Keys)
    → s.workflow_flag ≡ none
    → AreSupported [] (persist_calls f s k)
unfolding persist_calls workflow_calls needs query is_accepted
unflagged-AreSupported f s k e = supported (
    subst
      (λ o.
        AreSupported (element k.el_key ∷ page k.b_key ∷ page k.a_key ∷ [])
          (workflow_calls s k.a_key o ++ submit_calls f s k s.validation_submit_result))
      (sym e)
      (submit_calls-AreSupported _ f s k s.validation_submit_result (there (there (here refl)))))
  where
    supported :
        AreSupported (element k.el_key ∷ page k.b_key ∷ page k.a_key ∷ []) (
          workflow_calls s k.a_key s.workflow_flag ++ submit_calls f s k s.validation_submit_result)
        → AreSupported [] (persist_calls f s k)
    supported rest = (
      refl,
      tt,
      (
        refl,
        tt,
        (
          refl,
          (there (here refl), (here refl, tt)),
          (refl, tt, (refl, (there (there (here refl)), (here refl, tt)), rest)),
        ),
      ),
    )

abbrev is_step : Call → Bool
is_step (step flow order p run) = true
is_step c = false

step-raises : (c : Call) (g : Graph) → is_step c ≡ true → is_raised (apply c g).1 ≡ true
unfolding apply is_raised
step-raises (step flow order p run) g h = refl
step-raises (page_seen fp url title run shot now) g h = absurd cc
step-raises (element_seen k role label chain history run now) g h = absurd cc
step-raises (element_healed k history chain now) g h = absurd cc
step-raises (button_seen k label role fp run now) g h = absurd cc
step-raises (form_seen k rules run now) g h = absurd cc
step-raises (workflow_seen name run now) g h = absurd cc
step-raises (entity_seen name kind now) g h = absurd cc
step-raises (navigates_to a b via run) g h = absurd cc
step-raises (has_element p k run) g h = absurd cc
step-raises (has_button p k run) g h = absurd cc
step-raises (has_form p k run) g h = absurd cc
step-raises (submits p k run) g h = absurd cc
step-raises (creates k name run) g h = absurd cc
step-raises (updates k name run) g h = absurd cc
step-raises (deletes k name run) g h = absurd cc

-- A step anywhere among the calls ends them.
run_until-raises : (cs : List Call) (g : Graph) → any is_step cs ≡ true → (run_until cs g).1 ≡ false
unfolding run_until is_raised
run_until-raises [] g h = absurd cc
run_until-raises (c ∷ cs) g h =
    go (apply c g).1 (step-raises c g) (run_until-raises cs (apply c g).0)
  where
    clash : (row : Row) → is_raised (returned row) ≡ true → ⊥
    clash row e = cc e

    later : (a b : Bool) → (a || b) ≡ true → (a ≡ true → ⊥) → b ≡ true
    later true b p q = absurd (q refl)
    later false b p q = p

    go :
        (o : Outcome)
        → (is_step c ≡ true → is_raised o ≡ true)
        → (any is_step cs ≡ true → (run_until cs (apply c g).0).1 ≡ false)
        → (elim o as (λ _. Graph × Bool) [
          | raised ↦ ((apply c g).0, false)
          | returned row ↦ run_until cs (apply c g).0
        ]).1
          ≡ false
    go raised k again = refl
    go (returned row) k again = again (later (is_step c) (any is_step cs) h (λ e. clash row (k e)))

flagged-any :
    (f : Formats) (s : Seen) (k : Keys) (flag : String × ℕ)
    → s.workflow_flag ≡ some flag
    → any is_step (persist_calls f s k) ≡ true
unfolding persist_calls workflow_calls
flagged-any f s k (flow, n) e = rw e refl

-- What the node returns: the keys of the page it left and of the page it aimed at, the history of the
-- element and the chain of workflow steps; nothing after an error.
abbrev pub expected : Formats → Seen → Option (String × ℕ) → Option Persisted
expected f s none = some record {
  last_from_key = (keys_of f s).a_key;
  last_to_key = (keys_of f s).b_key;
  element_history = insert (keys_of f s).el_key (keys_of f s).merged s.element_history;
  workflow_chain = s.workflow_chain;
}
expected f s (some flag) = none

-- Whatever the crawl saw and whatever the graph holds: without a workflow flag no call that the node
-- makes of the writer raises, and it returns the keys of the page that it left and of the page that
-- it aimed at, with the history of the element and the chain of steps as it was; with a flag it
-- raises.
pub persist_to_neo4j-returns :
    (f : Formats) (s : Seen) (g : Graph) → (persist_to_neo4j f s g).1 ≡ expected f s s.workflow_flag
unfolding persist_to_neo4j chain_with
persist_to_neo4j-returns f s g = by_flag s.workflow_flag refl
  where
    by_flag :
        (o : Option (String × ℕ))
        → s.workflow_flag ≡ o
        → (if (run_until (persist_calls f s (keys_of f s)) g).1
            then some record {
              last_from_key = (keys_of f s).a_key;
              last_to_key = (keys_of f s).b_key;
              element_history = insert (keys_of f s).el_key (keys_of f s).merged s.element_history;
              workflow_chain = chain_with s (keys_of f s).a_key o;
            }
            else none)
          ≡ expected f s o
    by_flag none e =
        rw
          (run_until-returns [] (persist_calls f s (keys_of f s)) g tt
            (unflagged-AreSupported f s (keys_of f s) e))
          refl
    by_flag (some flag) e =
        rw
          (run_until-raises (persist_calls f s (keys_of f s)) g
            (flagged-any f s (keys_of f s) flag e))
          refl
