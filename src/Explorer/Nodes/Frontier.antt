-- ===== src/Explorer/Nodes/Frontier.antt =====
-- The frontier loses nothing and holds nothing twice, and the model's choice is a menu entry.
use febal_automation_script.Prelude.{
  ℕ, suc, zero, ◌<◌, String, ◌≡◌, ◌≢◌, refl, ap, true, ◌||◌, Option, some, List, [], ◌∷◌, ◌++◌,
  arith, All, All-map, Bool-cases, or-true, inl, inr, contains, contains-append, contains-snoc,
  IsUnique, IsUnique-snoc, eq_refl, eq_iff, length, get_elem?, if◌then◌else◌, str_eq,
}
use febal_automation_script.Prelude.Texts.{Text}
use febal_automation_script.Explorer.Converge.{FrontierEntry}
use febal_automation_script.Explorer.Actions.{Urls, page_key, Element, MenuEntry, enumerate_actions}
use febal_automation_script.Explorer.Nodes.{
  Crawl, answered, parse_index, decide, decide_from, add_key, navigate, push, enumerate_node,
  keys_of,
}

keys_of-append : (fs gs : List FrontierEntry) → keys_of (fs ++ gs) ≡ keys_of fs ++ keys_of gs
keys_of-append [] gs = refl
keys_of-append (f ∷ fs) gs = ap (λ l. f.key ∷ l) (keys_of-append fs gs)

-- A key that is known stays known.
contains-push :
    (visited : List String) (fs cs : List FrontierEntry) (k : String)
    → contains (keys_of fs) k ≡ true
    → contains (keys_of (push visited fs cs)) k ≡ true
unfolding push
contains-push visited fs [] k h = h
contains-push visited fs (c ∷ cs) k h =
    elim (Bool-cases (contains visited c.key || contains (keys_of fs) c.key)) [
      | inl e ↦ rw e (contains-push visited fs cs k h)
      | inr e ↦ rw e (
          contains-push visited (fs ++ c ∷ []) cs k
            (rw (keys_of-append, contains-append (keys_of fs) (c.key ∷ []) k, h) refl))
    ]

IsUnique-push :
    (visited : List String) (fs cs : List FrontierEntry)
    → IsUnique (keys_of fs)
    → IsUnique (keys_of (push visited fs cs))
unfolding push
IsUnique-push visited fs [] u = u
IsUnique-push visited fs (c ∷ cs) u =
    elim (Bool-cases (contains visited c.key || contains (keys_of fs) c.key)) [
      | inl e ↦ rw e (IsUnique-push visited fs cs u)
      | inr e ↦ rw e (
          IsUnique-push visited (fs ++ c ∷ []) cs
            (rw keys_of-append (IsUnique-snoc (keys_of fs) c.key u (ground arith))))
    ]

-- The key is explored or waits to be.
abbrev pub IsKnown : List String → List FrontierEntry → String → Type 0
IsKnown visited fs k = (contains visited k || contains (keys_of fs) k) ≡ true

-- Known keys stay known, whatever is queued later.
IsKnown-later :
    (visited : List String) (fs cs : List FrontierEntry) (k : String)
    → IsKnown visited fs k
    → IsKnown visited (push visited fs cs) k
IsKnown-later visited fs cs k h = elim (or-true (contains visited k) (contains (keys_of fs) k) h) [
  | inl v ↦ rw v refl
  | inr q ↦ ground (arith, contains-push visited fs cs k q)
]

IsKnown-next :
    (visited : List String) (fs : List FrontierEntry) (c : FrontierEntry)
    → IsKnown visited
        (if contains visited c.key || contains (keys_of fs) c.key then fs else fs ++ c ∷ [])
        c.key
IsKnown-next visited fs c =
    elim (Bool-cases (contains visited c.key || contains (keys_of fs) c.key)) [
      | inl e ↦ rw e e
      | inr e ↦ rw e (ground (arith, contains-last fs c))
    ]
  where
    contains-last :
        (gs : List FrontierEntry) (g : FrontierEntry)
        → contains (keys_of (gs ++ g ∷ [])) g.key ≡ true
    contains-last gs g = rw keys_of-append (contains-snoc (keys_of gs) g.key)

IsKnown-push :
    (visited : List String) (fs cs : List FrontierEntry)
    → All (λ c. IsKnown visited (push visited fs cs) c.key) cs
unfolding push
IsKnown-push visited fs [] = tt
IsKnown-push visited fs (c ∷ cs) =
    let next = if contains visited c.key || contains (keys_of fs) c.key then fs else fs ++ c ∷ [] in
    (IsKnown-later visited next cs c.key (IsKnown-next visited fs c), IsKnown-push visited next cs)

contains-keys : (fs : List FrontierEntry) → All (λ f. contains (keys_of fs) f.key ≡ true) fs
contains-keys [] = tt
contains-keys (f ∷ fs) =
    (ground (arith, eq_refl f.key), All-map (λ g h. ground (arith, h)) fs (contains-keys fs))

-- The enumeration loses nothing and doubles nothing: every in-origin link of the page is visited or
-- queued afterwards, what was queued stays queued, and no key is queued twice.
pub enumerate_node-keeps :
    (urls : Urls) (page_url : Text) (handles : List (Option Element)) (s : Crawl)
    → IsUnique (keys_of s.frontier)
    → let t = enumerate_node urls page_url handles s in
      All
        (λ c. IsKnown t.visited_keys t.frontier c.key)
        (enumerate_actions urls page_url s.base_url 0 handles).1
      × All (λ f. contains (keys_of t.frontier) f.key ≡ true) s.frontier
      × IsUnique (keys_of t.frontier)
unfolding enumerate_node
enumerate_node-keeps urls page_url handles s u =
    let cs = (enumerate_actions urls page_url s.base_url 0 handles).1 in
    (
      IsKnown-push s.visited_keys s.frontier cs,
      All-map (λ f h. contains-push s.visited_keys s.frontier cs f.key h) s.frontier
          (contains-keys s.frontier),
      IsUnique-push s.visited_keys s.frontier cs u,
    )

IsUnique-add_key : (k : String) (ks : List String) → IsUnique ks → IsUnique (add_key k ks)
unfolding add_key
IsUnique-add_key k ks u = elim (Bool-cases (contains ks k)) [
  | inl e ↦ rw e u
  | inr e ↦ rw e (IsUnique-snoc ks k u e)
]

contains-add_key :
    (k : String) (ks : List String) (j : String)
    → contains (add_key k ks) j ≡ (contains ks j || str_eq k j)
unfolding add_key
contains-add_key k ks j = elim (Bool-cases (contains ks k)) [
  | inl e ↦ rw e (ground (arith, eq_iff k j))
  | inr e ↦ rw (e, contains-append ks (k ∷ []) j) (ground (arith, eq_iff k j))
]

-- A navigation records just the page on which it has landed, and records no page twice.
pub navigate-visited :
    (urls : Urls) (land : Text → Text) (page_url : Text) (s : Crawl)
    → IsUnique s.visited_keys
    → let t = (navigate urls land page_url s).1 in
      IsUnique t.visited_keys
      × ((k : String)
          → contains t.visited_keys k
            ≡ (contains s.visited_keys k || str_eq (page_key urls t.current_url) k))
unfolding navigate
navigate-visited urls land page_url s u =
    (IsUnique-add_key _ s.visited_keys u, λ k. contains-add_key _ s.visited_keys k)

-- Whatever the model answers, the index lies in the menu.
pub parse_index-lt : (content : Text) (n : ℕ) → 0 < n → parse_index content n < n
unfolding parse_index
parse_index-lt content zero h = absurd (omega arith)
parse_index-lt content (suc last) h = omega arith

get_elem?-lt {ℓ} :
    {A : Type ℓ} (xs : List A) (i : ℕ) → i < length xs → (a : A) × (get_elem? xs i ≡ some a)
get_elem?-lt [] i h = absurd (omega arith)
get_elem?-lt (x ∷ xs) zero h = (x, refl)
get_elem?-lt (x ∷ xs) (suc i) h = get_elem?-lt xs i (omega arith)

-- On a page with a menu, whatever text the model answers, the chosen index is in the menu and the
-- pending action is the entry there; nothing else of the state changes.
pub decide-answered :
    (content : Text) (s : Crawl)
    → s.action_menu ≢ []
    → let t = decide (answered content) s in
      (i : ℕ) × (a : MenuEntry) × (t.chosen_index ≡ some i)
      × (t.pending_action ≡ some a)
      × (get_elem? s.action_menu i ≡ some a)
      × (t.stop_reason ≡ s.stop_reason)
unfolding decide
decide-answered content s h = on s.action_menu h
  where
    on :
        (menu : List MenuEntry)
        → menu ≢ []
        → let t = decide_from (answered content) menu s in
          (i : ℕ) × (a : MenuEntry) × (t.chosen_index ≡ some i)
          × (t.pending_action ≡ some a)
          × (get_elem? menu i ≡ some a)
          × (t.stop_reason ≡ s.stop_reason)
    on [] k = absurd (k refl)
    on (m ∷ menu) k =
        let i = parse_index content (length (m ∷ menu)) in
        let (a, e) =
          get_elem?-lt (m ∷ menu) i (parse_index-lt content (length (m ∷ menu)) (omega arith)) in
        (i, a, refl, e, e, refl)
