-- ===== src/Healing/Journal/Bounds.antt =====
-- What a journal can bring in, and what its ingestion does.
use febal_automation_script.Prelude.{
  ℕ, zero, suc, ◌≤◌, ◌≡◌, refl, subst, sym, ap, Bool, true, false, ◌&&◌, ◌||◌, not, Bool-cases, inl,
  inr, ◌⊎◌, Option, none, some, List, [], ◌∷◌, any, filter, length, take, leb, ltb, All, arith,
  if◌then◌else◌,
}
use febal_automation_script.Prelude.Texts.{Text, codes, text_eq}
use febal_automation_script.Prelude.Int.{ℤ, ◌*ℤ◌}
use febal_automation_script.Healing.Outcome.{
  Outcome, auto_heal, quarantine, fail_as_defect, applied, rejected,
}
use febal_automation_script.Healing.Journal.{
  Value, text, int, fraction, boolean, null, list, Fields, Item, HealEntry, Parsed, returned,
  raised, max_journal_bytes, max_key_len, max_chain_entries, is_dict_item, bounded_chain, valid_key,
  valid_outcome, outcome_of, valid_confidence, flow_id_of, with_confidence, with_outcome, with_key,
  validate_entry, collect, parse_items, Loaded, malformed, not_a_list, items, JournalFile, missing,
  not_utf8, is_huge, file, parse_loaded, parse_heal_journal,
}

-- The key that an entry must have: a text of 1 to 255 characters.
abbrev pub has_key : Value → Bool
has_key (text t) = leb 1 (length t) && leb (length t) max_key_len
has_key _ = false

abbrev pub has_hash : Value → Bool
has_hash (list xs) = false
has_hash Value.dict = false
has_hash _ = true

abbrev contains_text : Text → Bool
contains_text t =
    text_eq t (codes "auto_heal")
    || (text_eq t (codes "quarantine")
        || (text_eq t (codes "fail_as_defect")
            || (text_eq t (codes "applied") || text_eq t (codes "rejected"))))

-- One of the five outcomes.
abbrev pub is_outcome : Value → Bool
is_outcome (text t) = contains_text t
is_outcome _ = false

-- An integer that is no float.
abbrev pub is_overflow : Value → Bool
is_overflow (int n) = is_huge n
is_overflow _ = false

-- The item gets as far as the test of its outcome, and that has no hash; or as far as its confidence,
-- and that is no float.
abbrev pub raises : Item → Bool
raises Item.other = false
raises (Item.dict f) =
    has_key f.element_key
    && (not (has_hash f.outcome) || (is_outcome f.outcome && is_overflow f.confidence))

-- The items that are looked at: the first thousand of a list, in a file of at most a million bytes.
abbrev pub items_read : JournalFile → List Item
items_read (file bytes (items is)) = if leb bytes 1000000 then take 1000 is else []
items_read _ = []

-- The file is not UTF-8, or an item that is looked at raises.
abbrev pub raises_on : JournalFile → Bool
raises_on not_utf8 = true
raises_on j = any raises (items_read j)

abbrev pub IsBounded : HealEntry → Type 0
IsBounded e =
    (1 ≤ length e.element_key)
    × (length e.element_key ≤ 255)
    × (length e.flow_id ≤ 255)
    × (length e.before_chain ≤ 50)
    × (length e.after_chain ≤ 50)

abbrev IsBoundedIfAny : Option HealEntry → Type 0
IsBoundedIfAny none = Unit
IsBoundedIfAny (some e) = IsBounded e

filter-le {ℓ} : {A : Type ℓ} (p : A → Bool) (xs : List A) → length (filter p xs) ≤ length xs
filter-le p [] = omega arith
filter-le p (x ∷ xs) = ground (arith, filter-le p xs)

bounded_chain-le : (v : Value) → length (bounded_chain v) ≤ 50
unfolding bounded_chain
bounded_chain-le (list xs) = elim (Bool-cases (ltb max_chain_entries (length xs))) [
  | inl e ↦ rw e (omega arith)
  | inr e ↦ rw e (ground (arith, e, filter-le is_dict_item xs))
]
bounded_chain-le (text t) = omega arith
bounded_chain-le (int n) = omega arith
bounded_chain-le (fraction n) = omega arith
bounded_chain-le (boolean b) = omega arith
bounded_chain-le null = omega arith
bounded_chain-le Value.dict = omega arith

flow_id_of-le : (v : Value) → length (flow_id_of v) ≤ 255
unfolding flow_id_of
flow_id_of-le (text t) = elim (Bool-cases (ltb max_key_len (length t))) [
  | inl e ↦ rw e (omega arith)
  | inr e ↦ rw e (ground (arith, e))
]
flow_id_of-le (list xs) = omega arith
flow_id_of-le (int n) = omega arith
flow_id_of-le (fraction n) = omega arith
flow_id_of-le (boolean b) = omega arith
flow_id_of-le null = omega arith
flow_id_of-le Value.dict = omega arith

valid_key-cases :
    (v : Value)
    → ((valid_key v ≡ none) × (has_key v ≡ false))
      ⊎ ((t : Text) × (valid_key v ≡ some t)
          × (has_key v ≡ true)
          × (1 ≤ length t)
          × (length t ≤ 255))
unfolding valid_key
valid_key-cases (text []) = inl (refl, refl)
valid_key-cases (text (c ∷ s)) = elim (Bool-cases (ltb max_key_len (length (c ∷ s)))) [
  | inl e ↦ rw e (inl (refl, ground (arith, e)))
  | inr e ↦ rw e (inr (c ∷ s, refl, ground (arith, e), omega arith, ground (arith, e)))
]
valid_key-cases (list xs) = inl (refl, refl)
valid_key-cases (int n) = inl (refl, refl)
valid_key-cases (fraction n) = inl (refl, refl)
valid_key-cases (boolean b) = inl (refl, refl)
valid_key-cases null = inl (refl, refl)
valid_key-cases Value.dict = inl (refl, refl)

outcome_of-cases :
    (t : Text)
    → ((outcome_of t ≡ none) × (contains_text t ≡ false))
      ⊎ ((o : Outcome) × (outcome_of t ≡ some o) × (contains_text t ≡ true))
unfolding outcome_of
outcome_of-cases t = elim (Bool-cases (text_eq t (codes "auto_heal"))) [
  | inl a ↦ rw a (inr (auto_heal, refl, refl))
  | inr a ↦ rw a (elim (Bool-cases (text_eq t (codes "quarantine"))) [
    | inl b ↦ rw b (inr (quarantine, refl, refl))
    | inr b ↦ rw b (elim (Bool-cases (text_eq t (codes "fail_as_defect"))) [
      | inl c ↦ rw c (inr (fail_as_defect, refl, refl))
      | inr c ↦ rw c (elim (Bool-cases (text_eq t (codes "applied"))) [
        | inl d ↦ rw d (inr (applied, refl, refl))
        | inr d ↦ rw d (elim (Bool-cases (text_eq t (codes "rejected"))) [
          | inl e ↦ rw e (inr (rejected, refl, refl))
          | inr e ↦ rw e (inl (refl, refl))
        ])
      ])
    ])
  ])
]

-- What the outcome gives: an error, nothing, or one of the five.
abbrev OutcomeCases : Value → Type 0
OutcomeCases v =
    ((valid_outcome v ≡ raised) × (has_hash v ≡ false))
    ⊎ (((valid_outcome v ≡ returned none) × (has_hash v ≡ true) × (is_outcome v ≡ false))
        ⊎ ((o : Outcome) × (valid_outcome v ≡ returned (some o))
            × (has_hash v ≡ true)
            × (is_outcome v ≡ true)))

valid_outcome-cases : (v : Value) → OutcomeCases v
unfolding valid_outcome
valid_outcome-cases (text t) = elim (outcome_of-cases t) [
  | inl (a, b) ↦ inr (inl (ap returned a, refl, b))
  | inr (o, a, b) ↦ inr (inr (o, ap returned a, refl, b))
]
valid_outcome-cases (list xs) = inl (refl, refl)
valid_outcome-cases (int n) = inr (inl (refl, refl, refl))
valid_outcome-cases (fraction n) = inr (inl (refl, refl, refl))
valid_outcome-cases (boolean b) = inr (inl (refl, refl, refl))
valid_outcome-cases null = inr (inl (refl, refl, refl))
valid_outcome-cases Value.dict = inl (refl, refl)

valid_confidence-cases :
    (v : Value)
    → ((valid_confidence v ≡ raised) × (is_overflow v ≡ true))
      ⊎ ((c : Option ℤ) × (valid_confidence v ≡ returned c) × (is_overflow v ≡ false))
unfolding valid_confidence
valid_confidence-cases (int n) = by_size (is_huge n)
  where
    by_size :
        (b : Bool)
        → (((if b then raised else returned (some (n *ℤ 1000))) ≡ raised) × (b ≡ true))
          ⊎ ((c : Option ℤ) × ((if b then raised else returned (some (n *ℤ 1000))) ≡ returned c)
              × (b ≡ false))
    by_size true = inl (refl, refl)
    by_size false = inr (some (n *ℤ 1000), refl, refl)
valid_confidence-cases (text t) = inr (none, refl, refl)
valid_confidence-cases (fraction n) = inr (some n, refl, refl)
valid_confidence-cases (boolean b) = inr (none, refl, refl)
valid_confidence-cases null = inr (none, refl, refl)
valid_confidence-cases (list xs) = inr (none, refl, refl)
valid_confidence-cases Value.dict = inr (none, refl, refl)

-- An item that raises nothing gives no entry or a bounded one.
abbrev Gives : Bool → Parsed (Option HealEntry) → Type 0
Gives true r = r ≡ raised
Gives false r = (e : Option HealEntry) × (r ≡ returned e) × IsBoundedIfAny e

with_confidence-Gives :
    (f : Fields) (key : Text) (o : Outcome)
    → 1 ≤ length key
    → length key ≤ 255
    → Gives (is_overflow f.confidence) (with_confidence f key o (valid_confidence f.confidence))
unfolding with_confidence
with_confidence-Gives f key o a b = elim (valid_confidence-cases f.confidence) [
  | inl (c, d) ↦ rw (c, d) refl
  | inr (none, c, d) ↦ rw (c, d) (none, refl, tt)
  | inr (some n, c, d) ↦
      rw (c, d)
        (
          _,
          refl,
          (
            a,
            b,
            flow_id_of-le f.flow_id,
            bounded_chain-le f.before_chain,
            bounded_chain-le f.after_chain,
          ),
        )
]

validate_entry-Gives : (i : Item) → Gives (raises i) (validate_entry i)
unfolding validate_entry with_key with_outcome
validate_entry-Gives Item.other = (none, refl, tt)
validate_entry-Gives (Item.dict f) = elim (valid_key-cases f.element_key) [
  | inl (a, b) ↦ rw (a, b) (none, refl, tt)
  | inr (t, a, b, lo, hi) ↦
      rw (a, b)
        (elim (valid_outcome-cases f.outcome) [
          | inl (c, d) ↦ rw (c, d) refl
          | inr (inl (c, d, e)) ↦ rw (c, d, e) (none, refl, tt)
          | inr (inr (o, c, d, e)) ↦ rw (c, d, e) (with_confidence-Gives f t o lo hi)
        ])
]

abbrev GivesAll : Bool → Parsed (List HealEntry) → ℕ → Type 0
GivesAll true r n = r ≡ raised
GivesAll false r n = (es : List HealEntry) × (r ≡ returned es) × All IsBounded es × (length es ≤ n)

collect-Gives :
    (a b : Bool) (n : ℕ) (r : Parsed (Option HealEntry)) (rest : Parsed (List HealEntry))
    → Gives a r
    → GivesAll b rest n
    → GivesAll (a || b) (collect r rest) (suc n)
unfolding collect
collect-Gives true b n r rest h k = rw h refl
collect-Gives false true n r rest (e, h, i) k = rw (h, k) refl
collect-Gives false false n r rest (none, h, i) (es, k, j, l) = rw (h, k) (es, refl, j, omega arith)
collect-Gives false false n r rest (some e, h, i) (es, k, j, l) =
    rw (h, k) (e ∷ es, refl, (i, j), omega arith)

parse_items-Gives : (is : List Item) → GivesAll (any raises is) (parse_items is) (length is)
unfolding parse_items
parse_items-Gives [] = ([], refl, tt, omega arith)
parse_items-Gives (i ∷ is) =
    collect-Gives (raises i) (any raises is) (length is) (validate_entry i) (parse_items is)
      (validate_entry-Gives i) (parse_items-Gives is)

take-le {ℓ} : {A : Type ℓ} (n : ℕ) (xs : List A) → length (take n xs) ≤ n
take-le zero xs = omega arith
take-le (suc n) [] = omega arith
take-le (suc n) (x ∷ xs) = omega (arith, take-le n xs)

parse_heal_journal-items :
    (bytes : ℕ) (loaded : Loaded)
    → (parse_heal_journal (file bytes loaded) ≡ parse_items (items_read (file bytes loaded)))
      × (length (items_read (file bytes loaded)) ≤ 1000)
unfolding parse_heal_journal parse_loaded parse_items
parse_heal_journal-items bytes malformed = elim (Bool-cases (ltb max_journal_bytes bytes)) [
  | inl e ↦ rw e (refl, omega arith)
  | inr e ↦ rw e (refl, omega arith)
]
parse_heal_journal-items bytes not_a_list = elim (Bool-cases (ltb max_journal_bytes bytes)) [
  | inl e ↦ rw e (refl, omega arith)
  | inr e ↦ rw e (refl, omega arith)
]
parse_heal_journal-items bytes (items is) = elim (Bool-cases (ltb max_journal_bytes bytes)) [
  | inl e ↦ rw (e, too_big e) (refl, omega arith)
  | inr e ↦ rw (e, fits e) (refl, take-le 1000 is)
]
  where
    too_big : ltb max_journal_bytes bytes ≡ true → leb bytes 1000000 ≡ false
    too_big e = ground (arith, e)

    fits : ltb max_journal_bytes bytes ≡ false → leb bytes 1000000 ≡ true
    fits e = ground (arith, e)

parse_heal_journal-Gives : (j : JournalFile) → GivesAll (raises_on j) (parse_heal_journal j) 1000
unfolding parse_heal_journal
parse_heal_journal-Gives missing = ([], refl, tt, omega arith)
parse_heal_journal-Gives not_utf8 = refl
parse_heal_journal-Gives (file bytes loaded) =
    let (e, l) = parse_heal_journal-items bytes loaded in
    up_to (any raises (items_read (file bytes loaded))) _ _ l (
      subst
        (λ r.
          GivesAll (any raises (items_read (file bytes loaded))) r
            (length (items_read (file bytes loaded))))
        (sym e) (parse_items-Gives (items_read (file bytes loaded))))
  where
    up_to :
        (b : Bool) (r : Parsed (List HealEntry)) (n : ℕ)
        → n ≤ 1000
        → GivesAll b r n
        → GivesAll b r 1000
    up_to true r n l h = h
    up_to false r n l (es, k, b, m) = (es, k, b, omega (arith, l, m))

-- If the file is not UTF-8, or an item that is looked at has a key and either an outcome without a
-- hash, such as a list, or one of the five outcomes with an integer that is no float, reading the
-- journal raises an error.
pub parse_heal_journal-raises :
    (j : JournalFile) → raises_on j ≡ true → parse_heal_journal j ≡ raised
parse_heal_journal-raises j h =
    subst (λ t. GivesAll t (parse_heal_journal j) 1000) h (parse_heal_journal-Gives j)
