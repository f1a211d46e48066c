-- ===== src/Healing/Journal.antt =====
-- The heal journal of a flow and its ingestion (services/healing/ingest.py). A value is what
-- json.loads may give, as far as the code tells values apart; a fraction is in thousandths.
pub mod Bounds
pub mod Effects
mod Tests
use febal_automation_script.Prelude.{
  ℕ, zero, suc, ◌+◌, ◌-◌, ◌*◌, ◌^◌, String, Bool, true, false, ◌&&◌, ◌||◌, not, Option, none, some,
  List, [], ◌∷◌, ◌++◌, any, filter, length, take, map, leb, ltb, str_eq, if◌then◌else◌,
}
use febal_automation_script.Prelude.Texts.{Text, codes, text_eq}
use febal_automation_script.Prelude.Int.{ℤ, pos, negsuc, ◌*ℤ◌}
use febal_automation_script.Healing.Outcome.{
  Outcome, auto_heal, quarantine, fail_as_defect, applied, rejected,
}

-- An element of a chain; of a dict only the `value` is read, and only if it is a text.
pub data ChainItem : Type 0 where
  dict_item : Option Text → ChainItem
  text_item : Text → ChainItem
  other_item : ChainItem

pub data Value : Type 0 where
  text : Text → Value
  int : ℤ → Value
  fraction : ℤ → Value
  boolean : Bool → Value
  null : Value
  list : List ChainItem → Value
  dict : Value

-- A missing key reads as null.
pub record Fields : Type 0 where
  pub element_key : Value
  pub outcome : Value
  pub confidence : Value
  pub live_match_count : Value
  pub flow_id : Value
  pub before_chain : Value
  pub after_chain : Value

pub data Item : Type 0 where
  dict : Fields → Item
  other : Item

pub record HealEntry : Type 0 where
  pub element_key : Text
  pub outcome : Outcome
  pub confidence : ℤ
  pub before_chain : List ChainItem
  pub after_chain : List ChainItem
  pub live_match_count : ℤ
  pub flow_id : Text

-- `raised` for an exception that the ingestion does not catch: the TypeError of an outcome without a
-- hash, the OverflowError of a confidence that is no float, the UnicodeDecodeError of the file.
pub data Parsed {ℓ} (A : Type ℓ) : Type ℓ where
  returned : A → Parsed A
  raised : Parsed A

abbrev pub max_journal_bytes : ℕ
max_journal_bytes = 1000000

abbrev pub max_entries : ℕ
max_entries = 1000

abbrev pub max_key_len : ℕ
max_key_len = 255

abbrev pub max_chain_entries : ℕ
max_chain_entries = 50

abbrev pub is_dict_item : ChainItem → Bool
is_dict_item (dict_item v) = true
is_dict_item _ = false

unfoldable pub bounded_chain : Value → List ChainItem
bounded_chain (list xs) = if ltb max_chain_entries (length xs) then [] else filter is_dict_item xs
bounded_chain _ = []

valid_key : Value → Option Text
valid_key (text []) = none
valid_key (text (c ∷ s)) = if ltb max_key_len (length (c ∷ s)) then none else some (c ∷ s)
valid_key _ = none

outcome_of : Text → Option Outcome
outcome_of t =
    if text_eq t (codes "auto_heal")
    then some auto_heal
    else if text_eq t (codes "quarantine")
    then some quarantine
    else if text_eq t (codes "fail_as_defect")
    then some fail_as_defect
    else if text_eq t (codes "applied")
    then some applied
    else if text_eq t (codes "rejected")
    then some rejected
    else none

-- `outcome not in _VALID_OUTCOMES`
valid_outcome : Value → Parsed (Option Outcome)
unfolding outcome_of
valid_outcome (text t) = returned (outcome_of t)
valid_outcome (list xs) = raised
valid_outcome dict = raised
valid_outcome _ = returned none

-- The integers from which `float` raises: those that round to 2 ^ 1024, 2 ^ 1024 - 2 ^ 970 and above.
abbrev pub float_limit : ℕ
float_limit = 2 ^ 1024 - 2 ^ 970

abbrev pub is_huge : ℤ → Bool
is_huge (pos n) = leb float_limit n
is_huge (negsuc n) = leb float_limit (suc n)

-- `float(conf)`
valid_confidence : Value → Parsed (Option ℤ)
valid_confidence (int n) = if is_huge n then raised else returned (some (n *ℤ 1000))
valid_confidence (fraction n) = returned (some n)
valid_confidence _ = returned none

match_count_of : Value → ℤ
match_count_of (int n) = n
match_count_of _ = pos 0

flow_id_of : Value → Text
flow_id_of (text t) = if ltb max_key_len (length t) then [] else t
flow_id_of _ = []

with_confidence : Fields → Text → Outcome → Parsed (Option ℤ) → Parsed (Option HealEntry)
unfolding bounded_chain match_count_of flow_id_of
with_confidence f key outcome raised = raised
with_confidence f key outcome (returned none) = returned none
with_confidence f key outcome (returned (some conf)) = returned (
    some (record {
      element_key = key;
      outcome = outcome;
      confidence = conf;
      before_chain = bounded_chain f.before_chain;
      after_chain = bounded_chain f.after_chain;
      live_match_count = match_count_of f.live_match_count;
      flow_id = flow_id_of f.flow_id;
    }))

with_outcome : Fields → Text → Parsed (Option Outcome) → Parsed (Option HealEntry)
unfolding valid_confidence with_confidence
with_outcome f key raised = raised
with_outcome f key (returned none) = returned none
with_outcome f key (returned (some o)) = with_confidence f key o (valid_confidence f.confidence)

with_key : Fields → Option Text → Parsed (Option HealEntry)
unfolding with_outcome valid_outcome
with_key f none = returned none
with_key f (some key) = with_outcome f key (valid_outcome f.outcome)

unfoldable pub validate_entry : Item → Parsed (Option HealEntry)
unfolding with_key valid_key
validate_entry other = returned none
validate_entry (dict f) = with_key f (valid_key f.element_key)

collect : Parsed (Option HealEntry) → Parsed (List HealEntry) → Parsed (List HealEntry)
collect raised rest = raised
collect (returned e) raised = raised
collect (returned none) (returned es) = returned es
collect (returned (some e)) (returned es) = returned (e ∷ es)

unfoldable pub parse_items : List Item → Parsed (List HealEntry)
unfolding collect
parse_items [] = returned []
parse_items (i ∷ items) = collect (validate_entry i) (parse_items items)

-- The journal's file: absent or unreadable, not UTF-8, or its size and what json.loads makes of it.
pub data Loaded : Type 0 where
  malformed not_a_list : Loaded
  items : List Item → Loaded

pub data JournalFile : Type 0 where
  missing : JournalFile
  not_utf8 : JournalFile
  file : ℕ → Loaded → JournalFile

parse_loaded : Loaded → Parsed (List HealEntry)
parse_loaded malformed = returned []
parse_loaded not_a_list = returned []
parse_loaded (items is) = parse_items (take max_entries is)

unfoldable pub parse_heal_journal : JournalFile → Parsed (List HealEntry)
unfolding parse_loaded
parse_heal_journal missing = returned []
parse_heal_journal not_utf8 = raised
parse_heal_journal (file bytes loaded) =
    if ltb max_journal_bytes bytes then returned [] else parse_loaded loaded

-- The selector for the page object: the value of the chain's first entry, if there is one.
non_empty : Text → Option Text
non_empty [] = none
non_empty (c ∷ s) = some (c ∷ s)

unfoldable pub selector_from_chain : List ChainItem → Option Text
unfolding non_empty
selector_from_chain [] = none
selector_from_chain (dict_item (some v) ∷ chain) = non_empty v
selector_from_chain (dict_item none ∷ chain) = none
selector_from_chain (text_item t ∷ chain) = non_empty t
selector_from_chain (other_item ∷ chain) = none

pub record HealAudit : Type 0 where
  pub element_key : Text
  pub run_id : String
  pub flow_id : String
  pub before_chain : List ChainItem
  pub after_chain : Option (List ChainItem)
  pub confidence : ℤ
  pub outcome : Outcome
  pub live_match_count : ℤ

-- What the ingestion does besides the rows: a page object that is rewritten, and an element whose
-- history is handed to the writer of the graph, which may fail without a trace.
pub data Effect : Type 0 where
  rewritten : Text → Text → Effect
  appended : Text → List ChainItem → Effect

abbrev pub or_chain : List ChainItem → List ChainItem → List ChainItem
or_chain [] b = b
or_chain (c ∷ a) b = c ∷ a

or_null : List ChainItem → Option (List ChainItem)
or_null [] = none
or_null (c ∷ chain) = some (c ∷ chain)

-- `resolves` tells whether a module owns the element and its rewrite parses and changes it.
unfoldable pub apply_rewrite : (Text → Text → Bool) → Text → Option Text → List Effect
apply_rewrite resolves key none = []
apply_rewrite resolves key (some selector) =
    if resolves key selector then rewritten key selector ∷ [] else []

abbrev pub append_history : HealEntry → List Effect
append_history e = appended e.element_key (or_chain e.after_chain e.before_chain) ∷ []

unfoldable pub effects_of : (Text → Text → Bool) → HealEntry → List Effect
unfolding apply_rewrite
effects_of resolves e = elim e.outcome [
  | auto_heal ↦
      apply_rewrite resolves e.element_key (selector_from_chain e.after_chain) ++ append_history e
  | applied ↦ append_history e
  | quarantine ↦ []
  | fail_as_defect ↦ []
  | rejected ↦ []
]

pub record Ingested : Type 0 where
  pub rows : List HealAudit
  pub effects : List Effect
  pub outcomes : List Outcome

unfoldable pub audit_row : String → String → HealEntry → HealAudit
unfolding or_null
audit_row run_id flow_id e = record {
  element_key = e.element_key;
  run_id = run_id;
  flow_id = flow_id;
  before_chain = e.before_chain;
  after_chain = or_null e.after_chain;
  confidence = e.confidence;
  outcome = e.outcome;
  live_match_count = e.live_match_count;
}

unfoldable pub ingest_entries : (Text → Text → Bool) → String → String → List HealEntry → Ingested
ingest_entries resolves run_id flow_id [] = record { rows = []; effects = []; outcomes = [] }
ingest_entries resolves run_id flow_id (e ∷ es) =
    let rest = ingest_entries resolves run_id flow_id es in
    record {
      rows = audit_row run_id flow_id e ∷ rest.rows;
      effects = effects_of resolves e ++ rest.effects;
      outcomes = e.outcome ∷ rest.outcomes;
    }

ingest_parsed : (Text → Text → Bool) → String → String → Parsed (List HealEntry) → Parsed Ingested
ingest_parsed resolves run_id flow_id raised = raised
ingest_parsed resolves run_id flow_id (returned es) =
    returned (ingest_entries resolves run_id flow_id es)

unfoldable pub ingest_heal_journal :
    (Text → Text → Bool) → String → String → JournalFile → Parsed Ingested
unfolding ingest_parsed
ingest_heal_journal resolves run_id flow_id journal =
    ingest_parsed resolves run_id flow_id (parse_heal_journal journal)
