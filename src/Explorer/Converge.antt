-- ===== src/Explorer/Converge.antt =====
-- The converge node, which advances the counters and decides whether to stop, and the edge after it
-- (`converge` and `should_continue` of services/explorer/nodes.py).
pub mod Ledger
pub mod Stops
mod Tests
use febal_automation_script.Prelude.{
  ℕ, zero, suc, ◌+◌, String, Bool, true, false, Option, none, some, List, [], ◌∷◌, ◌++◌, Dict,
  lookup, add_at, str_eq, if◌then◌else◌,
}
use febal_automation_script.Prelude.Texts.{Text}
use febal_automation_script.Explorer.Budget.{
  StopReason, budget, saturation, converged, stopped, ExploreBudget, cap_reason, has_pair, is_loop,
  is_saturated,
}

pub record FrontierEntry : Type 0 where
  pub key : String
  pub url : Text
  pub label : Text

-- The keys of ExplorerState that the converge node reads or writes.
pub record ExplorerState : Type 0 where
  pub step : ℕ
  pub depth : ℕ
  pub started_at : Option ℕ
  pub seen_keys : Dict ℕ
  pub seen_pairs : List (String × ℕ)
  pub steps_since_new : ℕ
  pub frontier : List FrontierEntry
  pub chosen_index : Option ℕ
  pub stop_reason : Option StopReason
  pub last_from_key : String
  pub current_fingerprint : String
  pub current_url : Text

-- A fresh run.
abbrev pub initial : List FrontierEntry → ExplorerState
initial frontier = record {
  step = 0;
  depth = 0;
  started_at = none;
  seen_keys = [];
  seen_pairs = [];
  steps_since_new = 0;
  frontier = frontier;
  chosen_index = none;
  stop_reason = none;
  last_from_key = "";
  current_fingerprint = "";
  current_url = [];
}

-- `a or b` on texts; a missing key reads as the empty text.
abbrev either : String → String → String
either a b = if str_eq a "" then b else a

from_key : (Text → String) → ExplorerState → String
from_key page_key s = either s.last_from_key (either s.current_fingerprint (page_key s.current_url))

is_new : Option ℕ → Bool
is_new none = true
is_new (some n) = false

record_pair : Option ℕ → String → List (String × ℕ) → List (String × ℕ)
unfolding has_pair
record_pair none key pairs = pairs
record_pair (some i) key pairs = if has_pair pairs key i then pairs else pairs ++ (key, i) ∷ []

-- `not state.get("frontier")`
is_empty : List FrontierEntry → Bool
is_empty [] = true
is_empty (f ∷ fs) = false

-- `started_at` defaults to the present.
start_or : Option ℕ → ℕ → Option ℕ
start_or none now = some now
start_or (some t) now = some t

-- The ledgers and counters after the step.
advance : String → ExplorerState → ExplorerState
unfolding is_new record_pair
advance key s =
    let fresh = is_new (lookup key s.seen_keys) in
    record s {
      step = s.step + 1;
      depth = if fresh then s.depth + 1 else s.depth;
      seen_keys = add_at key 1 s.seen_keys;
      seen_pairs = record_pair s.chosen_index key s.seen_pairs;
      steps_since_new = if fresh then 0 else s.steps_since_new + 1;
    }

-- The caps and the loop detector see the new ledgers but the pairs of the earlier steps.
reason : ExploreBudget → ℕ → String → ExplorerState → ExplorerState → Option StopReason
unfolding cap_reason is_loop is_saturated is_empty start_or
reason b now key s s' = elim (cap_reason s'.step s'.depth (start_or s.started_at now) now b) [
  | some r ↦ some r
  | none ↦
      if is_loop s'.seen_keys s.seen_pairs key s.chosen_index b
      then some converged
      else if is_empty s.frontier
      then (if is_saturated s'.steps_since_new b then some saturation else some saturation)
      else none
]

-- A reason that stands is kept.
keep_or : Option StopReason → Option StopReason → Option StopReason
keep_or (some r) new = some r
keep_or none new = new

unfoldable pub converge : (Text → String) → ExploreBudget → ℕ → ExplorerState → ExplorerState
unfolding from_key advance reason keep_or
converge page_key b now s =
    let key = from_key page_key s in
    let s' = advance key s in
    record s' { stop_reason = keep_or s.stop_reason (reason b now key s s') }

pub data Edge : Type 0 where
  loop stop : Edge

unfoldable pub should_continue : Option StopReason → Edge
should_continue none = loop
should_continue (some r) = stop

-- What the nodes before converge leave in a lap, and what the lap finds outside: the cancel flag and
-- the time. The nodes write none of the counters and ledgers. `refused` is the stop reason that
-- decide sets when the gateway refuses.
pub record Lap : Type 0 where
  pub cancelled : Bool
  pub refused : Bool
  pub frontier : List FrontierEntry
  pub chosen_index : Option ℕ
  pub last_from_key : String
  pub current_fingerprint : String
  pub current_url : Text
  pub now : ℕ

abbrev pub before_converge : Lap → ExplorerState → ExplorerState
before_converge l s = record s {
  frontier = l.frontier;
  chosen_index = l.chosen_index;
  last_from_key = l.last_from_key;
  current_fingerprint = l.current_fingerprint;
  current_url = l.current_url;
  stop_reason = if l.refused then some budget else s.stop_reason;
}

-- One lap from check_cancel to the edge behind converge.
unfoldable pub lap : (Text → String) → ExploreBudget → Lap → ExplorerState → ExplorerState
lap page_key b l s =
    if l.cancelled
    then record s { stop_reason = some stopped }
    else converge page_key b l.now (before_converge l s)

-- The compiled graph: at most `fuel` laps, the n-th of which meets `laps n`.
unfoldable pub explore :
    (Text → String) → ExploreBudget → (ℕ → Lap) → ℕ → ℕ → ExplorerState → ExplorerState
explore page_key b laps zero n s = s
explore page_key b laps (suc fuel) n s =
    let s' = lap page_key b (laps n) s in
    elim (should_continue s'.stop_reason) [
      | loop ↦ explore page_key b laps fuel (suc n) s'
      | stop ↦ s'
    ]
