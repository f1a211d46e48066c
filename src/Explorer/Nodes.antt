-- ===== src/Explorer/Nodes.antt =====
-- The nodes before converge: check_cancel, navigate, enumerate, decide and act
-- (services/explorer/nodes.py), with the browser, the model and Redis as arguments.
pub mod Safety
pub mod Frontier
mod Tests
use febal_automation_script.Prelude.{
  ℕ, zero, suc, ◌+◌, ◌-◌, ◌*◌, min, String, ◌≡◌, Bool, true, false, ◌&&◌, ◌||◌, Option, none, some,
  List, [], ◌∷◌, ◌++◌, arith, any, contains, map, length, get_elem?, leb, ltb, ◌<◌, str_eq,
  if◌then◌else◌,
}
use febal_automation_script.Prelude.Texts.{Text, codes, lower, text_eq, is_part}
use febal_automation_script.Explorer.Budget.{StopReason, budget, stopped}
use febal_automation_script.Explorer.Converge.{FrontierEntry, ExplorerState}
use febal_automation_script.Explorer.Risk.{is_destructive, is_off_origin}
use febal_automation_script.Explorer.Actions.{Urls, page_key, Element, MenuEntry, enumerate_actions}

-- The whole state of the graph: the part of the converge node, and the rest.
pub record Crawl : Type 0 where
  pub counters : ExplorerState
  pub open counters use *
  pub base_url : Text
  pub sandbox : Bool
  pub origin_allowlist : List Text
  pub visited_keys : List String
  pub action_menu : List MenuEntry
  pub pending_action : Option MenuEntry

is_digit : ℕ → Bool
is_digit c = leb b'0' c && leb c b'9'

-- The first run of digits: whether it has begun, and its value so far.
digits_from : Bool → ℕ → Text → ℕ
unfolding is_digit
digits_from begun n [] = n
digits_from begun n (c ∷ s) =
    let more = digits_from true (n * 10 + (c - b'0')) s in
    let skip = digits_from false n s in if is_digit c then more else if begun then n else skip

-- A missing content reads as the empty text.
unfoldable pub parse_index : Text → ℕ → ℕ
unfolding digits_from
parse_index content zero = 0
parse_index content (suc last) = min (digits_from false 0 content) last

unfoldable pub check_cancel : Bool → Crawl → Crawl
check_cancel flag s =
    if flag then record s { counters = record s.counters { stop_reason = some stopped } } else s

-- The pending target if it has a URL, or else the next of the frontier, with the frontier left.
next_frontier : List FrontierEntry → Option Text × List FrontierEntry
next_frontier [] = (none, [])
next_frontier (f ∷ fs) = (some f.url, fs)

target_of_url : Text → List FrontierEntry → Option Text × List FrontierEntry
unfolding next_frontier
target_of_url [] frontier = next_frontier frontier
target_of_url (c ∷ url) frontier = (some (c ∷ url), frontier)

unfoldable pub target_of : Option MenuEntry → List FrontierEntry → Option Text × List FrontierEntry
unfolding target_of_url next_frontier
target_of none frontier = next_frontier frontier
target_of (some a) frontier = target_of_url a.url frontier

-- An empty target and the present page are not visited again.
unfoldable pub goto_of : Option Text → Text → Option Text
goto_of none page_url = none
goto_of (some []) page_url = none
goto_of (some (c ∷ url)) page_url = if text_eq (c ∷ url) page_url then none else some (c ∷ url)

landed_at : (Text → Text) → Option Text → Text → Text
landed_at land none page_url = page_url
landed_at land (some url) page_url = land url

unfoldable pub add_key : String → List String → List String
add_key key keys = if contains keys key then keys else keys ++ key ∷ []

-- `land` is where a visit of a URL ends, after any redirects. The visit comes back with the state.
unfoldable pub navigate : Urls → (Text → Text) → Text → Crawl → Option Text × Crawl
unfolding target_of goto_of landed_at add_key
navigate urls land page_url s =
    let (target, frontier) = target_of s.pending_action s.frontier in
    let visit = goto_of target page_url in
    let landed = landed_at land visit page_url in
    (
      visit,
      record s {
        counters = record s.counters { frontier = frontier; current_url = landed };
        visited_keys = add_key (page_key urls landed) s.visited_keys;
        pending_action = none;
      },
    )

abbrev pub keys_of : List FrontierEntry → List String
keys_of [] = []
keys_of (f ∷ fs) = f.key ∷ keys_of fs

-- The loop over the candidates; `queued` is the set of the frontier's keys.
unfoldable pub push : List String → List FrontierEntry → List FrontierEntry → List FrontierEntry
push visited frontier [] = frontier
push visited frontier (c ∷ cs) =
    push visited
      (if contains visited c.key || contains (keys_of frontier) c.key
        then frontier
        else frontier ++ c ∷ [])
      cs

unfoldable pub enumerate_node : Urls → Text → List (Option Element) → Crawl → Crawl
unfolding push
enumerate_node urls page_url handles s =
    let (menu, candidates) = enumerate_actions urls page_url s.base_url 0 handles in
    record s {
      counters = record s.counters { frontier = push s.visited_keys s.frontier candidates };
      action_menu = menu;
    }

-- What the gateway answers: a text, or that the budget or the kill-switch refuses.
pub data Decision : Type 0 where
  answered : Text → Decision
  refused : Decision

decide_from : Decision → List MenuEntry → Crawl → Crawl
decide_from decision [] s = record s {
  counters = record s.counters { chosen_index = none };
  pending_action = none;
}
decide_from refused (m ∷ menu) s = record s {
  counters = record s.counters { chosen_index = none; stop_reason = some budget };
  pending_action = none;
}
decide_from (answered content) (m ∷ menu) s =
    let i = parse_index content (length (m ∷ menu)) in
    record s {
      counters = record s.counters { chosen_index = some i };
      pending_action = get_elem? (m ∷ menu) i;
    }

unfoldable pub decide : Decision → Crawl → Crawl
unfolding decide_from
decide decision s = decide_from decision s.action_menu s

pub data Feed : Type 0 where
  refused_destructive refused_off_origin chose : ℕ → Text → Feed

-- What act does to the page and to the state. A click is attempted; if it raises, the run goes on.
pub record Acted : Type 0 where
  pub feed : Option Feed
  pub pending_action : Option MenuEntry
  pub probed : Bool
  pub clicked : Option ℕ

is_submit_like : MenuEntry → Bool
is_submit_like a =
    let label = lower a.label in
    (text_eq (lower a.role) (codes "button") || text_eq (lower a.role) (codes "submit"))
    || any (λ kw. is_part (codes kw) label)
        ("login" ∷ "submit" ∷ "sign in" ∷ "continue" ∷ "save" ∷ "register" ∷ [])

-- A control without a URL is probed and clicked, one with a URL is left for navigate.
act_on : ℕ → MenuEntry → Text → Acted
unfolding is_submit_like
act_on handles a [] = record {
  feed = some (chose a.index a.label);
  pending_action = none;
  probed = is_submit_like a;
  clicked = if ltb a.index handles then some a.index else none;
}
act_on handles a (c ∷ url) = record {
  feed = some (chose a.index a.label);
  pending_action = some a;
  probed = false;
  clicked = none;
}

refuse : (ℕ → Text → Feed) → MenuEntry → Acted
refuse why a = record {
  feed = some (why a.index a.label);
  pending_action = none;
  probed = false;
  clicked = none;
}

unfoldable pub off_scope : Urls → List Text → Text → Bool
off_scope urls allowlist [] = false
off_scope urls allowlist (c ∷ url) = is_off_origin urls.urlsplit (c ∷ url) allowlist

gated : Urls → ℕ → Bool → List Text → MenuEntry → Acted
unfolding refuse off_scope act_on
gated urls handles sandbox allowlist a =
    if is_destructive a.label [] sandbox
    then refuse refused_destructive a
    else if off_scope urls allowlist a.url
    then refuse refused_off_origin a
    else act_on handles a a.url

idle : Option MenuEntry → Acted
idle pending = record { feed = none; pending_action = pending; probed = false; clicked = none }

act_pending : Urls → ℕ → Crawl → Option StopReason → Option MenuEntry → Acted
unfolding idle gated
act_pending urls handles s (some r) pending = idle pending
act_pending urls handles s none none = idle none
act_pending urls handles s none (some a) = gated urls handles s.sandbox s.origin_allowlist a

-- `handles` is the number of candidates that the page has by now.
unfoldable pub act : Urls → ℕ → Crawl → Acted
unfolding act_pending
act urls handles s = act_pending urls handles s s.stop_reason s.pending_action
