-- ===== src/Explorer/Converge/Tests.antt =====
-- Runs over two pages: the model keeps choosing, and the second lap is not the last.
use febal_automation_script.Prelude.{
  ℕ, String, ◌≡◌, ◌≢◌, refl, false, none, some, List, [], ◌∷◌, leb, lookup, insert, if◌then◌else◌,
  arith,
}
use febal_automation_script.Prelude.Texts.{Text, codes}
use febal_automation_script.Explorer.Budget.{
  ExploreBudget, cap_reason, is_loop, is_saturated, has_pair, max_steps,
}
use febal_automation_script.Explorer.Converge.{
  FrontierEntry, Lap, initial, converge, lap, explore, should_continue, from_key, advance, reason,
  keep_or, is_new, record_pair, is_empty,
}
use febal_automation_script.Explorer.Converge.Ledger.{
  IsCounted, initial-IsCounted, explore-IsCounted,
}
use febal_automation_script.Explorer.Converge.Stops.{explore-stops}

abbrev caps : ExploreBudget
caps = record {
  steps_cap = 3;
  depth_cap = 9;
  revisits_cap = 4;
  wall_clock_seconds = 60;
  saturation_window = 5;
}

abbrev queue : List FrontierEntry
queue = record { key = "/b"; url = codes "/b"; label = codes "B" } ∷ []

abbrev page_key : Text → String
page_key url = "/"

abbrev two_pages : ℕ → Lap
two_pages n = record {
  cancelled = false;
  refused = false;
  frontier = queue;
  chosen_index = some n;
  last_from_key = "";
  current_fingerprint = if leb n 0 then "a" else "b";
  current_url = codes "/";
  now = n;
}

three_laps : (explore page_key caps two_pages 9 0 (initial queue)).stop_reason ≡ some max_steps
unfolding explore lap converge from_key advance reason keep_or is_new record_pair is_empty
    cap_reason is_loop is_saturated has_pair should_continue lookup insert
three_laps = refl

explore-IsCounted_example : IsCounted (explore page_key caps two_pages 2 0 (initial queue))
explore-IsCounted_example =
    explore-IsCounted page_key caps two_pages 2 0 (initial queue) (initial-IsCounted queue)

explore-stops_example : (explore page_key caps two_pages 3 0 (initial queue)).stop_reason ≢ none
explore-stops_example =
    explore-stops page_key caps two_pages 3 0 (initial queue) (omega arith) (omega arith)

two_laps : (explore page_key caps two_pages 2 0 (initial queue)).stop_reason ≡ none
unfolding explore lap converge from_key advance reason keep_or is_new record_pair is_empty
    cap_reason is_loop is_saturated has_pair should_continue lookup insert
two_laps = refl

goes_on : (converge page_key caps 7 (initial queue)).stop_reason ≡ none
unfolding converge from_key advance reason keep_or is_new record_pair is_empty cap_reason is_loop
    is_saturated has_pair lookup insert
goes_on = refl
