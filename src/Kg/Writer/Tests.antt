-- ===== src/Kg/Writer/Tests.antt =====
-- A crawl of two pages and a checkout form, and calls that raise.
use febal_automation_script.Prelude.{
  String, true, ◌≡◌, refl, List, [], ◌∷◌, none, some, length, lookup,
}
use febal_automation_script.Kg.Writer.{
  Graph, write, run_upsert, run_link, link_between, created, matched, assign, assign_all,
  coalesce_verified, merge, merge_at, find, set_matched, same, same_edge, row_of, page,
}
use febal_automation_script.Kg.Writer.Calls.{
  upsert_page, upsert_form, upsert_business_entity, link_navigates_to, link_has_form, link_creates,
  link_step,
}
use febal_automation_script.Kg.Writer.Client.{
  Call, page_seen, form_seen, entity_seen, navigates_to, has_form, creates, step, apply, run_calls,
  view,
}
use febal_automation_script.Kg.Writer.Client.Freshness.{
  read, run_calls-first_seen, apply-IsFresh, stamped, IsFresh,
}
use febal_automation_script.Kg.Writer.Client.Errors.{
  is_raised, is_known, needs, all_known, is_accepted, apply-raises, apply-refused,
}

abbrev empty : Graph
empty = record { nodes = []; edges = [] }

abbrev home : String → Call
home now = page_seen "f1" "http://shop/" "Home" "run" (some "1.png") now

abbrev crawl : List Call
crawl =
    home "monday"
    ∷ page_seen "f2" "http://shop/cart" "Cart" "run" none "monday"
    ∷ navigates_to "f1" "f2" "to cart" "run"
    ∷ navigates_to "f1" "f2" "cart icon" "run"
    ∷ form_seen "f2#form:pay" "[]" "run" "monday"
    ∷ has_form "f2" "f2#form:pay" "run"
    ∷ entity_seen "Order" "transaction" "monday"
    ∷ creates "f2#form:pay" "Order" "run"
    ∷ []

abbrev lost_step : Call
lost_step = step "checkout" 1 "f9" "run"

crawled : length (run_calls crawl empty).edges ≡ 3
unfolding run_calls upsert_page upsert_form upsert_business_entity link_navigates_to link_has_form
    link_creates write run_upsert run_link link_between merge merge_at find set_matched same
    same_edge row_of
crawled = refl

again_later :
    read "last_verified"
      ((view (run_calls (home "tuesday" ∷ []) (run_calls crawl empty))).knows (page "f1"))
    ≡ some "tuesday"
unfolding read view run_calls upsert_page upsert_form upsert_business_entity link_navigates_to
    link_has_form link_creates write run_upsert run_link link_between merge merge_at find
    set_matched same same_edge row_of created matched assign_all assign coalesce_verified lookup
again_later = refl

lost : is_raised (apply lost_step empty).1 ≡ true
unfolding is_raised apply link_step
lost = refl

first_known : read "first_seen" ((view (run_calls crawl empty)).knows (page "f1")) ≡ some "monday"
unfolding read view run_calls upsert_page upsert_form upsert_business_entity link_navigates_to
    link_has_form link_creates write run_upsert run_link link_between merge merge_at find
    set_matched same same_edge row_of created matched assign_all assign coalesce_verified lookup
first_known = refl

run_calls-first_seen_example :
    read "first_seen" (
      (view (run_calls (home "tuesday" ∷ lost_step ∷ []) (run_calls crawl empty))).knows
        (page "f1"))
    ≡ some "monday"
run_calls-first_seen_example =
    run_calls-first_seen (home "tuesday" ∷ lost_step ∷ []) (run_calls crawl empty) (page "f1")
      "monday" first_known

apply-IsFresh_example :
    IsFresh
      ((view (run_calls crawl empty)).knows (page "f1"))
      ((view (apply (home "tuesday") (run_calls crawl empty)).0).knows (page "f1"))
      "tuesday"
unfolding stamped
apply-IsFresh_example = apply-IsFresh (home "tuesday") (run_calls crawl empty)

-- A link of pages of which one is unknown.
abbrev dangling : Call
dangling = navigates_to "f1" "f9" "lost" "run"

dangling_raises : is_raised (apply dangling empty).1 ≡ true
unfolding is_raised apply write run_link link_between find row_of
dangling_raises = refl

apply-raises_example : is_raised (apply dangling empty).1 ≡ true
unfolding all_known needs is_known is_accepted find same
apply-raises_example = apply-raises dangling empty

apply-refused_example : (apply dangling empty).0 ≡ empty
apply-refused_example = apply-refused dangling empty dangling_raises
