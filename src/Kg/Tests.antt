-- ===== src/Kg/Tests.antt =====
-- A site of three pages whose last leads back to the first, and the risk of its flows.
use febal_automation_script.Kg.Flows.Coverage.{mine_flows-covers}
use febal_automation_script.Prelude.{
  any, length, here, ◌<◌, String, ◌≡◌, refl, true, false, [], ◌∷◌, map, arith, lookup,
}
use febal_automation_script.Prelude.Texts.{codes, is_part}
use febal_automation_script.Prelude.Int.{◌+ℤ◌, ◌*ℤ◌}
use febal_automation_script.Explorer.Risk.{is_destructive}
use febal_automation_script.Kg.Risk.{Signals, default_weights, risk_score, risk_tier, high}
use febal_automation_script.Kg.Flows.{
  Edge, Node, Graph, navigates_to, submits, mine_flows, extract_signals, entry_pages, emit,
  and_then, each, walk, flow_of, same_set,
}
use febal_automation_script.Kg.Flows.Paths.{Trail, entry, hop, IsMined, mine_flows-IsMined}

abbrev edge : String → String → Edge
edge a b = record { from = a; to = b; edge_type = navigates_to; via = [] }

abbrev page : String → Node
page label = record { label = codes label; auth_gated = false; form = true }

abbrev site : Graph
site = record {
  nodes = ("home", page "Home") ∷ ("list", page "List") ∷ ("cart", page "Checkout now") ∷ [];
  edges =
      edge "home" "list"
      ∷ record (edge "list" "cart") { edge_type = submits }
      ∷ edge "cart" "list"
      ∷ [];
}

mined :
    map (λ f. f.node_fps) (mine_flows site).flows
    ≡ ("home" ∷ []) ∷ ("home" ∷ "list" ∷ []) ∷ ("home" ∷ "list" ∷ "cart" ∷ []) ∷ []
unfolding mine_flows entry_pages emit and_then each walk
mined = refl

home_to_list : Trail site ("home" ∷ "list" ∷ []) (edge "home" "list" ∷ []) "list"
unfolding entry_pages
home_to_list =
    hop ("home" ∷ []) [] "home" (edge "home" "list") (entry "home" (here refl)) (here refl) refl
      refl

few_flows : length (mine_flows site).flows < 200
unfolding mine_flows entry_pages emit and_then each walk
few_flows = omega arith

mine_flows-covers_example :
    any (λ f. same_set ("home" ∷ "list" ∷ []) f.node_fps) (mine_flows site).flows ≡ true
mine_flows-covers_example =
    mine_flows-covers site ("home" ∷ "list" ∷ []) (edge "home" "list" ∷ []) "list" home_to_list
      (omega arith) few_flows

mine_flows-IsMined_example : IsMined site (mine_flows site)
mine_flows-IsMined_example = mine_flows-IsMined site

abbrev signals : Signals
signals = record {
  has_destructive = true;
  state_change_edges = 1;
  auth_gated_steps = 0;
  form_count = 3;
  path_length = 3;
}

signals_of_cart :
    extract_signals
      (flow_of
        ("home" ∷ "list" ∷ "cart" ∷ [])
        (edge "home" "list" ∷ record (edge "list" "cart") { edge_type = submits } ∷ []))
      site
    ≡ signals
unfolding extract_signals lookup is_destructive is_part
signals_of_cart = refl

cart_is_high : risk_tier (risk_score signals default_weights) ≡ high
unfolding risk_score risk_tier ◌+ℤ◌ ◌*ℤ◌
cart_is_high = refl
