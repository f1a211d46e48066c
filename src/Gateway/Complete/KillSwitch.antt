-- ===== src/Gateway/Complete/KillSwitch.antt =====
-- The kill-switch, and what a refused call leaves alone.
use febal_automation_script.Prelude.{◌≡◌, refl, true, List, [], ◌∷◌}
use febal_automation_script.Gateway.State.{kill_switch_active, err, Request, World, Host, is_set}
use febal_automation_script.Gateway.Complete.{complete, complete_all, reason_of}

complete-killed :
    (h : Host) (w : World) (q : Request)
    → is_set w.killswitch ≡ true
    → complete h w q ≡ (err (kill_switch_active (reason_of w.killswitch)), w)
unfolding complete
complete-killed h w q k = rw k

-- While a reason is set, every call of a sequence is refused, one that the cache could serve too:
-- no round trip is made and nothing is written. (The second part is about one more call.)
pub complete_all-killed :
    (h : Host) (w : World) (qs : List Request) (q : Request)
    → is_set w.killswitch ≡ true
    → (complete_all h w qs ≡ w)
      × ((complete h (complete_all h w qs) q).0 ≡ err (kill_switch_active (reason_of w.killswitch)))
unfolding complete_all
complete_all-killed h w [] q k = (refl, rw (complete-killed h w q k))
complete_all-killed h w (p ∷ qs) q k = rw (complete-killed h w p k) (complete_all-killed h w qs q k)
