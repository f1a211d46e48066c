-- ===== src/Explorer/Converge/Stops.antt =====
-- When a run stops.
use febal_automation_script.Prelude.{
  ℕ, zero, suc, ◌+◌, ◌*◌, ◌≤◌, ◌<◌, String, ◌≡◌, ◌≢◌, refl, sym, ◌∙◌, subst, Option, none, some,
  List, [], ◌∷◌, arith, Dict, insert, count_at, count_at-add_at, length, All, str_eq, eq_refl,
  Bool-cases, inl, inr,
}
use febal_automation_script.Prelude.Texts.{Text}
use febal_automation_script.Explorer.Budget.{StopReason, ExploreBudget}
use febal_automation_script.Explorer.Converge.{
  ExplorerState, FrontierEntry, Lap, initial, before_converge, from_key, reason, advance, keep_or,
  converge, lap, explore, should_continue, loop, stop,
}
use febal_automation_script.Explorer.Converge.Ledger.{total, initial-IsCounted, explore-IsCounted}

-- The node sends the run back only below the caps, with the visits of the page at hand within the
-- revisits cap and with a frontier that is not empty.
reason-none :
    (b : ExploreBudget) (now : ℕ) (key : String) (s s' : ExplorerState)
    → reason b now key s s' ≡ none
    → (s'.step < b.steps_cap)
      × (s'.depth < b.depth_cap)
      × (count_at key s'.seen_keys ≤ b.revisits_cap)
      × (s.frontier ≢ [])
unfolding reason
reason-none b now key s s' h = (ground arith, ground arith, ground arith, ground arith)

-- The saturation window plays no part: a run stops as soon as its frontier is empty.
pub converge-window :
    (page_key : Text → String) (b : ExploreBudget) (now window : ℕ) (s : ExplorerState)
    → converge page_key (record b { saturation_window = window }) now s ≡ converge page_key b now s
unfolding converge
converge-window page_key b now window s = ground arith

abbrev pub AreWithin : ℕ → Dict ℕ → Type 0
AreWithin cap d = All (λ e. e.1 ≤ cap) d

AreWithin-insert :
    (cap : ℕ) (k : String) (v : ℕ) (d : Dict ℕ)
    → v ≤ cap
    → AreWithin cap d
    → AreWithin cap (insert k v d)
unfolding insert
AreWithin-insert cap k v [] h a = (h, tt)
AreWithin-insert cap k v ((j, n) ∷ d) h a = elim (Bool-cases (str_eq j k)) [
  | inl e ↦ rw e (h, a.1)
  | inr e ↦ rw e (a.0, AreWithin-insert cap k v d h a.1)
]

-- What a lap says that does not stop.
record HasGoneOn (b : ExploreBudget) (s s' : ExplorerState) : Type 0 where
  one_step : s'.step ≡ s.step + 1
  steps : s'.step < b.steps_cap
  depths : s'.depth < b.depth_cap
  visits : AreWithin b.revisits_cap s.seen_keys → AreWithin b.revisits_cap s'.seen_keys

advance-HasGoneOn :
    (b : ExploreBudget) (now : ℕ) (key : String) (s : ExplorerState)
    → reason b now key s (advance key s) ≡ none
    → HasGoneOn b s (advance key s)
unfolding advance
advance-HasGoneOn b now key s h =
    let (below, shallow, few, _) = reason-none b now key s (advance key s) h in
    record {
      one_step = refl;
      steps = below;
      depths = shallow;
      visits =
          AreWithin-insert b.revisits_cap key _ s.seen_keys
            (ground (arith, count_at-add_at key key 1 s.seen_keys, eq_refl key, few));
    }

keep_or-none : (a b : Option StopReason) → keep_or a b ≡ none → (a ≡ none) × (b ≡ none)
unfolding keep_or
keep_or-none none b h = (refl, h)
keep_or-none (some r) b h = cc

lap-HasGoneOn :
    (page_key : Text → String) (b : ExploreBudget) (l : Lap) (s : ExplorerState)
    → (lap page_key b l s).stop_reason ≡ none
    → HasGoneOn b s (lap page_key b l s)
unfolding lap converge
lap-HasGoneOn page_key b l s h = elim (Bool-cases l.cancelled) [
  | inl e ↦ absurd (cc (rw e at h))
  | inr e ↦ rw e (
      let t = before_converge l s in
      let key = from_key page_key t in
      let g = advance-HasGoneOn b l.now key t (keep_or-none _ _ (rw e at h)).1 in
      record { one_step = g.one_step; steps = g.steps; depths = g.depths; visits = g.visits })
]

-- What is known of a run that has not stopped after `fuel` laps.
record IsUnderWay (b : ExploreBudget) (fuel : ℕ) (s s' : ExplorerState) : Type 0 where
  steps : s'.step ≡ s.step + fuel
  still : fuel ≡ 0 → s' ≡ s
  below : 0 < fuel → s'.step < b.steps_cap
  shallow : 0 < fuel → s'.depth < b.depth_cap
  visits : AreWithin b.revisits_cap s.seen_keys → AreWithin b.revisits_cap s'.seen_keys

from_last :
    (P : ExplorerState → Type 0) (fuel : ℕ) (r s : ExplorerState)
    → (fuel ≡ 0 → r ≡ s)
    → (0 < fuel → P r)
    → P s
    → P r
from_last P zero r s still later p = subst P (sym (still refl)) p
from_last P (suc fuel) r s still later p = later (omega arith)

explore-IsUnderWay :
    (page_key : Text → String) (b : ExploreBudget) (laps : ℕ → Lap) (fuel n : ℕ) (s : ExplorerState)
    → (explore page_key b laps fuel n s).stop_reason ≡ none
    → IsUnderWay b fuel s (explore page_key b laps fuel n s)
unfolding explore should_continue
explore-IsUnderWay page_key b laps zero n s h = record {
  steps = omega arith;
  still = λ _. refl;
  below = λ p. absurd (omega arith);
  shallow = λ p. absurd (omega arith);
  visits = λ v. v;
}
explore-IsUnderWay page_key b laps (suc fuel) n s h =
    on s'.stop_reason refl h (explore-IsUnderWay page_key b laps fuel (suc n) s')
  where
    s' : ExplorerState
    s' = lap page_key b (laps n) s

    rest : ExplorerState
    rest = explore page_key b laps fuel (suc n) s'

    on :
        (r : Option StopReason)
        → s'.stop_reason ≡ r
        → (elim (should_continue r) as (λ _. ExplorerState) [ loop ↦ rest | stop ↦ s' ]).stop_reason
          ≡ none
        → (rest.stop_reason ≡ none → IsUnderWay b fuel s' rest)
        → IsUnderWay b
            (suc fuel)
            s
            (elim (should_continue r) as (λ _. ExplorerState) [ loop ↦ rest | stop ↦ s' ])
    on none e k ih =
        let g = lap-HasGoneOn page_key b (laps n) s e in
        let u = ih k in
        record {
          steps = omega (arith, u.steps, g.one_step);
          still = λ p. absurd (omega arith);
          below = λ _. from_last (λ x. x.step < b.steps_cap) fuel rest s' u.still u.below g.steps;
          shallow =
              λ _. from_last (λ x. x.depth < b.depth_cap) fuel rest s' u.still u.shallow g.depths;
          visits = λ v. u.visits (g.visits v);
        }
    on (some r) e k ih = absurd (cc (sym e ∙ k))

-- A run stops, whatever its pages, its model and its clock do: after as many laps as the step cap,
-- and one at least, `stop_reason` is set.
pub explore-stops :
    (page_key : Text → String) (b : ExploreBudget) (laps : ℕ → Lap) (fuel n : ℕ) (s : ExplorerState)
    → 0 < fuel
    → b.steps_cap ≤ s.step + fuel
    → (explore page_key b laps fuel n s).stop_reason ≢ none
explore-stops page_key b laps fuel n s some_lap enough h =
    let u = explore-IsUnderWay page_key b laps fuel n s h in
    absurd (omega (arith, u.steps, u.below some_lap))

total-le : (cap : ℕ) (d : Dict ℕ) → AreWithin cap d → total d ≤ cap * length d
total-le cap [] a = omega arith
total-le cap ((k, n) ∷ d) a = omega (arith, total-le cap d a.1)

-- The caps on depth and on revisits stop a run by themselves, however high the step cap is: while a
-- run from the initial state has not stopped, it has made at most `revisits_cap` steps for each of
-- fewer than `depth_cap` fingerprints.
pub explore-step_bound :
    (page_key : Text → String) (b : ExploreBudget) (laps : ℕ → Lap) (fuel : ℕ)
    (frontier : List FrontierEntry)
    → 0 < fuel
    → let s = explore page_key b laps fuel 0 (initial frontier) in
      s.stop_reason ≡ none → (s.step ≤ b.revisits_cap * s.depth) × (s.depth < b.depth_cap)
explore-step_bound page_key b laps fuel frontier some_lap h =
    let s = explore page_key b laps fuel 0 (initial frontier) in
    let u = explore-IsUnderWay page_key b laps fuel 0 (initial frontier) h in
    let c =
      explore-IsCounted page_key b laps fuel 0 (initial frontier) (initial-IsCounted frontier) in
    (
      rw (c.visits, c.distinct) (total-le b.revisits_cap s.seen_keys (u.visits tt)),
      u.shallow some_lap,
    )

-- A state that goes round once more has work to do: the frontier it leaves with is not empty.
pub converge-loops :
    (page_key : Text → String) (b : ExploreBudget) (now : ℕ) (s : ExplorerState)
    → let s' = converge page_key b now s in
      s'.stop_reason ≡ none
      → (s.stop_reason ≡ none)
        × (s.frontier ≢ [])
        × (s'.step < b.steps_cap)
        × (s'.depth < b.depth_cap)
unfolding converge
converge-loops page_key b now s h =
    let key = from_key page_key s in
    let (live, quiet) = keep_or-none s.stop_reason (reason b now key s (advance key s)) h in
    let (below, shallow, _, more) = reason-none b now key s (advance key s) quiet in
    (live, more, below, shallow)
