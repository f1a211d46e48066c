-- ===== src/Explorer/Converge/Ledger.antt =====
-- What the counters of a run count: `step` the visits and `depth` the distinct fingerprints.
use febal_automation_script.Prelude.{
  ℕ, zero, suc, ◌+◌, ◌≤◌, String, ◌≡◌, List, [], ◌∷◌, arith, Dict, lookup, insert, count_at, length,
  if◌then◌else◌, Bool-cases, inl, inr,
}
use febal_automation_script.Prelude.Texts.{Text}
use febal_automation_script.Explorer.Budget.{ExploreBudget}
use febal_automation_script.Explorer.Converge.{
  ExplorerState, Lap, FrontierEntry, initial, before_converge, from_key, is_new, advance, converge,
  lap, explore, should_continue, Edge, loop, stop,
}

-- All visits together.
abbrev pub total : Dict ℕ → ℕ
total [] = 0
total ((k, n) ∷ d) = n + total d

is_new_key : String → Dict ℕ → ℕ
unfolding is_new
is_new_key k d = if is_new (lookup k d) then 1 else 0

total-insert : (k : String) (v : ℕ) (d : Dict ℕ) → total (insert k v d) + count_at k d ≡ total d + v
unfolding insert lookup
total-insert k v [] = omega arith
total-insert k v ((j, n) ∷ d) = ground (arith, total-insert k v d)

length-insert :
    (k : String) (v : ℕ) (d : Dict ℕ) → length (insert k v d) ≡ length d + is_new_key k d
unfolding insert lookup is_new_key is_new
length-insert k v [] = omega arith
length-insert k v ((j, n) ∷ d) = ground (arith, length-insert k v d)

-- `step` is the number of visits, `depth` the number of fingerprints seen, and no counter of the
-- saturation passes the steps.
pub record IsCounted (s : ExplorerState) : Type 0 where
  pub visits : s.step ≡ total s.seen_keys
  pub distinct : s.depth ≡ length s.seen_keys
  pub since : s.steps_since_new ≤ s.step

pub initial-IsCounted : (frontier : List FrontierEntry) → IsCounted (initial frontier)
initial-IsCounted frontier = omega arith

advance-IsCounted : (key : String) (s : ExplorerState) → IsCounted s → IsCounted (advance key s)
unfolding advance is_new_key
advance-IsCounted key s c = ground (
  arith,
  total-insert key (count_at key s.seen_keys + 1) s.seen_keys,
  length-insert key (count_at key s.seen_keys + 1) s.seen_keys,
)

lap-IsCounted :
    (page_key : Text → String) (b : ExploreBudget) (l : Lap) (s : ExplorerState)
    → IsCounted s
    → IsCounted (lap page_key b l s)
unfolding lap converge
lap-IsCounted page_key b l s c = elim (Bool-cases l.cancelled) [
  | inl e ↦ rw e (record { visits = c.visits; distinct = c.distinct; since = c.since })
  | inr e ↦ rw e (
      let t = before_converge l s in
      let d : IsCounted t = record { visits = c.visits; distinct = c.distinct; since = c.since } in
      let a = advance-IsCounted (from_key page_key t) t d in
      record { visits = a.visits; distinct = a.distinct; since = a.since })
]

module _ (page_key : Text → String) (b : ExploreBudget) (laps : ℕ → Lap)
    (P : ExplorerState → Type 0)
    (kept : (l : Lap) (s : ExplorerState) → P s → P (lap page_key b l s)) where
  -- What every lap keeps, a run keeps.
  pub explore-keeps : (fuel n : ℕ) (s : ExplorerState) → P s → P (explore page_key b laps fuel n s)
  unfolding explore
  explore-keeps zero n s p = p
  explore-keeps (suc fuel) n s p =
      on (should_continue s'.stop_reason) (explore-keeps fuel (suc n) s' p')
    where
      s' : ExplorerState
      s' = lap page_key b (laps n) s

      p' : P s'
      p' = kept (laps n) s p

      on :
          (e : Edge)
          → P (explore page_key b laps fuel (suc n) s')
          → P (elim e as (λ _. ExplorerState) [
            | loop ↦ explore page_key b laps fuel (suc n) s'
            | stop ↦ s'
          ])
      on loop q = q
      on stop q = p'

-- In every run, at whatever lap it is looked at, the step counter is the number of visits in
-- `seen_keys`, the depth is the number of distinct fingerprints there, and the saturation counter
-- is at most the step counter.
pub explore-IsCounted :
    (page_key : Text → String) (b : ExploreBudget) (laps : ℕ → Lap) (fuel n : ℕ) (s : ExplorerState)
    → IsCounted s
    → IsCounted (explore page_key b laps fuel n s)
explore-IsCounted page_key b laps fuel n s =
    explore-keeps page_key b laps IsCounted (λ l t. lap-IsCounted page_key b l t) fuel n s
