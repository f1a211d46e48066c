-- ===== src/Execution/Stuck.antt =====
-- What stops the consumer of apps/api/app/services/worker/consumer.py for good.
use febal_automation_script.Prelude.{
  String, Bool, true, false, ◌||◌, ◌≡◌, refl, List, [], ◌∷◌, Option, none, some, any, if◌then◌else◌,
}
use febal_automation_script.Worker.Job.{Surroundings, Job, Done, run_flow_job}
use febal_automation_script.Execution.Store.{World}
use febal_automation_script.Execution.{
  Json, Body, job, no_job, in_world, recorded, on_body, after_job, consume, run_consumer,
}

-- A body that is JSON and has not the keys of a job.
abbrev pub is_poison : Option Body → Bool
is_poison none = false
is_poison (some no_job) = true
is_poison (some (job j)) = false

consume-stops :
    (json : Json) (env : Job → Surroundings) (l : List String) (w : World)
    → any (λ m. is_poison (json.loads m)) l ≡ true
    → (consume json env l w).1 ≡ false
unfolding consume on_body after_job
consume-stops json env [] w h = absurd cc
consume-stops json env (m ∷ rest) w h = at_body (json.loads m) h (consume-stops json env rest)
  where
    at_done :
        (o : Option Done)
        → ((v : World) → (consume json env rest v).1 ≡ false)
        → (if (after_job w m rest o).1
            then consume json env rest (after_job w m rest o).0
            else after_job w m rest o).1
          ≡ false
    at_done none again = refl
    at_done (some d) again = again (recorded (record w { queue = rest }) d.row)

    at_body :
        (o : Option Body)
        → (is_poison o || any (λ m. is_poison (json.loads m)) rest) ≡ true
        → ((v : World)
            → any (λ m. is_poison (json.loads m)) rest ≡ true
            → (consume json env rest v).1 ≡ false)
        → (if (on_body env w m rest o).1
            then consume json env rest (on_body env w m rest o).0
            else on_body env w m rest o).1
          ≡ false
    at_body none h again = again (record w { queue = rest }) h
    at_body (some no_job) h again = refl
    at_body (some (job j)) h again =
        at_done (run_flow_job (in_world (env j) w.kill_flags j) j) (λ v. again v h)

-- A consumer that starts where another one stopped stops there again.
abbrev StopsAgain : Json → (Job → Surroundings) → World × Bool → Type 0
StopsAgain json env (v, b) = b ≡ false → consume json env v.queue v ≡ (v, false)

consume-StopsAgain :
    (json : Json) (env : Job → Surroundings) (l : List String) (w : World)
    → StopsAgain json env (consume json env l w)
unfolding consume on_body after_job
consume-StopsAgain json env [] w h = absurd cc
consume-StopsAgain json env (m ∷ rest) w h =
    at_body (json.loads m) refl (consume-StopsAgain json env rest) h
  where
    at_done :
        (j : Job) (o : Option Done)
        → json.loads m ≡ some (job j)
        → run_flow_job (in_world (env j) w.kill_flags j) j ≡ o
        → ((v : World) → StopsAgain json env (consume json env rest v))
        → StopsAgain json env (
            if (after_job w m rest o).1
            then consume json env rest (after_job w m rest o).0
            else after_job w m rest o)
    at_done j none e k again h = rw e (rw k refl)
    at_done j (some d) e k again h = again (recorded (record w { queue = rest }) d.row) h

    at_body :
        (o : Option Body)
        → json.loads m ≡ o
        → ((v : World) → StopsAgain json env (consume json env rest v))
        → StopsAgain json env (
            if (on_body env w m rest o).1
            then consume json env rest (on_body env w m rest o).0
            else on_body env w m rest o)
    at_body none e again h = again (record w { queue = rest }) h
    at_body (some no_job) e again h = rw e refl
    at_body (some (job j)) e again h =
        at_done j (run_flow_job (in_world (env j) w.kill_flags j) j) e refl again h

-- A body in the queue that is JSON and has not the keys of a job ends the consumer, wherever it
-- stands; and a consumer that is started again ends at once, with the world as the first one left it.
pub run_consumer-stuck :
    (json : Json) (env : Job → Surroundings) (w : World)
    → any (λ m. is_poison (json.loads m)) w.queue ≡ true
    → let ended = run_consumer json env w in
      (ended.1 ≡ false) × (run_consumer json env ended.0 ≡ (ended.0, false))
unfolding run_consumer
run_consumer-stuck json env w h =
    let stopped = consume-stops json env w.queue w h in
    (stopped, consume-StopsAgain json env w.queue w stopped)
