-- ===== src/Execution/Kill.antt =====
-- `kill_run` of apps/api/app/services/exec_service.py, and what stops the consumer.
use febal_automation_script.Prelude.{
  String, str_eq, eq_iff, eq_refl, Bool, true, false, ◌≡◌, refl, ◌∙◌, sym, List, [], ◌∷◌, ◌++◌,
  Option, none, some, contains, subst, All, When, WhenSome, WhenSome-some, ℕ, zero, suc, ◌+◌, ◌≤◌,
  arith, take, length, length-append, if◌then◌else◌, append-nil, append_assoc,
}
use febal_automation_script.Worker.Classifier.{aborted}
use febal_automation_script.Worker.Job.{Surroundings, Job, Done, TestResult, run_flow_job}
use febal_automation_script.Worker.Job.Rows.{IsRowOf, run_flow_job-IsRowOf, run_flow_job-aborted}
use febal_automation_script.Execution.Store.{World}
use febal_automation_script.Execution.{
  Json, Body, job, no_job, kill_run, in_world, recorded, on_body, after_job, consume, run_consumer,
}

-- A row of the run says that its flow was never attempted.
abbrev pub IsDrained : String → TestResult → Type 0
IsDrained run_id row =
    When (str_eq run_id row.run_id) ((row.verdict ≡ aborted) × (row.attempts ≡ 0))

-- The rows of a world and those that came after it.
abbrev pub Added : (TestResult → Type 0) → List TestResult → List TestResult → Type 0
Added P before after = (rows : List TestResult) × (after ≡ before ++ rows) × All P rows

Added-refl : (P : TestResult → Type 0) (l : List TestResult) → Added P l l
Added-refl P l = ([], sym (append-nil l), tt)

Added-cons :
    (P : TestResult → Type 0) (l m : List TestResult) (row : TestResult)
    → P row
    → Added P (l ++ row ∷ []) m
    → Added P l m
Added-cons P l m row p h = (row ∷ h.0, h.1 ∙ append_assoc l (row ∷ []) h.0, (p, h.2))

When-if : {P : Type 0} (b : Bool) → (b ≡ true → P) → When b P
When-if true f = f refl
When-if false f = tt

is_killed-in_world :
    (env : Surroundings) (flags : List String) (j : Job)
    → contains flags j.run_id ≡ true
    → (in_world env flags j).is_killed 1 ≡ true
unfolding in_world
is_killed-in_world env flags j h = rw h refl

-- The row of a job under the flags, if there is one, is drained when the run is flagged.
job-IsDrained :
    (run_id : String) (env : Surroundings) (flags : List String) (j : Job)
    → contains flags run_id ≡ true
    → (o : Option Done) → run_flow_job (in_world env flags j) j ≡ o
    → WhenSome (λ (d : Done). IsDrained run_id d.row) o
job-IsDrained run_id env flags j h none e = tt
job-IsDrained run_id env flags j h (some d) e = When-if (str_eq run_id d.row.run_id) (λ q.
    let about =
      WhenSome-some (λ (x : Done). IsRowOf j x.row) (run_flow_job (in_world env flags j) j)
        (run_flow_job-IsRowOf (in_world env flags j) j) d e in
    let (x, k, own, v, a) = run_flow_job-aborted (in_world env flags j) j (
      is_killed-in_world env flags j
        (subst (λ r. contains flags r ≡ true) ((eq_iff run_id d.row.run_id).0 q ∙ about.0) h)) in
    WhenSome-some (λ (y : Done). (y.row.verdict ≡ aborted) × (y.row.attempts ≡ 0)) (some x) (v, a) d
      (sym k ∙ e))

consume-IsDrained :
    (json : Json) (env : Job → Surroundings) (run_id : String) (l : List String) (w : World)
    → contains w.kill_flags run_id ≡ true
    → Added (IsDrained run_id) w.results (consume json env l w).0.results
unfolding consume on_body after_job
consume-IsDrained json env run_id [] w h = Added-refl (IsDrained run_id) w.results
consume-IsDrained json env run_id (m ∷ rest) w h =
    at_body (json.loads m) (consume-IsDrained json env run_id rest)
  where
    at_done :
        (o : Option Done)
        → WhenSome (λ (d : Done). IsDrained run_id d.row) o
        → ((v : World)
            → contains v.kill_flags run_id ≡ true
            → Added (IsDrained run_id) v.results (consume json env rest v).0.results)
        → Added
            (IsDrained run_id)
            w.results
            (if (after_job w m rest o).1
              then consume json env rest (after_job w m rest o).0
              else after_job w m rest o).0.results
    at_done none p again = Added-refl (IsDrained run_id) w.results
    at_done (some d) p again =
        Added-cons (IsDrained run_id) w.results _ d.row p
          (again (recorded (record w { queue = rest }) d.row) h)

    at_body :
        (o : Option Body)
        → ((v : World)
            → contains v.kill_flags run_id ≡ true
            → Added (IsDrained run_id) v.results (consume json env rest v).0.results)
        → Added
            (IsDrained run_id)
            w.results
            (if (on_body env w m rest o).1
              then consume json env rest (on_body env w m rest o).0
              else on_body env w m rest o).0.results
    at_body none again = again (record w { queue = rest }) h
    at_body (some no_job) again = Added-refl (IsDrained run_id) w.results
    at_body (some (job j)) again =
        at_done (run_flow_job (in_world (env j) w.kill_flags j) j)
          (job-IsDrained run_id (env j) w.kill_flags j h _ refl) again

-- A message leaves at most one row.
consume-length :
    (json : Json) (env : Job → Surroundings) (l : List String) (w : World)
    → length (consume json env l w).0.results ≤ length w.results + length l
unfolding consume on_body after_job
consume-length json env [] w = omega arith
consume-length json env (m ∷ rest) w = at_body (json.loads m) (consume-length json env rest)
  where
    at_done :
        (o : Option Done)
        → ((v : World)
            → length (consume json env rest v).0.results ≤ length v.results + length rest)
        → length
            (if (after_job w m rest o).1
              then consume json env rest (after_job w m rest o).0
              else after_job w m rest o).0.results
          ≤ length w.results + suc (length rest)
    at_done none again = omega arith
    at_done (some d) again = omega (
      arith,
      length-append w.results (d.row ∷ []),
      again (recorded (record w { queue = rest }) d.row),
    )

    at_body :
        (o : Option Body)
        → ((v : World)
            → length (consume json env rest v).0.results ≤ length v.results + length rest)
        → length
            (if (on_body env w m rest o).1
              then consume json env rest (on_body env w m rest o).0
              else on_body env w m rest o).0.results
          ≤ length w.results + suc (length rest)
    at_body none again = omega (arith, again (record w { queue = rest }))
    at_body (some no_job) again = omega arith
    at_body (some (job j)) again = at_done (run_flow_job (in_world (env j) w.kill_flags j) j) again

length-take : {A : Type 0} (n : ℕ) (xs : List A) → length (take n xs) ≤ n
length-take zero xs = omega arith
length-take (suc n) [] = omega arith
length-take (suc n) (x ∷ xs) = omega (arith, length-take n xs)

killed-IsDrained :
    (json : Json) (env : Job → Surroundings) (run_id : String) (has_broker : Bool) (unacked : ℕ)
    (l : List String) (w : World)
    → Added
        (IsDrained run_id)
        w.results
        (consume json env l (kill_run has_broker unacked run_id w)).0.results
unfolding kill_run
killed-IsDrained json env run_id true unacked l w =
    consume-IsDrained json env run_id l
      (record w { kill_flags = run_id ∷ w.kill_flags; queue = take unacked w.queue })
      (rw eq_refl refl)
killed-IsDrained json env run_id false unacked l w =
    consume-IsDrained json env run_id l (record w { kill_flags = run_id ∷ w.kill_flags })
      (rw eq_refl refl)

-- After a kill with a broker at most as many flows get a row as the consumer had messages that it had
-- not acked; and whatever messages are delivered later, with a broker or without, every row they
-- leave for that run says aborted, with no attempt.
pub kill_run-stops :
    (json : Json) (env : Job → Surroundings) (run_id : String) (has_broker : Bool) (unacked : ℕ)
    (l : List String) (w : World)
    → (length (run_consumer json env (kill_run true unacked run_id w)).0.results
        ≤ length w.results + unacked)
      × Added
          (IsDrained run_id)
          w.results
          (consume json env l (kill_run has_broker unacked run_id w)).0.results
unfolding kill_run run_consumer
kill_run-stops json env run_id has_broker unacked l w = (
  omega (
    arith,
    length-take unacked w.queue,
    consume-length json env (take unacked w.queue)
        (record w { kill_flags = run_id ∷ w.kill_flags; queue = take unacked w.queue }),
  ),
  killed-IsDrained json env run_id has_broker unacked l w,
)
