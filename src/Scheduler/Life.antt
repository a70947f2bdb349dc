-- ===== src/Scheduler/Life.antt =====
-- The life of a run, from the trigger that starts it to its last row.
use local_book.Base.{
  Bool-cases, List, Option, Option-cases, String, [], ap, arith, false, if◌then◌else◌, inl, inr,
  none, ok, refl, some, ℕ, ◌++◌, ◌∙◌, ◌∷◌, ◌≡◌, nat_eq, string_eq, option_eq, list_eq,
}
use local_book.Scheduler.{Run, failed, get_run, recovery_required}
use local_book.Scheduler.Rows.{get_run-save_run, get_run-update_rows, get_run-update_status}
use local_book.Scheduler.Service.{
  Change, Outcome, Request, Service, begin_run, change_run, finalize, gate, has_run, is_timed_out,
  last_run, late, on_time, open_run, or_keep, outcome_or_unexpected, pipeline, pop_run, rows,
  running_row, slot, superseded, timeout_mark, update_rows, update_status,
}

-- The row that a started run begins with.
abbrev pub first_row : Request → Run
first_row q = running_row q.task q.trigger (slot q) q.now q.id

open_run-opened :
    (q : Request) (s : Service)
    → (open_run q s).0 ≡ ok (some q.id)
    → ((open_run q s).1.active_runs ≡ s.active_runs ++ ((q.id, q.task) ∷ []))
      × (get_run q.id (rows (open_run q s).1) ≡ some (first_row q))
unfolding open_run
open_run-opened q s h = ground (arith, get_run-save_run q.id (first_row q) (rows s))

active_runs-update_status :
    (id : ℕ) (c : Change) (s : Service) → (update_status id c s).active_runs ≡ s.active_runs
unfolding update_status
active_runs-update_status id c s = ground (arith, Option-cases s.history)

gate-opened :
    (q : Request) (last : Option Run) (s : Service)
    → (gate q last s).0 ≡ ok (some q.id)
    → ((gate q last s).1.active_runs ≡ s.active_runs ++ ((q.id, q.task) ∷ []))
      × (get_run q.id (rows (gate q last s).1) ≡ some (first_row q))
unfolding gate
gate-opened q none s h = ground (arith, get_run-save_run q.id (first_row q) (rows s))
gate-opened q (some last) s h = ground (
  arith,
  get_run-save_run q.id (first_row q) (rows s),
  get_run-save_run q.id (first_row q) (rows (update_status last.run_id superseded s)),
)

begin_run-opened :
    (q : Request) (s : Service)
    → (begin_run q s).0 ≡ ok (some q.id)
    → ((begin_run q s).1.active_runs ≡ s.active_runs ++ ((q.id, q.task) ∷ []))
      × (get_run q.id (rows (begin_run q s).1) ≡ some (first_row q))
unfolding begin_run
begin_run-opened q s h = ground (arith, gate-opened q (last_run q.task s) s)

pop_run_last :
    (id : ℕ) (t : String) (l : List (ℕ × String))
    → has_run id l ≡ false
    → pop_run id (l ++ ((id, t) ∷ [])) ≡ l
unfolding pop_run
pop_run_last id t [] h = ground arith
pop_run_last id t ((j, u) ∷ rest) h = ground (arith, pop_run_last id t rest)

-- The change that `finalize` makes to a row.
abbrev verdict_at : Outcome → ℕ → Run → Change
verdict_at o now r = if is_timed_out r.status then late o now else on_time o now

finished_at-verdict_at :
    (o : Outcome) (now : ℕ) (r : Run) → (change_run (verdict_at o now r) r).finished_at ≡ some now
finished_at-verdict_at o now r = elim (Bool-cases (is_timed_out r.status)) [
  | inl e ↦ rw e refl
  | inr e ↦ rw e refl
]

finalize_found :
    (id : ℕ) (o : Outcome) (now : ℕ) (u : Service) (r : Run)
    → get_run id (rows u) ≡ some r
    → finalize id o now u ≡ update_status id (verdict_at o now r) u
unfolding finalize
finalize_found id o now u r h = ground arith

update_status-some :
    (id : ℕ) (c : Change) (u : Service) (runs : List Run)
    → u.history ≡ some runs
    → update_status id c u ≡ record u { history = some (update_rows id c runs) }
unfolding update_status
update_status-some id c u runs e = ground arith

module _ (cleanup : List Run → List Run) (q : Request) (s : Service) where
  -- The state in which the pipeline of the run has ended.
  abbrev pub ended : Option Outcome → ℕ → Service → Service
  ended body now u = pipeline cleanup q.id body now u

  -- The cleanup keeps the row of the run if that has its end at an instant.
  abbrev pub Keeps : ℕ → Type 0
  Keeps now =
      (l : List Run) (r : Run)
      → get_run q.id l ≡ some r
      → r.finished_at ≡ some now
      → get_run q.id (cleanup l) ≡ some r

  get_run-pipeline :
      (body : Option Outcome) (now : ℕ) (u : Service) (r : Run)
      → Keeps now
      → get_run q.id (rows u) ≡ some r
      → (get_run q.id (rows (ended body now u))
          ≡ some (
              change_run
                (if is_timed_out r.status
                  then late (outcome_or_unexpected body) now
                  else on_time (outcome_or_unexpected body) now)
                r))
        × ((ended body now u).active_runs ≡ pop_run q.id u.active_runs)
  unfolding pipeline get_run
  get_run-pipeline body now u r kept h = elim (Option-cases u.history) [
    | inl e ↦ ground arith
    | inr (runs, e) ↦
        let c = verdict_at (outcome_or_unexpected body) now r in
        rw (finalize_found q.id (outcome_or_unexpected body) now u r h) (
          rw (update_status-some q.id c u runs e) (
              kept (update_rows q.id c runs) (change_run c r)
                (get_run-update_rows q.id q.id c runs ∙ ground arith)
                (finished_at-verdict_at (outcome_or_unexpected body) now r)),
          ap (pop_run q.id) (active_runs-update_status q.id c u),
        )
  ]

  -- What a run reports: what its body hands back, or a failure where the body has raised.
  abbrev pub reported : Option Outcome → Outcome
  reported (some o) = o
  reported none = record {
    status = failed;
    agent_job_id = none;
    error_code = some "scheduler_unavailable";
    message = some "an unexpected scheduler error occurred (details logged)";
  }

  -- The row of the run, as the trigger has begun it, with what it reports and its end.
  abbrev pub closed_row : Outcome → ℕ → Run
  closed_row o now = record {
    run_id = q.id;
    task = q.task;
    trigger = q.trigger;
    idempotency_key = (first_row q).idempotency_key;
    status = o.status;
    agent_job_id = o.agent_job_id;
    scheduled_for = (first_row q).scheduled_for;
    started_at = q.now;
    finished_at = some now;
    error_code = o.error_code;
    message = o.message;
    created_at = q.now;
  }

  -- The report of a run whose body has ended after the run was marked as timed out.
  abbrev pub too_late : Outcome → Outcome
  too_late o = record {
    status = recovery_required;
    agent_job_id = o.agent_job_id;
    error_code = some "job_timeout";
    message = some "job finished after the timeout mark; verify state";
  }

  reported-outcome_or_unexpected :
      (body : Option Outcome) → outcome_or_unexpected body ≡ reported body
  reported-outcome_or_unexpected none = refl
  reported-outcome_or_unexpected (some o) = refl

  or_keep-none : {A : Type 0} (o : Option A) → or_keep o none ≡ o
  or_keep-none none = refl
  or_keep-none (some a) = refl

  change_run-closed :
      (o : Outcome) (now : ℕ) → change_run (on_time o now) (first_row q) ≡ closed_row o now
  change_run-closed o now =
      rw (or_keep-none o.agent_job_id, or_keep-none o.error_code, or_keep-none o.message) refl

  change_run-late :
      (o : Outcome) (marked now : ℕ)
      → change_run (late o now) (change_run (timeout_mark marked) (first_row q))
        ≡ closed_row (too_late o) now
  change_run-late o marked now = rw (or_keep-none o.agent_job_id) refl

  -- A run that a trigger starts, that is not yet among the active ones, and to which nothing
  -- happens until its body is done, ends as its body says, or as failed where the body raised: if
  -- the cleanup keeps a row that ends at this instant, the row of the run then has the status, the
  -- code, the message and the job that are reported and this instant as its end, and the active
  -- runs are what they were before the trigger.
  pub run_lifecycle :
      (body : Option Outcome) (now : ℕ)
      → (begin_run q s).0 ≡ ok (some q.id)
      → has_run q.id s.active_runs ≡ false
      → Keeps now
      → (get_run q.id (rows (ended body now (begin_run q s).1))
          ≡ some (closed_row (reported body) now))
        × ((ended body now (begin_run q s).1).active_runs ≡ s.active_runs)
  run_lifecycle body now h new kept =
      let (listed, there) = begin_run-opened q s h in
      let (row, popped) = get_run-pipeline body now (begin_run q s).1 (first_row q) kept there in
      (
        row
            ∙ ap some (
                change_run-closed (outcome_or_unexpected body) now
                ∙ ap (λ o. closed_row o now) (reported-outcome_or_unexpected body)),
        popped ∙ ap (pop_run q.id) listed ∙ pop_run_last q.id q.task s.active_runs new,
      )

  -- A run that a trigger starts, that is then marked as timed out, and to which nothing else happens
  -- until its body is done, is to be recovered, whatever the body reports: if the cleanup keeps a
  -- row that ends at this instant, the row of the run then has the status `recovery_required`, the
  -- code `job_timeout`, the job that is reported, and this instant as its end.
  pub late_run :
      (body : Option Outcome) (marked now : ℕ)
      → (begin_run q s).0 ≡ ok (some q.id)
      → Keeps now
      → get_run q.id
          (rows (ended body now (update_status q.id (timeout_mark marked) (begin_run q s).1)))
        ≡ some (closed_row (too_late (reported body)) now)
  late_run body marked now h kept =
      let (listed, there) = begin_run-opened q s h in
      (get_run-pipeline body now (update_status q.id (timeout_mark marked) (begin_run q s).1)
        (change_run (timeout_mark marked) (first_row q)) kept
        (get_run-update_status q.id q.id (timeout_mark marked) (begin_run q s).1
          ∙ rw there (ground arith))).0
      ∙ ap some (
          change_run-late (outcome_or_unexpected body) marked now
          ∙ ap (λ o. closed_row (too_late o) now) (reported-outcome_or_unexpected body))
