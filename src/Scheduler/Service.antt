-- ===== src/Scheduler/Service.antt =====
-- The run gate, the run pipeline, the watchdog and the life cycle of
-- server/scheduler/service.py. The clock is read once in each call, as `now`, and the UUID that a
-- call may draw is its argument `id`.
use local_book.Base.{
  Bool, List, Option, Result, String, [], any, eqb, err, false, if◌then◌else◌, ltb, none, not, ok,
  some, true, ℕ, ◌&&◌, ◌++◌, ◌+◌, ◌-◌, ◌==◌, ◌||◌, ◌∷◌, nat_eq, string_eq, option_eq, list_eq,
}
use local_book.Scheduler.{
  Run, RunStatus, Trigger, active, failed, get_run, is_manual, page_runs, recovery,
  recovery_required, running, runs_with_status, save_run, scheduled, skipped_duplicate, timed_out,
}

-- The exceptions of server/scheduler/errors.py that these calls raise.
pub data SchedulerError : Type 0 where
  unknown_task scheduler_disabled scheduler_unavailable job_in_progress : SchedulerError
  recovery_needed : SchedulerError

-- The fields of `SchedulerService` that its calls read and write. `active_runs` is a dict from
-- run ids to tasks; the rows are those of the history, if there is one.
pub record Service : Type 0 where
  pub enabled : Bool
  pub started : Bool
  pub reconfiguring : Bool
  pub stale_after : ℕ
  pub job_timeout : ℕ
  pub active_runs : List (ℕ × String)
  pub history : Option (List Run)

-- What a method returns or raises, with the state that it leaves.
abbrev pub Exec : Type 0 → Type 0
Exec A = Service → Result SchedulerError A × Service

module _ {A B : Type 0} where
  abbrev pub continue : Result SchedulerError A → (A → Exec B) → Exec B
  continue (ok a) f s = f a s
  continue (err e) f s = (err e, s)

  infixl 5 ◌>>=◌ ◌>>◌
  abbrev pub ◌>>=◌ : Exec A → (A → Exec B) → Exec B
  ◌>>=◌ m f s = let (r, s') = m s in continue r f s'

  abbrev pub ◌>>◌ : Exec A → Exec B → Exec B
  m >> k = m >>= λ _. k

abbrev pub pure : {A : Type 0} → A → Exec A
pure a s = (ok a, s)

abbrev pub throw : {A : Type 0} → SchedulerError → Exec A
throw e s = (err e, s)

abbrev pub rows : Service → List Run
rows s = elim s.history [ none ↦ [] | some runs ↦ runs ]

-- `_save_run`
unfoldable pub store_run : Run → Exec (Unit {0})
store_run row s = elim s.history [
  | none ↦ (err scheduler_unavailable, s)
  | some runs ↦ (ok tt, record s { history = some (save_run row runs) })
]

-- The optional arguments of `_update_status`: `None` keeps the column.
abbrev pub or_keep : {A : Type 0} → Option A → Option A → Option A
or_keep none old = old
or_keep (some a) old = some a

pub record Change : Type 0 where
  pub status : RunStatus
  pub agent_job_id : Option String
  pub error_code : Option String
  pub message : Option String
  pub finished_at : Option ℕ

abbrev pub change_run : Change → Run → Run
change_run c r = record r {
  status = c.status;
  agent_job_id = or_keep c.agent_job_id r.agent_job_id;
  finished_at = or_keep c.finished_at r.finished_at;
  error_code = or_keep c.error_code r.error_code;
  message = or_keep c.message r.message;
}

-- `_update_status`, on the rows.
unfoldable pub update_rows : ℕ → Change → List Run → List Run
update_rows id c runs = elim (get_run id runs) [
  | none ↦ runs
  | some current ↦ save_run (change_run c current) runs
]

unfoldable pub update_status : ℕ → Change → Service → Service
unfolding update_rows
update_status id c s = elim s.history [
  | none ↦ s
  | some runs ↦ record s { history = some (update_rows id c runs) }
]

-- `_last_run`
abbrev pub first_run : List Run → Option Run
first_run [] = none
first_run (r ∷ rest) = some r

unfoldable pub last_run : String → Service → Option Run
last_run task s = first_run (page_runs 1 0 task (rows s))

-- `_write_skip`; both callers pass the status `skipped_duplicate`.
abbrev pub skip_row : String → Trigger → String → String → (scheduled_for now id : ℕ) → Run
skip_row task trigger code message scheduled_for now id = record {
  run_id = id;
  task = task;
  trigger = trigger;
  idempotency_key = (task, scheduled_for);
  status = skipped_duplicate;
  agent_job_id = none;
  scheduled_for = some scheduled_for;
  started_at = now;
  finished_at = some now;
  error_code = some code;
  message = some message;
  created_at = now;
}

abbrev pub running_row : String → Trigger → (scheduled_for now id : ℕ) → Run
running_row task trigger scheduled_for now id = record {
  run_id = id;
  task = task;
  trigger = trigger;
  idempotency_key = (task, scheduled_for);
  status = running;
  agent_job_id = none;
  scheduled_for = some scheduled_for;
  started_at = now;
  finished_at = none;
  error_code = none;
  message = none;
  created_at = now;
}

-- The arguments of `_begin_run`, with what the call reads from the clock and from `uuid4`.
pub record Request : Type 0 where
  pub task : String
  pub trigger : Trigger
  pub scheduled_for : Option ℕ
  pub bypass_recovery : Bool
  pub now : ℕ
  pub id : ℕ

abbrev pub slot : Request → ℕ
slot q = elim q.scheduled_for [ none ↦ q.now | some t ↦ t ]

abbrev pub known_task : String → Bool
known_task task =
    task == "daily_organizer" || task == "weekly_review" || task == "index_consistency"

-- A trigger that may not run: the skip row, then an error for a manual one and `None` for another.
unfoldable pub skip : Request → String → String → SchedulerError → Exec (Option ℕ)
unfolding store_run
skip q code message e = do
  store_run (skip_row q.task q.trigger code message (slot q) q.now q.id)
  if is_manual q.trigger then throw e else pure none

-- The end of `_begin_run_unlocked`: the new row, and its place in `_active_runs`.
unfoldable pub open_run : Request → Exec (Option ℕ)
unfolding store_run
open_run q = do
  store_run (running_row q.task q.trigger (slot q) q.now q.id)
  λ s. (ok (some q.id), record s { active_runs = s.active_runs ++ ((q.id, q.task) ∷ []) })

abbrev pub superseded : Change
superseded = record {
  status = recovery_required;
  agent_job_id = none;
  error_code = some "process_interrupted";
  message = some "stale run superseded at startup/trigger";
  finished_at = none;
}

-- The test of the last run of the task.
unfoldable pub gate : Request → Option Run → Exec (Option ℕ)
unfolding skip open_run update_status
gate q none s = open_run q s
gate q (some last) s =
    if recovery last.status
    then (if is_manual q.trigger && q.bypass_recovery
        then open_run q s
        else skip q "recovery_required" "previous run needs explicit recovery" recovery_needed s)
    else if active last.status
    then (if ltb s.stale_after (q.now - last.started_at)
        then open_run q (update_status last.run_id superseded s)
        else skip q "duplicate_run" "the task already has an active run" job_in_progress s)
    else open_run q s

-- `_begin_run_unlocked`
unfoldable pub begin_run_unlocked : Request → Exec (Option ℕ)
unfolding gate last_run
begin_run_unlocked q s =
    if not (known_task q.task)
    then (err unknown_task, s)
    else if not s.enabled
    then (err scheduler_disabled, s)
    else if not s.started
    then (err scheduler_unavailable, s)
    else gate q (last_run q.task s) s

abbrev pub is_scheduled : Trigger → Bool
is_scheduled scheduled = true
is_scheduled _ = false

-- `_begin_run`
unfoldable pub begin_run : Request → Exec (Option ℕ)
unfolding begin_run_unlocked
begin_run q s =
    if s.reconfiguring
    then (if is_scheduled q.trigger then (ok none, s) else (err scheduler_unavailable, s))
    else begin_run_unlocked q s

abbrev pub nonempty_runs : List (ℕ × String) → Bool
nonempty_runs [] = false
nonempty_runs (r ∷ rest) = true

-- `pause_for_reconfigure`. Nothing ever acquires the `TaskLocks`, so their snapshot is empty.
unfoldable pub pause_for_reconfigure : Service → Bool × Service
pause_for_reconfigure s =
    if nonempty_runs s.active_runs then (false, s) else (true, record s { reconfiguring = true })

-- `resume_after_reconfigure`
unfoldable pub resume_after_reconfigure : Service → Service
resume_after_reconfigure s = record s { reconfiguring = false }

-- What the run body hands back: `RunOutcome`, as far as the service persists it.
pub record Outcome : Type 0 where
  pub status : RunStatus
  pub agent_job_id : Option String
  pub error_code : Option String
  pub message : Option String

-- `_finalize`
abbrev pub late : Outcome → ℕ → Change
late o now = record {
  status = recovery_required;
  agent_job_id = o.agent_job_id;
  error_code = some "job_timeout";
  message = some "job finished after the timeout mark; verify state";
  finished_at = some now;
}

abbrev pub on_time : Outcome → ℕ → Change
on_time o now = record {
  status = o.status;
  agent_job_id = o.agent_job_id;
  error_code = o.error_code;
  message = o.message;
  finished_at = some now;
}

abbrev pub is_timed_out : RunStatus → Bool
is_timed_out timed_out = true
is_timed_out _ = false

unfoldable pub finalize : ℕ → Outcome → ℕ → Service → Service
unfolding update_status
finalize id o now s = elim (get_run id (rows s)) [
  | none ↦ s
  | some current ↦
      update_status id (if is_timed_out current.status then late o now else on_time o now) s
]

unfoldable pub pop_run : ℕ → List (ℕ × String) → List (ℕ × String)
pop_run id [] = []
pop_run id ((j, t) ∷ rest) = if eqb j id then rest else (j, t) ∷ pop_run id rest

-- What the pipeline records where the run body raises.
abbrev pub unexpected : Outcome
unexpected = record {
  status = failed;
  agent_job_id = none;
  error_code = some "scheduler_unavailable";
  message = some "an unexpected scheduler error occurred (details logged)";
}

abbrev pub outcome_or_unexpected : Option Outcome → Outcome
outcome_or_unexpected none = unexpected
outcome_or_unexpected (some o) = o

-- `_pipeline`, from where the run body is done: `none` is a raise. `cleanup` is what
-- `cleanup.run_if_due` does to the rows.
module _ (cleanup : List Run → List Run) where
  unfoldable pub pipeline : ℕ → Option Outcome → ℕ → Service → Service
  unfolding finalize pop_run
  pipeline id body now s =
      let s' = finalize id (outcome_or_unexpected body) now s in
      record s' {
        active_runs = pop_run id s'.active_runs;
        history = elim s'.history [ none ↦ none | some runs ↦ some (cleanup runs) ];
      }

-- `_mark_timed_out`
abbrev pub timeout_mark : ℕ → Change
timeout_mark now = record {
  status = timed_out;
  agent_job_id = none;
  error_code = some "job_timeout";
  message = some "exceeded the job timeout";
  finished_at = some now;
}

abbrev pub abandoned : ℕ → Change
abandoned now = record {
  status = recovery_required;
  agent_job_id = none;
  error_code = some "process_interrupted";
  message = some "abandoned running run flagged by watchdog";
  finished_at = some now;
}

abbrev pub has_run : ℕ → List (ℕ × String) → Bool
has_run id = any (λ (j, t). eqb j id)

-- The change that the watchdog makes to a row, if any.
unfoldable pub verdict : Service → ℕ → Run → Option Change
verdict s now r =
    let alive = has_run r.run_id s.active_runs in
    let age = now - r.started_at in
    if not alive && ltb s.stale_after age
    then some (abandoned now)
    else if alive && ltb s.job_timeout age
    then some (timeout_mark now)
    else none

unfoldable pub watch : ℕ → List Run → Service → Service
unfolding update_status
watch now [] s = s
watch now (r ∷ rest) s =
    watch now rest (elim (verdict s now r) [ none ↦ s | some c ↦ update_status r.run_id c s ])

-- `_watchdog_pass`
unfoldable pub watchdog_pass : ℕ → Service → Service
unfolding watch verdict
watchdog_pass now s = watch now (runs_with_status active (rows s)) s

abbrev pub interrupted : ℕ → Change
interrupted now = record {
  status = recovery_required;
  agent_job_id = none;
  error_code = some "process_interrupted";
  message = some "scheduler shut down while the run was active";
  finished_at = some now;
}

abbrev pub is_active_row : Option Run → Bool
is_active_row none = false
is_active_row (some r) = active r.status

-- The loop of `_mark_interrupted_after_shutdown`, with the count `marked`.
unfoldable pub mark_each : ℕ → List (ℕ × String) → ℕ → Service → ℕ × Service
unfolding update_status
mark_each now [] marked s = (marked, s)
mark_each now ((id, task) ∷ rest) marked s =
    let hit = is_active_row (get_run id (rows s)) in
    mark_each now rest (if hit then marked + 1 else marked)
      (if hit then update_status id (interrupted now) s else s)

-- `_mark_interrupted_after_shutdown`
unfoldable pub mark_interrupted : ℕ → Service → ℕ × Service
unfolding mark_each
mark_interrupted now s = mark_each now s.active_runs 0 (record s { active_runs = [] })

-- `stop`, with no grace period left: the backend and the worker loop are threads outside.
unfoldable pub stop : ℕ → Service → Service
unfolding mark_interrupted
stop now s = if s.started then (mark_interrupted now (record s { started = false })).1 else s
