-- ===== src/Scheduler.antt =====
-- The scheduler: the run rows of server/scheduler/models.py and the store that keeps them, the
-- in-memory mirror of server/history/service.py. An instant is a number of microseconds, and a
-- UUID is its 128-bit number: ISO strings in UTC and UUID strings are ordered as these are.
pub mod Service
pub mod Cron
pub mod Slots
pub mod NextFire
pub mod Fields
pub mod Runner
pub mod Rows
pub mod Gate
pub mod Watchdog
pub mod Lifecycle
pub mod Execution
pub mod Life
use local_book.Base.{
  Bool, List, Option, String, [], drop, eqb, false, if◌then◌else◌, leb, ltb, max, min, none, some,
  take, true, ℕ, ◌&&◌, ◌==◌, ◌||◌, ◌∷◌, nat_eq, string_eq, option_eq, list_eq,
}

-- `SchedulerRunStatus`
pub data RunStatus : Type 0 where
  queued running previewed committed skipped_duplicate failed timed_out recovery_required :
      RunStatus

-- `SchedulerRunStatus.finished`, `active` and `recovery`
abbrev pub finished : RunStatus → Bool
finished previewed = true
finished committed = true
finished skipped_duplicate = true
finished failed = true
finished timed_out = true
finished _ = false

abbrev pub active : RunStatus → Bool
active queued = true
active running = true
active _ = false

abbrev pub recovery : RunStatus → Bool
recovery recovery_required = true
recovery _ = false

-- `TRIGGER_KINDS`
pub data Trigger : Type 0 where
  scheduled manual startup : Trigger

abbrev pub is_manual : Trigger → Bool
is_manual manual = true
is_manual _ = false

-- A row of `scheduler_runs`. The idempotency key is kept as the pair that it is printed from.
pub record Run : Type 0 where
  pub run_id : ℕ
  pub task : String
  pub trigger : Trigger
  pub idempotency_key : String × ℕ
  pub status : RunStatus
  pub agent_job_id : Option String
  pub scheduled_for : Option ℕ
  pub started_at : ℕ
  pub finished_at : Option ℕ
  pub error_code : Option String
  pub message : Option String
  pub created_at : ℕ

-- `save_run`: a dict under `run_id`, in insertion order.
unfoldable pub save_run : Run → List Run → List Run
save_run row [] = row ∷ []
save_run row (r ∷ rest) = if eqb r.run_id row.run_id then row ∷ rest else r ∷ save_run row rest

-- `get_run`
unfoldable pub get_run : ℕ → List Run → Option Run
get_run id [] = none
get_run id (r ∷ rest) = if eqb r.run_id id then some r else get_run id rest

-- The sort of `page_runs`: later starts first, and larger ids first among equal starts.
abbrev pub precedes : Run → Run → Bool
precedes a b =
    ltb b.started_at a.started_at || eqb a.started_at b.started_at && leb b.run_id a.run_id

unfoldable pub insert_run : Run → List Run → List Run
insert_run x [] = x ∷ []
insert_run x (y ∷ rest) = if precedes x y then x ∷ y ∷ rest else y ∷ insert_run x rest

unfoldable pub sort_runs : List Run → List Run
unfolding insert_run
sort_runs [] = []
sort_runs (r ∷ rest) = insert_run r (sort_runs rest)

unfoldable pub keep_runs : (Run → Bool) → List Run → List Run
keep_runs test [] = []
keep_runs test (r ∷ rest) = let kept = keep_runs test rest in if test r then r ∷ kept else kept

-- The rows of one page of `page_runs` for a task.
unfoldable pub page_runs : (limit offset : ℕ) → String → List Run → List Run
unfolding sort_runs keep_runs
page_runs limit offset task runs =
    take (max 1 (min limit 100)) (drop offset (sort_runs (keep_runs (λ r. r.task == task) runs)))

-- The sort of `runs_with_status`: earlier starts first, stable.
unfoldable pub insert_by_start : Run → List Run → List Run
insert_by_start x [] = x ∷ []
insert_by_start x (y ∷ rest) =
    if leb x.started_at y.started_at then x ∷ y ∷ rest else y ∷ insert_by_start x rest

unfoldable pub sort_by_start : List Run → List Run
unfolding insert_by_start
sort_by_start [] = []
sort_by_start (r ∷ rest) = insert_by_start r (sort_by_start rest)

-- `runs_with_status`
unfoldable pub runs_with_status : (RunStatus → Bool) → List Run → List Run
unfolding sort_by_start keep_runs
runs_with_status wanted runs = sort_by_start (keep_runs (λ r. wanted r.status) runs)
