-- ===== src/Tests/Schedules.antt =====
-- A service with one task under way, and a job runner over services that always succeed.
use mathlib.Core.Option
use local_book.Base.{
  List, [], arith, contains, false, none, ok, refl, some, true, ℕ, ◌+◌, ◌↔◌, ◌∷◌, ◌≡◌, ◌⊎◌, nat_eq,
  string_eq, option_eq, list_eq,
}
use local_book.Actions.{action_eq, add_tags, value}
use local_book.Scheduler.{Run, committed, failed, get_run, page_runs, previewed, scheduled}
use local_book.Scheduler.Service.{
  Outcome, Request, Service, begin_run, has_run, last_run, pause_for_reconfigure,
  resume_after_reconfigure, rows, running_row, stop, timeout_mark, update_status, watchdog_pass,
}
use local_book.Scheduler.Gate.{IsOpen, begin_run-refused, begin_run-starts_iff, gate_forgets}
use local_book.Scheduler.Watchdog.{judged, watchdog_pass-judged}
use local_book.Scheduler.Lifecycle.{blocked_result, flag_if, pause_blocks, stop-flags}
use local_book.Scheduler.Life.{closed_row, ended, late_run, run_lifecycle, too_late}
use local_book.Scheduler.Runner.{Detail, JobRunner, Services, make_runner, run_agent_task}
use local_book.Scheduler.Execution.{
  IsConsented, run_agent_task-IsConsented, run_agent_task-declined,
}

abbrev under_way : Run
under_way = running_row "daily_organizer" scheduled 10 10 1

abbrev service : Service
service = record {
  enabled = true;
  started = true;
  reconfiguring = false;
  stale_after = 100;
  job_timeout = 50;
  active_runs = (1, "daily_organizer") ∷ [];
  history = some (under_way ∷ []);
}

abbrev idle : Service
idle = record service { active_runs = []; history = some [] }

abbrev trigger_at : ℕ → ℕ → Request
trigger_at now id = record {
  task = "daily_organizer";
  trigger = scheduled;
  scheduled_for = none;
  bypass_recovery = false;
  now = now;
  id = id;
}

abbrev keep_all : List Run → List Run
keep_all runs = runs

abbrev done : Outcome
done = record { status = committed; agent_job_id = some "job"; error_code = none; message = none }

begin_run-starts_iff_example :
    ((begin_run (trigger_at 20 2) idle).0 ≡ ok (some 2))
    ↔ (((trigger_at 20 2).id ≡ (trigger_at 20 2).id) × IsOpen (trigger_at 20 2) idle)
begin_run-starts_iff_example = begin_run-starts_iff (trigger_at 20 2) idle 2

duplicate : (begin_run (trigger_at 20 2) service).0 ≡ ok none
unfolding begin_run last_run page_runs
duplicate = refl

begin_run-refused_example :
    ((begin_run (trigger_at 20 2) service).1.active_runs ≡ service.active_runs)
    × (get_run 1 (rows (begin_run (trigger_at 20 2) service).1) ≡ get_run 1 (rows service))
begin_run-refused_example =
    begin_run-refused (trigger_at 20 2) service 1 (omega arith) (λ e. cc (e, duplicate))

gate_forgets_example :
    ((begin_run (trigger_at 20 2) service).0 ≡ ok none)
    × ((begin_run (trigger_at 30 3) (begin_run (trigger_at 20 2) service).1).0 ≡ ok (some 3))
    × (get_run 1 (rows (begin_run (trigger_at 20 2) service).1) ≡ some under_way)
unfolding get_run last_run page_runs
gate_forgets_example =
    gate_forgets (trigger_at 20 2) (trigger_at 30 3) service (under_way ∷ []) under_way refl refl
      refl record { settled = refl; enabled = refl; started = refl; history = refl }
      record { last = refl; running = refl; not_stale = omega arith } refl refl (omega arith, tt)

watchdog_pass-judged_example :
    get_run 1 (rows (watchdog_pass 70 service))
    ≡ Option.map (judged service 70) (get_run 1 (rows service))
unfolding get_run
watchdog_pass-judged_example = watchdog_pass-judged 70 service 1 (refl, tt)

pause_blocks_example :
    ((pause_for_reconfigure idle).0 ≡ true)
    × (begin_run (trigger_at 20 2) (pause_for_reconfigure idle).1
        ≡ (blocked_result (trigger_at 20 2), (pause_for_reconfigure idle).1))
    × (resume_after_reconfigure (pause_for_reconfigure idle).1 ≡ idle)
pause_blocks_example = pause_blocks (trigger_at 20 2) idle refl refl

stop-flags_example :
    ((stop 40 service).active_runs ≡ [])
    × (get_run 1 (rows (stop 40 service))
        ≡ flag_if (has_run 1 service.active_runs) 40 (get_run 1 (rows service)))
stop-flags_example = stop-flags 40 service 1 refl

run_lifecycle_example :
    let started = (begin_run (trigger_at 20 2) idle).1 in
    (get_run 2 (rows (ended keep_all (trigger_at 20 2) idle (some done) 30 started))
      ≡ some (closed_row keep_all (trigger_at 20 2) idle done 30))
    × ((ended keep_all (trigger_at 20 2) idle (some done) 30 started).active_runs ≡ [])
unfolding begin_run last_run page_runs
run_lifecycle_example =
    run_lifecycle keep_all (trigger_at 20 2) idle (some done) 30 refl refl (λ l r here end. here)

late_run_example :
    let q = trigger_at 20 2 in
    let started = (begin_run q idle).1 in
    get_run 2
      (rows (ended keep_all q idle (some done) 90 (update_status 2 (timeout_mark 80) started)))
    ≡ some (closed_row keep_all q idle (too_late keep_all q idle done) 90)
unfolding begin_run last_run page_runs
late_run_example =
    late_run keep_all (trigger_at 20 2) idle (some done) 80 90 refl (λ l r here end. here)

abbrev detail : Detail
detail = record {
  job_id = "job";
  policy = some (record { decision = "allow"; matched_rules = [] });
  proposed_actions = "add_tags" ∷ [];
}

-- Services over a count of the accepted jobs.
abbrev services : Services (Unit {0}) ℕ
services = record {
  plan = λ q w. (ok detail, w);
  accept = λ job w. (ok detail, w + 1);
  check = λ w. (none, w);
}

abbrev runner : JobRunner (Unit {0})
runner = make_runner true false true (add_tags ∷ []) tt

run_agent_task-IsConsented_example :
    let r = run_agent_task services runner "daily_organizer" tt none 0 in
    IsConsented runner none detail × (r.1 ≡ 1)
unfolding run_agent_task make_runner value contains
run_agent_task-IsConsented_example =
    run_agent_task-IsConsented services runner "daily_organizer" tt none 0 detail refl refl

run_agent_task-declined_example :
    let r = run_agent_task services runner "daily_organizer" tt (some false) 0 in
    (r.1 ≡ 0) × ((r.0.status ≡ previewed) ⊎ (r.0.status ≡ failed))
unfolding make_runner
run_agent_task-declined_example =
    run_agent_task-declined services runner "daily_organizer" tt (some false) 0 refl refl
