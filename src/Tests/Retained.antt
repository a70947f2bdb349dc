-- ===== src/Tests/Retained.antt =====
-- A history with an old run for each of two tasks, an active run, and two jobs.
use mathlib.Core.Option
use local_book.Base.{
  String, [], arith, false, inl, inr, none, refl, some, true, ℕ, ◌∷◌, ◌≡◌, nat_eq, string_eq,
  option_eq, list_eq,
}
use local_book.Recovery.{JobStatus, committed, executing}
use local_book.Recovery.Journal.{entries_of}
use local_book.Scheduler.{Run, RunStatus, get_run, running, scheduled}
use local_book.Scheduler.Service.{running_row}
use local_book.History.{HistoryRecord, Mirror, find_record}
use local_book.History.Retention.{
  cleanup_memory, cleanup_retention, cleanup_stored, remove_excess, remove_expired, remove_oldest,
  retention_bound,
}
use local_book.History.Kept.{HasKeys, cleanup_retention-active}
use local_book.History.Newest.{cleanup_retention-newest}
use local_book.History.Jobs.{HasJobs, cleanup_retention-jobs, drop_if, expires}
use local_book.History.Scanner.{mark_recovery_required}
use local_book.History.Marked.{after_marking, mark_recovery_required-jobs}
use local_book.History.Interrupted.{mark_recovery_required-runs, run_after_marking}

abbrev run_at : ℕ → String → RunStatus → ℕ → Run
run_at id task status start = record (running_row task scheduled start start id) {
  status = status;
  finished_at = none;
}

abbrev old : Run
old = run_at 1 "daily_organizer" RunStatus.committed 10

abbrev other_old : Run
other_old = run_at 2 "weekly_review" RunStatus.committed 20

abbrev active_run : Run
active_run = run_at 3 "weekly_review" running 5

abbrev job_of : String → JobStatus → HistoryRecord
job_of id status = record {
  job_id = id;
  status = status;
  start_time = 7;
  end_time = none;
  error = none;
}

abbrev mirror : Mirror
mirror = record {
  records = job_of "done" committed ∷ job_of "cut" executing ∷ [];
  entries = [];
  runs = old ∷ other_old ∷ active_run ∷ [];
}

mirror-HasKeys : HasKeys mirror.runs
unfolding get_run
mirror-HasKeys = (refl, (refl, (refl, tt)))

mirror-HasJobs : HasJobs mirror.records
unfolding find_record
mirror-HasJobs = (refl, (refl, tt))

-- More runs than the maximum: the only run of a task goes as well, with a repository too.
excess_run : get_run 1 (cleanup_retention false 30 30 1 mirror).1.runs ≡ none
unfolding cleanup_retention cleanup_memory remove_expired remove_excess get_run
excess_run = refl

excess_stored_run : get_run 1 (cleanup_retention true 30 30 1 mirror).1.runs ≡ none
unfolding cleanup_retention cleanup_stored remove_expired remove_oldest get_run
excess_stored_run = refl

deleted_runs : (cleanup_retention true 30 30 1 mirror).0.deleted_runs ≡ 2
unfolding cleanup_retention cleanup_stored remove_expired remove_oldest
deleted_runs = refl

marked_rows :
    (mark_recovery_required 100 (some mirror)).0 ≡ record { marked_jobs = 1; marked_runs = 1 }
unfolding mark_recovery_required
marked_rows = refl

cleanup_retention-active_example :
    get_run 3 (cleanup_retention true 100 0 1 mirror).1.runs ≡ some active_run
unfolding get_run
cleanup_retention-active_example =
    cleanup_retention-active true 100 0 1 mirror 3 active_run mirror-HasKeys refl refl

cleanup_retention-newest_example :
    get_run 1 (cleanup_retention true 100 0 5 mirror).1.runs ≡ some old
unfolding get_run
cleanup_retention-newest_example =
    cleanup_retention-newest true 100 0 5 mirror old mirror-HasKeys refl
      (inl refl, (inr (inl refl), (inr (inl refl), tt))) (omega arith)

cleanup_retention-jobs_example :
    let after = (cleanup_retention true 100 0 5 mirror).1 in
    let gone = expires (retention_bound 100 0) (find_record "done" mirror.records) in
    (find_record "done" after.records ≡ drop_if gone none (find_record "done" mirror.records))
    × (entries_of "done" after.entries ≡ drop_if gone [] (entries_of "done" mirror.entries))
cleanup_retention-jobs_example = cleanup_retention-jobs true 100 0 5 mirror "done" mirror-HasJobs

mark_recovery_required-jobs_example :
    Option.map
      (λ after. find_record "cut" after.records)
      (mark_recovery_required 100 (some mirror)).1
    ≡ some (after_marking (find_record "cut" mirror.records))
mark_recovery_required-jobs_example = mark_recovery_required-jobs 100 mirror "cut" mirror-HasJobs

mark_recovery_required-runs_example :
    Option.map (λ after. get_run 3 after.runs) (mark_recovery_required 100 (some mirror)).1
    ≡ some (run_after_marking 100 (get_run 3 mirror.runs))
mark_recovery_required-runs_example = mark_recovery_required-runs 100 mirror 3 mirror-HasKeys
