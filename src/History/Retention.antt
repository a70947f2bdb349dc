-- ===== src/History/Retention.antt =====
-- `cleanup_retention` of server/history/service.py, over the rows in memory and over the tables of
-- server/history/repository.py.
use local_book.Base.{
  Bool, List, Option, String, [], contains, eqb, false, if◌then◌else◌, leb, length, ltb, none, not,
  some, take, true, ℕ, ◌&&◌, ◌*◌, ◌++◌, ◌-◌, ◌==◌, ◌||◌, ◌∷◌, nat_eq, string_eq, option_eq, list_eq,
}
use local_book.Recovery.{
  JobStatus, JournalEntry, committed, conflict, failed, rejected, rollback_failed, rolled_back,
  undo_unavailable, undone,
}
use local_book.Scheduler.{Run, finished, keep_runs, sort_by_start}
use local_book.History.{HistoryRecord, Mirror}

-- `job_terminal`
abbrev pub is_terminal : JobStatus → Bool
is_terminal committed = true
is_terminal rejected = true
is_terminal rolled_back = true
is_terminal failed = true
is_terminal conflict = true
is_terminal undone = true
is_terminal undo_unavailable = true
is_terminal rollback_failed = true
is_terminal _ = false

abbrev pub or_instant : Option ℕ → ℕ → ℕ
or_instant none t = t
or_instant (some t) _ = t

abbrev pub day : ℕ
day = 86400000000

-- The bound of `cleanup_retention`: a subtraction that leaves the calendar raises, and the
-- `except` takes the unshifted instant.
unfoldable pub retention_bound : (now retention_days : ℕ) → ℕ
retention_bound now retention_days =
    if leb (retention_days * day) now then now - retention_days * day else now

abbrev pub is_expired_job : ℕ → HistoryRecord → Bool
is_expired_job cutoff r = is_terminal r.status && ltb (or_instant r.end_time r.start_time) cutoff

unfoldable pub expired_jobs : ℕ → List HistoryRecord → List String
expired_jobs cutoff [] = []
expired_jobs cutoff (r ∷ rest) =
    let more = expired_jobs cutoff rest in if is_expired_job cutoff r then r.job_id ∷ more else more

-- `_records.pop`
unfoldable pub keep_records : List String → List HistoryRecord → List HistoryRecord
unfolding contains
keep_records gone [] = []
keep_records gone (r ∷ rest) =
    let kept = keep_records gone rest in if contains gone r.job_id then kept else r ∷ kept

-- `_journal.pop`
unfoldable pub keep_entries : List String → List JournalEntry → List JournalEntry
unfolding contains
keep_entries gone [] = []
keep_entries gone (e ∷ rest) =
    let kept = keep_entries gone rest in if contains gone e.job_id then kept else e ∷ kept

abbrev pub has_task : String → List (String × ℕ) → Bool
has_task task [] = false
has_task task ((t, id) ∷ rest) = t == task || has_task task rest

-- `newest_per_task`, of rows in the order of their starts, from the last on.
unfoldable pub newest_per_task : List Run → List (String × ℕ)
newest_per_task [] = []
newest_per_task (r ∷ rest) =
    let later = newest_per_task rest in
    if has_task r.task later then later else later ++ ((r.task, r.run_id) ∷ [])

-- `run_id in newest_per_task.values()`
abbrev pub is_newest : ℕ → List (String × ℕ) → Bool
is_newest id [] = false
is_newest id ((t, i) ∷ rest) = eqb i id || is_newest id rest

-- `_runs.pop`
unfoldable pub remove_run : ℕ → List Run → List Run
unfolding keep_runs
remove_run id runs = keep_runs (λ r. not (eqb r.run_id id)) runs

-- The removal of the rows of a list that a test picks.
unfoldable pub remove_where : (Run → Bool) → List Run → List Run → List Run
unfolding remove_run
remove_where test [] runs = runs
remove_where test (r ∷ rows) runs =
    remove_where test rows (if test r then remove_run r.run_id runs else runs)

abbrev pub is_expired_run : ℕ → List (String × ℕ) → Run → Bool
is_expired_run cutoff newest r =
    finished r.status
    && ltb (or_instant r.finished_at r.started_at) cutoff
    && not (is_newest r.run_id newest)

-- The first pass over the runs.
unfoldable pub remove_expired : ℕ → List Run → List Run
unfolding remove_where newest_per_task sort_by_start
remove_expired cutoff runs =
    let sorted = sort_by_start runs in
    remove_where (is_expired_run cutoff (newest_per_task sorted)) sorted runs

-- The second pass, over what is left.
unfoldable pub remove_excess : ℕ → List Run → List Run
unfolding remove_where sort_by_start
remove_excess max_scheduler_runs runs =
    let remaining = sort_by_start runs in
    remove_where (λ r. finished r.status) (take (length remaining - max_scheduler_runs) remaining)
      runs

-- `_cleanup_memory`
unfoldable pub cleanup_memory : (cutoff max_scheduler_runs : ℕ) → Mirror → Mirror
unfolding expired_jobs keep_records keep_entries remove_expired remove_excess
cleanup_memory cutoff max_scheduler_runs m =
    let gone = expired_jobs cutoff m.records in
    record {
      records = keep_records gone m.records;
      entries = keep_entries gone m.entries;
      runs = remove_excess max_scheduler_runs (remove_expired cutoff m.runs);
    }

-- The second pass with a repository: `oldest_terminal_runs`, and their deletion.
unfoldable pub remove_oldest : ℕ → List Run → List Run
unfolding remove_where sort_by_start keep_runs
remove_oldest max_scheduler_runs runs =
    let terminal = keep_runs (λ r. finished r.status) (sort_by_start runs) in
    remove_where (λ r. finished r.status) (take (length runs - max_scheduler_runs) terminal) runs

-- `cleanup_retention` with a repository, whose tables are the rows; deleting a job deletes its
-- journal. Of two newest runs of a task, which SQL leaves in any order, the one stored later counts.
unfoldable pub cleanup_stored : (cutoff max_scheduler_runs : ℕ) → Mirror → Mirror
unfolding expired_jobs keep_records keep_entries remove_expired remove_oldest
cleanup_stored cutoff max_scheduler_runs m =
    let gone = expired_jobs cutoff m.records in
    record {
      records = keep_records gone m.records;
      entries = keep_entries gone m.entries;
      runs = remove_oldest max_scheduler_runs (remove_expired cutoff m.runs);
    }

-- The counts of the result.
pub record RetentionCounts : Type 0 where
  pub deleted_jobs : ℕ
  pub deleted_runs : ℕ
  pub kept_active_runs : ℕ
  pub retention_days : ℕ

-- `len(run_ids) - len(deletable)`
abbrev pub kept_old_runs : ℕ → List Run → List Run
kept_old_runs cutoff runs =
    let newest = newest_per_task (sort_by_start runs) in
    keep_runs
      (λ r.
        finished r.status
        && ltb (or_instant r.finished_at r.started_at) cutoff
        && is_newest r.run_id newest)
      runs

-- The sums of `cursor.rowcount`: how many rows have gone.
abbrev pub count_stored : (cutoff retention_days : ℕ) (before after : Mirror) → RetentionCounts
count_stored cutoff retention_days before after = record {
  deleted_jobs = length before.records - length after.records;
  deleted_runs = length before.runs - length after.runs;
  kept_active_runs = length (kept_old_runs cutoff before.runs);
  retention_days = retention_days;
}

-- Without a repository the counts stay 0.
abbrev pub no_counts : ℕ → RetentionCounts
no_counts retention_days = record {
  deleted_jobs = 0;
  deleted_runs = 0;
  kept_active_runs = 0;
  retention_days = retention_days;
}

-- `cleanup_retention`
unfoldable pub cleanup_retention :
    (has_repository : Bool) (now retention_days max_scheduler_runs : ℕ)
    → Mirror
    → RetentionCounts × Mirror
unfolding retention_bound cleanup_memory cleanup_stored
cleanup_retention true now retention_days max_scheduler_runs m =
    let cutoff = retention_bound now retention_days in
    let after = cleanup_stored cutoff max_scheduler_runs m in
    (count_stored cutoff retention_days m after, after)
cleanup_retention false now retention_days max_scheduler_runs m = (
  no_counts retention_days,
  cleanup_memory (retention_bound now retention_days) max_scheduler_runs m,
)
