-- ===== src/History/Scanner.antt =====
-- The crash scan of server/recovery/scanner.py, which reads a history only where that has a
-- repository: the rows are the tables ai_jobs, the journal and scheduler_runs, and its queries are
-- those of server/history/repository.py. Of rows that start at one instant, which SQL leaves in any
-- order, the ones stored first come first.
use local_book.Base.{
  Bool, List, Option, String, [], any, false, if◌then◌else◌, leb, length, none, some, true, ℕ, ◌+◌,
  ◌∷◌, nat_eq, string_eq, option_eq, list_eq,
}
use local_book.Recovery.{
  EntryState, JobStatus, JournalEntry, applied, captured, executing, pending, planned, preflighted,
  recovery_required, reverted, validating,
}
use local_book.Recovery.Journal.{entries_of}
use local_book.Scheduler.{Run, RunStatus, queued, running, runs_with_status, save_run}
use local_book.History.{HistoryRecord, Mirror, find_record, save_record}

-- `UNCERTAIN_JOB_STATUSES`, which `unfinished_job_rows` selects.
abbrev pub is_unfinished : JobStatus → Bool
is_unfinished planned = true
is_unfinished preflighted = true
is_unfinished captured = true
is_unfinished executing = true
is_unfinished validating = true
is_unfinished _ = false

-- `UNCERTAIN_RUN_STATUSES`
abbrev pub is_uncertain_run : RunStatus → Bool
is_uncertain_run queued = true
is_uncertain_run running = true
is_uncertain_run _ = false

unfoldable pub insert_record : HistoryRecord → List HistoryRecord → List HistoryRecord
insert_record r [] = r ∷ []
insert_record r (x ∷ rest) =
    let more = insert_record r rest in
    if leb r.start_time x.start_time then r ∷ x ∷ rest else x ∷ more

-- The `ORDER BY start_time` of `job_ids_with_statuses`.
unfoldable pub sort_records : List HistoryRecord → List HistoryRecord
unfolding insert_record
sort_records [] = []
sort_records (r ∷ rest) = insert_record r (sort_records rest)

-- Its `WHERE`, and its columns but the end.
unfoldable pub rows_of : List HistoryRecord → List (String × JobStatus)
rows_of [] = []
rows_of (r ∷ rest) =
    let more = rows_of rest in if is_unfinished r.status then (r.job_id, r.status) ∷ more else more

-- `unfinished_job_rows`
unfoldable pub unfinished_job_rows : List HistoryRecord → List (String × JobStatus)
unfolding sort_records rows_of
unfinished_job_rows records = rows_of (sort_records records)

abbrev pub is_open : EntryState → Bool
is_open pending = true
is_open applied = true
is_open reverted = false

-- `_journal_uncertain`
unfoldable pub journal_uncertain : String → List JournalEntry → Bool
unfolding entries_of
journal_uncertain job entries = any (λ e. is_open e.state) (entries_of job entries)

pub record FlaggedJob : Type 0 where
  pub job_id : String
  pub status : JobStatus
  pub uncertain : Bool

pub record ScanReport : Type 0 where
  pub flagged_jobs : List FlaggedJob
  pub flagged_runs : List Run
  pub total_recovery_required : ℕ
  pub scanned : Bool

unfoldable pub flag_jobs : List (String × JobStatus) → List JournalEntry → List FlaggedJob
unfolding journal_uncertain
flag_jobs [] entries = []
flag_jobs ((job, status) ∷ rest) entries =
    record { job_id = job; status = status; uncertain = journal_uncertain job entries }
    ∷ flag_jobs rest entries

-- `scan`; `none` is no history, or one that is not available, and a flagged run is kept whole.
unfoldable pub scan : Option Mirror → ScanReport
unfolding flag_jobs unfinished_job_rows runs_with_status
scan none = record {
  flagged_jobs = [];
  flagged_runs = [];
  total_recovery_required = 0;
  scanned = false;
}
scan (some m) =
    let jobs = flag_jobs (unfinished_job_rows m.records) m.entries in
    let runs = runs_with_status is_uncertain_run m.runs in
    record {
      flagged_jobs = jobs;
      flagged_runs = runs;
      total_recovery_required = length jobs + length runs;
      scanned = true;
    }

abbrev pub mark_record : HistoryRecord → HistoryRecord
mark_record r = record r {
  status = recovery_required;
  error = some ("process_interrupted", "process interrupted; explicit recovery required");
}

abbrev pub mark_run : ℕ → Run → Run
mark_run now r = record r {
  status = RunStatus.recovery_required;
  error_code = some "process_interrupted";
  message = some "process interrupted; explicit diagnosis required";
  finished_at = elim r.finished_at [ none ↦ some now | some t ↦ some t ];
}

unfoldable pub save_marked : Option HistoryRecord → List HistoryRecord → List HistoryRecord
unfolding save_record
save_marked none records = records
save_marked (some r) records = save_record (mark_record r) records

-- The loops of `mark_recovery_required`.
unfoldable pub mark_jobs : List (String × JobStatus) → List HistoryRecord → List HistoryRecord
unfolding find_record save_marked
mark_jobs [] records = records
mark_jobs ((job, status) ∷ rest) records =
    mark_jobs rest (save_marked (find_record job records) records)

unfoldable pub mark_runs : ℕ → List Run → List Run → List Run
unfolding save_run
mark_runs now [] runs = runs
mark_runs now (r ∷ rest) runs = mark_runs now rest (save_run (mark_run now r) runs)

-- `marked_jobs`, in step with `mark_jobs`.
unfoldable pub count_marked : List (String × JobStatus) → List HistoryRecord → ℕ
unfolding find_record save_marked
count_marked [] records = 0
count_marked ((job, status) ∷ rest) records =
    let found = find_record job records in
    let more = count_marked rest (save_marked found records) in
    elim found [ none ↦ more | some r ↦ more + 1 ]

-- `marked_jobs` and `marked_runs` of the result.
pub record MarkReport : Type 0 where
  pub marked_jobs : ℕ
  pub marked_runs : ℕ

-- The rows after a call, unless the history is missing or not available.
abbrev pub mark_all : ℕ → Mirror → Mirror
mark_all now m = record m {
  records = mark_jobs (unfinished_job_rows m.records) m.records;
  runs = mark_runs now (runs_with_status is_uncertain_run m.runs) m.runs;
}

-- `mark_recovery_required`
unfoldable pub mark_recovery_required : ℕ → Option Mirror → MarkReport × Option Mirror
unfolding mark_jobs mark_runs unfinished_job_rows runs_with_status count_marked
mark_recovery_required now none = (record { marked_jobs = 0; marked_runs = 0 }, none)
mark_recovery_required now (some m) = (
  record {
    marked_jobs = count_marked (unfinished_job_rows m.records) m.records;
    marked_runs = length (runs_with_status is_uncertain_run m.runs);
  },
  some (mark_all now m),
)
