-- ===== src/History.antt =====
-- The rest of server/history/service.py: the job records with their times, and retention.
pub mod Retention
pub mod Kept
pub mod Order
pub mod Newest
pub mod Jobs
pub mod Interval
pub mod Scanner
pub mod Marked
pub mod Interrupted
use local_book.Base.{
  List, Option, String, [], if◌then◌else◌, none, some, ℕ, ◌==◌, ◌∷◌, nat_eq, string_eq, option_eq,
  list_eq,
}
use local_book.Recovery.{JobStatus, JournalEntry}
use local_book.Scheduler.{Run}

-- `HistoryRecord`, as far as retention reads it; an instant is a number of microseconds.
pub record HistoryRecord : Type 0 where
  pub job_id : String
  pub status : JobStatus
  pub start_time : ℕ
  pub end_time : Option ℕ
  pub error : Option (String × String)

-- The rows of a `HistoryService`: in the tables of its repository, or, without one, in `_records`,
-- `_journal` and `_runs`.
pub record Mirror : Type 0 where
  pub records : List HistoryRecord
  pub entries : List JournalEntry
  pub runs : List Run

-- `_records.get`
unfoldable pub find_record : String → List HistoryRecord → Option HistoryRecord
find_record job [] = none
find_record job (r ∷ rest) = if r.job_id == job then some r else find_record job rest

-- `HistoryService.save`
unfoldable pub save_record : HistoryRecord → List HistoryRecord → List HistoryRecord
save_record j [] = j ∷ []
save_record j (r ∷ rest) = if r.job_id == j.job_id then j ∷ rest else r ∷ save_record j rest
