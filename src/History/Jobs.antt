-- ===== src/History/Jobs.antt =====
-- Which jobs retention removes.
use local_book.Base.{
  Bool, Bool-cases, List, Option, String, [], ap, arith, contains, false, inl, inr, ltb, none, refl,
  same_test, some, string_eq, subst, true, ℕ, ◌&&◌, ◌==◌, ◌∙◌, ◌∷◌, ◌≡◌, nat_eq, option_eq, list_eq,
}
use local_book.Recovery.{
  JobStatus, JournalEntry, awaiting_confirmation, captured, committed, conflict, executing, failed,
  planned, preflighted, recovery_required, rejected, rollback_failed, rolled_back, undo_unavailable,
  undone, validating,
}
use local_book.Recovery.Journal.{entries_of}
use local_book.History.{HistoryRecord, Mirror, find_record}
use local_book.History.Retention.{
  cleanup_memory, cleanup_retention, cleanup_stored, expired_jobs, is_expired_job, is_terminal,
  keep_entries, keep_records, or_instant, retention_bound,
}

-- The keys of a dict: no two records have one id.
abbrev pub HasJobs : List HistoryRecord → Type 0
HasJobs [] = Unit {0}
HasJobs (r ∷ rest) = (find_record r.job_id rest ≡ none) × HasJobs rest

-- A job that is over: not planned, in progress or waiting for an answer, and not to be recovered.
abbrev pub is_over : JobStatus → Bool
is_over planned = false
is_over preflighted = false
is_over captured = false
is_over awaiting_confirmation = false
is_over executing = false
is_over validating = false
is_over recovery_required = false
is_over _ = true

-- The last instant that is known of a job.
abbrev pub last_seen : HistoryRecord → ℕ
last_seen r = elim r.end_time [ none ↦ r.start_time | some t ↦ t ]

-- What a cleanup is to remove: a job that is over, and was so before the cutoff.
abbrev pub expires : ℕ → Option HistoryRecord → Bool
expires cutoff none = false
expires cutoff (some r) = is_over r.status && ltb (last_seen r) cutoff

is_terminal-is_over : (s : JobStatus) → is_terminal s ≡ is_over s
is_terminal-is_over s = elim s [
  | planned ↦ refl
  | preflighted ↦ refl
  | captured ↦ refl
  | awaiting_confirmation ↦ refl
  | executing ↦ refl
  | validating ↦ refl
  | committed ↦ refl
  | rejected ↦ refl
  | rolled_back ↦ refl
  | failed ↦ refl
  | conflict ↦ refl
  | undone ↦ refl
  | undo_unavailable ↦ refl
  | rollback_failed ↦ refl
  | recovery_required ↦ refl
]

or_instant-last_seen :
    (end_time : Option ℕ) (start : ℕ)
    → or_instant end_time start ≡ (elim end_time [ none ↦ start | some t ↦ t ])
or_instant-last_seen none start = refl
or_instant-last_seen (some t) start = refl

expires-is_expired_job :
    (cutoff : ℕ) (r : HistoryRecord) → is_expired_job cutoff r ≡ expires cutoff (some r)
expires-is_expired_job cutoff r =
    rw (is_terminal-is_over r.status, or_instant-last_seen r.end_time r.start_time) refl

abbrev pub drop_if {ℓ} : {A : Type ℓ} → Bool → A → A → A
drop_if true empty a = empty
drop_if false empty a = a

contains-expired_jobs :
    (cutoff : ℕ) (records : List HistoryRecord) (job : String)
    → HasJobs records
    → contains (expired_jobs cutoff records) job ≡ expires cutoff (find_record job records)
unfolding contains expired_jobs find_record
contains-expired_jobs cutoff [] job h = refl
contains-expired_jobs cutoff (r ∷ rest) job (fresh, h) =
    let more = contains-expired_jobs cutoff rest job h in
    elim (Bool-cases (r.job_id == job)) [
      | inl e ↦
          let gone : find_record job rest ≡ none =
            subst (λ id. find_record id rest ≡ none) ((string_eq.beq_iff r.job_id job).0 e) fresh in
          rw e (ground (arith, more, gone, e, expires-is_expired_job cutoff r))
      | inr e ↦ rw e (ground (arith, more, e, expires-is_expired_job cutoff r))
    ]

find_record-keep_records :
    (gone : List String) (records : List HistoryRecord) (job : String)
    → find_record job (keep_records gone records)
      ≡ drop_if (contains gone job) none (find_record job records)
unfolding keep_records find_record
find_record-keep_records gone [] job = ground arith
find_record-keep_records gone (r ∷ rest) job =
    let same = same_test (contains gone) r.job_id job in
    ground (arith, same, find_record-keep_records gone rest job)

entries_of-keep_entries :
    (gone : List String) (entries : List JournalEntry) (job : String)
    → entries_of job (keep_entries gone entries)
      ≡ drop_if (contains gone job) [] (entries_of job entries)
unfolding keep_entries entries_of
entries_of-keep_entries gone [] job = ground arith
entries_of-keep_entries gone (e ∷ rest) job =
    let same = same_test (contains gone) e.job_id job in
    ground (arith, same, entries_of-keep_entries gone rest job)

jobs_kept :
    (cutoff : ℕ) (m : Mirror) (job : String)
    → HasJobs m.records
    → let ids = expired_jobs cutoff m.records in
      let gone = expires cutoff (find_record job m.records) in
      (find_record job (keep_records ids m.records) ≡ drop_if gone none (find_record job m.records))
      × (entries_of job (keep_entries ids m.entries) ≡ drop_if gone [] (entries_of job m.entries))
jobs_kept cutoff m job h =
    let gone = expired_jobs cutoff m.records in
    let same = contains-expired_jobs cutoff m.records job h in
    (
      find_record-keep_records gone m.records job
          ∙ ap (λ b. drop_if b none (find_record job m.records)) same,
      entries_of-keep_entries gone m.entries job
          ∙ ap (λ b. drop_if b [] (entries_of job m.entries)) same,
    )

-- What a cleanup does with a job, with a repository and without, where no two records have one id: a
-- record of a job that is over, which one that is planned, in progress, waiting for an answer or to
-- be recovered is not, and whose end, or whose start if it has no end, lies before the bound, is gone
-- with all its journal rows; and every other record and its journal rows are as before.
pub cleanup_retention-jobs :
    (has_repository : Bool) (now retention_days max_scheduler_runs : ℕ) (m : Mirror) (job : String)
    → HasJobs m.records
    → let after = (cleanup_retention has_repository now retention_days max_scheduler_runs m).1 in
      let gone = expires (retention_bound now retention_days) (find_record job m.records) in
      (find_record job after.records ≡ drop_if gone none (find_record job m.records))
      × (entries_of job after.entries ≡ drop_if gone [] (entries_of job m.entries))
unfolding cleanup_retention cleanup_memory cleanup_stored
cleanup_retention-jobs true now retention_days max_scheduler_runs m job h =
    jobs_kept (retention_bound now retention_days) m job h
cleanup_retention-jobs false now retention_days max_scheduler_runs m job h =
    jobs_kept (retention_bound now retention_days) m job h
