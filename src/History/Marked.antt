-- ===== src/History/Marked.antt =====
-- What the marking after a crash does to each job record.
use mathlib.Core.Option
use local_book.Base.{
  Bool, Bool-cases, List, Option, Option-cases, String, [], ap, arith, beq_apart, contains, false,
  if◌then◌else◌, inl, inr, leb, none, refl, some, string_eq, subst, sym, true, ℕ, ◌&&◌, ◌==◌, ◌||◌,
  ◌∙◌, ◌∷◌, ◌≡◌, nat_eq, option_eq, list_eq,
}
use local_book.Recovery.{
  JobStatus, captured, executing, planned, preflighted, recovery_required, validating,
}
use local_book.History.{HistoryRecord, Mirror, find_record, save_record}
use local_book.History.Scanner.{
  insert_record, is_unfinished, mark_jobs, mark_record, mark_recovery_required, rows_of,
  save_marked, sort_records, unfinished_job_rows,
}
use local_book.History.Jobs.{HasJobs}

-- A job that an interruption leaves without a verdict.
abbrev pub in_progress : JobStatus → Bool
in_progress planned = true
in_progress preflighted = true
in_progress captured = true
in_progress executing = true
in_progress validating = true
in_progress _ = false

-- Its record as the marking is to leave it.
abbrev pub flagged : HistoryRecord → HistoryRecord
flagged r = record {
  job_id = r.job_id;
  status = recovery_required;
  start_time = r.start_time;
  end_time = r.end_time;
  error = some ("process_interrupted", "process interrupted; explicit recovery required");
}

-- The record after the marking, of the one before.
abbrev pub after_marking : Option HistoryRecord → Option HistoryRecord
after_marking none = none
after_marking (some r) = if in_progress r.status then some (flagged r) else some r

abbrev mark_record_if : Bool → Option HistoryRecord → Option HistoryRecord
mark_record_if b none = none
mark_record_if b (some r) = if b then some (mark_record r) else some r

mark_nothing : (o : Option HistoryRecord) → mark_record_if false o ≡ o
mark_nothing none = refl
mark_nothing (some r) = refl

mark_again :
    (a b : Bool) (o : Option HistoryRecord)
    → mark_record_if a (mark_record_if b o) ≡ mark_record_if (b || a) o
mark_again a b none = refl
mark_again true true (some r) = refl
mark_again true false (some r) = refl
mark_again false true (some r) = refl
mark_again false false (some r) = refl

find_record-save_record :
    (job : String) (j : HistoryRecord) (records : List HistoryRecord)
    → find_record job (save_record j records)
      ≡ (if j.job_id == job then some j else find_record job records)
unfolding find_record save_record
find_record-save_record job j [] = refl
find_record-save_record job j (r ∷ rest) =
    let more = find_record-save_record job j rest in
    elim (Bool-cases (r.job_id == j.job_id)) [
      | inl e ↦
          let same = ap (λ id. id == job) ((string_eq.beq_iff r.job_id j.job_id).0 e) in
          rw (save_record, e) (ground (arith, same))
      | inr e ↦
          let other = beq_apart r.job_id j.job_id job e in
          rw (save_record, e) (ground (arith, more, other))
    ]

job_id-find_record :
    (job : String) (records : List HistoryRecord) (r : HistoryRecord)
    → find_record job records ≡ some r
    → (r.job_id == job) ≡ true
unfolding find_record
job_id-find_record job [] r h = cc h
job_id-find_record job (x ∷ rest) r h = elim (Bool-cases (x.job_id == job)) [
  | inl e ↦
      let same : x ≡ r = cc (rw (find_record, e) at h) in ap (λ y. y.job_id == job) (sym same) ∙ e
  | inr e ↦ job_id-find_record job rest r (rw (find_record, e) at h)
]

find_record-save_marked :
    (job i : String) (records : List HistoryRecord)
    → find_record job (save_marked (find_record i records) records)
      ≡ mark_record_if (i == job) (find_record job records)
unfolding save_marked
find_record-save_marked job i records = elim (Bool-cases (i == job)) [
  | inl e ↦
      let there = ap (λ id. find_record id records) ((string_eq.beq_iff i job).0 e) in
      elim (Option-cases (find_record i records)) [
        | inl gone ↦ rw (gone, e) (rw (sym there ∙ gone) refl)
        | inr (r, found) ↦
            let own : (r.job_id == job) ≡ true =
              subst (λ id. (r.job_id == id) ≡ true) ((string_eq.beq_iff i job).0 e)
                (job_id-find_record i records r found) in
            rw (found, e)
              (find_record-save_record job (mark_record r) records
                ∙ rw (own, sym there ∙ found) refl)
      ]
  | inr e ↦ elim (Option-cases (find_record i records)) [
    | inl gone ↦ rw (gone, e) (sym (mark_nothing (find_record job records)))
    | inr (r, found) ↦
        let at = (string_eq.beq_iff r.job_id i).0 (job_id-find_record i records r found) in
        let other : (r.job_id == job) ≡ false = ap (λ id. id == job) at ∙ e in
        rw (found, e)
          (find_record-save_record job (mark_record r) records
            ∙ rw other (sym (mark_nothing (find_record job records))))
  ]
]

-- The ids of the rows of a scan.
abbrev row_ids : List (String × JobStatus) → List String
row_ids [] = []
row_ids ((job, status) ∷ rest) = job ∷ row_ids rest

find_record-mark_jobs :
    (job : String) (rows : List (String × JobStatus)) (records : List HistoryRecord)
    → find_record job (mark_jobs rows records)
      ≡ mark_record_if (contains (row_ids rows) job) (find_record job records)
unfolding mark_jobs contains
find_record-mark_jobs job [] records = sym (mark_nothing (find_record job records))
find_record-mark_jobs job ((i, status) ∷ rest) records =
    let saved = save_marked (find_record i records) records in
    find_record-mark_jobs job rest saved
    ∙ ap (mark_record_if (contains (row_ids rest) job)) (find_record-save_marked job i records)
    ∙ mark_again (contains (row_ids rest) job) (i == job) (find_record job records)

abbrev unfinished : Option HistoryRecord → Bool
unfinished none = false
unfinished (some r) = is_unfinished r.status

contains-rows_of :
    (records : List HistoryRecord) (job : String)
    → HasJobs records
    → contains (row_ids (rows_of records)) job ≡ unfinished (find_record job records)
unfolding contains rows_of find_record
contains-rows_of [] job h = refl
contains-rows_of (r ∷ rest) job (fresh, h) =
    let more = contains-rows_of rest job h in
    elim (Bool-cases (r.job_id == job)) [
      | inl e ↦
          let gone : find_record job rest ≡ none =
            subst (λ id. find_record id rest ≡ none) ((string_eq.beq_iff r.job_id job).0 e) fresh in
          rw e (ground (arith, more, gone, e))
      | inr e ↦ rw e (ground (arith, more, e))
    ]

abbrev has_row : String → List HistoryRecord → Bool
has_row job records = contains (row_ids (rows_of records)) job

has_row-cons :
    (job : String) (r : HistoryRecord) (records : List HistoryRecord)
    → has_row job (r ∷ records) ≡ (is_unfinished r.status && r.job_id == job || has_row job records)
unfolding contains rows_of
has_row-cons job r records = elim (Bool-cases (is_unfinished r.status)) [
  | inl e ↦ rw e refl
  | inr e ↦ rw e refl
]

or_swap : (a b c : Bool) → (a || (b || c)) ≡ (b || (a || c))
or_swap true true c = refl
or_swap true false c = refl
or_swap false b c = refl

has_row-insert_record :
    (job : String) (r : HistoryRecord) (records : List HistoryRecord)
    → has_row job (insert_record r records) ≡ has_row job (r ∷ records)
unfolding insert_record
has_row-insert_record job r [] = refl
has_row-insert_record job r (x ∷ rest) = elim (Bool-cases (leb r.start_time x.start_time)) [
  | inl e ↦ rw e refl
  | inr e ↦
      let mine = is_unfinished r.status && r.job_id == job in
      let theirs = is_unfinished x.status && x.job_id == job in
      rw e (
        has_row-cons job x (insert_record r rest)
        ∙ ap (λ b. theirs || b) (has_row-insert_record job r rest ∙ has_row-cons job r rest)
        ∙ or_swap theirs mine (has_row job rest)
        ∙ sym (has_row-cons job r (x ∷ rest) ∙ ap (λ b. mine || b) (has_row-cons job x rest)))
]

has_row-sort_records :
    (job : String) (records : List HistoryRecord)
    → has_row job (sort_records records) ≡ has_row job records
unfolding sort_records
has_row-sort_records job [] = refl
has_row-sort_records job (r ∷ rest) =
    let mine = is_unfinished r.status && r.job_id == job in
    has_row-insert_record job r (sort_records rest)
    ∙ has_row-cons job r (sort_records rest)
    ∙ ap (λ b. mine || b) (has_row-sort_records job rest)
    ∙ sym (has_row-cons job r rest)

is_unfinished-in_progress : (s : JobStatus) → is_unfinished s ≡ in_progress s
is_unfinished-in_progress s = ground arith

mark_record-after_marking :
    (o : Option HistoryRecord) → mark_record_if (unfinished o) o ≡ after_marking o
mark_record-after_marking none = refl
mark_record-after_marking (some r) = rw (is_unfinished-in_progress r.status) refl

-- What the marking does with a job of an available history, where no two records have one id: the
-- record of a job that was interrupted while it was planned, preflighted, captured, executed or
-- validated is set to `recovery_required` with the fixed error, and every other record is as before.
pub mark_recovery_required-jobs :
    (now : ℕ) (m : Mirror) (job : String)
    → HasJobs m.records
    → Option.map (λ after. find_record job after.records) (mark_recovery_required now (some m)).1
      ≡ some (after_marking (find_record job m.records))
unfolding mark_recovery_required unfinished_job_rows
mark_recovery_required-jobs now m job h = ap some (
    find_record-mark_jobs job (unfinished_job_rows m.records) m.records
    ∙ ap (λ b. mark_record_if b (find_record job m.records))
        (has_row-sort_records job m.records ∙ contains-rows_of m.records job h)
    ∙ mark_record-after_marking (find_record job m.records))
