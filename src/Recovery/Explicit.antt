-- ===== src/Recovery/Explicit.antt =====
-- `rollback_if_safe` of server/recovery/service.py: the explicit recovery of an uncertain job.
use local_book.Base.{
  Bool, List, Option, Result, String, [], contains, err, false, if◌then◌else◌, none, not, ok, some,
  true, ℕ, ◌&&◌, ◌++◌, ◌+◌, ◌==◌, ◌||◌, ◌∷◌, nat_eq, string_eq, option_eq, list_eq,
}
use local_book.Recovery.{
  Bytes, EntryKind, EntryState, Failure, Fault, History, JobRecord, JobStatus, JournalEntry, Kind,
  Note, RecoveryResult, Vault, applied, captured, changed_externally, conflict, create, did,
  executing, explicit_complete, explicit_failed_on, failed, filled, history_unavailable,
  job_missing, move, not_found, not_uncertain, nothing_to_restore, other_failure, pending, planned,
  preflighted, recovery_required, reverted, rollback_failed, rolled_back, runtime_error, undo,
  undo_unavailable, update, validating, value_error, vault_error,
}
use local_book.Recovery.Journal.{append_journal, is_move, journal, set_journal_state}
use local_book.Recovery.Executor.{assert_absent, check_digest, digest_in, has_text, lift}
use local_book.Recovery.Undo.{audit_row, decode, is_undo, next_seq}

-- The statuses of a job that may still be recovered.
abbrev pub is_uncertain : JobStatus → Bool
is_uncertain recovery_required = true
is_uncertain executing = true
is_uncertain validating = true
is_uncertain captured = true
is_uncertain preflighted = true
is_uncertain planned = true
is_uncertain _ = false

-- `HistoryService.get` and `save` on job records.
unfoldable pub find_job : String → List JobRecord → Option JobRecord
find_job job [] = none
find_job job (r ∷ rest) = if r.job_id == job then some r else find_job job rest

unfoldable pub save_job : JobRecord → List JobRecord → List JobRecord
save_job j [] = j ∷ []
save_job j (r ∷ rest) = if r.job_id == j.job_id then j ∷ rest else r ∷ save_job j rest

unfoldable pub get_job : String → Option History → Option JobRecord
unfolding find_job
get_job job none = none
get_job job (some h) = find_job job h.jobs

-- `_finish_recovery_record`
unfoldable pub finish_record :
    String → JobStatus → String × String → Option History → Option History
unfolding get_job save_job
finish_record job status error none = none
finish_record job status error (some h) = elim (find_job job h.jobs) [
  | none ↦ some h
  | some r ↦
      some (record h { jobs = save_job (record r { status = status; error = some error }) h.jobs })
]

abbrev pub is_open_state : EntryState → Bool
is_open_state pending = true
is_open_state applied = true
is_open_state reverted = false

-- The rows that the recovery looks at.
unfoldable pub uncertain_rows : List JournalEntry → List JournalEntry
uncertain_rows [] = []
uncertain_rows (e ∷ rest) =
    let more = uncertain_rows rest in
    if not (is_undo e.operation) && is_open_state e.state then e ∷ more else more

-- How a row is classified: written by us, never applied, or changed by someone else.
pub data Class : Type 0 where
  ours : String → Class
  untouched foreign : Class

abbrev pub nonempty_paths : List String → Bool
nonempty_paths [] = false
nonempty_paths (p ∷ rest) = true

abbrev pub nonempty_rows : List JournalEntry → Bool
nonempty_rows [] = false
nonempty_rows (e ∷ rest) = true

module _ (sha256 : Bytes → String) (encode64 : Bytes → String) (decode64 : String → Option Bytes)
    (size64 : String → ℕ) (V : Vault) where
  open V use {State, read_bytes, write_bytes, delete_file, move_file}

  -- `_current_hash`: no file is `ok none`, and any other error is an exception.
  unfoldable pub current_hash : String → State → Result Failure (Option String)
  current_hash path s = elim (read_bytes path s) [
    | ok (_, digest) ↦ ok (some digest)
    | err f ↦ elim f [ not_found ↦ ok none | other_failure ↦ err other_failure ]
  ]

  abbrev pub class_of_hash : JournalEntry → Option String → Class
  class_of_hash e current = elim e.after_hash [
    | none ↦ if current == none || current == e.before_hash then untouched else foreign
    | some after ↦
        if current == some after
        then ours after
        else if current == none || current == e.before_hash
        then untouched
        else foreign
  ]

  unfoldable pub classify : JournalEntry → State → Class
  unfolding current_hash
  classify e s = elim (current_hash e.path s) [
    | err _ ↦ foreign
    | ok current ↦ class_of_hash e current
  ]

  -- Pass 1: the rows to restore, newest first, and the paths in conflict.
  unfoldable pub classify_all :
      List JournalEntry
      → State
      → List (JournalEntry × String)
      → List String
      → List (JournalEntry × String) × List String
  unfolding classify
  classify_all [] s mine conflicts = (mine, conflicts)
  classify_all (e ∷ rest) s mine conflicts = elim (classify e s) [
    | ours after ↦ classify_all rest s ((e, after) ∷ mine) conflicts
    | untouched ↦ classify_all rest s mine conflicts
    | foreign ↦ classify_all rest s mine (conflicts ++ (e.path ∷ []))
  ]

  -- `_restore_entry`, for a row of a given kind.
  unfoldable pub restore_entry_kind :
      Kind → JournalEntry → String → State → Result Fault (Unit {0}) × State
  restore_entry_kind update e after s =
      elim (decode sha256 encode64 decode64 size64 V e.before_bytes_base64) [
        | none ↦ (err value_error, s)
        | some before ↦
            let (r, s') = write_bytes e.path before (some after) s in
            check_digest sha256 encode64 size64 V
              (has_text sha256 encode64 size64 V e.before_hash
                && not (digest_in sha256 encode64 size64 V (lift r, s') == e.before_hash))
              (lift r, s')
      ]
  restore_entry_kind create e after s =
      let (r, s') = delete_file e.path (some after) s in
      elim r [
        | err f ↦ (err (vault_error f), s')
        | ok _ ↦ (assert_absent sha256 encode64 size64 V e.path s', s')
      ]
  restore_entry_kind move e after s = elim (filled e.inverse_source) [
    | none ↦ (err runtime_error, s)
    | some source ↦
        let (r, s') = move_file e.path source (some after) s in
        check_digest sha256 encode64 size64 V
          (has_text sha256 encode64 size64 V e.before_hash
            && not (digest_in sha256 encode64 size64 V (lift r, s') == e.before_hash))
          (lift r, s')
  ]

  abbrev pub kind_of : EntryKind → Option Kind
  kind_of (did k) = some k
  kind_of undo = none

  unfoldable pub restore_entry : JournalEntry → String → State → Result Fault (Unit {0}) × State
  unfolding restore_entry_kind
  restore_entry e after s = elim (kind_of e.operation) [
    | none ↦ (err runtime_error, s)
    | some k ↦ restore_entry_kind k e after s
  ]

  -- The paths that a restored row adds.
  abbrev pub listed_paths : List String → JournalEntry → List String
  listed_paths restored e =
      let listed = restored ++ (e.path ∷ []) in
      let moved : Bool = elim (kind_of e.operation) [ none ↦ false | some k ↦ is_move k ] in
      if moved
      then elim (filled e.inverse_source) [
        | none ↦ listed
        | some source ↦ if contains listed source then listed else listed ++ (source ∷ [])
      ]
      else listed

  -- Pass 2: the restored paths, what failed, the vault and the history.
  unfoldable pub restore_all :
      String
      → List (JournalEntry × String)
      → ℕ
      → List String
      → State
      → Option History
      → List String × Option (String × Fault) × State × Option History
  unfolding restore_entry append_journal
  restore_all job [] seq restored s h = (restored, none, s, h)
  restore_all job ((e, after) ∷ rest) seq restored s h =
      let (r, s') = restore_entry e after s in
      elim r [
        | err f ↦ (restored, some (e.path, f), s', h)
        | ok _ ↦
            restore_all job rest (seq + 1) (listed_paths restored e) s'
              (append_journal (audit_row job seq e.path e.before_hash) h)
      ]

  abbrev result_with : String → JobStatus → List String → List String → Note → RecoveryResult
  result_with job status restored conflicts note = record {
    job_id = job;
    status = status;
    restored = restored;
    conflict_paths = conflicts;
    error = some note;
  }

  -- The end of `rollback_if_safe`, once nothing is in conflict.
  unfoldable pub restore_job :
      String
      → List (JournalEntry × String)
      → ℕ
      → State
      → Option History
      → RecoveryResult × State × Option History
  unfolding restore_all set_journal_state finish_record
  restore_job job mine seq s h =
      let (restored, failure, s', h') = restore_all job mine seq [] s h in
      elim failure [
        | some (path, f) ↦ (
          result_with job rollback_failed restored (path ∷ []) (explicit_failed_on path f),
          s',
          set_journal_state job reverted h',
        )
        | none ↦ (
          result_with job rolled_back restored [] explicit_complete,
          s',
          finish_record job rolled_back
              ("recovery_rolled_back", "explicit recovery rollback complete")
              (set_journal_state job reverted h'),
        )
      ]

  -- `rollback_if_safe`, for a job with a record.
  unfoldable pub recover_job :
      String → JobRecord → State → Option History → RecoveryResult × State × Option History
  unfolding restore_job classify_all uncertain_rows journal next_seq
  recover_job job r s h =
      let entries = journal job h in
      let rows = uncertain_rows entries in
      let (mine, conflicts) = classify_all rows s [] [] in
      if not (is_uncertain r.status)
      then (result_with job undo_unavailable [] [] not_uncertain, s, h)
      else if not (nonempty_rows rows)
      then (
        result_with job rolled_back [] [] nothing_to_restore,
        s,
        finish_record job failed ("recovery_nothing_applied", "no journaled steps were applied") h,
      )
      else if nonempty_paths conflicts
      then (result_with job conflict [] conflicts changed_externally, s, h)
      else restore_job job mine (next_seq entries) s h

  -- `rollback_if_safe`
  unfoldable pub rollback_if_safe :
      String → State → Option History → RecoveryResult × State × Option History
  unfolding recover_job get_job
  rollback_if_safe job s none =
      (result_with job undo_unavailable [] [] history_unavailable, s, none)
  rollback_if_safe job s (some h) = elim (find_job job h.jobs) [
    | none ↦ (result_with job undo_unavailable [] [] job_missing, s, some h)
    | some r ↦ recover_job job r s (some h)
  ]
