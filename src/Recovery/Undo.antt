-- ===== src/Recovery/Undo.antt =====
-- `UndoService` of server/recovery/undo.py.
use local_book.Base.{
  Bool, List, Option, Result, String, [], any, err, false, if◌then◌else◌, max, none, not, ok,
  reverse, some, true, ℕ, ◌&&◌, ◌++◌, ◌+◌, ◌==◌, ◌∷◌, nat_eq, string_eq, option_eq, list_eq,
}
use local_book.Recovery.{
  Bytes, EntryKind, Failure, Fault, History, JournalEntry, Kind, Note, RecoveryResult, Vault,
  already_undone, applied, changed_externally, conflict, create, did, filled, move, no_journal,
  not_found, other_failure, undo, undo_unavailable, undone, update, value_error, vault_error,
}
use local_book.Recovery.Journal.{append_journal, journal}
use local_book.Recovery.Executor.{has_text}

-- The rows with an executable operation, and whether there is an audit row of an undo.
abbrev pub is_undo : EntryKind → Bool
is_undo undo = true
is_undo (did k) = false

unfoldable pub executable : List JournalEntry → List JournalEntry
executable [] = []
executable (e ∷ rest) = let more = executable rest in if is_undo e.operation then more else e ∷ more

-- `max((entry.seq for entry in entries), default=-1) + 1`
unfoldable pub next_seq : List JournalEntry → ℕ
next_seq [] = 0
next_seq (e ∷ rest) = max (e.seq + 1) (next_seq rest)

-- The row that `_append_audit` writes.
abbrev pub audit_row : String → ℕ → String → Option String → JournalEntry
audit_row job seq path restored_hash = record {
  job_id = job;
  seq = seq;
  operation = undo;
  path = path;
  before_exists = false;
  before_bytes_base64 = none;
  before_hash = restored_hash;
  after_exists = false;
  after_hash = none;
  inverse = none;
  inverse_source = none;
  state = applied;
}

-- How the loop of `undo` ends: all restored, a conflict at a path, or an exception that leaves it.
pub data UndoEnd : Type 0 where
  all_restored : UndoEnd
  stopped_at : String → UndoEnd
  escaped : Fault → UndoEnd

-- The outcome of one restored row: a conflict, another exception, or its audit row.
pub data Restored : Type 0 where
  conflicting : Restored
  raised : Fault → Restored
  audited : String → Option String → Restored

-- The answer where there is nothing to undo.
abbrev pub unavailable : String → Note → RecoveryResult
unavailable job note = record {
  job_id = job;
  status = undo_unavailable;
  restored = [];
  conflict_paths = [];
  error = some note;
}

abbrev pub nonempty_entries : List JournalEntry → Bool
nonempty_entries [] = false
nonempty_entries (e ∷ rest) = true

module _ (sha256 : Bytes → String) (encode64 : Bytes → String) (decode64 : String → Option Bytes)
    (size64 : String → ℕ) (V : Vault) where
  open V use {State, read_bytes, write_bytes, delete_file, move_file}

  -- `decode`; `none` where `b64decode` raises a `ValueError`.
  abbrev pub decode : Option String → Option Bytes
  decode none = some []
  decode (some text) = if text == "" then some [] else decode64 text

  -- `_require_current`
  unfoldable pub is_current : String → Option String → State → Bool
  is_current path expected s = elim (read_bytes path s) [
    | err _ ↦ false
    | ok (_, digest) ↦ some digest == expected
  ]

  abbrev conclude : Bool → Restored → Result Failure (Option String) × State → Restored × State
  conclude wrong done (err f, s) = (raised (vault_error f), s)
  conclude wrong done (ok d, s) = (if wrong then conflicting else done, s)

  abbrev digest_of_call : Result Failure (Option String) × State → Option String
  digest_of_call (ok d, s) = d
  digest_of_call (err f, s) = none

  -- `_assert_absent` of the undo: a file that is still there is a conflict.
  abbrev pub absent_or :
      String → Restored → Result Failure (Option String) × State → Restored × State
  absent_or path done (err f, s) = (raised (vault_error f), s)
  absent_or path done (ok d, s) = (
    elim (read_bytes path s) [
      | ok _ ↦ conflicting
      | err f ↦ elim f [ not_found ↦ done | other_failure ↦ raised (vault_error other_failure) ]
    ],
    s,
  )

  -- `_restore_one`, for a row of a given kind.
  unfoldable pub restore_kind : Kind → JournalEntry → State → Restored × State
  unfolding is_current
  restore_kind move e s = elim (filled e.inverse_source) [
    | none ↦ (conflicting, s)
    | some source ↦
        let r = move_file e.path source e.after_hash s in
        if is_current e.path e.after_hash s
        then conclude
            (has_text sha256 encode64 size64 V e.before_hash
              && not (digest_of_call r == e.before_hash))
            (audited source e.before_hash) r
        else (conflicting, s)
  ]
  restore_kind create e s =
      let r = delete_file e.path e.after_hash s in
      if is_current e.path e.after_hash s
      then absent_or e.path (audited e.path none) r
      else (conflicting, s)
  restore_kind update e s =
      if is_current e.path e.after_hash s
      then elim (decode e.before_bytes_base64) [
        | none ↦ (raised value_error, s)
        | some before ↦
            let r = write_bytes e.path before e.after_hash s in
            conclude (not (digest_of_call r == e.before_hash)) (audited e.path e.before_hash) r
      ]
      else (conflicting, s)

  -- A row that is no audit row is restored by its kind; the others are never asked for.
  unfoldable pub restore_one : JournalEntry → State → Restored × State
  unfolding restore_kind
  restore_one e s = elim e.operation [ did k ↦ restore_kind k e s | undo ↦ (conflicting, s) ]

  unfoldable pub undo_steps :
      String
      → List JournalEntry
      → ℕ
      → List String
      → State
      → Option History
      → UndoEnd × List String × State × Option History
  unfolding restore_one append_journal
  undo_steps job [] seq restored s h = (all_restored, restored, s, h)
  undo_steps job (e ∷ rest) seq restored s h =
      let (r, s') = restore_one e s in
      elim r [
        | conflicting ↦ (stopped_at e.path, restored, s', h)
        | raised f ↦ (escaped f, restored, s', h)
        | audited path digest ↦
            undo_steps job rest (seq + 1) (restored ++ (e.path ∷ [])) s'
              (append_journal (audit_row job seq path digest) h)
      ]

  abbrev pub undo_result : String → UndoEnd → List String → Result Fault RecoveryResult
  undo_result job all_restored restored = ok (record {
    job_id = job;
    status = undone;
    restored = restored;
    conflict_paths = [];
    error = none;
  })
  undo_result job (stopped_at path) restored = ok (record {
    job_id = job;
    status = conflict;
    restored = restored;
    conflict_paths = path ∷ [];
    error = some changed_externally;
  })
  undo_result job (escaped f) restored = err f

  -- `UndoService.undo`
  unfoldable pub undo_job :
      String → State → Option History → Result Fault RecoveryResult × State × Option History
  unfolding undo_steps journal executable next_seq
  undo_job job s h =
      let entries = journal job h in
      let (end, restored, s', h') =
        undo_steps job (reverse (executable entries)) (next_seq entries) [] s h in
      if not (nonempty_entries entries)
      then (ok (unavailable job no_journal), s, h)
      else if any (λ e. is_undo e.operation) entries
      then (ok (unavailable job already_undone), s, h)
      else (undo_result job end restored, s', h')
