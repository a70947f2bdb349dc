-- ===== src/Recovery.antt =====
-- Transactions over the vault: the records of server/recovery/schemas.py, the journal that
-- server/history/service.py keeps in memory, and the operations of the vault as an interface.
pub mod Journal
pub mod Executor
pub mod Undo
pub mod Explicit
pub mod Steps
pub mod Inverse
pub mod Rollback
pub mod Safe
pub mod Once
use local_book.Base.{
  Bool, List, Option, Result, String, if◌then◌else◌, none, some, ℕ, ◌==◌, nat_eq, string_eq,
  option_eq, list_eq,
}

abbrev pub Bytes : Type 0
Bytes = List ℕ

-- `JobStatus`
pub data JobStatus : Type 0 where
  planned preflighted captured awaiting_confirmation executing validating : JobStatus
  committed rejected rolled_back failed conflict undone undo_unavailable : JobStatus
  rollback_failed recovery_required : JobStatus

-- `TransactionOperation.operation`
pub data Kind : Type 0 where
  create update move : Kind

-- `TransactionOperation`; `source` is `metadata.get("source")`.
pub record Operation : Type 0 where
  pub kind : Kind
  pub path : String
  pub before_exists : Bool
  pub before_bytes : Option Bytes
  pub before_hash : Option String
  pub after_bytes : Option Bytes
  pub after_hash : Option String
  pub target_path : Option String
  pub source : Option String

-- `inverse_kind`
pub data InverseKind : Type 0 where
  delete_after move_back write_before : InverseKind

unfoldable pub inverse_kind : Operation → InverseKind
inverse_kind o = elim o.kind [ create ↦ delete_after | move ↦ move_back | update ↦ write_before ]

-- What a journal row says was done; `undo` rows are the audit of a restored path.
pub data EntryKind : Type 0 where
  did : Kind → EntryKind
  undo : EntryKind

pub data EntryState : Type 0 where
  pending applied reverted : EntryState

-- `JournalEntry`; the `inverse` dict as its two possible keys.
pub record JournalEntry : Type 0 where
  pub job_id : String
  pub seq : ℕ
  pub operation : EntryKind
  pub path : String
  pub before_exists : Bool
  pub before_bytes_base64 : Option String
  pub before_hash : Option String
  pub after_exists : Bool
  pub after_hash : Option String
  pub inverse : Option InverseKind
  pub inverse_source : Option String
  pub state : EntryState

-- A job record, as far as recovery reads and writes it.
pub record JobRecord : Type 0 where
  pub job_id : String
  pub status : JobStatus
  pub error : Option (String × String)

-- The history: journal rows in the order of their numbers, and job records.
pub record History : Type 0 where
  pub entries : List JournalEntry
  pub jobs : List JobRecord

-- An error of the vault: `not_found`, or any other code.
pub data Failure : Type 0 where
  not_found other_failure : Failure

-- The exceptions that end a step.
pub data Fault : Type 0 where
  vault_error : Failure → Fault
  value_error runtime_error limit_exceeded : Fault

-- The `error` of a `RecoveryResult`.
pub data Note : Type 0 where
  conflict_before_write transaction_failed : Fault → Note
  rollback_failed_on explicit_failed_on : String → Fault → Note
  no_journal already_undone changed_externally history_unavailable job_missing : Note
  not_uncertain nothing_to_restore explicit_complete : Note

-- `RecoveryResult`
pub record RecoveryResult : Type 0 where
  pub job_id : String
  pub status : JobStatus
  pub restored : List String
  pub conflict_paths : List String
  pub error : Option Note

-- The operations of `VaultService` that recovery calls; a result is its `sha256` entry.
pub record Vault : Type 1 where
  pub State : Type 0
  pub read_bytes : String → State → Result Failure (Bytes × String)
  pub create_bytes : String → Bytes → State → Result Failure (Option String) × State
  pub write_bytes : String → Bytes → Option String → State → Result Failure (Option String) × State
  pub delete_file : String → Option String → State → Result Failure (Option String) × State
  pub move_file : String → String → Option String → State → Result Failure (Option String) × State

-- Python's `x or y` on optional texts.
abbrev pub or_else : Option String → Option String → Option String
or_else none y = y
or_else (some s) y = if s == "" then y else some s

abbrev pub or_text : Option String → String → String
or_text none y = y
or_text (some s) y = if s == "" then y else s

-- A text that is there and not empty.
abbrev pub filled : Option String → Option String
filled none = none
filled (some s) = if s == "" then none else some s
