-- ===== src/Recovery/Executor.antt =====
-- `TransactionExecutor` of server/recovery/executor.py.
use local_book.Base.{
  Bool, List, Option, Result, String, [], contains, err, false, if◌then◌else◌, none, not, ok, some,
  true, ℕ, ◌&&◌, ◌++◌, ◌+◌, ◌==◌, ◌∷◌, nat_eq, string_eq, option_eq, list_eq,
}
use local_book.Recovery.{
  Bytes, Failure, Fault, History, JobStatus, Note, Operation, RecoveryResult, Vault, applied,
  committed, conflict, conflict_before_write, create, filled, move, not_found, other_failure,
  pending, reverted, rollback_failed, rollback_failed_on, rolled_back, runtime_error,
  transaction_failed, update, value_error, vault_error,
}
use local_book.Recovery.Journal.{is_move, record_operation, set_journal_state}

-- A result of the vault, as an exception of the step or its digest.
abbrev pub lift : {A : Type 0} → Result Failure A → Result Fault A
lift (ok a) = ok a
lift (err f) = err (vault_error f)

module _ (sha256 : Bytes → String) (encode64 : Bytes → String) (size64 : String → ℕ)
    (V : Vault) where
  open V use {State, read_bytes, create_bytes, write_bytes, delete_file, move_file}

  abbrev pub lifted : Result Failure (Option String) × State → Result Fault (Option String) × State
  lifted (r, s) = (lift r, s)

  -- `_apply`
  unfoldable pub apply : Operation → State → Result Fault (Option String) × State
  apply o s = elim o.kind [
    | create ↦ elim o.after_bytes [
      | none ↦ (err value_error, s)
      | some bytes ↦ lifted (create_bytes o.path bytes s)
    ]
    | update ↦ elim o.after_bytes [
      | none ↦ (err value_error, s)
      | some bytes ↦ lifted (write_bytes o.path bytes o.before_hash s)
    ]
    | move ↦ elim (filled o.source) [
      | none ↦ (err value_error, s)
      | some source ↦ lifted (move_file source o.path o.before_hash s)
    ]
  ]

  -- `_after_hash`
  unfoldable pub after_hash_of : Operation → Option String → Result Fault String
  after_hash_of o digest = elim (filled digest) [
    | some d ↦ ok d
    | none ↦ elim o.after_bytes [ none ↦ err runtime_error | some bytes ↦ ok (sha256 bytes) ]
  ]

  -- `_assert_absent`
  unfoldable pub assert_absent : String → State → Result Fault (Unit {0})
  assert_absent path s = elim (read_bytes path s) [
    | ok _ ↦ err runtime_error
    | err f ↦ elim f [ not_found ↦ ok tt | other_failure ↦ err (vault_error other_failure) ]
  ]

  -- The check of a digest that a restoring call returned.
  abbrev pub check_digest :
      Bool → Result Fault (Option String) × State → Result Fault (Unit {0}) × State
  check_digest wrong (err f, s) = (err f, s)
  check_digest wrong (ok d, s) = (if wrong then err runtime_error else ok tt, s)

  abbrev pub digest_in : Result Fault (Option String) × State → Option String
  digest_in (ok d, s) = d
  digest_in (err f, s) = none

  abbrev pub has_text : Option String → Bool
  has_text d = elim (filled d) [ none ↦ false | some _ ↦ true ]

  abbrev pub deleted :
      String → Result Fault (Option String) × State → Result Fault (Unit {0}) × State
  deleted path (err f, s) = (err f, s)
  deleted path (ok d, s) = (assert_absent path s, s)

  -- `_undo_one`
  unfoldable pub undo_one : Operation → String → State → Result Fault (Unit {0}) × State
  unfolding assert_absent
  undo_one o after s = elim o.kind [
    | create ↦ deleted o.path (lifted (delete_file o.path (some after) s))
    | update ↦ elim o.before_bytes [
      | none ↦ (err value_error, s)
      | some before ↦
          let r = lifted (write_bytes o.path before (some after) s) in
          check_digest (not (digest_in r == o.before_hash)) r
    ]
    | move ↦ elim (filled o.source) [
      | none ↦ (err value_error, s)
      | some source ↦
          let r = lifted (move_file o.path source (some after) s) in
          check_digest (has_text o.before_hash && not (digest_in r == o.before_hash)) r
    ]
  ]

  -- The paths that a restored step adds: a move's source once.
  abbrev pub restored_paths : List String → Operation → List String
  restored_paths restored o =
      let listed = restored ++ (o.path ∷ []) in
      if is_move o.kind
      then elim (filled o.source) [
        | none ↦ listed
        | some source ↦ if contains listed source then listed else listed ++ (source ∷ [])
      ]
      else listed

  -- The executed steps, the newest first, which is the order of a rollback.
  abbrev pub Executed : Type 0
  Executed = List (Operation × String)

  -- The loop of `_rollback`; the second part says what failed, if anything.
  unfoldable pub rollback_steps :
      Executed → List String → State → List String × Option (String × Fault) × State
  unfolding undo_one
  rollback_steps [] restored s = (restored, none, s)
  rollback_steps ((o, after) ∷ rest) restored s =
      let (r, s') = undo_one o after s in
      let more = rollback_steps rest (restored_paths restored o) s' in
      elim r [ err f ↦ (restored, some (o.path, f), s') | ok _ ↦ more ]

  -- `_rollback`; both ends mark the journal.
  unfoldable pub rollback : String → Executed → Fault → State → RecoveryResult × State
  unfolding rollback_steps
  rollback job executed cause s =
      let (restored, failure, s') = rollback_steps executed [] s in
      (
        elim failure [
          | none ↦ record {
            job_id = job;
            status = rolled_back;
            restored = restored;
            conflict_paths = [];
            error = some (transaction_failed cause);
          }
          | some (path, f) ↦ record {
            job_id = job;
            status = rollback_failed;
            restored = restored;
            conflict_paths = path ∷ [];
            error = some (rollback_failed_on path f);
          }
        ],
        s',
      )

  -- What the loop of `execute` ends in.
  pub record Progress : Type 0 where
    pub fault : Option Fault
    pub executed : Executed
    pub vault : State
    pub history : Option History

  abbrev stopped : Fault → Executed → State → Option History → Progress
  stopped f executed s h = record { fault = some f; executed = executed; vault = s; history = h }

  -- The loop of `execute`: the journal row, then the write, then its digest.
  unfoldable pub run_steps :
      (max_bytes : ℕ)
      → String
      → List Operation
      → (seq used : ℕ) → Executed
      → State
      → Option History
      → Progress
  unfolding record_operation apply after_hash_of
  run_steps max_bytes job [] seq used executed s h = record {
    fault = none;
    executed = executed;
    vault = s;
    history = h;
  }
  run_steps max_bytes job (o ∷ rest) seq used executed s h =
      let (recorded, h') = record_operation sha256 encode64 size64 max_bytes job seq o used h in
      let (done, s') = apply o s in
      elim recorded [
        | err f ↦ stopped f executed s h'
        | ok used' ↦ elim done [
          | err f ↦ stopped f executed s' h'
          | ok digest ↦ elim (after_hash_of o digest) [
            | err f ↦ stopped f executed s' h'
            | ok after ↦ run_steps max_bytes job rest (seq + 1) used' ((o, after) ∷ executed) s' h'
          ]
        ]
      ]

  abbrev plain_result : String → JobStatus → Option Note → RecoveryResult
  plain_result job status note = record {
    job_id = job;
    status = status;
    restored = [];
    conflict_paths = [];
    error = note;
  }

  abbrev pub finish :
      String
      → Option Fault
      → Executed
      → State
      → Option History
      → RecoveryResult × State × Option History
  finish job none executed s h =
      (plain_result job committed none, s, set_journal_state job applied h)
  finish job (some f) [] s h = (
    plain_result job conflict (some (conflict_before_write f)),
    s,
    set_journal_state job pending h,
  )
  finish job (some f) (x ∷ executed) s h =
      let (result, s') = rollback job (x ∷ executed) f s in
      (result, s', set_journal_state job reverted h)

  -- `execute`
  unfoldable pub execute :
      (max_bytes : ℕ)
      → String
      → List Operation
      → State
      → Option History
      → RecoveryResult × State × Option History
  unfolding run_steps rollback set_journal_state
  execute max_bytes job operations s h =
      let p = run_steps max_bytes job operations 0 0 [] s h in
      finish job p.fault p.executed p.vault p.history
