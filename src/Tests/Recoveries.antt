-- ===== src/Tests/Recoveries.antt =====
-- A transaction that creates, updates and moves a note, and the recovery of a job.
use local_book.Base.{
  List, Option, String, [], false, if◌then◌else◌, none, ok, refl, some, true, ℕ, ◌==◌, ◌∷◌, ◌≡◌,
  nat_eq, string_eq, option_eq, list_eq,
}
use local_book.Recovery.{
  History, JournalEntry, Operation, RecoveryResult, already_undone, committed, conflict, create,
  did, move, pending, recovery_required, rolled_back, undone, update, write_before,
}
use local_book.Recovery.Undo.{unavailable, undo_job}
use local_book.Recovery.Once.{undo_job-again}
use local_book.Recovery.Executor.{execute}
use local_book.Recovery.Explicit.{rollback_if_safe}
use local_book.Recovery.Steps.{View, set_path}
use local_book.Recovery.Safe.{Safely, rollback_if_safe-Safely}
use local_book.Tests.Memory.{digest, memory, read}

abbrev size : String → ℕ
size t = 4

abbrev files : View
files p = if p == "b.md" then some (2 ∷ []) else if p == "c.md" then some (4 ∷ []) else none

abbrev creating : Operation
creating = record {
  kind = create;
  path = "a.md";
  before_exists = false;
  before_bytes = none;
  before_hash = none;
  after_bytes = some (1 ∷ []);
  after_hash = none;
  target_path = none;
  source = none;
}

abbrev updating : Operation
updating = record {
  kind = update;
  path = "b.md";
  before_exists = true;
  before_bytes = some (2 ∷ []);
  before_hash = some (digest (2 ∷ []));
  after_bytes = some (3 ∷ []);
  after_hash = none;
  target_path = none;
  source = none;
}

abbrev moving : Operation
moving = record {
  kind = move;
  path = "d.md";
  before_exists = true;
  before_bytes = none;
  before_hash = some (digest (4 ∷ []));
  after_bytes = none;
  after_hash = some (digest (4 ∷ []));
  target_path = some "d.md";
  source = some "c.md";
}

abbrev steps : List Operation
steps = creating ∷ updating ∷ moving ∷ []

-- The run of the example commits, and the note is moved.
steps_commit :
    ((execute digest digest size memory 100 "job" steps files none).0.status ≡ committed)
    × ((execute digest digest size memory 100 "job" steps files none).1 "d.md" ≡ some (4 ∷ []))
unfolding execute
steps_commit = (refl, refl)

-- A second file in the way of the move: the two steps before it are taken back.
steps_roll_back :
    let crowded = set_path "d.md" (some []) files in
    let r = execute digest digest size memory 100 "job" steps crowded none in
    (r.0.status ≡ rolled_back) × (r.1 "b.md" ≡ some (2 ∷ [])) × (r.1 "a.md" ≡ none)
unfolding execute
steps_roll_back = (refl, refl, refl)

-- A creation that raises after its change: the file is there, and the status says a conflict.
late_creation :
    let late = record creating { path = "late.md" } in
    let r = execute digest digest size memory 100 "job" (late ∷ []) files none in
    (r.0.status ≡ conflict) × (r.1 "late.md" ≡ some (1 ∷ []))
unfolding execute
late_creation = (refl, refl)

abbrev row : JournalEntry
row = record {
  job_id = "job";
  seq = 0;
  operation = did update;
  path = "b.md";
  before_exists = true;
  before_bytes_base64 = some (digest (1 ∷ []));
  before_hash = some (digest (1 ∷ []));
  after_exists = true;
  after_hash = some (digest (2 ∷ []));
  inverse = some write_before;
  inverse_source = none;
  state = pending;
}

abbrev history : Option History
history = some (record {
  entries = row ∷ [];
  jobs = record { job_id = "job"; status = recovery_required; error = none } ∷ [];
})

abbrev decoded : String → Option (List ℕ)
decoded t = some (read 0 t)

rollback_if_safe-Safely_example :
    Safely digest digest decoded size memory "job" files history
      (rollback_if_safe digest digest decoded size memory "job" files history)
rollback_if_safe-Safely_example =
    rollback_if_safe-Safely digest digest decoded size memory "job" files history

abbrev after_undo : RecoveryResult
after_undo = record {
  job_id = "job";
  status = undone;
  restored = "b.md" ∷ [];
  conflict_paths = [];
  error = none;
}

undo_job-again_example :
    let u = undo_job digest digest decoded size memory "job" files history in
    undo_job digest digest decoded size memory "job" u.1 u.2
    ≡ (ok (unavailable "job" already_undone), u.1, u.2)
unfolding undo_job read
undo_job-again_example =
    undo_job-again digest digest decoded size memory "job" files history after_undo refl refl
