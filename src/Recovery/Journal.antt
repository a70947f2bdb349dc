-- ===== src/Recovery/Journal.antt =====
-- The journal: `make_entry` and `RecoveryJournal` of server/recovery/journal.py, over the rows of
-- the history. Base64 is a pair of parameters.
use local_book.Base.{
  Bool, List, Option, Result, String, [], err, false, if◌then◌else◌, ltb, none, ok, some, true, ℕ,
  ◌+◌, ◌==◌, ◌∷◌, nat_eq, string_eq, option_eq, list_eq,
}
use local_book.Recovery.{
  Bytes, EntryState, Fault, History, JournalEntry, Kind, Operation, did, inverse_kind,
  limit_exceeded, move, or_else, or_text, pending,
}

-- `append_journal`: the rows of a job are kept in the order of their numbers, stably.
unfoldable pub insert_entry : JournalEntry → List JournalEntry → List JournalEntry
insert_entry e [] = e ∷ []
insert_entry e (x ∷ rest) = if ltb e.seq x.seq then e ∷ x ∷ rest else x ∷ insert_entry e rest

unfoldable pub append_journal : JournalEntry → Option History → Option History
unfolding insert_entry
append_journal e none = none
append_journal e (some h) = some (record h { entries = insert_entry e h.entries })

unfoldable pub entries_of : String → List JournalEntry → List JournalEntry
entries_of job [] = []
entries_of job (x ∷ rest) =
    let more = entries_of job rest in if x.job_id == job then x ∷ more else more

-- `journal`; a service with no history has no rows.
unfoldable pub journal : String → Option History → List JournalEntry
unfolding entries_of
journal job none = []
journal job (some h) = entries_of job h.entries

unfoldable pub set_states : String → EntryState → List JournalEntry → List JournalEntry
set_states job state [] = []
set_states job state (x ∷ rest) =
    (if x.job_id == job then record x { state = state } else x) ∷ set_states job state rest

-- `set_journal_state`
unfoldable pub set_journal_state : String → EntryState → Option History → Option History
unfolding set_states
set_journal_state job state none = none
set_journal_state job state (some h) = some (record h { entries = set_states job state h.entries })

abbrev pub is_move : Kind → Bool
is_move move = true
is_move _ = false

module _ (sha256 : Bytes → String) (encode64 : Bytes → String) (size64 : String → ℕ) where
  -- `encode`
  abbrev pub encode : Option Bytes → Option String
  encode none = none
  encode (some b) = some (encode64 b)

  abbrev pub digest_of : Option Bytes → Option String
  digest_of none = none
  digest_of (some b) = some (sha256 b)

  -- `make_entry`
  unfoldable pub make_entry : String → ℕ → Operation → JournalEntry
  unfolding inverse_kind
  make_entry job seq o = record {
    job_id = job;
    seq = seq;
    operation = did o.kind;
    path = or_text o.target_path o.path;
    before_exists = o.before_exists;
    before_bytes_base64 = encode o.before_bytes;
    before_hash = o.before_hash;
    after_exists = true;
    after_hash = or_else o.after_hash (digest_of o.after_bytes);
    inverse = some (inverse_kind o);
    inverse_source =
        if is_move o.kind then some (elim o.source [ none ↦ "" | some s ↦ s ]) else none;
    state = pending;
  }

  abbrev pub size_of : Option String → ℕ
  size_of none = 0
  size_of (some s) = size64 s

  -- `record_operation`, with the bytes recorded so far: it raises past the limit, and then has
  -- written no row.
  unfoldable pub record_operation :
      (max_bytes : ℕ)
      → String
      → ℕ
      → Operation
      → ℕ
      → Option History
      → Result Fault ℕ × Option History
  unfolding make_entry append_journal
  record_operation max_bytes job seq o used h =
      let entry = make_entry job seq o in
      let used' = used + size_of entry.before_bytes_base64 in
      if ltb max_bytes used' then (err limit_exceeded, h) else (ok used', append_journal entry h)
