-- ===== src/Recovery/Once.antt =====
-- What a first undo of a job means for a second one.
use mathlib.Core.List.{reverse-reverse}
use local_book.Base.{
  Bool, Bool-cases, List, Option, Result, String, [], any, ap, arith, beq_refl, err, false, inl,
  inr, none, ok, refl, reverse, some, sym, true, ℕ, ◌&&◌, ◌++◌, ◌+◌, ◌==◌, ◌||◌, ◌∙◌, ◌∷◌, ◌≡◌, ◌≢◌,
  ◌⊎◌, nat_eq, string_eq, option_eq, list_eq,
}
use local_book.Recovery.{
  Bytes, Fault, History, JobStatus, JournalEntry, RecoveryResult, Vault, already_undone, failed,
  undone,
}
use local_book.Recovery.Journal.{append_journal, entries_of, insert_entry, journal}
use local_book.Recovery.Undo.{
  Restored, UndoEnd, all_restored, audit_row, audited, conflicting, escaped, executable, is_undo,
  next_seq, nonempty_entries, raised, restore_one, stopped_at, unavailable, undo_job, undo_result,
  undo_steps,
}

-- A row that records an undo, and a history with such a row of a job.
abbrev pub is_audit : JournalEntry → Bool
is_audit e = is_undo e.operation

abbrev pub IsUndone : String → Option History → Type 0
IsUndone job h = any is_audit (journal job h) ≡ true

any-insert_entry :
    (job : String) (e : JournalEntry) (rows : List JournalEntry)
    → any is_audit (entries_of job (insert_entry e rows))
      ≡ (e.job_id == job && is_audit e || any is_audit (entries_of job rows))
unfolding entries_of insert_entry
any-insert_entry job e [] = ground arith
any-insert_entry job e (x ∷ rest) = ground (arith, any-insert_entry job e rest)

append_journal-IsUndone :
    (job : String) (seq : ℕ) (path : String) (d : Option String) (h : Option History)
    → h ≢ none
    → IsUndone job (append_journal (audit_row job seq path d) h)
unfolding append_journal journal
append_journal-IsUndone job seq path d none filled_history = elim (filled_history refl) [ ]
append_journal-IsUndone job seq path d (some h) filled_history =
    any-insert_entry job (audit_row job seq path d) h.entries ∙ rw (beq_refl job) refl

append_journal-filled :
    (e : JournalEntry) (h : Option History) → h ≢ none → append_journal e h ≢ none
unfolding append_journal
append_journal-filled e none filled_history k = filled_history refl
append_journal-filled e (some h) filled_history k = cc k

restored_cases :
    (r : Restored)
    → (r ≡ conflicting)
      ⊎ ((f : Fault) × (r ≡ raised f))
      ⊎ ((p : String) × (d : Option String) × (r ≡ audited p d))
restored_cases conflicting = inl refl
restored_cases (raised f) = inr (inl (f, refl))
restored_cases (audited p d) = inr (inr (p, d, refl))

nonempty_of_any :
    (rows : List JournalEntry) → any is_audit rows ≡ true → nonempty_entries rows ≡ true
nonempty_of_any [] h = cc h
nonempty_of_any (e ∷ rest) h = refl

filled_of_entries :
    (job : String) (h : Option History) → nonempty_entries (journal job h) ≡ true → h ≢ none
unfolding journal
filled_of_entries job none e = cc e
filled_of_entries job (some h) e = λ k. cc k

executable_all : (rows : List JournalEntry) → any is_audit rows ≡ false → executable rows ≡ rows
unfolding executable
executable_all [] h = refl
executable_all (e ∷ rest) h = let more = executable_all rest (ground arith) in ground arith

executable_rows :
    (rows : List JournalEntry)
    → nonempty_entries rows ≡ true
    → any is_audit rows ≡ false
    → reverse (executable rows) ≢ []
executable_rows [] b h e = cc b
executable_rows (x ∷ rest) b h e =
    let whole = executable_all (x ∷ rest) h in
    let back : x ∷ rest ≡ reverse [] =
      sym (reverse-reverse (x ∷ rest)) ∙ ap reverse (rw whole at e) in
    cc back

-- The status of a result, of one that is no exception.
abbrev status_of : Result Fault RecoveryResult → JobStatus
status_of (ok r) = r.status
status_of (err f) = failed

module _ (sha256 : Bytes → String) (encode64 : Bytes → String) (decode64 : String → Option Bytes)
    (size64 : String → ℕ) (V : Vault) where
  open V use {State}

  abbrev steps :
      String
      → List JournalEntry
      → ℕ
      → List String
      → State
      → Option History
      → UndoEnd × List String × State × Option History
  steps = undo_steps sha256 encode64 decode64 size64 V

  -- Steps that come to the end leave a mark, if there was one or if there was a row.
  undo_steps-IsUndone :
      (job : String) (l : List JournalEntry) (seq : ℕ) (restored : List String) (s : State)
      (h : Option History)
      → h ≢ none
      → IsUndone job h ⊎ (l ≢ [])
      → (steps job l seq restored s h).0 ≡ all_restored
      → IsUndone job (steps job l seq restored s h).3
  unfolding undo_steps
  undo_steps-IsUndone job [] seq restored s h filled_history (inl marked) e = marked
  undo_steps-IsUndone job [] seq restored s h filled_history (inr some_row) e =
      elim (some_row refl) [ ]
  undo_steps-IsUndone job (x ∷ rest) seq restored s h filled_history start e =
      let r = restore_one sha256 encode64 decode64 size64 V x s in
      elim (restored_cases r.0) [
        | inl c ↦ let e' = rw (c, undo_steps) at e in cc
        | inr (inl (f, c)) ↦ let e' = rw (c, undo_steps) at e in cc
        | inr (inr (p, d, c)) ↦
            rw (c, undo_steps)
              (undo_steps-IsUndone job rest (seq + 1) (restored ++ (x.path ∷ [])) r.1
                (append_journal (audit_row job seq p d) h)
                (append_journal-filled (audit_row job seq p d) h filled_history)
                (inl (append_journal-IsUndone job seq p d h filled_history))
                (rw (c, undo_steps) at e))
      ]

  abbrev pub undoing :
      String → State → Option History → Result Fault RecoveryResult × State × Option History
  undoing = undo_job sha256 encode64 decode64 size64 V

  again :
      (job : String) (s : State) (h : Option History)
      → IsUndone job h
      → undoing job s h ≡ (ok (unavailable job already_undone), s, h)
  unfolding undo_job
  again job s h marked = rw (nonempty_of_any (journal job h) marked, marked, undo_job) refl

  after_steps :
      (job : String) (s : State) (h : Option History) (r : RecoveryResult) (end : UndoEnd)
      (restored : List String) (h' : Option History)
      → undo_result sha256 encode64 decode64 size64 V job end restored ≡ ok r
      → r.status ≡ undone
      → (end ≡ all_restored → IsUndone job h')
      → IsUndone job h'
  after_steps job s h r all_restored restored h' e done k = k refl
  after_steps job s h r (stopped_at path) restored h' e done k = cc (ap status_of e, done)
  after_steps job s h r (escaped f) restored h' e done k = cc e

  undone-IsUndone :
      (job : String) (s : State) (h : Option History) (r : RecoveryResult)
      → (undoing job s h).0 ≡ ok r
      → r.status ≡ undone
      → IsUndone job (undoing job s h).2
  unfolding undo_job
  undone-IsUndone job s h r e done =
      let entries = journal job h in
      let l = reverse (executable entries) in
      let run = steps job l (next_seq entries) [] s h in
      elim (Bool-cases (nonempty_entries entries)) [
        | inr b ↦ let e' = rw (b, undo_job) at e in cc (ap status_of e', done)
        | inl b ↦ elim (Bool-cases (any is_audit entries)) [
          | inl c ↦ let e' = rw (b, c, undo_job) at e in cc (ap status_of e', done)
          | inr c ↦
              rw (b, c, undo_job)
                (after_steps job s h r run.0 run.1 run.3 (rw (b, c, undo_job) at e) done (λ end.
                  undo_steps-IsUndone job l (next_seq entries) [] s h (filled_of_entries job h b)
                    (inr (executable_rows entries b c)) end))
        ]
      ]

  -- An undo that reports `undone` has closed the job: a second undo of it, right after, reports
  -- `undo_unavailable`, and changes neither the files nor the history.
  pub undo_job-again :
      (job : String) (s : State) (h : Option History) (r : RecoveryResult)
      → (undoing job s h).0 ≡ ok r
      → r.status ≡ undone
      → undoing job (undoing job s h).1 (undoing job s h).2
        ≡ (ok (unavailable job already_undone), (undoing job s h).1, (undoing job s h).2)
  undo_job-again job s h r e done =
      again job (undoing job s h).1 (undoing job s h).2 (undone-IsUndone job s h r e done)
