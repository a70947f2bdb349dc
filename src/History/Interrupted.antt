-- ===== src/History/Interrupted.antt =====
-- What the marking after a crash does to each run.
use mathlib.Core.Option
use local_book.Base.{
  All, Bool, Bool-cases, List, Option, Option-cases, [], any, ap, arith, eqb, eqb_iff, false,
  if◌then◌else◌, inl, inr, none, refl, some, subst, sym, true, ℕ, ◌||◌, ◌∙◌, ◌∷◌, ◌≡◌, nat_eq,
  string_eq, option_eq, list_eq,
}
use local_book.Scheduler.{
  Run, RunStatus, get_run, insert_by_start, keep_runs, queued, recovery_required, running,
  runs_with_status, save_run, sort_by_start,
}
use local_book.Scheduler.Rows.{get_run-save_run}
use local_book.History.{Mirror}
use local_book.History.Scanner.{
  is_uncertain_run, mark_all, mark_recovery_required, mark_run, mark_runs,
}
use local_book.History.Kept.{
  All-keep_runs, All-sort_by_start, All-weaken, HasKeys, HasKeys-IsIn, IsIn,
}

-- The row of a run that was queued or running, as the marking is to leave it.
abbrev pub cut_short : ℕ → Run → Run
cut_short now r = record {
  run_id = r.run_id;
  task = r.task;
  trigger = r.trigger;
  idempotency_key = r.idempotency_key;
  status = recovery_required;
  agent_job_id = r.agent_job_id;
  scheduled_for = r.scheduled_for;
  started_at = r.started_at;
  finished_at = elim r.finished_at [ none ↦ some now | some t ↦ some t ];
  error_code = some "process_interrupted";
  message = some "process interrupted; explicit diagnosis required";
  created_at = r.created_at;
}

abbrev pub was_going : RunStatus → Bool
was_going queued = true
was_going running = true
was_going _ = false

-- The row after the marking, of the one before.
abbrev pub run_after_marking : ℕ → Option Run → Option Run
run_after_marking now none = none
run_after_marking now (some r) = if was_going r.status then some (cut_short now r) else some r

abbrev mark_run_if : Bool → ℕ → Option Run → Option Run
mark_run_if b now none = none
mark_run_if b now (some r) = if b then some (mark_run now r) else some r

abbrev has_id : ℕ → Run → Bool
has_id j x = eqb x.run_id j

-- The rows of a scan are the run that is looked for, wherever they have its id.
abbrev OnlyRow : ℕ → Run → Run → Type 0
OnlyRow j r x = has_id j x ≡ true → x ≡ r

get_run-mark_runs :
    (j now : ℕ) (r : Run) (rows runs : List Run)
    → All (OnlyRow j r) rows
    → get_run j (mark_runs now rows runs)
      ≡ (if any (has_id j) rows then some (mark_run now r) else get_run j runs)
unfolding mark_runs
get_run-mark_runs j now r [] runs only = refl
get_run-mark_runs j now r (x ∷ rows) runs (one, only) =
    let saved = save_run (mark_run now x) runs in
    let more = get_run-mark_runs j now r rows saved only in
    let here = get_run-save_run j (mark_run now x) runs in
    elim (Bool-cases (has_id j x)) [
      | inl e ↦
          let same = ap (mark_run now) (one e) in
          rw e (
            more ∙ (elim (Bool-cases (any (has_id j) rows)) [
              | inl a ↦ rw a refl
              | inr a ↦ rw a (here ∙ rw e (ap some same))
            ]))
      | inr e ↦ rw e (
          more
          ∙ ap (λ o. if any (has_id j) rows then some (mark_run now r) else o) (here ∙ rw e refl))
    ]

get_run-mark_runs-none :
    (j now : ℕ) (rows runs : List Run)
    → All (λ x. has_id j x ≡ false) rows
    → get_run j (mark_runs now rows runs) ≡ get_run j runs
unfolding mark_runs
get_run-mark_runs-none j now [] runs h = refl
get_run-mark_runs-none j now (x ∷ rows) runs (off, h) =
    get_run-mark_runs-none j now rows (save_run (mark_run now x) runs) h
    ∙ get_run-save_run j (mark_run now x) runs
    ∙ rw off refl

one_row :
    (j : ℕ) (runs : List Run) (r x : Run) → get_run j runs ≡ some r → IsIn runs x → OnlyRow j r x
one_row j runs r x here there e =
    let same = ap (λ id. get_run id runs) ((eqb_iff x.run_id j).0 e) in cc (sym there ∙ same ∙ here)

not_there :
    (j : ℕ) (runs : List Run) (x : Run) → get_run j runs ≡ none → IsIn runs x → has_id j x ≡ false
not_there j runs x gone there = elim (Bool-cases (has_id j x)) [
  | inr e ↦ e
  | inl e ↦
      let same = ap (λ id. get_run id runs) ((eqb_iff x.run_id j).0 e) in
      cc (sym there ∙ same ∙ gone)
]

any-insert_by_start :
    (test : Run → Bool) (x : Run) (runs : List Run)
    → any test (insert_by_start x runs) ≡ (test x || any test runs)
unfolding insert_by_start
any-insert_by_start test x [] = refl
any-insert_by_start test x (y ∷ rest) = ground (arith, any-insert_by_start test x rest)

any-sort_by_start :
    (test : Run → Bool) (runs : List Run) → any test (sort_by_start runs) ≡ any test runs
unfolding sort_by_start
any-sort_by_start test [] = refl
any-sort_by_start test (r ∷ rest) =
    any-insert_by_start test r (sort_by_start rest)
    ∙ ap (λ b. test r || b) (any-sort_by_start test rest)

abbrev was_cut : Option Run → Bool
was_cut none = false
was_cut (some r) = is_uncertain_run r.status

any-keep_runs :
    (j : ℕ) (runs : List Run)
    → HasKeys runs
    → any (has_id j) (keep_runs (λ r. is_uncertain_run r.status) runs) ≡ was_cut (get_run j runs)
unfolding keep_runs get_run
any-keep_runs j [] keys = refl
any-keep_runs j (r ∷ rest) (fresh, keys) =
    let more = any-keep_runs j rest keys in
    elim (Bool-cases (eqb r.run_id j)) [
      | inl e ↦
          let gone : get_run j rest ≡ none =
            subst (λ id. get_run id rest ≡ none) ((eqb_iff r.run_id j).0 e) fresh in
          rw e (ground (arith, more, gone, e))
      | inr e ↦ rw e (ground (arith, more, e))
    ]

get_run-mark_all :
    (now : ℕ) (m : Mirror) (j : ℕ)
    → HasKeys m.runs
    → get_run j (mark_all now m).runs
      ≡ mark_run_if (was_cut (get_run j m.runs)) now (get_run j m.runs)
unfolding runs_with_status
get_run-mark_all now m j keys =
    let rows = runs_with_status is_uncertain_run m.runs in
    let kept = keep_runs (λ r. is_uncertain_run r.status) m.runs in
    let found = All-sort_by_start (IsIn m.runs) kept (
      All-keep_runs (IsIn m.runs) (λ r. is_uncertain_run r.status) m.runs
        (HasKeys-IsIn m.runs keys)) in
    elim (Option-cases (get_run j m.runs)) [
      | inl gone ↦
          get_run-mark_runs-none j now rows m.runs (
            All-weaken (IsIn m.runs) (λ x. has_id j x ≡ false) rows
              (λ x there. not_there j m.runs x gone there) found)
          ∙ rw gone refl
      | inr (r, here) ↦
          get_run-mark_runs j now r rows m.runs (
            All-weaken (IsIn m.runs) (OnlyRow j r) rows (λ x there. one_row j m.runs r x here there)
              found)
          ∙ ap (λ b. if b then some (mark_run now r) else get_run j m.runs)
              (any-sort_by_start (has_id j) kept ∙ any-keep_runs j m.runs keys)
          ∙ rw here refl
    ]

is_uncertain_run-was_going : (s : RunStatus) → is_uncertain_run s ≡ was_going s
is_uncertain_run-was_going s = ground arith

mark_run-cut_short : (now : ℕ) (r : Run) → mark_run now r ≡ cut_short now r
mark_run-cut_short now r = refl

mark_run-run_after_marking :
    (now : ℕ) (o : Option Run) → mark_run_if (was_cut o) now o ≡ run_after_marking now o
mark_run-run_after_marking now none = refl
mark_run-run_after_marking now (some r) =
    rw (is_uncertain_run-was_going r.status, mark_run-cut_short now r) refl

-- What the marking does with a run of an available history, where no two runs have one id: a run
-- that was queued or running is set to `recovery_required` with the fixed code and message, and gets
-- an end if it has none; every other run is as before.
pub mark_recovery_required-runs :
    (now : ℕ) (m : Mirror) (j : ℕ)
    → HasKeys m.runs
    → Option.map (λ after. get_run j after.runs) (mark_recovery_required now (some m)).1
      ≡ some (run_after_marking now (get_run j m.runs))
unfolding mark_recovery_required
mark_recovery_required-runs now m j keys =
    ap some (get_run-mark_all now m j keys ∙ mark_run-run_after_marking now (get_run j m.runs))
