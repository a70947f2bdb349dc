-- ===== src/Scheduler/Rows.antt =====
-- The store of run rows under `get_run` and `save_run`, and which row `page_runs` puts first.
use local_book.Base.{
  All, Bool, List, Option, Option-cases, [], arith, beq_refl, eqb, if◌then◌else◌, inl, inr, none,
  refl, some, true, ℕ, ◌++◌, ◌<◌, ◌==◌, ◌∷◌, ◌≡◌, nat_eq, string_eq, option_eq, list_eq,
}
use local_book.Scheduler.{Run, get_run, insert_run, keep_runs, page_runs, save_run, sort_runs}
use local_book.Scheduler.Service.{
  Change, Service, change_run, first_run, rows, update_rows, update_status,
}

pub get_run-save_run :
    (id : ℕ) (row : Run) (runs : List Run)
    → get_run id (save_run row runs) ≡ (if eqb row.run_id id then some row else get_run id runs)
unfolding get_run save_run
get_run-save_run id row [] = refl
get_run-save_run id row (r ∷ rest) = ground (arith, get_run-save_run id row rest)

pub run_id-get_run : (id : ℕ) (runs : List Run) {r : Run} → get_run id runs ≡ some r → r.run_id ≡ id
unfolding get_run
run_id-get_run id [] h = cc
run_id-get_run id (x ∷ rest) {r} h = ground (arith, run_id-get_run id rest {r = r})

abbrev pub change_if : Bool → Change → Option Run → Option Run
change_if b c none = none
change_if b c (some r) = if b then some (change_run c r) else some r

-- An update changes the row of its id and no other.
pub get_run-update_rows :
    (j id : ℕ) (c : Change) (runs : List Run)
    → get_run j (update_rows id c runs) ≡ change_if (eqb id j) c (get_run j runs)
unfolding update_rows
get_run-update_rows j id c runs = elim (Option-cases (get_run id runs)) [
  | inl gone ↦ rw (gone, update_rows) (ground (arith))
  | inr (r, found) ↦
      rw (found, update_rows)
        (rw (get_run-save_run j (change_run c r) runs)
          (ground (arith, run_id-get_run id runs found)))
]

-- A row that starts after all the others of a list sorts to the front.
abbrev pub StartsAfter : Run → List Run → Type 0
StartsAfter row = All (λ r. r.started_at < row.started_at)

StartsAfter-insert_run :
    (row x : Run) (runs : List Run)
    → x.started_at < row.started_at
    → StartsAfter row runs
    → StartsAfter row (insert_run x runs)
unfolding insert_run
StartsAfter-insert_run row x [] h hs = (h, tt)
StartsAfter-insert_run row x (y ∷ rest) h (hy, hs) =
    ground (arith, StartsAfter-insert_run row x rest h hs)

StartsAfter-sort_runs :
    (row : Run) (runs : List Run) → StartsAfter row runs → StartsAfter row (sort_runs runs)
unfolding sort_runs
StartsAfter-sort_runs row [] h = tt
StartsAfter-sort_runs row (r ∷ rest) (h, hs) =
    StartsAfter-insert_run row r (sort_runs rest) h (StartsAfter-sort_runs row rest hs)

insert_run_first :
    (row : Run) (runs : List Run) → StartsAfter row runs → insert_run row runs ≡ row ∷ runs
unfolding insert_run
insert_run_first row [] h = refl
insert_run_first row (y ∷ rest) (h, hs) = ground arith

insert_run_behind :
    (row x : Run) (runs : List Run)
    → x.started_at < row.started_at
    → insert_run x (row ∷ runs) ≡ row ∷ insert_run x runs
unfolding insert_run
insert_run_behind row x runs h = ground arith

-- Sorting is not affected by where such a row stands.
sort_runs_latest :
    (row : Run) (runs : List Run)
    → StartsAfter row runs
    → sort_runs (runs ++ (row ∷ [])) ≡ row ∷ sort_runs runs
unfolding sort_runs
sort_runs_latest row [] h = unfold insert_run in refl
sort_runs_latest row (r ∷ rest) (h, hs) =
    rw (sort_runs_latest row rest hs) (insert_run_behind row r (sort_runs rest) h)

pub keep_runs-append :
    (test : Run → Bool) (xs ys : List Run)
    → keep_runs test (xs ++ ys) ≡ keep_runs test xs ++ keep_runs test ys
unfolding keep_runs
keep_runs-append test [] ys = refl
keep_runs-append test (x ∷ xs) ys = ground (arith, keep_runs-append test xs ys)

StartsAfter-keep_runs :
    (test : Run → Bool) (row : Run) (runs : List Run)
    → StartsAfter row runs
    → StartsAfter row (keep_runs test runs)
unfolding keep_runs
StartsAfter-keep_runs test row [] h = tt
StartsAfter-keep_runs test row (r ∷ rest) (h, hs) =
    ground (arith, StartsAfter-keep_runs test row rest hs)

keep_runs_single :
    (test : Run → Bool) (row : Run) → test row ≡ true → keep_runs test (row ∷ []) ≡ row ∷ []
unfolding keep_runs
keep_runs_single test row h = ground arith

-- A new row of a task that starts after every row in the store is the last run of that task.
pub page_runs_latest :
    (row : Run) (runs : List Run)
    → StartsAfter row runs
    → first_run (page_runs 1 0 row.task (runs ++ (row ∷ []))) ≡ some row
unfolding page_runs
page_runs_latest row runs h =
    let mine = λ (r : Run). r.task == row.task in
    rw (
      keep_runs-append mine runs (row ∷ []),
      keep_runs_single mine row (beq_refl row.task),
      sort_runs_latest row (keep_runs mine runs) (StartsAfter-keep_runs mine row runs h),
    )

-- A row with a new id is added at the end.
pub save_run_new :
    (row : Run) (runs : List Run)
    → get_run row.run_id runs ≡ none
    → save_run row runs ≡ runs ++ (row ∷ [])
unfolding save_run get_run
save_run_new row [] h = refl
save_run_new row (r ∷ rest) h = ground (arith, save_run_new row rest)

pub get_run-update_status :
    (j id : ℕ) (c : Change) (s : Service)
    → get_run j (rows (update_status id c s)) ≡ change_if (eqb id j) c (get_run j (rows s))
unfolding update_status get_run
get_run-update_status j id c s = elim (Option-cases s.history) [
  | inl e ↦ rw e
  | inr (runs, e) ↦ rw e (get_run-update_rows j id c runs)
]
