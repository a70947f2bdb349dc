-- ===== src/History/Kept.antt =====
-- What retention never removes.
use local_book.Base.{
  All, Bool, Bool-cases, List, [], ap, arith, eqb, eqb_iff, false, if◌then◌else◌, inl, inr, leb,
  length, none, not, refl, some, subst, suc, sym, take, true, zero, ℕ, ◌-◌, ◌∙◌, ◌∷◌, ◌≡◌, nat_eq,
  string_eq, option_eq, list_eq,
}
use local_book.Scheduler.{
  Run, finished, get_run, insert_by_start, keep_runs, save_run, sort_by_start,
}
use local_book.Scheduler.Rows.{get_run-save_run}
use local_book.History.{Mirror}
use local_book.History.Retention.{
  cleanup_memory, cleanup_retention, cleanup_stored, is_expired_run, newest_per_task, remove_excess,
  remove_expired, remove_oldest, remove_run, remove_where, retention_bound,
}

-- The keys of a dict: no two rows have one id.
abbrev pub HasKeys : List Run → Type 0
HasKeys [] = Unit {0}
HasKeys (r ∷ rest) = (get_run r.run_id rest ≡ none) × HasKeys rest

-- A row is what is found under its id.
abbrev pub IsIn : List Run → Run → Type 0
IsIn runs r = get_run r.run_id runs ≡ some r

module _ (P : Run → Type 0) where
  pub All-insert_by_start :
      (x : Run) (runs : List Run) → P x → All P runs → All P (insert_by_start x runs)
  unfolding insert_by_start
  All-insert_by_start x [] h hs = (h, tt)
  All-insert_by_start x (y ∷ rest) h (hy, hs) = elim (Bool-cases (leb x.started_at y.started_at)) [
    | inl e ↦ rw (insert_by_start, e) (h, (hy, hs))
    | inr e ↦ rw (insert_by_start, e) (hy, All-insert_by_start x rest h hs)
  ]

  pub All-sort_by_start : (runs : List Run) → All P runs → All P (sort_by_start runs)
  unfolding sort_by_start
  All-sort_by_start [] h = tt
  All-sort_by_start (r ∷ rest) (h, hs) =
      All-insert_by_start r (sort_by_start rest) h (All-sort_by_start rest hs)

  All-take : (n : ℕ) (runs : List Run) → All P runs → All P (take n runs)
  All-take zero runs h = tt
  All-take (suc n) [] h = tt
  All-take (suc n) (r ∷ rest) (h, hs) = (h, All-take n rest hs)

  pub All-keep_runs :
      (test : Run → Bool) (runs : List Run) → All P runs → All P (keep_runs test runs)
  unfolding keep_runs
  All-keep_runs test [] h = tt
  All-keep_runs test (r ∷ rest) (h, hs) = elim (Bool-cases (test r)) [
    | inl e ↦ rw (keep_runs, e) (h, All-keep_runs test rest hs)
    | inr e ↦ rw (keep_runs, e) (All-keep_runs test rest hs)
  ]

  All-remove_where :
      (test : Run → Bool) (rows runs : List Run) → All P runs → All P (remove_where test rows runs)
  unfolding remove_where remove_run
  All-remove_where test [] runs h = h
  All-remove_where test (r ∷ rows) runs h = elim (Bool-cases (test r)) [
    | inl e ↦
        rw (remove_where, e)
          (All-remove_where test rows (remove_run r.run_id runs)
            (All-keep_runs (λ x. not (eqb x.run_id r.run_id)) runs h))
    | inr e ↦ rw (remove_where, e) (All-remove_where test rows runs h)
  ]

pub All-weaken :
    (P Q : Run → Type 0) (runs : List Run) → ((r : Run) → P r → Q r) → All P runs → All Q runs
All-weaken P Q [] f h = tt
All-weaken P Q (r ∷ rest) f (h, hs) = (f r h, All-weaken P Q rest f hs)

IsIn-skip :
    (x : Run) (rest : List Run) (r : Run)
    → get_run x.run_id rest ≡ none
    → IsIn rest r
    → IsIn (x ∷ rest) r
unfolding get_run
IsIn-skip x rest r fresh h = elim (Bool-cases (eqb x.run_id r.run_id)) [
  | inl e ↦
      let same = ap (λ id. get_run id rest) ((eqb_iff x.run_id r.run_id).0 e) in
      cc (sym fresh ∙ same ∙ h)
  | inr e ↦ rw e h
]

-- Each row of a dict is found under its id.
pub HasKeys-IsIn : (runs : List Run) → HasKeys runs → All (IsIn runs) runs
unfolding get_run
HasKeys-IsIn [] h = tt
HasKeys-IsIn (r ∷ rest) (fresh, h) = (
  ground arith,
  All-weaken (IsIn rest) (IsIn (r ∷ rest)) rest (λ x. IsIn-skip r rest x fresh)
      (HasKeys-IsIn rest h),
)

-- Storing a row keeps the ids apart.
pub save_run-HasKeys : (row : Run) (runs : List Run) → HasKeys runs → HasKeys (save_run row runs)
unfolding save_run get_run
save_run-HasKeys row [] h = (refl, tt)
save_run-HasKeys row (r ∷ rest) (fresh, h) = elim (Bool-cases (eqb r.run_id row.run_id)) [
  | inl e ↦
      rw (save_run, e)
        (subst (λ id. get_run id rest ≡ none) ((eqb_iff r.run_id row.run_id).0 e) fresh, h)
  | inr e ↦
      let other : eqb row.run_id r.run_id ≡ false = ground arith in
      rw (save_run, e)
        (get_run-save_run r.run_id row rest ∙ rw other fresh, save_run-HasKeys row rest h)
]

-- A removal leaves the rows of the other ids.
get_run-remove_run :
    (j id : ℕ) (runs : List Run)
    → get_run j (remove_run id runs) ≡ (if eqb id j then none else get_run j runs)
unfolding remove_run keep_runs get_run
get_run-remove_run j id [] = ground arith
get_run-remove_run j id (r ∷ rest) = ground (arith, get_run-remove_run j id rest)

-- A test that spares an id.
abbrev pub Spares : (Run → Bool) → ℕ → Run → Type 0
Spares test j r = test r ≡ true → eqb r.run_id j ≡ false

-- A pass does not touch an id that its test spares.
pub get_run-remove_where :
    (test : Run → Bool) (j : ℕ) (rows runs : List Run)
    → All (Spares test j) rows
    → get_run j (remove_where test rows runs) ≡ get_run j runs
unfolding remove_where
get_run-remove_where test j [] runs h = refl
get_run-remove_where test j (r ∷ rows) runs (h, hs) =
    get_run-remove_where test j rows (if test r then remove_run r.run_id runs else runs) hs
    ∙ (elim (Bool-cases (test r)) [
      | inl e ↦ rw e (get_run-remove_run j r.run_id runs ∙ rw (h e) refl)
      | inr e ↦ rw e refl
    ])

-- A row that its test refuses is spared by any pass over rows that are found in the same dict.
pub refused-Spares :
    (test : Run → Bool) (j : ℕ) (runs : List Run) (r : Run)
    → get_run j runs ≡ some r
    → test r ≡ false
    → (x : Run) → IsIn runs x
    → Spares test j x
refused-Spares test j runs r here refused x there taken = elim (Bool-cases (eqb x.run_id j)) [
  | inr e ↦ e
  | inl e ↦
      let same = ap (λ id. get_run id runs) ((eqb_iff x.run_id j).0 e) in
      cc (sym there ∙ same ∙ here, taken, refused)
]

-- A pass over rows of a dict leaves, in any rows, an id whose row there its test refuses.
pub get_run-refused :
    (test : Run → Bool) (rows runs dict : List Run) (j : ℕ) (r : Run)
    → All (IsIn dict) rows
    → get_run j dict ≡ some r
    → test r ≡ false
    → get_run j (remove_where test rows runs) ≡ get_run j runs
get_run-refused test rows runs dict j r found here refused =
    get_run-remove_where test j rows runs (
      All-weaken (IsIn dict) (Spares test j) rows (refused-Spares test j dict r here refused) found)

-- The rows that the first pass leaves, in their order, are rows of the dict.
found_later :
    (cutoff : ℕ) (runs : List Run)
    → HasKeys runs
    → All (IsIn runs) (sort_by_start (remove_expired cutoff runs))
unfolding remove_expired
found_later cutoff runs keys =
    let sorted = sort_by_start runs in
    let expired = is_expired_run cutoff (newest_per_task sorted) in
    All-sort_by_start (IsIn runs) (remove_where expired sorted runs)
      (All-remove_where (IsIn runs) expired sorted runs (HasKeys-IsIn runs keys))

get_run-remove_expired :
    (cutoff j : ℕ) (runs : List Run) (r : Run)
    → HasKeys runs
    → get_run j runs ≡ some r
    → finished r.status ≡ false
    → get_run j (remove_expired cutoff runs) ≡ some r
unfolding remove_expired
get_run-remove_expired cutoff j runs r keys here open_run =
    let sorted = sort_by_start runs in
    let expired = is_expired_run cutoff (newest_per_task sorted) in
    let refused : expired r ≡ false = rw open_run refl in
    get_run-refused expired sorted runs runs j r
      (All-sort_by_start (IsIn runs) runs (HasKeys-IsIn runs keys)) here refused
    ∙ here

-- Runs that have not ended are kept, with a repository and without: where no two runs have one id, a
-- run that is queued, running or to be recovered is found under its id after a cleanup exactly as
-- before.
pub cleanup_retention-active :
    (has_repository : Bool) (now retention_days max_scheduler_runs : ℕ) (m : Mirror) (j : ℕ)
    (r : Run)
    → HasKeys m.runs
    → get_run j m.runs ≡ some r
    → finished r.status ≡ false
    → get_run j (cleanup_retention has_repository now retention_days max_scheduler_runs m).1.runs
      ≡ some r
unfolding cleanup_retention cleanup_memory cleanup_stored remove_excess remove_oldest
cleanup_retention-active true now retention_days max_scheduler_runs m j r keys here open_run =
    let cutoff = retention_bound now retention_days in
    let runs = remove_expired cutoff m.runs in
    let ended : Run → Bool = λ x. finished x.status in
    let terminal = keep_runs ended (sort_by_start runs) in
    let over = length runs - max_scheduler_runs in
    get_run-refused ended (take over terminal) runs m.runs j r
      (All-take (IsIn m.runs) over terminal
        (All-keep_runs (IsIn m.runs) ended (sort_by_start runs) (found_later cutoff m.runs keys)))
      here open_run
    ∙ get_run-remove_expired cutoff j m.runs r keys here open_run
cleanup_retention-active false now retention_days max_scheduler_runs m j r keys here open_run =
    let cutoff = retention_bound now retention_days in
    let runs = remove_expired cutoff m.runs in
    let remaining = sort_by_start runs in
    let over = length remaining - max_scheduler_runs in
    get_run-refused (λ x. finished x.status) (take over remaining) runs m.runs j r
      (All-take (IsIn m.runs) over remaining (found_later cutoff m.runs keys)) here open_run
    ∙ get_run-remove_expired cutoff j m.runs r keys here open_run
