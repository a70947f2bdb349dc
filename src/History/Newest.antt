-- ===== src/History/Newest.antt =====
-- The newest run of a task under retention.
use Prim.{⊥}
use local_book.Base.{
  All, Bool, Bool-cases, List, String, [], ap, arith, eqb_iff, false, inl, inr, length, refl, some,
  subst, sym, true, ℕ, ◌++◌, ◌<◌, ◌==◌, ◌||◌, ◌∙◌, ◌∷◌, ◌≡◌, ◌≤◌, ◌⊎◌, nat_eq, string_eq, option_eq,
  list_eq,
}
use local_book.Scheduler.{Run, get_run, sort_by_start}
use local_book.History.{Mirror}
use local_book.History.Retention.{
  cleanup_memory, cleanup_retention, cleanup_stored, has_task, is_expired_run, is_newest,
  newest_per_task, remove_expired, retention_bound,
}
use local_book.History.Kept.{All-sort_by_start, HasKeys, HasKeys-IsIn, IsIn, get_run-refused}
use local_book.History.Order.{
  All-Has, Has, Has-get_run, Has-sort_by_start, Sorted, length-remove_where, remove_excess-few,
  remove_oldest-few, sort_by_start-Sorted,
}

-- Every other run of the same task has started before.
abbrev pub IsLatest : Run → List Run → Type 0
IsLatest r = All (λ x. (x ≡ r) ⊎ ((x.task == r.task) ≡ false) ⊎ (x.started_at < r.started_at))

is_newest-append :
    (id : ℕ) (xs ys : List (String × ℕ))
    → is_newest id (xs ++ ys) ≡ (is_newest id xs || is_newest id ys)
is_newest-append id [] ys = refl
is_newest-append id ((t, i) ∷ xs) ys = ground (arith, is_newest-append id xs ys)

has_task-append :
    (t : String) (xs ys : List (String × ℕ))
    → has_task t (xs ++ ys) ≡ (has_task t xs || has_task t ys)
has_task-append t [] ys = refl
has_task-append t ((u, i) ∷ xs) ys = ground (arith, has_task-append t xs ys)

-- A task is listed for a row of it.
has_task-newest_per_task :
    (t : String) (runs : List Run)
    → has_task t (newest_per_task runs) ≡ true
    → (y : Run) × Has y runs × ((y.task == t) ≡ true)
unfolding newest_per_task
has_task-newest_per_task t [] h = cc h
has_task-newest_per_task t (x ∷ rest) h =
    let later = newest_per_task rest in
    elim (Bool-cases (x.task == t)) [
      | inl e ↦ (x, inl refl, e)
      | inr e ↦
          let known : has_task t later ≡ true = elim (Bool-cases (has_task x.task later)) [
            | inl l ↦ rw (newest_per_task, l) at h
            | inr l ↦ ground (arith, has_task-append t later ((x.task, x.run_id) ∷ []), h, l, e)
          ] in
          let (y, there, at) = has_task-newest_per_task t rest known in (y, inr there, at)
    ]

apart : (a b c : ℕ) → a ≤ b → b < c → a ≡ c → ⊥
apart a b c h k e = omega (arith, h, k, e)

latest-is_newest :
    (r : Run) (runs : List Run)
    → Sorted runs
    → IsLatest r runs
    → Has r runs
    → is_newest r.run_id (newest_per_task runs) ≡ true
unfolding newest_per_task
latest-is_newest r [] sorted latest h = elim h [ ]
latest-is_newest r (x ∷ rest) (low, sorted) (first, latest) here =
    let later = newest_per_task rest in
    let after : Has r rest → is_newest r.run_id (newest_per_task (x ∷ rest)) ≡ true = λ there.
      let known = latest-is_newest r rest sorted latest there in
      elim (Bool-cases (has_task x.task later)) [
        | inl e ↦ rw (newest_per_task, e) known
        | inr e ↦
            rw (newest_per_task, e)
              (is_newest-append r.run_id later ((x.task, x.run_id) ∷ []) ∙ rw known refl)
      ] in
    elim here [
      | inr there ↦ after there
      | inl same ↦ elim (Bool-cases (has_task x.task later)) [
        | inr e ↦
            rw (newest_per_task, e)
              (is_newest-append r.run_id later ((x.task, x.run_id) ∷ [])
                ∙ ground (arith, (eqb_iff x.run_id r.run_id).1 (ap (λ z. z.run_id) same)))
        | inl e ↦
            let (y, there, at) = has_task-newest_per_task x.task rest e in
            elim (All-Has _ rest y latest there) [
              | inl one ↦ after (subst (λ z. Has z rest) one there)
              | inr (inl other) ↦ cc (sym (ap (λ z. y.task == z.task) same) ∙ at, other)
              | inr (inr early) ↦
                  let later_start : x.started_at ≤ y.started_at =
                    All-Has (λ z. x.started_at ≤ z.started_at) rest y low there in
                  let one_start : x.started_at ≡ r.started_at = ap (λ z. z.started_at) same in
                  elim (apart x.started_at y.started_at r.started_at later_start early
                    one_start) [ ]
            ]
      ]
    ]

latest-remove_expired :
    (cutoff : ℕ) (runs : List Run) (r : Run)
    → HasKeys runs
    → get_run r.run_id runs ≡ some r
    → IsLatest r runs
    → get_run r.run_id (remove_expired cutoff runs) ≡ some r
unfolding remove_expired
latest-remove_expired cutoff runs r keys here latest =
    let sorted = sort_by_start runs in
    let expired = is_expired_run cutoff (newest_per_task sorted) in
    let newest =
      latest-is_newest r sorted (sort_by_start-Sorted runs)
        (All-sort_by_start
          (λ x. (x ≡ r) ⊎ ((x.task == r.task) ≡ false) ⊎ (x.started_at < r.started_at)) runs latest)
        (Has-sort_by_start r runs (Has-get_run r.run_id runs r here)) in
    let refused : expired r ≡ false = rw newest (ground arith) in
    get_run-refused expired sorted runs runs r.run_id r
      (All-sort_by_start (IsIn runs) runs (HasKeys-IsIn runs keys)) here refused
    ∙ here

length-remove_expired :
    (cutoff : ℕ) (runs : List Run) → length (remove_expired cutoff runs) ≤ length runs
unfolding remove_expired
length-remove_expired cutoff runs =
    length-remove_where (is_expired_run cutoff (newest_per_task (sort_by_start runs)))
      (sort_by_start runs) runs

-- The newest run of a task is kept, with a repository and without, as long as there are not too many
-- runs: where no two runs have one id, a run that started after all the others of its task is found
-- under its id after a cleanup exactly as before, however old it is, if there are no more runs than
-- the maximum.
pub cleanup_retention-newest :
    (has_repository : Bool) (now retention_days max_scheduler_runs : ℕ) (m : Mirror) (r : Run)
    → HasKeys m.runs
    → get_run r.run_id m.runs ≡ some r
    → IsLatest r m.runs
    → length m.runs ≤ max_scheduler_runs
    → get_run r.run_id
        (cleanup_retention has_repository now retention_days max_scheduler_runs m).1.runs
      ≡ some r
unfolding cleanup_retention cleanup_memory cleanup_stored
cleanup_retention-newest true now retention_days max_scheduler_runs m r keys here latest few =
    let cutoff = retention_bound now retention_days in
    let left = length-remove_expired cutoff m.runs in
    ap (get_run r.run_id) (
      remove_oldest-few max_scheduler_runs (remove_expired cutoff m.runs)
        (omega (arith, left, few)))
    ∙ latest-remove_expired cutoff m.runs r keys here latest
cleanup_retention-newest false now retention_days max_scheduler_runs m r keys here latest few =
    let cutoff = retention_bound now retention_days in
    let left = length-remove_expired cutoff m.runs in
    ap (get_run r.run_id) (
      remove_excess-few max_scheduler_runs (remove_expired cutoff m.runs)
        (omega (arith, left, few)))
    ∙ latest-remove_expired cutoff m.runs r keys here latest
