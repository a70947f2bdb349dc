-- ===== src/Scheduler/Watchdog.antt =====
-- What one pass of the watchdog makes of every row.
use mathlib.Core.Option
use local_book.Base.{
  Bool, Bool-cases, List, Option, Option-cases, [], arith, eqb, if◌then◌else◌, inl, inr, ltb, none,
  not, refl, some, true, ℕ, ◌-◌, ◌∙◌, ◌∷◌, ◌≡◌, nat_eq, string_eq, option_eq, list_eq,
}
use local_book.Scheduler.{
  Run, active, get_run, insert_by_start, keep_runs, runs_with_status, save_run, sort_by_start,
}
use local_book.Scheduler.Rows.{change_if, get_run-save_run, get_run-update_status}
use local_book.Scheduler.Service.{
  Change, Service, abandoned, change_run, has_run, rows, timeout_mark, update_status, verdict,
  watch, watchdog_pass,
}

-- No id stands in two rows, as in a dict.
abbrev pub IsDict : List Run → Type 0
IsDict [] = Unit {0}
IsDict (r ∷ rest) = (get_run r.run_id rest ≡ none) × IsDict rest

abbrev keep_if : (Run → Bool) → Option Run → Option Run
keep_if test none = none
keep_if test (some r) = if test r then some r else none

get_run-insert_by_start :
    (j : ℕ) (x : Run) (l : List Run)
    → get_run x.run_id l ≡ none
    → get_run j (insert_by_start x l) ≡ (if eqb x.run_id j then some x else get_run j l)
unfolding get_run insert_by_start
get_run-insert_by_start j x [] h = refl
get_run-insert_by_start j x (y ∷ rest) h = ground (arith, get_run-insert_by_start j x rest)

get_run-sort_by_start :
    (j : ℕ) (l : List Run) → IsDict l → get_run j (sort_by_start l) ≡ get_run j l
unfolding sort_by_start get_run
get_run-sort_by_start j [] h = refl
get_run-sort_by_start j (r ∷ rest) (fresh, h) =
    get_run-insert_by_start j r (sort_by_start rest) (get_run-sort_by_start r.run_id rest h ∙ fresh)
    ∙ rw (get_run-sort_by_start j rest h)

insert_by_start-IsDict :
    (x : Run) (l : List Run) → get_run x.run_id l ≡ none → IsDict l → IsDict (insert_by_start x l)
unfolding insert_by_start get_run
insert_by_start-IsDict x [] fresh h = (refl, tt)
insert_by_start-IsDict x (y ∷ rest) fresh (fresh_y, h) =
    ground (arith, insert_by_start-IsDict x rest, get_run-insert_by_start y.run_id x rest)

sort_by_start-IsDict : (l : List Run) → IsDict l → IsDict (sort_by_start l)
unfolding sort_by_start
sort_by_start-IsDict [] h = tt
sort_by_start-IsDict (r ∷ rest) (fresh, h) =
    insert_by_start-IsDict r (sort_by_start rest) (get_run-sort_by_start r.run_id rest h ∙ fresh)
      (sort_by_start-IsDict rest h)

get_run-keep_runs :
    (test : Run → Bool) (j : ℕ) (l : List Run)
    → IsDict l
    → get_run j (keep_runs test l) ≡ keep_if test (get_run j l)
unfolding keep_runs get_run
get_run-keep_runs test j [] h = refl
get_run-keep_runs test j (r ∷ rest) (fresh, h) =
    ground (arith, get_run-keep_runs test j rest, Bool-cases (test r))

keep_runs-IsDict : (test : Run → Bool) (l : List Run) → IsDict l → IsDict (keep_runs test l)
unfolding keep_runs
keep_runs-IsDict test [] h = tt
keep_runs-IsDict test (r ∷ rest) (fresh, h) =
    ground
      (arith, keep_runs-IsDict test rest, get_run-keep_runs test r.run_id rest, Bool-cases (test r))

-- Every way to write a row keeps the ids apart.
pub save_run-IsDict : (row : Run) (l : List Run) → IsDict l → IsDict (save_run row l)
unfolding save_run get_run
save_run-IsDict row [] h = (refl, tt)
save_run-IsDict row (r ∷ rest) (fresh, h) =
    ground (arith, save_run-IsDict row rest, get_run-save_run r.run_id row rest)

abbrev change_by : Option Change → Option Run → Option Run
change_by none o = o
change_by (some c) o = change_if true c o

verdict-update_status :
    (id : ℕ) (c : Change) (s : Service) (now : ℕ) (r : Run)
    → verdict (update_status id c s) now r ≡ verdict s now r
unfolding verdict update_status
verdict-update_status id c s now r = elim (Option-cases s.history) [
  | inl e ↦ rw (e, update_status)
  | inr (runs, e) ↦ rw (e, update_status)
]

-- What the loop does to the row of one id.
abbrev judge_all : Service → ℕ → ℕ → List Run → Option Run → Option Run
judge_all s now j [] o = o
judge_all s now j (r ∷ rest) o =
    judge_all s now j rest (if eqb r.run_id j then change_by (verdict s now r) o else o)

watch-judge_all :
    (now j : ℕ) (l : List Run) (s s' : Service)
    → ((r : Run) → verdict s' now r ≡ verdict s now r)
    → get_run j (rows (watch now l s')) ≡ judge_all s now j l (get_run j (rows s'))
unfolding watch
watch-judge_all now j [] s s' same = refl
watch-judge_all now j (r ∷ rest) s s' same = elim (Option-cases (verdict s now r)) [
  | inl e ↦ rw (same r, e) (watch-judge_all now j rest s s' same ∙ ground arith)
  | inr (c, e) ↦
      rw (same r, e)
        (watch-judge_all now j rest s (update_status r.run_id c s')
            (λ x. verdict-update_status r.run_id c s' now x ∙ same x)
          ∙ rw (get_run-update_status j r.run_id c s') (ground arith))
]

judge_all_absent :
    (s : Service) (now j : ℕ) (l : List Run) (o : Option Run)
    → get_run j l ≡ none
    → judge_all s now j l o ≡ o
unfolding get_run
judge_all_absent s now j [] o h = refl
judge_all_absent s now j (r ∷ rest) o h = ground (arith, judge_all_absent s now j rest o)

abbrev judge_found : Service → ℕ → Option Run → Option Run → Option Run
judge_found s now none o = o
judge_found s now (some r) o = change_by (verdict s now r) o

judge_all-get_run :
    (s : Service) (now j : ℕ) (l : List Run) (o : Option Run)
    → IsDict l
    → judge_all s now j l o ≡ judge_found s now (get_run j l) o
unfolding get_run
judge_all-get_run s now j [] o h = refl
judge_all-get_run s now j (r ∷ rest) o (fresh, h) = elim (Bool-cases (eqb r.run_id j)) [
  | inl e ↦ rw e (judge_all_absent s now j rest (change_by (verdict s now r) o) (ground arith))
  | inr e ↦ rw e (judge_all-get_run s now j rest o h)
]

-- What the watchdog is to make of a row: of an active run that is alive, a time-out once it is
-- older than the job's time limit; of one that nobody runs, a recovery case once it is stale.
abbrev pub judged : Service → ℕ → Run → Run
judged s now r =
    if not (active r.status)
    then r
    else if has_run r.run_id s.active_runs
    then (if ltb s.job_timeout (now - r.started_at) then change_run (timeout_mark now) r else r)
    else if ltb s.stale_after (now - r.started_at)
    then change_run (abandoned now) r
    else r

judge-judged :
    (s : Service) (now : ℕ) (o : Option Run)
    → judge_found s now (keep_if (λ r. active r.status) o) o ≡ Option.map (judged s now) o
unfolding verdict
judge-judged s now none = refl
judge-judged s now (some r) = ground arith

-- Where no two rows share an id, after a pass the row of every id is the judged form of what it
-- was, and no row is added or removed: an active run that the service runs is marked as timed out
-- once it is older than the job's time limit, an active run that nobody runs is flagged for
-- recovery once it is older than the stale limit, and every other row is unchanged.
pub watchdog_pass-judged :
    (now : ℕ) (s : Service) (j : ℕ)
    → IsDict (rows s)
    → get_run j (rows (watchdog_pass now s)) ≡ Option.map (judged s now) (get_run j (rows s))
unfolding watchdog_pass runs_with_status
watchdog_pass-judged now s j h =
    let kept = keep_runs (λ (r : Run). active r.status) (rows s) in
    let unique = keep_runs-IsDict (λ (r : Run). active r.status) (rows s) h in
    watch-judge_all now j (sort_by_start kept) s s (λ r. refl)
    ∙ judge_all-get_run s now j (sort_by_start kept) (get_run j (rows s))
        (sort_by_start-IsDict kept unique)
    ∙ rw
        (
          get_run-sort_by_start j kept unique,
          get_run-keep_runs (λ (r : Run). active r.status) j (rows s) h,
        )
        (judge-judged s now (get_run j (rows s)))
