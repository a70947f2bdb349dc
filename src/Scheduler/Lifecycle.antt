-- ===== src/Scheduler/Lifecycle.antt =====
-- Shutting down, and pausing for a change of the configuration.
use local_book.Base.{
  Bool, List, Option, Option-cases, Result, String, [], arith, eqb, err, false, if◌then◌else◌, none,
  ok, refl, some, true, ℕ, ◌&&◌, ◌+◌, ◌||◌, ◌∙◌, ◌∷◌, ◌≡◌, ◌≢◌, nat_eq, string_eq, option_eq,
  list_eq,
}
use local_book.Scheduler.{Run, active, get_run}
use local_book.Scheduler.Rows.{get_run-update_status}
use local_book.Scheduler.Service.{
  Request, SchedulerError, Service, begin_run, change_run, has_run, interrupted, is_active_row,
  is_scheduled, mark_each, pause_for_reconfigure, resume_after_reconfigure, rows,
  scheduler_unavailable, stop, update_status,
}

abbrev pub blocked_result : Request → Result SchedulerError (Option ℕ)
blocked_result q = if is_scheduled q.trigger then ok none else err scheduler_unavailable

-- Where no pause is under way and no run is active, a pause succeeds. While it lasts no trigger
-- starts a run or changes the state: a scheduled one returns nothing and another raises
-- `scheduler_unavailable`. Ending the pause gives back the service as it was.
pub pause_blocks :
    (q : Request) (s : Service)
    → s.reconfiguring ≡ false
    → s.active_runs ≡ []
    → ((pause_for_reconfigure s).0 ≡ true)
      × (begin_run q (pause_for_reconfigure s).1 ≡ (blocked_result q, (pause_for_reconfigure s).1))
      × (resume_after_reconfigure (pause_for_reconfigure s).1 ≡ s)
unfolding pause_for_reconfigure begin_run resume_after_reconfigure
pause_blocks q s h e = (ground arith, ground arith, ground arith)

-- A pause that meets an active run does nothing.
pub pause_refused : (s : Service) → s.active_runs ≢ [] → pause_for_reconfigure s ≡ (false, s)
unfolding pause_for_reconfigure
pause_refused s h = ground arith

abbrev pub flag_if : Bool → ℕ → Option Run → Option Run
flag_if b now none = none
flag_if b now (some r) =
    if b && active r.status then some (change_run (interrupted now) r) else some r

-- One round of the loop, from what the rest of it does.
mark_one :
    (j id now : ℕ) (rest : List (ℕ × String)) (s : Service)
    → ((m : ℕ) (u : Service)
        → get_run j (rows (mark_each now rest m u).1)
          ≡ flag_if (has_run j rest) now (get_run j (rows u)))
    → (n : ℕ) (b : Bool) → is_active_row (get_run id (rows s)) ≡ b
    → get_run j (
        rows
          (mark_each now rest
            (if b then n + 1 else n)
            (if b then update_status id (interrupted now) s else s)).1)
      ≡ flag_if (eqb id j || has_run j rest) now (get_run j (rows s))
mark_one j id now rest s more n true e =
    more (n + 1) (update_status id (interrupted now) s)
    ∙ rw (get_run-update_status j id (interrupted now) s)
        (ground (arith, Option-cases (get_run j (rows s))))
mark_one j id now rest s more n false e =
    more n s ∙ ground (arith, Option-cases (get_run j (rows s)))

get_run-mark_each :
    (j now : ℕ) (l : List (ℕ × String)) (n : ℕ) (s : Service)
    → get_run j (rows (mark_each now l n s).1) ≡ flag_if (has_run j l) now (get_run j (rows s))
unfolding mark_each
get_run-mark_each j now [] n s = ground (arith, Option-cases (get_run j (rows s)))
get_run-mark_each j now ((id, task) ∷ rest) n s =
    mark_one j id now rest s (λ m u. get_run-mark_each j now rest m u) n
      (is_active_row (get_run id (rows s))) refl

active_runs-mark_each :
    (now : ℕ) (l : List (ℕ × String)) (n : ℕ) (s : Service)
    → (mark_each now l n s).1.active_runs ≡ s.active_runs
unfolding mark_each update_status
active_runs-mark_each now [] n s = refl
active_runs-mark_each now ((id, task) ∷ rest) n s =
    active_runs-mark_each now rest _ _ ∙ ground (arith, Option-cases s.history)

-- Stopping a running service empties the active runs, and flags for recovery each row that is
-- active and was held by one of them; every other row stays as it was.
pub stop-flags :
    (now : ℕ) (s : Service) (j : ℕ)
    → s.started ≡ true
    → ((stop now s).active_runs ≡ [])
      × (get_run j (rows (stop now s)) ≡ flag_if (has_run j s.active_runs) now (get_run j (rows s)))
unfolding stop
stop-flags now s j h = rw h (
  active_runs-mark_each now s.active_runs 0 (record s { started = false; active_runs = [] }),
  get_run-mark_each j now s.active_runs 0 (record s { started = false; active_runs = [] }),
)
