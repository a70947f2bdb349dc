-- ===== src/Scheduler/Gate.antt =====
-- Which triggers start a run, what a refused one leaves behind, and what the gate forgets.
use local_book.Base.{
  List, Option, [], arith, false, inl, none, ok, refl, some, true, ℕ, ◌++◌, ◌+◌, ◌<◌, ◌↔◌, ◌∷◌, ◌≡◌,
  ◌≢◌, ◌≤◌, ◌⊎◌, nat_eq, string_eq, option_eq, list_eq,
}
use local_book.Scheduler.{Run, active, finished, get_run, is_manual, recovery, scheduled}
use local_book.Scheduler.Rows.{StartsAfter, get_run-save_run, page_runs_latest, save_run_new}
use local_book.Scheduler.Service.{
  Request, Service, begin_run, gate, known_task, last_run, rows, skip_row, slot,
}

-- The last run of the task does not stand in the way.
abbrev pub Passes : Request → ℕ → Option Run → Type 0
Passes q stale_after none = Unit {0}
Passes q stale_after (some last) =
    ((finished last.status ≡ true)
      ⊎ ((active last.status ≡ true) × (last.started_at + stale_after < q.now)))
    ⊎ ((recovery last.status ≡ true) × (is_manual q.trigger ≡ true) × (q.bypass_recovery ≡ true))

-- The conditions under which a trigger starts a run.
pub record IsOpen (q : Request) (s : Service) : Type 0 where
  pub known : known_task q.task ≡ true
  pub settled : s.reconfiguring ≡ false
  pub enabled : s.enabled ≡ true
  pub started : s.started ≡ true
  pub history : s.history ≢ none
  pub passes : Passes q s.stale_after (last_run q.task s)

gate_sound :
    (q : Request) (last : Option Run) (s : Service) (id : ℕ)
    → (gate q last s).0 ≡ ok (some id)
    → (id ≡ q.id) × (s.history ≢ none) × Passes q s.stale_after last
unfolding gate
gate_sound q none s id h = ground arith
gate_sound q (some last) s id h = ground arith

gate_complete :
    (q : Request) (last : Option Run) (s : Service)
    → s.history ≢ none
    → Passes q s.stale_after last
    → (gate q last s).0 ≡ ok (some q.id)
unfolding gate
gate_complete q none s h p = ground arith
gate_complete q (some last) s h p = ground arith

-- A trigger starts a run exactly when its task is known, no reconfiguration is under way, the
-- scheduler is enabled and started and has a history, and the last run of the task is missing, is
-- finished, is active but older than the stale limit, or is waiting for recovery while the trigger
-- is manual and bypasses that; the run then has the id that was drawn.
pub begin_run-starts_iff :
    (q : Request) (s : Service) (id : ℕ)
    → ((begin_run q s).0 ≡ ok (some id)) ↔ ((id ≡ q.id) × IsOpen q s)
unfolding begin_run
begin_run-starts_iff q s id = (
  λ h.
      let p = gate_sound q (last_run q.task s) s id (ground arith) in
      (
        p.0,
        record {
          known = ground arith;
          settled = ground arith;
          enabled = ground arith;
          started = ground arith;
          history = p.1;
          passes = p.2;
        },
      ),
  λ (same, o). ground (arith, gate_complete q (last_run q.task s) s o.history o.passes),
)

gate_refused :
    (q : Request) (last : Option Run) (s : Service) (j : ℕ)
    → j ≢ q.id
    → (gate q last s).0 ≢ ok (some q.id)
    → ((gate q last s).1.active_runs ≡ s.active_runs)
      × (get_run j (rows (gate q last s).1) ≡ get_run j (rows s))
unfolding gate
gate_refused q none s j other h = ground arith
gate_refused q (some last) s j other h = ground (
  arith,
  get_run-save_run j
      (skip_row q.task q.trigger "recovery_required" "previous run needs explicit recovery" (slot q)
        q.now q.id)
      (rows s),
  get_run-save_run j
      (skip_row q.task q.trigger "duplicate_run" "the task already has an active run" (slot q) q.now
        q.id)
      (rows s),
)

-- A trigger that does not start the run with the id that it drew leaves the active runs as they
-- were, and every row but the one with that id.
pub begin_run-refused :
    (q : Request) (s : Service) (j : ℕ)
    → j ≢ q.id
    → (begin_run q s).0 ≢ ok (some q.id)
    → ((begin_run q s).1.active_runs ≡ s.active_runs)
      × (get_run j (rows (begin_run q s).1) ≡ get_run j (rows s))
unfolding begin_run
begin_run-refused q s j other h = ground (arith, gate_refused q (last_run q.task s) s j other)

-- A service that takes triggers, with these rows.
pub record IsReady (s : Service) (runs : List Run) : Type 0 where
  pub settled : s.reconfiguring ≡ false
  pub enabled : s.enabled ≡ true
  pub started : s.started ≡ true
  pub history : s.history ≡ some runs

-- A run of the task that blocks a trigger: it is active and not stale yet.
pub record Blocks (q : Request) (s : Service) (r : Run) : Type 0 where
  pub last : last_run q.task s ≡ some r
  pub running : active r.status ≡ true
  pub not_stale : q.now ≤ r.started_at + s.stale_after

abbrev pub duplicate_row : Request → Run
duplicate_row q =
    skip_row q.task q.trigger "duplicate_run" "the task already has an active run" (slot q) q.now
      q.id

abbrev after_skip : Request → Service → List Run → Service
after_skip q s runs = record s { history = some (runs ++ (duplicate_row q ∷ [])) }

begin_run-blocked :
    (q : Request) (s : Service) (runs : List Run) (r : Run)
    → known_task q.task ≡ true
    → q.trigger ≡ scheduled
    → IsReady s runs
    → Blocks q s r
    → get_run q.id runs ≡ none
    → begin_run q s ≡ (ok none, after_skip q s runs)
unfolding begin_run
begin_run-blocked q s runs r known sched ready block fresh =
    ground (arith, save_run_new (duplicate_row q) runs)

last_run-after_skip :
    (q : Request) (s : Service) (runs : List Run)
    → StartsAfter (duplicate_row q) runs
    → last_run q.task (after_skip q s runs) ≡ some (duplicate_row q)
unfolding last_run
last_run-after_skip q s runs h = page_runs_latest (duplicate_row q) runs h

get_run-append :
    (j : ℕ) (row : Run) (runs : List Run) {r : Run}
    → get_run j runs ≡ some r
    → get_run j (runs ++ (row ∷ [])) ≡ some r
unfolding get_run
get_run-append j row [] h = cc
get_run-append j row (x ∷ rest) {r} h = ground (arith, get_run-append j row rest {r = r})

-- The gate holds back one trigger only. Where the service is enabled, started, not being
-- reconfigured, and the last run of a known task is active and not stale, a scheduled trigger of
-- the task that draws a new id is refused and writes a skip row. If that row starts after all
-- others, any later trigger of the task starts a second run while the row of the first is still
-- active.
pub gate_forgets :
    (q q' : Request) (s : Service) (runs : List Run) (r : Run)
    → known_task q.task ≡ true
    → q.trigger ≡ scheduled
    → q'.task ≡ q.task
    → IsReady s runs
    → Blocks q s r
    → get_run r.run_id runs ≡ some r
    → get_run q.id runs ≡ none
    → StartsAfter (duplicate_row q) runs
    → ((begin_run q s).0 ≡ ok none)
      × ((begin_run q' (begin_run q s).1).0 ≡ ok (some q'.id))
      × (get_run r.run_id (rows (begin_run q s).1) ≡ some r)
gate_forgets q q' s runs r known sched same ready block there fresh newest =
    let first = begin_run-blocked q s runs r known sched ready block fresh in
    (
      rw first,
      rw first (
          (begin_run-starts_iff q' (after_skip q s runs) q'.id).1 (
            refl,
            record {
              known = rw same known;
              settled = ready.settled;
              enabled = ready.enabled;
              started = ready.started;
              history = λ e. cc;
              passes = rw (same, last_run-after_skip q s runs newest) (inl (inl refl));
            },
          )),
      rw first (get_run-append r.run_id (duplicate_row q) runs there),
    )
