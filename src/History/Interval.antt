-- ===== src/History/Interval.antt =====
-- `CleanupService` of server/scheduler/cleanup.py, which decides when a retention cleanup runs. The
-- history and its cleanup, which may raise, are parameters. An interval of hours is compared exactly:
-- the float of the source keeps microseconds apart.
use local_book.Base.{
  Bool, Bool-cases, Option, Option-cases, arith, false, if◌then◌else◌, inl, inr, ltb, none, not,
  refl, some, true, ℕ, ◌&&◌, ◌*◌, ◌+◌, ◌-◌, ◌<◌, ◌↔◌, ◌≡◌, ◌≤◌, ◌⊎◌, nat_eq, string_eq, option_eq,
  list_eq,
}

-- What a call of the cleanup reports: that the history is not available, that the cleanup has
-- raised, or its counts.
pub data CleanupReport (C : Type 0) : Type 0 where
  unavailable : ℕ → CleanupReport C
  cleanup_failed : ℕ → CleanupReport C
  cleaned : C → ℕ → CleanupReport C

-- The service with a history, `none` where there is none.
pub record CleanupService (H : Type 0) : Type 0 where
  pub history : Option H
  pub retention_days : ℕ
  pub cleanup_enabled : Bool
  pub cleanup_interval_hours : ℕ
  pub max_scheduler_runs : ℕ
  pub last_run_at : Option ℕ

abbrev pub hour : ℕ
hour = 3600000000

-- `elapsed_hours < self.cleanup_interval_hours`, with the elapsed time never below 0.
abbrev pub is_early : ℕ → ℕ → Option ℕ → Bool
is_early now hours none = false
is_early now hours (some last) = ltb (now - last) (hours * hour)

-- `cleanup` takes the instant, the days, the limit of runs and the history; where it raises, its
-- counts are `none`.
module _ {H C : Type 0} (is_available : H → Bool) (cleanup : ℕ → ℕ → ℕ → H → Option C × H) where
  -- The two ends of `run_cleanup` after its cleanup.
  abbrev pub report_cleanup :
      ℕ → CleanupService H → Option C × H → CleanupReport C × CleanupService H
  report_cleanup now s (none, h) =
      (cleanup_failed now, record s { history = some h; last_run_at = some now })
  report_cleanup now s (some counts, h) =
      (cleaned counts now, record s { history = some h; last_run_at = some now })

  -- `run_cleanup`
  unfoldable pub run_cleanup : ℕ → CleanupService H → CleanupReport C × CleanupService H
  run_cleanup now s = elim s.history [
    | none ↦ (unavailable now, s)
    | some h ↦
        if is_available h
        then report_cleanup now s (cleanup now s.retention_days s.max_scheduler_runs h)
        else (unavailable now, s)
  ]

  -- `run_if_due`
  unfoldable pub run_if_due :
      Bool → ℕ → CleanupService H → Option (CleanupReport C) × CleanupService H
  unfolding run_cleanup
  run_if_due force now s =
      let (report, s') = run_cleanup now s in
      if not force && not s.cleanup_enabled
      then (none, s)
      else if not force && is_early now s.cleanup_interval_hours s.last_run_at
      then (none, s)
      else (some report, s')

  early-waits :
      (now later : ℕ) (s : CleanupService H)
      → s.last_run_at ≡ some now
      → now ≤ later
      → later < now + s.cleanup_interval_hours * hour
      → run_if_due false later s ≡ (none, s)
  unfolding run_if_due
  early-waits now later s last after soon =
      let early : ltb (later - now) (s.cleanup_interval_hours * hour) ≡ true = ground arith in
      elim (Bool-cases s.cleanup_enabled) [ inr e ↦ rw e refl | inl e ↦ rw (e, last, early) refl ]

  -- When a cleanup is due: a call returns no report exactly if it is not forced, and cleanups are
  -- disabled or the interval since the last one has not passed.
  run_if_due-none_iff :
      (force : Bool) (now : ℕ) (s : CleanupService H)
      → ((run_if_due force now s).0 ≡ none) ↔ (
          (force ≡ false)
          × ((s.cleanup_enabled ≡ false)
              ⊎ (is_early now s.cleanup_interval_hours s.last_run_at ≡ true)))
  unfolding run_if_due
  run_if_due-none_iff force now s = (λ h. (ground arith, ground arith), λ (a, b). ground arith)

  -- What a call that ran the cleanup leaves.
  last_run_at-run_cleanup :
      (now : ℕ) (s : CleanupService H) (h : H)
      → s.history ≡ some h
      → is_available h ≡ true
      → let s' = (run_cleanup now s).1 in
        (s'.last_run_at ≡ some now) × (s'.cleanup_interval_hours ≡ s.cleanup_interval_hours)
  unfolding run_cleanup
  last_run_at-run_cleanup now s h there up =
      elim (Option-cases (cleanup now s.retention_days s.max_scheduler_runs h).0) [
        | inl e ↦ rw (there, up, e) (refl, refl)
        | inr (c, e) ↦ rw (there, up, e) (refl, refl)
      ]

  -- One cleanup for each interval: after a cleanup of a history that is available, whether or not
  -- it raised, a call that is not forced does nothing until the interval has passed.
  run_cleanup-waits :
      (now later : ℕ) (s : CleanupService H) (h : H)
      → s.history ≡ some h
      → is_available h ≡ true
      → now ≤ later
      → later < now + s.cleanup_interval_hours * hour
      → let s' = (run_cleanup now s).1 in run_if_due false later s' ≡ (none, s')
  run_cleanup-waits now later s h there up after soon =
      let (last, hours) = last_run_at-run_cleanup now s h there up in
      early-waits now later (run_cleanup now s).1 last after (omega (arith, soon, hours))
