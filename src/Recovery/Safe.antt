-- ===== src/Recovery/Safe.antt =====
-- What `rollback_if_safe` leaves alone, and when it writes.
use local_book.Base.{
  All, Bool-cases, List, Option, Option-cases, String, [], false, inl, inr, none, refl, some, true,
  ℕ, ◌++◌, ◌∷◌, ◌≡◌, ◌≢◌, ◌⊎◌, nat_eq, string_eq, option_eq, list_eq,
}
use local_book.Recovery.{
  Bytes, History, JobRecord, JournalEntry, RecoveryResult, Vault, conflict, rollback_failed,
  rolled_back, undo_unavailable,
}
use local_book.Recovery.Journal.{journal}
use local_book.Recovery.Undo.{next_seq}
use local_book.Recovery.Explicit.{
  Class, classify, classify_all, find_job, foreign, is_uncertain, nonempty_paths, nonempty_rows,
  ours, recover_job, restore_all, restore_job, rollback_if_safe, uncertain_rows, untouched,
}

module _ (sha256 : Bytes → String) (encode64 : Bytes → String) (decode64 : String → Option Bytes)
    (size64 : String → ℕ) (V : Vault) where
  open V use {State}

  abbrev class_at : JournalEntry → State → Class
  class_at = classify sha256 encode64 decode64 size64 V

  -- Each row is ours or was never applied.
  abbrev pub IsClear : State → List JournalEntry → Type 0
  IsClear s rows = All (λ e. class_at e s ≢ foreign) rows

  classes : (c : Class) → ((t : String) × (c ≡ ours t)) ⊎ (c ≡ untouched) ⊎ (c ≡ foreign)
  classes (ours t) = inl (t, refl)
  classes untouched = inr (inl refl)
  classes foreign = inr (inr refl)

  cons-nonempty : (paths : List String) (p : String) → nonempty_paths (paths ++ (p ∷ [])) ≡ true
  cons-nonempty [] p = refl
  cons-nonempty (q ∷ rest) p = refl

  conflicts_stay :
      (rows : List JournalEntry) (s : State) (mine : List (JournalEntry × String))
      (conflicts : List String)
      → nonempty_paths conflicts ≡ true
      → nonempty_paths (classify_all sha256 encode64 decode64 size64 V rows s mine conflicts).1
        ≡ true
  unfolding classify_all
  conflicts_stay [] s mine conflicts h = h
  conflicts_stay (e ∷ rest) s mine conflicts h = elim (classes (class_at e s)) [
    | inl (t, c) ↦ rw (c, classify_all) (conflicts_stay rest s ((e, t) ∷ mine) conflicts h)
    | inr (inl c) ↦ rw (c, classify_all) (conflicts_stay rest s mine conflicts h)
    | inr (inr c) ↦
        rw (c, classify_all)
          (conflicts_stay rest s mine (conflicts ++ (e.path ∷ [])) (cons-nonempty conflicts e.path))
  ]

  no_conflicts-IsClear :
      (rows : List JournalEntry) (s : State) (mine : List (JournalEntry × String))
      (conflicts : List String)
      → nonempty_paths (classify_all sha256 encode64 decode64 size64 V rows s mine conflicts).1
        ≡ false
      → IsClear s rows
  unfolding classify_all
  no_conflicts-IsClear [] s mine conflicts h = tt
  no_conflicts-IsClear (e ∷ rest) s mine conflicts h = elim (classes (class_at e s)) [
    | inl (t, c) ↦ (
      λ f. cc (c, f),
      no_conflicts-IsClear rest s ((e, t) ∷ mine) conflicts (rw (c, classify_all) at h),
    )
    | inr (inl c) ↦
        (λ f. cc (c, f), no_conflicts-IsClear rest s mine conflicts (rw (c, classify_all) at h))
    | inr (inr c) ↦
        let h' = rw (c, classify_all) at h in
        let stays =
          conflicts_stay rest s mine (conflicts ++ (e.path ∷ []))
            (cons-nonempty conflicts e.path) in
        cc
  ]

  -- A refusal that has written nothing, or an attempt with every uncertain row of the job clear.
  abbrev pub Safely :
      String → State → Option History → RecoveryResult × State × Option History → Type 0
  Safely job s h r =
      (((r.0.status ≡ undo_unavailable) ⊎ (r.0.status ≡ conflict)) × (r.1 ≡ s) × (r.2 ≡ h))
      ⊎ (((r.0.status ≡ rolled_back) ⊎ (r.0.status ≡ rollback_failed))
          × IsClear s (uncertain_rows (journal job h)))

  rows-cases : (rows : List JournalEntry) → (rows ≡ []) ⊎ (nonempty_rows rows ≡ true)
  rows-cases [] = inl refl
  rows-cases (e ∷ rest) = inr refl

  restore_job-status :
      (job : String) (mine : List (JournalEntry × String)) (seq : ℕ) (s : State)
      (h : Option History)
      → let r = restore_job sha256 encode64 decode64 size64 V job mine seq s h in
        (r.0.status ≡ rolled_back) ⊎ (r.0.status ≡ rollback_failed)
  unfolding restore_job
  restore_job-status job mine seq s h =
      elim (Option-cases (restore_all sha256 encode64 decode64 size64 V job mine seq [] s h).1) [
        | inl e ↦ rw (e, restore_job) (inl refl)
        | inr (x, e) ↦ rw (e, restore_job) (inr refl)
      ]

  recover_job-Safely :
      (job : String) (j : JobRecord) (s : State) (h : Option History)
      → Safely job s h (recover_job sha256 encode64 decode64 size64 V job j s h)
  unfolding recover_job
  recover_job-Safely job j s h =
      let rows = uncertain_rows (journal job h) in
      let classified = classify_all sha256 encode64 decode64 size64 V rows s [] [] in
      elim (Bool-cases (is_uncertain j.status)) [
        | inr e ↦ rw (e, recover_job) (inl (inl refl, refl, refl))
        | inl e ↦ elim (rows-cases rows) [
          | inl none_left ↦ rw (e, none_left, recover_job) (inr (inl refl, tt))
          | inr some_left ↦ elim (Bool-cases (nonempty_paths classified.1)) [
            | inl c ↦ rw (e, some_left, c, recover_job) (inl (inr refl, refl, refl))
            | inr c ↦
                rw (e, some_left, c, recover_job)
                  (inr (
                    restore_job-status job classified.0 (next_seq (journal job h)) s h,
                    no_conflicts-IsClear rows s [] [] c,
                  ))
          ]
        ]
      ]

  -- Whatever the job, the files and the history, `rollback_if_safe` either refuses with
  -- `undo_unavailable` or `conflict` and has changed neither files nor history, or it reports
  -- `rolled_back` or `rollback_failed`, and then each uncertain row of the job's journal was
  -- classified as ours or untouched in the files it began with.
  pub rollback_if_safe-Safely :
      (job : String) (s : State) (h : Option History)
      → Safely job s h (rollback_if_safe sha256 encode64 decode64 size64 V job s h)
  unfolding rollback_if_safe
  rollback_if_safe-Safely job s none = inl (inl refl, refl, refl)
  rollback_if_safe-Safely job s (some h) = elim (Option-cases (find_job job h.jobs)) [
    | inl e ↦ rw (e, rollback_if_safe) (inl (inl refl, refl, refl))
    | inr (j, e) ↦ rw (e, rollback_if_safe) (recover_job-Safely job j s (some h))
  ]
