-- ===== src/Trash/Undone.antt =====
-- An operation of the trash that raises has changed nothing.
use local_book.Base.{
  Bool, Bool-cases, List, Option, Option-cases, Result, Result-cases, [], ap, ended_cases, err,
  false, inl, inr, length, none, ok, refl, some, true, ℕ, ◌++◌, ◌+◌, ◌∙◌, ◌∷◌, ◌≡◌, ◌⊎◌, nat_eq,
  string_eq, option_eq, list_eq,
}
use local_book.Paths.{Text}
use local_book.Paths.Resolve.{Mode, Seen, found, is_directory, missing, not_directory, os_error}
use local_book.Trash.{Disk, IsReversible, TrashFault, TrashItem}
use local_book.Trash.Items.{blob_path}
use local_book.Trash.Bin.{
  Bin, Moves, commit, delete_prefix, detach_all, empty, empty_items, holder, is_bad_limit,
  is_expired, moves_of, presence, purge_expired, purge_items, purge_prefix, quarantine,
  quarantine_all, quarantine_payload, split_expired, undo_moves, with_items,
}

-- The index and the files of a bin are those of another.
abbrev pub Unchanged : {D : Disk} → Bin D → Bin D → Type 0
Unchanged old new = (new.index ≡ old.index) × (new.disk ≡ old.disk)

module _ (is_alnum : ℕ → Bool) (hex : ℕ → Text) (D : Disk)
    (writable : List TrashItem → D.State → Bool) (R : IsReversible D) where
  undo-back :
      (prefix id : Text) (n : ℕ) (moved : Moves) (s s' : D.State)
      → D.rename (holder id) (quarantine is_alnum hex D writable prefix id n) s ≡ some s'
      → undo_moves is_alnum hex D writable prefix ((id, n) ∷ moved) s'
        ≡ undo_moves is_alnum hex D writable prefix moved s
  unfolding undo_moves
  undo-back prefix id n moved s s' h =
      rw (undo_moves, R.back (holder id) (quarantine is_alnum hex D writable prefix id n) s s' h)
        refl

  undo-detach_all :
      (items : List TrashItem) (moved : Moves) (n : ℕ) (s : D.State)
      → let (_, moved', _, s') = detach_all is_alnum hex D writable items moved n s in
        undo_moves is_alnum hex D writable purge_prefix moved' s'
        ≡ undo_moves is_alnum hex D writable purge_prefix moved s
  unfolding detach_all
  undo-detach_all [] moved n s = refl
  undo-detach_all (i ∷ rest) moved n s = elim (Option-cases (presence (D.lstat (holder i.id) s))) [
    | inl e ↦ rw (detach_all, e) refl
    | inr (false, e) ↦ rw (detach_all, e) (undo-detach_all rest moved n s)
    | inr (true, e) ↦ elim (Result-cases (blob_path is_alnum D i s)) [
      | inr (f, bad) ↦ rw (detach_all, e, bad) refl
      | inl (p, good) ↦
          elim (Option-cases
            (D.rename (holder i.id) (quarantine is_alnum hex D writable purge_prefix i.id n) s)) [
              | inl stuck ↦ rw (detach_all, e, good, stuck) refl
              | inr (s1, done) ↦
                  rw (detach_all, e, good, done)
                    (undo-detach_all rest ((i.id, n) ∷ moved) (n + 1) s1
                      ∙ undo-back purge_prefix i.id n moved s s1 done)
            ]
    ]
  ]

  -- A payload that is set aside can be put back.
  abbrev pub Aside : TrashItem → Moves → D.State → Result TrashFault (Option ℕ) × D.State → Type 0
  Aside i moved s (err f, s') = s' ≡ s
  Aside i moved s (ok q, s') =
      undo_moves is_alnum hex D writable delete_prefix
        (moves_of is_alnum hex D writable i.id q ++ moved) s'
      ≡ undo_moves is_alnum hex D writable delete_prefix moved s

  Seen-cases :
      (x : Seen)
      → ((m : Mode) × (x ≡ found m)) ⊎ (x ≡ missing) ⊎ (x ≡ not_directory) ⊎ (x ≡ os_error)
  Seen-cases (found m) = inl (m, refl)
  Seen-cases missing = inr (inl refl)
  Seen-cases not_directory = inr (inr (inl refl))
  Seen-cases os_error = inr (inr (inr refl))

  pub quarantine_payload-Aside :
      (i : TrashItem) (moved : Moves) (n : ℕ) (s : D.State)
      → Aside i moved s (quarantine_payload is_alnum hex D writable i n s)
  unfolding quarantine_payload
  quarantine_payload-Aside i moved n s = elim (Result-cases (blob_path is_alnum D i s)) [
    | inr (f, bad) ↦ rw (quarantine_payload, bad) refl
    | inl (p, good) ↦ elim (Seen-cases (D.lstat (holder i.id) s)) [
      | inr (inl e) ↦ rw (quarantine_payload, good, e) refl
      | inr (inr (inl e)) ↦ rw (quarantine_payload, good, e) refl
      | inr (inr (inr e)) ↦ rw (quarantine_payload, good, e) refl
      | inl (m, e) ↦ elim (Bool-cases (is_directory m)) [
        | inr d ↦ rw (quarantine_payload, good, e, d) refl
        | inl d ↦
            elim (Option-cases (
              D.rename (holder i.id) (quarantine is_alnum hex D writable delete_prefix i.id n) s)) [
                | inl stuck ↦ rw (quarantine_payload, good, e, d, stuck) refl
                | inr (s1, done) ↦
                    rw (quarantine_payload, good, e, d, done)
                      (undo-back delete_prefix i.id n moved s s1 done)
              ]
      ]
    ]
  ]

  undo-quarantine_all :
      (items : List TrashItem) (moved : Moves) (n : ℕ) (s : D.State)
      → let (_, moved', _, s') = quarantine_all is_alnum hex D writable items moved n s in
        undo_moves is_alnum hex D writable delete_prefix moved' s'
        ≡ undo_moves is_alnum hex D writable delete_prefix moved s
  unfolding quarantine_all
  undo-quarantine_all [] moved n s = refl
  undo-quarantine_all (i ∷ rest) moved n s =
      let aside = quarantine_payload-Aside i moved n s in
      elim (ended_cases (quarantine_payload is_alnum hex D writable i n s)) [
        | inl (f, s1, e) ↦
            rw (quarantine_all, e, ap (λ x. x.1) e)
              (ap (undo_moves is_alnum hex D writable delete_prefix moved) (rw e at aside))
        | inr (q, s1, e) ↦
            rw (quarantine_all, e, ap (λ x. x.1) e)
              (undo-quarantine_all rest (moves_of is_alnum hex D writable i.id q ++ moved) (n + 1)
                  s1
                ∙ (rw e at aside))
      ]

  -- What `commit` is handed when everything can be undone.
  commit-Unchanged :
      (prefix : Text) (items : List TrashItem) (count : ℕ) (b : Bin D)
      (end : Result TrashFault (Unit {0}) × Moves × ℕ × D.State) (f : TrashFault)
      → undo_moves is_alnum hex D writable prefix end.1 end.3 ≡ b.disk
      → (commit is_alnum hex D writable prefix items count b end).0 ≡ err f
      → Unchanged b (commit is_alnum hex D writable prefix items count b end).1
  commit-Unchanged prefix items count b (err g, moved, n, s) f back h = (refl, back)
  commit-Unchanged prefix items count b (ok u, moved, n, s) f back h =
      elim (Bool-cases (writable items s)) [ inr e ↦ rw e (refl, back) | inl e ↦ cc (rw e at h) ]

  pub with_items-Unchanged :
      {A : Type 0} (o : Option (List TrashItem)) (b : Bin D)
      (step : List TrashItem → Result TrashFault A × Bin D) (f : TrashFault)
      → ((items : List TrashItem) → (step items).0 ≡ err f → Unchanged b (step items).1)
      → (with_items is_alnum hex D writable o b step).0 ≡ err f
      → Unchanged b (with_items is_alnum hex D writable o b step).1
  with_items-Unchanged none b step f each h = (refl, refl)
  with_items-Unchanged (some items) b step f each h = each items h

  purge_items-Unchanged :
      (split : List TrashItem × List TrashItem) (b : Bin D) (f : TrashFault)
      → (purge_items is_alnum hex D writable split b).0 ≡ err f
      → Unchanged b (purge_items is_alnum hex D writable split b).1
  unfolding purge_items undo_moves
  purge_items-Unchanged (kept, []) b f h = (refl, refl)
  purge_items-Unchanged (kept, i ∷ more) b f h =
      commit-Unchanged purge_prefix kept (length (i ∷ more)) b
        (detach_all is_alnum hex D writable (i ∷ more) [] b.next b.disk) f
        (undo-detach_all (i ∷ more) [] b.next b.disk) h

  -- A purge that raises has changed nothing: the index and the files are as before, payloads that
  -- it had set aside included, provided that a rename can be taken back.
  pub purge_expired-Unchanged :
      (retention_days now : ℕ) (limit : Option ℕ) (b : Bin D) (f : TrashFault)
      → (purge_expired is_alnum hex D writable retention_days now limit b).0 ≡ err f
      → Unchanged b (purge_expired is_alnum hex D writable retention_days now limit b).1
  unfolding purge_expired
  purge_expired-Unchanged retention_days now limit b f h = elim (Bool-cases (is_bad_limit limit)) [
    | inl bad ↦ rw bad (refl, refl)
    | inr fine ↦ rw fine (
        with_items-Unchanged b.index b
          (λ items.
            purge_items is_alnum hex D writable
              (split_expired (is_expired retention_days now) limit 0 items) b)
          f
          (λ items.
            purge_items-Unchanged (split_expired (is_expired retention_days now) limit 0 items) b f)
          (rw fine at h))
  ]

  empty_items-Unchanged :
      (b : Bin D) (f : TrashFault) (items : List TrashItem)
      → (empty_items is_alnum hex D writable b items).0 ≡ err f
      → Unchanged b (empty_items is_alnum hex D writable b items).1
  unfolding empty_items undo_moves
  empty_items-Unchanged b f [] h = (refl, refl)
  empty_items-Unchanged b f (i ∷ more) h =
      commit-Unchanged delete_prefix [] (length (i ∷ more)) b
        (quarantine_all is_alnum hex D writable (i ∷ more) [] b.next b.disk) f
        (undo-quarantine_all (i ∷ more) [] b.next b.disk) h

  -- An emptying that raises has changed nothing: the index and the files are as before, payloads
  -- that it had set aside included, provided that a rename can be taken back.
  empty-Unchanged :
      (b : Bin D) (f : TrashFault)
      → (empty is_alnum hex D writable b).0 ≡ err f
      → Unchanged b (empty is_alnum hex D writable b).1
  unfolding empty
  empty-Unchanged b f h =
      with_items-Unchanged b.index b (empty_items is_alnum hex D writable b) f
        (empty_items-Unchanged b f) h
