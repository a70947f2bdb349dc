-- ===== src/Trash/Deleted.antt =====
-- What `delete` does.
use local_book.Base.{
  Bool, Bool-cases, List, Option, Option-cases, Result, [], ap, err, inl, inr, list_eq, none, ok,
  refl, some, sym, true, ℕ, ◌+◌, ◌==◌, ◌∙◌, ◌∷◌, ◌≡◌, ◌≢◌, nat_eq, string_eq, option_eq,
}
use local_book.Paths.Resolve.{missing}
use local_book.Paths.{Text}
use local_book.Trash.{Disk, IsReversible, Place, TrashFault, TrashItem, type_error}
use local_book.Trash.Items.{blob_path}
use local_book.Trash.Bin.{
  Bin, delete, delete_from, drop_entry, find_entry, holder, quarantine_payload, with_items, without,
}
use local_book.Trash.Undone.{Aside, Unchanged, quarantine_payload-Aside, with_items-Unchanged}

find_entry-without : (id : Text) (items : List TrashItem) → find_entry id (without id items) ≡ none
unfolding find_entry without
find_entry-without id [] = refl
find_entry-without id (i ∷ rest) = elim (Bool-cases (i.id == id)) [
  | inl e ↦ rw (without, e) (find_entry-without id rest)
  | inr e ↦ rw (without, e) (rw (find_entry, e) (find_entry-without id rest))
]

id-find_entry :
    (id : Text) (items : List TrashItem) (i : TrashItem) → find_entry id items ≡ some i → i.id ≡ id
unfolding find_entry
id-find_entry id [] i h = cc h
id-find_entry id (x ∷ rest) i h = elim (Bool-cases (x.id == id)) [
  | inl e ↦
      let same : x ≡ i = cc (rw (find_entry, e) at h) in
      ap (λ y. y.id) (sym same) ∙ (list_eq.beq_iff x.id id).0 e
  | inr e ↦ id-find_entry id rest i (rw (find_entry, e) at h)
]

module _ (is_alnum : ℕ → Bool) (hex : ℕ → Text) (D : Disk)
    (writable : List TrashItem → D.State → Bool) where
  -- The bin after an entry has left the index.
  abbrev pub dropped : Text → List TrashItem → D.State → Bin D → Bin D
  dropped id items s b = record { index = some (without id items); disk = s; next = b.next + 1 }

  -- A payload that is gone: where the index can be read and written and lists an entry whose
  -- directory is missing from the trash, the deletion of this entry ends in a `TypeError`, and the
  -- entry has left the index all the same.
  pub delete-missing :
      (id : Text) (b : Bin D) (items : List TrashItem) (i : TrashItem) (p : Place)
      → b.index ≡ some items
      → find_entry id items ≡ some i
      → blob_path is_alnum D i b.disk ≡ ok p
      → D.lstat (holder i.id) b.disk ≡ missing
      → writable (without i.id items) b.disk ≡ true
      → delete is_alnum hex D writable id b ≡ (err type_error, dropped i.id items b.disk b)
  unfolding delete delete_from drop_entry quarantine_payload
  delete-missing id b items i p read listed located gone can =
      let aside : quarantine_payload is_alnum hex D writable i b.next b.disk ≡ (ok none, b.disk) =
        rw (quarantine_payload, located, gone) refl in
      let ends : drop_entry is_alnum hex D writable items i b (ok none, b.disk)
          ≡ (err type_error, dropped i.id items b.disk b) =
        rw can refl in
      let from_items : delete_from is_alnum hex D writable id b items
          ≡ (err type_error, dropped i.id items b.disk b) =
        rw (delete_from, listed) (ap (drop_entry is_alnum hex D writable items i b) aside ∙ ends) in
      ap (λ o. with_items is_alnum hex D writable o b (delete_from is_alnum hex D writable id b))
        read
      ∙ from_items

  drop_entry-ok :
      (items : List TrashItem) (i : TrashItem) (b : Bin D)
      (r : Result TrashFault (Option ℕ) × D.State) (path : Text)
      → (drop_entry is_alnum hex D writable items i b r).0 ≡ ok path
      → (path ≡ i.original_path)
        × ((drop_entry is_alnum hex D writable items i b r).1.index ≡ some (without i.id items))
  unfolding drop_entry
  drop_entry-ok items i b (err f, s) path h = cc h
  drop_entry-ok items i b (ok none, s) path h =
      elim (Bool-cases (writable (without i.id items) s)) [
        | inl e ↦ cc (rw e at h)
        | inr e ↦ cc (rw e at h)
      ]
  drop_entry-ok items i b (ok (some n), s) path h =
      elim (Bool-cases (writable (without i.id items) s)) [
        | inl e ↦ rw e (cc (rw e at h), refl)
        | inr e ↦ cc (rw e at h)
      ]

  removes_from :
      (id : Text) (b : Bin D) (path : Text) (o : Option (List TrashItem))
      → b.index ≡ o
      → (with_items is_alnum hex D writable o b (delete_from is_alnum hex D writable id b)).0
        ≡ ok path
      → (items : List TrashItem) × (i : TrashItem) × (b.index ≡ some items)
        × (find_entry id items ≡ some i)
        × (path ≡ i.original_path)
        × ((with_items is_alnum hex D writable o b
              (delete_from is_alnum hex D writable id b)).1.index
            ≡ some (without id items))
        × (find_entry id (without id items) ≡ none)
  unfolding delete_from
  removes_from id b path none read h = cc h
  removes_from id b path (some items) read h = elim (Option-cases (find_entry id items)) [
    | inl e ↦ cc (rw (delete_from, e) at h)
    | inr (i, e) ↦
        let r = quarantine_payload is_alnum hex D writable i b.next b.disk in
        let (same, index) = drop_entry-ok items i b r path (rw (delete_from, e) at h) in
        let own = id-find_entry id items i e in
        (
          items,
          i,
          read,
          e,
          same,
          rw (delete_from, e) (index ∙ ap (λ j. some (without j items)) own),
          find_entry-without id items,
        )
  ]

  -- What a deletion returns: the original path of the entry that the index listed under the id, and
  -- in the new index this entry is gone and all entries of other ids are left.
  delete-removes :
      (id : Text) (b : Bin D) (path : Text)
      → (delete is_alnum hex D writable id b).0 ≡ ok path
      → (items : List TrashItem) × (i : TrashItem) × (b.index ≡ some items)
        × (find_entry id items ≡ some i)
        × (path ≡ i.original_path)
        × ((delete is_alnum hex D writable id b).1.index ≡ some (without id items))
        × (find_entry id (without id items) ≡ none)
  unfolding delete
  delete-removes id b path h = removes_from id b path b.index refl h

module _ (is_alnum : ℕ → Bool) (hex : ℕ → Text) (D : Disk)
    (writable : List TrashItem → D.State → Bool) (R : IsReversible D) where
  drop_entry-Unchanged :
      (items : List TrashItem) (i : TrashItem) (b : Bin D)
      (r : Result TrashFault (Option ℕ) × D.State) (f : TrashFault)
      → f ≢ type_error
      → Aside is_alnum hex D writable R i [] b.disk r
      → (drop_entry is_alnum hex D writable items i b r).0 ≡ err f
      → Unchanged b (drop_entry is_alnum hex D writable items i b r).1
  unfolding drop_entry
  drop_entry-Unchanged items i b (err g, s) f apart aside h = (refl, aside)
  drop_entry-Unchanged items i b (ok none, s) f apart aside h =
      elim (Bool-cases (writable (without i.id items) s)) [
        | inl e ↦ elim (apart (sym (cc (e)))) [ ]
        | inr e ↦ rw e (refl, aside)
      ]
  drop_entry-Unchanged items i b (ok (some n), s) f apart aside h =
      elim (Bool-cases (writable (without i.id items) s)) [
        | inl e ↦ cc (rw e at h)
        | inr e ↦ rw e (refl, aside)
      ]

  -- A deletion that raises anything but a `TypeError` has changed nothing: the index and the files
  -- are as before, a payload that it had set aside included, provided that a rename can be taken
  -- back.
  pub delete-Unchanged :
      (id : Text) (b : Bin D) (f : TrashFault)
      → f ≢ type_error
      → (delete is_alnum hex D writable id b).0 ≡ err f
      → Unchanged b (delete is_alnum hex D writable id b).1
  unfolding delete delete_from
  delete-Unchanged id b f apart h =
      with_items-Unchanged is_alnum hex D writable R b.index b
        (delete_from is_alnum hex D writable id b) f
        (λ items g. elim (Option-cases (find_entry id items)) [
          | inl e ↦ rw (delete_from, e) (refl, refl)
          | inr (i, e) ↦
              let r = quarantine_payload is_alnum hex D writable i b.next b.disk in
              rw (delete_from, e)
                (drop_entry-Unchanged items i b r f apart
                  (quarantine_payload-Aside is_alnum hex D writable R i [] b.next b.disk)
                  (rw (delete_from, e) at g))
        ])
        h
