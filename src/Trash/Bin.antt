-- ===== src/Trash/Bin.antt =====
-- The operations of `TrashService` that take entries out of the trash for good.
use local_book.Base.{
  Bool, List, Option, Result, [], err, false, if◌then◌else◌, leb, length, ltb, none, ok, reverse,
  some, true, ℕ, ◌&&◌, ◌*◌, ◌++◌, ◌+◌, ◌==◌, ◌∷◌, nat_eq, string_eq, option_eq, list_eq,
}
use local_book.Paths.{Text}
use local_book.Paths.Resolve.{Seen, found, is_directory, missing, not_directory, os_error}
use local_book.Trash.{
  Disk, Place, TrashFault, TrashItem, atomic_write, call_failed, entry_not_found, invalid_operation,
  trash_at, type_error, unavailable, value_error,
}
use local_book.Trash.Items.{blob_path}

-- The file `index.json` as its entries, `none` where it cannot be read or is no valid index; the
-- file system; and the number of the next `uuid4`.
pub record Bin (D : Disk) : Type 0 where
  pub index : Option (List TrashItem)
  pub disk : D.State
  pub next : ℕ

abbrev pub day : ℕ
day = 86400000000

-- `_expires_at(item) <= moment`
abbrev pub is_expired : (retention_days now : ℕ) → TrashItem → Bool
is_expired retention_days now i = leb (i.deleted_at + retention_days * day) now

-- `limit is None or len(expired) < limit`
abbrev pub has_room : Option ℕ → ℕ → Bool
has_room none taken = true
has_room (some limit) taken = ltb taken limit

-- The kept and the expired items, with how many have been taken.
unfoldable pub split_expired :
    (TrashItem → Bool) → Option ℕ → ℕ → List TrashItem → List TrashItem × List TrashItem
split_expired test limit taken [] = ([], [])
split_expired test limit taken (i ∷ rest) = elim (test i && has_room limit taken) [
  | true ↦ let (kept, expired) = split_expired test limit (taken + 1) rest in (kept, i ∷ expired)
  | false ↦ let (kept, expired) = split_expired test limit taken rest in (i ∷ kept, expired)
]

abbrev pub is_bad_limit : Option ℕ → Bool
is_bad_limit none = false
is_bad_limit (some n) = n == 0

-- `[entry for entry in items if entry.id != id]`
unfoldable pub without : Text → List TrashItem → List TrashItem
without id [] = []
without id (i ∷ rest) = let more = without id rest in if i.id == id then more else i ∷ more

-- `_entry`
unfoldable pub find_entry : Text → List TrashItem → Option TrashItem
find_entry id [] = none
find_entry id (i ∷ rest) = if i.id == id then some i else find_entry id rest

-- `.purge-` and `.delete-`
abbrev pub purge_prefix : Text
purge_prefix = 46 ∷ 112 ∷ 117 ∷ 114 ∷ 103 ∷ 101 ∷ 45 ∷ []

abbrev pub delete_prefix : Text
delete_prefix = 46 ∷ 100 ∷ 101 ∷ 108 ∷ 101 ∷ 116 ∷ 101 ∷ 45 ∷ []

abbrev pub holder : Text → Place
holder id = trash_at (id ∷ [])

-- `holder.exists() or holder.is_symlink()`, `none` where these raise.
abbrev pub presence : Seen → Option Bool
presence (found m) = some true
presence missing = some false
presence not_directory = some false
presence os_error = none

-- Directories that were moved, the last one first: the id, and the number of the new name.
abbrev pub Moves : Type 0
Moves = List (Text × ℕ)

-- `_write_index` replaces the file as a whole, where the parameter `writable` says so, or not at all.
module _ (is_alnum : ℕ → Bool) (hex : ℕ → Text) (D : Disk)
    (writable : List TrashItem → D.State → Bool) where
  abbrev pub quarantine : Text → Text → ℕ → Place
  quarantine prefix id n = trash_at ((prefix ++ (id ++ (45 ∷ hex n))) ∷ [])

  -- `_load_index`, and what goes on with its entries.
  abbrev pub with_items :
      {A : Type 0}
      → Option (List TrashItem)
      → Bin D
      → (List TrashItem → Result TrashFault A × Bin D)
      → Result TrashFault A × Bin D
  with_items none b f = (err unavailable, b)
  with_items (some items) b f = f items

  -- The renames of a handler that undoes, their failures passed over.
  unfoldable pub undo_moves : Text → Moves → D.State → D.State
  undo_moves prefix [] s = s
  undo_moves prefix ((id, n) ∷ rest) s = elim (D.rename (quarantine prefix id n) (holder id) s) [
    | none ↦ undo_moves prefix rest s
    | some s' ↦ undo_moves prefix rest s'
  ]

  unfoldable pub remove_moved : Text → Moves → D.State → D.State
  remove_moved prefix [] s = s
  remove_moved prefix ((id, n) ∷ rest) s =
      remove_moved prefix rest (D.remove_tree (quarantine prefix id n) s)

  -- The loop of `purge_expired` that detaches the payloads.
  unfoldable pub detach_all :
      List TrashItem → Moves → ℕ → D.State → Result TrashFault (Unit {0}) × Moves × ℕ × D.State
  unfolding blob_path
  detach_all [] moved n s = (ok tt, moved, n, s)
  detach_all (i ∷ rest) moved n s = elim (presence (D.lstat (holder i.id) s)) [
    | none ↦ (err call_failed, moved, n, s)
    | some false ↦ detach_all rest moved n s
    | some true ↦ elim (blob_path is_alnum D i s) [
      | err f ↦ (err f, moved, n, s)
      | ok _ ↦ elim (D.rename (holder i.id) (quarantine purge_prefix i.id n) s) [
        | none ↦ (err call_failed, moved, n + 1, s)
        | some s' ↦ detach_all rest ((i.id, n) ∷ moved) (n + 1) s'
      ]
    ]
  ]

  -- The end of a purge or of an emptying: the new index, or everything as it was.
  abbrev pub commit :
      Text
      → List TrashItem
      → ℕ
      → Bin D
      → Result TrashFault (Unit {0}) × Moves × ℕ × D.State
      → Result TrashFault ℕ × Bin D
  commit prefix items count b (err f, moved, n, s) =
      (err f, record b { disk = undo_moves prefix moved s; next = n })
  commit prefix items count b (ok _, moved, n, s) =
      if writable items s
      then (
        ok count,
        record { index = some items; disk = remove_moved prefix (reverse moved) s; next = n },
      )
      else (err atomic_write, record b { disk = undo_moves prefix moved s; next = n })

  abbrev pub is_none_left : List TrashItem → Bool
  is_none_left [] = true
  is_none_left _ = false

  unfoldable pub purge_items : List TrashItem × List TrashItem → Bin D → Result TrashFault ℕ × Bin D
  unfolding detach_all undo_moves remove_moved
  purge_items (kept, expired) b =
      if is_none_left expired
      then (ok 0, b)
      else commit purge_prefix kept (length expired) b (detach_all expired [] b.next b.disk)

  -- `purge_expired`
  unfoldable pub purge_expired :
      (retention_days now : ℕ) → Option ℕ → Bin D → Result TrashFault ℕ × Bin D
  unfolding split_expired purge_items
  purge_expired retention_days now limit b =
      if is_bad_limit limit
      then (err value_error, b)
      else with_items b.index b
          λ items. purge_items (split_expired (is_expired retention_days now) limit 0 items) b

  -- `_quarantine_payload`: a payload that is gone is none.
  unfoldable pub quarantine_payload :
      TrashItem → ℕ → D.State → Result TrashFault (Option ℕ) × D.State
  unfolding blob_path
  quarantine_payload i n s = elim (blob_path is_alnum D i s) [
    | err f ↦ (err f, s)
    | ok _ ↦ elim (D.lstat (holder i.id) s) [
      | missing ↦ (ok none, s)
      | not_directory ↦ (err call_failed, s)
      | os_error ↦ (err call_failed, s)
      | found m ↦
          if is_directory m
          then elim (D.rename (holder i.id) (quarantine delete_prefix i.id n) s) [
            | none ↦ (err atomic_write, s)
            | some s' ↦ (ok (some n), s')
          ]
          else (err invalid_operation, s)
    ]
  ]

  abbrev pub moves_of : Text → Option ℕ → Moves
  moves_of id none = []
  moves_of id (some n) = (id, n) ∷ []

  -- The end of `delete`: `shutil.rmtree(None)` raises a `TypeError`, which nothing catches.
  abbrev pub finish_delete : TrashItem → Option ℕ → Bin D → Result TrashFault Text × Bin D
  finish_delete i none b = (err type_error, b)
  finish_delete i (some n) b = (
    ok i.original_path,
    record b { disk = D.remove_tree (quarantine delete_prefix i.id n) b.disk },
  )

  -- The end of `delete`, once its payload is set aside or was found missing.
  unfoldable pub drop_entry :
      List TrashItem
      → TrashItem
      → Bin D
      → Result TrashFault (Option ℕ) × D.State
      → Result TrashFault Text × Bin D
  unfolding without undo_moves
  drop_entry items i b (err f, s) = (err f, record b { disk = s; next = b.next + 1 })
  drop_entry items i b (ok q, s) =
      if writable (without i.id items) s
      then finish_delete i q
          (record { index = some (without i.id items); disk = s; next = b.next + 1 })
      else (
        err atomic_write,
        record b { disk = undo_moves delete_prefix (moves_of i.id q) s; next = b.next + 1 },
      )

  unfoldable pub delete_from : Text → Bin D → List TrashItem → Result TrashFault Text × Bin D
  unfolding find_entry drop_entry quarantine_payload
  delete_from id b items = elim (find_entry id items) [
    | none ↦ (err entry_not_found, b)
    | some i ↦ drop_entry items i b (quarantine_payload i b.next b.disk)
  ]

  -- `delete`
  unfoldable pub delete : Text → Bin D → Result TrashFault Text × Bin D
  unfolding delete_from
  delete id b = with_items b.index b (delete_from id b)

  -- The loop of `empty`.
  unfoldable pub quarantine_all :
      List TrashItem → Moves → ℕ → D.State → Result TrashFault (Unit {0}) × Moves × ℕ × D.State
  unfolding quarantine_payload
  quarantine_all [] moved n s = (ok tt, moved, n, s)
  quarantine_all (i ∷ rest) moved n s =
      let (r, s') = quarantine_payload i n s in
      elim r [
        | err f ↦ (err f, moved, n + 1, s')
        | ok q ↦ quarantine_all rest (moves_of i.id q ++ moved) (n + 1) s'
      ]

  unfoldable pub empty_items : Bin D → List TrashItem → Result TrashFault ℕ × Bin D
  unfolding quarantine_all undo_moves remove_moved
  empty_items b items =
      if is_none_left items
      then (ok 0, b)
      else commit delete_prefix [] (length items) b (quarantine_all items [] b.next b.disk)

  -- `empty`: no index is written where there is nothing to empty.
  unfoldable pub empty : Bin D → Result TrashFault ℕ × Bin D
  unfolding empty_items
  empty b = with_items b.index b (empty_items b)
