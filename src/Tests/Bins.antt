-- ===== src/Tests/Bins.antt =====
-- A trash with two entries, over a file system that is a set of places.
use local_book.Base.{
  All, Bool, Bool-cases, List, Option, [], ap, contains, err, false, if◌then◌else◌, inl, inr, leb,
  length, list_beq_iff, none, ok, refl, some, sym, true, ℕ, ◌+◌, ◌==◌, ◌↔◌, ◌∷◌, ◌≡◌, nat_eq,
  string_eq, option_eq, list_eq,
}
use local_book.Paths.{Text, split_on, validate_relative_path}
use local_book.Paths.Resolve.{directory, found, missing}
use local_book.Trash.{
  Disk, IsReversible, Place, TrashItem, atomic_write, file_item, trash_at, type_error, vault_at,
}
use local_book.Trash.Items.{
  blob_path, lacks_links, names_blob, print_entries, read_entries, validate_trash_id,
}
use local_book.Trash.Bin.{
  Bin, day, delete, delete_from, detach_all, drop_entry, find_entry, is_expired, purge_expired,
  purge_items, purge_prefix, quarantine, quarantine_payload, split_expired,
}
use local_book.Trash.Undone.{Unchanged, purge_expired-Unchanged}
use local_book.Trash.Purged.{FitsLimit, IsDone, Parts, purge_expired-purged}
use local_book.Trash.Deleted.{delete-Unchanged, delete-missing, dropped}
use local_book.Trash.Encoded.{read_entries-print_entries}

abbrev alnum : ℕ → Bool
alnum c = leb 97 c

-- The kinds of places, and a test of their equality.
abbrev place_beq : Place → Place → Bool
place_beq (vault_at p) (vault_at q) = p == q
place_beq (trash_at p) (trash_at q) = p == q
place_beq _ _ = false

place_beq_iff : (p q : Place) → (place_beq p q ≡ true) ↔ (p ≡ q)
place_beq_iff (vault_at p) (vault_at q) =
    (λ h. ap vault_at ((list_beq_iff p q).0 h), λ h. (list_beq_iff p q).1 (cc h))
place_beq_iff (trash_at p) (trash_at q) =
    (λ h. ap trash_at ((list_beq_iff p q).0 h), λ h. (list_beq_iff p q).1 (cc h))
place_beq_iff (vault_at p) (trash_at q) = (λ h. cc h, λ h. cc h)
place_beq_iff (trash_at p) (vault_at q) = (λ h. cc h, λ h. cc h)

-- A file system with one directory, which renames move.
abbrev one_directory : Disk
one_directory = record {
  State = Place;
  lstat = λ p s. if place_beq s p then found directory else missing;
  rename = λ p q s. if place_beq s p then some q else none;
  remove_tree = λ p s. s;
}

rename_back :
    (p q s s' : Place) → one_directory.rename p q s ≡ some s' → one_directory.rename q p s' ≡ some s
rename_back p q s s' h = elim (Bool-cases (place_beq s p)) [
  | inl e ↦
      let moved : q ≡ s' = cc (rw e at h) in
      let there = (place_beq_iff s' q).1 (sym moved) in
      rw there (ap some (sym ((place_beq_iff s p).0 e)))
  | inr e ↦ cc (rw e at h)
]

one_directory-IsReversible : IsReversible one_directory
one_directory-IsReversible = record { back = rename_back }

-- The payload of the first entry.
abbrev payload : Place
payload = trash_at ((97 ∷ []) ∷ [])

-- A file system without renames: what is there is fixed.
abbrev fixed : (Place → Bool) → Disk
fixed here = record {
  State = Unit {0};
  lstat = λ p s. if here p then found directory else missing;
  rename = λ p q s. none;
  remove_tree = λ p s. s;
}

abbrev nothing : Place → Bool
nothing p = false

abbrev item : ℕ → ℕ → TrashItem
item c time = record {
  id = c ∷ [];
  original_path = 110 ∷ c ∷ [];
  kind = file_item;
  byte_length = 3;
  file_count = 1;
  deleted_at = time;
  blob = c ∷ 47 ∷ 110 ∷ [];
}

abbrev items : List TrashItem
items = item 97 5 ∷ item 98 day ∷ []

abbrev bin : (D : Disk) → D.State → Bin D
bin D s = record { index = some items; disk = s; next = 0 }

abbrev always : List TrashItem → Unit {0} → Bool
always xs s = true

abbrev never : List TrashItem → Place → Bool
never xs s = false

abbrev number : ℕ → Text
number n = n ∷ []

abbrev one_number : Text → Option ℕ
one_number [] = none
one_number (n ∷ rest) = some n

-- The payload is set aside, the index cannot be written, and the payload is put back.
purge_expired-Unchanged_example :
    Unchanged
      (bin one_directory payload)
      (purge_expired alnum number one_directory never 1
        (day + 9)
        none
        (bin one_directory payload)).1
unfolding purge_expired split_expired purge_items detach_all blob_path validate_trash_id
    validate_relative_path split_on lacks_links
purge_expired-Unchanged_example =
    purge_expired-Unchanged alnum number one_directory never one_directory-IsReversible 1 (day + 9)
      none (bin one_directory payload) atomic_write refl

set_aside :
    (detach_all alnum number one_directory never (item 97 5 ∷ []) [] 0 payload).3
    ≡ quarantine alnum number one_directory never purge_prefix (97 ∷ []) 0
unfolding detach_all blob_path validate_trash_id validate_relative_path split_on lacks_links
set_aside = refl

purge_expired-purged_example :
    let test = is_expired 1 (day + 9) in
    let after =
      (purge_expired alnum number
        (fixed nothing)
        always
        1
        (day + 9)
        (some 4)
        (bin (fixed nothing) tt)).1 in
    (kept : List TrashItem) × (gone : List TrashItem) × (after.index ≡ some kept)
    × Parts kept gone items
    × (1 ≡ length gone)
    × All (λ i. test i ≡ true) gone
    × FitsLimit (some 4) 1
    × IsDone test (some 4) kept 1
unfolding purge_expired split_expired purge_items detach_all
purge_expired-purged_example =
    purge_expired-purged alnum number (fixed nothing) always 1 (day + 9) (some 4)
      (bin (fixed nothing) tt) items 1 refl refl

-- The payload is renamed, the index cannot be written, and the payload is put back.
delete-Unchanged_example :
    Unchanged
      (bin one_directory payload)
      (delete alnum number one_directory never (97 ∷ []) (bin one_directory payload)).1
unfolding delete delete_from find_entry drop_entry quarantine_payload blob_path validate_trash_id
    validate_relative_path split_on lacks_links
delete-Unchanged_example =
    delete-Unchanged alnum number one_directory never one_directory-IsReversible (97 ∷ [])
      (bin one_directory payload) atomic_write (λ e. cc e) refl

delete-missing_example :
    delete alnum number (fixed nothing) always (97 ∷ []) (bin (fixed nothing) tt) ≡ (
      err type_error,
      dropped alnum number (fixed nothing) always (97 ∷ []) items tt (bin (fixed nothing) tt),
    )
unfolding find_entry blob_path validate_trash_id validate_relative_path split_on lacks_links
delete-missing_example =
    delete-missing alnum number (fixed nothing) always (97 ∷ []) (bin (fixed nothing) tt) items
      (item 97 5) (trash_at ((97 ∷ []) ∷ (110 ∷ []) ∷ [])) refl refl refl refl refl

read_entries-print_entries_example :
    read_entries alnum number one_number []
      (print_entries alnum number one_number (item 97 5 ∷ item 98 6 ∷ []))
    ≡ ok (item 97 5 ∷ item 98 6 ∷ [])
unfolding validate_trash_id validate_relative_path names_blob split_on contains
read_entries-print_entries_example =
    read_entries-print_entries alnum number one_number (λ t. refl) [] (item 97 5 ∷ item 98 6 ∷ [])
      ((refl, refl, refl, refl), ((refl, refl, refl, refl), tt)) (refl, (refl, tt))
