-- ===== src/Trash/Encoded.antt =====
-- The index of the trash is read as it was written.
use local_book.Base.{
  All, Bool, List, Option, [], beq_refl, contains, false, ok, refl, some, true, ℕ, ◌∷◌, ◌≡◌, nat_eq,
  string_eq, option_eq, list_eq,
}
use local_book.Paths.{Text, text, validate_relative_path}
use local_book.Trash.{ItemKind, TrashItem, directory_item, file_item}
use local_book.Trash.Items.{
  from_dict, names_blob, print_entries, print_kind, read_entries, read_fields, read_kind, to_dict,
  validate_trash_id, with_paths,
}

-- The ids of a list of entries are apart from each other and from those seen.
abbrev pub AreNew : List Text → List TrashItem → Type 0
AreNew seen [] = Unit {0}
AreNew seen (i ∷ rest) = (contains seen i.id ≡ false) × AreNew (i.id ∷ seen) rest

module _ (is_alnum : ℕ → Bool) where
  -- An entry whose id is valid, and whose paths are relative paths, that of the payload below its
  -- id.
  abbrev pub IsEntry : TrashItem → Type 0
  IsEntry i =
      (validate_trash_id is_alnum i.id ≡ ok i.id)
      × (validate_relative_path false (text i.original_path) ≡ ok i.original_path)
      × (validate_relative_path false (text i.blob) ≡ ok i.blob)
      × (names_blob is_alnum i.id i.blob ≡ true)

  read_kind-print_kind : (k : ItemKind) → read_kind (print_kind k) ≡ some k
  unfolding read_kind
  read_kind-print_kind file_item = refl
  read_kind-print_kind directory_item = refl

  module _ (print_time : ℕ → Text) (read_time : Text → Option ℕ)
      (reads : (t : ℕ) → read_time (print_time t) ≡ some t) where
    from_dict-to_dict :
        (i : TrashItem)
        → IsEntry i
        → from_dict is_alnum print_time read_time (some (to_dict is_alnum print_time read_time i))
          ≡ ok (some i)
    unfolding from_dict to_dict read_fields with_paths
    from_dict-to_dict i (id, original, blob, named) =
        let fields : read_fields is_alnum print_time read_time
              (to_dict is_alnum print_time read_time i)
            ≡ some i =
          rw (read_fields, to_dict, reads i.deleted_at, read_kind-print_kind i.kind) refl in
        let paths : with_paths is_alnum print_time read_time i ≡ some i =
          rw (with_paths, original, blob, named) refl in
        rw (from_dict, fields, id, beq_refl i.id, paths) refl

    -- The index as it is written is read back: where the ids of some entries are valid and different,
    -- their paths are valid, and each payload is below its id, `_load_index` reads from what
    -- `_write_index` prints these entries in their order.
    pub read_entries-print_entries :
        (seen : List Text) (items : List TrashItem)
        → All IsEntry items
        → AreNew seen items
        → read_entries is_alnum print_time read_time seen
            (print_entries is_alnum print_time read_time items)
          ≡ ok items
    unfolding read_entries print_entries
    read_entries-print_entries seen [] valid apart = refl
    read_entries-print_entries seen (i ∷ rest) (valid, more) (here, apart) =
        rw (from_dict-to_dict i valid, here)
          (rw (read_entries-print_entries (i.id ∷ seen) rest more apart) refl)
