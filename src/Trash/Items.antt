-- ===== src/Trash/Items.antt =====
-- The entries of the trash index: their ids, their form in JSON, and the location of a payload.
use local_book.Base.{
  Bool, List, Option, Result, [], all, contains, err, false, if◌then◌else◌, length, ltb, none, not,
  ok, raise_if, some, true, ℕ, ◌&&◌, ◌++◌, ◌==◌, ◌>>=◌, ◌>>◌, ◌||◌, ◌∷◌, nat_eq, string_eq,
  option_eq, list_eq,
}
use local_book.Paths.{PathFault, Text, slash, split_on, text, validate_relative_path}
use local_book.Paths.Resolve.{found, is_link, missing, not_directory, os_error}
use local_book.Trash.{
  Disk, ItemKind, Place, TrashFault, TrashItem, directory_item, file_item, invalid_operation,
  path_fault, trash_at, unavailable,
}

-- A value of a decoded JSON object.
pub data Json : Type 0 where
  text_value : Text → Json
  number_value : ℕ → Json
  negative_value boolean_value other_value : Json

-- An object with exactly the keys of `to_dict`.
pub record RawItem : Type 0 where
  pub id : Json
  pub original_path : Json
  pub kind : Json
  pub byte_length : Json
  pub file_count : Json
  pub deleted_at : Json
  pub blob : Json

abbrev pub file_text : Text
file_text = 102 ∷ 105 ∷ 108 ∷ 101 ∷ []

abbrev pub directory_text : Text
directory_text = 100 ∷ 105 ∷ 114 ∷ 101 ∷ 99 ∷ 116 ∷ 111 ∷ 114 ∷ 121 ∷ []

abbrev pub print_kind : ItemKind → Text
print_kind file_item = file_text
print_kind directory_item = directory_text

unfoldable pub read_kind : Text → Option ItemKind
read_kind t =
    if t == file_text
    then some file_item
    else if t == directory_text
    then some directory_item
    else none

abbrev pub as_text : Json → Option Text
as_text (text_value t) = some t
as_text _ = none

abbrev pub as_count : Json → Option ℕ
as_count (number_value n) = some n
as_count _ = none

abbrev pub as_valid : Result PathFault Text → Option Text
as_valid (ok p) = some p
as_valid (err f) = none

abbrev pub as_path : Result PathFault Text → Result TrashFault Text
as_path (ok p) = ok p
as_path (err f) = err (path_fault f)

-- `.localnote`
abbrev pub derived_name : Text
derived_name = 46 ∷ 108 ∷ 111 ∷ 99 ∷ 97 ∷ 108 ∷ 110 ∷ 111 ∷ 116 ∷ 101 ∷ []

abbrev pub starts_with : Text → Text → Bool
starts_with [] t = true
starts_with (p ∷ ps) [] = false
starts_with (p ∷ ps) (c ∷ cs) = p == c && starts_with ps cs

-- `is_reserved_derived_path`
abbrev pub is_reserved : Text → Bool
is_reserved t = t == derived_name || starts_with (derived_name ++ (slash ∷ [])) t

abbrev pub after : {A B : Type 0} → Option A → (A → Option B) → Option B
after none f = none
after (some a) f = f a

abbrev pub only_if : {A : Type 0} → Bool → Option A → Option A
only_if true o = o
only_if false o = none

abbrev pub first_segment : List Text → Text
first_segment [] = []
first_segment (s ∷ rest) = s

-- `len(…) >= 2`
abbrev pub has_two : List Text → Bool
has_two (s ∷ t ∷ rest) = true
has_two _ = false

module _ (is_alnum : ℕ → Bool) where
  -- `validate_trash_id`
  unfoldable pub validate_trash_id : Text → Result TrashFault Text
  unfolding validate_relative_path
  validate_trash_id t =
      raise_if (t == [] || ltb 64 (length t)) invalid_operation
      >> raise_if (not (all (λ c. is_alnum c || c == 95 || c == 45) t)) invalid_operation
      >> as_path (validate_relative_path false (text t))
      >>= λ valid. raise_if (not (valid == t) || is_reserved t) invalid_operation >> ok t

  -- The checks of a blob's path against its id.
  unfoldable pub names_blob : Text → Text → Bool
  unfolding split_on
  names_blob id blob = first_segment (split_on slash blob) == id && has_two (split_on slash blob)

  module _ (print_time : ℕ → Text) (read_time : Text → Option ℕ) where
    -- `to_dict`
    unfoldable pub to_dict : TrashItem → RawItem
    to_dict i = record {
      id = text_value i.id;
      original_path = text_value i.original_path;
      kind = text_value (print_kind i.kind);
      byte_length = number_value i.byte_length;
      file_count = number_value i.file_count;
      deleted_at = text_value (print_time i.deleted_at);
      blob = text_value i.blob;
    }

    -- The fields of a raw entry whose types are right.
    unfoldable pub read_fields : RawItem → Option TrashItem
    unfolding read_kind
    read_fields raw = after (after (as_text raw.deleted_at) read_time) λ deleted_at.
        after (as_text raw.id) λ id. after (as_text raw.original_path) λ original_path.
          after (as_text raw.blob) λ blob. after (as_text raw.kind) λ kind_text.
            after (as_count raw.byte_length) λ byte_length.
              after (as_count raw.file_count) λ file_count. after (read_kind kind_text) λ kind.
                some (record {
                  id = id;
                  original_path = original_path;
                  kind = kind;
                  byte_length = byte_length;
                  file_count = file_count;
                  deleted_at = deleted_at;
                  blob = blob;
                })

    -- The two paths of an entry, validated.
    unfoldable pub with_paths : TrashItem → Option TrashItem
    unfolding names_blob validate_relative_path
    with_paths i =
        after (as_valid (validate_relative_path false (text i.original_path))) λ original_path.
          after (as_valid (validate_relative_path false (text i.blob))) λ blob.
            only_if (names_blob i.id blob)
              (some (record i { original_path = original_path; blob = blob }))

    -- `from_dict`; a raw value with other keys is `none`, and a bad id raises.
    unfoldable pub from_dict : Option RawItem → Result TrashFault (Option TrashItem)
    unfolding read_fields validate_trash_id with_paths
    from_dict none = ok none
    from_dict (some raw) = elim (read_fields raw) [
      | none ↦ ok none
      | some i ↦ validate_trash_id i.id >>= λ id. if id == i.id then ok (with_paths i) else ok none
    ]

    -- The entries of `_load_index`, with the ids seen so far.
    unfoldable pub read_entries :
        List Text → List (Option RawItem) → Result TrashFault (List TrashItem)
    unfolding from_dict contains
    read_entries seen [] = ok []
    read_entries seen (raw ∷ rest) = elim (from_dict raw) [
      | err f ↦ err f
      | ok none ↦ err unavailable
      | ok (some i) ↦
          if contains seen i.id
          then err unavailable
          else read_entries (i.id ∷ seen) rest >>= λ more. ok (i ∷ more)
    ]

    -- The entries that `_write_index` prints.
    unfoldable pub print_entries : List TrashItem → List (Option RawItem)
    unfolding to_dict
    print_entries [] = []
    print_entries (i ∷ rest) = some (to_dict i) ∷ print_entries rest

  module _ (D : Disk) where
    -- The loop of `_blob_path`: no part that is there is a symbolic link, or cannot be inspected.
    unfoldable pub lacks_links : List Text → List Text → D.State → Bool
    lacks_links current [] s = true
    lacks_links current (part ∷ rest) s =
        let next = current ++ (part ∷ []) in
        let below_it = lacks_links next rest s in
        elim (D.lstat (trash_at next) s) [
          | found m ↦ if is_link m then false else below_it
          | missing ↦ true
          | not_directory ↦ false
          | os_error ↦ false
        ]

    -- `_blob_path`
    unfoldable pub blob_path : TrashItem → D.State → Result TrashFault Place
    unfolding validate_trash_id validate_relative_path split_on lacks_links
    blob_path i s =
        validate_trash_id i.id >> as_path (validate_relative_path false (text i.blob)) >>= λ blob.
        raise_if (not (first_segment (split_on slash blob) == i.id)) invalid_operation
        >> raise_if (not (lacks_links [] (split_on slash blob) s)) invalid_operation
        >> ok (trash_at (split_on slash blob))
