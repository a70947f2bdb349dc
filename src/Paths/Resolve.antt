-- ===== src/Paths/Resolve.antt =====
-- `PathSafety` of server/vault/path_safety.py. The file system may change between two calls, so
-- each call is told apart by its number, and what `lstat` and `resolve` answer is a parameter.
use local_book.Base.{
  Bool, List, Option, Result, [], err, false, if◌then◌else◌, none, not, ok, raise_if, some, true, ℕ,
  ◌&&◌, ◌++◌, ◌+◌, ◌==◌, ◌>>=◌, ◌>>◌, ◌||◌, ◌∷◌, nat_eq, string_eq, option_eq, list_eq,
}
use local_book.Paths.{PathFault, Text, Value, relative_parts, validate_relative_path}

-- What a file's mode says of its type.
pub data Mode : Type 0 where
  directory regular symbolic_link special : Mode

-- `FileNotFoundError`, `NotADirectoryError` and the other `OSError`s, or a mode.
pub data Seen : Type 0 where
  found : Mode → Seen
  missing not_directory os_error : Seen

-- The faults of server/vault/errors.py that a resolution raises.
pub data ResolveFault : Type 0 where
  bad_path : PathFault → ResolveFault
  vault_unavailable path_not_found not_a_directory not_a_file symlink_escape : ResolveFault
  outside : ResolveFault

abbrev pub is_link : Mode → Bool
is_link symbolic_link = true
is_link _ = false

abbrev pub is_directory : Mode → Bool
is_directory directory = true
is_directory _ = false

abbrev pub is_regular : Mode → Bool
is_regular regular = true
is_regular _ = false

-- `real.relative_to(root)` succeeds.
unfoldable pub below : List Text → List Text → Bool
below [] path = true
below (r ∷ root) [] = false
below (r ∷ root) (p ∷ path) = r == p && below root path

abbrev pub as_fault : Result PathFault Text → Result ResolveFault Text
as_fault (ok p) = ok p
as_fault (err f) = err (bad_path f)

module _ (root : List Text) (lstat : ℕ → List Text → Seen)
    (real_path : ℕ → List Text → Option (List Text)) where
  -- `_check_existing_chain`, from a directory down; it returns the number of the next call.
  unfoldable pub check_existing_chain :
      (allow_missing_leaf : Bool) → ℕ → (current : List Text) → List Text → Result ResolveFault ℕ
  check_existing_chain allow_missing_leaf n current [] = ok n
  check_existing_chain allow_missing_leaf n current (part ∷ rest) =
      let next = current ++ (part ∷ []) in
      let below_it = check_existing_chain allow_missing_leaf (n + 1) next rest in
      elim (lstat n next) [
        | found m ↦ if is_link m then err symlink_escape else below_it
        | missing ↦ if allow_missing_leaf then ok (n + 1) else err path_not_found
        | not_directory ↦ err not_a_directory
        | os_error ↦ err vault_unavailable
      ]

  -- `assert_root_available`
  unfoldable pub assert_root_available : ℕ → Result ResolveFault (Unit {0})
  assert_root_available n = elim (lstat n root) [
    | found m ↦ raise_if (is_link m || not (is_directory m)) vault_unavailable
    | missing ↦ err vault_unavailable
    | not_directory ↦ err vault_unavailable
    | os_error ↦ err vault_unavailable
  ]

  -- The check of the candidate's own mode.
  unfoldable pub check_leaf :
      (allow_missing require_directory require_file : Bool) → Seen → Result ResolveFault (Unit {0})
  check_leaf allow_missing require_directory require_file (found m) =
      raise_if (is_link m) symlink_escape
      >> raise_if (require_directory && not (is_directory m)) not_a_directory
      >> raise_if (require_file && not (is_regular m)) not_a_file
  check_leaf allow_missing require_directory require_file missing =
      raise_if (not allow_missing) path_not_found
  check_leaf allow_missing require_directory require_file not_directory = err not_a_directory
  check_leaf allow_missing require_directory require_file os_error = err vault_unavailable

  -- `candidate.resolve(strict=False)` and `_check_containment`
  unfoldable pub check_containment : ℕ → List Text → Result ResolveFault (Unit {0})
  unfolding below
  check_containment n candidate = elim (real_path n candidate) [
    | none ↦ err vault_unavailable
    | some real ↦ raise_if (not (below root real)) outside
  ]

  -- The end of `resolve`, after the second look at the chain.
  abbrev pub conclude : List Text → ℕ → Result ResolveFault (List Text)
  conclude parts n = check_containment n (root ++ parts) >> ok (root ++ parts)

  -- `resolve` from the look at the candidate itself on.
  abbrev pub look_at :
      (allow_missing require_directory require_file : Bool)
      → List Text
      → ℕ
      → Result ResolveFault (List Text)
  look_at allow_missing require_directory require_file parts n =
      check_leaf allow_missing require_directory require_file (lstat n (root ++ parts))
      >> check_containment (n + 1) (root ++ parts)
      >> check_existing_chain allow_missing (n + 2) root parts
      >>= conclude parts

  -- `resolve` for the parts of a valid path.
  unfoldable pub resolve_parts :
      (allow_missing require_directory require_file : Bool)
      → ℕ
      → List Text
      → Result ResolveFault (List Text)
  unfolding check_existing_chain check_leaf check_containment
  resolve_parts allow_missing require_directory require_file n parts =
      check_existing_chain allow_missing n root parts
      >>= look_at allow_missing require_directory require_file parts

  abbrev pub resolve_path :
      (allow_missing require_directory require_file : Bool)
      → ℕ
      → Text
      → Result ResolveFault (List Text)
  resolve_path allow_missing require_directory require_file n p =
      resolve_parts allow_missing require_directory require_file n (relative_parts p)

  -- `PathSafety.resolve`
  unfoldable pub resolve :
      (allow_root allow_missing require_directory require_file : Bool)
      → ℕ
      → Value
      → Result ResolveFault (List Text)
  unfolding assert_root_available validate_relative_path relative_parts resolve_parts
  resolve allow_root allow_missing require_directory require_file n value =
      assert_root_available n >> as_fault (validate_relative_path allow_root value) >>= λ p.
      resolve_parts allow_missing require_directory require_file (n + 1) (relative_parts p)

  -- `resolve_existing_file`
  unfoldable pub resolve_existing_file : ℕ → Value → Result ResolveFault (List Text)
  unfolding resolve
  resolve_existing_file = resolve false false false true
