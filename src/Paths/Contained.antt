-- ===== src/Paths/Contained.antt =====
-- What a file that `PathSafety` resolves is known to be.
use local_book.Base.{
  List, Option, [], false, some, true, ℕ, ◌++◌, ◌+◌, ◌∷◌, ◌≡◌, nat_eq, string_eq, option_eq,
}
use local_book.Paths.{Text}
use local_book.Paths.Resolve.{Mode, Seen, below, found, is_link, regular}

module _ (root : List Text) (lstat : ℕ → List Text → Seen)
    (real_path : ℕ → List Text → Option (List Text)) where
  -- From a call on, each component down a path was seen, and was no symbolic link.
  abbrev pub Unlinked : ℕ → List Text → List Text → Type 0
  Unlinked n current [] = Unit {0}
  Unlinked n current (part ∷ rest) =
      (m : Mode) × (lstat n (current ++ (part ∷ [])) ≡ found m)
      × (is_link m ≡ false)
      × Unlinked (n + 1) (current ++ (part ∷ [])) rest

  -- A file below the root, as the calls of one resolution saw it.
  abbrev pub IsContained : List Text → Type 0
  IsContained parts =
      ((n : ℕ) × (lstat n (root ++ parts) ≡ found regular))
      × ((n : ℕ) × Unlinked n root parts)
      × ((n : ℕ) × (real : List Text) × (real_path n (root ++ parts) ≡ some real)
          × (below root real ≡ true))
