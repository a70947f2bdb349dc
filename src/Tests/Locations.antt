-- ===== src/Tests/Locations.antt =====
-- The path `a/b.md`, below a root with the one name `r`.
use local_book.Base.{
  List, Option, [], false, ok, some, ℕ, ◌↔◌, ◌∷◌, ◌≡◌, nat_eq, string_eq, option_eq, list_eq,
}
use local_book.Paths.{Text, text, validate_relative_path}
use local_book.Paths.Accepted.{IsRelative, validate_relative_path_iff}
use local_book.Paths.Resolve.{Seen, directory, found, regular}

abbrev note : Text
note = 97 ∷ 47 ∷ 98 ∷ 46 ∷ 109 ∷ 100 ∷ []

abbrev root : List Text
root = (114 ∷ []) ∷ []

-- The root and what lies next below it are directories, and deeper down are files.
abbrev seen : ℕ → List Text → Seen
seen n (r ∷ a ∷ b ∷ rest) = found regular
seen n path = found directory

abbrev real : ℕ → List Text → Option (List Text)
real n path = some path

validate_relative_path_iff_example :
    (validate_relative_path false (text note) ≡ ok note) ↔ ((note ≡ note) × IsRelative note)
validate_relative_path_iff_example = validate_relative_path_iff note note
