-- ===== src/Tests/Edits.antt =====
-- Two hunks on the text `abcd`, given out of order.
use local_book.Base.{
  List, Option, [], none, ok, refl, some, ℕ, ◌∷◌, ◌≡◌, nat_eq, string_eq, option_eq, list_eq,
}
use local_book.Actions.{PatchHunk}
use local_book.Actions.Patches.{apply_hunks, encoded, sort_hunks}
use local_book.Actions.Spliced.{Fits, apply_hunks-spliced, spliced}

abbrev ascii : List ℕ → Option (List ℕ)
ascii t = some t

abbrev second : PatchHunk
second = record { start = 3; old_text = 100 ∷ []; new_text = 101 ∷ []; old_sha256 = none }

abbrev first : PatchHunk
first = record { start = 0; old_text = 97 ∷ []; new_text = 120 ∷ 121 ∷ []; old_sha256 = none }

abbrev letters : List ℕ
letters = 97 ∷ 98 ∷ 99 ∷ 100 ∷ []

letters-Fits : Fits 0 (sort_hunks (second ∷ first ∷ [])) letters
unfolding sort_hunks
letters-Fits =
    (0, 98 ∷ 99 ∷ 100 ∷ [], [], refl, refl, refl, (2, [], 98 ∷ 99 ∷ [], refl, refl, refl, tt))

apply_hunks-spliced_example :
    apply_hunks ascii ascii letters (second ∷ first ∷ []) 10
    ≡ encoded ascii ascii 10 (spliced 0 (sort_hunks (second ∷ first ∷ [])) letters letters-Fits)
apply_hunks-spliced_example =
    apply_hunks-spliced ascii ascii letters (second ∷ first ∷ []) 10 letters letters-Fits refl

two_hunks :
    apply_hunks ascii ascii letters (second ∷ first ∷ []) 10 ≡ ok (120 ∷ 121 ∷ 98 ∷ 99 ∷ 101 ∷ [])
unfolding apply_hunks
two_hunks = refl
