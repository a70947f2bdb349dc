-- ===== src/Actions/Patches.antt =====
-- `apply_hunks` of server/actions/patches.py, on the code points of the decoded text. The UTF-8
-- codec is a pair of parameters.
use local_book.Base.{
  List, Option, Result, [], drop, err, if◌then◌else◌, leb, length, ltb, negsuc, none, not, ok, pos,
  raise_if, some, sub_ℕ, take, ℕ, ℤ, ◌++◌, ◌+ℤ◌, ◌+◌, ◌==◌, ◌>>=◌, ◌>>◌, ◌∷◌, nat_eq, string_eq,
  option_eq, list_eq,
}
use local_book.Actions.{PatchHunk, action_eq}

-- The `UnsupportedPatch` messages, and the errors of the codec.
pub data PatchFault : Type 0 where
  out_of_range context_mismatch output_too_large unicode_error : PatchFault

-- `sorted(hunks, key=start)`, which is stable.
unfoldable pub insert_hunk : PatchHunk → List PatchHunk → List PatchHunk
insert_hunk h [] = h ∷ []
insert_hunk h (x ∷ rest) = if leb h.start x.start then h ∷ x ∷ rest else x ∷ insert_hunk h rest

unfoldable pub sort_hunks : List PatchHunk → List PatchHunk
unfolding insert_hunk
sort_hunks [] = []
sort_hunks (h ∷ rest) = insert_hunk h (sort_hunks rest)

-- `text[:start] + new_text + text[start + len(old_text):]`
abbrev pub splice : ℕ → PatchHunk → List ℕ → List ℕ
splice start h text = take start text ++ (h.new_text ++ drop (start + length h.old_text) text)

-- The two tests of a hunk at its shifted start.
abbrev pub check_hunk : ℕ → PatchHunk → List ℕ → Result PatchFault (Unit {0})
check_hunk start h text =
    raise_if (ltb (length text) (start + length h.old_text)) out_of_range
    >> raise_if (not (take (length h.old_text) (drop start text) == h.old_text)) context_mismatch

-- The loop over the sorted hunks.
unfoldable pub apply_each : List PatchHunk → ℤ → List ℕ → Result PatchFault (List ℕ)
unfolding ◌+ℤ◌
apply_each [] offset text = ok text
apply_each (h ∷ rest) offset text = elim (pos h.start +ℤ offset) [
  | negsuc _ ↦ err out_of_range
  | pos start ↦
      check_hunk start h text
      >> apply_each rest (offset +ℤ sub_ℕ (length h.new_text) (length h.old_text))
          (splice start h text)
]

module _ (decode : List ℕ → Option (List ℕ)) (encode : List ℕ → Option (List ℕ)) where
  -- The encoding of the result, and the limit on its size.
  abbrev pub encoded : ℕ → List ℕ → Result PatchFault (List ℕ)
  encoded max_output_bytes text = elim (encode text) [
    | none ↦ err unicode_error
    | some bytes ↦ if ltb max_output_bytes (length bytes) then err output_too_large else ok bytes
  ]

  -- `apply_hunks`
  unfoldable pub apply_hunks : List ℕ → List PatchHunk → ℕ → Result PatchFault (List ℕ)
  unfolding apply_each sort_hunks
  apply_hunks bytes hunks max_output_bytes = elim (decode bytes) [
    | none ↦ err unicode_error
    | some text ↦ apply_each (sort_hunks hunks) (pos 0) text >>= encoded max_output_bytes
  ]
