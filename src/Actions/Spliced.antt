-- ===== src/Actions/Spliced.antt =====
-- Hunks that lie apart, and the text that replaces them all at once.
use local_book.Base.{
  List, Option, [], ap, append_assoc, arith, beq_refl, drop, false, length, length-append, ltb,
  neg_part, negsuc, ok, pos, pos_part, refl, some, sub_ℕ, suc, sym, take, ℕ, ℤ, ◌++◌, ◌+ℤ◌, ◌+◌,
  ◌∙◌, ◌∷◌, ◌≡◌, nat_eq, string_eq, option_eq, list_eq,
}
use local_book.Actions.{PatchHunk}
use local_book.Actions.Patches.{apply_each, apply_hunks, check_hunk, encoded, sort_hunks, splice}

-- From a position of the original on, hunks in order that do not overlap and that match it.
abbrev pub Fits : ℕ → List PatchHunk → List ℕ → Type 0
Fits c [] rest = Unit {0}
Fits c (h ∷ hunks) rest =
    (k : ℕ) × (later : List ℕ) × (before : List ℕ) × (h.start ≡ c + k)
    × (length before ≡ k)
    × (rest ≡ before ++ (h.old_text ++ later))
    × Fits (c + k + length h.old_text) hunks later

-- The text with every hunk replaced.
abbrev pub spliced : (c : ℕ) (hunks : List PatchHunk) (rest : List ℕ) → Fits c hunks rest → List ℕ
spliced c [] rest f = rest
spliced c (h ∷ hunks) rest (k, later, before, at, size, split, f) =
    before ++ (h.new_text ++ spliced (c + k + length h.old_text) hunks later f)

-- A shift of positions by an integer.
abbrev Shifts : ℤ → ℕ → ℕ → Type 0
Shifts o c d = c + pos_part o ≡ d + neg_part o

shifted : (o : ℤ) (c d : ℕ) → Shifts o c d → pos c +ℤ o ≡ pos d
unfolding ◌+ℤ◌
shifted (pos n) c d h = ground arith
shifted (negsuc n) c d h = ground arith

shift_on : (o : ℤ) (c d k : ℕ) → Shifts o c d → Shifts o (c + k) (d + k)
shift_on o c d k h = omega arith

shift_by : (o : ℤ) (c d n m : ℕ) → Shifts o c d → Shifts (o +ℤ sub_ℕ n m) (c + m) (d + n)
unfolding ◌+ℤ◌
shift_by (pos i) c d n m h = ground arith
shift_by (negsuc i) c d n m h = ground arith

take-append : (xs ys : List ℕ) → take (length xs) (xs ++ ys) ≡ xs
take-append [] ys = refl
take-append (x ∷ xs) ys = ap (λ t. x ∷ t) (take-append xs ys)

drop-append : (xs ys : List ℕ) → drop (length xs) (xs ++ ys) ≡ ys
drop-append [] ys = refl
drop-append (x ∷ xs) ys = drop-append xs ys

drop-more : (xs ys : List ℕ) (m : ℕ) → drop (length xs + m) (xs ++ ys) ≡ drop m ys
drop-more [] ys m = let z : 0 + m ≡ m = omega arith in rw z refl
drop-more (x ∷ xs) ys m =
    let z : suc (length xs) + m ≡ suc (length xs + m) = omega arith in rw z (drop-more xs ys m)

check_hunk-ok :
    (pre later : List ℕ) (h : PatchHunk)
    → check_hunk (length pre) h (pre ++ (h.old_text ++ later)) ≡ ok tt
check_hunk-ok pre later h =
    let within : ltb (length (pre ++ (h.old_text ++ later))) (length pre + length h.old_text)
        ≡ false =
      ground (arith, length-append pre (h.old_text ++ later), length-append h.old_text later) in
    rw
      (
        within,
        drop-append pre (h.old_text ++ later),
        take-append h.old_text later,
        beq_refl h.old_text,
      )
      refl

splice-middle :
    (pre later : List ℕ) (h : PatchHunk)
    → splice (length pre) h (pre ++ (h.old_text ++ later)) ≡ pre ++ (h.new_text ++ later)
splice-middle pre later h =
    rw
      (
        take-append pre (h.old_text ++ later),
        drop-more pre (h.old_text ++ later) (length h.old_text),
        drop-append h.old_text later,
      )
      refl

apply_each-step :
    (h : PatchHunk) (rest : List PatchHunk) (o : ℤ) (text : List ℕ) (n : ℕ)
    → pos h.start +ℤ o ≡ pos n
    → check_hunk n h text ≡ ok tt
    → apply_each (h ∷ rest) o text
      ≡ apply_each rest (o +ℤ sub_ℕ (length h.new_text) (length h.old_text)) (splice n h text)
unfolding apply_each
apply_each-step h rest o text n e c = rw (e, apply_each, c) refl

-- The loop, on a text whose first part is done.
apply_each-spliced :
    (hunks : List PatchHunk) (c : ℕ) (rest : List ℕ) (f : Fits c hunks rest) (o : ℤ) (done : List ℕ)
    → Shifts o c (length done)
    → apply_each hunks o (done ++ rest) ≡ ok (done ++ spliced c hunks rest f)
unfolding apply_each
apply_each-spliced [] c rest f o done s = refl
apply_each-spliced (h ∷ hunks) c rest (k, later, before, at, size, split, f) o done s =
    let pre = done ++ before in
    let text : done ++ rest ≡ pre ++ (h.old_text ++ later) =
      ap (λ r. done ++ r) split ∙ sym (append_assoc done before (h.old_text ++ later)) in
    let place : length done + k ≡ length pre = omega (arith, length-append done before, size) in
    let start : pos h.start +ℤ o ≡ pos (length pre) =
      rw (at, sym place) (shifted o (c + k) (length done + k) (shift_on o c (length done) k s)) in
    let moved =
      shift_by o (c + k) (length done + k) (length h.new_text) (length h.old_text)
        (shift_on o c (length done) k s) in
    let done' = pre ++ h.new_text in
    let size' : length done + k + length h.new_text ≡ length done' =
      omega (arith, length-append pre h.new_text, place) in
    let o' = o +ℤ sub_ℕ (length h.new_text) (length h.old_text) in
    rw text (
      apply_each-step h hunks o (pre ++ (h.old_text ++ later)) (length pre) start
        (check_hunk-ok pre later h)
      ∙ rw (splice-middle pre later h, sym (append_assoc pre h.new_text later))
          (apply_each-spliced hunks (c + k + length h.old_text) later f o' done' (rw size' at moved)
            ∙ rw
                (
                  append_assoc pre h.new_text (spliced (c + k + length h.old_text) hunks later f),
                  append_assoc done before
                      (h.new_text ++ spliced (c + k + length h.old_text) hunks later f),
                )
                refl))

module _ (decode : List ℕ → Option (List ℕ)) (encode : List ℕ → Option (List ℕ)) where
  -- Where the bytes decode to a text, and the hunks, sorted by their starts, match this text and
  -- do not overlap, `apply_hunks` replaces all of them in the original at once, although each
  -- shifts the hunks after it: it ends as the encoding of that text does, with its size limit.
  pub apply_hunks-spliced :
      (bytes : List ℕ) (hunks : List PatchHunk) (max_output_bytes : ℕ) (text : List ℕ)
      (f : Fits 0 (sort_hunks hunks) text)
      → decode bytes ≡ some text
      → apply_hunks decode encode bytes hunks max_output_bytes
        ≡ encoded decode encode max_output_bytes (spliced 0 (sort_hunks hunks) text f)
  unfolding apply_hunks
  apply_hunks-spliced bytes hunks max_output_bytes text f decoded =
      let all = apply_each-spliced (sort_hunks hunks) 0 text f (pos 0) [] refl in
      rw (decoded, all, apply_hunks) refl
