-- ===== src/Paths/Accepted.antt =====
-- Which texts `validate_relative_path` accepts.
use local_book.Base.{
  All, Bool, Bool-cases, List, Option-cases, Result, Result-cases, [], any, arith, contains, err,
  false, inl, inr, list_eq, ok, raise_if, refl, some, subst, sym, true, ℕ, ◌==◌, ◌>>◌, ◌↔◌, ◌∷◌,
  ◌≡◌, ◌≢◌, ◌≤◌, ◌⊎◌, nat_eq, string_eq, option_eq,
}
use local_book.Paths.{
  Reason, Text, backslash, check_segments, check_text, check_value, colon, dot, drive_prefix,
  empty_segment, has_drive_prefix, head_second_is, invalid_request, is_dots, join_with,
  max_relative_path_bytes, max_segment_bytes, normalize_relative_path, path_traversal, question,
  second_is, segment_too_long, size_within, slash, split_on, starts, text, too_long, unsafe_segment,
  utf8_length, validate_relative_path,
}
use local_book.Paths.Segments.{
  Lacks, join-Lacks, join-split, split-Lacks, split-Lacks-too, split-join, split_on-filled,
}

-- A text that UTF-8 encodes in at most so many bytes.
abbrev pub FitsIn : ℕ → Text → Type 0
FitsIn limit t = (n : ℕ) × (utf8_length t ≡ some n) × (n ≤ limit)

-- A name of a file or directory below another: not empty, not a dot name, and free of separators.
abbrev pub IsName : Text → Type 0
IsName s =
    (s ≢ [])
    × (s ≢ dot ∷ [])
    × (s ≢ dot ∷ dot ∷ [])
    × Lacks 0 s
    × Lacks backslash s
    × Lacks slash s
    × FitsIn max_segment_bytes s

-- A path below a root: names joined by slashes, of bounded length, with no drive and no device.
abbrev pub IsRelative : Text → Type 0
IsRelative t =
    (segments : List Text) × (segments ≢ [])
    × All IsName segments
    × (t ≡ join_with slash segments)
    × (head_second_is colon segments ≡ false)
    × (starts question t ≡ false)
    × FitsIn max_relative_path_bytes t

-- The conditions that the two functions test.
abbrev Passes : Text → Type 0
Passes t =
    (t ≢ [])
    × Lacks 0 t
    × Lacks backslash t
    × (starts slash t ≡ false)
    × (has_drive_prefix t ≡ false)
    × (starts question t ≡ false)
    × FitsIn max_relative_path_bytes t
    × (any (λ s. s == []) (split_on slash t) ≡ false)
    × (check_segments (split_on slash t) ≡ ok tt)
    × (head_second_is colon (split_on slash t) ≡ false)

size_within-ok :
    (limit : ℕ) (r : Reason) (t : Text) → (size_within limit r t ≡ ok tt) ↔ FitsIn limit t
size_within-ok limit r t = elim (Option-cases (utf8_length t)) [
  | inl e ↦ rw e (λ h. cc, λ (n, h, _). cc h)
  | inr (n, e) ↦
      rw e (λ h. (n, refl, ground arith), λ (m, h, b). let same : n ≡ m = cc in ground arith)
]

raise_if-ok : {E : Type 0} (b : Bool) (e : E) → raise_if b e ≡ ok tt → b ≡ false
raise_if-ok true e h = cc
raise_if-ok false e h = refl

then-ok : {E : Type 0} {a b : Result E (Unit {0})} → (a >> b) ≡ ok tt → (a ≡ ok tt) × (b ≡ ok tt)
then-ok {a = ok u} h = (refl, h)
then-ok {a = err e} h = cc

test_apart : (s t : Text) → (s == t) ≡ false → s ≢ t
test_apart s t h e = cc (h, (list_eq.beq_iff s t).1 e)

apart_test : (s t : Text) → s ≢ t → (s == t) ≡ false
apart_test s t h = elim (Bool-cases (s == t)) [
  | inl e ↦ elim (h ((list_eq.beq_iff s t).0 e)) [ ]
  | inr e ↦ e
]

Passes-of_check : (t : Text) → check_value (text t) ≡ ok tt → check_text t ≡ ok tt → Passes t
Passes-of_check t h k =
    let (k1, device) = then-ok k in
    let (k2, drive) = then-ok k1 in
    let (k3, segments) = then-ok k2 in
    let (k4, filled) = then-ok k3 in
    let (k5, fits) = then-ok k4 in
    let (h1, question_free) = then-ok h in
    let (h2, drive_free) = then-ok h1 in
    let (h3, relative) = then-ok h2 in
    let (h4, no_backslash) = then-ok h3 in
    let (nonempty, no_nul) = then-ok h4 in
    (
      test_apart t [] (raise_if-ok (t == []) invalid_request nonempty),
      raise_if-ok (contains t 0) invalid_request no_nul,
      raise_if-ok (contains t backslash) path_traversal no_backslash,
      raise_if-ok (starts slash t) path_traversal relative,
      raise_if-ok (has_drive_prefix t) path_traversal drive_free,
      raise_if-ok (starts question t) path_traversal question_free,
      (size_within-ok max_relative_path_bytes too_long t).0 fits,
      raise_if-ok (any (λ s. s == []) (split_on slash t)) empty_segment filled,
      segments,
      raise_if-ok (head_second_is colon (split_on slash t)) drive_prefix drive,
    )

starts_apart : (t : Text) → Lacks backslash t → starts backslash t ≡ false
unfolding contains
starts_apart [] h = refl
starts_apart (x ∷ xs) h = ground arith

check_of_Passes : (t : Text) → Passes t → (check_value (text t) ≡ ok tt) × (check_text t ≡ ok tt)
check_of_Passes t
      (
        nonempty, no_nul, no_backslash, relative, drive_free, question_free, fits, filled, segments,
        drive,
      ) =
    (
      rw (apart_test t [] nonempty, no_nul, no_backslash, relative, drive_free, question_free) refl,
      rw
          (
            apart_test t [] nonempty,
            no_nul,
            no_backslash,
            relative,
            (size_within-ok max_relative_path_bytes too_long t).1 fits,
            filled,
            segments,
            drive,
            starts_apart t no_backslash,
            question_free,
          )
          refl,
    )

dots_test : (s : Text) → s ≢ dot ∷ [] → s ≢ dot ∷ dot ∷ [] → is_dots s ≡ false
dots_test s h k = rw (apart_test s (dot ∷ []) h, apart_test s (dot ∷ dot ∷ []) k) refl

not_dots : (s : Text) → is_dots s ≡ false → (s ≢ dot ∷ []) × (s ≢ dot ∷ dot ∷ [])
not_dots s h =
    (test_apart s (dot ∷ []) (ground arith), test_apart s (dot ∷ dot ∷ []) (ground arith))

names_of_checks :
    (segments : List Text)
    → any (λ s. s == []) segments ≡ false
    → check_segments segments ≡ ok tt
    → All (Lacks 0) segments
    → All (Lacks backslash) segments
    → All (Lacks slash) segments
    → All IsName segments
unfolding check_segments
names_of_checks [] filled h _ _ _ = tt
names_of_checks (s ∷ rest) filled h (nul, nuls) (back, backs) (sep, seps) =
    let (checked, more) = then-ok h in
    let (undotted, fits) = then-ok checked in
    let (single, double) = not_dots s (raise_if-ok (is_dots s) unsafe_segment undotted) in
    (
      (
        test_apart s [] (ground arith),
        single,
        double,
        nul,
        back,
        sep,
        (size_within-ok max_segment_bytes segment_too_long s).0 fits,
      ),
      names_of_checks rest (ground arith) more nuls backs seps,
    )

checks_of_names :
    (segments : List Text)
    → All IsName segments
    → (any (λ s. s == []) segments ≡ false) × (check_segments segments ≡ ok tt)
unfolding check_segments
checks_of_names [] h = (refl, refl)
checks_of_names (s ∷ rest) ((nonempty, single, double, _, _, _, fits), more) =
    let (filled, checked) = checks_of_names rest more in
    (
      rw (apart_test s [] nonempty) filled,
      rw (dots_test s single double, (size_within-ok max_segment_bytes segment_too_long s).1 fits)
          checked,
    )

IsRelative-of_Passes : (t : Text) → Passes t → IsRelative t
IsRelative-of_Passes t
      (
        nonempty, no_nul, no_backslash, relative, drive_free, question_free, fits, filled, segments,
        drive,
      ) =
    (
      split_on slash t,
      split_on-filled slash t,
      names_of_checks (split_on slash t) filled segments (split-Lacks-too slash 0 t no_nul)
          (split-Lacks-too slash backslash t no_backslash) (split-Lacks slash t),
      sym (join-split slash t),
      drive,
      question_free,
      fits,
    )

first_char :
    (s : Text) (rest : List Text)
    → IsName s
    → (join_with slash (s ∷ rest) ≢ []) × (starts slash (join_with slash (s ∷ rest)) ≡ false)
unfolding join_with contains
first_char [] rest (nonempty, _, _, _, _, _, _) = elim (nonempty refl) [ ]
first_char (x ∷ xs) [] (_, _, _, _, _, lacks, _) = (λ e. cc e, ground arith)
first_char (x ∷ xs) (t ∷ rest) (_, _, _, _, _, lacks, _) = (λ e. cc e, ground arith)

no_drive :
    (s : Text) (rest : List Text)
    → IsName s
    → second_is colon s ≡ false
    → has_drive_prefix (join_with slash (s ∷ rest)) ≡ false
unfolding join_with
no_drive [] rest (nonempty, _, _, _, _, _, _) h = elim (nonempty refl) [ ]
no_drive (x ∷ []) [] _ h = refl
no_drive (x ∷ []) (t ∷ rest) _ h = ground arith
no_drive (x ∷ y ∷ ys) [] _ h = ground arith
no_drive (x ∷ y ∷ ys) (t ∷ rest) _ h = ground arith

pub lack_each :
    (segments : List Text)
    → All IsName segments
    → All (Lacks 0) segments × All (Lacks backslash) segments × All (Lacks slash) segments
lack_each [] h = (tt, tt, tt)
lack_each (s ∷ rest) ((_, _, _, nul, back, sep, _), more) =
    let (nuls, backs, seps) = lack_each rest more in ((nul, nuls), (back, backs), (sep, seps))

Passes-of_names :
    (segments : List Text)
    → segments ≢ []
    → All IsName segments
    → head_second_is colon segments ≡ false
    → starts question (join_with slash segments) ≡ false
    → FitsIn max_relative_path_bytes (join_with slash segments)
    → Passes (join_with slash segments)
Passes-of_names [] some_segment _ _ _ _ = elim (some_segment refl) [ ]
Passes-of_names (s ∷ rest) some_segment (name, names) drive question_free fits =
    let segments = s ∷ rest in
    let (nuls, backs, seps) = lack_each segments (name, names) in
    let (nonempty, relative) = first_char s rest name in
    let (filled, checked) = checks_of_names segments (name, names) in
    let again : split_on slash (join_with slash segments) ≡ segments =
      split-join slash segments some_segment seps in
    (
      nonempty,
      join-Lacks slash 0 segments refl nuls,
      join-Lacks slash backslash segments refl backs,
      relative,
      no_drive s rest name drive,
      question_free,
      fits,
      rw again filled,
      rw again checked,
      rw again drive,
    )

Passes-of_IsRelative : (t : Text) → IsRelative t → Passes t
Passes-of_IsRelative t (segments, some_segment, names, e, drive, question_free, fits) =
    subst Passes (sym e)
      (Passes-of_names segments some_segment names drive (rw e at question_free) (rw e at fits))

-- The checks of a text are passed, or one of them fails.
checked :
    (t : Text)
    → ((check_value (text t) ≡ ok tt) × (check_text t ≡ ok tt))
      ⊎ ((p : Text) → validate_relative_path false (text t) ≢ ok p)
unfolding validate_relative_path normalize_relative_path
checked t = elim (Result-cases (check_value (text t))) [
  | inr (f, e) ↦ inr (λ p h. cc (rw e at h))
  | inl (u, e) ↦ elim (Result-cases (check_text t)) [
    | inr (f, e') ↦ inr (λ p h. cc (rw (e, e') at h))
    | inl (u', e') ↦ inl (e, e')
  ]
]

validated : (t : Text) → Passes t → validate_relative_path false (text t) ≡ ok t
unfolding validate_relative_path normalize_relative_path
validated t h = let (e, e') = check_of_Passes t h in rw (e, e', join-split slash t) refl

-- For a text and a result, `validate_relative_path` without `allow_root` returns the result
-- exactly when it is the text itself and the text is a relative path: a sequence of at least one
-- name, joined by slashes, where a name is not empty, `.` or `..`, has no NUL, backslash or slash
-- and at most 255 bytes, the first is no drive, the text does not start with a question mark, and
-- it has at most 4096 bytes.
pub validate_relative_path_iff :
    (t p : Text) → (validate_relative_path false (text t) ≡ ok p) ↔ ((p ≡ t) × IsRelative t)
validate_relative_path_iff t p = (
  λ h. elim (checked t) [
    | inl (e, e') ↦
        let passed = Passes-of_check t e e' in
        let same = validated t passed in (cc (h, same), IsRelative-of_Passes t passed)
    | inr refused ↦ elim (refused p h) [ ]
  ],
  λ (e, h). rw e (validated t (Passes-of_IsRelative t h)),
)
