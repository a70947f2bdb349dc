-- ===== src/Paths.antt =====
-- The lexical checks of a path: `normalize_relative_path` of server/vault/schemas.py and
-- `validate_relative_path` of server/vault/path_safety.py. A text is the list of its code points.
pub mod Segments
pub mod Accepted
pub mod Resolve
pub mod Contained
use local_book.Base.{
  Bool, List, Option, Result, [], any, contains, err, false, if◌then◌else◌, leb, ltb, none, ok,
  raise_if, some, ℕ, ◌&&◌, ◌++◌, ◌+◌, ◌==◌, ◌>>◌, ◌||◌, ◌∷◌, nat_eq, string_eq, option_eq, list_eq,
}

abbrev pub Text : Type 0
Text = List ℕ

abbrev pub slash : ℕ
slash = 47

abbrev pub backslash : ℕ
backslash = 92

abbrev pub dot : ℕ
dot = 46

abbrev pub colon : ℕ
colon = 58

abbrev pub question : ℕ
question = 63

abbrev pub max_relative_path_bytes : ℕ
max_relative_path_bytes = 4096

abbrev pub max_segment_bytes : ℕ
max_segment_bytes = 255

-- A value of a request: a text, or something else.
pub data Value : Type 0 where
  text : Text → Value
  other : Value

-- A code point in front of the first segment.
abbrev pub prepend : ℕ → List Text → List Text
prepend x [] = (x ∷ []) ∷ []
prepend x (s ∷ ss) = (x ∷ s) ∷ ss

-- `text.split(c)`
unfoldable pub split_on : ℕ → Text → List Text
split_on c [] = [] ∷ []
split_on c (x ∷ xs) = let rest = split_on c xs in if x == c then [] ∷ rest else prepend x rest

-- `c.join(segments)`
unfoldable pub join_with : ℕ → List Text → Text
join_with c [] = []
join_with c (s ∷ []) = s
join_with c (s ∷ t ∷ rest) = s ++ (c ∷ join_with c (t ∷ rest))

-- The bytes of a code point in UTF-8; a surrogate has none.
unfoldable pub utf8_size : ℕ → Option ℕ
utf8_size c =
    if ltb c 128
    then some 1
    else if ltb c 2048
    then some 2
    else if leb 55296 c && leb c 57343
    then none
    else if ltb c 65536
    then some 3
    else some 4

-- `len(text.encode("utf-8"))`; none where the encoding raises.
unfoldable pub utf8_length : Text → Option ℕ
unfolding utf8_size
utf8_length [] = some 0
utf8_length (c ∷ rest) = elim (utf8_size c) [
  | none ↦ none
  | some n ↦ elim (utf8_length rest) [ none ↦ none | some m ↦ some (n + m) ]
]

-- Why `normalize_relative_path` raises a `ValueError`.
pub data Reason : Type 0 where
  not_a_string is_empty has_nul has_backslash not_root_relative not_encodable : Reason
  too_long empty_segment unsafe_segment segment_too_long drive_prefix device_prefix : Reason

abbrev pub starts : ℕ → Text → Bool
starts c [] = false
starts c (x ∷ xs) = x == c

abbrev pub second_is : ℕ → Text → Bool
second_is c (x ∷ y ∷ rest) = y == c
second_is c _ = false

abbrev pub head_second_is : ℕ → List Text → Bool
head_second_is c [] = false
head_second_is c (s ∷ ss) = second_is c s

abbrev pub is_dots : Text → Bool
is_dots s = s == (dot ∷ []) || s == (dot ∷ dot ∷ [])

abbrev pub size_within : ℕ → Reason → Text → Result Reason (Unit {0})
size_within limit reason t = elim (utf8_length t) [
  | none ↦ err not_encodable
  | some n ↦ raise_if (ltb limit n) reason
]

abbrev pub check_segment : Text → Result Reason (Unit {0})
check_segment s =
    raise_if (is_dots s) unsafe_segment >> size_within max_segment_bytes segment_too_long s

unfoldable pub check_segments : List Text → Result Reason (Unit {0})
unfolding utf8_length
check_segments [] = ok tt
check_segments (s ∷ rest) = check_segment s >> check_segments rest

abbrev pub check_text : Text → Result Reason (Unit {0})
check_text t =
    raise_if (t == []) is_empty
    >> raise_if (contains t 0) has_nul
    >> raise_if (contains t backslash) has_backslash
    >> raise_if (starts slash t) not_root_relative
    >> size_within max_relative_path_bytes too_long t
    >> raise_if (any (λ s. s == []) (split_on slash t)) empty_segment
    >> check_segments (split_on slash t)
    >> raise_if (head_second_is colon (split_on slash t)) drive_prefix
    >> raise_if (starts backslash t || starts question t) device_prefix

-- `normalize_relative_path`
unfoldable pub normalize_relative_path : Value → Result Reason Text
unfolding split_on join_with utf8_length contains check_segments
normalize_relative_path other = err not_a_string
normalize_relative_path (text t) = check_text t >> ok (join_with slash (split_on slash t))

-- `InvalidRequest` and `PathTraversalError`
pub data PathFault : Type 0 where
  invalid_request path_traversal : PathFault

-- What the `except ValueError` of `validate_relative_path` makes of a reason, by its message.
abbrev pub fault_of : Reason → PathFault
fault_of unsafe_segment = path_traversal
fault_of not_root_relative = path_traversal
fault_of drive_prefix = path_traversal
fault_of device_prefix = path_traversal
fault_of _ = invalid_request

-- `_DRIVE_PREFIX_RE`: an ASCII letter and a colon.
abbrev pub is_letter : ℕ → Bool
is_letter c = (leb 65 c && leb c 90) || (leb 97 c && leb c 122)

abbrev pub has_drive_prefix : Text → Bool
has_drive_prefix (x ∷ y ∷ rest) = is_letter x && y == colon
has_drive_prefix _ = false

abbrev normalized : Result Reason Text → Result PathFault Text
normalized (ok p) = ok p
normalized (err r) = err (fault_of r)

abbrev is_root : Value → Bool
is_root other = false
is_root (text t) = t == [] || t == (dot ∷ [])

abbrev pub check_value : Value → Result PathFault (Unit {0})
check_value other = err invalid_request
check_value (text t) =
    raise_if (t == []) invalid_request
    >> raise_if (contains t 0) invalid_request
    >> raise_if (contains t backslash) path_traversal
    >> raise_if (starts slash t) path_traversal
    >> raise_if (has_drive_prefix t) path_traversal
    >> raise_if (starts question t) path_traversal

-- `validate_relative_path`
unfoldable pub validate_relative_path : (allow_root : Bool) → Value → Result PathFault Text
unfolding contains normalize_relative_path
validate_relative_path allow_root value =
    if allow_root && is_root value
    then ok (dot ∷ [])
    else check_value value >> normalized (normalize_relative_path value)

-- `_relative_parts`
unfoldable pub relative_parts : Text → List Text
unfolding split_on
relative_parts p = if p == (dot ∷ []) then [] else split_on slash p
