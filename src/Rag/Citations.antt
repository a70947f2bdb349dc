-- ===== src/Rag/Citations.antt =====
-- The citations of an answer: server/rag/citations.py. What is white space, what is a digit and how
-- a number is printed are Python's, and parameters; `re` runs as the patterns of the source say.
use local_book.Base.{
  Bool, List, Option, [], contains, false, if◌then◌else◌, length, none, not, some, suc, true, zero,
  ℕ, ◌&&◌, ◌*◌, ◌++◌, ◌+◌, ◌==◌, ◌||◌, ◌∷◌, nat_eq, string_eq, option_eq, list_eq,
}
use local_book.Paths.{Text}
use local_book.Rag.{EvidencePack, SourceEvidence, skip_spaces, strip}

-- `NOT_ENOUGH_EVIDENCE`
abbrev pub not_enough_evidence : Text
not_enough_evidence =
    26681 ∷ 25454 ∷ 24403 ∷ 21069 ∷ 30693 ∷ 35782 ∷ 24211 ∷ 20869 ∷ 23481 ∷ 65292 ∷ 27809 ∷ 26377
    ∷ 25214 ∷ 21040 ∷ 36275 ∷ 22815 ∷ 35777 ∷ 25454 ∷ 22238 ∷ 31572 ∷ 36825 ∷ 20010 ∷ 38382 ∷ 39064
    ∷ 12290 ∷ []

-- `CitationReport`
pub record CitationReport : Type 0 where
  pub valid_ids : List ℕ
  pub invalid_ids : List ℕ
  pub resolved_ids : List ℕ

-- A part of an answer: a character outside of every marker, or a marker with its number.
pub data Piece : Type 0 where
  plain : ℕ → Piece
  cite : ℕ → Piece

-- `if x not in xs: xs.append(x)`
abbrev pub add_new : List ℕ → ℕ → List ℕ
add_new xs x = if contains xs x then xs else xs ++ (x ∷ [])

unfoldable pub add_all : List ℕ → List ℕ → List ℕ
unfolding contains
add_all found [] = found
add_all found (c ∷ cs) = add_all (add_new found c) cs

unfoldable pub cited : List Piece → List ℕ
cited [] = []
cited (plain c ∷ rest) = cited rest
cited (cite n ∷ rest) = n ∷ cited rest

-- `allowed[source_id]`: of two sources with one id, the later.
unfoldable pub lookup_source : List SourceEvidence → ℕ → Option SourceEvidence
lookup_source [] n = none
lookup_source (s ∷ rest) n =
    let later = lookup_source rest n in
    elim later [ some t ↦ some t | none ↦ if s.source_id == n then some s else none ]

abbrev pub is_allowed : List SourceEvidence → ℕ → Bool
is_allowed sources n = elim (lookup_source sources n) [ none ↦ false | some _ ↦ true ]

-- The first loop of `validate_citations`.
unfoldable pub report_ids : List SourceEvidence → List ℕ → List ℕ × List ℕ → List ℕ × List ℕ
unfolding lookup_source contains
report_ids sources [] (valid, invalid) = (valid, invalid)
report_ids sources (n ∷ rest) (valid, invalid) =
    report_ids sources rest
      (if is_allowed sources n then (add_new valid n, invalid) else (valid, add_new invalid n))

abbrev pub keep : List SourceEvidence → List ℕ → ℕ → List ℕ
keep sources resolved n = if is_allowed sources n then add_new resolved n else resolved

-- The ids that `_replace` resolves, over the markers in their order.
unfoldable pub resolve_ids : List SourceEvidence → List ℕ → List ℕ → List ℕ
unfolding lookup_source contains
resolve_ids sources resolved [] = resolved
resolve_ids sources resolved (n ∷ rest) = resolve_ids sources (keep sources resolved n) rest

-- The list of used sources.
unfoldable pub used_sources : List SourceEvidence → List ℕ → List SourceEvidence
unfolding lookup_source
used_sources sources [] = []
used_sources sources (n ∷ rest) =
    let more = used_sources sources rest in
    elim (lookup_source sources n) [ none ↦ more | some s ↦ s ∷ more ]

-- A space or a tab.
abbrev pub is_blank : ℕ → Bool
is_blank c = c == 32 || c == 9

abbrev pub punctuation : List ℕ
punctuation =
    12290 ∷ 65292 ∷ 12289 ∷ 65307 ∷ 65306 ∷ 65281 ∷ 65311 ∷ 46 ∷ 44 ∷ 59 ∷ 58 ∷ 33 ∷ 63 ∷ []

abbrev pub flush : Text → Text
flush [] = []
flush (b ∷ []) = b ∷ []
flush (b ∷ c ∷ rest) = 32 ∷ []

-- `re.sub(r"[ \t]{2,}", " ", …)`, after a run of blanks.
unfoldable pub squeeze : Text → Text → Text
squeeze run [] = flush run
squeeze run (c ∷ cs) = elim (is_blank c) [
  | true ↦ squeeze (run ++ (c ∷ [])) cs
  | false ↦ flush run ++ (c ∷ squeeze [] cs)
]

-- The substitution that drops the blanks in front of a punctuation mark.
unfoldable pub tighten : Text → Text → Text
unfolding contains
tighten run [] = run
tighten run (c ∷ cs) = elim (is_blank c) [
  | true ↦ tighten (run ++ (c ∷ [])) cs
  | false ↦ (if contains punctuation c then [] else run) ++ (c ∷ tighten [] cs)
]

abbrev pub is_empty_list : List ℕ → Bool
is_empty_list [] = true
is_empty_list _ = false

abbrev pub tidy : List ℕ → Text → Text
tidy invalid t = if is_empty_list invalid then t else tighten [] (squeeze [] t)

module _ (is_space : ℕ → Bool) (digit_value : ℕ → Option ℕ) (print : ℕ → Text) where
  -- At most so many further digits of a number.
  unfoldable pub digits_after : ℕ → ℕ → Text → ℕ × Text
  digits_after zero n t = (n, t)
  digits_after (suc k) n [] = (n, [])
  digits_after (suc k) n (c ∷ cs) = elim (digit_value c) [
    | none ↦ (n, c ∷ cs)
    | some d ↦ digits_after k (n * 10 + d) cs
  ]

  abbrev pub close_at : ℕ → Text → Option (ℕ × Text)
  close_at n [] = none
  close_at n (c ∷ cs) = if c == 93 then some (n, cs) else none

  abbrev pub number_at : Text → Option (ℕ × Text)
  number_at [] = none
  number_at (c ∷ cs) = elim (digit_value c) [
    | none ↦ none
    | some d ↦ let (n, rest) = digits_after 2 d cs in close_at n (skip_spaces is_space rest)
  ]

  abbrev pub letter_at : Text → Option (ℕ × Text)
  letter_at [] = none
  letter_at (c ∷ cs) = if c == 83 || c == 115 then number_at (skip_spaces is_space cs) else none

  -- A match of `_UNSUPPORTED_MARKERS` at the front: its number, and what follows it.
  unfoldable pub marker_at : Text → Option (ℕ × Text)
  unfolding skip_spaces digits_after
  marker_at [] = none
  marker_at (c ∷ cs) = if c == 91 then letter_at (skip_spaces is_space cs) else none

  -- The matches from left to right, and what stands between them.
  unfoldable pub pieces : ℕ → Text → List Piece
  unfolding marker_at
  pieces fuel [] = []
  pieces zero (c ∷ cs) = []
  pieces (suc fuel) (c ∷ cs) = elim (marker_at (c ∷ cs)) [
    | none ↦ plain c ∷ pieces fuel cs
    | some (n, rest) ↦ cite n ∷ pieces fuel rest
  ]

  abbrev pub markers : Text → List ℕ
  markers t = cited (pieces (length t) t)

  -- `extract_citations`
  unfoldable pub extract_citations : Text → List ℕ
  unfolding pieces add_all cited
  extract_citations t = add_all [] (markers t)

  abbrev pub label : ℕ → Text
  label n = 91 ∷ 83 ∷ print n ++ (93 ∷ [])

  -- What `sub` writes.
  unfoldable pub substitute : List SourceEvidence → List Piece → Text
  unfolding lookup_source
  substitute sources [] = []
  substitute sources (plain c ∷ rest) = c ∷ substitute sources rest
  substitute sources (cite n ∷ rest) =
      (if is_allowed sources n then label n else []) ++ substitute sources rest

  -- `validate_citations`
  unfoldable pub validate_citations :
      Text → EvidencePack → Text × CitationReport × List SourceEvidence
  unfolding extract_citations report_ids resolve_ids substitute used_sources skip_spaces squeeze
      tighten pieces cited
  validate_citations answer pack =
      let (valid, invalid) = report_ids pack.sources (extract_citations answer) ([], []) in
      let resolved = resolve_ids pack.sources [] (markers answer) in
      let replaced = substitute pack.sources (pieces (length answer) answer) in
      (
        strip is_space (tidy invalid replaced),
        record { valid_ids = valid; invalid_ids = invalid; resolved_ids = resolved },
        used_sources pack.sources resolved,
      )

  abbrev pub no_sources : List SourceEvidence → Bool
  no_sources [] = true
  no_sources _ = false

  -- `ensure_grounded_answer`: the answer, the report, the sources, and whether it is grounded.
  unfoldable pub ensure_grounded_answer :
      Bool → Text → EvidencePack → Text × CitationReport × List SourceEvidence × Bool
  unfolding validate_citations
  ensure_grounded_answer require_citation answer pack =
      let (sanitized, report, used) = validate_citations answer pack in
      let grounded = not (no_sources used) in
      if no_sources pack.sources
      then (not_enough_evidence, report, [], false)
      else if require_citation && not grounded
      then (not_enough_evidence, report, [], false)
      else (sanitized, report, used, grounded)
