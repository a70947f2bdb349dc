-- ===== src/Tests/Answers.antt =====
-- An answer that cites a source of its pack and one that there is none of.
use local_book.Base.{
  Bool, List, Option, [], arith, contains, false, if◌then◌else◌, length, none, not, refl, some,
  true, ℕ, ◌&&◌, ◌+◌, ◌-◌, ◌==◌, ◌||◌, ◌↔◌, ◌∷◌, ◌≡◌, ◌≢◌, ◌≤◌, ◌⊎◌, nat_eq, string_eq, option_eq,
  list_eq,
}
use local_book.Paths.{Text}
use local_book.Rag.{EvidencePack, RetrievalResult}
use local_book.Rag.Markers.{Cut, IsApart, pieces-Cut}
use local_book.Rag.Citations.{
  ensure_grounded_answer, is_allowed, markers, not_enough_evidence, pieces, validate_citations,
}
use local_book.Rag.Reported.{
  Cites, Lookups, ensure_grounded_answer-grounded, validate_citations-reported,
}
use local_book.Rag.Context.{ContextBudget, EvidenceCandidate, within}
use local_book.Rag.Builder.{accumulate, build, number_sources, select}
use local_book.Rag.Packed.{IsSole, build-bounded, path_total, sources_total}
use local_book.Rag.Picked.{IsPart, build-picked}
use local_book.Rag.Merged.{accumulate-once, id_count}

abbrev space : ℕ → Bool
space c = c == 32 || c == 10

abbrev digit : ℕ → Option ℕ
digit c = if within 48 57 c then some (c - 48) else none

abbrev printed : ℕ → Text
printed n = (48 + n) ∷ []

-- `ok [S1][ s9 ].`
abbrev answer : Text
answer = 111 ∷ 107 ∷ 32 ∷ 91 ∷ 83 ∷ 49 ∷ 93 ∷ 91 ∷ 32 ∷ 115 ∷ 57 ∷ 32 ∷ 93 ∷ 46 ∷ []

abbrev hit : ℕ → ℕ → RetrievalResult
hit n line = record {
  chunk_id = n ∷ [];
  path = 97 ∷ [];
  heading = none;
  heading_path = none;
  content = 97 ∷ n ∷ [];
  content_hash = n ∷ [];
  start_line = line;
  end_line = line + 2;
}

abbrev hits : List RetrievalResult
hits = hit 97 1 ∷ hit 98 4 ∷ hit 97 9 ∷ hit 99 40 ∷ []

abbrev budget : Bool → ContextBudget
budget joined = record {
  max_chunks = 6;
  max_tokens = 40;
  max_tokens_per_document = 18;
  merge_adjacent = joined;
  merge_gap_lines = 5;
}

abbrev pack : EvidencePack
pack = build space (budget true) answer hits none none none

-- Two blocks: the first two chunks as one, and the far one.
two_blocks : length pack.sources ≡ 2
unfolding build accumulate select number_sources
two_blocks = refl

sanitized :
    (validate_citations space digit printed answer pack).0
    ≡ 111 ∷ 107 ∷ 32 ∷ 91 ∷ 83 ∷ 49 ∷ 93 ∷ 46 ∷ []
unfolding validate_citations build accumulate select number_sources
sanitized = refl

-- A marker inside of another comes back when the inner one is taken out: `[S[S9]8]`.
nested_marker :
    (validate_citations space digit printed (91 ∷ 83 ∷ 91 ∷ 83 ∷ 57 ∷ 93 ∷ 56 ∷ 93 ∷ []) pack).0
    ≡ 91 ∷ 83 ∷ 56 ∷ 93 ∷ []
unfolding validate_citations build accumulate select number_sources
nested_marker = refl

validate_citations-reported_example :
    let (_, report, used) = validate_citations space digit printed answer pack in
    let ids = markers space digit printed answer in
    (report.resolved_ids ≡ report.valid_ids)
    × ((n : ℕ) → contains report.valid_ids n ≡ (contains ids n && is_allowed pack.sources n))
    × ((n : ℕ)
        → contains report.invalid_ids n ≡ (contains ids n && not (is_allowed pack.sources n)))
    × Lookups space digit printed pack.sources report.resolved_ids used
validate_citations-reported_example = validate_citations-reported space digit printed answer pack

ensure_grounded_answer-grounded_example :
    let (shown, _, used, grounded) = ensure_grounded_answer space digit printed true answer pack in
    ((grounded ≡ true) ↔ Cites space digit printed answer pack)
    × (grounded ≡ false → true ≡ true → (shown ≡ not_enough_evidence) × (used ≡ []))
ensure_grounded_answer-grounded_example =
    ensure_grounded_answer-grounded space digit printed true answer pack

build-bounded_example :
    (length pack.sources ≤ 6)
    × (pack.context_tokens ≡ sources_total space pack.sources)
    × ((pack.context_tokens ≤ 40) ⊎ (length pack.sources ≤ 1))
    × ((p : Text) → (path_total space p pack.sources ≤ 18) ⊎ IsSole space p pack.sources)
build-bounded_example = build-bounded space (budget true) answer hits none none none

build-picked_example :
    (picked : List EvidenceCandidate) × (pack.sources ≡ number_sources space 1 picked)
    × IsPart picked (accumulate space (budget true) hits)
    × (pack.truncated ≡ false → picked ≡ accumulate space (budget true) hits)
    × (1 ≤ 6 → accumulate space (budget true) hits ≢ [] → picked ≢ [])
build-picked_example = build-picked space (budget true) answer hits none none none

accumulate-once_example :
    (id_count (97 ∷ []) (accumulate space (budget true) hits) ≤ 1)
    × (id_count (97 ∷ []) (accumulate space (budget true) hits)
        ≡ id_count (97 ∷ []) (accumulate space (budget false) hits))
accumulate-once_example = accumulate-once space (97 ∷ []) (budget true) (budget false) hits

-- In these tables the parts of a marker are apart.
space-no_digit : (c : ℕ) → space c ≡ true → digit c ≡ none
space-no_digit c h = ground arith

digit-no_space : (c d : ℕ) → digit c ≡ some d → space c ≡ false
digit-no_space c d h = ground arith

abbrev apart : IsApart space digit printed
apart = record {
  upper = refl;
  lower = refl;
  close = refl;
  no_digit = refl;
  space = space-no_digit;
  digit = digit-no_space;
}

pieces-Cut_example :
    Cut space digit printed answer (pieces space digit printed (length answer) answer)
pieces-Cut_example = pieces-Cut space digit printed apart answer
