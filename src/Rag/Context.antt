-- ===== src/Rag/Context.antt =====
-- The evidence of an answer: server/rag/context/builder.py. The score and the tags of a candidate,
-- which the evidence does not keep, are left out; a candidate carries its place among the results
-- in the stead of its identity, and a joined one carries none.
use local_book.Base.{
  Bool, List, Option, [], contains, eqb, false, if◌then◌else◌, leb, length, ltb, max, min, none,
  reverse, some, true, ℕ, ◌&&◌, ◌++◌, ◌+◌, ◌==◌, ◌||◌, ◌∷◌, nat_eq, string_eq, option_eq, list_eq,
}
use local_book.Paths.{Text}

-- `ContextBudget`
pub record ContextBudget : Type 0 where
  pub max_chunks : ℕ
  pub max_tokens : ℕ
  pub max_tokens_per_document : ℕ
  pub merge_adjacent : Bool
  pub merge_gap_lines : ℕ

-- `EvidenceCandidate`
pub record EvidenceCandidate : Type 0 where
  pub path : Text
  pub heading : Option Text
  pub heading_path : Option Text
  pub content : Text
  pub start_line : ℕ
  pub end_line : ℕ
  pub chunk_ids : List Text
  pub content_hashes : List Text
  pub position : Option ℕ

abbrev pub first_text : List Text → Text
first_text [] = []
first_text (t ∷ rest) = t

-- Python's `x or y` on texts, and on texts that may be absent.
abbrev pub or_other : Text → Text → Text
or_other [] y = y
or_other (c ∷ cs) y = c ∷ cs

abbrev pub or_heading : Option Text → Option Text → Option Text
or_heading (some (c ∷ cs)) y = some (c ∷ cs)
or_heading _ y = y

-- `_is_cjk`
abbrev pub within : ℕ → ℕ → ℕ → Bool
within low high c = leb low c && leb c high

abbrev pub is_cjk : ℕ → Bool
is_cjk c =
    within 12352 12543 c
    || within 13312 19903 c
    || within 19968 40959 c
    || within 44032 55215 c
    || within 63744 64255 c
    || within 131072 195103 c

-- `char.isalnum() or char in "_-'"` below code point 128.
abbrev pub is_word : ℕ → Bool
is_word c = within 48 57 c || within 65 90 c || within 97 122 c || c == 95 || c == 45 || c == 39

abbrev pub run_end : Bool → ℕ
run_end true = 1
run_end false = 0

-- `left.content.endswith("\n")`
abbrev pub ends_with_break : Text → Bool
ends_with_break t = elim (reverse t) [ [] ↦ false | c ∷ rest ↦ c == 10 ]

-- `_join`
unfoldable pub join_candidates : EvidenceCandidate → EvidenceCandidate → EvidenceCandidate
join_candidates left right = record {
  path = left.path;
  heading = or_heading left.heading right.heading;
  heading_path = or_heading left.heading_path right.heading_path;
  content =
      left.content ++ ((if ends_with_break left.content then [] else 10 ∷ []) ++ right.content);
  start_line = min left.start_line right.start_line;
  end_line = max left.end_line right.end_line;
  chunk_ids = left.chunk_ids ++ right.chunk_ids;
  content_hashes = left.content_hashes ++ right.content_hashes;
  position = none;
}

-- The sort of a group: by the first line, then by the last, and stable.
abbrev pub before_lines : EvidenceCandidate → EvidenceCandidate → Bool
before_lines a b =
    ltb a.start_line b.start_line || eqb a.start_line b.start_line && leb a.end_line b.end_line

unfoldable pub insert_candidate :
    (EvidenceCandidate → EvidenceCandidate → Bool)
    → EvidenceCandidate
    → List EvidenceCandidate
    → List EvidenceCandidate
insert_candidate before c [] = c ∷ []
insert_candidate before c (d ∷ rest) =
    if before c d then c ∷ d ∷ rest else d ∷ insert_candidate before c rest

unfoldable pub sort_candidates :
    (EvidenceCandidate → EvidenceCandidate → Bool) → List EvidenceCandidate → List EvidenceCandidate
unfolding insert_candidate
sort_candidates before [] = []
sort_candidates before (c ∷ rest) = insert_candidate before c (sort_candidates before rest)

-- The loop over a sorted group, with the block that is being built.
unfoldable pub merge_group : ℕ → EvidenceCandidate → List EvidenceCandidate → List EvidenceCandidate
unfolding join_candidates
merge_group gap current [] = current ∷ []
merge_group gap current (c ∷ rest) = elim (leb c.start_line (current.end_line + gap)) [
  | true ↦ merge_group gap (join_candidates current c) rest
  | false ↦ current ∷ merge_group gap c rest
]

unfoldable pub merge_sorted : ℕ → List EvidenceCandidate → List EvidenceCandidate
unfolding merge_group
merge_sorted gap [] = []
merge_sorted gap (c ∷ rest) = merge_group gap c rest

-- `by_document`: the candidates by their path, in the order of their first.
abbrev pub Groups : Type 0
Groups = List (Text × List EvidenceCandidate)

unfoldable pub add_to_group : EvidenceCandidate → Groups → Groups
add_to_group c [] = (c.path, c ∷ []) ∷ []
add_to_group c ((path, group) ∷ rest) =
    let more = add_to_group c rest in
    if path == c.path then (path, group ++ (c ∷ [])) ∷ rest else (path, group) ∷ more

unfoldable pub group_all : Groups → List EvidenceCandidate → Groups
unfolding add_to_group
group_all groups [] = groups
group_all groups (c ∷ rest) = group_all (add_to_group c groups) rest

unfoldable pub merge_groups : ℕ → Groups → List EvidenceCandidate
unfolding sort_candidates merge_sorted
merge_groups gap [] = []
merge_groups gap ((path, group) ∷ rest) =
    merge_sorted gap (sort_candidates before_lines group) ++ merge_groups gap rest

-- Some text of one list is in another.
unfoldable pub overlaps : List Text → List Text → Bool
unfolding contains
overlaps [] ys = false
overlaps (x ∷ xs) ys = contains ys x || overlaps xs ys

-- `_merged_position`: the least place of a member, with a place for no member at all.
unfoldable pub earliest : List Text → List EvidenceCandidate → Option ℕ
unfolding overlaps
earliest ids [] = none
earliest ids (c ∷ rest) =
    let later = earliest ids rest in
    if overlaps c.chunk_ids ids
    then elim c.position [
      | none ↦ later
      | some n ↦ elim later [ none ↦ some n | some m ↦ some (min n m) ]
    ]
    else later

unfoldable pub place_of : List EvidenceCandidate → EvidenceCandidate → ℕ
unfolding earliest
place_of ordered c = elim c.position [
  | some n ↦ n
  | none ↦ elim (earliest c.chunk_ids ordered) [ some n ↦ n | none ↦ length ordered ]
]

abbrev pub before_place : List EvidenceCandidate → EvidenceCandidate → EvidenceCandidate → Bool
before_place ordered a b = leb (place_of ordered a) (place_of ordered b)

module _ (is_space : ℕ → Bool) where
  -- `estimate_tokens` of server/rag/chunking/markdown.py, with whether a word is being read.
  unfoldable pub count_tokens : Bool → Text → ℕ
  count_tokens run [] = run_end run
  count_tokens run (c ∷ cs) =
      let word = count_tokens true cs in
      let gap = count_tokens false cs in
      if ltb c 128
      then if is_word c then word else run_end run + gap
      else if is_cjk c
      then run_end run + 1 + gap
      else if is_space c
      then run_end run + gap
      else run_end run + 1 + gap

  unfoldable pub estimate_tokens : Text → ℕ
  unfolding count_tokens
  estimate_tokens t = count_tokens false t
