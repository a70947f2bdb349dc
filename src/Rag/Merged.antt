-- ===== src/Rag/Merged.antt =====
-- What joining adjacent chunks and sorting the blocks keeps.
use local_book.Base.{
  Bool, Bool-cases, List, [], arith, contains, if◌then◌else◌, inl, inr, leb, refl, same_test, suc,
  sym, ℕ, ◌++◌, ◌+◌, ◌==◌, ◌∙◌, ◌∷◌, ◌≡◌, ◌≤◌, nat_eq, string_eq, option_eq, list_eq,
}
use local_book.Paths.{Text}
use local_book.Rag.{RetrievalResult}
use local_book.Rag.Context.{
  ContextBudget, EvidenceCandidate, Groups, add_to_group, before_lines, before_place, group_all,
  insert_candidate, join_candidates, merge_group, merge_groups, merge_sorted, sort_candidates,
}
use local_book.Rag.Builder.{accumulate, deduplicate, is_repeated, note_seen, text_key}

-- How often a text is in a list, and how often an id is in the blocks of some candidates.
unfoldable pub occurrences : Text → List Text → ℕ
occurrences t [] = 0
occurrences t (x ∷ xs) = let more = occurrences t xs in if x == t then suc more else more

unfoldable pub id_count : Text → List EvidenceCandidate → ℕ
unfolding occurrences
id_count t [] = 0
id_count t (c ∷ cs) = occurrences t c.chunk_ids + id_count t cs

occurrences-append :
    (t : Text) (xs ys : List Text) → occurrences t (xs ++ ys) ≡ occurrences t xs + occurrences t ys
unfolding occurrences
occurrences-append t [] ys = omega arith
occurrences-append t (x ∷ xs) ys = ground (arith, occurrences-append t xs ys)

id_count-append :
    (t : Text) (xs ys : List EvidenceCandidate)
    → id_count t (xs ++ ys) ≡ id_count t xs + id_count t ys
unfolding id_count
id_count-append t [] ys = omega arith
id_count-append t (x ∷ xs) ys = omega (arith, id_count-append t xs ys)

id_count-insert_candidate :
    (t : Text) (before : EvidenceCandidate → EvidenceCandidate → Bool) (c : EvidenceCandidate)
    (cs : List EvidenceCandidate)
    → id_count t (insert_candidate before c cs) ≡ occurrences t c.chunk_ids + id_count t cs
unfolding id_count insert_candidate
id_count-insert_candidate t before c [] = refl
id_count-insert_candidate t before c (d ∷ cs) =
    ground (arith, id_count-insert_candidate t before c cs)

id_count-sort_candidates :
    (t : Text) (before : EvidenceCandidate → EvidenceCandidate → Bool) (cs : List EvidenceCandidate)
    → id_count t (sort_candidates before cs) ≡ id_count t cs
unfolding id_count sort_candidates
id_count-sort_candidates t before [] = refl
id_count-sort_candidates t before (c ∷ cs) = omega (
  arith,
  id_count-insert_candidate t before c (sort_candidates before cs),
  id_count-sort_candidates t before cs,
)

id_count-merge_group :
    (t : Text) (gap : ℕ) (current : EvidenceCandidate) (cs : List EvidenceCandidate)
    → id_count t (merge_group gap current cs) ≡ occurrences t current.chunk_ids + id_count t cs
unfolding id_count merge_group join_candidates
id_count-merge_group t gap current [] = refl
id_count-merge_group t gap current (c ∷ cs) =
    elim (Bool-cases (leb c.start_line (current.end_line + gap))) [
      | inl e ↦
          rw (merge_group, e)
            (omega (
              arith,
              id_count-merge_group t gap (join_candidates current c) cs,
              occurrences-append t current.chunk_ids c.chunk_ids,
            ))
      | inr e ↦ rw (merge_group, e) (omega (arith, id_count-merge_group t gap c cs))
    ]

id_count-merge_sorted :
    (t : Text) (gap : ℕ) (cs : List EvidenceCandidate)
    → id_count t (merge_sorted gap cs) ≡ id_count t cs
unfolding id_count merge_sorted
id_count-merge_sorted t gap [] = refl
id_count-merge_sorted t gap (c ∷ cs) = id_count-merge_group t gap c cs

-- How often an id is in groups.
abbrev groups_count : Text → Groups → ℕ
groups_count t [] = 0
groups_count t ((path, group) ∷ rest) = id_count t group + groups_count t rest

groups_count-add_to_group :
    (t : Text) (c : EvidenceCandidate) (groups : Groups)
    → groups_count t (add_to_group c groups) ≡ occurrences t c.chunk_ids + groups_count t groups
unfolding add_to_group id_count
groups_count-add_to_group t c [] = omega arith
groups_count-add_to_group t c ((path, group) ∷ rest) =
    ground (arith, groups_count-add_to_group t c rest, id_count-append t group (c ∷ []))

groups_count-group_all :
    (t : Text) (cs : List EvidenceCandidate) (groups : Groups)
    → groups_count t (group_all groups cs) ≡ groups_count t groups + id_count t cs
unfolding group_all id_count
groups_count-group_all t [] groups = omega arith
groups_count-group_all t (c ∷ cs) groups = omega (
  arith,
  groups_count-group_all t cs (add_to_group c groups),
  groups_count-add_to_group t c groups,
)

id_count-merge_groups :
    (t : Text) (gap : ℕ) (groups : Groups)
    → id_count t (merge_groups gap groups) ≡ groups_count t groups
unfolding merge_groups id_count
id_count-merge_groups t gap [] = refl
id_count-merge_groups t gap ((path, group) ∷ rest) =
    let sorted = sort_candidates before_lines group in
    omega (
      arith,
      id_count-append t (merge_sorted gap sorted) (merge_groups gap rest),
      id_count-merge_sorted t gap sorted,
      id_count-sort_candidates t before_lines group,
      id_count-merge_groups t gap rest,
    )

module _ (is_space : ℕ → Bool) where
  -- The ids that a text had among the results it is one of.
  id_count-accumulate :
      (t : Text) (b : ContextBudget) (results : List RetrievalResult)
      → id_count t (accumulate is_space b results)
        ≡ id_count t (deduplicate is_space [] [] 0 results)
  unfolding accumulate
  id_count-accumulate t b results =
      let ordered = deduplicate is_space [] [] 0 results in
      elim (Bool-cases b.merge_adjacent) [
        | inr e ↦ rw (accumulate, e) refl
        | inl e ↦
            rw (accumulate, e)
              (omega (
                arith,
                id_count-sort_candidates t (before_place ordered)
                    (merge_groups b.merge_gap_lines (group_all [] ordered)),
                id_count-merge_groups t b.merge_gap_lines (group_all [] ordered),
                groups_count-group_all t ordered [],
              ))
      ]

  -- An id that was seen is not kept again, and any other one is kept at most once.
  id_count-deduplicate :
      (t : Text) (seen_chunks seen_text : List Text) (n : ℕ) (results : List RetrievalResult)
      → id_count t (deduplicate is_space seen_chunks seen_text n results)
          + (if contains seen_chunks t then 1 else 0)
        ≤ 1
  unfolding deduplicate id_count occurrences contains
  id_count-deduplicate t seen_chunks seen_text n [] = ground arith
  id_count-deduplicate t seen_chunks seen_text n (item ∷ rest) =
      let chunk = item.chunk_id in
      let same = same_test (contains seen_chunks) chunk t in
      let key = text_key is_space item in
      elim (Bool-cases (is_repeated is_space seen_chunks seen_text item)) [
        | inl e ↦ rw (deduplicate, e) (id_count-deduplicate t seen_chunks seen_text n rest)
        | inr e ↦
            let more =
              id_count-deduplicate t (note_seen seen_chunks chunk) (note_seen seen_text key) (n + 1)
                rest in
            rw (deduplicate, e) (ground (arith, same, more, e))
      ]

  -- An id of a chunk is in the candidates at most once, and whether adjacent chunks are joined or
  -- not, and across what gaps, it is there exactly as often: joining loses and repeats no chunk.
  pub accumulate-once :
      (t : Text) (b b' : ContextBudget) (results : List RetrievalResult)
      → (id_count t (accumulate is_space b results) ≤ 1)
        × (id_count t (accumulate is_space b results) ≡ id_count t (accumulate is_space b' results))
  unfolding contains
  accumulate-once t b b' results =
      let whole = id_count-accumulate t b results in
      let other = id_count-accumulate t b' results in
      let single = id_count-deduplicate t [] [] 0 results in
      (omega (arith, whole, single), whole ∙ sym other)
