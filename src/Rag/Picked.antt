-- ===== src/Rag/Picked.antt =====
-- Which candidates `build` picks.
use local_book.Base.{
  Bool, List, Option, [], ap, append-nil, append_assoc, arith, false, inl, inr, refl, sym, true, ℕ,
  ◌++◌, ◌+◌, ◌∙◌, ◌∷◌, ◌≡◌, ◌≢◌, ◌≤◌, ◌⊎◌, nat_eq, string_eq, option_eq, list_eq,
}
use local_book.Paths.{Text}
use local_book.Rag.{RetrievalResult}
use local_book.Rag.Context.{ContextBudget, EvidenceCandidate}
use local_book.Rag.Builder.{
  Selection, accumulate, admit, admit_with, build, close, judge, number_sources, or_default, select,
  start_selection, tokens_of,
}
use local_book.Rag.Within.{Verdict-cases}

-- A list is another one with some of its members left out.
abbrev pub IsPart : List EvidenceCandidate → List EvidenceCandidate → Type 0
IsPart picked [] = picked ≡ []
IsPart picked (c ∷ cs) =
    IsPart picked cs ⊎ ((more : List EvidenceCandidate) × (picked ≡ c ∷ more) × IsPart more cs)

none_IsPart : (cs : List EvidenceCandidate) → IsPart [] cs
none_IsPart [] = refl
none_IsPart (c ∷ cs) = inl (none_IsPart cs)

module _ (is_space : ℕ → Bool) where
  module _ (limit_chunks limit_tokens cap : ℕ) where
    -- What the loop adds to what it starts with.
    abbrev Picked : List EvidenceCandidate → Selection → Selection → Type 0
    Picked cs s end =
        (picked : List EvidenceCandidate) × (end.selected ≡ s.selected ++ picked)
        × IsPart picked cs
        × (end.truncated ≡ false → (s.truncated ≡ false) × (picked ≡ cs))

    passed-Picked :
        (c : EvidenceCandidate) (cs : List EvidenceCandidate) (s end : Selection)
        → Picked cs (record s { truncated = true }) end
        → Picked (c ∷ cs) s end
    passed-Picked c cs s end (picked, added, part, whole) =
        (picked, added, inl part, λ h. cc ((whole h).0))

    admitted-Picked :
        (c : EvidenceCandidate) (cs : List EvidenceCandidate) (s end : Selection) (n : ℕ)
        (cut : Bool)
        → Picked cs (admit_with is_space limit_chunks limit_tokens cap c n cut s) end
        → Picked (c ∷ cs) s end
    admitted-Picked c cs s end n cut (picked, added, part, whole) = (
      c ∷ picked,
      added ∙ append_assoc s.selected (c ∷ []) picked,
      inr (picked, refl, part),
      λ h. let (start, all_of) = whole h in (ground arith, ap (λ xs. c ∷ xs) all_of),
    )

    select-Picked :
        (cs : List EvidenceCandidate) (s : Selection)
        → Picked cs s (select is_space limit_chunks limit_tokens cap cs s)
    unfolding select
    select-Picked [] s = ([], sym (append-nil s.selected), refl, λ h. (h, refl))
    select-Picked (c ∷ rest) s =
        elim (Verdict-cases (judge is_space limit_chunks limit_tokens cap c s)) [
          | inl e ↦
              rw (select, e) ([], sym (append-nil s.selected), none_IsPart (c ∷ rest), λ h. cc h)
          | inr (inl e) ↦
              let s1 = record s { truncated = true } in
              let end = select is_space limit_chunks limit_tokens cap rest s1 in
              rw (select, e) (passed-Picked c rest s end (select-Picked rest s1))
          | inr (inr (inl e)) ↦
              let s1 = admit_with is_space limit_chunks limit_tokens cap c (cap + 1) true s in
              let end = select is_space limit_chunks limit_tokens cap rest s1 in
              rw (select, e) (admitted-Picked c rest s end (cap + 1) true (select-Picked rest s1))
          | inr (inr (inr e)) ↦
              let spent = s.per_document c.path + tokens_of is_space c in
              let s1 = admit_with is_space limit_chunks limit_tokens cap c spent false s in
              let end = select is_space limit_chunks limit_tokens cap rest s1 in
              rw (select, e) (admitted-Picked c rest s end spent false (select-Picked rest s1))
        ]

    -- The first candidate is always taken, as far as any may be.
    first_taken :
        (c : EvidenceCandidate)
        → 1 ≤ limit_chunks
        → (judge is_space limit_chunks limit_tokens cap c start_selection ≡ close)
          ⊎ (judge is_space limit_chunks limit_tokens cap c start_selection ≡ admit)
    unfolding judge
    first_taken c h = ground arith

    not_none :
        (c : EvidenceCandidate) (rest : List EvidenceCandidate) (n : ℕ) (cut : Bool)
        → let s = admit_with is_space limit_chunks limit_tokens cap c n cut start_selection in
          (select is_space limit_chunks limit_tokens cap rest s).selected ≢ []
    not_none c rest n cut z =
        let s = admit_with is_space limit_chunks limit_tokens cap c n cut start_selection in
        let (picked, added, _, _) = select-Picked rest s in cc (sym added ∙ z)

    taken_first :
        (c : EvidenceCandidate) (rest : List EvidenceCandidate)
        → 1 ≤ limit_chunks
        → (select is_space limit_chunks limit_tokens cap (c ∷ rest) start_selection).selected ≢ []
    unfolding select
    taken_first c rest h = elim (first_taken c h) [
      | inl e ↦ rw (select, e) (not_none c rest (cap + 1) true)
      | inr e ↦ rw (select, e) (not_none c rest (0 + tokens_of is_space c) false)
    ]

    some_taken :
        (cs : List EvidenceCandidate)
        → 1 ≤ limit_chunks
        → cs ≢ []
        → (select is_space limit_chunks limit_tokens cap cs start_selection).selected ≢ []
    some_taken [] h some_there z = some_there refl
    some_taken (c ∷ rest) h some_there z = taken_first c rest h z

  -- What the evidence holds: its sources are picked from the accumulated candidates, in their order,
  -- and numbered from 1. Where the pack does not say that it was truncated, all of them are there.
  -- Where at least one chunk is allowed and there is a candidate, there is a source.
  pub build-picked :
      (b : ContextBudget) (query : Text) (results : List RetrievalResult)
      (candidate_count max_chunks max_tokens : Option ℕ)
      → let pack = build is_space b query results candidate_count max_chunks max_tokens in
        let candidates = accumulate is_space b results in
        (picked : List EvidenceCandidate) × (pack.sources ≡ number_sources is_space 1 picked)
        × IsPart picked candidates
        × (pack.truncated ≡ false → picked ≡ candidates)
        × (1 ≤ or_default max_chunks b.max_chunks → candidates ≢ [] → picked ≢ [])
  unfolding build
  build-picked b query results candidate_count max_chunks max_tokens =
      let chunks = or_default max_chunks b.max_chunks in
      let tokens = or_default max_tokens b.max_tokens in
      let cap = b.max_tokens_per_document in
      let (picked, added, part, whole) =
        select-Picked chunks tokens cap (accumulate is_space b results) start_selection in
      (
        picked,
        ap (number_sources is_space 1) added,
        part,
        λ h. (whole h).1,
        λ h some_there none_picked.
            some_taken chunks tokens cap (accumulate is_space b results) h some_there
              (added ∙ none_picked),
      )
