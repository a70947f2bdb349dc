-- ===== src/Rag/Packed.antt =====
-- What `build` packs: the sources are the candidates it picks, in their order, within the limits.
use local_book.Base.{
  Bool, List, Option, [], ap, arith, if◌then◌else◌, inl, inr, length, refl, suc, sym, ℕ, ◌++◌, ◌+◌,
  ◌==◌, ◌∙◌, ◌∷◌, ◌≡◌, ◌≤◌, ◌⊎◌, nat_eq, string_eq, option_eq, list_eq,
}
use local_book.Paths.{Text}
use local_book.Rag.{RetrievalResult, SourceEvidence}
use local_book.Rag.Context.{ContextBudget, EvidenceCandidate, estimate_tokens}
use local_book.Rag.Builder.{
  accumulate, build, number_sources, or_default, select, source_of, start_selection,
}
use local_book.Rag.Within.{IsLone, document_total, select-IsKept, total}

module _ (is_space : ℕ → Bool) where
  -- The tokens of sources, and of those of one document.
  abbrev pub sources_total : List SourceEvidence → ℕ
  sources_total [] = 0
  sources_total (t ∷ rest) = estimate_tokens is_space t.content + sources_total rest

  abbrev pub path_total : Text → List SourceEvidence → ℕ
  path_total p [] = 0
  path_total p (t ∷ rest) =
      let more = path_total p rest in
      if t.path == p then estimate_tokens is_space t.content + more else more

  -- One source is all that a document has, as far as tokens go.
  abbrev pub IsSole : Text → List SourceEvidence → Type 0
  IsSole p sources =
      (t : SourceEvidence) × (before after : List SourceEvidence) × (sources
        ≡ before ++ (t ∷ after))
      × (t.path ≡ p)
      × (path_total p sources ≡ estimate_tokens is_space t.content)

  length-number_sources :
      (n : ℕ) (cs : List EvidenceCandidate) → length (number_sources is_space n cs) ≡ length cs
  unfolding number_sources
  length-number_sources n [] = refl
  length-number_sources n (c ∷ cs) = omega (arith, length-number_sources (n + 1) cs)

  total-number_sources :
      (n : ℕ) (cs : List EvidenceCandidate)
      → sources_total (number_sources is_space n cs) ≡ total is_space cs
  unfolding number_sources
  total-number_sources n [] = refl
  total-number_sources n (c ∷ cs) = omega (arith, total-number_sources (n + 1) cs)

  path_total-number_sources :
      (p : Text) (n : ℕ) (cs : List EvidenceCandidate)
      → path_total p (number_sources is_space n cs) ≡ document_total is_space p cs
  unfolding number_sources
  path_total-number_sources p n [] = refl
  path_total-number_sources p n (c ∷ cs) = ground (arith, path_total-number_sources p (n + 1) cs)

  number_sources-append :
      (n : ℕ) (xs ys : List EvidenceCandidate)
      → number_sources is_space n (xs ++ ys)
        ≡ number_sources is_space n xs ++ number_sources is_space (n + length xs) ys
  unfolding number_sources
  number_sources-append n [] ys =
      let e : n ≡ n + 0 = omega arith in ap (λ m. number_sources is_space m ys) e
  number_sources-append n (x ∷ xs) ys =
      let e : n + 1 + length xs ≡ n + suc (length xs) = omega arith in
      ap (λ ts. source_of is_space n x ∷ ts)
        (number_sources-append (n + 1) xs ys
          ∙ ap (λ m. number_sources is_space (n + 1) xs ++ number_sources is_space m ys) e)

  lone-IsSole :
      (p : Text) (n : ℕ) (cs : List EvidenceCandidate)
      → IsLone is_space p cs
      → IsSole p (number_sources is_space n cs)
  unfolding number_sources
  lone-IsSole p n cs (c, before, after, parts, at, lone) = (
    source_of is_space (n + length before) c,
    number_sources is_space n before,
    number_sources is_space (n + length before + 1) after,
    ap (number_sources is_space n) parts ∙ number_sources-append n before (c ∷ after),
    at,
    path_total-number_sources p n cs ∙ lone,
  )

  -- The limits of the evidence. It has no more sources than the limit of chunks, and its token count
  -- is the sum of its sources' estimates. The count is within the limit of tokens, unless there is
  -- one source only. For each document the sum of its sources is within the limit for one document,
  -- unless one of its sources makes up the whole sum.
  pub build-bounded :
      (b : ContextBudget) (query : Text) (results : List RetrievalResult)
      (candidate_count max_chunks max_tokens : Option ℕ)
      → let pack = build is_space b query results candidate_count max_chunks max_tokens in
        (length pack.sources ≤ or_default max_chunks b.max_chunks)
        × (pack.context_tokens ≡ sources_total pack.sources)
        × ((pack.context_tokens ≤ or_default max_tokens b.max_tokens) ⊎ (length pack.sources ≤ 1))
        × ((p : Text)
            → (path_total p pack.sources ≤ b.max_tokens_per_document) ⊎ IsSole p pack.sources)
  unfolding build
  build-bounded b query results candidate_count max_chunks max_tokens =
      let chunks = or_default max_chunks b.max_chunks in
      let tokens = or_default max_tokens b.max_tokens in
      let cap = b.max_tokens_per_document in
      let s = select is_space chunks tokens cap (accumulate is_space b results) start_selection in
      let (few, used, low, docs) =
        select-IsKept is_space chunks tokens cap (accumulate is_space b results) start_selection
          (omega arith, refl, inl (omega arith), λ p. inl (refl, omega arith)) in
      let size = length-number_sources 1 s.selected in
      (
        omega (arith, size, few),
        used ∙ sym (total-number_sources 1 s.selected),
        elim low [ inl l ↦ inl l | inr l ↦ inr (omega (arith, size, l)) ],
        λ p. elim (docs p) [
          | inl (_, l) ↦ inl (omega (arith, path_total-number_sources p 1 s.selected, l))
          | inr (_, lone) ↦ inr (lone-IsSole p 1 s.selected lone)
        ],
      )
