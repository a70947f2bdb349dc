-- ===== src/Rag/Reported.antt =====
-- What the report of a validated answer says, and which answers are passed on.
use local_book.Base.{
  Bool, Bool-cases, List, Option, Option-cases, [], ap, arith, beq_refl, contains, false,
  if◌then◌else◌, inl, inr, map, not, refl, same_test, some, sym, true, ℕ, ◌&&◌, ◌++◌, ◌==◌, ◌||◌,
  ◌↔◌, ◌∙◌, ◌∷◌, ◌≡◌, nat_eq, string_eq, option_eq, list_eq,
}
use local_book.Paths.{Text}
use local_book.Rag.{EvidencePack, SourceEvidence}
use local_book.Rag.Citations.{
  add_all, add_new, ensure_grounded_answer, extract_citations, is_allowed, is_empty_list, keep,
  lookup_source, markers, no_sources, not_enough_evidence, report_ids, resolve_ids, used_sources,
  validate_citations,
}

pub contains-append :
    (xs ys : List ℕ) (n : ℕ) → contains (xs ++ ys) n ≡ (contains xs n || contains ys n)
unfolding contains
contains-append [] ys n = refl
contains-append (x ∷ xs) ys n = ground (arith, contains-append xs ys n)

contains-add_new : (xs : List ℕ) (x n : ℕ) → contains (add_new xs x) n ≡ (contains xs n || x == n)
unfolding contains
contains-add_new xs x n = elim (Bool-cases (contains xs x)) [
  | inl e ↦ let same = same_test (contains xs) x n in rw e (ground (arith, same, e))
  | inr e ↦ rw e (rw (contains-append xs (x ∷ []) n) (ground arith))
]

contains-add_all :
    (cs found : List ℕ) (n : ℕ)
    → contains (add_all found cs) n ≡ (contains found n || contains cs n)
unfolding contains add_all
contains-add_all [] found n = ground arith
contains-add_all (c ∷ cs) found n =
    contains-add_all cs (add_new found c) n
    ∙ ap (λ b. b || contains cs n) (contains-add_new found c n)
    ∙ ground arith

-- Adding under a test.
contains-add_if :
    (p : ℕ → Bool) (xs : List ℕ) (x n : ℕ)
    → contains (if p x then add_new xs x else xs) n ≡ (contains xs n || x == n && p n)
contains-add_if p xs x n =
    let same = same_test p x n in
    elim (Bool-cases (p x)) [
      | inl e ↦ rw e (contains-add_new xs x n ∙ ground (arith, same, e))
      | inr e ↦ rw e (ground (arith, same, e))
    ]

module _ (sources : List SourceEvidence) where
  -- The ids that the first loop rejects.
  unfoldable reject_ids : List ℕ → List ℕ → List ℕ
  unfolding contains
  reject_ids rejected [] = rejected
  reject_ids rejected (n ∷ rest) =
      reject_ids (if not (is_allowed sources n) then add_new rejected n else rejected) rest

  report_ids-both :
      (cs valid invalid : List ℕ)
      → report_ids sources cs (valid, invalid)
        ≡ (resolve_ids sources valid cs, reject_ids invalid cs)
  unfolding report_ids resolve_ids reject_ids
  report_ids-both [] valid invalid = refl
  report_ids-both (c ∷ cs) valid invalid = elim (Bool-cases (is_allowed sources c)) [
    | inl e ↦ rw e (report_ids-both cs (add_new valid c) invalid)
    | inr e ↦ rw e (report_ids-both cs valid (add_new invalid c))
  ]

  contains-resolve_ids :
      (cs resolved : List ℕ) (n : ℕ)
      → contains (resolve_ids sources resolved cs) n
        ≡ (contains resolved n || contains cs n && is_allowed sources n)
  unfolding contains resolve_ids
  contains-resolve_ids [] resolved n = ground arith
  contains-resolve_ids (c ∷ cs) resolved n =
      contains-resolve_ids cs (keep sources resolved c) n
      ∙ ap (λ b. b || contains cs n && is_allowed sources n)
          (contains-add_if (is_allowed sources) resolved c n)
      ∙ ground arith

  contains-reject_ids :
      (cs rejected : List ℕ) (n : ℕ)
      → contains (reject_ids rejected cs) n
        ≡ (contains rejected n || contains cs n && not (is_allowed sources n))
  unfolding contains reject_ids
  contains-reject_ids [] rejected n = ground arith
  contains-reject_ids (c ∷ cs) rejected n =
      contains-reject_ids cs (if not (is_allowed sources c) then add_new rejected c else rejected) n
      ∙ ap (λ b. b || contains cs n && not (is_allowed sources n))
          (contains-add_if (λ m. not (is_allowed sources m)) rejected c n)
      ∙ ground arith

  resolve_ids-append :
      (xs ys resolved : List ℕ)
      → resolve_ids sources resolved (xs ++ ys)
        ≡ resolve_ids sources (resolve_ids sources resolved xs) ys
  unfolding resolve_ids
  resolve_ids-append [] ys resolved = refl
  resolve_ids-append (x ∷ xs) ys resolved = resolve_ids-append xs ys (keep sources resolved x)

  resolve_ids-add_new :
      (found : List ℕ) (c : ℕ)
      → resolve_ids sources [] (add_new found c) ≡ keep sources (resolve_ids sources [] found) c
  unfolding lookup_source contains resolve_ids
  resolve_ids-add_new found c = elim (Bool-cases (contains found c)) [
    | inr e ↦ rw e (resolve_ids-append found (c ∷ []) [])
    | inl e ↦
        let known = contains-resolve_ids found [] c ∙ rw e (refl) in
        elim (Bool-cases (is_allowed sources c)) [
          | inr a ↦ rw (e, a) refl
          | inl a ↦
              let there : contains (resolve_ids sources [] found) c ≡ true = known ∙ a in
              rw (e, a) (rw there refl)
        ]
  ]

  -- Resolving the distinct ids resolves them all.
  resolve_ids-add_all :
      (cs found : List ℕ)
      → resolve_ids sources [] (add_all found cs)
        ≡ resolve_ids sources (resolve_ids sources [] found) cs
  unfolding resolve_ids add_all
  resolve_ids-add_all [] found = refl
  resolve_ids-add_all (c ∷ cs) found =
      resolve_ids-add_all cs (add_new found c)
      ∙ ap (λ r. resolve_ids sources r cs) (resolve_ids-add_new found c)

module _ (is_space : ℕ → Bool) (digit_value : ℕ → Option ℕ) (print : ℕ → Text) where
  -- The sources that are found under ids.
  abbrev pub Lookups : List SourceEvidence → List ℕ → List SourceEvidence → Type 0
  Lookups sources ids used = map some used ≡ map (lookup_source sources) ids

  used-Lookups :
      (sources : List SourceEvidence) (ids : List ℕ)
      → ((n : ℕ) → contains ids n ≡ true → is_allowed sources n ≡ true)
      → Lookups sources ids (used_sources sources ids)
  unfolding used_sources contains lookup_source
  used-Lookups sources [] h = refl
  used-Lookups sources (i ∷ ids) h =
      let rest = used-Lookups sources ids (λ n e. h n (ground arith)) in
      elim (Option-cases (lookup_source sources i)) [
        | inl e ↦ let found = h i (ground (arith, beq_refl i)) in cc (rw (is_allowed, e) at found)
        | inr (s, e) ↦ rw (e, used_sources) (ap (λ xs. some s ∷ xs) rest)
      ]

  -- The report of an answer: the ids that it resolves are the valid ones, and these are the ids of
  -- the answer's markers that name a source of the pack; the invalid ones are the ids of the other
  -- markers. The sources handed on are the pack's, one for each resolved id and in their order.
  pub validate_citations-reported :
      (answer : Text) (pack : EvidencePack)
      → let (_, report, used) = validate_citations is_space digit_value print answer pack in
        let ids = markers is_space digit_value print answer in
        (report.resolved_ids ≡ report.valid_ids)
        × ((n : ℕ) → contains report.valid_ids n ≡ (contains ids n && is_allowed pack.sources n))
        × ((n : ℕ)
            → contains report.invalid_ids n ≡ (contains ids n && not (is_allowed pack.sources n)))
        × Lookups pack.sources report.resolved_ids used
  unfolding validate_citations extract_citations resolve_ids contains lookup_source
  validate_citations-reported answer pack =
      let ids = markers is_space digit_value print answer in
      let both = report_ids-both pack.sources (add_all [] ids) [] [] in
      let same = resolve_ids-add_all pack.sources ids [] in
      rw both (
        sym same,
        λ n. ap (λ r. contains r n) same ∙ contains-resolve_ids pack.sources ids [] n,
        λ n.
            contains-reject_ids pack.sources (add_all [] ids) [] n
            ∙ ap (λ b. b && not (is_allowed pack.sources n)) (contains-add_all ids [] n),
        used-Lookups pack.sources (resolve_ids pack.sources [] ids)
            (λ n e. ground (arith, contains-resolve_ids pack.sources ids [] n, e)),
      )

  -- Something is used if and only if something is resolved.
  no_sources-Lookups :
      (sources : List SourceEvidence) (ids : List ℕ) (used : List SourceEvidence)
      → Lookups sources ids used
      → no_sources is_space digit_value print used ≡ is_empty_list ids
  no_sources-Lookups sources [] [] h = refl
  no_sources-Lookups sources [] (s ∷ used) h = cc h
  no_sources-Lookups sources (i ∷ ids) [] h = cc h
  no_sources-Lookups sources (i ∷ ids) (s ∷ used) h = refl

  filled_iff :
      (ids : List ℕ) → (not (is_empty_list ids) ≡ true) ↔ ((n : ℕ) × (contains ids n ≡ true))
  unfolding contains
  filled_iff [] = (λ h. cc h, λ (n, h). cc h)
  filled_iff (i ∷ ids) = (λ h. (i, ground (arith, beq_refl i)), λ _. refl)

  both_true : (a b : Bool) → (a && b) ≡ true → (a ≡ true) × (b ≡ true)
  both_true true b h = (refl, h)
  both_true false b h = cc h

  none_allowed :
      (sources : List SourceEvidence) (n : ℕ)
      → no_sources is_space digit_value print sources ≡ true
      → is_allowed sources n ≡ true
      → true ≡ false
  unfolding lookup_source
  none_allowed [] n h e = cc e
  none_allowed (s ∷ rest) n h e = cc h

  -- Some marker of an answer names a source.
  abbrev pub Cites : Text → EvidencePack → Type 0
  Cites answer pack =
      (n : ℕ) × (contains (markers is_space digit_value print answer) n ≡ true)
      × (is_allowed pack.sources n ≡ true)

  used-Cites :
      (answer : Text) (pack : EvidencePack)
      → (not (
            no_sources is_space digit_value print
              (validate_citations is_space digit_value print answer pack).2)
          ≡ true)
        ↔ Cites answer pack
  used-Cites answer pack =
      let (_, report, used) = validate_citations is_space digit_value print answer pack in
      let (same, valid, _, found) = validate_citations-reported answer pack in
      let none_used = no_sources-Lookups pack.sources report.resolved_ids used found in
      let filled = filled_iff report.resolved_ids in
      let resolved : (n : ℕ) → contains report.resolved_ids n ≡ _ =
        λ n. ap (λ ids. contains ids n) same ∙ valid n in
      (
        λ h.
            let (n, at) = filled.0 (ap not (sym none_used) ∙ h) in
            let (c, a) = both_true _ _ (sym (resolved n) ∙ at) in (n, c, a),
        λ (n, c, a). ap not none_used ∙ filled.1 (n, resolved n ∙ rw (c, a) refl),
      )

  -- Whether an answer is grounded: it is exactly if one of its markers names a source of the pack,
  -- whether or not a citation is required. An answer that is not grounded, where a citation is
  -- required, is replaced by the fixed text, and comes with no sources.
  pub ensure_grounded_answer-grounded :
      (require_citation : Bool) (answer : Text) (pack : EvidencePack)
      → let (shown, _, used, grounded) =
          ensure_grounded_answer is_space digit_value print require_citation answer pack in
        ((grounded ≡ true) ↔ Cites answer pack)
        × (grounded ≡ false → require_citation ≡ true → (shown ≡ not_enough_evidence) × (used ≡ []))
  unfolding ensure_grounded_answer
  ensure_grounded_answer-grounded require_citation answer pack =
      let cites = used-Cites answer pack in
      let used = (validate_citations is_space digit_value print answer pack).2 in
      elim (Bool-cases (no_sources is_space digit_value print pack.sources)) [
        | inl e ↦
            rw e
              ((λ h. cc h, λ (n, _, a). cc (none_allowed pack.sources n e a)), λ _ _. (refl, refl))
        | inr e ↦ elim (Bool-cases (not (no_sources is_space digit_value print used))) [
          | inl g ↦ elim (Bool-cases require_citation) [
            | inl r ↦ rw (e, g, r) ((λ _. cites.0 g, λ _. refl), λ h. cc)
            | inr r ↦ rw (e, g, r) ((λ _. cites.0 g, λ _. refl), λ h. cc)
          ]
          | inr g ↦ elim (Bool-cases require_citation) [
            | inl r ↦ rw (e, g, r) ((λ h. cc h, λ c. cc (cites.1 c, g)), λ _ _. (refl, refl))
            | inr r ↦ rw (e, g, r) ((λ h. cc h, λ c. cc (cites.1 c, g)), λ _ h. cc)
          ]
        ]
      ]
