-- ===== src/Rag/Within.antt =====
-- The limits that the evidence of an answer keeps.
use local_book.Base.{
  Bool, Bool-cases, List, [], ap, append_assoc, arith, beq_refl, false, if◌then◌else◌, inl, inr,
  length, length-append, list_eq, refl, subst, suc, sym, true, ℕ, ◌++◌, ◌+◌, ◌<◌, ◌==◌, ◌∙◌, ◌∷◌,
  ◌≡◌, ◌≤◌, ◌⊎◌, nat_eq, string_eq, option_eq,
}
use local_book.Paths.{Text}
use local_book.Rag.Context.{EvidenceCandidate}
use local_book.Rag.Builder.{
  Selection, Verdict, admit, admit_with, close, halt, judge, select, skip, some_selected, tokens_of,
}

pub Verdict-cases : (v : Verdict) → (v ≡ halt) ⊎ (v ≡ skip) ⊎ (v ≡ close) ⊎ (v ≡ admit)
Verdict-cases halt = inl refl
Verdict-cases skip = inr (inl refl)
Verdict-cases close = inr (inr (inl refl))
Verdict-cases admit = inr (inr (inr refl))

module _ (is_space : ℕ → Bool) where
  -- The tokens of some candidates, and of those of one document.
  abbrev pub total : List EvidenceCandidate → ℕ
  total [] = 0
  total (c ∷ rest) = tokens_of is_space c + total rest

  abbrev pub document_total : Text → List EvidenceCandidate → ℕ
  document_total p [] = 0
  document_total p (c ∷ rest) =
      let more = document_total p rest in if c.path == p then tokens_of is_space c + more else more

  total-append : (xs ys : List EvidenceCandidate) → total (xs ++ ys) ≡ total xs + total ys
  total-append [] ys = omega arith
  total-append (x ∷ xs) ys = omega (arith, total-append xs ys)

  document_total-append :
      (p : Text) (xs ys : List EvidenceCandidate)
      → document_total p (xs ++ ys) ≡ document_total p xs + document_total p ys
  document_total-append p [] ys = omega arith
  document_total-append p (x ∷ xs) ys = ground (arith, document_total-append p xs ys)

  -- One candidate is all that a document has, as far as tokens go.
  abbrev pub IsLone : Text → List EvidenceCandidate → Type 0
  IsLone p cs =
      (c : EvidenceCandidate) × (before after : List EvidenceCandidate) × (cs
        ≡ before ++ (c ∷ after))
      × (c.path ≡ p)
      × (document_total p cs ≡ tokens_of is_space c)

  abbrev pub Document : ℕ → Selection → Text → Type 0
  Document cap s p =
      ((s.per_document p ≡ document_total p s.selected) × (document_total p s.selected ≤ cap))
      ⊎ ((s.per_document p ≡ suc cap) × IsLone p s.selected)

  none_selected : (cs : List EvidenceCandidate) → some_selected cs ≡ false → length cs ≡ 0
  none_selected [] h = refl
  none_selected (c ∷ rest) h = cc h

  module _ (limit_chunks limit_tokens cap : ℕ) where
    abbrev pub IsKept : Selection → Type 0
    IsKept s =
        (length s.selected ≤ limit_chunks)
        × (s.used_tokens ≡ total s.selected)
        × ((s.used_tokens ≤ limit_tokens) ⊎ (length s.selected ≤ 1))
        × ((p : Text) → Document cap s p)

    -- What is known where a candidate is taken.
    abbrev Fits : EvidenceCandidate → Selection → Type 0
    Fits c s =
        (length s.selected < limit_chunks)
        × ((s.used_tokens + tokens_of is_space c ≤ limit_tokens) ⊎ (length s.selected ≡ 0))

    judge-admit :
        (c : EvidenceCandidate) (s : Selection)
        → judge is_space limit_chunks limit_tokens cap c s ≡ admit
        → Fits c s × (s.per_document c.path + tokens_of is_space c ≤ cap)
    unfolding judge
    judge-admit c s h =
        let empty = none_selected s.selected in
        let spent = s.per_document c.path in
        let tokens = tokens_of is_space c in ((ground arith, ground arith), ground arith)

    judge-close :
        (c : EvidenceCandidate) (s : Selection)
        → judge is_space limit_chunks limit_tokens cap c s ≡ close
        → Fits c s × (s.per_document c.path ≡ 0) × (cap < tokens_of is_space c)
    unfolding judge
    judge-close c s h =
        let empty = none_selected s.selected in
        ((ground arith, ground arith), ground arith, ground arith)

    own_total :
        (c : EvidenceCandidate) (cs : List EvidenceCandidate)
        → document_total c.path (cs ++ (c ∷ [])) ≡ document_total c.path cs + tokens_of is_space c
    own_total c cs = document_total-append c.path cs (c ∷ []) ∙ rw (beq_refl c.path) (omega arith)

    -- The count of a document after a candidate has been taken.
    admitted-Document :
        (c : EvidenceCandidate) (s : Selection) (spent : ℕ) (cut : Bool)
        → ((p : Text) → Document cap s p)
        → Document cap (admit_with is_space limit_chunks limit_tokens cap c spent cut s) c.path
        → (p : Text)
        → Document cap (admit_with is_space limit_chunks limit_tokens cap c spent cut s) p
    admitted-Document c s spent cut docs own p = elim (Bool-cases (c.path == p)) [
      | inl e ↦
          subst (Document cap (admit_with is_space limit_chunks limit_tokens cap c spent cut s))
            ((list_eq.beq_iff c.path p).0 e) own
      | inr e ↦
          let apart : document_total p (s.selected ++ (c ∷ [])) ≡ document_total p s.selected =
            document_total-append p s.selected (c ∷ []) ∙ rw e (omega arith) in
          elim (docs p) [
            | inl (same, few) ↦ inl (rw e (same ∙ sym apart), omega (arith, apart, few))
            | inr (closed, (d, before, after, parts, at, lone)) ↦ inr (
              rw e closed,
              (
                d,
                before,
                after ++ (c ∷ []),
                ap (λ xs. xs ++ (c ∷ [])) parts ∙ append_assoc before (d ∷ after) (c ∷ []),
                at,
                apart ∙ lone,
              ),
            )
          ]
    ]

    admitted_own :
        (c : EvidenceCandidate) (s : Selection)
        → s.per_document c.path + tokens_of is_space c ≤ cap
        → Document cap s c.path
        → Document cap
            (admit_with is_space limit_chunks limit_tokens cap c
              (s.per_document c.path + tokens_of is_space c)
              false
              s)
            c.path
    admitted_own c s share doc = elim (doc) [
      | inl (same, low) ↦ inl (
        rw (beq_refl c.path) (omega (arith, same, own_total c s.selected)),
        omega (arith, same, low, share, own_total c s.selected),
      )
      | inr (closed, _) ↦ ground (arith, closed, share)
    ]

    closed_own :
        (c : EvidenceCandidate) (s : Selection)
        → s.per_document c.path ≡ 0
        → Document cap s c.path
        → Document cap (admit_with is_space limit_chunks limit_tokens cap c (cap + 1) true s) c.path
    closed_own c s fresh doc = elim (doc) [
      | inl (same, low) ↦ inr (
        rw (beq_refl c.path) (omega arith),
        (c, s.selected, [], refl, refl, omega (arith, same, fresh, own_total c s.selected)),
      )
      | inr (closed, _) ↦ cc (closed, fresh)
    ]

    admit-IsKept :
        (c : EvidenceCandidate) (s : Selection)
        → judge is_space limit_chunks limit_tokens cap c s ≡ admit
        → IsKept s
        → IsKept (
            admit_with is_space limit_chunks limit_tokens cap c
              (s.per_document c.path + tokens_of is_space c)
              false
              s)
    admit-IsKept c s h (few, used, within_limit, docs) =
        let ((room, fits), share) = judge-admit c s h in
        let more = length-append s.selected (c ∷ []) in
        let sum = total-append s.selected (c ∷ []) in
        (
          omega (arith, more, room),
          omega (arith, used, sum),
          elim fits [ inl f ↦ inl f | inr empty ↦ inr (omega (arith, more, empty)) ],
          admitted-Document c s (s.per_document c.path + tokens_of is_space c) false docs
              (admitted_own c s share (docs c.path)),
        )

    close-IsKept :
        (c : EvidenceCandidate) (s : Selection)
        → judge is_space limit_chunks limit_tokens cap c s ≡ close
        → IsKept s
        → IsKept (admit_with is_space limit_chunks limit_tokens cap c (cap + 1) true s)
    close-IsKept c s h (few, used, within_limit, docs) =
        let ((room, fits), fresh, large) = judge-close c s h in
        let more = length-append s.selected (c ∷ []) in
        let sum = total-append s.selected (c ∷ []) in
        (
          omega (arith, more, room),
          omega (arith, used, sum),
          elim fits [ inl f ↦ inl f | inr empty ↦ inr (omega (arith, more, empty)) ],
          admitted-Document c s (cap + 1) true docs (closed_own c s fresh (docs c.path)),
        )

    pub select-IsKept :
        (cs : List EvidenceCandidate) (s : Selection)
        → IsKept s
        → IsKept (select is_space limit_chunks limit_tokens cap cs s)
    unfolding select
    select-IsKept [] s k = k
    select-IsKept (c ∷ rest) s k =
        elim (Verdict-cases (judge is_space limit_chunks limit_tokens cap c s)) [
          | inl e ↦ rw (select, e) k
          | inr (inl e) ↦ rw (select, e) (select-IsKept rest (record s { truncated = true }) k)
          | inr (inr (inl e)) ↦ rw (select, e) (select-IsKept rest _ (close-IsKept c s e k))
          | inr (inr (inr e)) ↦ rw (select, e) (select-IsKept rest _ (admit-IsKept c s e k))
        ]
