-- ===== src/Rag/Builder.antt =====
-- `RagContextBuilder` of server/rag/context/builder.py.
use local_book.Base.{
  Bool, List, Option, [], contains, eqb, false, if◌then◌else◌, leb, length, ltb, none, some, suc,
  true, zero, ℕ, ◌&&◌, ◌++◌, ◌+◌, ◌==◌, ◌||◌, ◌∷◌, nat_eq, string_eq, option_eq, list_eq,
}
use local_book.Paths.{Text}
use local_book.Rag.{EvidencePack, RetrievalResult, SourceEvidence, strip}
use local_book.Rag.Context.{
  ContextBudget, EvidenceCandidate, before_place, estimate_tokens, first_text, group_all,
  merge_groups, or_other, place_of, sort_candidates,
}

abbrev pub is_filled : Text → Bool
is_filled [] = false
is_filled (c ∷ cs) = true

abbrev pub seen_before : List Text → Text → Bool
seen_before seen t = is_filled t && contains seen t

abbrev pub note_seen : List Text → Text → List Text
note_seen seen t = if is_filled t then t ∷ seen else seen

abbrev pub singleton : Text → List Text
singleton t = if is_filled t then t ∷ [] else []

abbrev pub candidate_of : ℕ → RetrievalResult → EvidenceCandidate
candidate_of n item = record {
  path = item.path;
  heading = item.heading;
  heading_path = item.heading_path;
  content = item.content;
  start_line = item.start_line;
  end_line = item.end_line;
  chunk_ids = singleton item.chunk_id;
  content_hashes = singleton item.content_hash;
  position = some n;
}

-- What `build` does with a candidate: end the loop, pass on, admit it and close its document, or
-- admit it.
pub data Verdict : Type 0 where
  halt skip close admit : Verdict

-- The variables of the loop of `build`; `per_document` is a dict, and a missing path counts 0.
pub record Selection : Type 0 where
  pub selected : List EvidenceCandidate
  pub per_document : Text → ℕ
  pub used_tokens : ℕ
  pub truncated : Bool

abbrev pub set_spent : Text → ℕ → (Text → ℕ) → Text → ℕ
set_spent path n spent p = if path == p then n else spent p

abbrev pub start_selection : Selection
start_selection = record {
  selected = [];
  per_document = λ _. 0;
  used_tokens = 0;
  truncated = false;
}

abbrev pub some_selected : List EvidenceCandidate → Bool
some_selected [] = false
some_selected (c ∷ rest) = true

-- `int(limit) if limit else default`
abbrev pub or_default : Option ℕ → ℕ → ℕ
or_default none d = d
or_default (some zero) d = d
or_default (some (suc n)) d = suc n

module _ (is_space : ℕ → Bool) where
  abbrev pub text_key : RetrievalResult → Text
  text_key item = strip is_space (or_other item.content_hash item.content)

  abbrev pub is_repeated : List Text → List Text → RetrievalResult → Bool
  is_repeated seen_chunks seen_text item =
      seen_before seen_chunks item.chunk_id || seen_before seen_text (text_key item)

  -- The first loop of `_accumulate`, from a place on.
  unfoldable pub deduplicate :
      List Text → List Text → ℕ → List RetrievalResult → List EvidenceCandidate
  unfolding strip contains
  deduplicate seen_chunks seen_text n [] = []
  deduplicate seen_chunks seen_text n (item ∷ rest) =
      elim (is_repeated seen_chunks seen_text item) [
        | true ↦ deduplicate seen_chunks seen_text n rest
        | false ↦
            candidate_of n item
            ∷ deduplicate (note_seen seen_chunks item.chunk_id)
                (note_seen seen_text (text_key item)) (n + 1) rest
      ]

  -- `_accumulate`
  unfoldable pub accumulate : ContextBudget → List RetrievalResult → List EvidenceCandidate
  unfolding deduplicate group_all merge_groups sort_candidates place_of
  accumulate b results =
      let ordered = deduplicate [] [] 0 results in
      if b.merge_adjacent
      then sort_candidates (before_place ordered)
          (merge_groups b.merge_gap_lines (group_all [] ordered))
      else ordered

  abbrev pub tokens_of : EvidenceCandidate → ℕ
  tokens_of c = estimate_tokens is_space c.content

  module _ (limit_chunks limit_tokens cap : ℕ) where
    unfoldable pub judge : EvidenceCandidate → Selection → Verdict
    unfolding estimate_tokens
    judge c s =
        let tokens = tokens_of c in
        let spent = s.per_document c.path in
        if leb limit_chunks (length s.selected)
        then halt
        else if ltb 0 spent && ltb cap (spent + tokens)
        then skip
        else if ltb limit_tokens (s.used_tokens + tokens) && some_selected s.selected
        then halt
        else if eqb spent 0 && ltb cap tokens
        then close
        else admit

    -- The selection with a candidate, its document's new count, and whether something was cut.
    abbrev pub admit_with : EvidenceCandidate → ℕ → Bool → Selection → Selection
    admit_with c spent cut s = record {
      selected = s.selected ++ (c ∷ []);
      per_document = set_spent c.path spent s.per_document;
      used_tokens = s.used_tokens + tokens_of c;
      truncated = s.truncated || cut;
    }

    -- The loop of `build`.
    unfoldable pub select : List EvidenceCandidate → Selection → Selection
    unfolding judge estimate_tokens
    select [] s = s
    select (c ∷ rest) s = elim (judge c s) [
      | halt ↦ record s { truncated = true }
      | skip ↦ select rest (record s { truncated = true })
      | close ↦ select rest (admit_with c (cap + 1) true s)
      | admit ↦ select rest (admit_with c (s.per_document c.path + tokens_of c) false s)
    ]

  abbrev pub source_of : ℕ → EvidenceCandidate → SourceEvidence
  source_of n c = record {
    source_id = n;
    path = c.path;
    heading = c.heading;
    heading_path = c.heading_path;
    start_line = c.start_line;
    end_line = c.end_line;
    content = c.content;
    content_hash = first_text c.content_hashes;
    chunk_id = first_text c.chunk_ids;
  }

  -- The sources, numbered from a number on.
  unfoldable pub number_sources : ℕ → List EvidenceCandidate → List SourceEvidence
  number_sources n [] = []
  number_sources n (c ∷ rest) = source_of n c ∷ number_sources (n + 1) rest

  -- `build`
  unfoldable pub build :
      ContextBudget
      → Text
      → List RetrievalResult
      → (candidate_count max_chunks max_tokens : Option ℕ) → EvidencePack
  unfolding accumulate select number_sources
  build b query results candidate_count max_chunks max_tokens =
      let s =
        select (or_default max_chunks b.max_chunks) (or_default max_tokens b.max_tokens)
          b.max_tokens_per_document (accumulate b results) start_selection in
      record {
        query = query;
        sources = number_sources 1 s.selected;
        context_tokens = s.used_tokens;
        candidate_count = elim candidate_count [ none ↦ length results | some n ↦ n ];
        truncated = s.truncated;
      }
