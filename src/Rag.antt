-- ===== src/Rag.antt =====
-- Answers from the notes: the records of server/rag/schemas.py. A text is the list of its code
-- points, and the id `S<n>` of a source is its number.
pub mod Citations
pub mod Reported
pub mod Scanning
pub mod Markers
pub mod Context
pub mod Builder
pub mod Within
pub mod Packed
pub mod Picked
pub mod Merged
use local_book.Base.{
  Bool, List, Option, [], if◌then◌else◌, reverse, ℕ, ◌∷◌, nat_eq, string_eq, option_eq, list_eq,
}
use local_book.Paths.{Text}

-- `SourceEvidence`
pub record SourceEvidence : Type 0 where
  pub source_id : ℕ
  pub path : Text
  pub heading : Option Text
  pub heading_path : Option Text
  pub start_line : ℕ
  pub end_line : ℕ
  pub content : Text
  pub content_hash : Text
  pub chunk_id : Text

-- `RetrievalResult`, as far as the evidence keeps it.
pub record RetrievalResult : Type 0 where
  pub chunk_id : Text
  pub path : Text
  pub heading : Option Text
  pub heading_path : Option Text
  pub content : Text
  pub content_hash : Text
  pub start_line : ℕ
  pub end_line : ℕ

-- `EvidencePack`
pub record EvidencePack : Type 0 where
  pub query : Text
  pub sources : List SourceEvidence
  pub context_tokens : ℕ
  pub candidate_count : ℕ
  pub truncated : Bool

module _ (is_space : ℕ → Bool) where
  unfoldable pub skip_spaces : Text → Text
  skip_spaces [] = []
  skip_spaces (c ∷ cs) = let rest = skip_spaces cs in if is_space c then rest else c ∷ cs

  -- `str.strip`
  unfoldable pub strip : Text → Text
  unfolding skip_spaces
  strip t = reverse (skip_spaces (reverse (skip_spaces t)))
