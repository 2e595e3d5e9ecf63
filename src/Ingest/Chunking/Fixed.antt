-- ===== src/Ingest/Chunking/Fixed.antt =====
-- `FixedSizeChunking`. An overlap may be negative, as in the source; a chunk size is a natural number.
pub mod Windows
pub mod Coverage
use vektra_stack.Prelude.{
  ℕ, zero, suc, ◌+◌, ◌-◌, ◌≡◌, Option, none, some, List, [], ◌∷◌, ◌++◌, String, Bool, true, false,
  not, ◌&&◌, min,
}
use vektra_stack.Prelude.Tests.{ltb, leb, if◌then◌else◌}
use vektra_stack.Prelude.Lists.{length}
use vektra_stack.Prelude.Eq.{string_eq}
use vektra_stack.Prelude.Int.{ℤ, pos, negsuc}
use vektra_stack.Prelude.Dict
use vektra_stack.Shared.Types.{ElementType, Value, Metadata, DocumentChunk, sorted_values}
use vektra_stack.Ingest.Chunking.{Tokenizer, Outcome, ok, value_error, slice}

pub record FixedSizeChunking : Type 0 where
  pub chunk_size : ℕ
  pub chunk_overlap : ℤ

-- `chunk_overlap >= chunk_size`
abbrev overlap_too_large : ℕ → ℤ → Bool
overlap_too_large chunk_size (pos n) = leb chunk_size n
overlap_too_large chunk_size (negsuc n) = false

unfoldable pub init : ℕ → ℤ → Outcome FixedSizeChunking
init chunk_size chunk_overlap =
    if overlap_too_large chunk_size chunk_overlap
    then value_error
    else ok (record { chunk_size = chunk_size; chunk_overlap = chunk_overlap })

-- `chunk_size - chunk_overlap`, where the overlap is less than the size
abbrev pub advance : ℕ → ℤ → ℕ
advance chunk_size (pos n) = chunk_size - n
advance chunk_size (negsuc n) = chunk_size + suc n

abbrev pub step : FixedSizeChunking → ℕ
step s = advance s.chunk_size s.chunk_overlap

-- What the first loop accumulates.
pub record Gathered : Type 0 where
  pub all_tokens : List ℕ
  pub first_metadata : Metadata
  pub source_element_types : List ElementType

abbrev pub is_empty {ℓ} : {A : Type ℓ} → List A → Bool
is_empty [] = true
is_empty (x ∷ xs) = false

-- `all_tokens[start:end]` with `end = min(start + chunk_size, len(all_tokens))`
abbrev pub window : FixedSizeChunking → List ℕ → ℕ → List ℕ
window s tokens start = slice tokens start (min (start + s.chunk_size) (length tokens))

module _ {Box : Type 0} (enc : Tokenizer) where
  unfoldable pub gather : Gathered → List (DocumentChunk Box) → Gathered
  gather g [] = g
  gather g (element ∷ elements) =
      let tokens = enc.encode element.text in
      gather
        (record {
          all_tokens = g.all_tokens ++ tokens;
          first_metadata =
              if is_empty g.all_tokens && not (is_empty tokens)
              then element.metadata
              else g.first_metadata;
          source_element_types = element.element_type ∷ g.source_element_types;
        })
        elements

  module _ (s : FixedSizeChunking) (g : Gathered) where
    abbrev pub make_chunk : ℕ → List ℕ → String → DocumentChunk Box
    make_chunk chunk_index chunk_tokens chunk_text = record {
      text = chunk_text;
      element_type = ElementType.text;
      content_format = "text";
      metadata =
          Dict.put
            (Dict.put (Dict.put g.first_metadata "chunk_index" (Value.int chunk_index))
              "token_count" (Value.int (length chunk_tokens)))
            "source_element_types" (Value.strs (sorted_values g.source_element_types));
      parent_id = none;
      coordinates = none;
      index_version = 1;
    }

    -- The `while` loop: a window that does not decode is skipped, with its index.
    unfoldable pub emit : ℕ → ℕ → ℕ → List (DocumentChunk Box)
    emit zero start chunk_index = []
    emit (suc fuel) start chunk_index =
        let n = length g.all_tokens in
        let next = emit fuel (start + step s) (chunk_index + 1) in
        let end = min (start + s.chunk_size) n in
        let chunk_tokens = window s g.all_tokens start in
        if ltb start n
        then elim (enc.decode chunk_tokens) [
          | none ↦ next
          | some chunk_text ↦
              make_chunk chunk_index chunk_tokens chunk_text ∷ (if leb n end then [] else next)
        ]
        else []

  abbrev pub gathered : List (DocumentChunk Box) → Gathered
  gathered elements =
      gather (record { all_tokens = []; first_metadata = []; source_element_types = [] }) elements

  -- `_chunk_impl`; every round advances `start` by at least one token.
  unfoldable pub chunk : FixedSizeChunking → List (DocumentChunk Box) → List (DocumentChunk Box)
  unfolding emit gather
  chunk s elements =
      let g = gathered elements in
      if is_empty g.all_tokens then [] else emit s g (suc (length g.all_tokens)) 0 0
