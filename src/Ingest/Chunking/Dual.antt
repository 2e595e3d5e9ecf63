-- ===== src/Ingest/Chunking/Dual.antt =====
-- `DualStrategyChunking`.
pub mod Rounds
pub mod Hierarchy
pub mod Fuel
pub mod Tables
use vektra_stack.Prelude.{
  ℕ, zero, suc, ◌+◌, ◌-◌, Option, none, some, List, [], ◌∷◌, ◌++◌, String, Bool, true, false, not,
  ◌&&◌, min,
}
use vektra_stack.Prelude.Tests.{ltb, leb, if◌then◌else◌}
use vektra_stack.Prelude.Lists.{length}
use vektra_stack.Prelude.Eq.{string_eq, contains, ◌==◌}
use vektra_stack.Prelude.Dict
use vektra_stack.Shared.Types.{ElementType, Value, Metadata, DocumentChunk, type_eq}
use vektra_stack.Ingest.Chunking.{Tokenizer, Outcome, ok, value_error, slice}
use vektra_stack.Ingest.Chunking.Fixed.{is_empty}

pub record DualStrategyChunking : Type 0 where
  pub text_chunk_size : ℕ
  pub text_chunk_overlap : ℕ
  pub parent_chunk_size : ℕ

unfoldable pub init : ℕ → ℕ → ℕ → Outcome DualStrategyChunking
init text_chunk_size text_chunk_overlap parent_chunk_size =
    if leb text_chunk_size text_chunk_overlap
    then value_error
    else if ltb parent_chunk_size text_chunk_size
    then value_error
    else ok (record {
      text_chunk_size = text_chunk_size;
      text_chunk_overlap = text_chunk_overlap;
      parent_chunk_size = parent_chunk_size;
    })

abbrev pub text_types : List ElementType
text_types =
    ElementType.text ∷ ElementType.title ∷ ElementType.list ∷ ElementType.header
    ∷ ElementType.footer ∷ ElementType.figure_caption ∷ ElementType.formula ∷ []

abbrev pub skip_types : List ElementType
skip_types = ElementType.page_break ∷ ElementType.image ∷ []

-- The branch that an element's type takes.
pub data Kind : Type 0 where
  skipped table text unknown : Kind

unfoldable pub kind : ElementType → Kind
unfolding contains
kind t =
    if contains skip_types t
    then Kind.skipped
    else if t == ElementType.table
    then Kind.table
    else if contains text_types t
    then Kind.text
    else Kind.unknown

pub data Segment (Box : Type 0) : Type 0 where
  text : List ℕ → Metadata → Segment Box
  table : DocumentChunk Box → Segment Box

-- What an emitting loop yields, with the running index and the count of ids drawn so far.
pub record Emitted (Box : Type 0) : Type 0 where
  pub chunks : List (DocumentChunk Box)
  pub index : ℕ
  pub ids : ℕ

module _ {Box : Type 0} where
  abbrev pub flush : List ℕ → Metadata → List (Segment Box)
  flush [] metadata = []
  flush (t ∷ ts) metadata = Segment.text (t ∷ ts) metadata ∷ []

  abbrev pub nothing : ℕ → ℕ → Emitted Box
  nothing index ids = record { chunks = []; index = index; ids = ids }

  abbrev pub prepend : DocumentChunk Box → Emitted Box → Emitted Box
  prepend c e = record e { chunks = c ∷ e.chunks }

  -- A table is one chunk of its own.
  abbrev pub table_chunk : DocumentChunk Box → ℕ → DocumentChunk Box
  table_chunk el chunk_index = record {
    text = el.text;
    element_type = ElementType.table;
    content_format = if el.content_format == "text" then "html" else el.content_format;
    metadata = Dict.put el.metadata "chunk_index" (Value.int chunk_index);
    parent_id = none;
    coordinates = el.coordinates;
    index_version = 1;
  }

  abbrev pub text_chunk : String → Metadata → String → String → ℕ → ℕ → DocumentChunk Box
  text_chunk level metadata parent_id content chunk_index token_count = record {
    text = content;
    element_type = ElementType.text;
    content_format = "text";
    metadata =
        Dict.put
          (Dict.put (Dict.put metadata "chunk_index" (Value.int chunk_index)) "token_count"
            (Value.int token_count))
          "chunk_level" (Value.str level);
    parent_id = some parent_id;
    coordinates = none;
    index_version = 1;
  }

-- `fresh n` is the text of the n-th id that `uuid4()` gives.
module _ {Box : Type 0} (enc : Tokenizer) (fresh : ℕ → String) (s : DualStrategyChunking) where
  -- The first pass, from the text tokens and the metadata accumulated so far.
  unfoldable pub collect : List ℕ → Metadata → List (DocumentChunk Box) → List (Segment Box)
  collect ts metadata [] = flush ts metadata
  collect ts metadata (el ∷ els) =
      let tokens = enc.encode el.text in
      elim (kind el.element_type) [
        | skipped ↦ collect ts metadata els
        | table ↦ flush ts metadata ++ Segment.table el ∷ collect [] [] els
        | text ↦
            collect (ts ++ tokens)
              (if is_empty ts && not (is_empty tokens) then el.metadata else metadata) els
        | unknown ↦ collect (ts ++ tokens) metadata els
      ]

  -- The inner loop over the child chunks of one parent.
  unfoldable pub children : Metadata → String → List ℕ → ℕ → ℕ → ℕ → ℕ → Emitted Box
  children metadata parent_id parent_tokens zero child_start index ids = nothing index ids
  children metadata parent_id parent_tokens (suc fuel) child_start index ids =
      let n = length parent_tokens in
      let step = s.text_chunk_size - s.text_chunk_overlap in
      let child_end = min (child_start + s.text_chunk_size) n in
      let child_tokens = slice parent_tokens child_start child_end in
      let skip = children metadata parent_id parent_tokens fuel (child_start + step) index ids in
      let next =
        children metadata parent_id parent_tokens fuel (child_start + step) (index + 1) ids in
      if ltb child_start n
      then elim (enc.decode child_tokens) [
        | none ↦ skip
        | some child_text ↦
            prepend (text_chunk "child" metadata parent_id child_text index (length child_tokens))
              (if leb n child_end then nothing (index + 1) ids else next)
      ]
      else nothing index ids

  -- The parents of a text segment, each followed by its children.
  unfoldable pub parents : Metadata → List ℕ → ℕ → ℕ → ℕ → ℕ → Emitted Box
  parents metadata text_tokens zero parent_start index ids = nothing index ids
  parents metadata text_tokens (suc fuel) parent_start index ids =
      let n = length text_tokens in
      let parent_end = min (parent_start + s.parent_chunk_size) n in
      let parent_tokens = slice text_tokens parent_start parent_end in
      let parent_id = fresh ids in
      let kids =
        children metadata parent_id parent_tokens (suc (length parent_tokens)) 0 (index + 1)
          (suc ids) in
      let skip = parents metadata text_tokens fuel parent_end index (suc ids) in
      let next = parents metadata text_tokens fuel parent_end kids.index kids.ids in
      if ltb parent_start n
      then elim (enc.decode parent_tokens) [
        | none ↦ skip
        | some parent_text ↦
            prepend
              (text_chunk "parent" metadata parent_id parent_text index (length parent_tokens))
              (record next { chunks = kids.chunks ++ next.chunks })
      ]
      else nothing index ids

  unfoldable pub emit_segment : Segment Box → ℕ → ℕ → Emitted Box
  emit_segment (Segment.table el) index ids = record {
    chunks = table_chunk el index ∷ [];
    index = index + 1;
    ids = ids;
  }
  emit_segment (Segment.text text_tokens metadata) index ids =
      parents metadata text_tokens (suc (length text_tokens)) 0 index ids

  unfoldable pub emit_segments : List (Segment Box) → ℕ → ℕ → Emitted Box
  emit_segments [] index ids = nothing index ids
  emit_segments (segment ∷ segments) index ids =
      let here = emit_segment segment index ids in
      let rest = emit_segments segments here.index here.ids in
      record rest { chunks = here.chunks ++ rest.chunks }

  -- `_chunk_impl`
  unfoldable pub chunk : List (DocumentChunk Box) → List (DocumentChunk Box)
  chunk elements = (emit_segments (collect [] [] elements) 0 0).chunks
