-- ===== src/Ingest/Chunking/Tests.antt =====
-- Both chunkers on a small document, and the theorems at that document.
use vektra_stack.Prelude.{
  ℕ, zero, suc, ◌-◌, min, Bool, true, false, not, ◌+◌, ◌*◌, ◌≤◌, ◌<◌, ◌≡◌, refl, sym, subst, Option,
  none, some, List, [], ◌∷◌, String, map, arith,
}
use vektra_stack.Prelude.Tests.{ltb, if◌then◌else◌}
use vektra_stack.Prelude.Lists.{length, get_elem?, All, select, any, take, drop}
use vektra_stack.Prelude.Eq.{string_eq, ◌==◌}
use vektra_stack.Prelude.Int.{pos, negsuc}
use vektra_stack.Prelude.Dict
use vektra_stack.Shared.Types.{ElementType, Value, DocumentChunk}
use vektra_stack.Ingest.Chunking.{Tokenizer, ok, value_error}
use vektra_stack.Ingest.Chunking.Fixed
use vektra_stack.Ingest.Chunking.Fixed.{FixedSizeChunking, gather, gathered, window}
use vektra_stack.Ingest.Chunking.Fixed.Windows.{has_window, chunk_at}
use vektra_stack.Ingest.Chunking.Fixed.Coverage.{
  CountFits, chunk-CountFits, get_elem?-chunk, chunk_covers,
}
use vektra_stack.Ingest.Chunking.Dual
use vektra_stack.Ingest.Chunking.Dual.{
  DualStrategyChunking, collect, kind, children, parents, emit_segment, emit_segments,
}
use vektra_stack.Ingest.Chunking.Dual.Fuel.{loops_end}
use vektra_stack.Ingest.Chunking.Dual.Hierarchy.{Indexed, Linked, chunk_hierarchy}
use vektra_stack.Ingest.Chunking.Dual.Tables.{is_table, seen, tables_kept}

-- A tokenizer with five tokens for every text but the empty one.
abbrev toy : Tokenizer
toy = record {
  encode = λ t. if t == "" then [] else 1 ∷ 2 ∷ 3 ∷ 4 ∷ 5 ∷ [];
  decode = λ ts. some "words";
}

abbrev element : ElementType → String → DocumentChunk ℕ
element t text = record {
  text = text;
  element_type = t;
  content_format = "text";
  metadata = ("page", Value.int 1) ∷ [];
  parent_id = none;
  coordinates = none;
  index_version = 1;
}

abbrev document : List (DocumentChunk ℕ)
document =
    element ElementType.title "Intro"
    ∷ element ElementType.image ""
    ∷ element ElementType.table "<td>1</td>"
    ∷ element ElementType.text "Body"
    ∷ []

abbrev fixed : FixedSizeChunking
fixed = record { chunk_size = 6; chunk_overlap = pos 2 }

abbrev dual : DualStrategyChunking
dual = record { text_chunk_size = 3; text_chunk_overlap = 1; parent_chunk_size = 4 }

fixed_rejected : Fixed.init 6 (pos 6) ≡ value_error
unfolding Fixed.init
fixed_rejected = refl

dual_accepted : Dual.init 3 1 4 ≡ ok dual
unfolding Dual.init
dual_accepted = refl

-- With a negative overlap a token between two windows is in none.
abbrev gap : FixedSizeChunking
gap = record { chunk_size = 2; chunk_overlap = negsuc 0 }

gap_accepted : Fixed.init 2 (negsuc 0) ≡ ok gap
unfolding Fixed.init
gap_accepted = refl

abbrev index_of : DocumentChunk ℕ → Option Value
index_of c = Dict.get c.metadata "chunk_index"

fixed_runs :
    map index_of (Fixed.chunk toy fixed document)
    ≡ some (Value.int 0) ∷ some (Value.int 1) ∷ some (Value.int 2) ∷ some (Value.int 3) ∷ []
unfolding Fixed.chunk Fixed.emit gather Dict.get Dict.put
fixed_runs = refl

-- The table has the title's parent and two children before it.
dual_runs :
    map (λ c. c.element_type) (Dual.chunk toy (λ n. "id") dual document)
    ≡ ElementType.text ∷ ElementType.text ∷ ElementType.text ∷ ElementType.text ∷ ElementType.text
      ∷ ElementType.table ∷ ElementType.text ∷ ElementType.text ∷ ElementType.text
      ∷ ElementType.text ∷ ElementType.text ∷ []
unfolding Dual.chunk collect kind children parents emit_segment emit_segments
dual_runs = refl

chunk-CountFits_example : All (CountFits fixed) (Fixed.chunk toy fixed document)
chunk-CountFits_example = chunk-CountFits ℕ toy fixed document

-- The ids of a small vocabulary.
abbrev known : ℕ → Bool
known t = ltb t 6

abbrev words_unless : Bool → Option String
words_unless true = none
words_unless false = some "words"

-- A tokenizer that raises on an id outside its vocabulary.
abbrev strict : Tokenizer
strict = record {
  encode = λ t. if t == "" then [] else 1 ∷ 2 ∷ 3 ∷ 4 ∷ 5 ∷ [];
  decode = λ ts. words_unless (any (λ t. not (known t)) ts);
}

drop_keeps :
    (n : ℕ) (ts : List ℕ) → All (λ t. known t ≡ true) ts → All (λ t. known t ≡ true) (drop n ts)
drop_keeps zero ts h = h
drop_keeps (suc n) [] h = h
drop_keeps (suc n) (t ∷ ts) h = drop_keeps n ts h.1

take_keeps :
    (n : ℕ) (ts : List ℕ) → All (λ t. known t ≡ true) ts → All (λ t. known t ≡ true) (take n ts)
take_keeps zero ts h = tt
take_keeps (suc n) [] h = tt
take_keeps (suc n) (t ∷ ts) h = (h.0, take_keeps n ts h.1)

none_unknown : (ts : List ℕ) → All (λ t. known t ≡ true) ts → any (λ t. not (known t)) ts ≡ false
none_unknown [] h = refl
none_unknown (t ∷ ts) h =
    subst (λ b. elim (not b) [ true ↦ true | false ↦ any (λ u. not (known u)) ts ] ≡ false)
      (sym h.0) (none_unknown ts h.1)

decodes_known : (ts : List ℕ) → All (λ t. known t ≡ true) ts → strict.decode ts ≡ some "words"
decodes_known ts h = subst (λ b. words_unless b ≡ some "words") (sym (none_unknown ts h)) refl

tokens_in_vocabulary : All (λ t. known t ≡ true) (gathered strict document).all_tokens
unfolding gather
tokens_in_vocabulary = (
  refl,
  (
    refl,
    (
      refl,
      (
        refl,
        (refl, (refl, (refl, (refl, (refl, (refl, (refl, (refl, (refl, (refl, (refl, tt))))))))))),
      ),
    ),
  ),
)

window_decodes :
    (start : ℕ)
    → start < length (gathered strict document).all_tokens
    → strict.decode (window fixed (gathered strict document).all_tokens start) ≡ some "words"
window_decodes start inside =
    let tokens = (gathered strict document).all_tokens in
    decodes_known (window fixed tokens start) (
      take_keeps (min (start + 6) (length tokens) - start) (drop start tokens)
        (drop_keeps start tokens tokens_in_vocabulary))

outside_vocabulary : strict.decode (7 ∷ []) ≡ none
outside_vocabulary = refl

get_elem?-chunk_example : get_elem? (Fixed.chunk strict fixed document) 2 ≡ (
    if has_window 6 2 (length (gathered strict document).all_tokens) 0 2
    then some (chunk_at strict fixed (gathered strict document) (λ ts. "words") 2 8)
    else none)
unfolding gather
get_elem?-chunk_example =
    get_elem?-chunk ℕ strict 6 2 (λ ts. "words") (omega arith) document window_decodes 2
      (ground arith)

chunk_covers_example :
    (k : ℕ) × (get_elem? (Fixed.chunk strict fixed document) k
      ≡ some (chunk_at strict fixed (gathered strict document) (λ ts. "words") k (k * 4)))
    × (k * 4 ≤ 7)
    × (7 < k * 4 + 6)
unfolding gather
chunk_covers_example =
    chunk_covers ℕ strict 6 2 (λ ts. "words") (omega arith) document window_decodes 7 (ground arith)

chunk_hierarchy_example :
    Indexed 0 (Dual.chunk toy (λ n. "id") dual document)
    × Linked none (Dual.chunk toy (λ n. "id") dual document)
chunk_hierarchy_example = chunk_hierarchy ℕ toy (λ n. "id") dual document

tables_kept_example :
    map seen (select is_table (Dual.chunk toy (λ n. "id") dual document))
    ≡ ("<td>1</td>", "html", none) ∷ []
tables_kept_example = tables_kept ℕ toy (λ n. "id") dual document

loops_end_example :
    (parents {Box = ℕ} toy (λ n. "id") dual [] (1 ∷ 2 ∷ 3 ∷ 4 ∷ 5 ∷ []) 6 0 0 0
      ≡ parents toy (λ n. "id") dual [] (1 ∷ 2 ∷ 3 ∷ 4 ∷ 5 ∷ []) 20 0 0 0)
    × (children {Box = ℕ} toy (λ n. "id") dual [] "p" (1 ∷ 2 ∷ 3 ∷ 4 ∷ 5 ∷ []) 6 0 0 0
        ≡ children toy (λ n. "id") dual [] "p" (1 ∷ 2 ∷ 3 ∷ 4 ∷ 5 ∷ []) 20 0 0 0)
loops_end_example =
    loops_end toy (λ n. "id") dual 3 1 4 [] "p" (1 ∷ 2 ∷ 3 ∷ 4 ∷ 5 ∷ []) 20 0 0 dual_accepted
      (omega arith)
