-- ===== src/Ingest/Pipeline/Tests.antt =====
-- Runs of the pipeline on a table with one document, and the theorems at these runs.
use vektra_stack.Prelude.{
  ℕ, ◌+◌, ◌≡◌, refl, Bool, true, false, Option, none, some, List, [], ◌∷◌, String, map, arith,
}
use vektra_stack.Prelude.Tests.{if◌then◌else◌}
use vektra_stack.Prelude.Lists.{length, get_elem?}
use vektra_stack.Prelude.Eq.{nat_eq, string_eq, ◌==◌, contains}
use vektra_stack.Prelude.Dict
use vektra_stack.Shared.Types
use vektra_stack.Shared.Types.{ElementType, Value, DocumentChunk}
use vektra_stack.Ingest.Chunking.{Tokenizer}
use vektra_stack.Ingest.Chunking.Fixed
use vektra_stack.Ingest.Chunking.Dual
use vektra_stack.Ingest.Chunking.Dual.{DualStrategyChunking}
use vektra_stack.Ingest.Pipeline.Documents.{
  SourceDocument, clashes, write, find_by_hash, find_by_name,
}
use vektra_stack.Ingest.Pipeline.Embeddings.{
  ChunkEmbedding, is_level, link_of, chunk_embeddings, parent_stored_ids,
}
use vektra_stack.Ingest.Pipeline.World.{
  value, Services, IngestConfig, IngestResult, Request, Commit, Moment, World, ingested, failed,
  Status,
}
use vektra_stack.Ingest.Pipeline.Content.{chunk_elements, process}
use vektra_stack.Ingest.Pipeline.Run
use vektra_stack.Ingest.Pipeline.Links.{
  stored_all, StoredParent, dual_chunk-StoredParent, stored_link-StoredParent,
}
use vektra_stack.Ingest.Pipeline.Names.{Indexed}
use vektra_stack.Ingest.Pipeline.Isolation.{run_ingest_others}
use vektra_stack.Ingest.Pipeline.Held.{Unmarked, SameActive}
use vektra_stack.Ingest.Pipeline.Rollback.{Quiet, failed_run-SameActive}
use vektra_stack.Ingest.Pipeline.Answers.{Answered}
use vektra_stack.Ingest.Pipeline.Success.{ingested_run-Answered}
use vektra_stack.Ingest.Pipeline.Repeat.{Considerate, Repeated, run_ingest-Repeated}

abbrev toy : Tokenizer
toy = record { encode = λ t. if t == "" then [] else 1 ∷ 2 ∷ 3 ∷ []; decode = λ ts. some "words" }

abbrev element : DocumentChunk ℕ
element = record {
  text = "Body";
  element_type = ElementType.text;
  content_format = "text";
  metadata = [];
  parent_id = none;
  coordinates = none;
  index_version = 1;
}

-- A store that counts its chunks; `embeds` says whether the provider of the vectors is there.
abbrev pub services : Bool → Services ℕ
services embeds = record {
  sha256 = λ bytes. elim bytes [ [] ↦ "nothing" | b ∷ bs ↦ if b == 1 then "one" else "other" ];
  detect_content_type = λ bytes name. "text/plain";
  get_extractor = λ t. some (λ bytes. value (element ∷ []));
  tokenizer = toy;
  fresh = λ n. "parent";
  id_text = λ n. "doc";
  uuid5 = λ d i. if i == 0 then "first" else "next";
  Dense = ℕ;
  Sparse = ℕ;
  Store = ℕ;
  embedding = if embeds then some (λ ts. some (map (λ t. 7) ts)) else none;
  sparse_embedding = none;
  has_vector_store = true;
  store = λ s namespace es. (s + length es, some (map (λ e. e.chunk_id) es));
  delete = λ s namespace id. s;
  has_events = true;
}

abbrev pub config : IngestConfig
config = record { chunking_strategy = "fixed"; chunk_size = 6; chunk_overlap = 2 }

abbrev row : SourceDocument
row = record {
  namespace_id = "law";
  filename = "a.txt";
  content_hash = "one";
  content_type = "text/plain";
  file_size_bytes = 1;
  chunk_count = some 1;
  version = 4;
  supersedes_id = none;
  filename_aliases = [];
  deleted_at = none;
  deletion_reason = none;
}

abbrev pub world : World ℕ
world = record { documents = (0, row) ∷ []; store = 1; events = []; phases = [] }

-- Another content under the name of the row
abbrev pub revision : Request
revision = record {
  file_content = 2 ∷ [];
  filename = "a.txt";
  namespace = "law";
  extra_metadata = [];
}

abbrev pub moment : Moment
moment = record {
  document_id = 5;
  now = 100;
  before_insert = λ docs. docs;
  before_end = λ docs. docs;
  flush_ok = true;
  name_reported = true;
  commit = Commit.done;
  cleanup_session = true;
  restore_session = true;
  count_session = true;
  name_lookup = true;
  supersede_session = true;
  alias_session = true;
}

good_run :
    (Run.run_ingest (services true) config revision moment world).1
    ≡ ingested (record {
      status = Status.new;
      document_id = 5;
      chunk_count = some 1;
      alias_count = none;
      version = 5;
      supersedes_id = some 0;
    })
unfolding Run.run_ingest Run.deduplicate Run.supersede Run.insert_document Run.dispatch
    Run.flush_row Run.commit_row Run.processed Run.finish find_by_hash find_by_name write clashes
    Dict.get Dict.put process chunk_elements Fixed.init Fixed.chunk Fixed.gather Fixed.emit
    chunk_embeddings parent_stored_ids
good_run = refl

bad_run : (Run.run_ingest (services false) config revision moment world).1 ≡ failed "ERR-INGEST-004"
unfolding Run.run_ingest Run.deduplicate Run.supersede Run.insert_document Run.dispatch
    Run.flush_row Run.commit_row Run.processed Run.fail find_by_hash find_by_name write clashes
    Dict.get Dict.put process chunk_elements Fixed.init Fixed.chunk Fixed.gather Fixed.emit
bad_run = refl

pub world-Indexed : Indexed world.documents
unfolding Dict.get
world-Indexed = (
  λ i j a b x y u v s. ground (arith, nat_eq.beq_iff 0 i, nat_eq.beq_iff 0 j),
  λ i j a b x y u v s. ground (arith, nat_eq.beq_iff 0 i, nat_eq.beq_iff 0 j),
)

pub world-Distinct : Dict.Distinct world.documents
unfolding Dict.get
world-Distinct = (refl, tt)

world-Unmarked : Unmarked world.documents
unfolding Dict.get
world-Unmarked j b e a = ground (arith, nat_eq.beq_iff 0 j)

five_free : Dict.get world.documents 5 ≡ none
unfolding Dict.get
five_free = refl

moment-Quiet : Quiet moment
moment-Quiet = record {
  insert_quiet = λ docs. refl;
  end_quiet = λ docs. refl;
  cleans = refl;
  restores = refl;
}

moment-Considerate : Considerate moment
moment-Considerate = record {
  insert_distinct = λ docs d. d;
  end_distinct = λ docs d. d;
  insert_indexed = λ docs u. u;
  end_indexed = λ docs u. u;
  end_keeps = λ docs row e. e;
}

-- The name and the content of the revision, in another namespace
abbrev elsewhere : SourceDocument
elsewhere = record row { namespace_id = "tax"; content_hash = "other" }

abbrev shared : World ℕ
shared = record { documents = (0, row) ∷ (3, elsewhere) ∷ []; store = 1; events = []; phases = [] }

shared-Distinct : Dict.Distinct shared.documents
unfolding Dict.get
shared-Distinct = (refl, (refl, tt))

three_there : Dict.get shared.documents 3 ≡ some elsewhere
unfolding Dict.get
three_there = refl

shared_five_free : Dict.get shared.documents 5 ≡ none
unfolding Dict.get
shared_five_free = refl

run_ingest_others_example :
    Dict.get (Run.run_ingest (services true) config revision moment shared).0.documents 3
    ≡ some elsewhere
run_ingest_others_example =
    run_ingest_others (services true) config revision moment shared 3 elsewhere (λ docs u. u)
      (λ docs u. u) shared-Distinct shared_five_free three_there refl

failed_run-SameActive_example :
    SameActive world.documents
      (Run.run_ingest (services false) config revision moment world).0.documents
failed_run-SameActive_example =
    failed_run-SameActive (services false) config revision moment world moment-Quiet world-Distinct
      world-Indexed world-Unmarked five_free (rw bad_run refl)

ingested_run-Answered_example :
    Answered "other" revision
      (Run.run_ingest (services true) config revision moment world).0.documents
      (Run.run_ingest (services true) config revision moment world).1
ingested_run-Answered_example =
    ingested_run-Answered (services true) config revision moment world (λ docs row e. e)
      world-Distinct world-Indexed (rw good_run refl)

abbrev revised : IngestResult
revised = record {
  status = Status.new;
  document_id = 5;
  chunk_count = some 1;
  alias_count = none;
  version = 5;
  supersedes_id = some 0;
}

run_ingest-Repeated_example :
    Repeated revised (Run.run_ingest (services true) config revision moment world).0 (
      Run.run_ingest
        (services true)
        config
        revision
        moment
        (Run.run_ingest (services true) config revision moment world).0)
run_ingest-Repeated_example =
    run_ingest-Repeated (services true) config revision moment moment world revised
      moment-Considerate world-Distinct world-Indexed good_run

-- The chunks of two paragraphs, in parents of four tokens
abbrev dual : DualStrategyChunking
dual = record { text_chunk_size = 3; text_chunk_overlap = 1; parent_chunk_size = 4 }

abbrev names : ℕ → String
names n = if n == 0 then "p0" else "p1"

abbrev places : ℕ → String
places i = if i == 0 then "s0" else if i == 1 then "s1" else "s2"

abbrev chunks : List (DocumentChunk ℕ)
chunks = Dual.chunk toy names dual (element ∷ element ∷ [])

abbrev child_chunk : DocumentChunk ℕ
child_chunk = Dual.text_chunk "child" [] "p0" "words" 1 3

abbrev vectors : List ℕ
vectors = 1 ∷ 2 ∷ 3 ∷ 4 ∷ 5 ∷ []

abbrev no_sparse : List (Option ℕ)
no_sparse = none ∷ none ∷ none ∷ none ∷ none ∷ []

five_chunks : 5 ≡ length chunks
unfolding Dual.chunk Dual.collect Dual.kind Dual.emit_segments Dual.emit_segment Dual.parents
    Dual.children contains
five_chunks = refl

child_there : get_elem? chunks 1 ≡ some child_chunk
unfolding Dual.chunk Dual.collect Dual.kind Dual.emit_segments Dual.emit_segment Dual.parents
    Dual.children contains Dict.put
child_there = refl

child_level : is_level "child" child_chunk ≡ true
unfolding Dict.get Dict.put
child_level = refl

dual_chunk-StoredParent_example :
    (x : ChunkEmbedding ℕ ℕ) × (p : String) × (get_elem?
        (stored_all places "doc" "text/plain" [] chunks vectors no_sparse five_chunks five_chunks)
        1
      ≡ some x)
    × (x.parent_id ≡ some p)
    × StoredParent places "doc" "text/plain" [] chunks vectors no_sparse five_chunks five_chunks
        "p0" p
dual_chunk-StoredParent_example =
    dual_chunk-StoredParent toy names dual (element ∷ element ∷ []) places "doc" "text/plain" []
      vectors no_sparse five_chunks five_chunks 1 child_chunk "p0" child_there child_level refl

abbrev stored_child : ChunkEmbedding ℕ ℕ
stored_child = record {
  chunk_id = "s1";
  text = "words";
  dense = 2;
  sparse = none;
  metadata =
      ("chunk_index", Value.int 1)
      ∷ ("token_count", Value.int 3)
      ∷ ("chunk_level", Value.str "child")
      ∷ ("document_id", Value.str "doc")
      ∷ ("content_type", Value.str "text/plain")
      ∷ ("element_type", Value.str "text")
      ∷ ("position", Value.int 1)
      ∷ [];
  parent_id = some "s0";
}

stored_there :
    get_elem?
      (stored_all places "doc" "text/plain" [] chunks vectors no_sparse five_chunks five_chunks)
      1
    ≡ some stored_child
unfolding Dual.chunk Dual.collect Dual.kind Dual.emit_segments Dual.emit_segment Dual.parents
    Dual.children contains Dict.put Dict.get chunk_embeddings parent_stored_ids Types.value
stored_there = refl

stored_link-StoredParent_example :
    (c : DocumentChunk ℕ) × (link : String) × (get_elem? chunks 1 ≡ some c)
    × (is_level "child" c ≡ true)
    × (link_of c.parent_id ≡ some link)
    × StoredParent places "doc" "text/plain" [] chunks vectors no_sparse five_chunks five_chunks
        link "s0"
stored_link-StoredParent_example =
    stored_link-StoredParent places "doc" "text/plain" [] chunks vectors no_sparse five_chunks
      five_chunks 1 stored_child "s0" stored_there refl
