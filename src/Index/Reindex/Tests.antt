-- ===== src/Index/Reindex/Tests.antt =====
-- Runs of a reindex job, and the theorems at these runs.
use vektra_stack.Prelude.{ℕ, ◌+◌, ◌≡◌, refl, Bool, true, false, Option, none, some, [], ◌∷◌, map}
use vektra_stack.Prelude.Lists.{length, get_elem?}
use vektra_stack.Prelude.Eq.{nat_eq, string_eq, ◌==◌, contains}
use vektra_stack.Prelude.Tests.{if◌then◌else◌}
use mathlib.Core.Option
use vektra_stack.Prelude.Dict
use vektra_stack.Ingest.Pipeline.Documents.{SourceDocument}
use vektra_stack.Ingest.Pipeline.Embeddings.{ChunkEmbedding}
use vektra_stack.Index.Reindex.{
  Providers, StoredChunk, JobStatus, World, Statements, update_job, reindex_documents, rewrite,
  id_map, document_ids, run_reindex,
}
use vektra_stack.Index.Reindex.Rewrite.{Distinct, rewritten, rewritten_link}
use vektra_stack.Index.Reindex.Ends.{Settled, run_reindex-Settled}
use vektra_stack.Index.Reindex.Routes.{
  trigger_reindex, reindex_status, new_job, refused, reindex_target_conflict, reindex_job_not_found,
}

abbrev parent : StoredChunk ℕ
parent = record {
  chunk_id = "a";
  text = "one two";
  metadata = [];
  position = 0;
  parent_id = none;
  sparse = none;
}

abbrev child : StoredChunk ℕ
child = record {
  chunk_id = "b";
  text = "one";
  metadata = [];
  position = 1;
  parent_id = some "a";
  sparse = none;
}

-- A store that lists the same two chunks for every document
abbrev providers : Providers
providers = record {
  Dense = ℕ;
  Sparse = ℕ;
  Store = ℕ;
  id_text = λ n. "doc";
  target_chunk_id = λ d p t. if p == 0 then "a2" else "b2";
  embedding = some (λ ts. some (map (λ t. 7) ts));
  has_vector_store = true;
  list_chunks = λ s ns d. some (parent ∷ child ∷ []);
  store = λ s ns t es. (s + length es, some (map (λ e. e.chunk_id) es));
}

abbrev document : SourceDocument
document = record {
  namespace_id = "law";
  filename = "a.txt";
  content_hash = "one";
  content_type = "text/plain";
  file_size_bytes = 1;
  chunk_count = some 2;
  version = 1;
  supersedes_id = none;
  filename_aliases = [];
  deleted_at = none;
  deletion_reason = none;
}

abbrev world : World ℕ
world = record { documents = (3, document) ∷ []; jobs = (9, new_job "law" 1 2) ∷ []; store = 2 }

job_there : Dict.get world.jobs 9 ≡ some (new_job "law" 1 2)
unfolding Dict.get
job_there = refl

abbrev statements : Bool → Bool → Statements
statements progress failed = record {
  counted = true;
  listed = true;
  running = true;
  total = true;
  progress = λ i. progress;
  completed = true;
  failed = failed;
}

job_completes :
    Dict.get (run_reindex providers 9 "law" 1 2 (statements true true) 1 world).jobs 9
    ≡ some (record {
      namespace_id = "law";
      source_index_version = 1;
      target_index_version = 2;
      status = JobStatus.completed;
      total_documents = 1;
      processed_documents = 1;
      chunks_reindexed = 2;
    })
unfolding run_reindex reindex_documents rewrite id_map update_job Dict.get Dict.put
job_completes = refl

abbrev status_after : Statements → Option JobStatus
status_after u =
    Option.map (λ j. j.status) (Dict.get (run_reindex providers 9 "law" 1 2 u 1 world).jobs 9)

-- The progress of the document is not saved.
job_fails : status_after (statements false true) ≡ some JobStatus.failed
unfolding run_reindex reindex_documents rewrite id_map update_job Dict.get Dict.put
job_fails = refl

-- Nor is the failure.
job_stays : status_after (statements false false) ≡ some JobStatus.running
unfolding run_reindex reindex_documents rewrite id_map update_job Dict.get Dict.put
job_stays = refl

run_reindex-Settled_example :
    Settled providers 9 "law" 1 2
      (statements false true)
      JobStatus.pending
      (length (document_ids providers 9 "law" 1 2 world.documents))
      1
      (run_reindex providers 9 "law" 1 2 (statements false true) 1 world)
run_reindex-Settled_example =
    run_reindex-Settled providers 9 "law" 1 2 1 (statements false true) world (new_job "law" 1 2)
      job_there refl refl

target_conflict :
    trigger_reindex 1 9 (some "law") "tax" 1 world ≡ (world, refused reindex_target_conflict)
unfolding trigger_reindex
target_conflict = refl

status_hidden : reindex_status (some "tax") 9 world ≡ refused reindex_job_not_found
unfolding reindex_status Dict.get
status_hidden = refl

two_ids : Distinct (parent ∷ child ∷ [])
unfolding contains
two_ids = (refl, (refl, tt))

rewritten_link_example :
    (x y : ChunkEmbedding ℕ ℕ) × (get_elem?
        (rewritten providers 9 "law" 1 2 3 (parent ∷ child ∷ []) (4 ∷ 5 ∷ []))
        1
      ≡ some x)
    × (get_elem? (rewritten providers 9 "law" 1 2 3 (parent ∷ child ∷ []) (4 ∷ 5 ∷ [])) 0 ≡ some y)
    × (x.parent_id ≡ some y.chunk_id)
    × (y.chunk_id ≡ "a2")
rewritten_link_example =
    rewritten_link providers 9 "law" 1 2 3 (parent ∷ child ∷ []) (4 ∷ 5 ∷ []) 1 0 child parent
      two_ids refl refl refl refl refl
