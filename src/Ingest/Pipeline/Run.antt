-- ===== src/Ingest/Pipeline/Run.antt =====
-- vektra_ingest/pipeline.py: `run_ingest`, stage by stage. A stage is a function of the value that the code
-- branches on. Step 0 is left out: the namespace of a document is there before the document is.
use vektra_stack.Prelude.{
  ℕ, ◌+◌, ◌-◌, Bool, true, false, not, ◌&&◌, ◌||◌, Option, none, some, List, [], ◌∷◌, ◌++◌, String,
}
use vektra_stack.Prelude.Tests.{if◌then◌else◌}
use vektra_stack.Prelude.Lists.{length}
use vektra_stack.Prelude.Eq.{string_eq, ◌==◌, contains}
use vektra_stack.Shared.Types.{DocumentChunk}
use vektra_stack.Ingest.Pipeline.Documents.{
  SourceDocument, Documents, Found, no_row, several, one_row, find_by_hash, find_by_name, looked_up,
  soft_deleted, update, write, committed, clashes, same_name, same_hash, cleanup_document,
  restore_superseded_document,
}
use vektra_stack.Ingest.Pipeline.Content.{process}
use vektra_stack.Ingest.Pipeline.World.{
  Outcome, value, ingest_error, exception, Services, IngestConfig, Request, Commit, Moment, Status,
  Ingest, ingested, conflict_error, failed, raised, Event, World, Plan, emit, with_documents,
}

module _ {Box : Type 0} (v : Services Box) (config : IngestConfig) (r : Request) (m : Moment) where
  abbrev pub content_hash : String
  content_hash = v.sha256 r.file_content

  -- Step 1: the same content is there already.
  abbrev pub add_alias : SourceDocument → List String
  add_alias d =
      if contains d.filename_aliases r.filename
      then d.filename_aliases
      else d.filename_aliases ++ r.filename ∷ []

  abbrev pub alias_result : ℕ → SourceDocument → Ingest
  alias_result id d = ingested (record {
    status = Status.alias;
    document_id = id;
    chunk_count = none;
    alias_count = some (length (add_alias d));
    version = d.version;
    supersedes_id = d.supersedes_id;
  })

  abbrev pub write_alias : World v.Store → ℕ → SourceDocument → World v.Store
  write_alias w id d =
      with_documents
        (committed w.documents true
          (update w.documents id (λ x. record x { filename_aliases = add_alias d })))
        w

  abbrev pub aliased : World v.Store → ℕ → SourceDocument → World v.Store × Ingest
  aliased w id d =
      if contains d.filename_aliases r.filename
      then (w, alias_result id d)
      else (if m.alias_session then (write_alias w id d, alias_result id d) else (w, raised))

  abbrev pub exists_result : ℕ → SourceDocument → Ingest
  exists_result id d = ingested (record {
    status = Status.exists;
    document_id = id;
    chunk_count = none;
    alias_count = none;
    version = d.version;
    supersedes_id = d.supersedes_id;
  })

  abbrev pub duplicate : World v.Store → ℕ → SourceDocument → World v.Store × Ingest
  duplicate w id d = if d.filename == r.filename then (w, exists_result id d) else aliased w id d

  -- The two `except` blocks: clean up, restore, tell, raise.
  abbrev pub cleaned_up : Documents → Option ℕ → Documents
  cleaned_up docs none = docs
  cleaned_up docs (some id) = cleanup_document docs m.cleanup_session id m.now

  abbrev pub put_back : Documents → Option ℕ → Documents
  put_back docs none = docs
  put_back docs (some id) = restore_superseded_document docs m.restore_session id

  unfoldable pub fail : World v.Store → Plan → Option ℕ → Ingest → World v.Store × Ingest
  fail w p doc_id error = (
    emit v.has_events (Event.document_failed doc_id)
        (with_documents (put_back (cleaned_up w.documents doc_id) p.supersedes_id) w),
    error,
  )

  -- Step 7b and 8: the old chunks go, the count is written, the events are sent.
  abbrev pub finish_superseded : World v.Store → Plan → World v.Store
  finish_superseded w p = elim p.supersedes_id [
    | none ↦ w
    | some old ↦
        emit v.has_events (Event.superseded old (p.version - 1) p.version)
          (record w { store = v.delete w.store r.namespace old })
  ]

  abbrev pub count_chunks : World v.Store → ℕ → World v.Store
  count_chunks w n =
      with_documents
        (committed w.documents m.count_session
          (update w.documents m.document_id (λ d. record d { chunk_count = some n })))
        w

  unfoldable pub finish : World v.Store → Plan → List String → World v.Store × Ingest
  finish w p chunk_ids = (
    emit v.has_events (Event.indexed m.document_id (length chunk_ids))
        (count_chunks (finish_superseded w p) (length chunk_ids)),
    ingested (record {
      status = Status.new;
      document_id = m.document_id;
      chunk_count = some (length chunk_ids);
      alias_count = none;
      version = p.version;
      supersedes_id = p.supersedes_id;
    }),
  )

  unfoldable pub processed : Plan → World v.Store × Outcome (List String) → World v.Store × Ingest
  processed p (w, value chunk_ids) = finish w p chunk_ids
  processed p (w, ingest_error code) = fail w p (some m.document_id) (failed code)
  processed p (w, exception) = fail w p (some m.document_id) (failed "ERR-INGEST-004")

  -- Step 5: the new row, its flush and its commit
  abbrev pub new_row : Plan → String → SourceDocument
  new_row p content_type = record {
    namespace_id = r.namespace;
    filename = r.filename;
    content_hash = content_hash;
    content_type = content_type;
    file_size_bytes = length r.file_content;
    chunk_count = none;
    version = p.version;
    supersedes_id = p.supersedes_id;
    filename_aliases = [];
    deleted_at = none;
    deletion_reason = none;
  }

  -- Other sessions run while the content is processed.
  unfoldable pub commit_row :
      World v.Store
      → Plan
      → String
      → (List ℕ → Outcome (List (DocumentChunk Box)))
      → Documents
      → Commit
      → World v.Store × Ingest
  commit_row w p content_type extract docs Commit.done =
      processed p (
        process v r content_type m.document_id config (with_documents (m.before_end docs) w)
          extract)
  commit_row w p content_type extract docs Commit.name_taken = fail w p none conflict_error
  commit_row w p content_type extract docs Commit.integrity =
      fail w p none (failed "ERR-INGEST-004")
  commit_row w p content_type extract docs Commit.lost =
      fail w p (some m.document_id) (failed "ERR-INGEST-004")

  -- Where both indexes are broken, the database names one of them.
  abbrev pub flush_error : Documents → SourceDocument → Ingest
  flush_error docs d =
      if clashes same_name docs m.document_id d
        && (m.name_reported || not (clashes same_hash docs m.document_id d))
      then conflict_error
      else failed "ERR-INGEST-004"

  unfoldable pub flush_row :
      World v.Store
      → Plan
      → String
      → (List ℕ → Outcome (List (DocumentChunk Box)))
      → Bool
      → Option Documents
      → World v.Store × Ingest
  flush_row w p content_type extract true (some docs) =
      commit_row w p content_type extract docs m.commit
  flush_row w p content_type extract true none =
      fail w p none (flush_error w.documents (new_row p content_type))
  flush_row w p content_type extract false o = fail w p none (failed "ERR-INGEST-004")

  -- Steps 3 and 4
  unfoldable pub dispatch :
      World v.Store
      → Plan
      → String
      → Option (List ℕ → Outcome (List (DocumentChunk Box)))
      → World v.Store × Ingest
  dispatch w p content_type none = fail w p none (failed "ERR-INGEST-001")
  dispatch w p content_type (some extract) =
      flush_row w p content_type extract m.flush_ok
        (write w.documents m.document_id (new_row p content_type))

  unfoldable pub insert_document : World v.Store → Plan → World v.Store × Ingest
  insert_document w p =
      let content_type = v.detect_content_type r.file_content r.filename in
      dispatch (with_documents (m.before_insert w.documents) w) p content_type
        (v.get_extractor content_type)

  -- Step 2: another content under the same name is superseded.
  unfoldable pub supersede : World v.Store → Found → World v.Store × Ingest
  supersede w no_row = insert_document w (record { version = 1; supersedes_id = none })
  supersede w several = (w, raised)
  supersede w (one_row id d) =
      if m.supersede_session
      then insert_document
          (with_documents
            (committed w.documents true (update w.documents id (soft_deleted m.now "superseded")))
            w)
          (record { version = d.version + 1; supersedes_id = some id })
      else (w, raised)

  unfoldable pub deduplicate : World v.Store → Found → World v.Store × Ingest
  deduplicate w no_row =
      supersede w (looked_up m.name_lookup (find_by_name w.documents r.namespace r.filename))
  deduplicate w several = (w, raised)
  deduplicate w (one_row id d) = duplicate w id d

  unfoldable pub run_ingest : World v.Store → World v.Store × Ingest
  run_ingest w = deduplicate w (find_by_hash w.documents r.namespace content_hash)
