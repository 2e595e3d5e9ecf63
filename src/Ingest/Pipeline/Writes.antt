-- ===== src/Ingest/Pipeline/Writes.antt =====
-- vektra_ingest/pipeline.py: what the writes to the rows of a run keep, the whole run keeps.
use vektra_stack.Prelude.{
  arith, ℕ, ◌≡◌, refl, subst, sym, Bool, true, false, inl, inr, ◌+◌, ◌-◌, Option, none, some, List,
  String,
}
use vektra_stack.Prelude.Tests.{if-cases, Bool-cases, if◌then◌else◌}
use vektra_stack.Prelude.Lists.{length}
use vektra_stack.Prelude.Eq.{nat_eq, string_eq, ◌==◌, contains}
use vektra_stack.Prelude.Dict
use vektra_stack.Shared.Types.{DocumentChunk}
use vektra_stack.Ingest.Pipeline.Documents.{
  SourceDocument, Documents, Found, no_row, several, one_row, find_by_hash, find_by_name, looked_up,
  soft_deleted, restored, write, committed, update, write_over,
}
use vektra_stack.Ingest.Pipeline.World.{
  Outcome, value, ingest_error, exception, Services, IngestConfig, Request, Commit, Moment, World,
  Plan, Ingest, Event, emit, with_documents, failed, conflict_error, raised,
}
use vektra_stack.Ingest.Pipeline.Content.{process}
use vektra_stack.Ingest.Pipeline.Steps.{process-documents}
use vektra_stack.Ingest.Pipeline.Lookup.{looked_up-one_row}
use vektra_stack.Ingest.Pipeline.Run

-- A property of the tables that every write keeps to a row with an id of some kind
module _ (P : Documents → Type 0) (Q : ℕ → Type 0)
    (write_P : (m m' : Documents) (id : ℕ) (d : SourceDocument)
      → Q id
      → P m
      → write m id d ≡ some m'
      → P m') where
  abbrev Each : Option ℕ → Type 0
  Each none = Unit
  Each (some id) = Q id

  written_over_kept :
      (m m' : Documents) (id : ℕ) (f : SourceDocument → SourceDocument)
      (row : Option SourceDocument)
      → Q id
      → P m
      → write_over m id f row ≡ some m'
      → P m'
  written_over_kept m m' id f none q u e = ground arith
  written_over_kept m m' id f (some row) q u e = write_P m m' id (f row) q u e

  committed_kept :
      (m : Documents) (ok : Bool) (o : Option Documents)
      → P m
      → ((m' : Documents) → o ≡ some m' → P m')
      → P (committed m ok o)
  committed_kept m false o u h = u
  committed_kept m true none u h = u
  committed_kept m true (some m') u h = h m' refl

  update_kept :
      (m : Documents) (ok : Bool) (id : ℕ) (f : SourceDocument → SourceDocument)
      → Q id
      → P m
      → P (committed m ok (update m id f))
  update_kept m ok id f q u =
      committed_kept m ok (update m id f) u
        (λ m' e. written_over_kept m m' id f (Dict.get m id) q u e)

  module _ {Box : Type 0} (v : Services Box) (config : IngestConfig) (r : Request) (m : Moment)
      (insert_kept : (docs : Documents) → P docs → P (m.before_insert docs))
      (end_kept : (docs : Documents) → P docs → P (m.before_end docs)) (own : Q m.document_id) where
    emit_kept :
        (b : Bool) (event : Event) (w : World v.Store)
        → P w.documents
        → P (emit b event w).documents
    emit_kept true event w u = u
    emit_kept false event w u = u

    cleaned_up_kept :
        (docs : Documents) (o : Option ℕ) → Each o → P docs → P (Run.cleaned_up v config r m docs o)
    cleaned_up_kept docs none q u = u
    cleaned_up_kept docs (some id) q u =
        update_kept docs m.cleanup_session id (soft_deleted m.now "pipeline_failure") q u

    put_back_kept :
        (docs : Documents) (o : Option ℕ) → Each o → P docs → P (Run.put_back v config r m docs o)
    put_back_kept docs none q u = u
    put_back_kept docs (some id) q u = update_kept docs m.restore_session id restored q u

    fail_kept :
        (w : World v.Store) (p : Plan) (o : Option ℕ) (error : Ingest)
        → Each p.supersedes_id
        → Each o
        → P w.documents
        → P (Run.fail v config r m w p o error).0.documents
    unfolding Run.fail
    fail_kept w p o error old q u =
        emit_kept v.has_events (Event.document_failed o)
          (with_documents
            (Run.put_back v config r m (Run.cleaned_up v config r m w.documents o) p.supersedes_id)
            w)
          (put_back_kept (Run.cleaned_up v config r m w.documents o) p.supersedes_id old
            (cleaned_up_kept w.documents o q u))

    finish_superseded_kept :
        (w : World v.Store) (version : ℕ) (o : Option ℕ)
        → P w.documents
        → P
            (Run.finish_superseded v config r m w
              (record { version = version; supersedes_id = o })).documents
    finish_superseded_kept w version none u = u
    finish_superseded_kept w version (some old) u =
        emit_kept v.has_events (Event.superseded old (version - 1) version)
          (record w { store = v.delete w.store r.namespace old }) u

    count_chunks_kept :
        (w : World v.Store) (n : ℕ)
        → P w.documents
        → P (Run.count_chunks v config r m w n).documents
    count_chunks_kept w n u =
        update_kept w.documents m.count_session m.document_id
          (λ d. record d { chunk_count = some n }) own u

    processed_kept :
        (p : Plan) (w : World v.Store) (o : Outcome (List String))
        → Each p.supersedes_id
        → P w.documents
        → P (Run.processed v config r m p (w, o)).0.documents
    unfolding Run.processed Run.finish
    processed_kept p w (value ids) old u =
        emit_kept v.has_events (Event.indexed m.document_id (length ids))
          (Run.count_chunks v config r m (Run.finish_superseded v config r m w p) (length ids))
          (count_chunks_kept (Run.finish_superseded v config r m w p) (length ids)
            (finish_superseded_kept w p.version p.supersedes_id u))
    processed_kept p w (ingest_error code) old u =
        fail_kept w p (some m.document_id) (failed code) old own u
    processed_kept p w exception old u =
        fail_kept w p (some m.document_id) (failed "ERR-INGEST-004") old own u

    module _ (w : World v.Store) (p : Plan) (content_type : String)
        (old : Each p.supersedes_id) where
      commit_row_kept :
          (extract : List ℕ → Outcome (List (DocumentChunk Box))) (docs : Documents) (c : Commit)
          → P w.documents
          → P docs
          → P (Run.commit_row v config r m w p content_type extract docs c).0.documents
      unfolding Run.commit_row
      commit_row_kept extract docs Commit.done u u' =
          let ran =
            process v r content_type m.document_id config (with_documents (m.before_end docs) w)
              extract in
          processed_kept p ran.0 ran.1 old (
            subst P
              (sym (
                process-documents v r content_type m.document_id config
                  (with_documents (m.before_end docs) w) extract))
              (end_kept docs u'))
      commit_row_kept extract docs Commit.name_taken u u' =
          fail_kept w p none conflict_error old tt u
      commit_row_kept extract docs Commit.integrity u u' =
          fail_kept w p none (failed "ERR-INGEST-004") old tt u
      commit_row_kept extract docs Commit.lost u u' =
          fail_kept w p (some m.document_id) (failed "ERR-INGEST-004") old own u

      flush_row_kept :
          (extract : List ℕ → Outcome (List (DocumentChunk Box))) (ok : Bool) (o : Option Documents)
          → P w.documents
          → ((docs : Documents) → o ≡ some docs → P docs)
          → P (Run.flush_row v config r m w p content_type extract ok o).0.documents
      unfolding Run.flush_row
      flush_row_kept extract true (some docs) u u' =
          commit_row_kept extract docs m.commit u (u' docs refl)
      flush_row_kept extract true none u u' =
          fail_kept w p none
            (Run.flush_error v config r m w.documents (Run.new_row v config r m p content_type)) old
            tt u
      flush_row_kept extract false o u u' = fail_kept w p none (failed "ERR-INGEST-004") old tt u

      dispatch_kept :
          (o : Option (List ℕ → Outcome (List (DocumentChunk Box))))
          → P w.documents
          → P (Run.dispatch v config r m w p content_type o).0.documents
      unfolding Run.dispatch
      dispatch_kept none u = fail_kept w p none (failed "ERR-INGEST-001") old tt u
      dispatch_kept (some extract) u =
          flush_row_kept extract m.flush_ok
            (write w.documents m.document_id (Run.new_row v config r m p content_type)) u
            (λ docs e.
              write_P w.documents docs m.document_id (Run.new_row v config r m p content_type) own u
                e)

    insert_document_kept :
        (w : World v.Store) (p : Plan)
        → Each p.supersedes_id
        → P w.documents
        → P (Run.insert_document v config r m w p).0.documents
    unfolding Run.insert_document
    insert_document_kept w p old u =
        let content_type = v.detect_content_type r.file_content r.filename in
        dispatch_kept (with_documents (m.before_insert w.documents) w) p content_type old
          (v.get_extractor content_type) (insert_kept w.documents u)

    supersede_kept :
        (w : World v.Store) (f : Found)
        → ((id : ℕ) (d : SourceDocument) → f ≡ one_row id d → Q id)
        → P w.documents
        → P (Run.supersede v config r m w f).0.documents
    unfolding Run.supersede
    supersede_kept w no_row q u =
        insert_document_kept w (record { version = 1; supersedes_id = none }) tt u
    supersede_kept w several q u = u
    supersede_kept w (one_row id d) q u =
        let deleted =
          with_documents
            (committed w.documents true (update w.documents id (soft_deleted m.now "superseded")))
            w in
        let p : Plan = record { version = d.version + 1; supersedes_id = some id } in
        if-cases (λ x. P x.0.documents) m.supersede_session
          (Run.insert_document v config r m deleted p) (w, raised)
          (λ e.
            insert_document_kept deleted p (q id d refl)
              (update_kept w.documents true id (soft_deleted m.now "superseded") (q id d refl) u))
          (λ e. u)

    aliased_kept :
        (w : World v.Store) (id : ℕ) (d : SourceDocument)
        → Q id
        → P w.documents
        → P (Run.aliased v config r m w id d).0.documents
    aliased_kept w id d q u =
        let Kept : World v.Store × Ingest → Type 0 = λ x. P x.0.documents in
        let written = Run.write_alias v config r m w id d in
        let answer = Run.alias_result v config r m id d in
        if-cases Kept (contains d.filename_aliases r.filename) (w, answer)
          (if m.alias_session then (written, answer) else (w, raised)) (λ e. u)
          (λ e.
            if-cases Kept m.alias_session (written, answer) (w, raised)
              (λ e'.
                update_kept w.documents true id
                  (λ x. record x { filename_aliases = Run.add_alias v config r m d }) q u)
              (λ e'. u))

    deduplicate_kept :
        (w : World v.Store) (f : Found)
        → ((id : ℕ) (d : SourceDocument) → f ≡ one_row id d → Q id)
        → ((id : ℕ) (d : SourceDocument)
            → find_by_name w.documents r.namespace r.filename ≡ one_row id d
            → Q id)
        → P w.documents
        → P (Run.deduplicate v config r m w f).0.documents
    unfolding Run.deduplicate
    deduplicate_kept w no_row q named u =
        supersede_kept w (looked_up m.name_lookup (find_by_name w.documents r.namespace r.filename))
          (λ id d e. named id d (
            looked_up-one_row m.name_lookup (find_by_name w.documents r.namespace r.filename) id d
              e))
          u
    deduplicate_kept w several q named u = u
    deduplicate_kept w (one_row id d) q named u = elim (Bool-cases (d.filename == r.filename)) [
      | inl same ↦ rw same u
      | inr other ↦ rw other (aliased_kept w id d (q id d refl) u)
    ]

    pub run_ingest_kept :
        (w : World v.Store)
        → ((id : ℕ) (d : SourceDocument)
            → find_by_hash w.documents r.namespace (Run.content_hash v config r m) ≡ one_row id d
            → Q id)
        → ((id : ℕ) (d : SourceDocument)
            → find_by_name w.documents r.namespace r.filename ≡ one_row id d
            → Q id)
        → P w.documents
        → P (Run.run_ingest v config r m w).0.documents
    unfolding Run.run_ingest
    run_ingest_kept w q named u =
        deduplicate_kept w (find_by_hash w.documents r.namespace (Run.content_hash v config r m)) q
          named u
