-- ===== src/Ingest/Pipeline/Answers.antt =====
-- vektra_ingest/pipeline.py: what a run that returns a new document leaves in the tables.
use vektra_stack.Prelude.{
  ℕ, ◌≡◌, refl, subst, sym, ◌∙◌, ◌⊎◌, inl, inr, Bool, true, false, Option, none, some, List, String,
  ◌+◌, ◌-◌, arith,
}
use vektra_stack.Prelude.Tests.{false-true, if-cases, Option-cases}
use vektra_stack.Prelude.Lists.{length}
use vektra_stack.Prelude.Eq.{nat_eq, string_eq, contains, beq_self}
use vektra_stack.Prelude.Dict
use vektra_stack.Prelude.Dict.{get-put}
use vektra_stack.Shared.Types.{DocumentChunk}
use vektra_stack.Ingest.Pipeline.Documents.{
  SourceDocument, Documents, Found, no_row, several, one_row, soft_deleted, write, committed,
  update, is_active,
}
use vektra_stack.Ingest.Pipeline.World.{
  Outcome, value, ingest_error, exception, Services, IngestConfig, Request, Commit, Moment, World,
  Plan, Ingest, IngestResult, Status, Event, emit, with_documents, ingested, raised,
}
use vektra_stack.Ingest.Pipeline.Content.{process}
use vektra_stack.Ingest.Pipeline.Steps.{process-documents}
use vektra_stack.Ingest.Pipeline.Held.{written_put}
use vektra_stack.Ingest.Pipeline.Rollback.{is_ingested}
use vektra_stack.Ingest.Pipeline.Run

-- The document that a result tells of is there and active, with the content that was given, and under its
-- name or with that as an alias.
pub record Answered (content_hash : String) (r : Request) (docs : Documents) (answer : Ingest)
    : Type 0 where
  pub result : IngestResult
  pub returned : answer ≡ ingested result
  pub row : SourceDocument
  pub there : Dict.get docs result.document_id ≡ some row
  pub active : is_active row ≡ true
  pub namespace : row.namespace_id ≡ r.namespace
  pub content : row.content_hash ≡ content_hash
  pub named : (row.filename ≡ r.filename) ⊎ (contains row.filename_aliases r.filename ≡ true)
  pub version : row.version ≡ result.version
  pub supersedes_id : row.supersedes_id ≡ result.supersedes_id

-- A statement for one row writes it or leaves it.
updated-row :
    (docs : Documents) (ok : Bool) (id : ℕ) (f : SourceDocument → SourceDocument)
    (row : SourceDocument)
    → Dict.get docs id ≡ some row
    → (Dict.get (committed docs ok (update docs id f)) id ≡ some row)
      ⊎ (Dict.get (committed docs ok (update docs id f)) id ≡ some (f row))
updated-row docs false id f row e = inl e
updated-row docs true id f row e = elim (Option-cases (write docs id (f row))) [
  | inl out ↦ inl (rw (e, out) e)
  | inr (docs', new) ↦
      inr (rw (e, new, written_put docs docs' id (f row) new, get-put, beq_self id) refl)
]

module _ {Box : Type 0} (v : Services Box) (config : IngestConfig) (r : Request) (m : Moment)
    (end_keeps : (docs : Documents) (row : SourceDocument)
      → Dict.get docs m.document_id ≡ some row
      → Dict.get (m.before_end docs) m.document_id ≡ some row) where
  abbrev pub Answers : World v.Store × Ingest → Type 0
  Answers (w, answer) = Answered (Run.content_hash v config r m) r w.documents answer

  emitted-row :
      (b : Bool) (event : Event) (w : World v.Store) (id : ℕ) (o : Option SourceDocument)
      → Dict.get w.documents id ≡ o
      → Dict.get (emit b event w).documents id ≡ o
  emitted-row true event w id o e = e
  emitted-row false event w id o e = e

  superseded-row :
      (w : World v.Store) (version : ℕ) (s : Option ℕ) (id : ℕ) (o : Option SourceDocument)
      → Dict.get w.documents id ≡ o
      → Dict.get
          (Run.finish_superseded v config r m w
            (record { version = version; supersedes_id = s })).documents
          id
        ≡ o
  superseded-row w version none id o e = e
  superseded-row w version (some old) id o e =
      emitted-row v.has_events (Event.superseded old (version - 1) version)
        (record w { store = v.delete w.store r.namespace old }) id o e

  new-Answered :
      (docs : Documents) (p : Plan) (content_type : String) (written : Option ℕ) (n : ℕ)
      → Dict.get docs m.document_id
        ≡ some (record (Run.new_row v config r m p content_type) { chunk_count = written })
      → Answered (Run.content_hash v config r m) r docs (
          ingested (record {
            status = Status.new;
            document_id = m.document_id;
            chunk_count = some n;
            alias_count = none;
            version = p.version;
            supersedes_id = p.supersedes_id;
          }))
  new-Answered docs p content_type written n e = record {
    result = record {
      status = Status.new;
      document_id = m.document_id;
      chunk_count = some n;
      alias_count = none;
      version = p.version;
      supersedes_id = p.supersedes_id;
    };
    returned = refl;
    row = record (Run.new_row v config r m p content_type) { chunk_count = written };
    there = e;
    active = refl;
    namespace = refl;
    content = refl;
    named = inl refl;
    version = refl;
    supersedes_id = refl;
  }

  finish-Answered :
      (w : World v.Store) (p : Plan) (ids : List String) (content_type : String)
      → Dict.get w.documents m.document_id ≡ some (Run.new_row v config r m p content_type)
      → Answers (Run.finish v config r m w p ids)
  unfolding Run.finish
  finish-Answered w p ids content_type e =
      let row = Run.new_row v config r m p content_type in
      let w' = Run.finish_superseded v config r m w p in
      let before = superseded-row w p.version p.supersedes_id m.document_id (some row) e in
      let counted = Run.count_chunks v config r m w' (length ids) in
      let told =
        emitted-row v.has_events (Event.indexed m.document_id (length ids)) counted m.document_id in
      elim (updated-row w'.documents m.count_session m.document_id
        (λ d. record d { chunk_count = some (length ids) }) row before) [
          | inl same ↦
              new-Answered
                (emit v.has_events (Event.indexed m.document_id (length ids)) counted).documents p
                content_type none (length ids) (told (some row) same)
          | inr new ↦
              new-Answered
                (emit v.has_events (Event.indexed m.document_id (length ids)) counted).documents p
                content_type (some (length ids)) (length ids)
                (told (some (record row { chunk_count = some (length ids) })) new)
        ]

  processed-Answered :
      (p : Plan) (w : World v.Store) (o : Outcome (List String)) (content_type : String)
      → Dict.get w.documents m.document_id ≡ some (Run.new_row v config r m p content_type)
      → is_ingested (Run.processed v config r m p (w, o)).1 ≡ true
      → Answers (Run.processed v config r m p (w, o))
  unfolding Run.processed Run.fail
  processed-Answered p w (value ids) content_type e good = finish-Answered w p ids content_type e
  processed-Answered p w (ingest_error code) content_type e good = elim (false-true good) [ ]
  processed-Answered p w exception content_type e good = elim (false-true good) [ ]

  flush_error-rejected :
      (docs : Documents) (d : SourceDocument)
      → is_ingested (Run.flush_error v config r m docs d) ≡ false
  flush_error-rejected docs d = ground arith

  module _ (w : World v.Store) (p : Plan) (content_type : String) where
    commit_row-Answered :
        (extract : List ℕ → Outcome (List (DocumentChunk Box))) (docs : Documents) (c : Commit)
        → Dict.get docs m.document_id ≡ some (Run.new_row v config r m p content_type)
        → is_ingested (Run.commit_row v config r m w p content_type extract docs c).1 ≡ true
        → Answers (Run.commit_row v config r m w p content_type extract docs c)
    unfolding Run.commit_row Run.fail
    commit_row-Answered extract docs Commit.done e good =
        let started = with_documents (m.before_end docs) w in
        let ran = process v r content_type m.document_id config started extract in
        processed-Answered p ran.0 ran.1 content_type
          (subst (λ x. Dict.get x m.document_id ≡ some (Run.new_row v config r m p content_type))
            (sym (process-documents v r content_type m.document_id config started extract))
            (end_keeps docs (Run.new_row v config r m p content_type) e))
          good
    commit_row-Answered extract docs Commit.name_taken e good = elim (false-true good) [ ]
    commit_row-Answered extract docs Commit.integrity e good = elim (false-true good) [ ]
    commit_row-Answered extract docs Commit.lost e good = elim (false-true good) [ ]

    flush_row-Answered :
        (extract : List ℕ → Outcome (List (DocumentChunk Box))) (ok : Bool) (o : Option Documents)
        → ((docs : Documents)
            → o ≡ some docs
            → Dict.get docs m.document_id ≡ some (Run.new_row v config r m p content_type))
        → is_ingested (Run.flush_row v config r m w p content_type extract ok o).1 ≡ true
        → Answers (Run.flush_row v config r m w p content_type extract ok o)
    unfolding Run.flush_row Run.fail
    flush_row-Answered extract true (some docs) e good =
        commit_row-Answered extract docs m.commit (e docs refl) good
    flush_row-Answered extract true none e good =
        elim (false-true (
          sym (flush_error-rejected w.documents (Run.new_row v config r m p content_type))
          ∙ good)) [ ]
    flush_row-Answered extract false o e good = elim (false-true good) [ ]

    dispatch-Answered :
        (o : Option (List ℕ → Outcome (List (DocumentChunk Box))))
        → is_ingested (Run.dispatch v config r m w p content_type o).1 ≡ true
        → Answers (Run.dispatch v config r m w p content_type o)
    unfolding Run.dispatch Run.fail
    dispatch-Answered none good = elim (false-true good) [ ]
    dispatch-Answered (some extract) good =
        let row = Run.new_row v config r m p content_type in
        flush_row-Answered extract m.flush_ok (write w.documents m.document_id row)
          (λ docs e.
            rw (written_put w.documents docs m.document_id row e, get-put, beq_self m.document_id)
              refl)
          good

  insert_document-Answered :
      (w : World v.Store) (p : Plan)
      → is_ingested (Run.insert_document v config r m w p).1 ≡ true
      → Answers (Run.insert_document v config r m w p)
  unfolding Run.insert_document
  insert_document-Answered w p good =
      let content_type = v.detect_content_type r.file_content r.filename in
      dispatch-Answered (with_documents (m.before_insert w.documents) w) p content_type
        (v.get_extractor content_type) good

  pub supersede-Answered :
      (w : World v.Store) (f : Found)
      → is_ingested (Run.supersede v config r m w f).1 ≡ true
      → Answers (Run.supersede v config r m w f)
  unfolding Run.supersede
  supersede-Answered w no_row good =
      insert_document-Answered w (record { version = 1; supersedes_id = none }) good
  supersede-Answered w several good = elim (false-true good) [ ]
  supersede-Answered w (one_row id d) good =
      let deleted =
        with_documents
          (committed w.documents true (update w.documents id (soft_deleted m.now "superseded")))
          w in
      let p : Plan = record { version = d.version + 1; supersedes_id = some id } in
      if-cases (λ x. is_ingested x.1 ≡ true → Answers x) m.supersede_session
        (Run.insert_document v config r m deleted p) (w, raised)
        (λ e good. insert_document-Answered deleted p good) (λ e good. elim (false-true good) [ ])
        good
