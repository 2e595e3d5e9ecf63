-- ===== src/Ingest/Pipeline/Rollback.antt =====
-- vektra_ingest/pipeline.py: a run that fails, where no other session comes between and the sessions that
-- repair go through.
use vektra_stack.Prelude.{
  ℕ, ◌≡◌, refl, subst, sym, ◌∙◌, Bool, true, false, Option, none, some, List, String, ◌+◌, arith,
}
use vektra_stack.Prelude.Tests.{false-true, if-cases, if◌then◌else◌}
use vektra_stack.Prelude.Eq.{nat_eq, string_eq, ◌==◌, beq_self, contains}
use vektra_stack.Prelude.Dict
use vektra_stack.Prelude.Dict.{get-put, put-put}
use vektra_stack.Shared.Types.{DocumentChunk}
use vektra_stack.Ingest.Pipeline.Documents.{
  SourceDocument, Documents, Found, no_row, several, one_row, find_by_hash, find_by_name, looked_up,
  soft_deleted, write, committed, update,
}
use vektra_stack.Ingest.Pipeline.World.{
  Outcome, value, ingest_error, exception, Services, IngestConfig, Request, Commit, Moment, World,
  Plan, Ingest, Event, emit, with_documents, failed, conflict_error, ingested, raised,
}
use vektra_stack.Ingest.Pipeline.Content.{process}
use vektra_stack.Ingest.Pipeline.Names.{Indexed}
use vektra_stack.Ingest.Pipeline.Steps.{process-documents}
use vektra_stack.Ingest.Pipeline.Held.{
  Held, SameActive, Unmarked, start-Held, supersede-Held, deleted-Held, restored-SameActive,
  kept-SameActive, delete_active, written_put,
}
use vektra_stack.Ingest.Pipeline.Lookup.{find_by_name-one_row, looked_up-one_row}
use vektra_stack.Ingest.Pipeline.Run

abbrev pub is_ingested : Ingest → Bool
is_ingested (ingested x) = true
is_ingested _ = false

-- No other session comes between, and the sessions that repair go through.
pub record Quiet (m : Moment) : Type 0 where
  pub insert_quiet : (docs : Documents) → m.before_insert docs ≡ docs
  pub end_quiet : (docs : Documents) → m.before_end docs ≡ docs
  pub cleans : m.cleanup_session ≡ true
  pub restores : m.restore_session ≡ true

module _ {Box : Type 0} (v : Services Box) (config : IngestConfig) (r : Request) (m : Moment)
    (quiet : Quiet m) (base : Documents) (dist : Dict.Distinct base) (indexed : Indexed base)
    (clean : Unmarked base) (fresh : Dict.get base m.document_id ≡ none) where
  put_back-SameActive :
      (o : Option ℕ) (docs : Documents)
      → Held base m.now o docs
      → SameActive base (Run.put_back v config r m docs o)
  put_back-SameActive none docs h = kept-SameActive base m.now docs h
  put_back-SameActive (some id) docs h =
      rw quiet.restores (restored-SameActive base m.now docs id h indexed clean)

  emit-SameActive :
      (b : Bool) (event : Event) (w : World v.Store)
      → SameActive base w.documents
      → SameActive base (emit b event w).documents
  emit-SameActive true event w u = u
  emit-SameActive false event w u = u

  fail-SameActive :
      (w : World v.Store) (p : Plan) (o : Option ℕ) (error : Ingest)
      → Held base m.now p.supersedes_id (Run.cleaned_up v config r m w.documents o)
      → SameActive base (Run.fail v config r m w p o error).0.documents
  unfolding Run.fail
  fail-SameActive w p o error h =
      emit-SameActive v.has_events (Event.document_failed o)
        (with_documents
          (Run.put_back v config r m (Run.cleaned_up v config r m w.documents o) p.supersedes_id) w)
        (put_back-SameActive p.supersedes_id (Run.cleaned_up v config r m w.documents o) h)

  -- The row is not there yet.
  cleaned_absent :
      (docs : Documents)
      → Dict.get docs m.document_id ≡ none
      → Run.cleaned_up v config r m docs (some m.document_id) ≡ docs
  cleaned_absent docs e = rw (quiet.cleans, e) refl

  cleaned_there :
      (docs : Documents) (row : SourceDocument)
      → Run.cleaned_up v config r m (Dict.put docs m.document_id row) (some m.document_id)
        ≡ Dict.put docs m.document_id (soft_deleted m.now "pipeline_failure" row)
  cleaned_there docs row =
      let there : Dict.get (Dict.put docs m.document_id row) m.document_id ≡ some row =
        rw (get-put, beq_self m.document_id) refl in
      rw
        (
          quiet.cleans,
          delete_active (Dict.put docs m.document_id row) m.document_id row
              (soft_deleted m.now "pipeline_failure") there refl,
          put-put,
        )
        refl

  still_absent :
      (id : ℕ) (d : SourceDocument)
      → Dict.get base id ≡ some d
      → Dict.get
          (committed base true (update base id (soft_deleted m.now "superseded")))
          m.document_id
        ≡ none
  still_absent id d e =
      subst (λ x. Dict.get x m.document_id ≡ none)
        (sym (delete_active base id d (soft_deleted m.now "superseded") e refl))
        (ground (
          arith,
          get-put base id m.document_id (soft_deleted m.now "superseded" d),
          nat_eq.beq_iff id m.document_id,
          fresh,
          e,
        ))

  failed-SameActive :
      (w : World v.Store) (p : Plan) (error : Ingest) (docs : Documents) (row : SourceDocument)
      → w.documents ≡ Dict.put docs m.document_id row
      → Held base m.now p.supersedes_id docs
      → Dict.get docs m.document_id ≡ none
      → SameActive base (Run.fail v config r m w p (some m.document_id) error).0.documents
  failed-SameActive w p error docs row e h absent = fail-SameActive w p (some m.document_id) error (
      subst
        (λ x. Held base m.now p.supersedes_id (Run.cleaned_up v config r m x (some m.document_id)))
        (sym e)
        (subst (Held base m.now p.supersedes_id) (sym (cleaned_there docs row)) (
          deleted-Held base m.now p.supersedes_id docs m.document_id
            (soft_deleted m.now "pipeline_failure" row) h absent refl)))

  processed-SameActive :
      (p : Plan) (w : World v.Store) (o : Outcome (List String)) (docs : Documents)
      (row : SourceDocument)
      → w.documents ≡ Dict.put docs m.document_id row
      → Held base m.now p.supersedes_id docs
      → Dict.get docs m.document_id ≡ none
      → is_ingested (Run.processed v config r m p (w, o)).1 ≡ false
      → SameActive base (Run.processed v config r m p (w, o)).0.documents
  unfolding Run.processed Run.finish Run.fail
  processed-SameActive p w (value ids) docs row e h absent bad = elim (false-true (sym bad)) [ ]
  processed-SameActive p w (ingest_error code) docs row e h absent bad =
      failed-SameActive w p (failed code) docs row e h absent
  processed-SameActive p w exception docs row e h absent bad =
      failed-SameActive w p (failed "ERR-INGEST-004") docs row e h absent

  module _ (w : World v.Store) (p : Plan) (content_type : String)
      (h : Held base m.now p.supersedes_id w.documents)
      (absent : Dict.get w.documents m.document_id ≡ none) where
    commit_row-SameActive :
        (extract : List ℕ → Outcome (List (DocumentChunk Box))) (row : SourceDocument) (c : Commit)
        → is_ingested
            (Run.commit_row v config r m w p content_type extract
              (Dict.put w.documents m.document_id row)
              c).1
          ≡ false
        → SameActive base
            (Run.commit_row v config r m w p content_type extract
              (Dict.put w.documents m.document_id row)
              c).0.documents
    unfolding Run.commit_row
    commit_row-SameActive extract row Commit.done bad =
        let docs = Dict.put w.documents m.document_id row in
        let started = with_documents (m.before_end docs) w in
        let ran = process v r content_type m.document_id config started extract in
        processed-SameActive p ran.0 ran.1 w.documents row
          (process-documents v r content_type m.document_id config started extract
            ∙ quiet.end_quiet docs)
          h absent bad
    commit_row-SameActive extract row Commit.name_taken bad =
        fail-SameActive w p none conflict_error h
    commit_row-SameActive extract row Commit.integrity bad =
        fail-SameActive w p none (failed "ERR-INGEST-004") h
    commit_row-SameActive extract row Commit.lost bad =
        fail-SameActive w p (some m.document_id) (failed "ERR-INGEST-004")
          (subst (Held base m.now p.supersedes_id) (sym (cleaned_absent w.documents absent)) h)

    flush_row-SameActive :
        (extract : List ℕ → Outcome (List (DocumentChunk Box))) (ok : Bool) (o : Option Documents)
        → ((docs : Documents)
            → o ≡ some docs
            → (row : SourceDocument) × (docs ≡ Dict.put w.documents m.document_id row))
        → is_ingested (Run.flush_row v config r m w p content_type extract ok o).1 ≡ false
        → SameActive base (Run.flush_row v config r m w p content_type extract ok o).0.documents
    unfolding Run.flush_row
    flush_row-SameActive extract true (some docs) from bad =
        let (row, e) = from docs refl in
        subst
          (λ x.
            is_ingested (Run.commit_row v config r m w p content_type extract x m.commit).1 ≡ false
            → SameActive base
                (Run.commit_row v config r m w p content_type extract x m.commit).0.documents)
          (sym e) (commit_row-SameActive extract row m.commit) bad
    flush_row-SameActive extract true none from bad =
        fail-SameActive w p none
          (Run.flush_error v config r m w.documents (Run.new_row v config r m p content_type)) h
    flush_row-SameActive extract false o from bad =
        fail-SameActive w p none (failed "ERR-INGEST-004") h

    dispatch-SameActive :
        (o : Option (List ℕ → Outcome (List (DocumentChunk Box))))
        → is_ingested (Run.dispatch v config r m w p content_type o).1 ≡ false
        → SameActive base (Run.dispatch v config r m w p content_type o).0.documents
    unfolding Run.dispatch
    dispatch-SameActive none bad = fail-SameActive w p none (failed "ERR-INGEST-001") h
    dispatch-SameActive (some extract) bad =
        flush_row-SameActive extract m.flush_ok
          (write w.documents m.document_id (Run.new_row v config r m p content_type))
          (λ docs e. (
            Run.new_row v config r m p content_type,
            written_put w.documents docs m.document_id (Run.new_row v config r m p content_type) e,
          ))
          bad

  insert_document-SameActive :
      (w : World v.Store) (p : Plan)
      → Held base m.now p.supersedes_id w.documents
      → Dict.get w.documents m.document_id ≡ none
      → is_ingested (Run.insert_document v config r m w p).1 ≡ false
      → SameActive base (Run.insert_document v config r m w p).0.documents
  unfolding Run.insert_document
  insert_document-SameActive w p h absent bad =
      let content_type = v.detect_content_type r.file_content r.filename in
      let same = quiet.insert_quiet w.documents in
      dispatch-SameActive (with_documents (m.before_insert w.documents) w) p content_type
        (subst (Held base m.now p.supersedes_id) (sym same) h)
        (subst (λ x. Dict.get x m.document_id ≡ none) (sym same) absent)
        (v.get_extractor content_type) bad

  supersede-SameActive :
      (w : World v.Store) (f : Found)
      → w.documents ≡ base
      → f ≡ looked_up m.name_lookup (find_by_name w.documents r.namespace r.filename)
      → is_ingested (Run.supersede v config r m w f).1 ≡ false
      → SameActive base (Run.supersede v config r m w f).0.documents
  unfolding Run.supersede
  supersede-SameActive w no_row same from bad =
      insert_document-SameActive w (record { version = 1; supersedes_id = none })
        (subst (Held base m.now none) (sym same) (start-Held base m.now dist))
        (subst (λ x. Dict.get x m.document_id ≡ none) (sym same) fresh) bad
  supersede-SameActive w several same from bad =
      subst (SameActive base) (sym same)
        (kept-SameActive base m.now base (start-Held base m.now dist))
  supersede-SameActive w (one_row id d) same from bad =
      let by_name =
        looked_up-one_row m.name_lookup (find_by_name w.documents r.namespace r.filename) id d
          (sym from) in
      let found =
        find_by_name-one_row base dist r.namespace r.filename id d
          (subst (λ x. find_by_name x r.namespace r.filename ≡ one_row id d) same by_name) in
      let held = supersede-Held base m.now id d dist found.0 found.1 in
      let docs : Documents → Documents =
        λ x. committed x true (update x id (soft_deleted m.now "superseded")) in
      let p : Plan = record { version = d.version + 1; supersedes_id = some id } in
      if-cases (λ x. is_ingested x.1 ≡ false → SameActive base x.0.documents) m.supersede_session
        (Run.insert_document v config r m (with_documents (docs w.documents) w) p) (w, raised)
        (λ e bad.
          insert_document-SameActive (with_documents (docs w.documents) w) p
            (subst (λ x. Held base m.now (some id) (docs x)) (sym same) held)
            (subst (λ x. Dict.get (docs x) m.document_id ≡ none) (sym same)
              (still_absent id d found.0))
            bad)
        (λ e bad.
          subst (SameActive base) (sym same)
            (kept-SameActive base m.now base (start-Held base m.now dist)))
        bad

  deduplicate-SameActive :
      (w : World v.Store) (f : Found)
      → w.documents ≡ base
      → is_ingested (Run.deduplicate v config r m w f).1 ≡ false
      → SameActive base (Run.deduplicate v config r m w f).0.documents
  unfolding Run.deduplicate
  deduplicate-SameActive w no_row same bad =
      supersede-SameActive w
        (looked_up m.name_lookup (find_by_name w.documents r.namespace r.filename)) same refl bad
  deduplicate-SameActive w several same bad =
      subst (SameActive base) (sym same)
        (kept-SameActive base m.now base (start-Held base m.now dist))
  deduplicate-SameActive w (one_row id d) same bad =
      let answer = Run.alias_result v config r m id d in
      let unchanged =
        subst (SameActive base) (sym same)
          (kept-SameActive base m.now base (start-Held base m.now dist)) in
      let Failed : World v.Store × Ingest → Type 0 =
        λ x. is_ingested x.1 ≡ false → SameActive base x.0.documents in
      if-cases Failed (d.filename == r.filename) (w, Run.exists_result v config r m id d)
        (Run.aliased v config r m w id d) (λ e bad. elim (false-true (sym bad)) [ ])
        (λ e.
          if-cases Failed (contains d.filename_aliases r.filename) (w, answer)
            (if m.alias_session then (Run.write_alias v config r m w id d, answer) else (w, raised))
            (λ e bad. elim (false-true (sym bad)) [ ])
            (λ e.
              if-cases Failed m.alias_session (Run.write_alias v config r m w id d, answer)
                (w, raised) (λ e bad. elim (false-true (sym bad)) [ ]) (λ e bad. unchanged)))
        bad

-- A run of `run_ingest` that ends in an error leaves exactly the active documents that it found, each as it
-- was: what it superseded is active again, and what it wrote is not. This is where the tables hold the
-- primary key and both unique indexes, the id of the new row is free, no active row is marked with a reason,
-- no other session comes between, and the sessions that clean up and restore go through.
pub failed_run-SameActive :
    {Box : Type 0} (v : Services Box) (config : IngestConfig) (r : Request) (m : Moment)
    (w : World v.Store)
    → Quiet m
    → Dict.Distinct w.documents
    → Indexed w.documents
    → Unmarked w.documents
    → Dict.get w.documents m.document_id ≡ none
    → is_ingested (Run.run_ingest v config r m w).1 ≡ false
    → SameActive w.documents (Run.run_ingest v config r m w).0.documents
unfolding Run.run_ingest
failed_run-SameActive v config r m w quiet dist indexed clean fresh bad =
    deduplicate-SameActive v config r m quiet w.documents dist indexed clean fresh w
      (find_by_hash w.documents r.namespace (Run.content_hash v config r m)) refl bad
