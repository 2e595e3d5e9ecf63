-- ===== src/Ingest/Pipeline/Success.antt =====
-- vektra_ingest/pipeline.py: what a run that returns a result leaves in the tables.
use vektra_stack.Prelude.{
  ℕ, ◌≡◌, refl, sym, ◌⊎◌, inl, inr, true, Option, none, some, List, [], ◌∷◌, ◌++◌, String, arith,
}
use vektra_stack.Prelude.Tests.{false-true, if-cases, if◌then◌else◌}
use vektra_stack.Prelude.Lists.{length}
use vektra_stack.Prelude.Eq.{nat_eq, string_eq, ◌==◌, contains, beq_self}
use vektra_stack.Prelude.Dict
use vektra_stack.Prelude.Dict.{get-put}
use vektra_stack.Ingest.Pipeline.Documents.{
  SourceDocument, Documents, Found, no_row, several, one_row, find_by_hash, find_by_name, looked_up,
  committed, update, is_active,
}
use vektra_stack.Ingest.Pipeline.World.{
  Services, IngestConfig, Request, Moment, World, Status, Ingest, ingested, raised,
}
use vektra_stack.Ingest.Pipeline.Names.{Indexed}
use vektra_stack.Ingest.Pipeline.Held.{write_alone}
use vektra_stack.Ingest.Pipeline.Lookup.{find_by_hash-one_row}
use vektra_stack.Ingest.Pipeline.Rollback.{is_ingested}
use vektra_stack.Ingest.Pipeline.Answers.{Answered, Answers, supersede-Answered}
use vektra_stack.Ingest.Pipeline.Run

contains_added : (xs : List String) (x : String) → contains (xs ++ x ∷ []) x ≡ true
unfolding contains
contains_added [] x = rw (beq_self x) refl
contains_added (y ∷ xs) x = ground (arith, contains_added xs x)

module _ {Box : Type 0} (v : Services Box) (config : IngestConfig) (r : Request) (m : Moment)
    (end_keeps : (docs : Documents) (row : SourceDocument)
      → Dict.get docs m.document_id ≡ some row
      → Dict.get (m.before_end docs) m.document_id ≡ some row) where
  module _ (w : World v.Store) (dist : Dict.Distinct w.documents)
      (indexed : Indexed w.documents) where
    -- The row of an alias goes through.
    alias_written :
        (id : ℕ) (d : SourceDocument) (aliases : List String)
        → Dict.get w.documents id ≡ some d
        → is_active d ≡ true
        → committed w.documents true
            (update w.documents id (λ x. record x { filename_aliases = aliases }))
          ≡ Dict.put w.documents id (record d { filename_aliases = aliases })
    alias_written id d aliases e a =
        let free =
          write_alone w.documents id (record d { filename_aliases = aliases }) dist
            (λ j b e' a' s. sym (indexed.0 id j d b e e' a a' s))
            (λ j b e' a' s. sym (indexed.1 id j d b e e' a a' s)) in
        rw (e, free) refl

    add_alias-contains :
        (d : SourceDocument) → contains (Run.add_alias v config r m d) r.filename ≡ true
    add_alias-contains d =
        if-cases (λ xs. contains xs r.filename ≡ true) (contains d.filename_aliases r.filename)
          d.filename_aliases (d.filename_aliases ++ r.filename ∷ []) (λ e. e)
          (λ e. contains_added d.filename_aliases r.filename)

    -- A row of the tables with the content, as a result with its version tells of it
    module _ (id : ℕ) (d : SourceDocument) (e : Dict.get w.documents id ≡ some d)
        (a : is_active d ≡ true) (n : d.namespace_id ≡ r.namespace)
        (c : d.content_hash ≡ Run.content_hash v config r m) where
      found-Answered :
          (docs : Documents) (aliases : List String) (status : Status) (alias_count : Option ℕ)
          → Dict.get docs id ≡ some (record d { filename_aliases = aliases })
          → (d.filename ≡ r.filename) ⊎ (contains aliases r.filename ≡ true)
          → Answered (Run.content_hash v config r m) r docs (
              ingested (record {
                status = status;
                document_id = id;
                chunk_count = none;
                alias_count = alias_count;
                version = d.version;
                supersedes_id = d.supersedes_id;
              }))
      found-Answered docs aliases status alias_count there named = record {
        result = record {
          status = status;
          document_id = id;
          chunk_count = none;
          alias_count = alias_count;
          version = d.version;
          supersedes_id = d.supersedes_id;
        };
        returned = refl;
        row = record d { filename_aliases = aliases };
        there = there;
        active = a;
        namespace = n;
        content = c;
        named = named;
        version = refl;
        supersedes_id = refl;
      }

      aliased-Answered :
          is_ingested (Run.aliased v config r m w id d).1 ≡ true
          → Answers v config r m end_keeps (Run.aliased v config r m w id d)
      aliased-Answered good =
          let aliases = Run.add_alias v config r m d in
          let count = some (length aliases) in
          let answer = Run.alias_result v config r m id d in
          let written = Run.write_alias v config r m w id d in
          let Told : World v.Store × Ingest → Type 0 =
            λ x. is_ingested x.1 ≡ true → Answers v config r m end_keeps x in
          if-cases Told (contains d.filename_aliases r.filename) (w, answer)
            (if m.alias_session then (written, answer) else (w, raised))
            (λ known good.
              found-Answered w.documents d.filename_aliases Status.alias
                (some (length (Run.add_alias v config r m d))) e (inr known))
            (λ new.
              if-cases Told m.alias_session (written, answer) (w, raised)
                (λ saved good.
                  found-Answered
                    (committed w.documents true
                      (update w.documents id (λ x. record x { filename_aliases = aliases })))
                    aliases Status.alias count
                    (rw (alias_written id d aliases e a, get-put, beq_self id) refl)
                    (inr (add_alias-contains d)))
                (λ lost good. elim (false-true good) [ ]))
            good

      duplicate-Answered :
          is_ingested (Run.duplicate v config r m w id d).1 ≡ true
          → Answers v config r m end_keeps (Run.duplicate v config r m w id d)
      duplicate-Answered good =
          if-cases (λ x. is_ingested x.1 ≡ true → Answers v config r m end_keeps x)
            (d.filename == r.filename) (w, Run.exists_result v config r m id d)
            (Run.aliased v config r m w id d)
            (λ same good.
              found-Answered w.documents d.filename_aliases Status.exists none e
                (inl ((string_eq.beq_iff d.filename r.filename).0 same)))
            (λ other good. aliased-Answered good) good

    deduplicate-Answered :
        (f : Found)
        → f ≡ find_by_hash w.documents r.namespace (Run.content_hash v config r m)
        → is_ingested (Run.deduplicate v config r m w f).1 ≡ true
        → Answers v config r m end_keeps (Run.deduplicate v config r m w f)
    unfolding Run.deduplicate
    deduplicate-Answered no_row from good =
        supersede-Answered v config r m end_keeps w
          (looked_up m.name_lookup (find_by_name w.documents r.namespace r.filename)) good
    deduplicate-Answered several from good = elim (false-true good) [ ]
    deduplicate-Answered (one_row id d) from good =
        let (e, a, n, c) =
          find_by_hash-one_row w.documents dist r.namespace (Run.content_hash v config r m) id d
            (sym from) in
        duplicate-Answered id d e a n c good

-- A run of `run_ingest` that returns a result leaves the document that the result names active, in the
-- namespace, with the hash of the content that was given, with the version and the link that the result tells,
-- and under the name that was given or with it among its aliases. The result may be a new document, one that
-- exists, or an alias; the tables hold the primary key and both unique indexes before, and the other
-- sessions leave the new row as it is while its content is processed.
pub ingested_run-Answered :
    {Box : Type 0} (v : Services Box) (config : IngestConfig) (r : Request) (m : Moment)
    (w : World v.Store)
    → ((docs : Documents) (row : SourceDocument)
        → Dict.get docs m.document_id ≡ some row
        → Dict.get (m.before_end docs) m.document_id ≡ some row)
    → Dict.Distinct w.documents
    → Indexed w.documents
    → is_ingested (Run.run_ingest v config r m w).1 ≡ true
    → Answered
        (v.sha256 r.file_content)
        r
        (Run.run_ingest v config r m w).0.documents
        (Run.run_ingest v config r m w).1
unfolding Run.run_ingest
ingested_run-Answered v config r m w end_keeps dist indexed good =
    deduplicate-Answered v config r m end_keeps w dist indexed
      (find_by_hash w.documents r.namespace (Run.content_hash v config r m)) refl good
