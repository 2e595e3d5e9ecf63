-- ===== src/Ingest/Pipeline/Repeat.antt =====
-- vektra_ingest/pipeline.py: the same file again.
use vektra_stack.Prelude.{
  ℕ, ◌≡◌, refl, subst, sym, ap, ◌∙◌, ◌⊎◌, inl, inr, true, Option, none, some, arith,
}
use vektra_stack.Prelude.Tests.{false-true, if-cases, if◌then◌else◌}
use vektra_stack.Prelude.Lists.{length}
use vektra_stack.Prelude.Eq.{nat_eq, string_eq, ◌==◌, contains}
use vektra_stack.Prelude.Dict
use vektra_stack.Ingest.Pipeline.Documents.{SourceDocument, Documents, find_by_hash, Found, one_row}
use vektra_stack.Ingest.Pipeline.World.{
  Services, IngestConfig, Request, Moment, World, Ingest, IngestResult, Status, ingested,
  conflict_error, failed, raised,
}
use vektra_stack.Ingest.Pipeline.Names.{Indexed}
use vektra_stack.Ingest.Pipeline.Lookup.{find_by_hash-there}
use vektra_stack.Ingest.Pipeline.Indexes.{run_ingest-Indexed, run_ingest-Distinct}
use vektra_stack.Ingest.Pipeline.Success.{ingested_run-Answered}
use vektra_stack.Ingest.Pipeline.Run

-- The run finds the document of `first` and changes nothing.
pub record Repeated {Store : Type 0} (first : IngestResult) (w : World Store)
    (ran : World Store × Ingest) : Type 0 where
  pub result : IngestResult
  pub returned : ran ≡ (w, ingested result)
  pub document_id : result.document_id ≡ first.document_id
  pub version : result.version ≡ first.version
  pub supersedes_id : result.supersedes_id ≡ first.supersedes_id
  pub not_new : result.status ≡ Status.new → ⊥

pub ingested_injective : {a b : IngestResult} → ingested a ≡ ingested b → a ≡ b
ingested_injective {a} e =
    ap (λ x. elim x [ ingested y ↦ y | conflict_error ↦ a | failed code ↦ a | raised ↦ a ]) e

new-exists : Status.exists ≡ Status.new → ⊥
new-exists e = ground arith

new-alias : Status.alias ≡ Status.new → ⊥
new-alias e = ground arith

module _ {Box : Type 0} (v : Services Box) (config : IngestConfig) (r : Request) (m : Moment)
    (w : World v.Store) (first : IngestResult) (d : SourceDocument)
    (version : d.version ≡ first.version) (link : d.supersedes_id ≡ first.supersedes_id) where
  unfoldable found_result : Status → Option ℕ → IngestResult
  found_result status count = record {
    status = status;
    document_id = first.document_id;
    chunk_count = none;
    alias_count = count;
    version = d.version;
    supersedes_id = d.supersedes_id;
  }

  found-Repeated :
      (status : Status) (count : Option ℕ)
      → (status ≡ Status.new → ⊥)
      → Repeated first w (w, ingested (found_result status count))
  unfolding found_result
  found-Repeated status count old = record {
    result = found_result status count;
    returned = refl;
    document_id = refl;
    version = version;
    supersedes_id = link;
    not_new = old;
  }

  aliased-Repeated :
      contains d.filename_aliases r.filename ≡ true
      → Repeated first w (Run.aliased v config r m w first.document_id d)
  unfolding found_result
  aliased-Repeated known =
      let answer = Run.alias_result v config r m first.document_id d in
      if-cases (Repeated first w) (contains d.filename_aliases r.filename) (w, answer)
        (if m.alias_session
          then (Run.write_alias v config r m w first.document_id d, answer)
          else (w, raised))
        (λ e. found-Repeated Status.alias (some (length (Run.add_alias v config r m d))) new-alias)
        (λ e. elim (false-true (sym e ∙ known)) [ ])

  duplicate-Repeated :
      (d.filename ≡ r.filename) ⊎ (contains d.filename_aliases r.filename ≡ true)
      → Repeated first w (Run.duplicate v config r m w first.document_id d)
  unfolding found_result
  duplicate-Repeated named =
      if-cases (Repeated first w) (d.filename == r.filename)
        (w, ingested (found_result Status.exists none))
        (Run.aliased v config r m w first.document_id d)
        (λ e. found-Repeated Status.exists none new-exists)
        (λ e. elim named [
          | inl same ↦
              elim (false-true (sym e ∙ (string_eq.beq_iff d.filename r.filename).1 same)) [ ]
          | inr known ↦ aliased-Repeated known
        ])

  deduplicate-Repeated :
      (f : Found)
      → f ≡ one_row first.document_id d
      → (d.filename ≡ r.filename) ⊎ (contains d.filename_aliases r.filename ≡ true)
      → Repeated first w (Run.deduplicate v config r m w f)
  unfolding Run.deduplicate
  deduplicate-Repeated f e named =
      subst (λ x. Repeated first w (Run.deduplicate v config r m w x)) (sym e)
        (duplicate-Repeated named)

-- The other sessions keep the primary keys and the unique indexes, and leave the new row as it is.
pub record Considerate (m : Moment) : Type 0 where
  pub insert_distinct :
      (docs : Documents) → Dict.Distinct docs → Dict.Distinct (m.before_insert docs)
  pub end_distinct : (docs : Documents) → Dict.Distinct docs → Dict.Distinct (m.before_end docs)
  pub insert_indexed : (docs : Documents) → Indexed docs → Indexed (m.before_insert docs)
  pub end_indexed : (docs : Documents) → Indexed docs → Indexed (m.before_end docs)
  pub end_keeps :
      (docs : Documents) (row : SourceDocument)
      → Dict.get docs m.document_id ≡ some row
      → Dict.get (m.before_end docs) m.document_id ≡ some row

-- The same request again, at any later moment, after a run of `run_ingest` that returned a result: the
-- tables, the vector store, the events and the phases stay as they are, and the result is not new and tells
-- the document, the version and the link of the first. The tables hold the primary key and both unique indexes before,
-- and the other sessions of the first run keep these and the new row.
pub run_ingest-Repeated :
    {Box : Type 0} (v : Services Box) (config : IngestConfig) (r : Request) (m later : Moment)
    (w : World v.Store) (first : IngestResult)
    → Considerate m
    → Dict.Distinct w.documents
    → Indexed w.documents
    → (Run.run_ingest v config r m w).1 ≡ ingested first
    → Repeated first
        (Run.run_ingest v config r m w).0
        (Run.run_ingest v config r later (Run.run_ingest v config r m w).0)
unfolding Run.run_ingest
run_ingest-Repeated v config r m later w first others dist indexed e =
    let ran = Run.run_ingest v config r m w in
    let a = ingested_run-Answered v config r m w others.end_keeps dist indexed (rw e refl) in
    let same : a.result ≡ first = ingested_injective (sym a.returned ∙ e) in
    let there = subst (λ x. Dict.get ran.0.documents x.document_id ≡ some a.row) same a.there in
    deduplicate-Repeated v config r later ran.0 first a.row
      (subst (λ x. a.row.version ≡ x.version) same a.version)
      (subst (λ x. a.row.supersedes_id ≡ x.supersedes_id) same a.supersedes_id)
      (find_by_hash ran.0.documents r.namespace (Run.content_hash v config r later))
      (find_by_hash-there ran.0.documents r.namespace (v.sha256 r.file_content) first.document_id
        a.row (run_ingest-Distinct v config r m others.insert_distinct others.end_distinct w dist)
        (run_ingest-Indexed v config r m others.insert_indexed others.end_indexed w indexed).1 there
        a.active a.namespace a.content)
      a.named
