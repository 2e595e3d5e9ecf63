-- ===== src/Ingest/Pipeline/Isolation.antt =====
-- vektra_ingest/pipeline.py: the rows that a run does not touch.
use vektra_stack.Prelude.{
  ℕ, ◌≡◌, ◌≢◌, sym, ap, ◌∙◌, ◌⊎◌, inl, inr, Bool, true, false, ◌&&◌, ◌||◌, none, some, String,
  arith,
}
use vektra_stack.Prelude.Tests.{false-true, none-some, some_injective}
use vektra_stack.Prelude.Eq.{nat_eq, string_eq, ◌==◌, beq_ne}
use vektra_stack.Prelude.Dict
use vektra_stack.Prelude.Dict.{get-put}
use vektra_stack.Ingest.Pipeline.Documents.{
  SourceDocument, Documents, write, is_active, one_row, find_by_hash, find_by_name,
}
use vektra_stack.Ingest.Pipeline.World.{Services, IngestConfig, Request, Moment, World}
use vektra_stack.Ingest.Pipeline.Held.{written_put}
use vektra_stack.Ingest.Pipeline.Lookup.{find_by_hash-one_row, find_by_name-one_row}
use vektra_stack.Ingest.Pipeline.Writes.{run_ingest_kept}
use vektra_stack.Ingest.Pipeline.Run

get-write_other :
    (docs docs' : Documents) (id j : ℕ) (d row : SourceDocument)
    → j ≢ id
    → Dict.get docs id ≡ some d
    → write docs j row ≡ some docs'
    → Dict.get docs' id ≡ some d
get-write_other docs docs' id j d row other e went =
    rw (written_put docs docs' j row went, get-put, beq_ne j id other) e

-- An active document of the namespace, with the name or the content that is given
abbrev pub related : String → String → String → SourceDocument → Bool
related namespace filename content_hash d =
    is_active d
    && (d.namespace_id == namespace && (d.filename == filename || d.content_hash == content_hash))

found-related :
    (namespace filename content_hash : String) (d : SourceDocument)
    → is_active d ≡ true
    → d.namespace_id ≡ namespace
    → (d.filename ≡ filename) ⊎ (d.content_hash ≡ content_hash)
    → related namespace filename content_hash d ≡ true
found-related namespace filename content_hash d active here by = ground (
  arith,
  active,
  here,
  by,
  string_eq.beq_iff d.namespace_id namespace,
  string_eq.beq_iff d.filename filename,
  string_eq.beq_iff d.content_hash content_hash,
)

module _ (docs : Documents) (namespace filename content_hash : String) (id : ℕ) (d : SourceDocument)
    (e : Dict.get docs id ≡ some d)
    (unrelated : related namespace filename content_hash d ≡ false) where
  -- A related row is under another id.
  other_row :
      (j : ℕ) (b : SourceDocument)
      → Dict.get docs j ≡ some b
      → related namespace filename content_hash b ≡ true
      → j ≢ id
  other_row j b there is_related same =
      let row : d ≡ b = some_injective (sym e ∙ ap (Dict.get docs) (sym same) ∙ there) in
      false-true (sym unrelated ∙ ap (related namespace filename content_hash) row ∙ is_related)

  module _ (dist : Dict.Distinct docs) where
    found_hash_other :
        (j : ℕ) (b : SourceDocument)
        → find_by_hash docs namespace content_hash ≡ one_row j b
        → j ≢ id
    found_hash_other j b found =
        let (there, active, here, by) =
          find_by_hash-one_row docs dist namespace content_hash j b found in
        other_row j b there (found-related namespace filename content_hash b active here (inr by))

    found_name_other :
        (j : ℕ) (b : SourceDocument) → find_by_name docs namespace filename ≡ one_row j b → j ≢ id
    found_name_other j b found =
        let (there, active, here, by) =
          find_by_name-one_row docs dist namespace filename j b found in
        other_row j b there (found-related namespace filename content_hash b active here (inl by))

-- However a run of `run_ingest` ends, and whatever statements and parts fail on its way, it leaves a document
-- as it was that is deleted, or is in another namespace, or has neither the name nor the content that is
-- given. The primary keys hold before, the id of the new row is free, and the other sessions leave the
-- document as it is. The first lookup does not raise.
pub run_ingest_others :
    {Box : Type 0} (v : Services Box) (config : IngestConfig) (r : Request) (m : Moment)
    (w : World v.Store) (id : ℕ) (d : SourceDocument)
    → ((docs : Documents) → Dict.get docs id ≡ some d → Dict.get (m.before_insert docs) id ≡ some d)
    → ((docs : Documents) → Dict.get docs id ≡ some d → Dict.get (m.before_end docs) id ≡ some d)
    → Dict.Distinct w.documents
    → Dict.get w.documents m.document_id ≡ none
    → Dict.get w.documents id ≡ some d
    → related r.namespace r.filename (v.sha256 r.file_content) d ≡ false
    → Dict.get (Run.run_ingest v config r m w).0.documents id ≡ some d
run_ingest_others v config r m w id d insert_keeps end_keeps dist free e unrelated =
    run_ingest_kept (λ docs. Dict.get docs id ≡ some d) (λ j. j ≢ id)
      (λ docs docs' j row other e' went. get-write_other docs docs' id j d row other e' went) v
      config r m insert_keeps end_keeps
      (λ same. none-some (sym free ∙ ap (Dict.get w.documents) same ∙ e)) w
      (found_hash_other w.documents r.namespace r.filename (v.sha256 r.file_content) id d e
        unrelated dist)
      (found_name_other w.documents r.namespace r.filename (v.sha256 r.file_content) id d e
        unrelated dist)
      e
