-- ===== src/Ingest/Pipeline/Indexes.antt =====
-- vektra_ingest/pipeline.py: the two unique indexes and the primary keys through a whole run.
use vektra_stack.Prelude.{ℕ, ◌≡◌, some, subst, sym}
use vektra_stack.Prelude.Eq.{nat_eq, string_eq}
use vektra_stack.Prelude.Dict
use vektra_stack.Prelude.Dict.{put-Distinct}
use vektra_stack.Ingest.Pipeline.Documents.{SourceDocument, Documents, write}
use vektra_stack.Ingest.Pipeline.World.{Services, IngestConfig, Request, Moment, World}
use vektra_stack.Ingest.Pipeline.Names.{Indexed, write-Indexed}
use vektra_stack.Ingest.Pipeline.Held.{written_put}
use vektra_stack.Ingest.Pipeline.Writes.{run_ingest_kept}
use vektra_stack.Ingest.Pipeline.Run

pub run_ingest-Indexed :
    {Box : Type 0} (v : Services Box) (config : IngestConfig) (r : Request) (m : Moment)
    → ((docs : Documents) → Indexed docs → Indexed (m.before_insert docs))
    → ((docs : Documents) → Indexed docs → Indexed (m.before_end docs))
    → (w : World v.Store) → Indexed w.documents
    → Indexed (Run.run_ingest v config r m w).0.documents
run_ingest-Indexed v config r m insert_kept end_kept w u =
    run_ingest_kept Indexed (λ id. Unit) (λ docs docs' id d q. write-Indexed docs docs' id d) v
      config r m insert_kept end_kept tt w (λ id d found. tt) (λ id d found. tt) u

write-Distinct :
    (m m' : Documents) (id : ℕ) (d : SourceDocument)
    → Dict.Distinct m
    → write m id d ≡ some m'
    → Dict.Distinct m'
write-Distinct m m' id d dist e =
    subst Dict.Distinct (sym (written_put m m' id d e)) (put-Distinct m id d dist)

pub run_ingest-Distinct :
    {Box : Type 0} (v : Services Box) (config : IngestConfig) (r : Request) (m : Moment)
    → ((docs : Documents) → Dict.Distinct docs → Dict.Distinct (m.before_insert docs))
    → ((docs : Documents) → Dict.Distinct docs → Dict.Distinct (m.before_end docs))
    → (w : World v.Store) → Dict.Distinct w.documents
    → Dict.Distinct (Run.run_ingest v config r m w).0.documents
run_ingest-Distinct v config r m insert_kept end_kept w u =
    run_ingest_kept Dict.Distinct (λ id. Unit) (λ docs docs' id d q. write-Distinct docs docs' id d)
      v config r m insert_kept end_kept tt w (λ id d found. tt) (λ id d found. tt) u
