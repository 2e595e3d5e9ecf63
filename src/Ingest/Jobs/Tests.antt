-- ===== src/Ingest/Jobs/Tests.antt =====
-- A job for a new version of a document, and the theorem at it.
use vektra_stack.Prelude.{ℕ, ◌≡◌, refl, Bool, true, false, not, none, some, [], ◌∷◌}
use vektra_stack.Prelude.Eq.{nat_eq, ◌==◌}
use vektra_stack.Prelude.Dict
use vektra_stack.Prelude.Dict.{Dict}
use vektra_stack.Ingest.Pipeline.Tests.{
  services, config, revision, moment, world, world-Distinct, world-Indexed,
}
use vektra_stack.Ingest.Jobs.{IngestJob, JobStatus, Updates, ingest_document_task}
use vektra_stack.Ingest.Jobs.Reports.{
  Reported, Unfinished, ingest_document_task-Reported, ingest_document_task-Unfinished,
}

abbrev job : IngestJob
job = record {
  document_id = none;
  namespace_id = "law";
  status = JobStatus.pending;
  phase = none;
  filename = "a.txt";
  error_code = none;
  chunk_count = none;
  percentage = none;
  started_at = none;
  completed_at = none;
}

abbrev jobs : Dict ℕ IngestJob
jobs = (2, job) ∷ []

job_there : Dict.get jobs 2 ≡ some job
unfolding Dict.get
job_there = refl

-- The update of the second phase fails.
abbrev updates : Bool → Updates
updates last = record { first = true; phases = λ i. not (i == 1); last = last }

ingest_document_task-Reported_example :
    (job' : IngestJob) × (Dict.get
        (ingest_document_task
          (services true)
          config
          revision
          moment
          (updates true)
          2
          true
          world
          jobs).1
        2
      ≡ some job')
    × (job'.completed_at ≡ some 100)
    × (job'.phase ≡ none)
    × Reported "other" revision
        (ingest_document_task
          (services true)
          config
          revision
          moment
          (updates true)
          2
          true
          world
          jobs).0.documents
        job'
ingest_document_task-Reported_example =
    ingest_document_task-Reported (services true) config revision moment (updates true) 2 world jobs
      job (λ docs row e. e) world-Distinct world-Indexed job_there refl

ingest_document_task-Unfinished_example :
    (job' : IngestJob) × (Dict.get
        (ingest_document_task
          (services true)
          config
          revision
          moment
          (updates false)
          2
          true
          world
          jobs).1
        2
      ≡ some job')
    × Unfinished job job'
ingest_document_task-Unfinished_example =
    ingest_document_task-Unfinished (services true) config revision moment (updates false) 2 world
      jobs job job_there refl
