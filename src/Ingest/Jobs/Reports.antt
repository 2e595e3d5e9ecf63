-- ===== src/Ingest/Jobs/Reports.antt =====
-- vektra_ingest/jobs.py: what a job reports in the end.
use vektra_stack.Prelude.{
  ℕ, suc, ◌≡◌, refl, ap, ◌⊎◌, inl, inr, Bool, true, false, Option, none, some, List, [], ◌∷◌,
  String,
}
use vektra_stack.Prelude.Lists.{drop, length}
use vektra_stack.Prelude.Eq.{nat_eq, beq_self}
use vektra_stack.Prelude.Dict
use vektra_stack.Prelude.Dict.{Dict, get-put}
use vektra_stack.Ingest.Pipeline.Documents.{SourceDocument, Documents}
use vektra_stack.Ingest.Pipeline.World.{Services, IngestConfig, Request, Moment, World, Ingest}
use vektra_stack.Ingest.Pipeline.Names.{Indexed}
use vektra_stack.Ingest.Pipeline.Rollback.{is_ingested}
use vektra_stack.Ingest.Pipeline.Answers.{Answered}
use vektra_stack.Ingest.Pipeline.Success.{ingested_run-Answered}
use vektra_stack.Ingest.Pipeline.Repeat.{ingested_injective}
use vektra_stack.Ingest.Pipeline.Run
use vektra_stack.Ingest.Jobs.{
  JobStatus, IngestJob, JobValues, update_job, report_phases, in_phase, outcome_values,
  write_values, Updates, ingest_document_task,
}

update_job-get :
    (goes_through : Bool) (jobs : Dict ℕ IngestJob) (job_id : ℕ) (values : JobValues) (now : ℕ)
    (job : IngestJob)
    → goes_through ≡ true
    → Dict.get jobs job_id ≡ some job
    → Dict.get (update_job true goes_through jobs job_id values now) job_id
      ≡ some (write_values values now job)
unfolding update_job
update_job-get goes_through jobs job_id values now job saved e =
    rw (saved, e, get-put, beq_self job_id) refl

-- A job of which the task wrote at most that it is in a phase.
pub record Unfinished (job job' : IngestJob) : Type 0 where
  status : (job'.status ≡ JobStatus.processing) ⊎ (job'.status ≡ job.status)
  completed_at : job'.completed_at ≡ job.completed_at
  document_id : job'.document_id ≡ job.document_id
  chunk_count : job'.chunk_count ≡ job.chunk_count
  error_code : job'.error_code ≡ job.error_code

-- The job is there, unfinished.
abbrev pub Underway : ℕ → IngestJob → Dict ℕ IngestJob → Type 0
Underway job_id job jobs =
    (job' : IngestJob) × (Dict.get jobs job_id ≡ some job') × Unfinished job job'

in_phase-Underway :
    (goes_through : Bool) (jobs : Dict ℕ IngestJob) (job_id now : ℕ) (phase : String)
    (percentage : Option ℕ) (job : IngestJob)
    → Underway job_id job jobs
    → Underway job_id job (update_job true goes_through jobs job_id (in_phase phase percentage) now)
in_phase-Underway false jobs job_id now phase percentage job under = unfold update_job in under
in_phase-Underway true jobs job_id now phase percentage job (job', there, so_far) = (
  write_values (in_phase phase percentage) now job',
  update_job-get true jobs job_id (in_phase phase percentage) now job' refl there,
  record {
    status = inl refl;
    completed_at = so_far.completed_at;
    document_id = so_far.document_id;
    chunk_count = so_far.chunk_count;
    error_code = so_far.error_code;
  },
)

report_phases-Underway :
    (goes_through : ℕ → Bool) (jobs : Dict ℕ IngestJob) (job_id now : ℕ)
    (phases : List (String × Option ℕ)) (job : IngestJob)
    → Underway job_id job jobs
    → Underway job_id job (report_phases goes_through jobs job_id now phases)
unfolding report_phases
report_phases-Underway goes_through jobs job_id now [] job under = under
report_phases-Underway goes_through jobs job_id now ((phase, percentage) ∷ phases) job under =
    report_phases-Underway (λ i. goes_through (suc i))
      (update_job true (goes_through 0) jobs job_id (in_phase phase percentage) now) job_id now
      phases job (in_phase-Underway (goes_through 0) jobs job_id now phase percentage job under)

-- A job that ended: failed with a code, or indexed with a document that is there and active, holds the content
-- that was given, and is in the namespace, under the name that was given or with it as an alias.
pub data Reported (content_hash : String) (r : Request) (docs : Documents) (job : IngestJob)
    : Type 0 where
  failed :
      (code : String)
      → job.status ≡ JobStatus.failed
      → job.error_code ≡ some code
      → Reported content_hash r docs job
  indexed :
      (end : Ingest)
      → (a : Answered content_hash r docs end) → job.status ≡ JobStatus.indexed
      → job.document_id ≡ some a.result.document_id
      → job.percentage ≡ some 100
      → Reported content_hash r docs job

module _ (content_hash : String) (r : Request) (docs : Documents) (now : ℕ) where
  written-Reported :
      (job : IngestJob) (end : Ingest)
      → (is_ingested end ≡ true → Answered content_hash r docs end)
      → Reported content_hash r docs (write_values (outcome_values end) now job)
  written-Reported job (Ingest.ingested result) answered =
      let a = answered refl in
      Reported.indexed (Ingest.ingested result) a refl
        (ap (λ x. some x.document_id) (ingested_injective a.returned)) refl
  written-Reported job Ingest.conflict_error answered = Reported.failed "ERR-INGEST-001" refl refl
  written-Reported job (Ingest.failed code) answered = Reported.failed code refl refl
  written-Reported job Ingest.raised answered = Reported.failed "ERR-INGEST-004" refl refl

  written_end_at :
      (job : IngestJob) (end : Ingest)
      → ((write_values (outcome_values end) now job).completed_at ≡ some now)
        × ((write_values (outcome_values end) now job).phase ≡ none)
  written_end_at job (Ingest.ingested result) = (refl, refl)
  written_end_at job Ingest.conflict_error = (refl, refl)
  written_end_at job (Ingest.failed code) = (refl, refl)
  written_end_at job Ingest.raised = (refl, refl)

-- The job table before the last update of the task
abbrev before_end :
    {Box : Type 0} (v : Services Box)
    → IngestConfig
    → Request
    → Moment
    → Updates
    → ℕ
    → World v.Store
    → Dict ℕ IngestJob
    → Dict ℕ IngestJob
before_end v config r m u job_id w jobs =
    report_phases u.phases (update_job true u.first jobs job_id (in_phase "extracting" none) m.now)
      job_id m.now (drop (length w.phases) (Run.run_ingest v config r m w).0.phases)

before_end-Underway :
    {Box : Type 0} (v : Services Box) (config : IngestConfig) (r : Request) (m : Moment)
    (u : Updates) (job_id : ℕ) (w : World v.Store) (jobs : Dict ℕ IngestJob) (job : IngestJob)
    → Dict.get jobs job_id ≡ some job
    → Underway job_id job (before_end v config r m u job_id w jobs)
before_end-Underway v config r m u job_id w jobs job e =
    let same : Unfinished job job = record {
      status = inr refl;
      completed_at = refl;
      document_id = refl;
      chunk_count = refl;
      error_code = refl;
    } in
    report_phases-Underway u.phases
      (update_job true u.first jobs job_id (in_phase "extracting" none) m.now) job_id m.now
      (drop (length w.phases) (Run.run_ingest v config r m w).0.phases) job
      (in_phase-Underway u.first jobs job_id m.now "extracting" none job (job, e, same))

-- The ingest task, with a session factory, ends the job if the last update of the job goes through, whichever
-- of the updates before it fail: the job has a time of completion and no phase, and it is
-- failed with an error code, or indexed with the id of a document that is then active with the content that was
-- given. The job is there, the tables hold the primary key and both unique indexes before, and the other
-- sessions leave the new row as it is while its content is processed. The first lookup does not raise.
pub ingest_document_task-Reported :
    {Box : Type 0} (v : Services Box) (config : IngestConfig) (r : Request) (m : Moment)
    (u : Updates) (job_id : ℕ) (w : World v.Store) (jobs : Dict ℕ IngestJob) (job : IngestJob)
    → ((docs : Documents) (row : SourceDocument)
        → Dict.get docs m.document_id ≡ some row
        → Dict.get (m.before_end docs) m.document_id ≡ some row)
    → Dict.Distinct w.documents
    → Indexed w.documents
    → Dict.get jobs job_id ≡ some job
    → u.last ≡ true
    → (job' : IngestJob) × (Dict.get
          (ingest_document_task v config r m u job_id true w jobs).1
          job_id
        ≡ some job')
      × (job'.completed_at ≡ some m.now)
      × (job'.phase ≡ none)
      × Reported
          (v.sha256 r.file_content)
          r
          (ingest_document_task v config r m u job_id true w jobs).0.documents
          job'
unfolding ingest_document_task
ingest_document_task-Reported v config r m u job_id w jobs job end_keeps dist unique e saved =
    let run = Run.run_ingest v config r m w in
    let (last, there, so_far) = before_end-Underway v config r m u job_id w jobs job e in
    let (done, unphased) = written_end_at "" r run.0.documents m.now last run.1 in
    (
      write_values (outcome_values run.1) m.now last,
      update_job-get u.last (before_end v config r m u job_id w jobs) job_id (outcome_values run.1)
          m.now last saved there,
      done,
      unphased,
      written-Reported (v.sha256 r.file_content) r run.0.documents m.now last run.1
          (ingested_run-Answered v config r m w end_keeps dist unique),
    )

-- Where the last update of the job fails, the ingest task with a session factory leaves the job unfinished,
-- however the run ended: its time of completion, document, chunk count and error code are what they
-- were, and its status is processing or what it was. The job is there.
pub ingest_document_task-Unfinished :
    {Box : Type 0} (v : Services Box) (config : IngestConfig) (r : Request) (m : Moment)
    (u : Updates) (job_id : ℕ) (w : World v.Store) (jobs : Dict ℕ IngestJob) (job : IngestJob)
    → Dict.get jobs job_id ≡ some job
    → u.last ≡ false
    → (job' : IngestJob) × (Dict.get
          (ingest_document_task v config r m u job_id true w jobs).1
          job_id
        ≡ some job')
      × Unfinished job job'
unfolding ingest_document_task update_job
ingest_document_task-Unfinished v config r m u job_id w jobs job e lost =
    rw lost (before_end-Underway v config r m u job_id w jobs job e)
