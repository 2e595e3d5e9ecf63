-- ===== src/Ingest/Jobs.antt =====
-- vektra_ingest/jobs.py: the records of asynchronous ingest jobs and the task that runs the pipeline. Each
-- statement on the job table may fail, which is only logged; messages are left out.
mod Reports
mod Tests
use vektra_stack.Prelude.{
  ℕ, suc, ◌≡◌, Bool, true, false, ◌&&◌, Option, none, some, List, [], ◌∷◌, String,
}
use vektra_stack.Prelude.Tests.{if◌then◌else◌}
use vektra_stack.Prelude.Lists.{drop, length}
use vektra_stack.Prelude.Eq.{nat_eq, string_eq, ◌==◌}
use vektra_stack.Prelude.Dict
use vektra_stack.Prelude.Dict.{Dict}
use vektra_stack.Ingest.Pipeline.World.{Services, IngestConfig, Request, Moment, World, Ingest}
use vektra_stack.Ingest.Pipeline.Run

pub data JobStatus : Type 0 where
  pending processing indexed failed : JobStatus

pub record IngestJob : Type 0 where
  pub document_id : Option ℕ
  pub namespace_id : String
  pub status : JobStatus
  pub phase : Option String
  pub filename : String
  pub error_code : Option String
  pub chunk_count : Option ℕ
  pub percentage : Option ℕ
  pub started_at : Option ℕ
  pub completed_at : Option ℕ

-- The arguments of `_update_job` that are not none are written.
pub record JobValues : Type 0 where
  pub status : JobStatus
  pub phase : Option String
  pub document_id : Option ℕ
  pub chunk_count : Option ℕ
  pub error_code : Option String
  pub percentage : Option ℕ

abbrev pub or_kept {ℓ} : {A : Type ℓ} → Option A → Option A → Option A
or_kept none kept = kept
or_kept (some a) kept = some a

abbrev pub written_phase : JobStatus → Option String → Option String → Option String
written_phase JobStatus.pending phase kept = or_kept phase kept
written_phase JobStatus.processing phase kept = or_kept phase kept
written_phase JobStatus.indexed phase kept = phase
written_phase JobStatus.failed phase kept = phase

abbrev pub written_start : JobStatus → ℕ → Option ℕ → Option ℕ
written_start JobStatus.processing now kept = or_kept kept (some now)
written_start status now kept = kept

abbrev pub written_end : JobStatus → ℕ → Option ℕ → Option ℕ
written_end JobStatus.indexed now kept = some now
written_end JobStatus.failed now kept = some now
written_end status now kept = kept

abbrev pub write_values : JobValues → ℕ → IngestJob → IngestJob
write_values values now job = record {
  document_id = or_kept values.document_id job.document_id;
  namespace_id = job.namespace_id;
  status = values.status;
  phase = written_phase values.status values.phase job.phase;
  filename = job.filename;
  error_code = or_kept values.error_code job.error_code;
  chunk_count = or_kept values.chunk_count job.chunk_count;
  percentage = or_kept values.percentage job.percentage;
  started_at = written_start values.status now job.started_at;
  completed_at = written_end values.status now job.completed_at;
}

abbrev pub update_row : Dict ℕ IngestJob → ℕ → JobValues → ℕ → Option IngestJob → Dict ℕ IngestJob
update_row jobs job_id values now none = jobs
update_row jobs job_id values now (some job) = Dict.put jobs job_id (write_values values now job)

-- `_update_job`, with whether its statement goes through. Without a session factory, and where the statement
-- raises, it only logs.
unfoldable pub update_job : Bool → Bool → Dict ℕ IngestJob → ℕ → JobValues → ℕ → Dict ℕ IngestJob
update_job session_factory goes_through jobs job_id values now =
    if session_factory && goes_through
    then update_row jobs job_id values now (Dict.get jobs job_id)
    else jobs

-- Which updates of a task go through: the first, those of the phases in their order, and the last.
pub record Updates : Type 0 where
  pub first : Bool
  pub phases : ℕ → Bool
  pub last : Bool

abbrev pub in_phase : String → Option ℕ → JobValues
in_phase phase percentage = record {
  status = JobStatus.processing;
  phase = some phase;
  document_id = none;
  chunk_count = none;
  error_code = none;
  percentage = percentage;
}

abbrev pub failed_with : String → JobValues
failed_with error_code = record {
  status = JobStatus.failed;
  phase = none;
  document_id = none;
  chunk_count = none;
  error_code = some error_code;
  percentage = none;
}

-- The last update, by how the run ended
abbrev pub outcome_values : Ingest → JobValues
outcome_values (Ingest.ingested result) = record {
  status = JobStatus.indexed;
  phase = none;
  document_id = some result.document_id;
  chunk_count = result.chunk_count;
  error_code = none;
  percentage = some 100;
}
outcome_values Ingest.conflict_error = failed_with "ERR-INGEST-001"
outcome_values (Ingest.failed code) = failed_with code
outcome_values Ingest.raised = failed_with "ERR-INGEST-004"

-- `_on_phase` for each phase that the run reports
unfoldable pub report_phases :
    (ℕ → Bool) → Dict ℕ IngestJob → ℕ → ℕ → List (String × Option ℕ) → Dict ℕ IngestJob
report_phases goes_through jobs job_id now [] = jobs
report_phases goes_through jobs job_id now ((phase, percentage) ∷ phases) =
    report_phases (λ i. goes_through (suc i))
      (update_job true (goes_through 0) jobs job_id (in_phase phase percentage) now) job_id now
      phases

module _ {Box : Type 0} (v : Services Box) (config : IngestConfig) (r : Request) (m : Moment)
    (u : Updates) (job_id : ℕ) where
  abbrev pub ran :
      World v.Store → Dict ℕ IngestJob → World v.Store × Ingest → World v.Store × Dict ℕ IngestJob
  ran w jobs (w', end) = (
    w',
    update_job true u.last
        (report_phases u.phases jobs job_id m.now (drop (length w.phases) w'.phases)) job_id
        (outcome_values end) m.now,
  )

  unfoldable pub ingest_document_task :
      Bool → World v.Store → Dict ℕ IngestJob → World v.Store × Dict ℕ IngestJob
  ingest_document_task false w jobs = (w, jobs)
  ingest_document_task true w jobs =
      ran w (update_job true u.first jobs job_id (in_phase "extracting" none) m.now)
        (Run.run_ingest v config r m w)
