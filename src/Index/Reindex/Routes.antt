-- ===== src/Index/Reindex/Routes.antt =====
-- vektra_index/reindex.py: the routes that start a job, tell its status and delete an index version. The scope
-- of the key is checked in Shared.Auth. A version below 1 is written as 0: the code treats it alike.
use vektra_stack.Prelude.{ℕ, Bool, true, false, not, ◌&&◌, Option, none, some, String}
use vektra_stack.Prelude.Tests.{if◌then◌else◌, ltb}
use vektra_stack.Prelude.Eq.{nat_eq, string_eq, ◌==◌}
use vektra_stack.Prelude.Dict
use vektra_stack.Prelude.Dict.{Dict, get-put}
use vektra_stack.Shared.Errors.{ErrorCategory, ErrorResponse}
use vektra_stack.Index.Reindex.{ReindexJob, JobStatus, World}

abbrev pub active_index_version_refusal : ErrorResponse
active_index_version_refusal = record { category = ErrorCategory.permanent; code = "ERR-INDEX-001" }

abbrev pub invalid_index_version : ErrorResponse
invalid_index_version = record { category = ErrorCategory.permanent; code = "ERR-INDEX-002" }

abbrev pub reindex_target_conflict : ErrorResponse
reindex_target_conflict = record { category = ErrorCategory.permanent; code = "ERR-INDEX-003" }

abbrev pub reindex_job_not_found : ErrorResponse
reindex_job_not_found = record { category = ErrorCategory.permanent; code = "ERR-INDEX-004" }

-- `_namespace_scope_violation` of api.py
abbrev pub namespace_scope_violation : ErrorResponse
namespace_scope_violation = record { category = ErrorCategory.permanent; code = "ERR-AUTH-003" }

-- An answer, or an `HTTPException` with its envelope
pub data Response (A : Type 0) : Type 0 where
  answer : A → Response A
  refused : ErrorResponse → Response A

-- `a or b`, of texts that may be missing
abbrev pub or_else : Option String → String → String
or_else none b = b
or_else (some a) b = if a == "" then b else a

abbrev pub new_job : String → ℕ → ℕ → ReindexJob
new_job namespace source target = record {
  namespace_id = namespace;
  source_index_version = source;
  target_index_version = target;
  status = JobStatus.pending;
  total_documents = 0;
  processed_documents = 0;
  chunks_reindexed = 0;
}

-- `trigger_reindex` under a key that is bound to a namespace or not, with the id that `uuid4` gives
unfoldable pub trigger_reindex :
    {Store : Type 0}
    → ℕ
    → ℕ
    → Option String
    → String
    → ℕ
    → World Store
    → World Store × Response (ℕ × String)
trigger_reindex active_version job_id key_namespace namespace target w =
    if target == active_version then (w, refused reindex_target_conflict) else (
      record w {
        jobs =
            Dict.put w.jobs job_id
              (new_job (or_else key_namespace namespace) active_version target);
      },
      answer (job_id, or_else key_namespace namespace),
    )

-- `reindex_status`: the filters of the query, and the row
abbrev pub visible : Option String → ReindexJob → Bool
visible none job = true
visible (some namespace) job = job.namespace_id == namespace

unfoldable pub reindex_status :
    {Store : Type 0} → Option String → ℕ → World Store → Response ReindexJob
reindex_status key_namespace job_id w = elim (Dict.get w.jobs job_id) [
  | none ↦ refused reindex_job_not_found
  | some job ↦ if visible key_namespace job then answer job else refused reindex_job_not_found
]

-- What `delete_index_version` of the store gives: a count, or `ActiveIndexVersionError`.
pub data Deletion : Type 0 where
  removed : ℕ → Deletion
  active : Deletion

abbrev pub scope_violated : Option String → Option String → Bool
scope_violated none asked = false
scope_violated (some k) none = false
scope_violated (some k) (some n) = not (k == "") && (not (n == "") && not (n == k))

abbrev pub effective_ns : Option String → Option String → String
effective_ns key_namespace asked = or_else key_namespace (or_else asked "default")

module _ {Store : Type 0} (delete : Store → String → ℕ → Store × Deletion) where
  abbrev pub deleted : String → Store × Deletion → Store × Response (String × ℕ)
  deleted namespace (s, removed n) = (s, answer (namespace, n))
  deleted namespace (s, active) = (s, refused active_index_version_refusal)

  unfoldable pub delete_index_version :
      Option String → Option String → ℕ → Store → Store × Response (String × ℕ)
  delete_index_version key_namespace asked index_version s =
      if ltb index_version 1
      then (s, refused invalid_index_version)
      else if scope_violated key_namespace asked
      then (s, refused namespace_scope_violation)
      else deleted (effective_ns key_namespace asked)
          (delete s (effective_ns key_namespace asked) index_version)
