-- ===== src/Admin/Quotas.antt =====
-- vektra_admin/quotas.py: `check_namespace_quota`. The vector store answers the number of chunks of a
-- namespace, or raises, which is `none`.
pub mod Bounds
use vektra_stack.Prelude.{
  ℕ, zero, suc, ◌+◌, ◌≡◌, Bool, true, false, ◌&&◌, ◌||◌, Option, none, some, List, String,
}
use vektra_stack.Prelude.Tests.{ltb, if◌then◌else◌}
use vektra_stack.Prelude.Lists.{length, select}
use vektra_stack.Prelude.Eq.{string_eq, ◌==◌}
use vektra_stack.Prelude.Int.{ℤ, pos, negsuc}
use vektra_stack.Prelude.Dict
use vektra_stack.Prelude.Dict.{Dict}
use vektra_stack.Shared.Errors.{ErrorCategory, ErrorResponse, http_status_for}

-- The two quota columns of `namespaces`
pub record Quotas : Type 0 where
  pub quota_documents : Option ℕ
  pub quota_chunks : Option ℕ

-- A row of `source_documents`, in the columns that are read
pub record SourceDocument : Type 0 where
  pub namespace_id : String
  pub deleted_at : Option ℕ

pub record Tables : Type 0 where
  pub namespaces : Dict String Quotas
  pub source_documents : List SourceDocument

pub data Answer : Type 0 where
  -- `raised` is what the vector store raises.
  passes value_error raised : Answer
  http_exception : ℕ → Answer

abbrev quota_exceeded : ErrorResponse
quota_exceeded = record { category = ErrorCategory.permanent; code = "ERR-QUOTA-001" }

abbrev pub is_deleted : SourceDocument → Bool
is_deleted d = elim d.deleted_at [ none ↦ false | some t ↦ true ]

-- `SELECT count(*) … WHERE namespace_id = :ns AND deleted_at IS NULL`
abbrev pub current_docs : Tables → String → ℕ
current_docs t ns =
    length (select (λ d. if is_deleted d then false else d.namespace_id == ns) t.source_documents)

-- The chunk quota, against what the vector store counts
abbrev pub with_count : ℕ → ℕ → Option ℕ → Answer
with_count quota new_chunks none = raised
with_count quota new_chunks (some current_chunks) =
    if ltb quota (current_chunks + new_chunks)
    then http_exception (http_status_for quota_exceeded)
    else passes

-- The chunk quota, which needs the vector store.
unfoldable pub check_chunks : Option (String → Option ℕ) → String → Option ℕ → ℕ → Answer
check_chunks vector_store ns none new_chunks = passes
check_chunks vector_store ns (some quota) zero = passes
check_chunks none ns (some quota) (suc n) = value_error
check_chunks (some count_chunks) ns (some quota) (suc n) =
    with_count quota (suc n) (count_chunks ns)

-- The document quota, then the chunk quota.
unfoldable pub check_documents :
    Tables → Option (String → Option ℕ) → String → Option ℕ → Option ℕ → ℕ → ℕ → Answer
check_documents t vector_store ns none chunks d c = check_chunks vector_store ns chunks c
check_documents t vector_store ns (some quota) chunks zero c = check_chunks vector_store ns chunks c
check_documents t vector_store ns (some quota) chunks (suc d) c =
    if ltb quota (current_docs t ns + suc d)
    then http_exception (http_status_for quota_exceeded)
    else check_chunks vector_store ns chunks c

-- With the row of the namespace; with neither quota the two checks pass without counting.
unfoldable pub check_row :
    Tables → Option (String → Option ℕ) → String → Option Quotas → ℕ → ℕ → Answer
check_row t vector_store ns none d c = passes
check_row t vector_store ns (some q) d c =
    check_documents t vector_store ns q.quota_documents q.quota_chunks d c

unfoldable pub check_namespace_quota : Tables → Option (String → Option ℕ) → String → ℤ → ℤ → Answer
check_namespace_quota t vector_store ns (pos d) (pos c) =
    check_row t vector_store ns (Dict.get t.namespaces ns) d c
check_namespace_quota t vector_store ns (pos d) (negsuc c) = value_error
check_namespace_quota t vector_store ns (negsuc d) new_chunks = value_error
