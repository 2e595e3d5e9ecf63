-- ===== src/Ingest/Pipeline/Documents.antt =====
-- The table `source_documents` of vektra_ingest/models.py, and the statements that vektra_ingest/pipeline.py
-- runs on it. Two partial unique indexes hold among its active rows, on (namespace_id, filename) and on
-- (namespace_id, content_hash): a statement that would break one raises (`none`).
use vektra_stack.Prelude.{
  ℕ, Bool, true, false, not, ◌&&◌, ◌||◌, Option, none, some, List, [], ◌∷◌, String,
}
use vektra_stack.Prelude.Tests.{if◌then◌else◌}
use vektra_stack.Prelude.Lists.{any, select}
use vektra_stack.Prelude.Eq.{nat_eq, string_eq, ◌==◌}
use vektra_stack.Prelude.Dict
use vektra_stack.Prelude.Dict.{Dict}

-- `created_at` and `updated_at` are left out.
pub record SourceDocument : Type 0 where
  pub namespace_id : String
  pub filename : String
  pub content_hash : String
  pub content_type : String
  pub file_size_bytes : ℕ
  pub chunk_count : Option ℕ
  pub version : ℕ
  pub supersedes_id : Option ℕ
  pub filename_aliases : List String
  pub deleted_at : Option ℕ
  pub deletion_reason : Option String

-- The rows by their primary key.
abbrev pub Documents : Type 0
Documents = Dict ℕ SourceDocument

-- `deleted_at IS NULL`
abbrev pub is_active : SourceDocument → Bool
is_active d = elim d.deleted_at [ none ↦ true | some t ↦ false ]

abbrev pub same_name : SourceDocument → SourceDocument → Bool
same_name a b = a.namespace_id == b.namespace_id && a.filename == b.filename

abbrev pub same_hash : SourceDocument → SourceDocument → Bool
same_hash a b = a.namespace_id == b.namespace_id && a.content_hash == b.content_hash

-- An active row under another key stands in the way of a row, by a test of the two.
unfoldable pub clashes :
    (SourceDocument → SourceDocument → Bool) → Documents → ℕ → SourceDocument → Bool
clashes same m id d = is_active d && any (λ e. not (e.0 == id) && (is_active e.1 && same d e.1)) m

-- A row is written unless it breaks an index.
unfoldable pub write : Documents → ℕ → SourceDocument → Option Documents
write m id d =
    if clashes same_name m id d || clashes same_hash m id d then none else some (Dict.put m id d)

-- `UPDATE … WHERE id = :id`, for a row that is there
abbrev pub write_over :
    Documents → ℕ → (SourceDocument → SourceDocument) → Option SourceDocument → Option Documents
write_over m id f none = some m
write_over m id f (some row) = write m id (f row)

abbrev pub update : Documents → ℕ → (SourceDocument → SourceDocument) → Option Documents
update m id f = write_over m id f (Dict.get m id)

-- The state after a statement in a session of its own: as before, if the statement or the session fails.
abbrev pub committed : Documents → Bool → Option Documents → Documents
committed m false o = m
committed m true none = m
committed m true (some m') = m'

-- What `scalar_one_or_none` gives; `several` raises, as a lookup does that fails.
pub data Found : Type 0 where
  no_row several : Found
  one_row : ℕ → SourceDocument → Found

abbrev pub scalar_one_or_none : List (ℕ × SourceDocument) → Found
scalar_one_or_none [] = no_row
scalar_one_or_none ((id, d) ∷ []) = one_row id d
scalar_one_or_none (e ∷ e' ∷ rows) = several

-- A lookup that may fail
abbrev pub looked_up : Bool → Found → Found
looked_up true found = found
looked_up false found = several

unfoldable pub find_by_hash : Documents → String → String → Found
find_by_hash m namespace content_hash = scalar_one_or_none (
    select
      (λ e. is_active e.1 && (e.1.namespace_id == namespace && e.1.content_hash == content_hash)) m)

unfoldable pub find_by_name : Documents → String → String → Found
find_by_name m namespace filename =
    scalar_one_or_none
      (select (λ e. is_active e.1 && (e.1.namespace_id == namespace && e.1.filename == filename)) m)

abbrev pub soft_deleted : ℕ → String → SourceDocument → SourceDocument
soft_deleted now reason d = record d { deleted_at = some now; deletion_reason = some reason }

abbrev pub restored : SourceDocument → SourceDocument
restored d = record d { deleted_at = none; deletion_reason = none }

-- `_cleanup_document`, in a session that may fail
abbrev pub cleanup_document : Documents → Bool → ℕ → ℕ → Documents
cleanup_document m session id now =
    committed m session (update m id (soft_deleted now "pipeline_failure"))

-- `_restore_superseded_document`, in a session that may fail
abbrev pub restore_superseded_document : Documents → Bool → ℕ → Documents
restore_superseded_document m session id = committed m session (update m id restored)
