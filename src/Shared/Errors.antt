-- ===== src/Shared/Errors.antt =====
-- vektra_shared/errors.py: the categories, the codes and their HTTP status. Messages, remediations and
-- request ids are left out.
use vektra_stack.Prelude.{ℕ, none, some, [], ◌∷◌, String}
use vektra_stack.Prelude.Eq.{string_eq}
use vektra_stack.Prelude.Dict
use vektra_stack.Prelude.Dict.{Dict}

-- `ErrorCategory`, whose four constants are texts
pub data ErrorCategory : Type 0 where
  transient permanent configuration upstream : ErrorCategory

pub record ErrorResponse : Type 0 where
  pub category : ErrorCategory
  pub code : String

-- `_CATEGORY_STATUS`; its default of 500 is for no constant.
abbrev pub category_status : ErrorCategory → ℕ
category_status ErrorCategory.transient = 503
category_status ErrorCategory.permanent = 422
category_status ErrorCategory.configuration = 500
category_status ErrorCategory.upstream = 502

-- `_CODE_STATUS_OVERRIDE`
abbrev pub code_status_override : Dict String ℕ
code_status_override =
    ("ERR-AUTH-001", 401)
    ∷ ("ERR-AUTH-002", 401)
    ∷ ("ERR-AUTH-003", 403)
    ∷ ("ERR-AUTH-004", 429)
    ∷ ("ERR-QUOTA-001", 422)
    ∷ ("ERR-INGEST-002", 413)
    ∷ ("ERR-QUERY-003", 422)
    ∷ ("ERR-ANALYTICS-002", 404)
    ∷ ("ERR-LEARN-002", 404)
    ∷ ("ERR-LEARN-003", 401)
    ∷ ("ERR-LEARN-004", 409)
    ∷ ("ERR-LEARN-005", 404)
    ∷ ("ERR-LEARN-006", 403)
    ∷ ("ERR-CONV-001", 404)
    ∷ ("ERR-CONV-003", 501)
    ∷ ("ERR-INDEX-001", 409)
    ∷ ("ERR-INDEX-002", 400)
    ∷ ("ERR-INDEX-003", 400)
    ∷ ("ERR-INDEX-004", 404)
    ∷ []

unfoldable pub http_status_for : ErrorResponse → ℕ
http_status_for error = elim (Dict.get code_status_override error.code) [
  | some status ↦ status
  | none ↦ category_status error.category
]

abbrev pub auth_invalid_token : ErrorResponse
auth_invalid_token = record { category = ErrorCategory.permanent; code = "ERR-AUTH-001" }

abbrev pub auth_insufficient_scope : ErrorResponse
auth_insufficient_scope = record { category = ErrorCategory.permanent; code = "ERR-AUTH-003" }
