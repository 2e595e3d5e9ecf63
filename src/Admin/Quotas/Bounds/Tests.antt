-- ===== src/Admin/Quotas/Bounds/Tests.antt =====
-- A namespace with room for one more document.
use vektra_stack.Prelude.{◌≡◌, refl, ◌↔◌, none, some, [], ◌∷◌}
use vektra_stack.Prelude.Eq.{string_eq}
use vektra_stack.Prelude.Int.{ℤ}
use vektra_stack.Prelude.Dict
use vektra_stack.Shared.Errors.{http_status_for}
use vektra_stack.Admin.Quotas.{
  Tables, passes, raised, http_exception, check_namespace_quota, check_row, check_documents,
  check_chunks,
}
use vektra_stack.Admin.Quotas.Bounds.{WithinRow, check_namespace_quota-Within}

abbrev tables : Tables
tables = record {
  namespaces = ("course", record { quota_documents = some 3; quota_chunks = none }) ∷ [];
  source_documents =
      record { namespace_id = "course"; deleted_at = none }
      ∷ record { namespace_id = "course"; deleted_at = some 5 }
      ∷ record { namespace_id = "course"; deleted_at = none }
      ∷ [];
}

one_fits : check_namespace_quota tables none "course" (ℤ.pos 1) (ℤ.pos 0) ≡ passes
unfolding check_namespace_quota check_row check_documents check_chunks Dict.get
one_fits = refl

two_refused : check_namespace_quota tables none "course" (ℤ.pos 2) (ℤ.pos 0) ≡ http_exception 422
unfolding check_namespace_quota check_row check_documents check_chunks Dict.get http_status_for
two_refused = refl

abbrev limited : Tables
limited = record {
  namespaces = ("course", record { quota_documents = none; quota_chunks = some 9 }) ∷ [];
  source_documents = [];
}

count_raises :
    check_namespace_quota limited (some (λ ns. none)) "course" (ℤ.pos 1) (ℤ.pos 2) ≡ raised
unfolding check_namespace_quota check_row check_documents check_chunks Dict.get
count_raises = refl

check_namespace_quota-Within_example :
    (check_namespace_quota limited (some (λ ns. some 7)) "course" (ℤ.pos 1) (ℤ.pos 2) ≡ passes)
    ↔ WithinRow limited (some (λ ns. some 7)) "course" (Dict.get limited.namespaces "course") 1 2
check_namespace_quota-Within_example =
    check_namespace_quota-Within limited (some (λ ns. some 7)) "course" 1 2
