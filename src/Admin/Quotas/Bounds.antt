-- ===== src/Admin/Quotas/Bounds.antt =====
-- When a quota check passes.
mod Tests
use vektra_stack.Prelude.{
  ℕ, zero, suc, ◌+◌, ◌≤◌, ◌<◌, ◌≡◌, refl, ◌↔◌, ◌⊎◌, inl, inr, Bool, true, false, Option, none, some,
  List, String, arith,
}
use vektra_stack.Prelude.Tests.{ltb, ltb→lt, lt→ltb, if◌then◌else◌, Bool-cases}
use vektra_stack.Prelude.Eq.{string_eq}
use vektra_stack.Prelude.Int.{ℤ}
use vektra_stack.Prelude.Dict
use vektra_stack.Admin.Quotas.{
  Quotas, Tables, Answer, passes, value_error, raised, with_count, http_exception, current_docs,
  check_chunks, check_documents, check_row, check_namespace_quota,
}

-- An addition to a count stays within a quota: there is none, nothing is added, or the sum is at most it.
abbrev pub Within : Option ℕ → ℕ → ℕ → Type 0
Within none count added = Unit
Within (some quota) count zero = Unit
Within (some quota) count (suc n) = count + suc n ≤ quota

-- The count that the store answers, and what is added to it, are within the quota.
abbrev pub WithinCount : ℕ → ℕ → Option ℕ → Type 0
WithinCount quota added none = ⊥
WithinCount quota added (some count) = count + added ≤ quota

-- The chunk quota can be decided, and is kept.
abbrev pub WithinChunks : Option (String → Option ℕ) → String → Option ℕ → ℕ → Type 0
WithinChunks vector_store ns none c = Unit
WithinChunks vector_store ns (some quota) zero = Unit
WithinChunks none ns (some quota) (suc n) = ⊥
WithinChunks (some count_chunks) ns (some quota) (suc n) =
    WithinCount quota (suc n) (count_chunks ns)

abbrev pub WithinRow : Tables → Option (String → Option ℕ) → String → Option Quotas → ℕ → ℕ → Type 0
WithinRow t vector_store ns none d c = Unit
WithinRow t vector_store ns (some q) d c =
    Within q.quota_documents (current_docs t ns) d × WithinChunks vector_store ns q.quota_chunks c

exception_passes : (n : ℕ) → http_exception n ≡ passes → ⊥
exception_passes n e = ground arith

raised_passes : raised ≡ passes → ⊥
raised_passes e = ground arith

error_passes : value_error ≡ passes → ⊥
error_passes e = ground arith

over_within : (quota sum : ℕ) → quota < sum → sum ≤ quota → ⊥
over_within quota sum over within = omega arith

within_test : (quota sum : ℕ) → ltb quota sum ≡ false → sum ≤ quota
within_test quota sum h = ground arith

-- A test against a quota that refuses on its own, before what comes after it.
test_iff :
    (quota sum status : ℕ) (next : Answer) (Next : Type 0)
    → (next ≡ passes) ↔ Next
    → ((if ltb quota sum then http_exception status else next) ≡ passes) ↔ (sum ≤ quota) × Next
test_iff quota sum status next Next iff = elim (Bool-cases (ltb quota sum)) [
  | inl over ↦ rw over (
    λ e. elim (exception_passes status e) [ ],
    λ w. elim (over_within quota sum (ltb→lt quota sum over) w.0) [ ],
  )
  | inr fits ↦ rw fits (λ e. (within_test quota sum fits, iff.0 e), λ w. iff.1 w.1)
]

with_count_iff :
    (quota added : ℕ) (o : Option ℕ)
    → (with_count quota added o ≡ passes) ↔ WithinCount quota added o
with_count_iff quota added none = (raised_passes, λ w. elim w [ ])
with_count_iff quota added (some count) =
    let t = test_iff quota (count + added) _ passes Unit (λ e. tt, λ w. refl) in
    (λ e. (t.0 e).0, λ w. t.1 (w, tt))

check_chunks_iff :
    (v : Option (String → Option ℕ)) (ns : String) (q : Option ℕ) (c : ℕ)
    → (check_chunks v ns q c ≡ passes) ↔ WithinChunks v ns q c
unfolding check_chunks
check_chunks_iff v ns none c = (λ e. tt, λ w. refl)
check_chunks_iff v ns (some quota) zero = (λ e. tt, λ w. refl)
check_chunks_iff none ns (some quota) (suc n) = (error_passes, λ w. elim w [ ])
check_chunks_iff (some count_chunks) ns (some quota) (suc n) =
    with_count_iff quota (suc n) (count_chunks ns)

check_documents_iff :
    (t : Tables) (v : Option (String → Option ℕ)) (ns : String) (q chunks : Option ℕ) (d c : ℕ)
    → (check_documents t v ns q chunks d c ≡ passes)
      ↔ Within q (current_docs t ns) d × WithinChunks v ns chunks c
unfolding check_documents
check_documents_iff t v ns none chunks d c =
    let i = check_chunks_iff v ns chunks c in (λ e. (tt, i.0 e), λ w. i.1 w.1)
check_documents_iff t v ns (some quota) chunks zero c =
    let i = check_chunks_iff v ns chunks c in (λ e. (tt, i.0 e), λ w. i.1 w.1)
check_documents_iff t v ns (some quota) chunks (suc d) c =
    test_iff quota (current_docs t ns + suc d) _ _ _ (check_chunks_iff v ns chunks c)

check_row_iff :
    (t : Tables) (v : Option (String → Option ℕ)) (ns : String) (row : Option Quotas) (d c : ℕ)
    → (check_row t v ns row d c ≡ passes) ↔ WithinRow t v ns row d c
unfolding check_row
check_row_iff t v ns none d c = (λ e. tt, λ w. refl)
check_row_iff t v ns (some q) d c = check_documents_iff t v ns q.quota_documents q.quota_chunks d c

-- For deltas that are not negative the quota check passes exactly when the namespace has no row, or
-- each of its two quotas is absent, or gets nothing added, or is at least the present count and the
-- addition together; for a chunk quota with chunks to add it needs a vector store that answers
-- a count.
pub check_namespace_quota-Within :
    (t : Tables) (v : Option (String → Option ℕ)) (ns : String) (d c : ℕ)
    → (check_namespace_quota t v ns (ℤ.pos d) (ℤ.pos c) ≡ passes)
      ↔ WithinRow t v ns (Dict.get t.namespaces ns) d c
unfolding check_namespace_quota
check_namespace_quota-Within t v ns d c = check_row_iff t v ns (Dict.get t.namespaces ns) d c
