-- ===== src/Ingest/Cleanup/Purge/Tests.antt =====
-- A cleanup that drops one of two deleted documents: the store refuses the other.
use vektra_stack.Prelude.{
  ℕ, ◌≡◌, refl, sym, ap, ◌∙◌, inl, inr, Bool, true, false, not, some, List, [], ◌∷◌, String, arith,
}
use vektra_stack.Prelude.Tests.{if◌then◌else◌}
use vektra_stack.Prelude.Lists.{select}
use vektra_stack.Prelude.Eq.{nat_eq, string_eq, ◌==◌, contains}
use vektra_stack.Prelude.Dict
use vektra_stack.Shared.Registry
use vektra_stack.Shared.Registry.{ProviderRegistry, found}
use vektra_stack.Ingest.Cleanup.{
  VectorStore, SourceDocument, Worker, returned, purge_chunks, purge, with_store, with_registry,
  with_factory, cleanup_soft_deleted_task,
}
use vektra_stack.Ingest.Cleanup.Purge.{UniqueIds, KeptOrGone, cleanup_drops_gone}

-- A store of document ids in one namespace, which refuses to delete the id 9.
abbrev store_delete : List ℕ → ℕ → List ℕ × Bool
store_delete s d = if d == 9 then (s, false) else (select (λ x. not (x == d)) s, true)

abbrev contains_id : List ℕ → ℕ → Bool
contains_id [] d = false
contains_id (x ∷ xs) d = if x == d then true else contains_id xs d

gone_after : (s : List ℕ) (d : ℕ) → contains_id (select (λ x. not (x == d)) s) d ≡ false
gone_after [] d = refl
gone_after (x ∷ s) d = ground (arith, gone_after s d)

kept_gone :
    (s : List ℕ) (d e : ℕ)
    → contains_id s e ≡ false
    → contains_id (select (λ x. not (x == d)) s) e ≡ false
kept_gone [] d e h = refl
kept_gone (x ∷ s) d e h = ground (arith, kept_gone s d e)

store_delete-gone :
    (s : List ℕ) (ns : String) (d : ℕ)
    → (store_delete s d).1 ≡ true
    → contains_id (store_delete s d).0 d ≡ false
store_delete-gone s ns d h = ground (arith, gone_after s d)

store_delete-keeps :
    (s : List ℕ) (ns : String) (d : ℕ) (n : String) (e : ℕ)
    → contains_id s e ≡ false
    → contains_id (store_delete s d).0 e ≡ false
store_delete-keeps s ns d n e h = ground (arith, kept_gone s d e)

abbrev ids : VectorStore
ids = record {
  Store = List ℕ;
  delete = λ s ns d. store_delete s d;
  holds = λ s ns d. contains_id s d;
  delete-gone = store_delete-gone;
  delete-keeps = store_delete-keeps;
}

abbrev old : SourceDocument
old = record { id = 7; namespace_id = "course"; deleted_at = some 10 }

abbrev stuck : SourceDocument
stuck = record { id = 9; namespace_id = "course"; deleted_at = some 10 }

abbrev worker : List SourceDocument → List ℕ → Worker ids
worker documents store = record {
  documents = documents;
  registry = some (("vector_store", ("default", store) ∷ []) ∷ []);
  has_session_factory = true;
  first_session = true;
  second_session = true;
}

cleanup_runs :
    cleanup_soft_deleted_task ids (worker (old ∷ stuck ∷ []) (7 ∷ 9 ∷ [])) (some 1) 100000
    ≡ returned (worker (stuck ∷ []) (9 ∷ []))
unfolding cleanup_soft_deleted_task with_factory with_registry with_store purge purge_chunks
    Registry.get Registry.register Dict.get Dict.put contains
cleanup_runs = refl

seven_nine : ◌≡◌ {A = ℕ} 7 9 → ⊥
seven_nine e = omega arith

unique : UniqueIds ids (old ∷ stuck ∷ [])
unique a b (inl x) (inl y) e = x ∙ sym y
unique a b (inr (inl x)) (inr (inl y)) e = x ∙ sym y
unique a b (inl x) (inr (inl y)) e =
    elim (seven_nine (sym (ap (λ d. d.id) x) ∙ e ∙ ap (λ d. d.id) y)) [ ]
unique a b (inr (inl x)) (inl y) e =
    elim (seven_nine (sym (ap (λ d. d.id) y) ∙ sym e ∙ ap (λ d. d.id) x)) [ ]
unique a b (inr (inr x)) m e = elim x [ ]
unique a b m (inr (inr y)) e = elim y [ ]

cleanup_drops_gone_example : KeptOrGone ids 1 100000 (worker (stuck ∷ []) (9 ∷ [])) old
cleanup_drops_gone_example =
    cleanup_drops_gone ids (worker (old ∷ stuck ∷ []) (7 ∷ 9 ∷ [])) (worker (stuck ∷ []) (9 ∷ [])) 1
      100000 unique cleanup_runs old (inl refl)
