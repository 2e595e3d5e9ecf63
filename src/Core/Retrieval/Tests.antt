-- ===== src/Core/Retrieval/Tests.antt =====
-- A filter and an expansion on a few results.
use vektra_stack.Prelude.{ℕ, ◌≡◌, ◌*◌, refl, true, Option, none, some, List, [], ◌∷◌, String}
use vektra_stack.Prelude.Tests.{ltb, leb, if◌then◌else◌}
use vektra_stack.Prelude.Eq.{nat_eq, string_eq, ◌==◌, contains}
use vektra_stack.Prelude.Dict
use vektra_stack.Core.Retrieval.{
  Measures, SearchResult, near_duplicate, insert_result, by_score, drop_duplicates,
  apply_retrieval_filter, expand_loop, texts_of, parent_ids, expand_parents,
}
use vektra_stack.Core.Retrieval.Filter.{Filtered, apply_retrieval_filter-Filtered}
use vektra_stack.Core.Retrieval.Loop.{Expanded}
use vektra_stack.Core.Retrieval.Parents.{expand_parents-Expanded}

abbrev measures : Measures
measures = record {
  Score = ℕ;
  geq = λ a b. leb b a;
  words = λ t. if t == "cat and dog" then "cat" ∷ "dog" ∷ [] else t ∷ [];
  overlaps = λ n m. ltb (4 * m) (5 * n);
}

abbrev result : String → ℕ → String → Option String → SearchResult ℕ
result id score text parent = record {
  chunk_id = id;
  score = score;
  text_snippet = text;
  document_id = 1;
  document_version = 1;
  metadata = [];
  original_score = none;
  parent_id = parent;
}

abbrev results : List (SearchResult ℕ)
results =
    result "a" 9 "cat" (some "p")
    ∷ result "b" 8 "cat" (some "p")
    ∷ result "c" 7 "dog" none
    ∷ result "d" 2 "cow" (some "q")
    ∷ []

filtered :
    apply_retrieval_filter measures results 5 true 2 1
    ≡ (result "a" 9 "cat" (some "p") ∷ result "c" 7 "dog" none ∷ [], 0)
unfolding apply_retrieval_filter drop_duplicates by_score insert_result near_duplicate contains
filtered = refl

rescued :
    apply_retrieval_filter measures results 10 true 2 1 ≡ (result "a" 9 "cat" (some "p") ∷ [], 2)
unfolding apply_retrieval_filter drop_duplicates by_score insert_result near_duplicate contains
rescued = refl

apply_retrieval_filter-Filtered_example :
    Filtered measures results 5 1 2 (apply_retrieval_filter measures results 5 true 2 1)
apply_retrieval_filter-Filtered_example = apply_retrieval_filter-Filtered measures results 5 1 2

abbrev parents : List (SearchResult ℕ)
parents = result "p" 0 "cat and dog" none ∷ []

expanded :
    expand_parents (λ ids. some parents) results
    ≡ result "a" 9 "cat and dog" (some "p")
      ∷ result "c" 7 "dog" none
      ∷ result "d" 2 "cow" (some "q")
      ∷ []
unfolding expand_parents expand_loop texts_of parent_ids contains Dict.get Dict.put
expanded = refl

expand_parents-Expanded_example :
    Expanded (texts_of [] parents) results (expand_parents (λ ids. some parents) results)
expand_parents-Expanded_example = expand_parents-Expanded (λ ids. some parents) results parents refl
