-- ===== src/Core/Retrieval.antt =====
-- vektra_core/pipeline.py, `_apply_retrieval_filter`, and vektra_core/advanced_pipeline.py, `_expand_parents`.
-- Scores are floats: their order `geq` is a parameter, and so is the test of a quotient against 0.8.
pub mod Filter
pub mod Loop
pub mod Parents
mod Tests
use vektra_stack.Prelude.{
  ℕ, zero, suc, ◌+◌, ◌≡◌, min, Bool, true, false, not, ◌&&◌, Option, none, some, List, [], ◌∷◌,
  ◌++◌, String, map,
}
use vektra_stack.Prelude.Tests.{if◌then◌else◌, ltb}
use vektra_stack.Prelude.Lists.{length, select, any, take}
use vektra_stack.Prelude.Eq.{nat_eq, string_eq, ◌==◌, contains}
use vektra_stack.Prelude.Dict
use vektra_stack.Prelude.Dict.{Dict}
use vektra_stack.Shared.Types.{Metadata}

pub record SearchResult (Score : Type 0) : Type 0 where
  pub chunk_id : String
  pub score : Score
  pub text_snippet : String
  pub document_id : ℕ
  pub document_version : ℕ
  pub metadata : Metadata
  pub original_score : Option Score
  pub parent_id : Option String

-- What is used of floats and texts: `a >= b`, the different words of a text in lower case, and `n / m > 0.8`.
pub record Measures : Type 1 where
  pub Score : Type 0
  pub geq : Score → Score → Bool
  pub words : String → List String
  pub overlaps : ℕ → ℕ → Bool

abbrev pub is_empty {ℓ} : {A : Type ℓ} → List A → Bool
is_empty [] = true
is_empty (x ∷ xs) = false

module _ (f : Measures) where
  -- `_token_overlap_ratio(a, b) > 0.8`
  unfoldable pub near_duplicate : String → String → Bool
  near_duplicate a b =
      let tokens_a = f.words a in
      let tokens_b = f.words b in
      not (is_empty tokens_a)
      && not (is_empty tokens_b)
      && f.overlaps (length (select (contains tokens_b) tokens_a))
          (min (length tokens_a) (length tokens_b))

  -- `sorted(…, key=lambda r: r.score, reverse=True)`, which keeps the order of equal scores
  unfoldable pub insert_result :
      SearchResult f.Score → List (SearchResult f.Score) → List (SearchResult f.Score)
  insert_result r [] = r ∷ []
  insert_result r (x ∷ xs) =
      let rest = insert_result r xs in if f.geq r.score x.score then r ∷ x ∷ xs else x ∷ rest

  unfoldable pub by_score : List (SearchResult f.Score) → List (SearchResult f.Score)
  by_score [] = []
  by_score (r ∷ rs) = insert_result r (by_score rs)

  -- The loop that drops near-duplicates, after the results that are kept so far
  unfoldable pub drop_duplicates :
      List (SearchResult f.Score) → List (SearchResult f.Score) → List (SearchResult f.Score)
  drop_duplicates kept [] = kept
  drop_duplicates kept (candidate ∷ candidates) =
      drop_duplicates
        (if any (λ sel. near_duplicate candidate.text_snippet sel.text_snippet) kept
          then kept
          else kept ++ candidate ∷ [])
        candidates

  abbrev pub deduplicate : Bool → List (SearchResult f.Score) × ℕ → List (SearchResult f.Score) × ℕ
  deduplicate false r = r
  deduplicate true (filtered, rescued) = (drop_duplicates [] (by_score filtered), rescued)

  abbrev pub above : f.Score → List (SearchResult f.Score) → List (SearchResult f.Score)
  above score results = select (λ r. f.geq r.score score) results

  abbrev pub rescue :
      List (SearchResult f.Score)
      → ℕ
      → f.Score
      → List (SearchResult f.Score)
      → List (SearchResult f.Score) × ℕ
  rescue results top_k floor [] =
      let best = take top_k (by_score (above floor results)) in
      if ltb 0 top_k then (best, length best) else ([], 0)
  rescue results top_k floor (r ∷ rs) = (r ∷ rs, 0)

  unfoldable pub apply_retrieval_filter :
      List (SearchResult f.Score) → f.Score → Bool → ℕ → f.Score → List (SearchResult f.Score) × ℕ
  apply_retrieval_filter results min_score dedup_enabled rescue_top_k rescue_floor =
      deduplicate dedup_enabled (rescue results rescue_top_k rescue_floor (above min_score results))

-- `_expand_parents`: the text of a parent that was fetched, for a result that has one
abbrev pub truthy : Option String → Option String
truthy none = none
truthy (some p) = if p == "" then none else some p

abbrev pub parent_of : Dict String String → Option String → Option (String × String)
parent_of parent_text none = none
parent_of parent_text (some p) = elim (Dict.get parent_text p) [
  | none ↦ none
  | some t ↦ some (p, t)
]

module _ {Score : Type 0} where
  -- The loop, after the parents that are seen so far
  abbrev pub expand_step :
      SearchResult Score
      → Option (String × String)
      → List String
      → (List String → List (SearchResult Score))
      → List (SearchResult Score)
  expand_step r none seen rest = r ∷ rest seen
  expand_step r (some (p, text)) seen rest =
      if contains seen p then rest seen else record r { text_snippet = text } ∷ rest (p ∷ seen)

  unfoldable pub expand_loop :
      Dict String String → List String → List (SearchResult Score) → List (SearchResult Score)
  expand_loop parent_text seen [] = []
  expand_loop parent_text seen (r ∷ rs) =
      expand_step r (parent_of parent_text (truthy r.parent_id)) seen
        (λ s. expand_loop parent_text s rs)

  -- `{p.chunk_id: p.text_snippet for p in parents}`
  unfoldable pub texts_of : Dict String String → List (SearchResult Score) → Dict String String
  texts_of texts [] = texts
  texts_of texts (p ∷ ps) = texts_of (Dict.put texts p.chunk_id p.text_snippet) ps

  -- `list(dict.fromkeys(…))`
  unfoldable pub parent_ids : List String → List (SearchResult Score) → List String
  parent_ids ids [] = ids
  parent_ids ids (r ∷ rs) = elim (truthy r.parent_id) [
    | none ↦ parent_ids ids rs
    | some p ↦ parent_ids (if contains ids p then ids else ids ++ p ∷ []) rs
  ]

  abbrev pub with_parents :
      List (SearchResult Score) → Option (List (SearchResult Score)) → List (SearchResult Score)
  with_parents results none = results
  with_parents results (some parents) = expand_loop (texts_of [] parents) [] results

  -- `retrieve` of the vector store may raise (`none`).
  unfoldable pub expand_parents :
      (List String → Option (List (SearchResult Score)))
      → List (SearchResult Score)
      → List (SearchResult Score)
  expand_parents retrieve results = elim (parent_ids [] results) [
    | [] ↦ results
    | p ∷ ps ↦ with_parents results (retrieve (p ∷ ps))
  ]
