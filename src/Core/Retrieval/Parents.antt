-- ===== src/Core/Retrieval/Parents.antt =====
-- vektra_core/advanced_pipeline.py: parents in place of children.
use vektra_stack.Prelude.{
  ◌≡◌, refl, sym, ap, subst, ◌∙◌, Option, none, some, List, [], ◌∷◌, ◌++◌, String, arith,
}
use vektra_stack.Prelude.Tests.{if◌then◌else◌, if-cases, option-cases}
use vektra_stack.Prelude.Eq.{string_eq, contains}
use vektra_stack.Prelude.Dict.{Dict}
use vektra_stack.Core.Retrieval.{
  SearchResult, truthy, parent_of, expand_step, expand_loop, texts_of, parent_ids, with_parents,
  expand_parents,
}
use vektra_stack.Core.Retrieval.Loop.{Expanded, expand_loop-Expanded}

grown : (ids : List String) (p : String) → (if contains ids p then ids else ids ++ p ∷ []) ≡ [] → ⊥
unfolding contains
grown [] p = λ e. ground (arith, e)
grown (x ∷ xs) p =
    if-cases (λ l. l ≡ [] → ⊥) (contains (x ∷ xs) p) (x ∷ xs) (x ∷ xs ++ p ∷ [])
      (λ y e. ground (arith, e)) (λ n e. ground (arith, e))

no_ids :
    {Score : Type 0} (ids : List String) (rs : List (SearchResult Score))
    → parent_ids ids rs ≡ []
    → ids ≡ []
unfolding parent_ids
no_ids ids [] = λ e. e
no_ids ids (r ∷ rs) =
    option-cases (λ l. l ≡ [] → ids ≡ []) (truthy r.parent_id) (parent_ids ids rs)
      (λ p. parent_ids (if contains ids p then ids else ids ++ p ∷ []) rs)
      (λ out e. no_ids ids rs e)
      (λ p found e.
        elim (grown ids p (no_ids (if contains ids p then ids else ids ++ p ∷ []) rs e)) [ ])

no_link :
    {Score : Type 0} (ids : List String) (r : SearchResult Score) (rs : List (SearchResult Score))
    → parent_ids ids (r ∷ rs) ≡ []
    → (truthy r.parent_id ≡ none) × (parent_ids ids rs ≡ [])
unfolding parent_ids
no_link ids r rs =
    option-cases (λ l. l ≡ [] → (truthy r.parent_id ≡ none) × (parent_ids ids rs ≡ []))
      (truthy r.parent_id) (parent_ids ids rs)
      (λ p. parent_ids (if contains ids p then ids else ids ++ p ∷ []) rs) (λ out e. (out, e))
      (λ p found e.
        elim (grown ids p (no_ids (if contains ids p then ids else ids ++ p ∷ []) rs e)) [ ])

-- Results without parents stay as they are.
unexpanded :
    {Score : Type 0} (texts : Dict String String) (ids seen : List String)
    (rs : List (SearchResult Score))
    → parent_ids ids rs ≡ []
    → expand_loop texts seen rs ≡ rs
unfolding expand_loop
unexpanded texts ids seen [] e = refl
unexpanded texts ids seen (r ∷ rs) e =
    let (alone, rest) = no_link ids r rs e in
    subst (λ o. expand_step r (parent_of texts o) seen (λ s. expand_loop texts s rs) ≡ r ∷ rs)
      (sym alone) (ap (◌∷◌ r) (unexpanded texts ids seen rs rest))

-- The expansion, where the store returns chunks for the parents: each result is one of those it is given, as it
-- was or with the text of its parent; no parent that was returned stands for two of them; and each that is
-- given is there as it was, or is there with its parent's text, itself or a sibling.
pub expand_parents-Expanded :
    {Score : Type 0} (retrieve : List String → Option (List (SearchResult Score)))
    (results parents : List (SearchResult Score))
    → retrieve (parent_ids [] results) ≡ some parents
    → Expanded (texts_of [] parents) results (expand_parents retrieve results)
unfolding expand_parents
expand_parents-Expanded {Score} retrieve results parents e = fetch (parent_ids [] results) refl
  where
    texts : Dict String String
    texts = texts_of [] parents

    fetch :
        (ids : List String)
        → parent_ids [] results ≡ ids
        → Expanded texts results
            (elim ids [ [] ↦ results | p ∷ ps ↦ with_parents results (retrieve (p ∷ ps)) ])
    fetch [] none_linked =
        subst (Expanded texts results) (unexpanded texts [] [] results none_linked)
          (expand_loop-Expanded texts results)
    fetch (p ∷ ps) linked =
        subst (λ o. Expanded texts results (with_parents results o))
          (sym (ap retrieve (sym linked) ∙ e)) (expand_loop-Expanded texts results)
