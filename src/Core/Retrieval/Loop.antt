-- ===== src/Core/Retrieval/Loop.antt =====
-- vektra_core/advanced_pipeline.py: the loop of `_expand_parents`.
use vektra_stack.Prelude.{
  ◌≡◌, refl, sym, ap, subst, ◌∙◌, ◌⊎◌, inl, inr, true, false, Option, none, some, List, [], ◌∷◌,
  String, arith,
}
use vektra_stack.Prelude.Tests.{
  if-cases, option-cases, none-some, some_injective, false-true, Bool-cases,
}
use vektra_stack.Prelude.Members.{Member}
use vektra_stack.Prelude.Eq.{string_eq, ◌==◌, contains}
use vektra_stack.Prelude.Dict
use vektra_stack.Prelude.Dict.{Dict}
use vektra_stack.Core.Retrieval.{SearchResult, truthy, parent_of, expand_step, expand_loop}

-- The parent of a result, where one was fetched, is not among those seen.
abbrev Unseen : List String → Option (String × String) → Type 0
Unseen seen none = Unit {0}
Unseen seen (some (p, text)) = contains seen p ≡ false

abbrev seen_after : List String → Option (String × String) → List String
seen_after seen none = seen
seen_after seen (some (p, text)) = p ∷ seen

parent_of-truthy :
    (texts : Dict String String) (o : Option String) (p text : String)
    → parent_of texts o ≡ some (p, text)
    → o ≡ some p
parent_of-truthy texts none p text = λ e. elim (none-some e) [ ]
parent_of-truthy texts (some q) p text =
    option-cases (λ x. x ≡ some (p, text) → some q ≡ some p) (Dict.get texts q) none
      (λ t. some (q, t)) (λ out e. elim (none-some e) [ ])
      (λ t found e. ap (λ x. some x.0) (some_injective e))

parent_of-get :
    (texts : Dict String String) (o : Option String) (p text : String)
    → parent_of texts o ≡ some (p, text)
    → Dict.get texts p ≡ some text
parent_of-get texts none p text = λ e. elim (none-some e) [ ]
parent_of-get texts (some q) p text =
    option-cases (λ x. x ≡ some (p, text) → Dict.get texts p ≡ some text) (Dict.get texts q) none
      (λ t. some (q, t)) (λ out e. elim (none-some e) [ ])
      (λ t found e. subst (λ k. Dict.get texts k.0 ≡ some k.1) (some_injective e) found)

module _ {Score : Type 0} (texts : Dict String String) where
  abbrev pub parent : SearchResult Score → Option (String × String)
  parent r = parent_of texts (truthy r.parent_id)

  -- No parent that was fetched stands for two results.
  abbrev pub Once : List String → List (SearchResult Score) → Type 0
  Once seen [] = Unit {0}
  Once seen (x ∷ xs) = Unseen seen (parent x) × Once (seen_after seen (parent x)) xs

  -- A result as it was, or one with the text of its parent
  abbrev pub From : SearchResult Score → Option (String × String) → SearchResult Score → Type 0
  From r none x = x ≡ r
  From r (some (p, text)) x = x ≡ record r { text_snippet = text }

  -- A result that is there, or whose parent's text is there for it or for a result with the same parent
  abbrev pub Present :
      SearchResult Score → Option (String × String) → List (SearchResult Score) → Type 0
  Present r none out = Member r out
  Present r (some (p, text)) out =
      (x : SearchResult Score) × Member x out
      × (x.text_snippet ≡ text)
      × (truthy x.parent_id ≡ some p)

  expand_loop-Once :
      (seen : List String) (rs : List (SearchResult Score)) → Once seen (expand_loop texts seen rs)
  unfolding expand_loop
  expand_loop-Once seen [] = tt
  expand_loop-Once seen (r ∷ rs) = step (parent r) refl (λ s. expand_loop-Once s rs)
    where
      step :
          (o : Option (String × String))
          → parent r ≡ o
          → ((s : List String) → Once s (expand_loop texts s rs))
          → Once seen (expand_step r o seen (λ s. expand_loop texts s rs))
      step none e ih = rw e (tt, ih seen)
      step (some (p, text)) e ih =
          if-cases (Once seen) (contains seen p) (expand_loop texts seen rs)
            (record r { text_snippet = text } ∷ expand_loop texts (p ∷ seen) rs) (λ y. ih seen)
            (λ n. rw e (n, ih (p ∷ seen)))

  expand_loop-From :
      (seen : List String) (rs : List (SearchResult Score)) (x : SearchResult Score)
      → Member x (expand_loop texts seen rs)
      → (r : SearchResult Score) × Member r rs × From r (parent r) x
  unfolding expand_loop
  expand_loop-From seen [] x m = elim m [ ]
  expand_loop-From seen (r ∷ rs) x m = step (parent r) refl (λ s. expand_loop-From s rs x) m
    where
      Origin : Type 0
      Origin = (r' : SearchResult Score) × Member r' (r ∷ rs) × From r' (parent r') x

      later : (r' : SearchResult Score) × Member r' rs × From r' (parent r') x → Origin
      later (r', m, from) = (r', inr m, from)

      step :
          (o : Option (String × String))
          → parent r ≡ o
          → ((s : List String)
              → Member x (expand_loop texts s rs)
              → (r' : SearchResult Score) × Member r' rs × From r' (parent r') x)
          → Member x (expand_step r o seen (λ s. expand_loop texts s rs))
          → Origin
      step none e ih (inl here) = (r, inl refl, subst (λ o. From r o x) (sym e) here)
      step none e ih (inr m) = later (ih seen m)
      step (some (p, text)) e ih m0 =
          if-cases (λ l. Member x l → Origin) (contains seen p) (expand_loop texts seen rs)
            (record r { text_snippet = text } ∷ expand_loop texts (p ∷ seen) rs)
            (λ y m. later (ih seen m))
            (λ n m. elim m [
              | inl here ↦ (r, inl refl, subst (λ o. From r o x) (sym e) here)
              | inr m' ↦ later (ih (p ∷ seen) m')
            ])
            m0

  -- A result is present, or its parent was seen before.
  abbrev Done :
      List String
      → SearchResult Score
      → Option (String × String)
      → List (SearchResult Score)
      → Type 0
  Done seen r none out = Present r none out
  Done seen r (some (p, text)) out = Present r (some (p, text)) out ⊎ (contains seen p ≡ true)

  Done-more :
      (seen : List String) (r y : SearchResult Score) (o : Option (String × String))
      (out : List (SearchResult Score))
      → Done seen r o out
      → Done seen r o (y ∷ out)
  Done-more seen r y none out d = inr d
  Done-more seen r y (some (p, text)) out (inl (x, m, e, l)) = inl (x, inr m, e, l)
  Done-more seen r y (some (p, text)) out (inr s) = inr s

  -- The head of a list of results, after the parents that are seen
  head-Done :
      (seen : List String) (r : SearchResult Score) (o : Option (String × String))
      (rest : List String → List (SearchResult Score))
      → parent r ≡ o
      → Done seen r o (expand_step r o seen rest)
  head-Done seen r none rest e = inl refl
  head-Done seen r (some (p, text)) rest e =
      if-cases (Done seen r (some (p, text))) (contains seen p) (rest seen)
        (record r { text_snippet = text } ∷ rest (p ∷ seen)) (λ y. inr y)
        (λ n. inl (
          record r { text_snippet = text },
          inl refl,
          refl,
          parent_of-truthy texts (truthy r.parent_id) p text e,
        ))

  -- The parent that the head brings
  brought-Done :
      (seen : List String) (r h : SearchResult Score) (o : Option (String × String))
      (p text : String) (out : List (SearchResult Score))
      → parent r ≡ o
      → parent h ≡ some (p, text)
      → Done (p ∷ seen) r o out
      → Done seen r o (record h { text_snippet = text } ∷ out)
  unfolding contains
  brought-Done seen r h none p text out e e' d = inr d
  brought-Done seen r h (some (q, t)) p text out e e' (inl (x, m, t_same, l)) =
      inl (x, inr m, t_same, l)
  brought-Done seen r h (some (q, t)) p text out e e' (inr s) = elim (Bool-cases (q == p)) [
    | inl y ↦
        let same = (string_eq.beq_iff q p).0 y in
        inl (
          record h { text_snippet = text },
          inl refl,
          some_injective (
              sym (parent_of-get texts (truthy h.parent_id) p text e')
              ∙ ap (Dict.get texts) (sym same)
              ∙ parent_of-get texts (truthy r.parent_id) q t e),
          parent_of-truthy texts (truthy h.parent_id) p text e' ∙ ap some (sym same),
        )
    | inr n ↦ inr (ground (arith, s, n))
  ]

  tail-Done :
      (seen : List String) (r h : SearchResult Score) (o : Option (String × String))
      (rest : List String → List (SearchResult Score))
      → parent h ≡ o
      → ((s : List String) → Done s r (parent r) (rest s))
      → Done seen r (parent r) (expand_step h o seen rest)
  tail-Done seen r h none rest e ih = Done-more seen r h (parent r) (rest seen) (ih seen)
  tail-Done seen r h (some (p, text)) rest e ih =
      if-cases (Done seen r (parent r)) (contains seen p) (rest seen)
        (record h { text_snippet = text } ∷ rest (p ∷ seen)) (λ y. ih seen)
        (λ n. brought-Done seen r h (parent r) p text (rest (p ∷ seen)) refl e (ih (p ∷ seen)))

  expand_loop-Done :
      (seen : List String) (rs : List (SearchResult Score)) (r : SearchResult Score)
      → Member r rs
      → Done seen r (parent r) (expand_loop texts seen rs)
  unfolding expand_loop
  expand_loop-Done seen [] r m = elim m [ ]
  expand_loop-Done seen (h ∷ rs) r (inl here) =
      subst
        (λ z. Done seen z (parent z) (expand_step h (parent h) seen (λ s. expand_loop texts s rs)))
        (sym here) (head-Done seen h (parent h) (λ s. expand_loop texts s rs) refl)
  expand_loop-Done seen (h ∷ rs) r (inr later) =
      tail-Done seen r h (parent h) (λ s. expand_loop texts s rs) refl
        (λ s. expand_loop-Done s rs r later)

  Done-Present :
      (r : SearchResult Score) (o : Option (String × String)) (out : List (SearchResult Score))
      → Done [] r o out
      → Present r o out
  unfolding contains
  Done-Present r none out d = d
  Done-Present r (some (p, text)) out (inl d) = d
  Done-Present r (some (p, text)) out (inr e) = elim (false-true e) [ ]

  -- What the expansion makes of the results: each is one of them, as it was or with the text of its parent; a
  -- parent stands for at most one; and each of them is present.
  pub record Expanded (results out : List (SearchResult Score)) : Type 0 where
    pub from :
        (x : SearchResult Score)
        → Member x out
        → (r : SearchResult Score) × Member r results × From r (parent r) x
    pub once : Once [] out
    pub present : (r : SearchResult Score) → Member r results → Present r (parent r) out

  pub expand_loop-Expanded :
      (results : List (SearchResult Score)) → Expanded results (expand_loop texts [] results)
  expand_loop-Expanded results = record {
    from = λ x m. expand_loop-From [] results x m;
    once = expand_loop-Once [] results;
    present = λ r m.
        Done-Present r (parent r) (expand_loop texts [] results) (expand_loop-Done [] results r m);
  }
