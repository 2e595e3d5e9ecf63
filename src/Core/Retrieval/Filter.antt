-- ===== src/Core/Retrieval/Filter.antt =====
-- vektra_core/pipeline.py: which results pass the filter.
use vektra_stack.Prelude.{
  ℕ, suc, ◌+◌, min, ◌≤◌, ◌≡◌, ◌↔◌, refl, sym, ap, subst, ◌∙◌, ◌⊎◌, inl, inr, Bool, true, false,
  List, [], ◌∷◌, ◌++◌, append_assoc, append-nil, arith,
}
use vektra_stack.Prelude.Tests.{if◌then◌else◌, if-cases, ltb}
use vektra_stack.Prelude.Lists.{length, length-take, length-append, any, take}
use vektra_stack.Prelude.Members.{
  Member, Member-select, select-Member, Member-take, Member-append, Member-left, Member-right,
  any-Member,
}
use vektra_stack.Core.Retrieval.{
  Measures, SearchResult, near_duplicate, insert_result, by_score, drop_duplicates, above, rescue,
  apply_retrieval_filter,
}

module _ (f : Measures) where
  abbrev Result : Type 0
  Result = SearchResult f.Score

  abbrev like : Result → Result → Bool
  like a b = near_duplicate f a.text_snippet b.text_snippet

  -- No result is a near-duplicate of one before it.
  abbrev pub Separated : List Result → List Result → Type 0
  Separated before [] = Unit {0}
  Separated before (x ∷ xs) = (any (like x) before ≡ false) × Separated (before ++ x ∷ []) xs

  swapped :
      (a r x : Result) (xs rest : List Result)
      → Member a rest ↔ ((a ≡ r) ⊎ Member a xs)
      → Member a (x ∷ rest) ↔ ((a ≡ r) ⊎ Member a (x ∷ xs))
  swapped a r x xs rest ih = (
    λ m. elim m [
      | inl e ↦ inr (inl e)
      | inr m' ↦ elim (ih.0 m') [ inl e ↦ inl e | inr later ↦ inr (inr later) ]
    ],
    λ m. elim m [
      | inl e ↦ inr (ih.1 (inl e))
      | inr m' ↦ elim m' [ inl e ↦ inl e | inr later ↦ inr (ih.1 (inr later)) ]
    ],
  )

  Member-insert :
      (a r : Result) (xs : List Result) → Member a (insert_result f r xs) ↔ ((a ≡ r) ⊎ Member a xs)
  unfolding insert_result
  Member-insert a r [] = (λ m. m, λ m. m)
  Member-insert a r (x ∷ xs) =
      if-cases (λ l. Member a l ↔ ((a ≡ r) ⊎ Member a (x ∷ xs))) (f.geq r.score x.score)
        (r ∷ x ∷ xs) (x ∷ insert_result f r xs) (λ e. (λ m. m, λ m. m))
        (λ e. swapped a r x xs (insert_result f r xs) (Member-insert a r xs))

  Member-by_score : (a : Result) (xs : List Result) → Member a (by_score f xs) ↔ Member a xs
  unfolding by_score
  Member-by_score a [] = (λ m. m, λ m. m)
  Member-by_score a (x ∷ xs) = (
    λ m. elim ((Member-insert a x (by_score f xs)).0 m) [
      | inl e ↦ inl e
      | inr later ↦ inr ((Member-by_score a xs).0 later)
    ],
    λ m.
        (Member-insert a x (by_score f xs)).1
          (elim m [ inl e ↦ inl e | inr later ↦ inr ((Member-by_score a xs).1 later) ]),
  )

  -- What is kept stays, and nothing comes in but candidates.
  drop_duplicates_kept :
      (a : Result) (kept cs : List Result) → Member a kept → Member a (drop_duplicates f kept cs)
  unfolding drop_duplicates
  drop_duplicates_kept a kept [] m = m
  drop_duplicates_kept a kept (c ∷ cs) m =
      if-cases (λ k. Member a (drop_duplicates f k cs)) (any (like c) kept) kept (kept ++ c ∷ [])
        (λ e. drop_duplicates_kept a kept cs m)
        (λ e. drop_duplicates_kept a (kept ++ c ∷ []) cs (Member-left a kept (c ∷ []) m))

  drop_duplicates_from :
      (a : Result) (kept cs : List Result)
      → Member a (drop_duplicates f kept cs)
      → Member a kept ⊎ Member a cs
  unfolding drop_duplicates
  drop_duplicates_from a kept [] m = inl m
  drop_duplicates_from a kept (c ∷ cs) m =
      if-cases (λ k. Member a (drop_duplicates f k cs) → Member a kept ⊎ Member a (c ∷ cs))
        (any (like c) kept) kept (kept ++ c ∷ [])
        (λ e m. elim (drop_duplicates_from a kept cs m) [ inl k ↦ inl k | inr l ↦ inr (inr l) ])
        (λ e m. elim (drop_duplicates_from a (kept ++ c ∷ []) cs m) [
          | inl k ↦ elim (Member-append a kept (c ∷ []) k) [
            | inl old ↦ inl old
            | inr new ↦ inr (elim new [ inl h ↦ inl h | inr none_left ↦ elim none_left [ ] ])
          ]
          | inr l ↦ inr (inr l)
        ])
        m

  -- A result that is kept, or that is a near-duplicate of one that is kept
  abbrev pub Covered : Result → List Result → Type 0
  Covered a kept = Member a kept ⊎ ((s : Result) × Member s kept × (like a s ≡ true))

  drop_duplicates-Covered :
      (a : Result) (kept cs : List Result) → Member a cs → Covered a (drop_duplicates f kept cs)
  unfolding drop_duplicates
  drop_duplicates-Covered a kept [] m = elim m [ ]
  drop_duplicates-Covered a kept (c ∷ cs) (inl here) =
      if-cases (λ k. Covered a (drop_duplicates f k cs)) (any (like c) kept) kept (kept ++ c ∷ [])
        (λ e.
          let (s, m, h) = any-Member (like c) kept e in
          inr (s, drop_duplicates_kept s kept cs m, ap (λ x. like x s) here ∙ h))
        (λ e.
          inl
            (drop_duplicates_kept a (kept ++ c ∷ []) cs (Member-right a kept (c ∷ []) (inl here))))
  drop_duplicates-Covered a kept (c ∷ cs) (inr later) =
      drop_duplicates-Covered a (if any (like c) kept then kept else kept ++ c ∷ []) cs later

  Separated-added :
      (before xs : List Result) (c : Result)
      → Separated before xs
      → any (like c) (before ++ xs) ≡ false
      → Separated before (xs ++ c ∷ [])
  Separated-added before [] c s e = (subst (λ l. any (like c) l ≡ false) (append-nil before) e, tt)
  Separated-added before (x ∷ xs) c (first, s) e = (
    first,
    Separated-added (before ++ x ∷ []) xs c s
        (subst (λ l. any (like c) l ≡ false) (sym (append_assoc before (x ∷ []) xs)) e),
  )

  drop_duplicates-Separated :
      (kept cs : List Result) → Separated [] kept → Separated [] (drop_duplicates f kept cs)
  unfolding drop_duplicates
  drop_duplicates-Separated kept [] s = s
  drop_duplicates-Separated kept (c ∷ cs) s =
      if-cases (λ k. Separated [] (drop_duplicates f k cs)) (any (like c) kept) kept
        (kept ++ c ∷ []) (λ e. drop_duplicates-Separated kept cs s)
        (λ e. drop_duplicates-Separated (kept ++ c ∷ []) cs (Separated-added [] kept c s e))

  length-insert_result :
      (r : Result) (xs : List Result) → length (insert_result f r xs) ≡ suc (length xs)
  unfolding insert_result
  length-insert_result r [] = refl
  length-insert_result r (x ∷ xs) =
      if-cases (λ l. length l ≡ suc (suc (length xs))) (f.geq r.score x.score) (r ∷ x ∷ xs)
        (x ∷ insert_result f r xs) (λ e. refl) (λ e. ap suc (length-insert_result r xs))

  length-by_score : (xs : List Result) → length (by_score f xs) ≡ length xs
  unfolding by_score
  length-by_score [] = refl
  length-by_score (x ∷ xs) = length-insert_result x (by_score f xs) ∙ ap suc (length-by_score xs)

  length-drop_duplicates :
      (kept cs : List Result) → length (drop_duplicates f kept cs) ≤ length kept + length cs
  unfolding drop_duplicates
  length-drop_duplicates kept [] = omega arith
  length-drop_duplicates kept (c ∷ cs) =
      if-cases (λ k. length (drop_duplicates f k cs) ≤ length kept + suc (length cs))
        (any (like c) kept) kept (kept ++ c ∷ [])
        (λ e. omega (arith, length-drop_duplicates kept cs))
        (λ e.
          omega (arith, length-drop_duplicates (kept ++ c ∷ []) cs, length-append kept (c ∷ [])))

-- What the filter lets through, with its count of rescued results.
pub record Filtered (f : Measures) (results : List (SearchResult f.Score))
    (min_score floor : f.Score) (top_k : ℕ) (out : List (SearchResult f.Score) × ℕ) : Type 0 where
  -- A result reaches the threshold, or none does and it reaches the floor.
  pub sound :
      (a : SearchResult f.Score)
      → Member a out.0
      → Member a results
        × ((f.geq a.score min_score ≡ true)
            ⊎ ((f.geq a.score floor ≡ true) × (above f min_score results ≡ [])))
  pub separated : Separated f [] out.0
  pub covers :
      (a : SearchResult f.Score)
      → Member a results
      → f.geq a.score min_score ≡ true
      → Covered f a out.0
  -- Where no result reaches the threshold, those that reach the floor are rescued, up to `top_k` of
  -- them; the near-duplicates among them are dropped.
  pub rescued :
      above f min_score results ≡ []
      → (out.1 ≡ min top_k (length (above f floor results))) × (length out.0 ≤ out.1)
  pub none_rescued :
      (a : SearchResult f.Score) → Member a results → f.geq a.score min_score ≡ true → out.1 ≡ 0

module _ (f : Measures) (results : List (SearchResult f.Score)) (min_score floor : f.Score)
    (top_k : ℕ) where
  -- What is true before the duplicates are dropped
  record Passed (p : List (SearchResult f.Score) × ℕ) : Type 0 where
    pub sound :
        (a : SearchResult f.Score)
        → Member a p.0
        → Member a results
          × ((f.geq a.score min_score ≡ true)
              ⊎ ((f.geq a.score floor ≡ true) × (above f min_score results ≡ [])))
    pub complete :
        (a : SearchResult f.Score)
        → Member a results
        → f.geq a.score min_score ≡ true
        → Member a p.0
    pub rescued :
        above f min_score results ≡ []
        → (p.1 ≡ min top_k (length (above f floor results))) × (length p.0 ≡ p.1)
    pub none_rescued :
        (a : SearchResult f.Score) → Member a results → f.geq a.score min_score ≡ true → p.1 ≡ 0

  cons_nil : {x : SearchResult f.Score} {xs : List (SearchResult f.Score)} → x ∷ xs ≡ [] → ⊥
  cons_nil e = ground arith

  best-Passed :
      above f min_score results ≡ []
      → Passed (
        take top_k (by_score f (above f floor results)),
        length (take top_k (by_score f (above f floor results))),
      )
  best-Passed none_above =
      let best = by_score f (above f floor results) in
      record {
        sound = λ a m.
            let (there, high) =
              Member-select (λ r. f.geq r.score floor) a results
                ((Member-by_score f a (above f floor results)).0 (Member-take top_k a best m)) in
            (there, inr (high, none_above));
        complete = λ a m h.
            elim (subst (Member a) none_above
              (select-Member (λ r. f.geq r.score min_score) a results m h)) [ ];
        rescued = λ e. (
          omega (arith, length-take top_k best, length-by_score f (above f floor results)),
          refl,
        );
        none_rescued = λ a m h.
            elim (subst (Member a) none_above
              (select-Member (λ r. f.geq r.score min_score) a results m h)) [ ];
      }

  rescue-Passed :
      (xs : List (SearchResult f.Score))
      → above f min_score results ≡ xs
      → Passed (rescue f results top_k floor xs)
  rescue-Passed [] e =
      if-cases Passed (ltb 0 top_k)
        (
          take top_k (by_score f (above f floor results)),
          length (take top_k (by_score f (above f floor results))),
        )
        ([], 0) (λ y. best-Passed e)
        (λ n. record {
          sound = λ a m. elim m [ ];
          complete = λ a m h.
              elim (subst (Member a) e
                (select-Member (λ r. f.geq r.score min_score) a results m h)) [ ];
          rescued = λ e. (ground (arith, n), refl);
          none_rescued = λ a m h. refl;
        })
  rescue-Passed (x ∷ xs) e = record {
    sound = λ a m.
        let (there, high) =
          Member-select (λ r. f.geq r.score min_score) a results (subst (Member a) (sym e) m) in
        (there, inl high);
    complete =
        λ a m h. subst (Member a) e (select-Member (λ r. f.geq r.score min_score) a results m h);
    rescued = λ none_above. elim (cons_nil (sym e ∙ none_above)) [ ];
    none_rescued = λ a m h. refl;
  }

-- The filter, with deduplication: what it lets through are results that reach the threshold, or, where no
-- result does, at most `rescue_top_k` that reach the floor; none is a near-duplicate of one before it; and each
-- result that reaches the threshold is let through or is a near-duplicate of one that is. The count that is
-- reported is 0 where a result reaches the threshold, and otherwise the number of those that reach the floor,
-- or `rescue_top_k` if that is less; no more than so many are then let through.
pub apply_retrieval_filter-Filtered :
    (f : Measures) (results : List (SearchResult f.Score)) (min_score floor : f.Score) (top_k : ℕ)
    → Filtered f results min_score floor top_k
        (apply_retrieval_filter f results min_score true top_k floor)
unfolding apply_retrieval_filter
apply_retrieval_filter-Filtered f results min_score floor top_k =
    let ran = rescue f results top_k floor (above f min_score results) in
    let p = rescue-Passed f results min_score floor top_k (above f min_score results) refl in
    record {
      sound = λ a m. elim (drop_duplicates_from f a [] (by_score f ran.0) m) [
        | inl nothing ↦ elim nothing [ ]
        | inr there ↦ p.sound a ((Member-by_score f a ran.0).0 there)
      ];
      separated = drop_duplicates-Separated f [] (by_score f ran.0) tt;
      covers = λ a m h.
          drop_duplicates-Covered f a [] (by_score f ran.0)
            ((Member-by_score f a ran.0).1 (p.complete a m h));
      rescued = λ none_above. (
        (p.rescued none_above).0,
        omega (
          arith,
          (p.rescued none_above).1,
          length-drop_duplicates f [] (by_score f ran.0),
          length-by_score f ran.0,
        ),
      );
      none_rescued = p.none_rescued;
    }
