-- ===== src/Core/Conversation/Rows.antt =====
-- The rows of one conversation, with consecutive turn numbers: ordering, pruning and decryption.
use vektra_stack.Prelude.{
  ℕ, zero, suc, ◌+◌, ◌-◌, ◌≤◌, ◌≡◌, ◌≢◌, refl, sym, ap, ◌∙◌, some, List, [], ◌∷◌, ◌++◌, false, not,
  ◌&&◌, arith, inl, inr,
}
use vektra_stack.Prelude.Tests.{leb, Bool-cases, Option-cases}
use vektra_stack.Prelude.Lists.{length, any, select, drop, drop_all, any-select}
use vektra_stack.Prelude.Eq.{nat_eq, ◌==◌}
use vektra_stack.Core.Conversation.{Turn}
use vektra_stack.Core.Conversation.Tables.{Crypto, TurnRow, belongs, rows_of, order_rows}
use vektra_stack.Core.Conversation.Persistent.{Settings, decrypt_row, decrypt_rows}

module _ {Cipher : Type 0} where
  -- The turn numbers are `lo`, `lo + 1` and so on.
  abbrev pub Numbered : ℕ → List (TurnRow Cipher) → Type 0
  Numbered lo [] = Unit
  Numbered lo (r ∷ rows) = (r.turn_number ≡ lo) × Numbered (suc lo) rows

  pub order-Numbered :
      (lo : ℕ) (rows : List (TurnRow Cipher)) → Numbered lo rows → order_rows rows ≡ rows
  unfolding order_rows
  order-Numbered lo [] n = refl
  order-Numbered lo (r ∷ []) n = refl
  order-Numbered lo (r ∷ x ∷ rows) n = ground (arith, order-Numbered (suc lo) (x ∷ rows) n.1)

  pub Numbered-snoc :
      (lo : ℕ) (rows : List (TurnRow Cipher)) (r : TurnRow Cipher)
      → Numbered lo rows
      → r.turn_number ≡ lo + length rows
      → Numbered lo (rows ++ r ∷ [])
  Numbered-snoc lo [] r n e = (omega arith, tt)
  Numbered-snoc lo (x ∷ rows) r n e = (n.0, Numbered-snoc (suc lo) rows r n.1 (omega arith))

  pub Numbered-drop :
      (lo hi m : ℕ) (rows : List (TurnRow Cipher))
      → Numbered lo rows
      → hi ≡ lo + m
      → Numbered hi (drop m rows)
  Numbered-drop lo hi zero rows n e = let e' : hi ≡ lo = omega arith in rw e' n
  Numbered-drop lo hi (suc m) [] n e = tt
  Numbered-drop lo hi (suc m) (x ∷ rows) n e = Numbered-drop (suc lo) hi m rows n.1 (omega arith)

  -- Deleting the numbers up to `k` drops a prefix.
  pub select-Numbered :
      (lo k : ℕ) (rows : List (TurnRow Cipher))
      → Numbered lo rows
      → select (λ r. not (leb r.turn_number k)) rows ≡ drop (suc k - lo) rows
  select-Numbered lo k [] n = sym (drop_all (suc k - lo) [] (omega arith))
  select-Numbered lo k (x ∷ rows) n =
      let ih = select-Numbered (suc lo) k rows n.1 in
      elim (Bool-cases (leb lo k)) [
        | inl y ↦
            let e : suc k - lo ≡ suc (suc k - suc lo) = ground arith in
            rw e (ground (arith, ih, n.0, y))
        | inr y ↦
            let e : suc k - lo ≡ 0 = ground arith in
            let e' : suc k - suc lo ≡ 0 = omega arith in
            rw e (let ih' = rw e' at ih in ground (arith, ih', n.0, y))
      ]

  -- No row of the conversation has the next number yet.
  number_free :
      (lo k : ℕ) (rows : List (TurnRow Cipher))
      → Numbered lo rows
      → lo + length rows ≤ k
      → any (λ r. r.turn_number == k) rows ≡ false
  number_free lo k [] n h = refl
  number_free lo k (x ∷ rows) n h = ground (arith, number_free (suc lo) k rows n.1)

  pub next_number_free :
      (c lo k : ℕ) (rows : List (TurnRow Cipher))
      → Numbered lo (rows_of c rows)
      → lo + length (rows_of c rows) ≤ k
      → any (λ r. belongs c r && r.turn_number == k) rows ≡ false
  next_number_free c lo k rows n h =
      any-select (belongs c) (λ r. r.turn_number == k) rows ∙ number_free lo k (rows_of c rows) n h

  -- What a prune of conversation `c` does to its own rows, and to those of another.
  pub rows_of-prune_self :
      (c k : ℕ) (rows : List (TurnRow Cipher))
      → rows_of c (select (λ r. not (belongs c r && leb r.turn_number k)) rows)
        ≡ select (λ r. not (leb r.turn_number k)) (rows_of c rows)
  rows_of-prune_self c k [] = refl
  rows_of-prune_self c k (x ∷ rows) = ground (arith, rows_of-prune_self c k rows)

  pub rows_of-prune_ne :
      (c d k : ℕ) (rows : List (TurnRow Cipher))
      → c ≢ d
      → rows_of d (select (λ r. not (belongs c r && leb r.turn_number k)) rows) ≡ rows_of d rows
  rows_of-prune_ne c d k [] h = refl
  rows_of-prune_ne c d k (x ∷ rows) h = ground (arith, rows_of-prune_ne c d k rows h)

module _ (c : Crypto) (s : Settings) where
  decrypt_rows_cons :
      (x : TurnRow c.Cipher) (xs : List (TurnRow c.Cipher)) (ts : List Turn)
      → decrypt_rows c s (x ∷ xs) ≡ some ts
      → (t : Turn) × (us : List Turn) × (ts ≡ t ∷ us)
        × (decrypt_row c s x ≡ some t)
        × (decrypt_rows c s xs ≡ some us)
  unfolding decrypt_rows
  decrypt_rows_cons x xs ts h = elim (Option-cases (decrypt_row c s x)) [
    | inl bad ↦ ground arith
    | inr (t, good) ↦ elim (Option-cases (decrypt_rows c s xs)) [
      | inl bad ↦ ground arith
      | inr (us, rest) ↦ (t, us, ground arith, good, rest)
    ]
  ]

  decrypt_rows_both :
      (x : TurnRow c.Cipher) (xs : List (TurnRow c.Cipher)) (t : Turn) (us : List Turn)
      → decrypt_row c s x ≡ some t
      → decrypt_rows c s xs ≡ some us
      → decrypt_rows c s (x ∷ xs) ≡ some (t ∷ us)
  unfolding decrypt_rows
  decrypt_rows_both x xs t us h k = ground arith

  pub decrypt_rows-append :
      (xs ys : List (TurnRow c.Cipher)) (ts us : List Turn)
      → decrypt_rows c s xs ≡ some ts
      → decrypt_rows c s ys ≡ some us
      → decrypt_rows c s (xs ++ ys) ≡ some (ts ++ us)
  decrypt_rows-append [] ys ts us h k =
      let e : ts ≡ [] = unfold decrypt_rows in ground arith in rw e k
  decrypt_rows-append (x ∷ xs) ys ts us h k =
      let (t, ts', e, good, rest) = decrypt_rows_cons x xs ts h in
      rw e (
        decrypt_rows_both x (xs ++ ys) t (ts' ++ us) good (decrypt_rows-append xs ys ts' us rest k))

  pub decrypt_rows-drop :
      (n : ℕ) (xs : List (TurnRow c.Cipher)) (ts : List Turn)
      → decrypt_rows c s xs ≡ some ts
      → (decrypt_rows c s (drop n xs) ≡ some (drop n ts)) × (length xs ≡ length ts)
  decrypt_rows-drop zero [] ts h =
      let e : ts ≡ [] = unfold decrypt_rows in ground arith in
      rw e (unfold decrypt_rows in refl, refl)
  decrypt_rows-drop (suc n) [] ts h =
      let e : ts ≡ [] = unfold decrypt_rows in ground arith in
      rw e (unfold decrypt_rows in refl, refl)
  decrypt_rows-drop zero (x ∷ xs) ts h =
      let (t, us, e, good, rest) = decrypt_rows_cons x xs ts h in
      rw e (decrypt_rows_both x xs t us good rest, ap suc (decrypt_rows-drop zero xs us rest).1)
  decrypt_rows-drop (suc n) (x ∷ xs) ts h =
      let (t, us, e, good, rest) = decrypt_rows_cons x xs ts h in
      let ih = decrypt_rows-drop n xs us rest in rw e (ih.0, ap suc ih.1)
