-- ===== src/Admin/KeyStore/Index.antt =====
-- The histories of a key store, and its index by preview.
use vektra_stack.Prelude.{
  ℕ, ◌≡◌, refl, sym, subst, ◌∙◌, ◌⊎◌, inl, inr, true, none, some, List, [], ◌∷◌, String, arith,
}
use vektra_stack.Prelude.Tests.{none-some, some_injective, if◌then◌else◌, Bool-cases, Option-cases}
use vektra_stack.Prelude.Lists.{select}
use vektra_stack.Prelude.Eq.{nat_eq, string_eq, ◌==◌, contains, beq_self}
use vektra_stack.Prelude.Dict
use vektra_stack.Prelude.Dict.{Dict, get-put}
use vektra_stack.Admin.KeyStore.{
  KeyEntry, KeyStore, init, insert, or_empty, set_add, revoke_key, revoke_first, revoke_key_by_id,
  revoked, insert_rows, load_from_db, loadable, ApiKeyRow,
}

-- The calls that change a key store.
pub data Event : Type 0 where
  added : KeyEntry → Event
  revoked_hash : String → ℕ → Event
  revoked_id : ℕ → ℕ → Event
  loaded : List ApiKeyRow → ℕ → Event

unfoldable pub apply : KeyStore → Event → KeyStore
apply s (Event.added entry) = insert s (record entry { revoked_at = none })
apply s (Event.revoked_hash h now) = revoke_key s h now
apply s (Event.revoked_id key_id now) = revoke_key_by_id s key_id now
apply s (Event.loaded table now) = (load_from_db s table now).0

unfoldable pub run : KeyStore → List Event → KeyStore
unfolding apply
run s [] = s
run s (e ∷ es) = run (apply s e) es

-- Every key is in the set of its preview, under its own hash.
abbrev pub Indexed : KeyStore → Type 0
Indexed s =
    (h : String) (entry : KeyEntry)
    → Dict.get s.by_hash h ≡ some entry
    → (entry.key_hash ≡ h)
      × (contains (or_empty (Dict.get s.by_preview entry.key_preview)) h ≡ true)

contains-set_add :
    (hs : List String) (h j : String)
    → contains (set_add hs h) j ≡ (if j == h then true else contains hs j)
unfolding contains
contains-set_add hs h j = ground (arith, string_eq.beq_iff j h)

-- A set that gains a hash keeps its members.
contains-grown :
    (m : Dict String (List String)) (p q h k : String)
    → contains (or_empty (Dict.get m p)) h ≡ true
    → contains (or_empty (Dict.get (Dict.put m q (set_add (or_empty (Dict.get m q)) k)) p)) h ≡ true
contains-grown m p q h k c = elim (Bool-cases (q == p)) [
  | inr other ↦ rw (get-put, other) c
  | inl same ↦
      let e : q ≡ p = (string_eq.beq_iff q p).0 same in
      rw (get-put, same, e, contains-set_add, c) (ground arith)
]

insert-Indexed : (s : KeyStore) (entry : KeyEntry) → Indexed s → Indexed (insert s entry)
unfolding insert
insert-Indexed s entry i h e found = elim (Bool-cases (entry.key_hash == h)) [
  | inl same ↦
      let k : entry.key_hash ≡ h = (string_eq.beq_iff entry.key_hash h).0 same in
      let e' : entry ≡ e = some_injective (rw (get-put, same) at found) in
      subst
        (λ x.
          (x.key_hash ≡ h)
          × (contains (or_empty (Dict.get (insert s entry).by_preview x.key_preview)) h ≡ true))
        e' (k, rw (get-put, beq_self, contains-set_add, sym k, beq_self entry.key_hash) refl)
  | inr other ↦
      let before : Dict.get s.by_hash h ≡ some e = rw (get-put, other) at found in
      let old = i h e before in
      (old.0, contains-grown s.by_preview e.key_preview entry.key_preview h entry.key_hash old.1)
]

-- An entry that is replaced by one with its hash and its preview.
put-Indexed :
    (s : KeyStore) (h : String) (old new : KeyEntry)
    → Dict.get s.by_hash h ≡ some old
    → new.key_hash ≡ old.key_hash
    → new.key_preview ≡ old.key_preview
    → Indexed s
    → Indexed (record s { by_hash = Dict.put s.by_hash h new })
put-Indexed s h old new there kh kp i j e found = elim (Bool-cases (h == j)) [
  | inl same ↦
      let k : h ≡ j = (string_eq.beq_iff h j).0 same in
      let e' : new ≡ e = some_injective (rw (get-put, same) at found) in
      subst
        (λ x.
          (x.key_hash ≡ j) × (contains (or_empty (Dict.get s.by_preview x.key_preview)) j ≡ true))
        e' (rw (kh, kp, sym k) (i h old there))
  | inr other ↦ i j e (rw (get-put, other) at found)
]

revoke_key-Indexed :
    (s : KeyStore) (k : String) (now : ℕ) → Indexed s → Indexed (revoke_key s k now)
unfolding revoke_key
revoke_key-Indexed s k now i = elim (Option-cases (Dict.get s.by_hash k)) [
  | inl absent ↦ rw (absent, revoke_key) i
  | inr (entry, there) ↦
      rw (there, revoke_key) (put-Indexed s k entry (revoked now entry) there refl refl i)
]

-- What revoking an id does to the entry of a hash.
pub get-revoke_first :
    (m : Dict String KeyEntry) (key_id now : ℕ) (h : String)
    → (Dict.get (revoke_first m key_id now) h ≡ Dict.get m h)
      ⊎ ((entry : KeyEntry) × (Dict.get m h ≡ some entry)
          × (entry.key_id ≡ key_id)
          × (Dict.get (revoke_first m key_id now) h ≡ some (revoked now entry)))
unfolding revoke_first Dict.get
get-revoke_first [] key_id now h = inl refl
get-revoke_first ((j, e) ∷ m) key_id now h = elim (Bool-cases (e.key_id == key_id)) [
  | inl same ↦ rw same (elim (Bool-cases (j == h)) [
    | inl here ↦ rw here (inr (e, refl, (nat_eq.beq_iff e.key_id key_id).0 same, refl))
    | inr there ↦ rw there (inl refl)
  ])
  | inr other ↦ rw other (elim (Bool-cases (j == h)) [
    | inl here ↦ rw here (inl refl)
    | inr there ↦ rw there (get-revoke_first m key_id now h)
  ])
]

revoke_key_by_id-Indexed :
    (s : KeyStore) (key_id now : ℕ) → Indexed s → Indexed (revoke_key_by_id s key_id now)
revoke_key_by_id-Indexed s key_id now i h e found = elim (get-revoke_first s.by_hash key_id now h) [
  | inl same ↦ i h e (sym same ∙ found)
  | inr (entry, there, k, now_revoked) ↦
      let e' : revoked now entry ≡ e = some_injective (sym now_revoked ∙ found) in
      subst
        (λ x.
          (x.key_hash ≡ h) × (contains (or_empty (Dict.get s.by_preview x.key_preview)) h ≡ true))
        e' (i h entry there)
]

insert_rows-Indexed :
    (s : KeyStore) (rows : List ApiKeyRow) → Indexed s → Indexed (insert_rows s rows)
unfolding insert_rows
insert_rows-Indexed s [] i = i
insert_rows-Indexed s (row ∷ rows) i =
    insert_rows-Indexed (insert s (record row { revoked_at = none })) rows
      (insert-Indexed s (record row { revoked_at = none }) i)

apply-Indexed : (s : KeyStore) (e : Event) → Indexed s → Indexed (apply s e)
unfolding apply load_from_db
apply-Indexed s (Event.added entry) i = insert-Indexed s (record entry { revoked_at = none }) i
apply-Indexed s (Event.revoked_hash h now) i = revoke_key-Indexed s h now i
apply-Indexed s (Event.revoked_id key_id now) i = revoke_key_by_id-Indexed s key_id now i
apply-Indexed s (Event.loaded table now) i = insert_rows-Indexed s (select (loadable now) table) i

pub run-Indexed : (s : KeyStore) (es : List Event) → Indexed s → Indexed (run s es)
unfolding run
run-Indexed s [] i = i
run-Indexed s (e ∷ es) i = run-Indexed (apply s e) es (apply-Indexed s e i)

pub init-Indexed : Indexed init
unfolding Dict.get
init-Indexed h e found = elim (none-some found) [ ]
