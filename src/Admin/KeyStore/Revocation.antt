-- ===== src/Admin/KeyStore/Revocation.antt =====
-- Lookups in the states that a history of calls reaches, and keys that were revoked.
use vektra_stack.Prelude.{
  ℕ, ◌≡◌, refl, sym, ◌∙◌, ap, inl, inr, true, false, none, some, List, [], ◌∷◌, String,
}
use vektra_stack.Prelude.Tests.{
  none-some, some_injective, false-true, if◌then◌else◌, Bool-cases, Option-cases,
}
use vektra_stack.Prelude.Lists.{select, All}
use vektra_stack.Prelude.Eq.{nat_eq, string_eq, ◌==◌, contains, beq_self}
use vektra_stack.Prelude.Dict
use vektra_stack.Prelude.Dict.{Dict, Distinct, get-put}
use vektra_stack.Admin.Keys.{Argon2, TtlCache, Sound, verify_sync}
use vektra_stack.Admin.KeyStore.{
  KeyEntry, KeyStore, ApiKeyRow, init, insert, insert_rows, load_from_db, loadable, revoke_key,
  revoke_first, revoke_key_by_id, revoked, answer, lookup_by_token, preview_of,
}
use vektra_stack.Admin.KeyStore.Index.{
  Event, apply, run, get-revoke_first, run-Indexed, init-Indexed,
}
use vektra_stack.Admin.KeyStore.Lookup.{lookup_by_token-Opens, lookup_by_token_exact}

-- The entry of a hash is revoked.
abbrev pub IsRevoked : KeyStore → String → Type 0
IsRevoked s h =
    (entry : KeyEntry) × (t : ℕ) × (Dict.get s.by_hash h ≡ some entry) × (entry.revoked_at ≡ some t)

-- An event that writes no new entry under a hash.
abbrev pub Spares : String → Event → Type 0
Spares h (Event.added entry) = (entry.key_hash == h) ≡ false
Spares h (Event.revoked_hash k now) = Unit
Spares h (Event.revoked_id key_id now) = Unit
Spares h (Event.loaded table now) =
    All (λ row. (row.key_hash == h) ≡ false) (select (loadable now) table)

insert-IsRevoked :
    (s : KeyStore) (h : String) (entry : KeyEntry)
    → (entry.key_hash == h) ≡ false
    → IsRevoked s h
    → IsRevoked (insert s entry) h
unfolding insert
insert-IsRevoked s h entry other (e, t, there, r) = (e, t, rw (get-put, other) there, r)

insert_rows-IsRevoked :
    (s : KeyStore) (h : String) (rows : List ApiKeyRow)
    → All (λ row. (row.key_hash == h) ≡ false) rows
    → IsRevoked s h
    → IsRevoked (insert_rows s rows) h
unfolding insert_rows
insert_rows-IsRevoked s h [] a r = r
insert_rows-IsRevoked s h (row ∷ rows) a r =
    insert_rows-IsRevoked (insert s (record row { revoked_at = none })) h rows a.1
      (insert-IsRevoked s h (record row { revoked_at = none }) a.0 r)

revoke_key-IsRevoked :
    (s : KeyStore) (h k : String) (now : ℕ) → IsRevoked s h → IsRevoked (revoke_key s k now) h
unfolding revoke_key
revoke_key-IsRevoked s h k now (e, t, there, r) = elim (Option-cases (Dict.get s.by_hash k)) [
  | inl absent ↦ rw (absent, revoke_key) (e, t, there, r)
  | inr (entry, found) ↦ elim (Bool-cases (k == h)) [
    | inl same ↦ (revoked now entry, now, rw (found, revoke_key, get-put, same) refl, refl)
    | inr other ↦ (e, t, rw (found, revoke_key, get-put, other) there, r)
  ]
]

apply-IsRevoked :
    (s : KeyStore) (h : String) (e : Event) → Spares h e → IsRevoked s h → IsRevoked (apply s e) h
unfolding apply load_from_db
apply-IsRevoked s h (Event.added entry) n r =
    insert-IsRevoked s h (record entry { revoked_at = none }) n r
apply-IsRevoked s h (Event.revoked_hash k now) n r = revoke_key-IsRevoked s h k now r
apply-IsRevoked s h (Event.revoked_id key_id now) n (e, t, there, r) =
    elim (get-revoke_first s.by_hash key_id now h) [
      | inl same ↦ (e, t, same ∙ there, r)
      | inr (entry, found, k, now_revoked) ↦ (revoked now entry, now, now_revoked, refl)
    ]
apply-IsRevoked s h (Event.loaded table now) n r =
    insert_rows-IsRevoked s h (select (loadable now) table) n r

run-IsRevoked :
    (s : KeyStore) (h : String) (es : List Event)
    → All (Spares h) es
    → IsRevoked s h
    → IsRevoked (run s es) h
unfolding run
run-IsRevoked s h [] a r = r
run-IsRevoked s h (e ∷ es) a r = run-IsRevoked (apply s e) h es a.1 (apply-IsRevoked s h e a.0 r)

-- Revoking an id that one key has revokes that key.
revoke_first-hit :
    (m : Dict String KeyEntry) (key_id now : ℕ) (h : String) (entry : KeyEntry)
    → Distinct m
    → Dict.get m h ≡ some entry
    → entry.key_id ≡ key_id
    → ((h' : String) (e : KeyEntry) → Dict.get m h' ≡ some e → e.key_id ≡ key_id → h' ≡ h)
    → Dict.get (revoke_first m key_id now) h ≡ some (revoked now entry)
unfolding revoke_first Dict.get
revoke_first-hit [] key_id now h entry d found k only = elim (none-some found) [ ]
revoke_first-hit ((j, e) ∷ m) key_id now h entry d found k only = elim (Bool-cases (j == h)) [
  | inl here ↦
      let e' : e ≡ entry = some_injective (rw here at found) in
      let same : (e.key_id == key_id) ≡ true =
        (nat_eq.beq_iff e.key_id key_id).1 (ap (λ x. x.key_id) e' ∙ k) in
      rw (same, here) (ap (λ x. some (revoked now x)) e')
  | inr there ↦
      let rest =
        revoke_first-hit m key_id now h entry d.1 (rw there at found) k
          (λ h' x f. only h' x (behind h' x f)) in
      elim (Bool-cases (e.key_id == key_id)) [
        | inl same ↦
            let j' : j ≡ h =
              only j e (rw (beq_self j) refl) ((nat_eq.beq_iff e.key_id key_id).0 same) in
            elim (false-true (sym there ∙ (string_eq.beq_iff j h).1 j')) [ ]
        | inr other ↦ rw (other, there) rest
      ]
]
  where
    -- A key further down is found past the first one, since no hash stands twice.
    behind :
        (h' : String) (x : KeyEntry)
        → Dict.get m h' ≡ some x
        → (if j == h' then some e else Dict.get m h') ≡ some x
    behind h' x f = elim (Bool-cases (j == h')) [
      | inr there ↦ rw there f
      | inl here ↦
          let j' : j ≡ h' = (string_eq.beq_iff j h').0 here in
          elim (none-some (sym d.0 ∙ ap (Dict.get m) j' ∙ f)) [ ]
    ]

module _ (ttl : TtlCache) (verify : Argon2) (order : List String → List String) where
  -- From a sound cache, once a key is revoked by its id, which it alone has, every later lookup of a
  -- token that argon2 verifies against the hash of that key only is rejected, whatever calls come
  -- between, as long as none of them adds or loads an entry under that hash again.
  pub revoked_key_rejected :
      (s : KeyStore) (key_id at : ℕ) (h : String) (entry : KeyEntry) (es : List Event)
      → Distinct s.by_hash
      → Dict.get s.by_hash h ≡ some entry
      → entry.key_id ≡ key_id
      → ((h' : String) (e : KeyEntry) → Dict.get s.by_hash h' ≡ some e → e.key_id ≡ key_id → h' ≡ h)
      → All (Spares h) es
      → (cache : ttl.Cache) (now : ℕ) (token : String) → Sound ttl verify cache
      → ((h' : String) → verify_sync verify h' token ≡ true → h' ≡ h)
      → (lookup_by_token ttl verify order (run (revoke_key_by_id s key_id at) es) cache now token).1
        ≡ none
  revoked_key_rejected s key_id at h entry es d found k only spared cache now token sound opens =
      elim (Option-cases
        (lookup_by_token ttl verify order (run (revoke_key_by_id s key_id at) es) cache now
          token).1) [
            | inl rejected ↦ rejected
            | inr (info, accepted) ↦
                let (x, e, there, good, live, fresh, told) =
                  (lookup_by_token-Opens ttl verify order (run (revoke_key_by_id s key_id at) es)
                      cache now token sound).1
                    info accepted in
                let (e', t, found', dead) =
                  run-IsRevoked (revoke_key_by_id s key_id at) h es spared (
                    revoked at entry,
                    at,
                    revoke_first-hit s.by_hash key_id at h entry d found k only,
                    refl,
                  ) in
                let same : e ≡ e' = some_injective (
                  sym there
                  ∙ ap (Dict.get (run (revoke_key_by_id s key_id at) es).by_hash) (opens x good)
                  ∙ found') in
                elim (none-some (sym live ∙ ap (λ y. y.revoked_at) same ∙ dead)) [ ]
          ]

  -- In every state that calls reach from an empty store, and from a sound cache, a token with the
  -- preview of a key, that argon2 verifies against the hash of that key and of no other, gets that
  -- key's answer: its information, or nothing once it is revoked or expired. The sets may be listed
  -- in any order.
  pub reached_key_answers :
      ((hs : List String) (h : String) → contains (order hs) h ≡ contains hs h)
      → (es : List Event) (cache : ttl.Cache) (now : ℕ) (token : String) → Sound ttl verify cache
      → (h : String) (entry : KeyEntry) → Dict.get (run init es).by_hash h ≡ some entry
      → entry.key_preview ≡ preview_of token
      → verify_sync verify h token ≡ true
      → ((h' : String) → verify_sync verify h' token ≡ true → h' ≡ h)
      → (lookup_by_token ttl verify order (run init es) cache now token).1 ≡ answer now entry
  reached_key_answers same es cache now token sound =
      lookup_by_token_exact ttl verify order (run init es) cache now token sound same
        (run-Indexed init es init-Indexed)
