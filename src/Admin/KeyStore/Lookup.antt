-- ===== src/Admin/KeyStore/Lookup.antt =====
-- What `lookup_by_token` answers.
use vektra_stack.Prelude.{
  ℕ, ◌≡◌, refl, sym, ◌∙◌, ap, inl, inr, true, false, Option, none, some, List, [], ◌∷◌, String,
  arith,
}
use vektra_stack.Prelude.Tests.{none-some, some_injective, Bool-cases, Option-cases}
use vektra_stack.Prelude.Eq.{string_eq, ◌==◌, contains, beq_self}
use vektra_stack.Prelude.Dict
use vektra_stack.Shared.Auth.{ApiKeyInfo}
use vektra_stack.Admin.Keys.{Argon2, TtlCache, Sound, verify_key, verify_sync, verify_key-Sound}
use vektra_stack.Admin.KeyStore.{
  KeyEntry, KeyStore, or_empty, answer, info_of, unexpired, try_candidates, lookup_by_token,
  preview_of,
}
use vektra_stack.Admin.KeyStore.Index.{Indexed}

module _ (verify : Argon2) (s : KeyStore) (token : String) (now : ℕ) where
  -- The lookup as it would run without a cache.
  unfoldable scan : List String → Option ApiKeyInfo
  scan [] = none
  scan (h ∷ hs) =
      let rest = scan hs in
      elim (Dict.get s.by_hash h) [
        | none ↦ rest
        | some entry ↦ elim (verify_sync verify h token) [ false ↦ rest | true ↦ answer now entry ]
      ]

  -- A key that opens for the token.
  abbrev pub Opens : ApiKeyInfo → Type 0
  Opens info =
      (h : String) × (entry : KeyEntry) × (Dict.get s.by_hash h ≡ some entry)
      × (verify_sync verify h token ≡ true)
      × (entry.revoked_at ≡ none)
      × (unexpired entry.expires_at now ≡ true)
      × (info ≡ info_of entry)

  answer-Opens :
      (h : String) (entry : KeyEntry) (info : ApiKeyInfo)
      → Dict.get s.by_hash h ≡ some entry
      → verify_sync verify h token ≡ true
      → answer now entry ≡ some info
      → Opens info
  answer-Opens h entry info found good e = elim (Option-cases entry.revoked_at) [
    | inr (t, r) ↦ ground arith
    | inl live ↦ elim (Bool-cases (unexpired entry.expires_at now)) [
      | inl fresh ↦
          (h, entry, found, good, live, fresh, some_injective (sym e ∙ rw (live, fresh) refl))
      | inr stale ↦ ground arith
    ]
  ]

  scan-Opens : (hs : List String) (info : ApiKeyInfo) → scan hs ≡ some info → Opens info
  unfolding scan
  scan-Opens [] info e = elim (none-some e) [ ]
  scan-Opens (h ∷ hs) info e = elim (Option-cases (Dict.get s.by_hash h)) [
    | inl absent ↦ scan-Opens hs info (rw (absent, scan) at e)
    | inr (entry, found) ↦ elim (Bool-cases (verify_sync verify h token)) [
      | inl good ↦ answer-Opens h entry info found good (rw (found, good, scan) at e)
      | inr bad ↦ scan-Opens hs info (rw (found, bad, scan) at e)
    ]
  ]

  scan_unique :
      (hs : List String) (h : String) (entry : KeyEntry)
      → Dict.get s.by_hash h ≡ some entry
      → verify_sync verify h token ≡ true
      → ((h' : String) → verify_sync verify h' token ≡ true → h' ≡ h)
      → contains hs h ≡ true
      → scan hs ≡ answer now entry
  unfolding contains scan
  scan_unique [] h entry found good only there = ground arith
  scan_unique (x ∷ hs) h entry found good only there = elim (Bool-cases (h == x)) [
    | inl same ↦
        let e : h ≡ x = (string_eq.beq_iff h x).0 same in
        let found_x : Dict.get s.by_hash x ≡ some entry = ap (Dict.get s.by_hash) (sym e) ∙ found in
        let good_x : verify_sync verify x token ≡ true =
          ap (λ k. verify_sync verify k token) (sym e) ∙ good in
        rw (found_x, scan, good_x) refl
    | inr other ↦
        let rest = scan_unique hs h entry found good only (rw other at there) in
        elim (Option-cases (Dict.get s.by_hash x)) [
          | inl absent ↦ rw (absent, scan) rest
          | inr (e, there') ↦ elim (Bool-cases (verify_sync verify x token)) [
            | inl opens ↦ ground (arith, only x opens, beq_self h)
            | inr bad ↦ rw (there', bad, scan) rest
          ]
        ]
  ]

module _ (ttl : TtlCache) (verify : Argon2) where
  try_candidates-scan :
      (s : KeyStore) (token : String) (now : ℕ) (hs : List String) (cache : ttl.Cache)
      → Sound ttl verify cache
      → ((try_candidates ttl verify s token now hs cache).1 ≡ scan verify s token now hs)
        × Sound ttl verify (try_candidates ttl verify s token now hs cache).0
  unfolding scan try_candidates
  try_candidates-scan s token now [] cache sound = (refl, sound)
  try_candidates-scan s token now (h ∷ hs) cache sound =
      let v = verify_key-Sound ttl verify cache now token h sound in
      elim (Option-cases (Dict.get s.by_hash h)) [
        | inl absent ↦
            rw (absent, try_candidates, scan) (try_candidates-scan s token now hs cache sound)
        | inr (entry, found) ↦
            rw (found, v.0, try_candidates, scan)
              (elim (Bool-cases (verify_sync verify h token)) [
                | inl good ↦ rw good (refl, v.1)
                | inr bad ↦ rw bad (
                    try_candidates-scan s token now hs (verify_key ttl verify cache now token h).0
                      v.1)
              ])
      ]

  module _ (order : List String → List String) (s : KeyStore) (cache : ttl.Cache) (now : ℕ)
      (token : String) (sound : Sound ttl verify cache) where
    lookup-scan :
        ((lookup_by_token ttl verify order s cache now token).1
          ≡ scan verify s token now (order (or_empty (Dict.get s.by_preview (preview_of token)))))
        × Sound ttl verify (lookup_by_token ttl verify order s cache now token).0
    unfolding lookup_by_token
    lookup-scan =
        try_candidates-scan s token now
          (order (or_empty (Dict.get s.by_preview (preview_of token)))) cache sound

    -- From a sound cache of verifications, in any state and whatever the order of its sets, the lookup
    -- leaves the cache sound, and a token that it accepts is one that argon2 verifies against the hash
    -- of an entry that is not revoked and not expired, whose id, scopes and limit are the answer.
    pub lookup_by_token-Opens :
        Sound ttl verify (lookup_by_token ttl verify order s cache now token).0
        × ((info : ApiKeyInfo)
            → (lookup_by_token ttl verify order s cache now token).1 ≡ some info
            → Opens verify s token now info)
    lookup_by_token-Opens =
        (lookup-scan.1, λ info e. scan-Opens verify s token now _ info (sym lookup-scan.0 ∙ e))

    -- From a sound cache, in a store whose keys are all in their preview's set, a token with the preview
    -- of a key, that argon2 verifies against the hash of that key and of no other, gets that key's
    -- answer: its information, or nothing once it is revoked or expired.
    pub lookup_by_token_exact :
        ((hs : List String) (h : String) → contains (order hs) h ≡ contains hs h)
        → Indexed s
        → (h : String) (entry : KeyEntry) → Dict.get s.by_hash h ≡ some entry
        → entry.key_preview ≡ preview_of token
        → verify_sync verify h token ≡ true
        → ((h' : String) → verify_sync verify h' token ≡ true → h' ≡ h)
        → (lookup_by_token ttl verify order s cache now token).1 ≡ answer now entry
    lookup_by_token_exact same i h entry found preview good only =
        lookup-scan.0
        ∙ scan_unique verify s token now _ h entry found good only (
            same _ h
            ∙ ap (λ p. contains (or_empty (Dict.get s.by_preview p)) h) (sym preview)
            ∙ (i h entry found).1)
