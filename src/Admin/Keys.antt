-- ===== src/Admin/Keys.antt =====
-- vektra_admin/keys.py: `verify_key` and its cache of successful verifications. argon2 and the
-- `TTLCache` of cachetools are parameters.
use vektra_stack.Prelude.{
  ℕ, Bool, true, false, ◌≡◌, refl, Option, none, some, String, ap, ◌∙◌, sym, ◌⊎◌, inl, inr,
}
use vektra_stack.Prelude.Tests.{Bool-cases, Option-cases}

-- What `PasswordHasher.verify` returns or raises.
pub data Verdict : Type 0 where
  verified mismatch verification_error invalid_hash : Verdict

-- `verify key_hash plaintext`
abbrev pub Argon2 : Type 0
Argon2 = String → String → Verdict

-- A cache from (key_hash, plaintext) to a verdict, read and written at a time. It may evict, but it
-- never returns what was not put there.
pub record TtlCache : Type 1 where
  pub Cache : Type 0
  pub get : Cache → ℕ → String × String → Option Bool
  pub put : Cache → ℕ → String × String → Bool → Cache
  pub get-put :
      (c : Cache) (t u : ℕ) (k j : String × String) (v w : Bool)
      → get (put c t k v) u j ≡ some w
      → ((k ≡ j) × (v ≡ w)) ⊎ (get c u j ≡ some w)

-- `_verify_sync`
abbrev pub verify_sync : Argon2 → String → String → Bool
verify_sync verify key_hash plaintext = elim (verify key_hash plaintext) [
  | verified ↦ true
  | mismatch ↦ false
  | verification_error ↦ false
  | invalid_hash ↦ false
]

module _ (ttl : TtlCache) (verify : Argon2) where
  unfoldable pub verify_key : ttl.Cache → ℕ → String → String → ttl.Cache × Bool
  verify_key cache now plaintext key_hash =
      let result = verify_sync verify key_hash plaintext in
      elim (ttl.get cache now (key_hash, plaintext)) [
        | some cached ↦ (cache, cached)
        | none ↦ elim result [
          | true ↦ (ttl.put cache now (key_hash, plaintext) true, true)
          | false ↦ (cache, false)
        ]
      ]

  -- What the cache says is what argon2 says, at every time.
  abbrev pub Sound : ttl.Cache → Type 0
  Sound cache =
      (now : ℕ) (h p : String) (b : Bool)
      → ttl.get cache now (h, p) ≡ some b
      → verify_sync verify h p ≡ b

  put-Sound :
      (cache : ttl.Cache) (now : ℕ) (h p : String)
      → verify_sync verify h p ≡ true
      → Sound cache
      → Sound (ttl.put cache now (h, p) true)
  put-Sound cache now h p v s u h' p' b e =
      elim (ttl.get-put cache now u (h, p) (h', p') true b e) [
        | inl same ↦ ap (λ k. verify_sync verify k.0 k.1) (sym same.0) ∙ v ∙ same.1
        | inr old ↦ s u h' p' b old
      ]

  -- From a sound cache `verify_key` answers as argon2 does, and leaves the cache sound.
  pub verify_key-Sound :
      (cache : ttl.Cache) (now : ℕ) (p h : String)
      → Sound cache
      → ((verify_key cache now p h).1 ≡ verify_sync verify h p) × Sound (verify_key cache now p h).0
  unfolding verify_key
  verify_key-Sound cache now p h s = elim (Option-cases (ttl.get cache now (h, p))) [
    | inr (b, hit) ↦ rw (hit, verify_key) (sym (s now h p b hit), s)
    | inl miss ↦
        rw (miss, verify_key)
          (elim (Bool-cases (verify_sync verify h p)) [
            | inl good ↦ rw (good, verify_key) (refl, put-Sound cache now h p good s)
            | inr bad ↦ rw (bad, verify_key) (refl, s)
          ])
  ]
