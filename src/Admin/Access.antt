-- ===== src/Admin/Access.antt =====
-- Authentication with the key store and the rate limiter of vektra_admin, as vektra-app's main.py wires
-- them: the key store is the interface's `KeyStoreProvider` and the limiter its rate limiter.
mod Tests
use vektra_stack.Prelude.Tests.{some_injective}
use vektra_stack.Prelude.{
  ℕ, ◌≡◌, refl, sym, ◌∙◌, ap, Bool, true, false, Option, none, some, List, String,
}
use vektra_stack.Shared.Auth.{
  ApiKeyInfo, KeyStoreProvider, RateLimiting, State, granted, require_scope, scope_passes,
}
use vektra_stack.Shared.Auth.Gate.{require_scope-Admits}
use vektra_stack.Shared.Registry
use vektra_stack.Shared.Registry.{ProviderRegistry, found, value_error}
use vektra_stack.Admin.Keys.{Argon2, TtlCache, Sound}
use vektra_stack.Admin.KeyStore.{KeyStore, lookup_by_token}
use vektra_stack.Admin.KeyStore.Lookup.{Opens, lookup_by_token-Opens}
use vektra_stack.Admin.RateLimit.{RateLimiter, Headers, check}

-- The limiter at two readings of the clocks.
abbrev pub limiter_at : ℕ → ℕ → RateLimiting
limiter_at now wall = record {
  Limiter = RateLimiter;
  Headers = Option Headers;
  check = λ s key_id rpm. check s key_id (some rpm) now wall;
}

found-injective : {A : Type 0} {a b : A} → found a ≡ found b → a ≡ b
found-injective {A} {a} e = ap (λ x. elim x [ found y ↦ y | value_error names ↦ a ]) e

module _ (ttl : TtlCache) (verify : Argon2) (order : List String → List String) where
  -- The store, the process-wide cache of verifications, and the time of the call.
  abbrev pub key_store_at : ℕ → KeyStoreProvider
  key_store_at now = record {
    Store = KeyStore × ttl.Cache;
    lookup_by_token = λ (s, cache) token.
        let l = lookup_by_token ttl verify order s cache now token in ((s, l.0), l.1);
  }

  -- With the key store and the limiter of vektra_admin and a sound cache of verifications, a request that
  -- `require_scope` lets through carries a token that argon2 verifies against the hash of a stored key
  -- that is neither revoked nor expired, and that key's scopes pass.
  pub require_scope-Opens :
      (now mono wall : ℕ) (required_scope : Option String)
      (s : State (key_store_at now) (limiter_at mono wall))
      (registry : ProviderRegistry (KeyStore × ttl.Cache)) (keys : KeyStore) (cache : ttl.Cache)
      (credentials : Option String) (info : ApiKeyInfo)
      → s.registry ≡ some registry
      → Registry.get registry "key_store" "default" ≡ found (keys, cache)
      → Sound ttl verify cache
      → (require_scope required_scope s credentials).1 ≡ granted info
      → (token : String) × (credentials ≡ some token)
        × Opens verify keys token now info
        × (scope_passes required_scope info ≡ true)
  require_scope-Opens now mono wall required_scope s registry keys cache credentials info r g sound
        e =
      let K = key_store_at now in
      let (token, registry', store, c, r', g', known, passes, within) =
        (require_scope-Admits K (limiter_at mono wall) required_scope s credentials info).0 e in
      let same_registry : registry' ≡ registry = some_injective (sym r' ∙ r) in
      let same_store : store ≡ (keys, cache) =
        found-injective
          (sym g' ∙ ap (λ x. Registry.get x "key_store" "default") same_registry ∙ g) in
      let known' = ap (λ x. (K.lookup_by_token x token).1) (sym same_store) ∙ known in
      (
        token,
        c,
        (lookup_by_token-Opens ttl verify order keys cache now token sound).1 info known',
        passes,
      )
