-- ===== src/Shared/Auth/Refusals.antt =====
-- What a refused request leaves.
use vektra_stack.Prelude.{ℕ, ◌≡◌, refl, ◌⊎◌, inl, inr, false, Option, none, some, String}
use vektra_stack.Prelude.Tests.{Bool-cases}
use vektra_stack.Prelude.Dict
use vektra_stack.Shared.Errors.{http_status_for}
use vektra_stack.Shared.Registry
use vektra_stack.Shared.Registry.{Lookup, ProviderRegistry, found, value_error}
use vektra_stack.Shared.Auth.{
  ApiKeyInfo, KeyStoreProvider, RateLimiting, State, Answer, granted, http_exception, scope_passes,
  limit_rate, check_scope, check_info, check_token, find_store, require_scope,
}

module _ (K : KeyStoreProvider) (L : RateLimiting) where
  -- A refusal with a status: the limiter said no and is as its `check` leaves it, with the key noted,
  -- or the limiter was not asked.
  abbrev pub Refusal : Option L.Limiter → State K L → ℕ → Type 0
  Refusal limiter after status =
      (status ≡ 429)
        × ((l : L.Limiter) × (key_id : ℕ) × (rpm : ℕ) × (limiter ≡ some l)
            × ((L.check l key_id rpm).1 ≡ false)
            × (after.rate_limiter ≡ some (L.check l key_id rpm).0)
            × (after.key_id ≡ some key_id))
      ⊎ ((status ≡ 401) ⊎ (status ≡ 403) ⊎ (status ≡ 500)) × (after.rate_limiter ≡ limiter)

  abbrev pub RefusedWell : Option L.Limiter → State K L × Answer L.Headers → Type 0
  RefusedWell limiter (after, granted info) = Unit
  RefusedWell limiter (after, http_exception status headers) = Refusal limiter after status

  limit_rate-RefusedWell :
      (s : State K L) (info : ApiKeyInfo) (limiter : Option L.Limiter) (rpm : Option ℕ)
      → s.key_id ≡ some info.key_id
      → s.rate_limiter ≡ limiter
      → RefusedWell limiter (limit_rate s info limiter rpm)
  unfolding limit_rate http_status_for Dict.get
  limit_rate-RefusedWell s info none rpm k e = tt
  limit_rate-RefusedWell s info (some l) none k e = tt
  limit_rate-RefusedWell s info (some l) (some rpm) k e =
      elim (Bool-cases (L.check l info.key_id rpm).1) [
        | inl allowed ↦ rw allowed tt
        | inr refused ↦ rw refused (inl (refl, (l, info.key_id, rpm, refl, refused, refl, k)))
      ]

  check_info-RefusedWell :
      (required_scope : Option String) (s : State K L) (known : Option ApiKeyInfo)
      → RefusedWell s.rate_limiter (check_info required_scope s known)
  unfolding check_info check_scope http_status_for Dict.get
  check_info-RefusedWell required_scope s none = inr (inl refl, refl)
  check_info-RefusedWell required_scope s (some info) =
      elim (Bool-cases (scope_passes required_scope info)) [
        | inl passes ↦ rw passes (
            limit_rate-RefusedWell (record s { key_id = some info.key_id }) info s.rate_limiter
              info.rate_limit_rpm refl refl)
        | inr fails ↦ rw fails (inr (inr (inl refl), refl))
      ]

  check_token-RefusedWell :
      (required_scope : Option String) (s : State K L) (token : String)
      (registry : ProviderRegistry K.Store) (l : Lookup K.Store)
      → RefusedWell s.rate_limiter (check_token required_scope s token registry l)
  unfolding check_token
  check_token-RefusedWell required_scope s token registry (value_error names) =
      inr (inr (inr refl), refl)
  check_token-RefusedWell required_scope s token registry (found store) =
      let l = K.lookup_by_token store token in
      check_info-RefusedWell required_scope
        (record s { registry = some (Registry.register registry "key_store" "default" l.0) }) l.1

  find_store-RefusedWell :
      (required_scope : Option String) (s : State K L) (token : String)
      (registry : Option (ProviderRegistry K.Store))
      → RefusedWell s.rate_limiter (find_store required_scope s token registry)
  unfolding find_store
  find_store-RefusedWell required_scope s token none = inr (inr (inr refl), refl)
  find_store-RefusedWell required_scope s token (some registry) =
      check_token-RefusedWell required_scope s token registry _

  -- Every refusal of `require_scope` has status 401, 403 or 500 and leaves the rate limiter as it was, or
  -- it has status 429, the limiter refused the key, its state is the one that its `check` gives, and the
  -- key is noted on the request.
  pub require_scope-RefusedWell :
      (required_scope : Option String) (s : State K L) (credentials : Option String)
      → RefusedWell s.rate_limiter (require_scope required_scope s credentials)
  unfolding require_scope http_status_for Dict.get
  require_scope-RefusedWell required_scope s none = inr (inl refl, refl)
  require_scope-RefusedWell required_scope s (some token) =
      find_store-RefusedWell required_scope s token s.registry
