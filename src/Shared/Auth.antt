-- ===== src/Shared/Auth.antt =====
-- vektra_shared/auth.py: the dependency that `require_scope` returns, over any key store and any rate
-- limiter. A call that changes one of them gives its new state.
pub mod Gate
pub mod Refusals
use vektra_stack.Prelude.{ℕ, Bool, true, false, Option, none, some, List, String, ◌||◌}
use vektra_stack.Prelude.Tests.{if◌then◌else◌}
use vektra_stack.Prelude.Eq.{string_eq, contains}
use vektra_stack.Shared.Errors.{
  ErrorCategory, ErrorResponse, http_status_for, auth_invalid_token, auth_insufficient_scope,
}
use vektra_stack.Shared.Registry
use vektra_stack.Shared.Registry.{ProviderRegistry, found, value_error}

-- The namespace and the metadata of a key are left out: nothing here reads them.
pub record ApiKeyInfo : Type 0 where
  pub key_id : ℕ
  pub scopes : List String
  pub rate_limit_rpm : Option ℕ

abbrev pub has_scope : ApiKeyInfo → String → Bool
has_scope info scope = contains info.scopes scope

-- `KeyStoreProvider`
pub record KeyStoreProvider : Type 1 where
  pub Store : Type 0
  pub lookup_by_token : Store → String → Store × Option ApiKeyInfo

-- The rate limiter on the state of the app, of which `check` is used.
pub record RateLimiting : Type 1 where
  pub Limiter : Type 0
  pub Headers : Type 0
  pub check : Limiter → ℕ → ℕ → Limiter × Bool × Headers

-- `app.state` and `request.state`, in the fields that are used
pub record State (K : KeyStoreProvider) (L : RateLimiting) : Type 0 where
  pub registry : Option (ProviderRegistry K.Store)
  pub rate_limiter : Option L.Limiter
  pub key_id : Option ℕ
  pub rate_limit_headers : Option L.Headers

-- What the dependency returns or raises: an `HTTPException` has a status and, for 429, headers.
pub data Answer (Headers : Type 0) : Type 0 where
  granted : ApiKeyInfo → Answer Headers
  http_exception : ℕ → Option Headers → Answer Headers

-- "admin" passes any check, and no required scope is none to check.
abbrev pub scope_passes : Option String → ApiKeyInfo → Bool
scope_passes none info = true
scope_passes (some required_scope) info = has_scope info required_scope || has_scope info "admin"

abbrev rate_limited : ErrorResponse
rate_limited = record { category = ErrorCategory.transient; code = "ERR-AUTH-004" }

module _ {K : KeyStoreProvider} {L : RateLimiting} where
  -- 6. Rate limiting, where there is a limiter and the key has a limit.
  unfoldable pub limit_rate :
      State K L → ApiKeyInfo → Option L.Limiter → Option ℕ → State K L × Answer L.Headers
  limit_rate s info none rpm = (s, granted info)
  limit_rate s info (some limiter) none = (s, granted info)
  limit_rate s info (some limiter) (some rpm) =
      let c = L.check limiter info.key_id rpm in
      let after : State K L = record s { rate_limiter = some c.0 } in
      if c.1
      then (record after { rate_limit_headers = some c.2 }, granted info)
      else (after, http_exception (http_status_for rate_limited) (some c.2))

  -- 4. and 5. The key is noted on the request before its scope is checked.
  unfoldable pub check_scope : Option String → State K L → ApiKeyInfo → State K L × Answer L.Headers
  check_scope required_scope s info =
      let noted : State K L = record s { key_id = some info.key_id } in
      let passed = limit_rate noted info s.rate_limiter info.rate_limit_rpm in
      if scope_passes required_scope info
      then passed
      else (noted, http_exception (http_status_for auth_insufficient_scope) none)

  -- 3. Validate the token
  unfoldable pub check_info :
      Option String → State K L → Option ApiKeyInfo → State K L × Answer L.Headers
  check_info required_scope s none = (s, http_exception (http_status_for auth_invalid_token) none)
  check_info required_scope s (some info) = check_scope required_scope s info

  -- `lookup_by_token`; the key store that it leaves is the registered one.
  unfoldable pub check_token :
      Option String
      → State K L
      → String
      → ProviderRegistry K.Store
      → Registry.Lookup K.Store
      → State K L × Answer L.Headers
  check_token required_scope s token registry (value_error available) = (s, http_exception 500 none)
  check_token required_scope s token registry (found store) =
      let l = K.lookup_by_token store token in
      check_info required_scope
        (record s { registry = some (Registry.register registry "key_store" "default" l.0) }) l.1

  -- 2. Retrieve the key store
  unfoldable pub find_store :
      Option String
      → State K L
      → String
      → Option (ProviderRegistry K.Store)
      → State K L × Answer L.Headers
  find_store required_scope s token none = (s, http_exception 500 none)
  find_store required_scope s token (some registry) =
      check_token required_scope s token registry (Registry.get registry "key_store" "default")

  -- 1. `_dependency`
  unfoldable pub require_scope :
      Option String → State K L → Option String → State K L × Answer L.Headers
  require_scope required_scope s none =
      (s, http_exception (http_status_for auth_invalid_token) none)
  require_scope required_scope s (some token) = find_store required_scope s token s.registry
