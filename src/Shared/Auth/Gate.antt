-- ===== src/Shared/Auth/Gate.antt =====
-- Who passes `require_scope`, and what a refusal leaves.
use vektra_stack.Prelude.{
  ℕ, ◌≡◌, refl, sym, ◌∙◌, ap, inl, inr, ◌↔◌, Bool, true, Option, none, some, String, arith,
}
use vektra_stack.Prelude.Tests.{false-true, Bool-cases}
use vektra_stack.Shared.Registry
use vektra_stack.Shared.Registry.{Lookup, ProviderRegistry, found, value_error}
use vektra_stack.Shared.Auth.{
  ApiKeyInfo, KeyStoreProvider, RateLimiting, State, Answer, granted, http_exception, scope_passes,
  limit_rate, check_scope, check_info, check_token, find_store, require_scope,
}

granted-injective :
    {H : Type 0} {a b : ApiKeyInfo} → ◌≡◌ {A = Answer H} (granted a) (granted b) → a ≡ b
granted-injective {H} {a} e = ap (λ x. elim x [ granted i ↦ i | http_exception status h ↦ a ]) e

exception_granted :
    {H : Type 0} {a : ApiKeyInfo} {status : ℕ} {h : Option H}
    → ◌≡◌ {A = Answer H} (http_exception status h) (granted a)
    → ⊥
exception_granted e = ground arith

module _ (K : KeyStoreProvider) (L : RateLimiting) where
  -- The limiter, if there is one and the key has a limit, lets the request through.
  abbrev pub within_limit : Option L.Limiter → ℕ → Option ℕ → Bool
  within_limit none key_id rpm = true
  within_limit (some limiter) key_id none = true
  within_limit (some limiter) key_id (some rpm) = (L.check limiter key_id rpm).1

  -- The credentials are a token that the registered key store knows as a key with a passing scope
  -- and within its limit.
  abbrev pub Admits : Option String → State K L → Option String → ApiKeyInfo → Type 0
  Admits required_scope s credentials info =
      (token : String) × (registry : ProviderRegistry K.Store) × (store : K.Store) × (credentials
        ≡ some token)
      × (s.registry ≡ some registry)
      × (Registry.get registry "key_store" "default" ≡ found store)
      × ((K.lookup_by_token store token).1 ≡ some info)
      × (scope_passes required_scope info ≡ true)
      × (within_limit s.rate_limiter info.key_id info.rate_limit_rpm ≡ true)

  limit_rate_iff :
      (s : State K L) (info i : ApiKeyInfo) (limiter : Option L.Limiter) (rpm : Option ℕ)
      → ((limit_rate s info limiter rpm).1 ≡ granted i)
        ↔ (info ≡ i) × (within_limit limiter info.key_id rpm ≡ true)
  unfolding limit_rate
  limit_rate_iff s info i none rpm = (λ e. (granted-injective e, refl), λ p. ap granted p.0)
  limit_rate_iff s info i (some l) none = (λ e. (granted-injective e, refl), λ p. ap granted p.0)
  limit_rate_iff s info i (some l) (some rpm) = elim (Bool-cases (L.check l info.key_id rpm).1) [
    | inl allowed ↦ rw allowed (λ e. (granted-injective e, refl), λ p. ap granted p.0)
    | inr refused ↦ rw refused (λ e. elim (exception_granted e) [ ], λ p. elim (false-true p.1) [ ])
  ]

  check_scope_iff :
      (required_scope : Option String) (s : State K L) (info i : ApiKeyInfo)
      → ((check_scope required_scope s info).1 ≡ granted i)
        ↔ (info ≡ i)
          × (scope_passes required_scope info ≡ true)
          × (within_limit s.rate_limiter info.key_id info.rate_limit_rpm ≡ true)
  unfolding check_scope
  check_scope_iff required_scope s info i = elim (Bool-cases (scope_passes required_scope info)) [
    | inl passes ↦
        let l =
          limit_rate_iff (record s { key_id = some info.key_id }) info i s.rate_limiter
            info.rate_limit_rpm in
        rw passes (λ e. ((l.0 e).0, refl, (l.0 e).1), λ p. l.1 (p.0, p.2))
    | inr fails ↦ rw fails (λ e. elim (exception_granted e) [ ], λ p. elim (false-true p.1) [ ])
  ]

  check_info_admits :
      (required_scope : Option String) (s : State K L) (known : Option ApiKeyInfo) (i : ApiKeyInfo)
      → (check_info required_scope s known).1 ≡ granted i
      → (known ≡ some i)
        × (scope_passes required_scope i ≡ true)
        × (within_limit s.rate_limiter i.key_id i.rate_limit_rpm ≡ true)
  unfolding check_info
  check_info_admits required_scope s none i e = elim (exception_granted e) [ ]
  check_info_admits required_scope s (some info) i e =
      let (same, passes, within) = (check_scope_iff required_scope s info i).0 e in
      (
        ap some same,
        ap (scope_passes required_scope) (sym same) ∙ passes,
        ap (λ k. within_limit s.rate_limiter k.key_id k.rate_limit_rpm) (sym same) ∙ within,
      )

  admitted :
      (required_scope : Option String) (s : State K L) (credentials : Option String)
      (info : ApiKeyInfo)
      → (require_scope required_scope s credentials).1 ≡ granted info
      → Admits required_scope s credentials info
  unfolding require_scope find_store check_token
  admitted required_scope s none info e = elim (exception_granted e) [ ]
  admitted required_scope s (some token) info e = in_registry s.registry refl e
    where
      in_store :
          (registry : ProviderRegistry K.Store) (l : Lookup K.Store)
          → s.registry ≡ some registry
          → Registry.get registry "key_store" "default" ≡ l
          → (check_token required_scope s token registry l).1 ≡ granted info
          → Admits required_scope s (some token) info
      in_store registry (value_error names) r g e = elim (exception_granted e) [ ]
      in_store registry (found store) r g e =
          let (known, passes, within) =
            check_info_admits required_scope
              (record s {
                registry = some (
                    Registry.register registry "key_store" "default"
                      (K.lookup_by_token store token).0);
              })
              (K.lookup_by_token store token).1 info (e) in
          (token, registry, store, refl, r, g, known, passes, within)

      in_registry :
          (o : Option (ProviderRegistry K.Store))
          → s.registry ≡ o
          → (find_store required_scope s token o).1 ≡ granted info
          → Admits required_scope s (some token) info
      in_registry none r e = elim (exception_granted e) [ ]
      in_registry (some registry) r e =
          in_store registry (Registry.get registry "key_store" "default") r refl (e)

  admits_lem :
      (required_scope : Option String) (s : State K L) (token : String) (info : ApiKeyInfo)
      (registry : ProviderRegistry K.Store) (store : K.Store)
      → s.registry ≡ some registry
      → Registry.get registry "key_store" "default" ≡ found store
      → (K.lookup_by_token store token).1 ≡ some info
      → scope_passes required_scope info ≡ true
      → within_limit s.rate_limiter info.key_id info.rate_limit_rpm ≡ true
      → (find_store required_scope s token s.registry).1 ≡ granted info
  unfolding find_store check_token check_info
  admits_lem required_scope s token info registry store r g l p w =
      let after : State K L = record s {
        registry =
            some
              (Registry.register registry "key_store" "default" (K.lookup_by_token store token).0);
      } in
      ap (λ o. (find_store required_scope s token o).1) r
      ∙ ap (λ o. (check_token required_scope s token registry o).1) g
      ∙ ap (λ o. (check_info required_scope after o).1) l
      ∙ (check_scope_iff required_scope after info info).1 (refl, p, w)

  -- `require_scope` returns a key exactly when the credentials are a token that the registered key store
  -- knows as that key, the scope is among the key's or it has "admin" or none is required, and the
  -- limiter, where there is one and the key has a limit, allows the request.
  pub require_scope-Admits :
      (required_scope : Option String) (s : State K L) (credentials : Option String)
      (info : ApiKeyInfo)
      → ((require_scope required_scope s credentials).1 ≡ granted info)
        ↔ Admits required_scope s credentials info
  unfolding require_scope
  require_scope-Admits required_scope s credentials info = (
    admitted required_scope s credentials info,
    λ (token, registry, store, c, r, g, l, p, w).
        ap (λ o. (require_scope required_scope s o).1) c
        ∙ admits_lem required_scope s token info registry store r g l p w,
  )
