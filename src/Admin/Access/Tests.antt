-- ===== src/Admin/Access/Tests.antt =====
-- Requests with the key of a small store.
use vektra_stack.Prelude.{◌≡◌, refl, inr, ◌↔◌, true, none, some, [], ◌∷◌, String, ◌&&◌}
use vektra_stack.Prelude.Tests.{none-some, if◌then◌else◌}
use vektra_stack.Prelude.Eq.{string_eq, nat_eq, ◌==◌, contains}
use vektra_stack.Prelude.Dict
use vektra_stack.Shared.Errors.{http_status_for}
use vektra_stack.Shared.Registry
use vektra_stack.Shared.Auth.{
  State, granted, http_exception, require_scope, find_store, check_token, check_info, check_scope,
  limit_rate, scope_passes,
}
use vektra_stack.Shared.Auth.Gate.{Admits, require_scope-Admits}
use vektra_stack.Shared.Auth.Refusals.{RefusedWell, require_scope-RefusedWell}
use vektra_stack.Admin.Keys.{Argon2, TtlCache, Verdict, Sound, verify_key}
use vektra_stack.Admin.KeyStore.{
  KeyEntry, KeyStore, lookup_by_token, preview_of, try_candidates, info_of,
}
use vektra_stack.Admin.KeyStore.Lookup.{Opens}
use vektra_stack.Admin.Access.{key_store_at, limiter_at, require_scope-Opens}

-- A cache that keeps nothing.
abbrev forgetful : TtlCache
forgetful = record {
  Cache = Unit;
  get = λ c now k. none;
  put = λ c now k v. tt;
  get-put = λ c t u k j v w e. inr e;
}

abbrev verify : Argon2
verify h p = if (h == "hash 1") && (p == "key-abcd") then Verdict.verified else Verdict.mismatch

abbrev alice : KeyEntry
alice = record {
  key_id = 7;
  key_hash = "hash 1";
  key_preview = "abcd";
  scopes = "query" ∷ [];
  revoked_at = none;
  expires_at = some 100;
  rate_limit_rpm = none;
}

abbrev keys : KeyStore
keys = record { by_hash = ("hash 1", alice) ∷ []; by_preview = ("abcd", "hash 1" ∷ []) ∷ [] }

abbrev registry : Registry.ProviderRegistry (KeyStore × Unit)
registry = ("key_store", ("default", (keys, tt)) ∷ []) ∷ []

abbrev state : State (key_store_at forgetful verify (λ hs. hs) 60) (limiter_at 0 0)
state = record {
  registry = some registry;
  rate_limiter = none;
  key_id = none;
  rate_limit_headers = none;
}

nothing-Sound : Sound forgetful verify tt
nothing-Sound now h p b e = elim (none-some e) [ ]

query_granted : (require_scope (some "query") state (some "key-abcd")).1 ≡ granted (info_of alice)
unfolding require_scope find_store check_token check_info check_scope limit_rate Registry.get
    lookup_by_token try_candidates verify_key preview_of Dict.get contains
query_granted = refl

ingest_refused : (require_scope (some "ingest") state (some "key-abcd")).1 ≡ http_exception 403 none
unfolding require_scope find_store check_token check_info check_scope limit_rate Registry.get
    lookup_by_token try_candidates verify_key preview_of Dict.get contains http_status_for
ingest_refused = refl

require_scope-Admits_example :
    ((require_scope (some "query") state (some "key-abcd")).1 ≡ granted (info_of alice))
    ↔ Admits
        (key_store_at forgetful verify (λ hs. hs) 60)
        (limiter_at 0 0)
        (some "query")
        state
        (some "key-abcd")
        (info_of alice)
require_scope-Admits_example =
    require_scope-Admits (key_store_at forgetful verify (λ hs. hs) 60) (limiter_at 0 0)
      (some "query") state (some "key-abcd") (info_of alice)

require_scope-RefusedWell_example :
    RefusedWell
      (key_store_at forgetful verify (λ hs. hs) 60)
      (limiter_at 0 0)
      none
      (require_scope (some "ingest") state (some "key-abcd"))
require_scope-RefusedWell_example =
    require_scope-RefusedWell (key_store_at forgetful verify (λ hs. hs) 60) (limiter_at 0 0)
      (some "ingest") state (some "key-abcd")

require_scope-Opens_example :
    (token : String) × (some "key-abcd" ≡ some token)
    × Opens verify keys token 60 (info_of alice)
    × (scope_passes (some "query") (info_of alice) ≡ true)
unfolding Registry.get Dict.get
require_scope-Opens_example =
    require_scope-Opens forgetful verify (λ hs. hs) 60 0 0 (some "query") state registry keys tt
      (some "key-abcd") (info_of alice) refl refl nothing-Sound query_granted
