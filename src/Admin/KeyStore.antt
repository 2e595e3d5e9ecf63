-- ===== src/Admin/KeyStore.antt =====
-- vektra_admin/keystore.py: `InMemoryKeyStore`. A set of hashes is the list of its members; `order`
-- is the order in which Python lists them. The runs are sequential: a lookup is one step, so no
-- other call runs while it awaits `verify_key`.
pub mod Index
pub mod Lookup
pub mod Revocation
mod Tests
use vektra_stack.Prelude.{
  ℕ, suc, ◌≡◌, Bool, true, false, Option, none, some, List, [], ◌∷◌, String, ◌&&◌, ◌||◌,
}
use vektra_stack.Prelude.Tests.{ltb, leb, if◌then◌else◌}
use vektra_stack.Prelude.Lists.{length, select}
use vektra_stack.Prelude.Eq.{nat_eq, string_eq, ◌==◌, contains}
use vektra_stack.Prelude.Dict
use vektra_stack.Prelude.Dict.{Dict}
use vektra_stack.Admin.Keys.{Argon2, TtlCache, verify_key}
use Prim.Native.String.{count}
use vektra_stack.Shared.Auth.{ApiKeyInfo}

pub record KeyEntry : Type 0 where
  pub key_id : ℕ
  pub key_hash : String
  pub key_preview : String
  pub scopes : List String
  pub revoked_at : Option ℕ
  pub expires_at : Option ℕ
  pub rate_limit_rpm : Option ℕ

pub record KeyStore : Type 0 where
  pub by_hash : Dict String KeyEntry
  pub by_preview : Dict String (List String)

abbrev pub init : KeyStore
init = record { by_hash = []; by_preview = [] }

-- `token[-4:] if len(token) >= 4 else token`
unfoldable pub preview_of : String → String
preview_of Prim.Native.String.[] = Prim.Native.String.[]
preview_of (Prim.Native.String.◌∷◌ c token) =
    let rest = preview_of token in
    if leb 4 (count token) then rest else Prim.Native.String.◌∷◌ c token

abbrev pub or_empty : Option (List String) → List String
or_empty none = []
or_empty (some hashes) = hashes

-- `set.add`
abbrev pub set_add : List String → String → List String
set_add hashes h = if contains hashes h then hashes else h ∷ hashes

-- `_by_hash[key_hash] = entry; _by_preview.setdefault(key_preview, set()).add(key_hash)`
unfoldable pub insert : KeyStore → KeyEntry → KeyStore
insert s entry = record {
  by_hash = Dict.put s.by_hash entry.key_hash entry;
  by_preview =
      Dict.put s.by_preview entry.key_preview
        (set_add (or_empty (Dict.get s.by_preview entry.key_preview)) entry.key_hash);
}

abbrev pub add_key : KeyStore → ℕ → String → String → List String → Option ℕ → Option ℕ → KeyStore
add_key s key_id key_hash key_preview scopes expires_at rate_limit_rpm = insert s (record {
  key_id = key_id;
  key_hash = key_hash;
  key_preview = key_preview;
  scopes = scopes;
  revoked_at = none;
  expires_at = expires_at;
  rate_limit_rpm = rate_limit_rpm;
})

abbrev pub revoked : ℕ → KeyEntry → KeyEntry
revoked now entry = record entry { revoked_at = some now }

unfoldable pub revoke_key : KeyStore → String → ℕ → KeyStore
revoke_key s key_hash now = elim (Dict.get s.by_hash key_hash) [
  | none ↦ s
  | some entry ↦ record s { by_hash = Dict.put s.by_hash key_hash (revoked now entry) }
]

-- The loop of `revoke_key_by_id`: it stops at the first entry with the id.
unfoldable pub revoke_first : Dict String KeyEntry → ℕ → ℕ → Dict String KeyEntry
revoke_first [] key_id now = []
revoke_first ((h, entry) ∷ entries) key_id now =
    let rest = revoke_first entries key_id now in
    if entry.key_id == key_id then (h, revoked now entry) ∷ entries else (h, entry) ∷ rest

abbrev pub revoke_key_by_id : KeyStore → ℕ → ℕ → KeyStore
revoke_key_by_id s key_id now = record s { by_hash = revoke_first s.by_hash key_id now }

-- A row of `api_keys`, in the columns that are read.
abbrev pub ApiKeyRow : Type 0
ApiKeyRow = KeyEntry

-- `expires_at > now`, for the key that has one
abbrev pub unexpired : Option ℕ → ℕ → Bool
unexpired none now = true
unexpired (some t) now = ltb now t

-- The `WHERE` clause of `load_from_db`
abbrev pub loadable : ℕ → ApiKeyRow → Bool
loadable now row = elim row.revoked_at [ none ↦ unexpired row.expires_at now | some t ↦ false ]

unfoldable pub insert_rows : KeyStore → List ApiKeyRow → KeyStore
insert_rows s [] = s
insert_rows s (row ∷ rows) = insert_rows (insert s (record row { revoked_at = none })) rows

unfoldable pub load_from_db : KeyStore → List ApiKeyRow → ℕ → KeyStore × ℕ
load_from_db s table now =
    let rows = select (loadable now) table in (insert_rows s rows, length rows)

abbrev pub size : KeyStore → ℕ
size s = length s.by_hash

abbrev pub info_of : KeyEntry → ApiKeyInfo
info_of entry = record {
  key_id = entry.key_id;
  scopes = entry.scopes;
  rate_limit_rpm = entry.rate_limit_rpm;
}

-- What the lookup answers for a key that it has matched.
abbrev pub answer : ℕ → KeyEntry → Option ApiKeyInfo
answer now entry = elim entry.revoked_at [
  | some t ↦ none
  | none ↦ if unexpired entry.expires_at now then some (info_of entry) else none
]

module _ (ttl : TtlCache) (verify : Argon2) where
  -- The loop of `lookup_by_token` over the candidate hashes.
  unfoldable pub try_candidates :
      KeyStore → String → ℕ → List String → ttl.Cache → ttl.Cache × Option ApiKeyInfo
  try_candidates s token now [] cache = (cache, none)
  try_candidates s token now (key_hash ∷ hashes) cache =
      let v = verify_key ttl verify cache now token key_hash in
      let skip = try_candidates s token now hashes cache in
      let next = try_candidates s token now hashes v.0 in
      elim (Dict.get s.by_hash key_hash) [
        | none ↦ skip
        | some entry ↦ elim v.1 [ false ↦ next | true ↦ (v.0, answer now entry) ]
      ]

  unfoldable pub lookup_by_token :
      (List String → List String)
      → KeyStore
      → ttl.Cache
      → ℕ
      → String
      → ttl.Cache × Option ApiKeyInfo
  lookup_by_token order s cache now token =
      try_candidates s token now (order (or_empty (Dict.get s.by_preview (preview_of token)))) cache
