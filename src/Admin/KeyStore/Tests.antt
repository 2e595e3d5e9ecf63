-- ===== src/Admin/KeyStore/Tests.antt =====
-- A key store with two keys, and the theorems at that store.
use vektra_stack.Prelude.{
  ℕ, ◌≡◌, refl, sym, ap, ap₂, ◌∙◌, ◌⊎◌, inl, inr, Bool, true, Option, none, some, List, [], ◌∷◌,
  String, ◌&&◌, arith,
}
use vektra_stack.Prelude.Tests.{none-some, some_injective, false-true, if◌then◌else◌, Bool-cases}
use vektra_stack.Prelude.Eq.{string_eq, nat_eq, ◌==◌, contains}
use vektra_stack.Prelude.Dict
use vektra_stack.Admin.Keys.{
  Argon2, TtlCache, Verdict, Sound, verify_sync, verify_key, verify_key-Sound,
}
use vektra_stack.Admin.KeyStore.{
  KeyEntry, KeyStore, init, insert, revoke_key_by_id, revoke_first, lookup_by_token, preview_of,
  try_candidates, info_of,
}
use vektra_stack.Admin.KeyStore.Index.{Event, run, apply}
use vektra_stack.Admin.KeyStore.Lookup.{Opens, lookup_by_token-Opens}
use vektra_stack.Admin.KeyStore.Revocation.{revoked_key_rejected, reached_key_answers}

one_slot-get-put :
    (c : Option (String × String × Bool)) (t u : ℕ) (k j : String × String) (v w : Bool)
    → (if (k.0 == j.0) && (k.1 == j.1) then some v else none) ≡ some w
    → (k ≡ j) × (v ≡ w)
      ⊎ (elim c [ none ↦ none | some (h, p, x) ↦ if (h == j.0) && (p == j.1) then some x else none ]
          ≡ some w)
one_slot-get-put c t u (h, p) (h', p') v w e = elim (Bool-cases (h == h')) [
  | inr other ↦ elim (none-some (rw other at e)) [ ]
  | inl same ↦ elim (Bool-cases (p == p')) [
    | inr other ↦ elim (none-some (rw (same, other) at e)) [ ]
    | inl same' ↦ inl (
      ap₂ (λ a b. (a, b)) ((string_eq.beq_iff h h').0 same) ((string_eq.beq_iff p p').0 same'),
      some_injective (rw (same, same') at e),
    )
  ]
]

-- A cache of one verification.
abbrev one_slot : TtlCache
one_slot = record {
  Cache = Option (String × String × Bool);
  get = λ c now k. elim c [
    | none ↦ none
    | some (h, p, v) ↦ if (h == k.0) && (p == k.1) then some v else none
  ];
  put = λ c now k v. some (k.0, k.1, v);
  get-put = one_slot-get-put;
}

-- One hash opens for one token.
abbrev verify : Argon2
verify h p = if (h == "hash 1") && (p == "key-abcd") then Verdict.verified else Verdict.mismatch

only_hash : (h : String) → verify_sync verify h "key-abcd" ≡ true → h ≡ "hash 1"
only_hash h good = elim (Bool-cases (h == "hash 1")) [
  | inl same ↦ (string_eq.beq_iff h "hash 1").0 same
  | inr other ↦ elim (false-true (rw (other, verify_sync) at good)) [ ]
]

abbrev alice : KeyEntry
alice = record {
  key_id = 7;
  key_hash = "hash 1";
  key_preview = "abcd";
  scopes = "query" ∷ [];
  revoked_at = none;
  expires_at = some 100;
  rate_limit_rpm = none;
}

abbrev bob : KeyEntry
bob = record alice { key_id = 8; key_hash = "hash 2" }

abbrev history : List Event
history = Event.added alice ∷ Event.added bob ∷ Event.revoked_id 8 50 ∷ []

preview_runs : preview_of "key-abcd" ≡ "abcd"
unfolding preview_of
preview_runs = refl

lookup_runs :
    (lookup_by_token one_slot verify (λ hs. hs) (run init history) none 60 "key-abcd").1
    ≡ some (info_of alice)
unfolding lookup_by_token try_candidates verify_key preview_of run apply insert revoke_first
    Dict.get Dict.put contains
lookup_runs = refl

empty-Sound : Sound one_slot verify none
empty-Sound now h p b e = elim (none-some e) [ ]

lookup_by_token-Opens_example : Opens verify (run init history) "key-abcd" 60 (info_of alice)
lookup_by_token-Opens_example =
    (lookup_by_token-Opens one_slot verify (λ hs. hs) (run init history) none 60 "key-abcd"
        empty-Sound).1
      (info_of alice) lookup_runs

reached_key_answers_example :
    (lookup_by_token one_slot verify (λ hs. hs) (run init history) none 60 "key-abcd").1
    ≡ some (info_of alice)
unfolding preview_of run apply insert revoke_first Dict.get Dict.put contains
reached_key_answers_example =
    reached_key_answers one_slot verify (λ hs. hs) (λ hs h. refl) history none 60 "key-abcd"
      empty-Sound "hash 1" alice refl refl refl only_hash

abbrev two_keys : KeyStore
two_keys = record {
  by_hash = ("hash 1", alice) ∷ ("hash 2", bob) ∷ [];
  by_preview = ("abcd", "hash 1" ∷ "hash 2" ∷ []) ∷ [];
}

eight-seven : ◌≡◌ {A = ℕ} 8 7 → ⊥
eight-seven e = omega arith

only_id :
    (h : String) (e : KeyEntry) → Dict.get two_keys.by_hash h ≡ some e → e.key_id ≡ 7 → h ≡ "hash 1"
unfolding Dict.get
only_id h e found k = elim (Bool-cases ("hash 1" == h)) [
  | inl first ↦ sym ((string_eq.beq_iff "hash 1" h).0 first)
  | inr not_first ↦ elim (Bool-cases ("hash 2" == h)) [
    | inl second ↦
        let b : bob ≡ e = some_injective (rw (not_first, second) at found) in
        let wrong : ◌≡◌ {A = ℕ} 8 7 = ap (λ x. x.key_id) b ∙ k in elim (eight-seven wrong) [ ]
    | inr neither ↦ elim (none-some (rw (not_first, neither) at found)) [ ]
  ]
]

revoked_key_rejected_example :
    (lookup_by_token one_slot verify
      (λ hs. hs)
      (run (revoke_key_by_id two_keys 7 50) (Event.revoked_hash "hash 2" 55 ∷ []))
      none
      60
      "key-abcd").1
    ≡ none
unfolding Dict.get
revoked_key_rejected_example =
    revoked_key_rejected one_slot verify (λ hs. hs) two_keys 7 50 "hash 1" alice
      (Event.revoked_hash "hash 2" 55 ∷ []) (refl, (refl, tt)) refl refl only_id (tt, tt) none 60
      "key-abcd" empty-Sound only_hash

verify_key-Sound_example :
    ((verify_key one_slot verify none 60 "key-abcd" "hash 1").1
      ≡ verify_sync verify "hash 1" "key-abcd")
    × Sound one_slot verify (verify_key one_slot verify none 60 "key-abcd" "hash 1").0
verify_key-Sound_example = verify_key-Sound one_slot verify none 60 "key-abcd" "hash 1" empty-Sound
