-- ===== src/Shared/Registry/Tests.antt =====
-- A registry with two providers.
use vektra_stack.Prelude.{◌≡◌, refl, [], ◌∷◌, ℕ}
use vektra_stack.Prelude.Eq.{string_eq}
use vektra_stack.Prelude.Dict
use vektra_stack.Shared.Registry.{ProviderRegistry, found, value_error, register, get, get-register}

abbrev registry : ProviderRegistry ℕ
registry = ("llm", ("litellm", 1) ∷ ("fake", 2) ∷ []) ∷ []

get_fails : get registry "llm" "other" ≡ value_error ("litellm" ∷ "fake" ∷ [])
unfolding get Dict.get
get_fails = refl

get-register_example : get (register registry "llm" "other" 3) "llm" "fake" ≡ found 2
unfolding Dict.get
get-register_example = get-register registry "llm" "other" "llm" "fake" 3
