-- ===== src/Shared/Namespace/Tests.antt =====
-- A namespace that overrides two settings, one of them wrongly.
use vektra_stack.Prelude.{◌≡◌, refl, true, false, [], ◌∷◌, String}
use vektra_stack.Prelude.Eq.{string_eq, contains}
use vektra_stack.Prelude.Dict
use vektra_stack.Prelude.Dict.{Dict}
use vektra_stack.Shared.Namespace.{
  Json, Fetched, resolve_grounding_mode, resolve_citations_enabled, resolve_show_sources,
  valid_grounding_modes, resolve_grounding_mode_valid,
}

abbrev row : Dict String Json
row = ("grounding_mode", Json.str "loose") ∷ ("show_sources", Json.bool false) ∷ []

falls_back : resolve_grounding_mode (Fetched.config row) "hybrid" ≡ "hybrid"
unfolding resolve_grounding_mode Dict.get contains
falls_back = refl

resolve_grounding_mode_valid_example :
    contains valid_grounding_modes (resolve_grounding_mode (Fetched.config row) "hybrid") ≡ true
unfolding contains
resolve_grounding_mode_valid_example =
    resolve_grounding_mode_valid (Fetched.config row) "hybrid" refl

-- One Boolean overrides, a missing one does not.
show_sources_overridden : resolve_show_sources (Fetched.config row) true ≡ false
unfolding resolve_show_sources Dict.get
show_sources_overridden = refl

citations_default : resolve_citations_enabled (Fetched.config row) true ≡ true
unfolding resolve_citations_enabled Dict.get
citations_default = refl
