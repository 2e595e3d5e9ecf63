-- ===== src/Shared/Namespace.antt =====
-- vektra_shared/namespace.py: the three settings that a namespace's config may override.
mod Tests
use vektra_stack.Prelude.{
  ℕ, ◌≡◌, refl, ap, ◌∙◌, Bool, true, false, inl, inr, ◌⊎◌, ◌≢◌, Option, none, some, List, [], ◌∷◌,
  String, arith,
}
use vektra_stack.Prelude.Tests.{if◌then◌else◌, Bool-cases, Option-cases}
use vektra_stack.Prelude.Eq.{string_eq, ◌==◌, contains, beq_ne}
use vektra_stack.Prelude.Dict
use vektra_stack.Prelude.Dict.{Dict, get-put}

-- A value in a JSONB config; no number is ever read; `container` is a list or an object, which has no hash.
pub data Json : Type 0 where
  null container : Json
  bool : Bool → Json
  number : ℕ → Json
  str : String → Json

-- What the query for the config gives: an exception, no row, a row that is not an object, or the object.
pub data Fetched : Type 0 where
  db_error no_row not_dict : Fetched
  config : Dict String Json → Fetched

-- `_VALID_GROUNDING_MODES`
abbrev pub valid_grounding_modes : List String
valid_grounding_modes = "strict" ∷ "hybrid" ∷ []

-- `ns_mode in _VALID_GROUNDING_MODES`; what has no hash raises, which gives the default as well.
abbrev pub mode_of : Option Json → String → String
mode_of (some (Json.str mode)) default =
    if contains valid_grounding_modes mode then mode else default
mode_of _ default = default

unfoldable pub resolve_grounding_mode : Fetched → String → String
resolve_grounding_mode (Fetched.config row) default =
    mode_of (Dict.get row "grounding_mode") default
resolve_grounding_mode _ default = default

abbrev pub flag_of : Option Json → Bool → Bool
flag_of (some (Json.bool b)) default = b
flag_of _ default = default

unfoldable pub resolve_citations_enabled : Fetched → Bool → Bool
resolve_citations_enabled (Fetched.config row) default =
    flag_of (Dict.get row "citations_enabled") default
resolve_citations_enabled _ default = default

unfoldable pub resolve_show_sources : Fetched → Bool → Bool
resolve_show_sources (Fetched.config row) default = flag_of (Dict.get row "show_sources") default
resolve_show_sources _ default = default

mode_of-valid :
    (o : Option Json) (default : String)
    → contains valid_grounding_modes default ≡ true
    → contains valid_grounding_modes (mode_of o default) ≡ true
mode_of-valid none default h = h
mode_of-valid (some (Json.str mode)) default h =
    elim (Bool-cases (contains valid_grounding_modes mode)) [
      | inl valid ↦ rw valid valid
      | inr invalid ↦ rw invalid h
    ]
mode_of-valid (some _) default h = h

-- With a default that is a grounding mode, the resolved mode is one, whatever the query gives.
pub resolve_grounding_mode_valid :
    (f : Fetched) (default : String)
    → contains valid_grounding_modes default ≡ true
    → contains valid_grounding_modes (resolve_grounding_mode f default) ≡ true
unfolding resolve_grounding_mode
resolve_grounding_mode_valid (Fetched.config row) default h =
    mode_of-valid (Dict.get row "grounding_mode") default h
resolve_grounding_mode_valid _ default h = h
