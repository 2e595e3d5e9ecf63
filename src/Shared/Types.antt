-- ===== src/Shared/Types.antt =====
-- vektra_shared/types.py: element types and document chunks.
use vektra_stack.Prelude.{ℕ, ◌≡◌, ◌↔◌, ap, Bool, true, Option, List, [], ◌∷◌, String, map, arith}
use vektra_stack.Prelude.Tests.{nat_beq, nat_beq_iff}
use vektra_stack.Prelude.Lists.{select}
use vektra_stack.Prelude.Eq.{Eq, contains}
use vektra_stack.Prelude.Dict.{Dict}

pub data ElementType : Type 0 where
  text table title list image header footer figure_caption page_break formula : ElementType

unfoldable pub value : ElementType → String
value ElementType.text = "text"
value ElementType.table = "table"
value ElementType.title = "title"
value ElementType.list = "list"
value ElementType.image = "image"
value ElementType.header = "header"
value ElementType.footer = "footer"
value ElementType.figure_caption = "caption"
value ElementType.page_break = "page_break"
value ElementType.formula = "formula"

-- The rank of a type's value among the values in alphabetical order.
abbrev rank : ElementType → ℕ
rank ElementType.figure_caption = 0
rank ElementType.footer = 1
rank ElementType.formula = 2
rank ElementType.header = 3
rank ElementType.image = 4
rank ElementType.list = 5
rank ElementType.page_break = 6
rank ElementType.table = 7
rank ElementType.text = 8
rank ElementType.title = 9

rank-injective : (a b : ElementType) → rank a ≡ rank b → a ≡ b
rank-injective a b h = ground arith

abbrev pub type_beq : ElementType → ElementType → Bool
type_beq a b = nat_beq (rank a) (rank b)

pub type_beq_iff : (a b : ElementType) → (type_beq a b ≡ true) ↔ (a ≡ b)
type_beq_iff a b = (
  λ h. rank-injective a b ((nat_beq_iff (rank a) (rank b)).0 h),
  λ e. (nat_beq_iff (rank a) (rank b)).1 (ap rank e),
)

instance abbrev pub type_eq : Eq ElementType
type_eq = record { beq = type_beq; beq_iff = type_beq_iff }

-- `sorted` of a set of type values
unfoldable pub sorted_values : List ElementType → List String
unfolding value contains
sorted_values types = map value (
    select (contains types) (
      ElementType.figure_caption ∷ ElementType.footer ∷ ElementType.formula ∷ ElementType.header
      ∷ ElementType.image ∷ ElementType.list ∷ ElementType.page_break ∷ ElementType.table
      ∷ ElementType.text ∷ ElementType.title ∷ []))

-- A value in a metadata dict.
pub data Value : Type 0 where
  int : ℕ → Value
  str : String → Value
  strs : List String → Value

abbrev pub Metadata : Type 0
Metadata = Dict String Value

-- A bounding box is carried along and never read, so its type is a parameter.
pub record DocumentChunk (Box : Type 0) : Type 0 where
  pub text : String
  pub element_type : ElementType
  pub content_format : String
  pub metadata : Metadata
  pub parent_id : Option String
  pub coordinates : Option Box
  pub index_version : ℕ
