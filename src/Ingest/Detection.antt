-- ===== src/Ingest/Detection.antt =====
-- vektra_ingest/detection.py, and the table of the extractors in vektra_ingest/pipeline.py. libmagic is a
-- parameter (`none` where it is missing or raises), and so is `os.path.splitext` on the lower-case name.
mod Full
use vektra_stack.Prelude.{
  ℕ, ◌≡◌, Bool, true, false, not, ◌&&◌, Option, none, some, List, [], ◌∷◌, ◌++◌, String,
}
use vektra_stack.Prelude.Tests.{if◌then◌else◌}
use vektra_stack.Prelude.Lists.{take}
use vektra_stack.Prelude.Eq.{string_eq, ◌==◌}
use vektra_stack.Prelude.Dict
use vektra_stack.Prelude.Dict.{Dict}

abbrev pub fallback : String
fallback = "application/octet-stream"

abbrev pub docx : String
docx = "application/vnd.openxmlformats-officedocument.wordprocessingml.document"

abbrev pub pptx : String
pptx = "application/vnd.openxmlformats-officedocument.presentationml.presentation"

abbrev pub ext_map : Dict String String
ext_map =
    (".pdf", "application/pdf")
    ∷ (".docx", docx)
    ∷ (".pptx", pptx)
    ∷ (".doc", "application/msword")
    ∷ (".ppt", "application/vnd.ms-powerpoint")
    ∷ (".md", "text/markdown")
    ∷ (".markdown", "text/markdown")
    ∷ []

abbrev pub or_type : Option String → String → String
or_type none other = other
or_type (some mime) other = mime

module _ (from_buffer : List ℕ → Option String) (extension : String → String) where
  abbrev pub by_extension : String → String → String
  by_extension filename other =
      if filename == "" then other else or_type (Dict.get ext_map (extension filename)) other

  abbrev pub by_magic : String → Option String → String
  by_magic filename none = by_extension filename fallback
  by_magic filename (some mime) =
      if mime == ""
      then by_extension filename fallback
      else if mime == "text/plain"
      then by_extension filename mime
      else mime

  unfoldable pub detect_content_type : List ℕ → String → String
  detect_content_type content filename = by_magic filename (from_buffer (take 8192 content))

pub data Extractor : Type 0 where
  pdfplumber word power_point markdown unstructured : Extractor

abbrev pub supported_types : Extractor → List String
supported_types Extractor.pdfplumber = "application/pdf" ∷ []
supported_types Extractor.word = docx ∷ []
supported_types Extractor.power_point = pptx ∷ []
supported_types Extractor.markdown = "text/markdown" ∷ "text/x-markdown" ∷ []
supported_types Extractor.unstructured = "application/pdf" ∷ []

unfoldable pub add_types : Dict String Extractor → Extractor → List String → Dict String Extractor
add_types registry extractor [] = registry
add_types registry extractor (mime ∷ mimes) =
    add_types (Dict.put registry mime extractor) extractor mimes

unfoldable pub add_extractors : Dict String Extractor → List Extractor → Dict String Extractor
add_extractors registry [] = registry
add_extractors registry (extractor ∷ extractors) =
    add_extractors (add_types registry extractor (supported_types extractor)) extractors

-- `installed` says whether the package unstructured can be imported.
unfoldable pub build_extractor_registry : String → Bool → Dict String Extractor
build_extractor_registry document_extractor installed =
    let registry =
      add_extractors []
        (Extractor.pdfplumber ∷ Extractor.word ∷ Extractor.power_point ∷ Extractor.markdown ∷ []) in
    if document_extractor == "unstructured" && installed
    then add_types registry Extractor.unstructured (supported_types Extractor.unstructured)
    else registry

unfoldable pub get_extractor : String → Bool → String → Option Extractor
get_extractor document_extractor installed content_type =
    Dict.get (build_extractor_registry document_extractor installed) content_type
