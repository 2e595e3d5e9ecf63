-- ===== src/Ingest/Detection/Full.antt =====
-- vektra_ingest/detection.py: the type that is detected, and the types that have an extractor.
use vektra_stack.Prelude.{ℕ, ◌≡◌, refl, true, false, Option, none, some, List, [], ◌∷◌, String}
use vektra_stack.Prelude.Tests.{if◌then◌else◌, if-cases}
use vektra_stack.Prelude.Eq.{string_eq, ◌==◌}
use vektra_stack.Prelude.Lists.{take}
use vektra_stack.Prelude.Dict
use vektra_stack.Prelude.Dict.{Dict}
use vektra_stack.Ingest.Detection.{
  Extractor, ext_map, fallback, or_type, by_extension, by_magic, detect_content_type, get_extractor,
  build_extractor_registry, add_extractors, add_types,
}

-- A text that is not empty
abbrev Full : String → Type 0
Full t = (t == "") ≡ false

abbrev AllFull : Dict String String → Type 0
AllFull [] = Unit {0}
AllFull ((extension, mime) ∷ m) = Full mime × AllFull m

looked_up-Full :
    (m : Dict String String) (extension other : String)
    → AllFull m
    → Full other
    → Full (or_type (Dict.get m extension) other)
unfolding Dict.get
looked_up-Full [] extension other all full = full
looked_up-Full ((e, mime) ∷ m) extension other all full =
    if-cases (λ o. Full (or_type o other)) (e == extension) (some mime) (Dict.get m extension)
      (λ y. all.0) (λ n. looked_up-Full m extension other all.1 full)

ext_map-Full :
    (extension other : String) → Full other → Full (or_type (Dict.get ext_map extension) other)
ext_map-Full extension other full =
    looked_up-Full ext_map extension other
      (refl, (refl, (refl, (refl, (refl, (refl, (refl, tt))))))) full

module _ (from_buffer : List ℕ → Option String) (extension : String → String) where
  by_extension-Full :
      (filename other : String)
      → Full other
      → Full (by_extension from_buffer extension filename other)
  by_extension-Full filename other full =
      if-cases Full (filename == "") other (or_type (Dict.get ext_map (extension filename)) other)
        (λ e. full) (λ e. ext_map-Full (extension filename) other full)

  by_magic-Full :
      (filename : String) (o : Option String) → Full (by_magic from_buffer extension filename o)
  by_magic-Full filename none = by_extension-Full filename fallback refl
  by_magic-Full filename (some mime) =
      if-cases Full (mime == "") (by_extension from_buffer extension filename fallback)
        (if mime == "text/plain" then by_extension from_buffer extension filename mime else mime)
        (λ e. by_extension-Full filename fallback refl)
        (λ full.
          if-cases Full (mime == "text/plain") (by_extension from_buffer extension filename mime)
            mime (λ e. by_extension-Full filename mime full) (λ e. full))

  -- Whatever libmagic answers, the type of a document is not empty.
  detect_content_type-Full :
      (content : List ℕ) (filename : String)
      → Full (detect_content_type from_buffer extension content filename)
  unfolding detect_content_type
  detect_content_type-Full content filename =
      by_magic-Full filename (from_buffer (take 8192 content))

pdf_by_unstructured :
    get_extractor "unstructured" true "application/pdf" ≡ some Extractor.unstructured
unfolding get_extractor build_extractor_registry add_extractors add_types Dict.get Dict.put
pdf_by_unstructured = refl

word_unsupported : get_extractor "auto" false "application/msword" ≡ none
unfolding get_extractor build_extractor_registry add_extractors add_types Dict.get Dict.put
word_unsupported = refl
