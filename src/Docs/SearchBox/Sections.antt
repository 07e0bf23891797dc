-- ===== src/Docs/SearchBox/Sections.antt =====
-- html/search/searchdata.js: the initial characters and the name of each section of the index.
use database_system_swe.Base.{List, [], ◌∷◌}
use database_system_swe.Docs.Text.{Text, text}

-- `indexSectionsWithContent`
abbrev pub index_sections_with_content : List Text
index_sections_with_content =
    text "abcdefghijlmnopqrstuvwx"
    ∷ text "abcdefghijlmnopqrstu"
    ∷ text "abcdefghijlmnopqrstuvwx"
    ∷ []

-- `indexSectionNames`
abbrev pub index_section_names : List Text
index_section_names = text "all" ∷ text "classes" ∷ text "functions" ∷ []

-- `indexSectionLabels`
abbrev pub index_section_labels : List Text
index_section_labels = text "All" ∷ text "Classes" ∷ text "Functions" ∷ []
