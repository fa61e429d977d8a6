-- ===== src/Catalogue/Collect.antt =====
-- Texts collected in order, each once and none empty: the loop with a map `seen` that
-- contentLearningGoals (internal/httpapi/public.go) and dictionaryCandidates (dictionary.go) share. The
-- map holds what has been collected.
use el_backend.Database.Table.{any}
use el_backend.Base.{◌++◌, ◌||◌, [], ◌∷◌, if◌then◌else◌, List}
use el_backend.Text.{Text, text_eq}
pub mod Made

abbrev pub add_new : List Text → Text → List Text
add_new found value =
    if text_eq value [] || any (text_eq value) found then found else found ++ value ∷ []

unfoldable pub collect : (Text → Text) → List Text → List Text → List Text
unfolding text_eq
collect normal found [] = found
collect normal found (raw ∷ rest) = collect normal (add_new found (normal raw)) rest
