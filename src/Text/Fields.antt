-- ===== src/Text/Fields.antt =====
-- strings.Fields and strings.Join.
use el_backend.Base.{false, ◌++◌, true, [], ◌∷◌, List}
use el_backend.Text.Defs.{is_space, Text}

-- the word read so far, unless it is empty
abbrev pub flush : Text → List Text
flush [] = []
flush (c ∷ s) = (c ∷ s) ∷ []

unfoldable pub fields_from : Text → Text → List Text
unfolding is_space
fields_from word [] = flush word
fields_from word (c ∷ s) = elim (is_space c) [
  | true ↦ flush word ++ fields_from [] s
  | false ↦ fields_from (word ++ c ∷ []) s
]

unfoldable pub fields : Text → List Text
unfolding fields_from
fields s = fields_from [] s

unfoldable pub join_with : Text → List Text → Text
join_with sep [] = []
join_with sep (w ∷ []) = w
join_with sep (w ∷ v ∷ ws) = w ++ sep ++ join_with sep (v ∷ ws)
