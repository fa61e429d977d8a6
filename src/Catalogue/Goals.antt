-- ===== src/Catalogue/Goals.antt =====
-- contentLearningGoals, contentGrammarPoints, contentFeaturedWords and normalizeFeaturedPartOfSpeech
-- (internal/httpapi/public.go): what the public API shows of the stored metadata.
use el_backend.Catalogue.Collect.{collect}
use el_backend.Database.Table.{any}
use el_backend.Text.Fields.{fields, join_with}
use el_backend.Publish.Document.{normal_option, FeaturedWord, GrammarPoint}
use el_backend.Base.{
  ◌==◌, length, all, ◌++◌, ◌&&◌, true, ◌||◌, false, ltb, [], ◌∷◌, not, some, none, if◌then◌else◌,
  Bool, List,
}
use el_backend.Catalogue.Codec.{Json}
use el_backend.Text.{codes, trim_space, to_lower, Text, text_eq, byte_len, Unicode}
pub mod Spec

module _ ⦃u : Unicode⦄ where
  -- the loop over the stored goals
  unfoldable pub goal_loop : List Text → List Text
  unfolding collect to_lower trim_space
  goal_loop raws = collect normal_option [] raws

  abbrev pub add_grammar_goal : List GrammarPoint → List Text → List Text
  add_grammar_goal [] goals = goals
  add_grammar_goal (p ∷ ps) goals =
      if any (text_eq (codes "grammar")) goals then goals else goals ++ codes "grammar" ∷ []

  unfoldable pub content_learning_goals : Json → Text → List Text
  unfolding goal_loop text_eq
  content_learning_goals json metadata = elim (json.goals_of metadata) [
    | none ↦ []
    | some (goals, points) ↦ add_grammar_goal points (goal_loop goals)
  ]

  -- strings.ToLower(strings.Join(strings.Fields(value), " "))
  abbrev pub folded : Text → Text
  folded value = to_lower (join_with (codes " ") (fields value))

  unfoldable pub normalize_featured_part_of_speech : Text → Text
  unfolding text_eq to_lower fields join_with
  normalize_featured_part_of_speech value =
      if text_eq (folded value) (codes "n")
      then codes "noun"
      else if text_eq (folded value) (codes "v")
      then codes "verb"
      else if text_eq (folded value) (codes "adj")
      then codes "adjective"
      else if text_eq (folded value) (codes "adv")
      then codes "adverb"
      else if text_eq (folded value) (codes "prep")
      then codes "preposition"
      else if text_eq (folded value) (codes "pron")
      then codes "pronoun"
      else if text_eq (folded value) (codes "phr v") || text_eq (folded value) (codes "phrasal v")
      then codes "phrasal verb"
      else value

  -- a line of at least ten underscores opens the glossary, and a second one closes it
  abbrev pub is_rule : Text → Bool
  is_rule text = not (ltb (byte_len text) 10) && all (λ c. c == 0x5f) text

  abbrev pub featured_word : Text × Text × Text → FeaturedWord
  featured_word (word, part, definition) = record {
    word = trim_space word;
    part_of_speech = normalize_featured_part_of_speech part;
    definition = trim_space definition;
  }

  -- the loop over the blocks, with inGlossary and the words found so far
  unfoldable pub glossary : Json → Bool → List FeaturedWord → List Text → List FeaturedWord
  unfolding byte_len normalize_featured_part_of_speech trim_space
  glossary json inside words [] = words
  glossary json inside words (block ∷ blocks) = elim (is_rule (trim_space block)) [
    | true ↦ elim (inside && ltb 0 (length words)) [
      | true ↦ words
      | false ↦ glossary json true words blocks
    ]
    | false ↦ elim inside [
      | false ↦ glossary json false words blocks
      | true ↦ elim (json.match_featured (trim_space block)) [
        | some m ↦ glossary json true (words ++ featured_word m ∷ []) blocks
        | none ↦ elim (ltb 0 (length words)) [
          | true ↦ words
          | false ↦ glossary json true words blocks
        ]
      ]
    ]
  ]

  unfoldable pub legacy_words : Json → Text → List FeaturedWord
  unfolding glossary
  legacy_words json body_blocks = elim (json.block_texts_of body_blocks) [
    | none ↦ []
    | some blocks ↦ glossary json false [] blocks
  ]

  -- the stored words where there are any, else those of the legacy glossary
  unfoldable pub content_featured_words : Json → Text → Text → List FeaturedWord
  unfolding legacy_words
  content_featured_words json metadata body_blocks = elim (json.featured_of metadata) [
    | some (w ∷ ws) ↦ w ∷ ws
    | other ↦ legacy_words json body_blocks
  ]

unfoldable pub content_grammar_points : Json → Text → List GrammarPoint
content_grammar_points json metadata = elim (json.grammar_of metadata) [
  | none ↦ []
  | some points ↦ points
]
