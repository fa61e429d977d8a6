-- ===== src/Tests/Words.antt =====
-- Runs of the word list's normal form and of the checks on grammar points.
use el_backend.Publish.Grammar.{valid_point_iff, IsExercise}
use el_backend.Base.{refl, ok, [], ◌≤◌, ◌↔◌, true, false, ◌∷◌, ◌≡◌}
use el_backend.Text.{
  count_from, has_prefix, lower_rune, to_lower, is_space, text_eq, trim_right, count, trim_left,
  rune_count, trim_space, byte_len, valid_string, codes,
}
use el_backend.Publish.Document.{check_options, is_blank, GrammarPoint, valid_grammar_point}
use el_backend.Identity.Input.Word.{normalize_vocabulary_word-IsNormal, IsWord}
use el_backend.Identity.Input.{matches_word, normalize_vocabulary_word}
use el_backend.Text.Ascii.{ascii}

accepted_word : normalize_vocabulary_word (codes " Well-Known ") ≡ ok (codes "well-known")
unfolding normalize_vocabulary_word valid_string trim_space trim_left trim_right is_space
    matches_word to_lower lower_rune
accepted_word = refl

normalize_vocabulary_word-IsNormal_example :
    IsWord (codes "well-known")
    × (rune_count (codes "well-known") ≤ 100)
    × (normalize_vocabulary_word (codes "well-known") ≡ ok (codes "well-known"))
normalize_vocabulary_word-IsNormal_example =
    normalize_vocabulary_word-IsNormal (codes " Well-Known ") (codes "well-known") accepted_word

abbrev exercise : GrammarPoint
exercise = record {
  kind = codes "tense";
  title = codes "Past";
  explanation = codes "The past of go";
  example = codes "She went home.";
  prompt = codes "She _____ home.";
  answer = codes "went";
  options = codes "goes" ∷ codes " Went" ∷ [];
}

abbrev spoiled : GrammarPoint
spoiled = record exercise { options = codes "went" ∷ codes "Went " ∷ [] }

checks : Unit {0}
unfolding valid_grammar_point is_blank byte_len count text_eq check_options to_lower trim_space
    trim_left trim_right is_space lower_rune has_prefix count_from
checks = tt

exercise_run : valid_grammar_point exercise ≡ true
unfolding checks
exercise_run = refl

spoiled_run : valid_grammar_point spoiled ≡ false
unfolding checks
spoiled_run = refl

valid_point_iff_example : (valid_grammar_point exercise ≡ true) ↔ IsExercise exercise
valid_point_iff_example = valid_point_iff exercise
