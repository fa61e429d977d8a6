-- ===== src/Home/Defs.antt =====
-- personalizedHomeSections of internal/httpapi/recommendations.go: the data and the loops.
use el_backend.Base.Int.{neg_part, negsuc, pos, ltb_ℤ, pos_part, ℤ}
use el_backend.Identity.Schema.{GrammarAttempt, LearningProgress}
use el_backend.Base.{
  ◌%◌, ◌++◌, ◌*◌, length, ◌-◌, ◌&&◌, ◌^◌, true, not, ◌==◌, false, ltb, ◌||◌, if◌then◌else◌, Bool,
  ◌∷◌, some, none, ◌+◌, Option, [], List, ℕ,
}
use el_backend.Text.{text_eq, Text}

-- QualityScore and LearningGoals, as encoding/json reads them from the metadata column
pub record Metadata : Type 0 where
  pub quality_score : ℤ
  pub learning_goals : List Text

-- ListPublishedContentsRow; the other columns are copied into the response
pub record Row : Type 0 where
  pub id : ℕ
  pub level : Option Text
  pub released_at : Option ℕ
  pub metadata : Metadata

pub data Reason : Type 0 where
  continue_learning high_quality matches_level vocabulary_rich grammar_practice recently_added :
      Reason

-- recommendationSummary
pub record Summary : Type 0 where
  pub row : Row
  pub reason : Reason

-- byID: the last row with an id
unfoldable pub by_id : ℕ → List Row → Option Row
by_id id [] = none
by_id id (r ∷ rows) = elim (by_id id rows) [
  | none ↦ if r.id == id then some r else none
  | some x ↦ some x
]

-- a Go map as an association list: a write replaces the value of its key
unfoldable pub put_flag : ℕ → Bool → List (ℕ × Bool) → List (ℕ × Bool)
put_flag k v [] = (k, v) ∷ []
put_flag k v ((j, w) ∷ m) = if j == k then (k, v) ∷ m else (j, w) ∷ put_flag k v m

-- the zero value where the key is missing
unfoldable pub flag : ℕ → List (ℕ × Bool) → Bool
flag k [] = false
flag k ((j, v) ∷ m) = if j == k then v else flag k m

-- levelActivity[level]++
unfoldable pub bump : Text → List (Text × ℕ) → List (Text × ℕ)
unfolding text_eq
bump k [] = (k, 1) ∷ []
bump k ((j, n) ∷ m) = if text_eq j k then (j, n + 1) ∷ m else (j, n) ∷ bump k m

unfoldable pub activity_of : List (Text × ℕ) → Text → ℕ
unfolding text_eq
activity_of [] k = 0
activity_of ((j, n) ∷ m) k = if text_eq j k then n else activity_of m k

-- the variables of the first loop
pub record Scan : Type 0 where
  pub completed : List (ℕ × Bool)
  pub continued : List (ℕ × Bool)
  pub continue_items : List Summary
  pub level_activity : List (Text × ℕ)

abbrev pub start : Scan
start = record { completed = []; continued = []; continue_items = []; level_activity = [] }

abbrev pub count_level : Option Text → List (Text × ℕ) → List (Text × ℕ)
count_level none m = m
count_level (some level) m = bump level m

-- what one progress row does once its content is found
unfoldable pub scan_found : LearningProgress → Row → Scan → Scan
unfolding put_flag bump
scan_found item row s =
    let counted = record s { level_activity = count_level row.level s.level_activity } in
    if item.completed || not (ltb_ℤ (pos 0) item.position_seconds) || length s.continue_items == 5
    then counted
    else record counted {
      continue_items = s.continue_items ++ record { row = row; reason = continue_learning } ∷ [];
      continued = put_flag row.id true s.continued;
    }

unfoldable pub scan_known : LearningProgress → Option Row → Scan → Scan
unfolding scan_found
scan_known item none s = s
scan_known item (some row) s = scan_found item row s

unfoldable pub scan_item : List Row → Scan → LearningProgress → Scan
unfolding scan_known by_id put_flag
scan_item contents s item =
    scan_known item (by_id item.content_id contents)
      (record s { completed = put_flag item.content_id item.completed s.completed })

unfoldable pub scan_progress : List Row → List LearningProgress → Scan → Scan
unfolding scan_item
scan_progress contents [] s = s
scan_progress contents (p ∷ ps) s = scan_progress contents ps (scan_item contents s p)

-- level < preferredLevel
unfoldable pub text_lt : Text → Text → Bool
text_lt s [] = false
text_lt [] (d ∷ t) = true
text_lt (c ∷ s) (d ∷ t) = ltb c d || (c == d && text_lt s t)

-- the loop over the map levelActivity, whose order is not specified: `levels` are its keys in the
-- order of the iteration
unfoldable pub beats : (Text → ℕ) → Text → Text → Bool
unfolding text_lt
beats activity level preferred =
    ltb (activity preferred) (activity level)
    || (activity level == activity preferred && text_lt level preferred)

unfoldable pub preferred_from : (Text → ℕ) → Text → List Text → Text
unfolding beats
preferred_from activity preferred [] = preferred
preferred_from activity preferred (level ∷ levels) =
    preferred_from activity (if beats activity level preferred then level else preferred) levels

-- grammarCorrect and grammarQuestions are int32: the sums are kept modulo 2 ^ 32
abbrev pub add_count : ℕ → ℤ → ℕ
add_count sum count = (sum + pos_part count + (2 ^ 32 - neg_part count)) % 2 ^ 32

unfoldable pub grammar_sums : List GrammarAttempt → ℕ × ℕ → ℕ × ℕ
grammar_sums [] sums = sums
grammar_sums (a ∷ as') (correct, questions) =
    grammar_sums as' (add_count correct a.correct_count, add_count questions a.question_count)

-- the int32 with these bits
abbrev pub int32 : ℕ → ℤ
int32 n = if ltb n (2 ^ 31) then pos n else negsuc (2 ^ 32 - 1 - n)

-- questions > 0 && float64(correct) / float64(questions) < 0.8; on int32 values the quotient is below
-- the float64 0.8 exactly if 5 * correct < 4 * questions
unfoldable pub below_four_fifths : ℤ → ℤ → Bool
below_four_fifths correct questions =
    ltb_ℤ (pos 0) questions
    && ltb (5 * pos_part correct + 4 * neg_part questions)
        (4 * pos_part questions + 5 * neg_part correct)

unfoldable pub needs_grammar_practice : List GrammarAttempt → Bool
unfolding grammar_sums below_four_fifths
needs_grammar_practice attempts =
    let (correct, questions) = grammar_sums attempts (0, 0) in
    below_four_fifths (int32 correct) (int32 questions)
