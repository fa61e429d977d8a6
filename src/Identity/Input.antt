-- ===== src/Identity/Input.antt =====
-- What a client sends (internal/identity/service.go and vocabulary.go), and its validation.
-- A time.Time is the number of nanoseconds since an origin before every time that JSON can spell.
use el_backend.Database.{
  invalid_grammar_attempt, invalid_vocabulary, invalid_vocabulary_review, Error,
}
use el_backend.Text.{
  to_lower, byte_len, rune_count, text_eq, valid_string, trim_space, Text, Unicode,
}
use el_backend.Base.{
  ◌+◌, ok, none, [], ltb, ◌&&◌, ◌||◌, some, ◌∷◌, ◌==◌, true, not, guard, ◌/◌, ◌*◌, Bool, Outcome,
  List, ℕ, Option,
}
use el_backend.Base.Int.{pos, ltb_ℤ, ℤ}
pub mod Word

abbrev pub second : ℕ
second = 1_000_000_000

-- time.Time{}, the start of the year 1; the origin is the start of the year 0, less a day
abbrev pub zero_time : ℕ
zero_time = 367 * 86_400 * second

abbrev pub is_zero : ℕ → Bool
is_zero t = t == zero_time

-- 1970-01-01, 719162 days later, in microseconds
abbrev pub unix_epoch : ℕ
unix_epoch = (367 + 719_162) * 86_400 * 1_000_000

-- the microseconds that pgx sends for a timestamptz
unfoldable pub micros : ℕ → ℕ
micros t = t / 1000

pub record ProgressInput : Type 0 where
  pub content_id : ℕ
  pub position_seconds : ℤ
  pub completed : Bool
  pub client_updated_at : ℕ

pub record GrammarAttemptInput : Type 0 where
  pub id : ℕ
  pub content_id : ℕ
  pub content_title : Text
  pub correct_count : ℤ
  pub question_count : ℤ
  pub created_at : ℕ

pub record VocabularyReviewInput : Type 0 where
  pub stage : ℤ
  pub review_count : ℤ
  pub lapse_count : ℤ
  pub due_at : ℕ
  pub last_reviewed_at : Option ℕ
  pub client_updated_at : ℕ

pub record VocabularyInput : Type 0 where
  pub id : ℕ
  pub word : Text
  pub definition : Text
  pub context : Text
  pub content_id : Option ℕ
  pub content_title : Text
  pub created_at : ℕ
  pub review : Option VocabularyReviewInput

pub record MigrationInput : Type 0 where
  pub bookmarks : List ℕ
  pub progress : List ProgressInput
  pub vocabulary : List VocabularyInput
  pub grammar_attempts : List GrammarAttemptInput

-- validateGrammarAttempt
unfoldable pub validate_grammar_attempt : GrammarAttemptInput → Outcome Error (Unit {0})
validate_grammar_attempt input =
    let title = trim_space input.content_title in
    guard
      (input.id == 0
        || input.content_id == 0
        || is_zero input.created_at
        || text_eq title []
        || ltb_ℤ input.question_count (pos 1)
        || ltb_ℤ (pos 100) input.question_count
        || ltb_ℤ input.correct_count (pos 0)
        || ltb_ℤ input.question_count input.correct_count
        || ltb 300 (byte_len title))
      invalid_grammar_attempt (ok tt)

-- input.LastReviewedAt == nil || input.LastReviewedAt.IsZero()
abbrev pub never_reviewed : Option ℕ → Bool
never_reviewed none = true
never_reviewed (some t) = is_zero t

-- validateVocabularyReview
unfoldable pub validate_vocabulary_review : VocabularyReviewInput → Outcome Error (Unit {0})
validate_vocabulary_review input =
    guard
      (ltb_ℤ input.stage (pos 0)
        || ltb_ℤ (pos 6) input.stage
        || ltb_ℤ input.review_count (pos 0)
        || ltb_ℤ input.lapse_count (pos 0)
        || ltb_ℤ input.review_count input.lapse_count
        || is_zero input.due_at
        || is_zero input.client_updated_at
        || (ltb_ℤ (pos 0) input.review_count && never_reviewed input.last_reviewed_at))
      invalid_vocabulary_review (ok tt)

-- `['’-]`
abbrev pub is_joiner : ℕ → Bool
is_joiner c = c == 0x27 || c == 0x2019 || c == 0x2d

module _ ⦃u : Unicode⦄ where
  -- vocabularyWordPattern, `^[\p{L}]+(?:['’-][\p{L}]+)*$`, read from the left; the flag says that a
  -- letter must come next
  unfoldable pub matches_word : Bool → Text → Bool
  matches_word need [] = not need
  matches_word need (c ∷ s) =
      (u.is_letter c || (not need && is_joiner c)) && matches_word (not (u.is_letter c)) s

  -- NormalizeVocabularyWord
  unfoldable pub normalize_vocabulary_word : Text → Outcome Error Text
  normalize_vocabulary_word word =
      let trimmed = trim_space word in
      guard
        (not (valid_string trimmed)
          || ltb 100 (rune_count trimmed)
          || not (matches_word true trimmed))
        invalid_vocabulary (ok (to_lower trimmed))
