-- ===== src/Identity/Vocabulary.antt =====
-- SetVocabulary and upsertVocabulary of internal/identity/vocabulary.go.
use el_backend.Identity.Queries.{create_user_event}
use el_backend.Base.Int.{pos}
use el_backend.Identity.Learning.{update_vocabulary_review, upsert_vocabulary_entry, null_if_empty}
use el_backend.Identity.Schema.{vocabulary, upsert, Accounts, VocabularyEntry}
use el_backend.Identity.Input.{
  validate_vocabulary_review, unix_epoch, micros, normalize_vocabulary_word, VocabularyReviewInput,
  is_zero, VocabularyInput,
}
use el_backend.Database.{
  ◌>>◌, invalid_vocabulary, statement, lift, transact, Error, Tx, pure, World, ◌>>=◌,
}
use el_backend.Text.{rune_count, trim_space, Text, Unicode}
use el_backend.Identity.Service.{review_row, Moment}
use el_backend.Base.{ltb, ◌||◌, guard, ok, err, none, Outcome, ◌==◌, if◌then◌else◌, some, Option, ℕ}

-- createdAt := input.CreatedAt, or time.Now() where that is zero
abbrev pub created : ℕ → ℕ → ℕ
created clock t = if is_zero t then clock else t

-- a content id that is nil or uuid.Nil is NULL
abbrev pub content_or_null : Option ℕ → Option ℕ
content_or_null none = none
content_or_null (some c) = if c == 0 then none else some c

-- the columns of a new row; the review columns are the defaults of the migrations
abbrev pub entry_row : Moment → ℕ → Text → VocabularyInput → VocabularyEntry
entry_row t u normalized input = record {
  id = input.id;
  user_id = u;
  word = trim_space input.word;
  normalized_word = normalized;
  definition = null_if_empty (trim_space input.definition);
  sentence_context = null_if_empty (trim_space input.context);
  content_id = content_or_null input.content_id;
  content_title = null_if_empty (trim_space input.content_title);
  created_at = micros (created t.clock input.created_at);
  updated_at = t.now;
  review_stage = pos 0;
  review_count = pos 0;
  lapse_count = pos 0;
  review_due_at = t.now;
  last_reviewed_at = none;
  review_client_updated_at = unix_epoch;
}

module _ ⦃u : Unicode⦄ where
  abbrev pub with_word : VocabularyInput → Outcome Error Text → Outcome Error Text
  with_word input (err e) = err invalid_vocabulary
  with_word input (ok normalized) =
      guard
        (input.id == 0
          || ltb 2000 (rune_count input.definition)
          || ltb 1000 (rune_count input.context)
          || ltb 300 (rune_count input.content_title))
        invalid_vocabulary (ok normalized)

  -- the tests at the top of upsertVocabulary; the result is the normalized word
  unfoldable pub validate_vocabulary : VocabularyInput → Outcome Error Text
  validate_vocabulary input = with_word input (normalize_vocabulary_word input.word)

  -- `if input.Review != nil { … }`
  unfoldable pub review_part :
      ℕ → Option VocabularyReviewInput → VocabularyEntry → Tx Accounts VocabularyEntry
  unfolding ◌>>=◌ pure
  review_part user none row = pure row
  review_part user (some review) row = do
    lift (validate_vocabulary_review review)
    statement (update_vocabulary_review user row.id (review_row review))

  unfoldable pub vocabulary_body : Moment → ℕ → VocabularyInput → Tx Accounts VocabularyEntry
  unfolding ◌>>=◌ pure review_part
  vocabulary_body t user input = do
    normalized ← lift (validate_vocabulary input)
    row ← statement (upsert_vocabulary_entry t.now (entry_row t user normalized input))
    row' ← review_part user input.review row
    statement (create_user_event user vocabulary row'.id upsert)
    pure row'

  unfoldable pub set_vocabulary :
      Moment → ℕ → VocabularyInput → World Accounts → Outcome Error VocabularyEntry × World Accounts
  unfolding vocabulary_body
  set_vocabulary t user input = transact (vocabulary_body t user input)
