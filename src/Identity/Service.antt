-- ===== src/Identity/Service.antt =====
-- The methods of Service in internal/identity/service.go and vocabulary.go: each is a transaction
-- of statements, or one statement on the pool. A `…_body` is what stands between Begin and Commit.
use el_backend.Identity.Queries.{create_user_event, delete_bookmark, upsert_bookmark}
use el_backend.Text.{trim_space}
use el_backend.Identity.Learning.{
  upsert_grammar_attempt, delete_vocabulary_entry, update_vocabulary_review, upsert_progress,
  Review,
}
use el_backend.Identity.Schema.{
  progress, vocabulary, grammar_attempt, bookmark, VocabularyEntry, delete, GrammarAttempt,
  LearningProgress, Accounts, upsert, Operation,
}
use el_backend.Base.{false, err, true, none, ok, if◌then◌else◌, some, ℕ, Outcome, Option, Bool}
use el_backend.Database.{
  lift, ◌>>◌, transact, statement, on_error, no_rows, Tx, Query, pure, vocabulary_not_found, World,
  Error, ◌>>=◌,
}
use el_backend.Identity.Input.{
  validate_vocabulary_review, is_zero, validate_grammar_attempt, micros, GrammarAttemptInput,
  ProgressInput, VocabularyReviewInput,
}

-- now() of the transaction in microseconds, and time.Now() in nanoseconds
pub record Moment : Type 0 where
  pub now : ℕ
  pub clock : ℕ

-- SetBookmark
abbrev pub bookmark_operation : Bool → Operation
bookmark_operation true = upsert
bookmark_operation false = delete

abbrev pub bookmark_write : ℕ → ℕ → ℕ → Bool → Query Accounts (Unit {0})
bookmark_write now u c true = upsert_bookmark now u c
bookmark_write now u c false = delete_bookmark u c

unfoldable pub bookmark_body : ℕ → ℕ → ℕ → Bool → Tx Accounts (Unit {0})
unfolding ◌>>=◌ pure
bookmark_body now u c enabled = do
  statement (bookmark_write now u c enabled)
  statement (create_user_event u bookmark c (bookmark_operation enabled))
  pure tt

unfoldable pub set_bookmark :
    Moment → ℕ → ℕ → Bool → World Accounts → Outcome Error (Unit {0}) × World Accounts
unfolding bookmark_body
set_bookmark t u c enabled = transact (bookmark_body t.now u c enabled)

-- SetProgress and upsertProgress
abbrev pub progress_row : ℕ → ℕ → ProgressInput → LearningProgress
progress_row now u input = record {
  user_id = u;
  content_id = input.content_id;
  position_seconds = input.position_seconds;
  completed = input.completed;
  client_updated_at = micros input.client_updated_at;
  server_updated_at = now;
}

unfoldable pub progress_body : ℕ → ℕ → ProgressInput → Tx Accounts LearningProgress
unfolding ◌>>=◌ pure
progress_body now u input = do
  row ← statement (upsert_progress now (progress_row now u input))
  statement (create_user_event u progress input.content_id upsert)
  pure row

unfoldable pub set_progress :
    Moment → ℕ → ProgressInput → World Accounts → Outcome Error LearningProgress × World Accounts
unfolding progress_body
set_progress t u input = transact (progress_body t.now u input)

-- SetGrammarAttempt and upsertGrammarAttempt; the first validates before Begin, the second again
abbrev pub grammar_row : ℕ → ℕ → GrammarAttemptInput → GrammarAttempt
grammar_row now u input = record {
  user_id = u;
  id = input.id;
  content_id = input.content_id;
  content_title = trim_space input.content_title;
  correct_count = input.correct_count;
  question_count = input.question_count;
  created_at = micros input.created_at;
  updated_at = now;
}

unfoldable pub grammar_body : ℕ → ℕ → GrammarAttemptInput → Tx Accounts GrammarAttempt
unfolding ◌>>=◌ pure
grammar_body now u input = do
  lift (validate_grammar_attempt input)
  row ← statement (upsert_grammar_attempt now (grammar_row now u input))
  statement (create_user_event u grammar_attempt input.id upsert)
  pure row

abbrev pub if_valid :
    {A : Type 0}
    → Outcome Error (Unit {0})
    → (World Accounts → Outcome Error A × World Accounts)
    → World Accounts
    → Outcome Error A × World Accounts
if_valid (ok x) run w = run w
if_valid (err e) run w = (err e, w)

unfoldable pub set_grammar_attempt :
    Moment
    → ℕ
    → GrammarAttemptInput
    → World Accounts
    → Outcome Error GrammarAttempt × World Accounts
unfolding grammar_body
set_grammar_attempt t u input =
    if_valid (validate_grammar_attempt input) (transact (grammar_body t.now u input))

-- updateVocabularyReview: the parameters of the statement
abbrev pub reviewed_at : Option ℕ → Option ℕ
reviewed_at none = none
reviewed_at (some t) = if is_zero t then none else some (micros t)

abbrev pub review_row : VocabularyReviewInput → Review
review_row input = record {
  stage = input.stage;
  review_count = input.review_count;
  lapse_count = input.lapse_count;
  due_at = micros input.due_at;
  last_reviewed_at = reviewed_at input.last_reviewed_at;
  client_updated_at = micros input.client_updated_at;
}

-- SetVocabularyReview; pgx.ErrNoRows becomes ErrVocabularyNotFound
abbrev pub missing_entry : Error → Error
missing_entry no_rows = vocabulary_not_found
missing_entry e = e

unfoldable pub review_body : ℕ → ℕ → VocabularyReviewInput → Tx Accounts VocabularyEntry
unfolding ◌>>=◌ pure on_error
review_body u entry input = do
  row ← on_error missing_entry (statement (update_vocabulary_review u entry (review_row input)))
  statement (create_user_event u vocabulary entry upsert)
  pure row

unfoldable pub set_vocabulary_review :
    ℕ → ℕ → VocabularyReviewInput → World Accounts → Outcome Error VocabularyEntry × World Accounts
unfolding review_body
set_vocabulary_review u entry input =
    if_valid (validate_vocabulary_review input) (transact (review_body u entry input))

-- DeleteVocabulary
unfoldable pub delete_vocabulary_body : ℕ → ℕ → Tx Accounts (Unit {0})
unfolding ◌>>=◌ pure
delete_vocabulary_body u entry = do
  statement (delete_vocabulary_entry u entry)
  statement (create_user_event u vocabulary entry delete)
  pure tt

unfoldable pub delete_vocabulary :
    ℕ → ℕ → World Accounts → Outcome Error (Unit {0}) × World Accounts
unfolding delete_vocabulary_body
delete_vocabulary u entry = transact (delete_vocabulary_body u entry)
