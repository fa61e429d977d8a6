-- ===== src/Identity/Learning.antt =====
-- The statements of identity.sql.go that merge what a device sends into the learning tables:
-- progress, grammar attempts and the word list. The greater client time wins, row by row.
use el_backend.Base.{
  true, ℕ, Bool, not, ◌&&◌, ◌||◌, Option, none, some, [], guard, ok, err, if◌then◌else◌, leb, ◌==◌,
  max, min, find?, Outcome,
}
use el_backend.Base.Int.{ℤ, pos, ltb_ℤ}
use el_backend.Text.{storable, Text}
use el_backend.Database.{Error, no_rows, violation, Query}
use el_backend.Database.Table.{upsert_row, update_rows, delete_rows, any, merged}
use el_backend.Identity.Schema.{LearningProgress, VocabularyEntry, GrammarAttempt, Accounts}
use el_backend.Identity.Queries.{
  user_exists, progress_key, grammar_key, vocabulary_id, vocabulary_word,
}

-- UpsertProgress, the DO UPDATE part: `r` is the row, `e` is EXCLUDED
unfoldable pub merge_progress : ℕ → LearningProgress → LearningProgress → LearningProgress
merge_progress now e r =
    let fresh = leb r.client_updated_at e.client_updated_at in
    record r {
      position_seconds = if fresh then e.position_seconds else r.position_seconds;
      completed = if fresh then e.completed else r.completed;
      client_updated_at = max r.client_updated_at e.client_updated_at;
      server_updated_at = now;
    }

unfoldable pub upsert_progress : ℕ → LearningProgress → Query Accounts LearningProgress
upsert_progress now e d =
    let hits = progress_key e.user_id e.content_id in
    let merge = merge_progress now e in
    guard
      (not (user_exists e.user_id d && d.has_content e.content_id)
        || ltb_ℤ e.position_seconds (pos 0))
      violation
      (ok (
        merged e merge (find? hits d.progress),
        record d { progress = upsert_row hits e merge d.progress },
      ))

-- UpsertGrammarAttempt, with the CHECK constraints of the table
abbrev pub grammar_counts_ok : ℤ → ℤ → Bool
grammar_counts_ok correct questions =
    not (ltb_ℤ correct (pos 0))
    && not (ltb_ℤ questions (pos 1))
    && not (ltb_ℤ (pos 100) questions)
    && not (ltb_ℤ questions correct)

unfoldable pub replace_attempt : ℕ → GrammarAttempt → GrammarAttempt → GrammarAttempt
replace_attempt now e r = record r {
  content_id = e.content_id;
  content_title = e.content_title;
  correct_count = e.correct_count;
  question_count = e.question_count;
  created_at = e.created_at;
  updated_at = now;
}

unfoldable pub upsert_grammar_attempt : ℕ → GrammarAttempt → Query Accounts GrammarAttempt
unfolding storable
upsert_grammar_attempt now e d =
    let hits = grammar_key e.user_id e.id in
    let merge = replace_attempt now e in
    guard
      (not (storable e.content_title)
        || not (user_exists e.user_id d && d.has_content e.content_id)
        || not (grammar_counts_ok e.correct_count e.question_count))
      violation
      (ok (
        merged e merge (find? hits d.grammar),
        record d { grammar = upsert_row hits e merge d.grammar },
      ))

-- NULLIF(x, '') and COALESCE
abbrev pub null_if_empty : Text → Option Text
null_if_empty [] = none
null_if_empty s = some s

abbrev pub coalesce : {A : Type 0} → Option A → Option A → Option A
coalesce (some a) b = some a
coalesce none b = b

-- UpsertVocabularyEntry, the DO UPDATE part
unfoldable pub merge_entry : ℕ → VocabularyEntry → VocabularyEntry → VocabularyEntry
merge_entry now e r = record r {
  word = e.word;
  definition = coalesce e.definition r.definition;
  sentence_context = coalesce e.sentence_context r.sentence_context;
  content_id = coalesce e.content_id r.content_id;
  content_title = coalesce e.content_title r.content_title;
  created_at = min r.created_at e.created_at;
  updated_at = now;
}

abbrev pub has_content_if_any : Option ℕ → Accounts → Bool
has_content_if_any none d = Bool.true
has_content_if_any (some c) d = d.has_content c

abbrev pub storable_if_any : Option Text → Bool
storable_if_any none = true
storable_if_any (some s) = storable s

abbrev pub storable_entry : VocabularyEntry → Bool
storable_entry e =
    storable e.word
    && storable e.normalized_word
    && storable_if_any e.definition
    && storable_if_any e.sentence_context
    && storable_if_any e.content_title

-- a new row with an id that is taken violates the primary key; a row of the same word is updated
unfoldable pub upsert_vocabulary_entry : ℕ → VocabularyEntry → Query Accounts VocabularyEntry
unfolding storable
upsert_vocabulary_entry now e d =
    let hits = vocabulary_word e.user_id e.normalized_word in
    let merge = merge_entry now e in
    guard
      (not (storable_entry e)
        || not (user_exists e.user_id d && has_content_if_any e.content_id d)
        || (not (any hits d.vocabulary)
            && any (λ (r : VocabularyEntry). r.id == e.id) d.vocabulary))
      violation
      (ok (
        merged e merge (find? hits d.vocabulary),
        record d { vocabulary = upsert_row hits e merge d.vocabulary },
      ))

-- the parameters of UpdateVocabularyReview, and the columns that it writes
pub record Review : Type 0 where
  pub stage : ℤ
  pub review_count : ℤ
  pub lapse_count : ℤ
  pub due_at : ℕ
  pub last_reviewed_at : Option ℕ
  pub client_updated_at : ℕ

abbrev pub review_of : VocabularyEntry → Review
review_of r = record {
  stage = r.review_stage;
  review_count = r.review_count;
  lapse_count = r.lapse_count;
  due_at = r.review_due_at;
  last_reviewed_at = r.last_reviewed_at;
  client_updated_at = r.review_client_updated_at;
}

unfoldable pub merge_review : Review → VocabularyEntry → VocabularyEntry
merge_review e r =
    let fresh = leb r.review_client_updated_at e.client_updated_at in
    record r {
      review_stage = if fresh then e.stage else r.review_stage;
      review_count = if fresh then e.review_count else r.review_count;
      lapse_count = if fresh then e.lapse_count else r.lapse_count;
      review_due_at = if fresh then e.due_at else r.review_due_at;
      last_reviewed_at = if fresh then e.last_reviewed_at else r.last_reviewed_at;
      review_client_updated_at = max r.review_client_updated_at e.client_updated_at;
    }

-- the CHECK constraints on the review columns
abbrev pub review_columns_ok : VocabularyEntry → Bool
review_columns_ok r =
    not (ltb_ℤ r.review_stage (pos 0))
    && not (ltb_ℤ (pos 6) r.review_stage)
    && not (ltb_ℤ r.review_count (pos 0))
    && not (ltb_ℤ r.lapse_count (pos 0))
    && not (ltb_ℤ r.review_count r.lapse_count)

abbrev pub reviewed :
    Option VocabularyEntry → ℕ → ℕ → Review → Accounts → Outcome Error (VocabularyEntry × Accounts)
reviewed none u entry e d = err no_rows
reviewed (some r) u entry e d = guard (not (review_columns_ok (merge_review e r))) violation (
    ok (
      merge_review e r,
      record d { vocabulary = update_rows (vocabulary_id u entry) (merge_review e) d.vocabulary },
    ))

unfoldable pub update_vocabulary_review : ℕ → ℕ → Review → Query Accounts VocabularyEntry
update_vocabulary_review u entry e d =
    reviewed (find? (vocabulary_id u entry) d.vocabulary) u entry e d

-- DeleteVocabularyEntry
unfoldable pub delete_vocabulary_entry : ℕ → ℕ → Query Accounts (Unit {0})
delete_vocabulary_entry u entry d =
    ok (tt, record d { vocabulary = delete_rows (vocabulary_id u entry) d.vocabulary })
