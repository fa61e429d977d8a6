-- ===== src/Identity/Commands.antt =====
-- The writes of a signed-in client as one type, and what each does to the tables when nothing
-- fails: `effect`. The methods of Service are in `perform`; their results are dropped.
use el_backend.Identity.Learning.{
  delete_vocabulary_entry, upsert_grammar_attempt, upsert_progress, upsert_vocabulary_entry,
  update_vocabulary_review,
}
use el_backend.Identity.Vocabulary.{entry_row, set_vocabulary, validate_vocabulary}
use el_backend.Identity.Queries.{create_user_event}
use el_backend.Identity.Input.{
  validate_vocabulary_review, validate_grammar_attempt, VocabularyReviewInput, ProgressInput,
  VocabularyInput, GrammarAttemptInput,
}
use el_backend.Identity.Schema.{
  delete, upsert, progress, vocabulary, grammar_attempt, GrammarAttempt, bookmark, VocabularyEntry,
  Accounts, Operation, EntityType,
}
use el_backend.Identity.Service.{
  missing_entry, grammar_row, progress_row, review_row, delete_vocabulary, set_vocabulary_review,
  bookmark_write, bookmark_operation, set_grammar_attempt, set_progress, set_bookmark, Moment,
}
use el_backend.Database.{map_err, with_tables, then_query, World, Query, Error}
use el_backend.Text.{Unicode}
use el_backend.Base.{none, some, err, ok, Option, Bool, ℕ, Outcome}
pub mod Atomic
pub mod Calm
pub mod Events
pub mod History
pub mod Logged
pub mod Progress
pub mod Others
pub mod Latest

pub data Command : Type 0 where
  mark : ℕ → Bool → Command
  listen : ProgressInput → Command
  practise : GrammarAttemptInput → Command
  learn : VocabularyInput → Command
  review : ℕ → VocabularyReviewInput → Command
  remove : ℕ → Command

abbrev pub discard : {A : Type 0} → Outcome Error A → Outcome Error (Unit {0})
discard (ok a) = ok tt
discard (err e) = err e

abbrev pub forget :
    {A : Type 0} → Outcome Error A × World Accounts → Outcome Error (Unit {0}) × World Accounts
forget r = (discard r.0, r.1)

-- one row changes, and the event is recorded
abbrev pub with_event :
    {A : Type 0} → ℕ → EntityType → (A → ℕ) → Operation → Query Accounts A → Query Accounts A
with_event u kind entity operation q =
    then_query q
      λ row. then_query (create_user_event u kind (entity row) operation) (λ _ d. ok (row, d))

abbrev pub drop_value :
    {A : Type 0} → Outcome Error (A × Accounts) → Outcome Error (Unit {0} × Accounts)
drop_value (ok (a, d)) = ok (tt, d)
drop_value (err e) = err e

module _ ⦃unicode : Unicode⦄ (t : Moment) (u : ℕ) where
  unfoldable pub perform : Command → World Accounts → Outcome Error (Unit {0}) × World Accounts
  unfolding set_bookmark set_progress set_grammar_attempt set_vocabulary set_vocabulary_review
      delete_vocabulary
  perform (mark c enabled) w = forget (set_bookmark t u c enabled w)
  perform (listen input) w = forget (set_progress t u input w)
  perform (practise input) w = forget (set_grammar_attempt t u input w)
  perform (learn input) w = forget (set_vocabulary t u input w)
  perform (review entry input) w = forget (set_vocabulary_review u entry input w)
  perform (remove entry) w = forget (delete_vocabulary u entry w)

  abbrev pub reviewed_entry :
      Option VocabularyReviewInput → VocabularyEntry → Query Accounts VocabularyEntry
  reviewed_entry none row d = ok (row, d)
  reviewed_entry (some input) row d =
      then_query (with_tables (validate_vocabulary_review input))
        (λ _. update_vocabulary_review u row.id (review_row input)) d

  abbrev pub learn_query : VocabularyInput → Query Accounts VocabularyEntry
  learn_query input = then_query (with_tables (validate_vocabulary input)) λ normalized.
      then_query (upsert_vocabulary_entry t.now (entry_row t u normalized input)) λ row.
        with_event u vocabulary (λ (r : VocabularyEntry). r.id) upsert
          (reviewed_entry input.review row)

  abbrev pub practise_query : GrammarAttemptInput → Query Accounts GrammarAttempt
  practise_query input = then_query (with_tables (validate_grammar_attempt input)) λ _.
      with_event u grammar_attempt (λ _. input.id) upsert
        (upsert_grammar_attempt t.now (grammar_row t.now u input))

  abbrev pub review_query : ℕ → VocabularyReviewInput → Query Accounts VocabularyEntry
  review_query entry input = then_query (with_tables (validate_vocabulary_review input)) λ _.
      with_event u vocabulary (λ _. entry) upsert
        (λ d. map_err missing_entry (update_vocabulary_review u entry (review_row input) d))

  -- what a write does when no round trip fails
  unfoldable pub effect : Command → Query Accounts (Unit {0})
  effect (mark c enabled) d = drop_value (
      with_event u bookmark (λ _. c) (bookmark_operation enabled) (bookmark_write t.now u c enabled)
        d)
  effect (listen input) d = drop_value (
      with_event u progress (λ _. input.content_id) upsert
        (upsert_progress t.now (progress_row t.now u input)) d)
  effect (practise input) d = drop_value (practise_query input d)
  effect (learn input) d = drop_value (learn_query input d)
  effect (review entry input) d = drop_value (review_query entry input d)
  effect (remove entry) d =
      drop_value (with_event u vocabulary (λ _. entry) delete (delete_vocabulary_entry u entry) d)
