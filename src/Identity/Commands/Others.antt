-- ===== src/Identity/Commands/Others.antt =====
-- The writes that are no progress reports leave the progress table alone.
use el_backend.Identity.Vocabulary.{entry_row, validate_vocabulary}
use el_backend.Database.Keeps.{after-eq-ok}
use el_backend.Identity.Commands.Events.{map_err-eq-ok, drop_value-eq-ok}
use el_backend.Database.Keeps.{with_tables-reads}
use el_backend.Identity.Input.{
  validate_grammar_attempt, validate_vocabulary_review, VocabularyReviewInput,
}
use el_backend.Database.{map_err, with_tables, Query}
use el_backend.Identity.Commands.{
  remove, review, learn, practise, reviewed_entry, mark, effect, with_event, listen, Command,
}
use el_backend.Identity.Queries.{delete_bookmark, create_user_event, upsert_bookmark}
use el_backend.Identity.Schema.{
  delete, vocabulary, upsert, grammar_attempt, bookmark, Operation, EntityType, VocabularyEntry,
  GrammarAttempt, Accounts,
}
use el_backend.Identity.Learning.{
  Review, update_vocabulary_review, upsert_grammar_attempt, upsert_vocabulary_entry,
  delete_vocabulary_entry,
}
use el_backend.Base.{
  ◌∙◌, none, some, Option, inr, inl, Outcome-cases, false, true, arith, Bool, ok, ◌≡◌, ℕ,
}
use el_backend.Identity.Service.{
  missing_entry, review_row, grammar_row, bookmark_operation, bookmark_write, Moment,
}
use el_backend.Text.{Unicode}

-- every other write leaves the progress table alone
module _ ⦃unicode : Unicode⦄ (t : Moment) (user : ℕ) (d d' : Accounts) where
  event_progress :
      {A : Type 0} (kind : EntityType) (entity : A → ℕ) (operation : Operation)
      (q : Query Accounts A) (a : A)
      → ((x : A) (y : Accounts) → q d ≡ ok (x, y) → y.progress ≡ d.progress)
      → with_event user kind entity operation q d ≡ ok (a, d')
      → d'.progress ≡ d.progress
  unfolding create_user_event
  event_progress kind entity operation q a keeps h = elim (Outcome-cases (q d)) [
    | inl ((b, d1), e) ↦ ground (arith, keeps b d1 e)
    | inr (c, e) ↦ absurd (ground arith)
  ]

module _ ⦃unicode : Unicode⦄ (t : Moment) (user : ℕ) where
  -- a write that is no progress report
  abbrev pub IsOther : Command → Type 0
  IsOther (listen input) = ⊥
  IsOther _ = Unit

  bookmark_progress :
      (c : ℕ) (enabled : Bool) (d : Accounts) (x : Unit {0}) (y : Accounts)
      → bookmark_write t.now user c enabled d ≡ ok (x, y)
      → y.progress ≡ d.progress
  unfolding upsert_bookmark delete_bookmark
  bookmark_progress c true d x y h = ground arith
  bookmark_progress c false d x y h = ground arith

  grammar_progress :
      (e : GrammarAttempt) (d : Accounts) (x : GrammarAttempt) (y : Accounts)
      → upsert_grammar_attempt t.now e d ≡ ok (x, y)
      → y.progress ≡ d.progress
  unfolding upsert_grammar_attempt
  grammar_progress e d x y h = ground arith

  entry_progress :
      (e : VocabularyEntry) (d : Accounts) (x : VocabularyEntry) (y : Accounts)
      → upsert_vocabulary_entry t.now e d ≡ ok (x, y)
      → y.progress ≡ d.progress
  unfolding upsert_vocabulary_entry
  entry_progress e d x y h = ground arith

  review_progress :
      (entry : ℕ) (e : Review) (d : Accounts) (x : VocabularyEntry) (y : Accounts)
      → update_vocabulary_review user entry e d ≡ ok (x, y)
      → y.progress ≡ d.progress
  unfolding update_vocabulary_review
  review_progress entry e d x y h = ground arith

  remove_progress :
      (entry : ℕ) (d : Accounts) (x : Unit {0}) (y : Accounts)
      → delete_vocabulary_entry user entry d ≡ ok (x, y)
      → y.progress ≡ d.progress
  unfolding delete_vocabulary_entry
  remove_progress entry d x y h = ground arith

  reviewed_entry_progress :
      (input : Option VocabularyReviewInput) (row : VocabularyEntry) (d : Accounts)
      (x : VocabularyEntry) (y : Accounts)
      → reviewed_entry t user input row d ≡ ok (x, y)
      → y.progress ≡ d.progress
  reviewed_entry_progress none row d x y h = ground arith
  reviewed_entry_progress (some input) row d x y h =
      let (v, d1, e, k) = after-eq-ok (with_tables (validate_vocabulary_review input) d) _ h in
      rw (with_tables-reads _ d d1 v e) at (review_progress row.id (review_row input) d1 x y k)

  pub effect-progress_other :
      (command : Command) (d d' : Accounts)
      → IsOther command
      → effect t user command d ≡ ok (tt, d')
      → d'.progress ≡ d.progress
  unfolding effect
  effect-progress_other (mark c enabled) d d' o h =
      let (a, e) = drop_value-eq-ok _ d' h in
      event_progress t user d d' bookmark (λ _. c) (bookmark_operation enabled)
        (bookmark_write t.now user c enabled) a (bookmark_progress c enabled d) e
  effect-progress_other (listen input) d d' o h = absurd o
  effect-progress_other (practise input) d d' o h =
      let row = grammar_row t.now user input in
      let (a, e) = drop_value-eq-ok _ d' h in
      let (x, d1, v, k) = after-eq-ok (with_tables (validate_grammar_attempt input) d) _ e in
      rw (with_tables-reads _ d d1 x v) at (
        event_progress t user d1 d' grammar_attempt (λ _. input.id) upsert
          (upsert_grammar_attempt t.now row) a (grammar_progress row d1) k)
  effect-progress_other (learn input) d d' o h =
      let (a, e) = drop_value-eq-ok _ d' h in
      let (n, d1, v, k) = after-eq-ok (with_tables (validate_vocabulary input) d) _ e in
      let new = entry_row t user n input in
      let (row, d2, v2, k2) = after-eq-ok (upsert_vocabulary_entry t.now new d1) _ k in
      rw (with_tables-reads _ d d1 n v) at (
        event_progress t user d2 d' vocabulary (λ (r : VocabularyEntry). r.id) upsert
          (reviewed_entry t user input.review row) a (reviewed_entry_progress input.review row d2)
          k2
        ∙ entry_progress new d1 row d2 v2)
  effect-progress_other (review entry input) d d' o h =
      let row = review_row input in
      let (a, e) = drop_value-eq-ok _ d' h in
      let (x, d1, v, k) = after-eq-ok (with_tables (validate_vocabulary_review input) d) _ e in
      rw (with_tables-reads _ d d1 x v) at (
        event_progress t user d1 d' vocabulary (λ _. entry) upsert
          (λ y. map_err missing_entry (update_vocabulary_review user entry row y)) a
          (λ r y s.
            review_progress entry row d1 r y (map_err-eq-ok t user missing_entry _ (r, y) s))
          k)
  effect-progress_other (remove entry) d d' o h =
      let (a, e) = drop_value-eq-ok _ d' h in
      event_progress t user d d' vocabulary (λ _. entry) delete (delete_vocabulary_entry user entry)
        a (remove_progress entry d) e
