-- ===== src/Identity/Commands/Atomic.antt =====
-- Every write of a client is all or nothing, whatever round trip fails.
use el_backend.Identity.Vocabulary.{vocabulary_body, review_part}
use el_backend.Identity.Learning.{
  update_vocabulary_review, delete_vocabulary_entry, upsert_progress,
}
use el_backend.Identity.Queries.{create_user_event}
use el_backend.Identity.Commands.{
  remove, review, learn, practise, listen, mark, reviewed_entry, practise_query, learn_query,
  Command, effect, perform, drop_value, with_event, forget,
}
use el_backend.Identity.Input.{
  validate_vocabulary_review, validate_grammar_attempt, VocabularyInput, VocabularyReviewInput,
  GrammarAttemptInput, ProgressInput,
}
use el_backend.Database.Atomic.{transact_atomic, AllOrNothing}
use el_backend.Database.Refine.{
  Refines-on_error, Refines-pure, Refines-lift, Refines-bind, refines_rules, Refines-statement,
  Refines,
}
use el_backend.Identity.Service.{
  review_row, missing_entry, if_valid, delete_vocabulary_body, review_body, grammar_body,
  progress_row, bookmark_write, bookmark_operation, progress_body, bookmark_body, Moment,
}
use el_backend.Identity.Schema.{
  grammar_attempt, delete, VocabularyEntry, vocabulary, upsert, progress, bookmark, Operation,
  EntityType, Accounts,
}
use el_backend.Base.{
  refl, none, arith, Outcome-cases, err, inr, some, inl, ok, ◌⊎◌, Option, ◌≡◌, Bool, ℕ, Outcome,
}
use el_backend.Database.{
  transact, map_err, unavailable, with_tables, then_query, pure, statement, ◌>>=◌, Query, World,
  Error, Tx,
}
use el_backend.Text.{Unicode}

module _ {A : Type 0} where
  -- the statements of a method, its event, and the value that it returns
  Refines-event :
      (m : Tx Accounts A) (q : Query Accounts A)
      → Refines m q
      → (u : ℕ) (kind : EntityType) (entity : A → ℕ) (operation : Operation)
      → Refines
          (m >>= λ row.
            statement (create_user_event u kind (entity row) operation) >>= λ _. pure row)
          (with_event u kind entity operation q)
  Refines-event m q h u kind entity operation = search refines_rules

  AllOrNothing-forget :
      (r : Outcome Error A × World Accounts) (before : Accounts) (q : Query Accounts A)
      → AllOrNothing r.0 before r.1.tables q
      → AllOrNothing (forget r).0 before (forget r).1.tables (λ d. drop_value (q d))
  AllOrNothing-forget r before q h = record {
    made = λ a x. elim (Outcome-cases r.0) [
      | inl (b, e) ↦ rw (h.made b e)
      | inr (c, e) ↦ absurd (ground arith)
    ];
    failed = λ e x. elim (Outcome-cases r.0) [
      | inl (b, y) ↦ absurd (ground arith)
      | inr (c, y) ↦ map_doubt (h.failed e (ground arith))
    ];
  }
    where
      map_doubt :
          {e : Error}
          → (r.1.tables ≡ before)
            ⊎ ((e ≡ unavailable) × ((a : A) × (q before ≡ ok (a, r.1.tables))))
          → (r.1.tables ≡ before)
            ⊎ ((e ≡ unavailable) × ((a : Unit {0}) × (drop_value (q before) ≡ ok (a, r.1.tables))))
      map_doubt (inl x) = inl x
      map_doubt (inr (x, (a, y))) = inr (x, (tt, rw y))

module _ ⦃unicode : Unicode⦄ (t : Moment) (u : ℕ) where
  pub Refines-mark :
      (c : ℕ) (enabled : Bool)
      → Refines (bookmark_body t.now u c enabled) (
          with_event u bookmark
            (λ _. c)
            (bookmark_operation enabled)
            (bookmark_write t.now u c enabled))
  unfolding bookmark_body
  Refines-mark c enabled =
      Refines-event _ _ (Refines-statement _) u bookmark (λ _. c) (bookmark_operation enabled)

  pub Refines-listen :
      (input : ProgressInput)
      → Refines (progress_body t.now u input) (
          with_event u progress
            (λ _. input.content_id)
            upsert
            (upsert_progress t.now (progress_row t.now u input)))
  unfolding progress_body
  Refines-listen input =
      Refines-event _ _ (Refines-statement _) u progress (λ _. input.content_id) upsert

  pub Refines-practise :
      (input : GrammarAttemptInput)
      → Refines (grammar_body t.now u input) (practise_query t u input)
  unfolding grammar_body
  Refines-practise input =
      Refines-bind _ _ _ _ (Refines-lift _)
        λ _. Refines-event _ _ (Refines-statement _) u grammar_attempt (λ _. input.id) upsert

  Refines-review_part :
      (input : Option VocabularyReviewInput) (row : VocabularyEntry)
      → Refines (review_part u input row) (reviewed_entry t u input row)
  unfolding review_part
  Refines-review_part none row = Refines-pure row
  Refines-review_part (some input) row =
      Refines-bind _ _ _ _ (Refines-lift _) (λ _. Refines-statement _)

  pub Refines-learn :
      (input : VocabularyInput) → Refines (vocabulary_body t u input) (learn_query t u input)
  unfolding vocabulary_body
  Refines-learn input = Refines-bind _ _ _ _ (Refines-lift _) λ normalized.
      Refines-bind _ _ _ _ (Refines-statement _) λ row.
        Refines-event _ _ (Refines-review_part input.review row) u vocabulary
          (λ (r : VocabularyEntry). r.id) upsert

  pub Refines-review :
      (entry : ℕ) (input : VocabularyReviewInput)
      → Refines (review_body u entry input) (
          with_event u vocabulary
            (λ _. entry)
            upsert
            (λ d. map_err missing_entry (update_vocabulary_review u entry (review_row input) d)))
  unfolding review_body
  Refines-review entry input =
      Refines-event _ _ (Refines-on_error _ _) u vocabulary (λ _. entry) upsert

  pub Refines-remove :
      (entry : ℕ)
      → Refines
          (delete_vocabulary_body u entry)
          (with_event u vocabulary (λ _. entry) delete (delete_vocabulary_entry u entry))
  unfolding delete_vocabulary_body
  Refines-remove entry = Refines-event _ _ (Refines-statement _) u vocabulary (λ _. entry) delete

  -- validation in front of the transaction
  checked_atomic :
      {A : Type 0} (v : Outcome Error (Unit {0})) (m : Tx Accounts A) (q : Query Accounts A)
      (w : World Accounts)
      → ((x : Unit {0}) → v ≡ ok x → Refines m (then_query (with_tables v) (λ _. q)))
      → AllOrNothing
          (if_valid v (transact m) w).0
          w.tables
          (if_valid v (transact m) w).1.tables
          (then_query (with_tables v) (λ _. q))
  checked_atomic (ok x) m q w h = transact_atomic m q (h x refl) w
  checked_atomic (err e) m q w h = record { made = λ a x. ground arith; failed = λ c x. inl refl }

  -- A write either succeeds and has had its whole effect, or fails and has changed nothing; only
  -- where the round trip of the commit is lost may it have had its whole effect and be reported as
  -- failed.
  pub perform_atomic :
      (command : Command) (w : World Accounts)
      → AllOrNothing
          (perform t u command w).0
          w.tables
          (perform t u command w).1.tables
          (effect t u command)
  unfolding perform effect
  perform_atomic (mark c enabled) w =
      AllOrNothing-forget (transact (bookmark_body t.now u c enabled) w) w.tables _
        (transact_atomic _ _ (Refines-mark c enabled) w)
  perform_atomic (listen input) w =
      AllOrNothing-forget (transact (progress_body t.now u input) w) w.tables _
        (transact_atomic _ _ (Refines-listen input) w)
  perform_atomic (practise input) w =
      AllOrNothing-forget
        (if_valid (validate_grammar_attempt input) (transact (grammar_body t.now u input)) w)
        w.tables _ (checked_atomic _ _ _ w (λ x e. Refines-practise input))
  perform_atomic (learn input) w =
      AllOrNothing-forget (transact (vocabulary_body t u input) w) w.tables _
        (transact_atomic _ _ (Refines-learn input) w)
  perform_atomic (review entry input) w =
      AllOrNothing-forget
        (if_valid (validate_vocabulary_review input) (transact (review_body u entry input)) w)
        w.tables _ (checked_atomic _ _ _ w (λ x e. rw e (Refines-review entry input)))
  perform_atomic (remove entry) w =
      AllOrNothing-forget (transact (delete_vocabulary_body u entry) w) w.tables _
        (transact_atomic _ _ (Refines-remove entry) w)
